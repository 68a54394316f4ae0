-- ===== src/Debugger/Source.antt =====
-- `get_source_view` of host/target.py up to the lines that it shows. Reading the file is a parameter: the
-- lines of the file with a name, or none where opening or reading it raises; so is the platform.
use cwdbg.Base.{
  ℕ, Bool, ◌&&◌, List, ◌++◌, Option, none, some, Bytes, text, starts_with, drop, if◌then◌else◌,
  Outcome, ok, Exec, get, pure, lift, ◌>>=◌, chain,
}
use cwdbg.Stabs.Program.{ProgramWithDebugInfo}
use cwdbg.Target.{TargetInfo}
use cwdbg.Target.SourceView.{numbered, source_view}
use cwdbg.Debugger.{Debugger, is_running, not_available}
use cwdbg.Debugger.Location.{comp_unit_at, lineno_at, pc_offset}

-- A program that was built on Linux, shown on macOS.
unfoldable pub local_fname : Bool → Bytes → Bytes
unfolding starts_with
local_fname is_darwin fname =
    if is_darwin && starts_with (text "/home") fname then text "/Users" ++ drop 5 fname else fname

unfoldable pub at_lineno : Bytes → List Bytes → Option ℕ → Outcome (List Bytes)
unfolding numbered source_view
at_lineno fname lines none = ok not_available
at_lineno fname lines (some lineno) = source_view fname (numbered 1 lines) lineno

unfoldable pub from_lines :
    ProgramWithDebugInfo → Bytes → Option (List Bytes) → TargetInfo → Outcome (List Bytes)
unfolding at_lineno lineno_at pc_offset
from_lines program fname none info = ok not_available
from_lines program fname (some lines) info =
    chain (lineno_at program (pc_offset info) none) (at_lineno fname lines)

module _ (is_darwin : Bool) (read_lines : Bytes → Option (List Bytes)) where
  unfoldable pub from_unit : ProgramWithDebugInfo → TargetInfo → Option Bytes → Outcome (List Bytes)
  unfolding local_fname from_lines
  from_unit program info none = ok not_available
  from_unit program info (some unit) =
      let fname = local_fname is_darwin unit in from_lines program fname (read_lines fname) info

  unfoldable pub from_program : Option ProgramWithDebugInfo → TargetInfo → Outcome (List Bytes)
  unfolding from_unit comp_unit_at pc_offset
  from_program none info = ok not_available
  from_program (some program) info =
      chain (comp_unit_at program (pc_offset info)) (from_unit program info)

  unfoldable pub get_source_view : TargetInfo → Exec Debugger (List Bytes)
  unfolding is_running from_program
  get_source_view info = do
    program ← get (λ (dbg : Debugger). dbg.program)
    if is_running info then lift (from_program program info) else pure not_available
