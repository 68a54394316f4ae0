-- ===== src/Debugger/Disassembly.antt =====
-- `get_disasm_view` of host/target.py. The disassembler is capstone, a parameter: from some bytes, the address
-- of the first and the greatest number of instructions it makes a list of instructions.
use cwdbg.Base.{
  ℕ, ◌+◌, ◌-◌, List, [], ◌∷◌, ◌++◌, Option, none, some, Bytes, text, decimal, left_justified,
  zero_filled, repeated, address_text, concat, length, if◌then◌else◌, pos, hex, Exec, get, pure,
  lift, ◌>>=◌,
}
use cwdbg.Target.{TargetInfo, num_next_instructions}
use cwdbg.Target.Syscalls.{SyscallArg, SyscallInfo, get_syscall_info}
use cwdbg.Debugger.{Debugger, is_running, not_available}
use cwdbg.Debugger.Arguments.{get_syscall_arg_values}

pub record Instruction : Type 0 where
  pub address : ℕ
  pub mnemonic : Bytes
  pub op_str : Bytes
  pub size : ℕ

abbrev pub Disassembler : Type 0
Disassembler = Bytes → ℕ → ℕ → List Instruction

-- `f'{instr.mnemonic:<10}{instr.op_str}\n'`
unfoldable pub instruction_text : Instruction → Bytes
unfolding left_justified
instruction_text instr = left_justified 10 instr.mnemonic ++ (instr.op_str ++ text "\n")

-- The addresses that the disassembler gives are not below the PC.
unfoldable pub instr_addr : TargetInfo → Instruction → Bytes
unfolding concat address_text zero_filled decimal
instr_addr info instr = concat (
    address_text instr.address
    ∷ text " (PC + "
    ∷ zero_filled 4 (decimal (instr.address - info.task_context.reg_pc))
    ∷ text "):    "
    ∷ [])

-- An argument that is a string is shown with it, unless it is empty.
unfoldable pub quoted : Option Bytes → Bytes
quoted none = []
quoted (some []) = []
quoted (some (c ∷ cs)) = text " => \"" ++ (c ∷ cs) ++ text "\""

unfoldable pub arg_line : ℕ → TargetInfo → SyscallArg → Exec Debugger Bytes
unfolding get_syscall_arg_values repeated hex quoted concat
arg_line indent info arg = do
  (arg_int, arg_str) ← get_syscall_arg_values info arg
  pure (
      concat (
        repeated b' ' (indent + 4)
        ∷ arg.decl
        ∷ text " = "
        ∷ hex (pos arg_int)
        ∷ quoted arg_str
        ∷ text ",\n"
        ∷ []))

unfoldable pub arg_lines : ℕ → TargetInfo → List SyscallArg → Exec Debugger (List Bytes)
unfolding arg_line
arg_lines indent info [] = pure []
arg_lines indent info (arg ∷ args) = do
  line ← arg_line indent info arg
  lines ← arg_lines indent info args
  pure (line ∷ lines)

unfoldable pub syscall_lines : ℕ → TargetInfo → Option SyscallInfo → Exec Debugger (List Bytes)
unfolding arg_lines repeated concat
syscall_lines indent info none = pure []
syscall_lines indent info (some syscall) = do
  lines ← arg_lines indent info syscall.args
  pure (
      (repeated b' ' indent ++ (syscall.name ++ text "(\n"))
      ∷ (lines ++ (repeated b' ' indent ++ text ")\n") ∷ []))

unfoldable pub other_lines : TargetInfo → List Instruction → List Bytes
unfolding instr_addr instruction_text
other_lines info [] = []
other_lines info (instr ∷ instrs) =
    (instr_addr info instr ++ instruction_text instr) ∷ other_lines info instrs

-- The first instruction is followed by the system call that it makes.
unfoldable pub disasm_lines : TargetInfo → List Instruction → Exec Debugger (List Bytes)
unfolding instr_addr instruction_text other_lines get_syscall_info syscall_lines
disasm_lines info [] = pure not_available
disasm_lines info (instr ∷ instrs) = do
  db ← get (λ (dbg : Debugger). dbg.syscall_db)
  libs ← get (λ (dbg : Debugger). dbg.lib_base_addresses)
  syscall ← lift (get_syscall_info db libs info)
  lines ← syscall_lines (length (instr_addr info instr)) info syscall
  pure ((instr_addr info instr ++ instruction_text instr) ∷ (lines ++ other_lines info instrs))

unfoldable pub get_disasm_view : Disassembler → TargetInfo → Exec Debugger (List Bytes)
unfolding is_running disasm_lines
get_disasm_view disasm info =
    if is_running info
    then disasm_lines info
        (disasm info.next_instr_bytes info.task_context.reg_pc num_next_instructions)
    else pure not_available
