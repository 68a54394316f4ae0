-- ===== src/Tests/Executable.antt =====
-- An executable with one hunk, host/hunklib.py.
use cwdbg.Base.{
  ◌≡◌, ◌≢◌, refl, List, [], ◌∷◌, ◌++◌, none, arith, be32, All, lookup, eq_text, ok, no_return,
}
use cwdbg.Hunk.{is_ascii}
use cwdbg.Hunk.Blocks.{is_block_type, read_funcs}
use cwdbg.Hunk.Exe.{read_exe, get_debug_infos_from_exe}
use cwdbg.Hunk.Exe.Image.{
  Block, header, code, bss, symbols, relocs, debug, end, print, IsBlock, store_all,
}
use cwdbg.Hunk.Exe.RoundTrip.{Stops, at_end, at_unread, read_exe-print}
use cwdbg.Hunk.Exe.DebugInfo.{found, last_debug, get_debug_infos-print}
use cwdbg.Hunk.Exe.Limits.{read_exe-ne-no_return}

abbrev blocks : List Block
blocks =
    code (0x4e ∷ 0x71 ∷ 0x4e ∷ 0x75 ∷ [])
    ∷ relocs (record { ref_hnum = 0; offsets = 2 ∷ [] } ∷ [])
    ∷ symbols (record { name = b'm' ∷ b'a' ∷ b'i' ∷ b'n' ∷ []; value = 0 } ∷ [])
    ∷ debug (0 ∷ 0 ∷ 0 ∷ 1 ∷ 0 ∷ 0 ∷ 0 ∷ 2 ∷ [])
    ∷ end
    ∷ bss 16
    ∷ end
    ∷ []

abbrev first_block : Block
first_block = header 0 2 0 1 (1 ∷ 16 ∷ [])

blocks-IsBlock : All IsBlock (first_block ∷ blocks)
unfolding is_ascii eq_text
blocks-IsBlock = (
  record {
    resident_fits = omega arith;
    count_fits = omega arith;
    first_fits = omega arith;
    last_fits = omega arith;
    all_sizes = refl;
  },
  (
    record { whole = refl; fits = omega arith },
    (
      (record { hunk_fits = omega arith; filled = omega arith; fits = omega arith }, tt),
      (
        (
          record {
            counted = record { whole = refl; fits = omega arith };
            filled = omega arith;
            ascii = refl;
            fits = omega arith;
          },
          tt,
        ),
        (
          record { counted = record { whole = refl; fits = omega arith }; no_lines = refl },
          (tt, (omega arith, (tt, tt))),
        ),
      ),
    ),
  ),
)

-- A block of the type HUNK_DREL32 follows.
drel32-Stops : Stops (be32 1015 ++ (0 ∷ 1 ∷ []))
unfolding is_block_type lookup read_funcs
drel32-Stops = at_unread 1015 (0 ∷ 1 ∷ []) (omega arith) refl refl refl

read_exe-print_example :
    read_exe (print (first_block ∷ blocks) ++ (be32 1015 ++ (0 ∷ 1 ∷ [])))
    ≡ ok (store_all [] (first_block ∷ blocks))
read_exe-print_example =
    read_exe-print first_block blocks (be32 1015 ++ (0 ∷ 1 ∷ [])) blocks-IsBlock drel32-Stops

get_debug_infos-print_example :
    get_debug_infos_from_exe (print (first_block ∷ blocks) ++ [])
    ≡ found (last_debug none (first_block ∷ blocks))
get_debug_infos-print_example = get_debug_infos-print first_block blocks [] blocks-IsBlock at_end

read_exe-ne-no_return_example : read_exe (0 ∷ 0 ∷ 3 ∷ 0xf3 ∷ 0 ∷ []) ≢ no_return
read_exe-ne-no_return_example = read_exe-ne-no_return (0 ∷ 0 ∷ 3 ∷ 0xf3 ∷ 0 ∷ [])
