-- ===== src/Hunk/Exe/DebugInfo.antt =====
-- What `get_debug_infos_from_exe` finds in a well-formed executable.
use cwdbg.Base.{
  ◌≡◌, refl, ap, ◌∙◌, List, [], ◌∷◌, ◌++◌, Option, none, some, Bytes, All, lookup, lookup-insert,
  nat_key, Outcome, ok, raise, key_error,
}
use cwdbg.Hunk.Blocks.{hunk_debug}
use cwdbg.Hunk.Exe.{Contents, get_debug_infos_from_exe, debug_entry}
use cwdbg.Hunk.Exe.Image.{Block, debug, end, print, IsBlock, store_all}
use cwdbg.Hunk.Exe.RoundTrip.{Stops, read_exe-print}

-- The data of the last debug block.
abbrev pub last_debug : Option Bytes → List Block → Option Bytes
last_debug d [] = d
last_debug d (debug bytes ∷ bs) = last_debug (some bytes) bs
last_debug d (b ∷ bs) = last_debug d bs

abbrev entry : Option Bytes → Option (Option Bytes)
entry none = none
entry (some bytes) = some (some bytes)

lookup-store_all :
    (bs : List Block) (d : Option Bytes) (contents : Contents)
    → lookup hunk_debug contents ≡ entry d
    → lookup hunk_debug (store_all contents bs) ≡ entry (last_debug d bs)
lookup-store_all [] d contents h = h
lookup-store_all (debug bytes ∷ bs) d contents h =
    lookup-store_all bs (some bytes) _ (lookup-insert _ hunk_debug _ contents)
lookup-store_all (end ∷ bs) d contents h = lookup-store_all bs d contents h
lookup-store_all (b ∷ bs) d contents h =
    lookup-store_all bs d _ (lookup-insert _ hunk_debug _ contents ∙ h)

abbrev pub found : Option Bytes → Outcome (Option Bytes)
found none = raise key_error
found (some bytes) = ok (some bytes)

debug_entry-found :
    (contents : Contents) (d : Option Bytes)
    → lookup hunk_debug contents ≡ entry d
    → debug_entry (ok contents) ≡ found d
unfolding debug_entry
debug_entry-found contents none h = rw (h, debug_entry)
debug_entry-found contents (some bytes) h = rw (h, debug_entry)

-- From a well-formed executable the data of its last debug block is returned, and KeyError is raised
-- if it has none; what follows a block of a type without a reader does not count.
pub get_debug_infos-print :
    (b : Block) (bs : List Block) (rest : Bytes)
    → All IsBlock (b ∷ bs)
    → Stops rest
    → get_debug_infos_from_exe (print (b ∷ bs) ++ rest) ≡ found (last_debug none (b ∷ bs))
unfolding get_debug_infos_from_exe
get_debug_infos-print b bs rest h s =
    ap debug_entry (read_exe-print b bs rest h s)
    ∙ debug_entry-found (store_all [] (b ∷ bs)) (last_debug none (b ∷ bs))
        (lookup-store_all (b ∷ bs) none [] (unfold lookup in refl))
