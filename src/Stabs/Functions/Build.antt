-- ===== src/Stabs/Functions/Build.antt =====
-- What `build` of host/stabslib.py makes of a compilation unit with any number of functions.
use cwdbg.Base.{
  ℕ, suc, ◌+◌, ◌*◌, ◌≡◌, refl, ap, ◌∙◌, false, List, [], ◌∷◌, ◌++◌, none, some, All, arith, length,
  text_key, Option, ok,
}
use cwdbg.Stabs.Types.{n_undf, n_so, n_sline}
use cwdbg.Stabs.Text.{ends_with}
use cwdbg.Stabs.Nodes.{Stab, node, nil, cons}
use cwdbg.Stabs.Builder.Lines.{LineTable}
use cwdbg.Stabs.Builder.State.{Item, stab, new_locals, new_node}
use cwdbg.Stabs.Builder.{build_subtree, items, build}
use cwdbg.Stabs.Rising.{record_lines}
use cwdbg.Stabs.OneFunction.{
  lines_of, line_nodes, stabs_items, rounds, reading_with, unit_draft, on_items,
}
use cwdbg.Stabs.OneFunction.Rounds.{build_subtree-slines, build_subtree-so}
use cwdbg.Stabs.OneFunction.Unit.{build-unit}
use cwdbg.Stabs.OneFunction.Build.{rounds-length, items-cons}
use cwdbg.Stabs.Functions.{
  Function, IsFunction, stabs_of, items_of, unit_stabs, left_over, Recorded, functions_unit,
}
use cwdbg.Stabs.Functions.Rounds.{build_subtree-functions, length-items_of}

pub items-lines :
    (ss rest : List Stab)
    → All (λ (s : Stab). s.type ≡ n_sline) ss
    → items (ss ++ rest) ≡ stabs_items ss ++ items rest
items-lines [] rest hs = refl
items-lines (s ∷ ss) rest (h, hs) =
    items-cons s (ss ++ rest) (rw h refl) ∙ ap (λ r. stab s ∷ r) (items-lines ss rest hs)

items-functions : (fs : List Function) → All IsFunction fs → items (stabs_of fs) ≡ items_of fs
unfolding items
items-functions [] all = refl
items-functions (f ∷ fs) (h, all) =
    items-cons f.fn (f.behind ++ stabs_of fs) (rw h.is_fun refl)
    ∙ ap (λ r. stab f.fn ∷ r)
        (items-lines f.behind (stabs_of fs) h.are_lines
          ∙ ap (λ r. stabs_items f.behind ++ r) (items-functions fs all))

module _ (so : Stab) (ss : List Stab) (fs : List Function) (p : LineTable × Option ℕ)
    (table : LineTable) (so_type : so.type ≡ n_so) (is_file : ends_with b'/' so.string ≡ false)
    (line_types : All (λ (s : Stab). s.type ≡ n_sline) ss) (functions : All IsFunction fs)
    (first : record_lines none (lines_of ss) [] ≡ ok p) (others : Recorded p.1 fs p.0 table) where
  abbrev all_items : List Item
  all_items = stab so ∷ (stabs_items ss ++ items_of fs)

  build_subtree-unit :
      build_subtree (2 * length all_items + 1) none (new_locals none none none) (on_items all_items)
      ≡ (
        ok (functions_unit so ss fs),
        reading_with [] (left_over (line_nodes ss) fs) nil so.string table,
      )
  build_subtree-unit =
      let fuel : ℕ = suc (length ss + 2 * length (items_of fs)) in
      ap (λ n. build_subtree n none (new_locals none none none) (on_items all_items))
        {y = suc (rounds ss (suc fuel))}
        (omega (arith, rounds-length ss (suc fuel), length-items_of ss (items_of fs)))
      ∙ build_subtree-so (rounds ss (suc fuel)) so (stabs_items ss ++ items_of fs) so_type is_file
      ∙ build_subtree-slines (suc fuel) (some (unit_draft so)) [] so.string none ss (items_of fs)
          nil nil [] p line_types first
      ∙ build_subtree-functions fuel so fs p.1 (line_nodes ss) nil p.0 table functions others
          (omega arith)

  items-unit : items (unit_stabs so ss fs) ≡ all_items
  unfolding items
  items-unit =
      items-cons so (ss ++ stabs_of fs) (rw so_type refl)
      ∙ ap (λ r. stab so ∷ r)
          (items-lines ss (stabs_of fs) line_types
            ∙ ap (λ r. stabs_items ss ++ r) (items-functions fs functions))

  -- The stabs of a file with any number of functions (N_SO with a name that does not end in a slash, lines, and for
  -- each function N_FUN with a colon in its string and the lines of the next one) make the tree of root, file and
  -- functions. Each function has its own lines and ends where the next one begins, the last one has the end 0. If all
  -- lines can be recorded, the table is that of the lines in front of the first function, to which the lines of each
  -- other function are added, each time from the last line of the first function on.
  pub build-functions : build (unit_stabs so ss fs) ≡ (
    ok (node (new_node n_undf [] [] 0 0) (cons (functions_unit so ss fs) nil)),
    reading_with [] (left_over (line_nodes ss) fs) nil so.string table,
  )
  build-functions =
      build-unit (stab so) (stabs_items ss ++ items_of fs) (functions_unit so ss fs)
        (left_over (line_nodes ss) fs) nil so.string table build_subtree-unit so (ss ++ stabs_of fs)
        items-unit
