-- ===== src/Stabs/Functions/Lines.antt =====
-- Lines of host/stabslib.py that are recorded in two groups.
use cwdbg.Base.{
  ℕ, ◌≡◌, refl, sym, subst, append_assoc, ap, ◌∙◌, List, [], ◌∷◌, ◌++◌, Option, none, some, Outcome,
  ok, raise, no_return,
}
use cwdbg.Stabs.Nodes.{Stab}
use cwdbg.Stabs.Builder.Lines.{LineTable, record_line}
use cwdbg.Stabs.Rising.{Rising, ranges, last_line, and_then, record_lines, record_lines-ranges}
use cwdbg.Stabs.OneFunction.{lines_of}

and_then_assoc :
    {A B C : Type 0} (r : Outcome A) (f : A → Outcome B) (g : B → Outcome C)
    → and_then r (λ a. and_then (f a) g) ≡ and_then (and_then r f) g
unfolding and_then
and_then_assoc (ok a) f g = refl
and_then_assoc (raise e) f g = refl
and_then_assoc no_return f g = refl

pub record_lines-append :
    (prev : Option ℕ) (xs ys : List (ℕ × ℕ)) (lines : LineTable)
    → record_lines prev (xs ++ ys) lines
      ≡ and_then (record_lines prev xs lines) (λ p. record_lines p.1 ys p.0)
unfolding record_lines and_then
record_lines-append prev [] ys lines = refl
record_lines-append prev ((l, a) ∷ xs) ys lines =
    ap (and_then (record_line prev l a lines)) (λ i q. record_lines-append q.1 xs ys q.0 i)
    ∙ and_then_assoc (record_line prev l a lines) (λ q. record_lines q.1 xs q.0)
        (λ p. record_lines p.1 ys p.0)

pub lines_of-append : (ss ts : List Stab) → lines_of (ss ++ ts) ≡ lines_of ss ++ lines_of ts
lines_of-append [] ts = refl
lines_of-append (s ∷ ss) ts = ap (λ r. (s.desc, s.value) ∷ r) (lines_of-append ss ts)

last_line-snoc : (k : ℕ) (xs : List (ℕ × ℕ)) (l a : ℕ) → last_line k (xs ++ (l, a) ∷ []) ≡ l
unfolding last_line
last_line-snoc k [] l a = refl
last_line-snoc k ((m, b) ∷ xs) l a = last_line-snoc m xs l a

pub Rising-prefix : (xs ys : List (ℕ × ℕ)) → Rising (xs ++ ys) → Rising xs
Rising-prefix [] ys r = tt
Rising-prefix (x ∷ []) ys r = tt
Rising-prefix (x ∷ y ∷ xs) ys r = (r.0, r.1, Rising-prefix (y ∷ xs) ys r.2)

pub record_lines-first :
    (xs : List (ℕ × ℕ)) (l a : ℕ)
    → Rising (xs ++ (l, a) ∷ [])
    → record_lines none (xs ++ (l, a) ∷ []) [] ≡ ok (ranges (xs ++ (l, a) ∷ []), some l)
unfolding last_line
record_lines-first [] l a r = record_lines-ranges l a [] r
record_lines-first ((k, d) ∷ xs) l a r =
    record_lines-ranges k d (xs ++ (l, a) ∷ []) r
    ∙ ap (λ m. ok (ranges ((k, d) ∷ (xs ++ (l, a) ∷ [])), some m)) (last_line-snoc k xs l a)

record_lines-all :
    (xs : List (ℕ × ℕ))
    → Rising xs
    → (last : Option ℕ) × (record_lines none xs [] ≡ ok (ranges xs, last))
unfolding record_lines ranges
record_lines-all [] r = (none, refl)
record_lines-all ((l, a) ∷ xs) r = (some (last_line l xs), record_lines-ranges l a xs r)

-- The second group is recorded from the last line of the first one on, as if it belonged to that.
pub record_lines-second :
    (xs : List (ℕ × ℕ)) (l a : ℕ) (rest : List (ℕ × ℕ))
    → Rising (xs ++ (l, a) ∷ rest)
    → (last : Option ℕ) × (record_lines (some l) rest (ranges (xs ++ (l, a) ∷ []))
        ≡ ok (ranges (xs ++ (l, a) ∷ rest), last))
unfolding and_then
record_lines-second xs l a rest r =
    let whole : (xs ++ (l, a) ∷ []) ++ rest ≡ xs ++ (l, a) ∷ rest =
      append_assoc xs ((l, a) ∷ []) rest in
    let (last, all) = record_lines-all (xs ++ (l, a) ∷ rest) r in
    (
      last,
      sym (
            ap (λ ys. record_lines none ys []) (sym whole)
            ∙ record_lines-append none (xs ++ (l, a) ∷ []) rest []
            ∙ ap (λ r. and_then r (λ p. record_lines p.1 rest p.0))
                (record_lines-first xs l a
                  (Rising-prefix (xs ++ (l, a) ∷ []) rest (subst Rising (sym whole) r))))
          ∙ all,
    )
