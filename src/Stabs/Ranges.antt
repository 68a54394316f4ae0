-- ===== src/Stabs/Ranges.antt =====
-- The look-ups of `ProgramWithDebugInfo`, host/stabslib.py, against the tables and the tree that they read.
use cwdbg.Base.{
  ℕ, ◌≤◌, ◌<◌, ◌≡◌, refl, subst, ◌⊎◌, inl, inr, true, Bool-cases, ◌&&◌, [], ◌∷◌, Option, none, some,
  Bytes, arith, ◌==◌, ==_iff, ltb, leb, lookup, insert, lookup-insert, nat_key, text_key, Outcome,
  ok, raise, no_return,
}
use cwdbg.Stabs.Types.{n_so}
use cwdbg.Stabs.Nodes.{NodeInfo, ProgramNode, Nodes, node, nil, cons, children}
use cwdbg.Stabs.Builder.Lines.{
  LineTable, close_at, close_previous, enter_line, after_close, record_line,
}
use cwdbg.Stabs.Program.{
  ProgramWithDebugInfo, chosen_unit, get_addr_range_for_lineno, spans, find_unit,
  get_comp_unit_for_addr, find_line, get_lineno_for_addr,
}

-- The lines of a table are all different.
abbrev pub Distinct : LineTable → Type 0
Distinct [] = Unit
Distinct ((l, _) ∷ lines) = (lookup l lines ≡ none) × Distinct lines

insert-Distinct :
    (l : ℕ) (r : ℕ × ℕ) (lines : LineTable) → Distinct lines → Distinct (insert l r lines)
unfolding insert lookup
insert-Distinct l r [] h = (refl, tt)
insert-Distinct l r ((k, s) ∷ lines) (h, h') =
    ground
      (arith, lookup-insert l k r lines, insert-Distinct l r lines h', ==_iff l k, ==_iff k l, h)

enter_line-Distinct :
    (prev : Option ℕ) (lineno addr : ℕ) (lines : LineTable)
    → Distinct lines
    → Distinct (enter_line prev lineno addr lines).0
unfolding enter_line
enter_line-Distinct prev lineno addr lines h =
    ground (arith, insert-Distinct lineno (addr, 0) lines h)

close_at-Distinct :
    (prev addr : ℕ) (lines closed : LineTable) (known : Option (ℕ × ℕ))
    → Distinct lines
    → close_at prev addr lines known ≡ ok closed
    → Distinct closed
unfolding close_at
close_at-Distinct prev addr lines closed none h e = absurd (cc)
close_at-Distinct prev addr lines closed (some r) h e =
    subst Distinct (cc) (insert-Distinct prev (r.0, addr) lines h)

close_previous-Distinct :
    (prev : Option ℕ) (lineno addr : ℕ) (lines closed : LineTable)
    → Distinct lines
    → close_previous prev lineno addr lines ≡ ok closed
    → Distinct closed
unfolding close_previous
close_previous-Distinct none lineno addr lines closed h e = ground (arith, h, e)
close_previous-Distinct (some prev) lineno addr lines closed h e =
    elim (Bool-cases (ltb prev lineno)) [
      | inl t ↦
          close_at-Distinct prev addr lines closed (lookup prev lines) h (ground (arith, e, t))
      | inr f ↦ subst Distinct (ground (arith, e, f)) h
    ]

after_close-Distinct :
    (prev : Option ℕ) (lineno addr : ℕ) (c : Outcome LineTable) (p : LineTable × Option ℕ)
    → ((closed : LineTable) → c ≡ ok closed → Distinct closed)
    → after_close prev lineno addr c ≡ ok p
    → Distinct p.0
unfolding after_close
after_close-Distinct prev lineno addr (ok closed) p h e =
    subst (λ (q : LineTable × Option ℕ). Distinct q.0) {x = enter_line prev lineno addr closed}
      {y = p} (cc) (enter_line-Distinct prev lineno addr closed (h closed refl))
after_close-Distinct prev lineno addr (raise x) p h e = absurd (cc)
after_close-Distinct prev lineno addr no_return p h e = absurd (cc)

-- Recording a line keeps the lines of a table different from each other.
pub record_line-Distinct :
    (prev : Option ℕ) (lineno addr : ℕ) (lines : LineTable) (p : LineTable × Option ℕ)
    → Distinct lines
    → record_line prev lineno addr lines ≡ ok p
    → Distinct p.0
unfolding record_line
record_line-Distinct prev lineno addr lines p h e =
    after_close-Distinct prev lineno addr (close_previous prev lineno addr lines) p
      (λ closed. close_previous-Distinct prev lineno addr lines closed h) e

find_line-lookup :
    (lines : LineTable) (addr lineno : ℕ)
    → Distinct lines
    → find_line lines addr ≡ some lineno
    → (r : ℕ × ℕ) × (lookup lineno lines ≡ some r) × (r.0 ≤ addr) × (addr < r.1)
unfolding find_line lookup
find_line-lookup [] addr lineno h e = absurd (cc)
find_line-lookup ((k, r) ∷ lines) addr lineno (h, h') e =
    elim (Bool-cases (leb r.0 addr && ltb addr r.1)) [
      | inl t ↦ (r, ground arith, ground arith, ground arith)
      | inr f ↦
          let (s, at, lo, hi) = find_line-lookup lines addr lineno h' (ground (arith, e, f)) in
          (s, ground (arith, at, h, ==_iff k lineno), lo, hi)
    ]

-- A line that the look-up of an address returns has an address range, and the range holds the address, if
-- the lines of the unit's table are all different.
pub get_lineno_for_addr-range :
    (p : ProgramWithDebugInfo) (unit : Bytes) (lines : LineTable) (addr lineno : ℕ)
    → lookup unit p.addresses_by_lineno ≡ some lines
    → Distinct lines
    → get_lineno_for_addr p addr (some unit) ≡ ok (some lineno)
    → (r : ℕ × ℕ) × (get_addr_range_for_lineno p lineno (some unit) ≡ ok (some r))
      × (r.0 ≤ addr)
      × (addr < r.1)
unfolding get_lineno_for_addr get_addr_range_for_lineno chosen_unit
get_lineno_for_addr-range p unit lines addr lineno at h e =
    let (r, found, lo, hi) = find_line-lookup lines addr lineno h (ground (arith, e, at)) in
    (r, ground (arith, at, found), lo, hi)

-- The unit that is returned for an address is the name of a node of the tree that spans the address.
pub data Among (i : NodeInfo) : Nodes → Type 0 where
  here : {below rest : Nodes} → Among i (cons (node i below) rest)
  there : {n : ProgramNode} {rest : Nodes} → Among i rest → Among i (cons n rest)

find_unit-spans :
    (units : Nodes) (addr : ℕ) (name : Bytes)
    → find_unit units addr ≡ ok (some name)
    → (i : NodeInfo) × Among i units × (i.name ≡ name) × (i.type ≡ n_so) × (spans i addr ≡ true)
unfolding find_unit
find_unit-spans nil addr name e = absurd (cc)
find_unit-spans (cons (node i below) rest) addr name e = elim (Bool-cases (i.type == n_so)) [
  | inr f ↦ absurd (ground (arith, e, f))
  | inl t ↦ elim (Bool-cases (spans i addr)) [
    | inl in_span ↦ (i, here, ground (arith, e, t, in_span), ground (arith, t), in_span)
    | inr out ↦
        let (j, among, named, typed, span) =
          find_unit-spans rest addr name (ground (arith, e, t, out)) in
        (j, there among, named, typed, span)
  ]
]

-- The unit that is returned for an address is the name of a node under the root of the tree, which has the
-- type of a compilation unit, begins at or before the address, and ends behind it if its end is known.
pub get_comp_unit_for_addr-spans :
    (p : ProgramWithDebugInfo) (addr : ℕ) (name : Bytes)
    → get_comp_unit_for_addr p addr ≡ ok (some name)
    → (i : NodeInfo) × Among i (children p.program_tree)
      × (i.name ≡ name)
      × (i.type ≡ n_so)
      × (i.start_addr ≤ addr)
      × ((i.end_addr ≡ 0) ⊎ (addr < i.end_addr))
unfolding get_comp_unit_for_addr spans
get_comp_unit_for_addr-spans p addr name e =
    let (i, among, named, typed, span) = find_unit-spans (children p.program_tree) addr name e in
    (i, among, named, typed, ground (arith, span), ground (arith, span))
