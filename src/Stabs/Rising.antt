-- ===== src/Stabs/Rising.antt =====
-- The table of lines that `_build_subtree`, host/stabslib.py, records for lines that follow one another
-- in the source and in memory, and what `get_lineno_for_addr` finds in it.
use cwdbg.Base.{
  ℕ, ◌≤◌, ◌<◌, ◌≡◌, refl, ap, ◌∙◌, List, [], ◌∷◌, ◌++◌, Option, none, some, append-nil,
  append_assoc, arith, ==_iff, lookup, insert, nat_key, Outcome, ok, raise, no_return,
}
use cwdbg.Stabs.Builder.Lines.{
  LineTable, close_at, close_previous, enter_line, after_close, record_line,
}
use cwdbg.Stabs.Program.{find_line}

-- Lines with their addresses: each is greater than the one before it, and does not start before it.
abbrev pub Rising : List (ℕ × ℕ) → Type 0
Rising [] = Unit
Rising (_ ∷ []) = Unit
Rising ((l, a) ∷ (m, b) ∷ rest) = (l < m) × (a ≤ b) × Rising ((m, b) ∷ rest)

-- Each line ends where the next one starts, the last one has no end.
unfoldable pub ranges : List (ℕ × ℕ) → LineTable
ranges [] = []
ranges ((l, a) ∷ []) = (l, (a, 0)) ∷ []
ranges ((l, a) ∷ (m, b) ∷ rest) = (l, (a, b)) ∷ ranges ((m, b) ∷ rest)

unfoldable pub last_line : ℕ → List (ℕ × ℕ) → ℕ
last_line l [] = l
last_line l ((m, _) ∷ rest) = last_line m rest

unfoldable pub and_then : {A B : Type 0} → Outcome A → (A → Outcome B) → Outcome B
and_then (ok a) f = f a
and_then (raise e) f = raise e
and_then no_return f = no_return

and_then-ok :
    {A B : Type 0} (r : Outcome A) (f : A → Outcome B) (b : B)
    → and_then r f ≡ ok b
    → (a : A) × (r ≡ ok a) × (f a ≡ ok b)
unfolding and_then
and_then-ok (ok a) f b e = (a, refl, e)
and_then-ok (raise x) f b e = absurd (cc)
and_then-ok no_return f b e = absurd (cc)

-- One line after the other.
unfoldable pub record_lines : Option ℕ → List (ℕ × ℕ) → LineTable → Outcome (LineTable × Option ℕ)
unfolding record_line and_then
record_lines prev [] lines = ok (lines, prev)
record_lines prev ((l, a) ∷ rest) lines =
    and_then (record_line prev l a lines) λ p. record_lines p.1 rest p.0

pub record_lines-cons :
    (prev : Option ℕ) (l a : ℕ) (rest : List (ℕ × ℕ)) (lines : LineTable) (p : LineTable × Option ℕ)
    → record_lines prev ((l, a) ∷ rest) lines ≡ ok p
    → (q : LineTable × Option ℕ) × (record_line prev l a lines ≡ ok q)
      × (record_lines q.1 rest q.0 ≡ ok p)
unfolding record_lines
record_lines-cons prev l a rest lines p e =
    and_then-ok (record_line prev l a lines) (λ q. record_lines q.1 rest q.0) p e

abbrev pub Before : ℕ → LineTable → Type 0
Before l [] = Unit
Before l ((k, _) ∷ lines) = (k < l) × Before l lines

pub lookup-append-Before :
    (l : ℕ) (pre lines : LineTable) → Before l pre → lookup l (pre ++ lines) ≡ lookup l lines
unfolding lookup
lookup-append-Before l [] lines h = refl
lookup-append-Before l ((k, r) ∷ pre) lines (lt, h) =
    ground (arith, lookup-append-Before l pre lines h, ==_iff k l)

pub insert-append-Before :
    (l : ℕ) (r : ℕ × ℕ) (pre lines : LineTable)
    → Before l pre
    → insert l r (pre ++ lines) ≡ pre ++ insert l r lines
unfolding insert
insert-append-Before l r [] lines h = refl
insert-append-Before l r ((k, s) ∷ pre) lines (lt, h) =
    ground (arith, insert-append-Before l r pre lines h, ==_iff k l)

Before-append :
    (l m : ℕ) (r : ℕ × ℕ) (pre : LineTable) → Before l pre → l < m → Before m (pre ++ (l, r) ∷ [])
Before-append l m r [] h lt = (lt, tt)
Before-append l m r ((k, s) ∷ pre) (less, h) lt = (omega arith, Before-append l m r pre h lt)

close_previous-next :
    (l a m b : ℕ) (pre : LineTable)
    → Before l pre
    → l < m
    → close_previous (some l) m b (pre ++ (l, (a, 0)) ∷ []) ≡ ok (pre ++ (l, (a, b)) ∷ [])
unfolding close_previous close_at lookup insert
close_previous-next l a m b pre h lt = ground (
  arith,
  lookup-append-Before l pre ((l, (a, 0)) ∷ []) h,
  insert-append-Before l (a, b) pre ((l, (a, 0)) ∷ []) h,
  ==_iff l l,
)

pub enter_line-next :
    (prev : Option ℕ) (m b : ℕ) (lines : LineTable)
    → Before m lines
    → enter_line prev m b lines ≡ (lines ++ (m, (b, 0)) ∷ [], some m)
unfolding enter_line lookup insert
enter_line-next prev m b lines h = ground (
  arith,
  append-nil lines,
  lookup-append-Before m lines [] h,
  insert-append-Before m (b, 0) lines [] h,
)

record_line-next :
    (l a m b : ℕ) (pre : LineTable)
    → Before l pre
    → l < m
    → record_line (some l) m b (pre ++ (l, (a, 0)) ∷ [])
      ≡ ok ((pre ++ (l, (a, b)) ∷ []) ++ (m, (b, 0)) ∷ [], some m)
unfolding record_line after_close
record_line-next l a m b pre h lt = rw (close_previous-next l a m b pre h lt) (
    ap ok
      (enter_line-next (some l) m b (pre ++ (l, (a, b)) ∷ []) (Before-append l m (a, b) pre h lt)))

pub record_lines-rising :
    (l a : ℕ) (rest : List (ℕ × ℕ)) (pre : LineTable)
    → Before l pre
    → Rising ((l, a) ∷ rest)
    → record_lines (some l) rest (pre ++ (l, (a, 0)) ∷ [])
      ≡ ok (pre ++ ranges ((l, a) ∷ rest), some (last_line l rest))
unfolding record_lines ranges last_line
record_lines-rising l a [] pre h r = refl
record_lines-rising l a ((m, b) ∷ rest) pre h (lt, le, r) =
    rw (record_line-next l a m b pre h lt, record_lines)
      (record_lines-rising m b rest (pre ++ (l, (a, b)) ∷ []) (Before-append l m (a, b) pre h lt) r
        ∙ ap (λ t. ok (t, some (last_line m rest)))
            (append_assoc pre ((l, (a, b)) ∷ []) (ranges ((m, b) ∷ rest))))

-- Recording rising lines in an empty table succeeds: each line is entered with its own address as the start of
-- its range, and with the address of the next line as its end. The last line keeps the end 0.
pub record_lines-ranges :
    (l a : ℕ) (rest : List (ℕ × ℕ))
    → Rising ((l, a) ∷ rest)
    → record_lines none ((l, a) ∷ rest) [] ≡ ok (ranges ((l, a) ∷ rest), some (last_line l rest))
unfolding record_lines record_line close_previous after_close enter_line lookup insert
record_lines-ranges l a rest r = record_lines-rising l a rest [] tt r

-- The line `l` starts at `lo`, and the next one at `hi`.
pub data Follows (l lo hi : ℕ) : List (ℕ × ℕ) → Type 0 where
  here : {m : ℕ} {rest : List (ℕ × ℕ)} → Follows l lo hi ((l, lo) ∷ (m, hi) ∷ rest)
  there : {x : ℕ × ℕ} {rest : List (ℕ × ℕ)} → Follows l lo hi rest → Follows l lo hi (x ∷ rest)

Rising-tail : (x : ℕ × ℕ) (xs : List (ℕ × ℕ)) → Rising (x ∷ xs) → Rising xs
Rising-tail x [] r = tt
Rising-tail x (y ∷ ys) (lt, le, r) = r

Follows-le :
    (l lo hi m b : ℕ) (rest : List (ℕ × ℕ))
    → Rising ((m, b) ∷ rest)
    → Follows l lo hi ((m, b) ∷ rest)
    → b ≤ lo
Follows-le l lo hi m b rest r here = omega arith
Follows-le l lo hi m b [] r (there f) = elim f [ ]
Follows-le l lo hi m b ((n, c) ∷ rest) r (there f) =
    omega (arith, r.1, Follows-le l lo hi n c rest r.2 f)

-- An address between the start of a line and the start of the next one is found to belong to the line, in the
-- table of rising lines.
pub find_line-ranges :
    (xs : List (ℕ × ℕ)) (l lo hi addr : ℕ)
    → Rising xs
    → Follows l lo hi xs
    → lo ≤ addr
    → addr < hi
    → find_line (ranges xs) addr ≡ some l
unfolding find_line ranges
find_line-ranges [] l lo hi addr r f le lt = elim f [ ]
find_line-ranges ((k, a) ∷ []) l lo hi addr r (there f) le lt = elim f [ ]
find_line-ranges ((_, _) ∷ (m, _) ∷ rest) l lo hi addr r here le lt = ground arith
find_line-ranges ((k, a) ∷ (m, b) ∷ rest) l lo hi addr r (there f) le lt = ground (
  arith,
  find_line-ranges ((m, b) ∷ rest) l lo hi addr (Rising-tail (k, a) ((m, b) ∷ rest) r) f le lt,
  Follows-le l lo hi m b rest (Rising-tail (k, a) ((m, b) ∷ rest) r) f,
)

abbrev pub Ended : ℕ → List (ℕ × ℕ) → Type 0
Ended addr [] = Unit
Ended addr ((l, a) ∷ xs) = (a ≤ addr) × Ended addr xs

-- An address at or behind the start of the last line is not found at all.
pub find_line-last :
    (xs : List (ℕ × ℕ)) (addr : ℕ) → Ended addr xs → find_line (ranges xs) addr ≡ none
unfolding find_line ranges
find_line-last [] addr e = refl
find_line-last ((l, a) ∷ []) addr e = ground arith
find_line-last ((l, a) ∷ (m, b) ∷ rest) addr (le, e) =
    ground (arith, find_line-last ((m, b) ∷ rest) addr e)
