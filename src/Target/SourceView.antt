-- ===== src/Target/SourceView.antt =====
-- `get_source_view` of host/target.py, from the point on where the lines of the source file and the number of
-- the current line are known.
use native.Mathlib.Nat.{zero-add, suc-add}
use cwdbg.Base.{
  ℕ, zero, suc, ◌+◌, ◌-◌, ◌≤◌, ◌<◌, ◌≡◌, refl, ap, ◌∙◌, List, [], ◌∷◌, ◌++◌, some, Bytes, arith,
  ◌==◌, ltb, if◌then◌else◌, length, take, drop, get_elem?, Outcome, ok, raise, assertion_error,
  index_error, text, decimal, left_justified,
}

-- `f'{lineno + 1:<4}:    {line}'`
unfoldable pub numbered : ℕ → List Bytes → List Bytes
unfolding decimal left_justified
numbered lineno [] = []
numbered lineno (line ∷ lines) =
    (left_justified 4 (decimal lineno) ++ text ":    " ++ line) ∷ numbered (suc lineno) lines

-- `line[0:6] + '=> ' + line[9:]`
unfoldable pub marked : Bytes → Bytes
marked line = take 6 line ++ b'=' ∷ b'>' ∷ b' ' ∷ drop 9 line

-- Marks the line with an index.
unfoldable pub mark : ℕ → List Bytes → List Bytes
unfolding marked
mark i [] = []
mark zero (line ∷ lines) = marked line ∷ lines
mark (suc i) (line ∷ lines) = line ∷ mark i lines

-- `source_lines[current_lineno - 1]`; the line number 0 means the last line.
unfoldable pub line_index : ℕ → ℕ → ℕ
line_index zero n = n - 1
line_index (suc i) n = i

unfoldable pub start_lineno : ℕ → ℕ
start_lineno current = if ltb current 6 then 1 else current - 5

unfoldable pub end_lineno : ℕ → ℕ → ℕ
end_lineno current n = if ltb n (current + 5) then n else current + 5

-- `lines[first:last]`, for bounds that are not negative.
abbrev pub slice : ℕ → ℕ → List Bytes → List Bytes
slice first last lines = take (last - first) (drop first lines)

unfoldable pub source_view : Bytes → List Bytes → ℕ → Outcome (List Bytes)
unfolding mark line_index start_lineno end_lineno
source_view fname lines current =
    if ltb (length lines) current
    then raise assertion_error
    else if length lines == 0
    then raise index_error
    else ok (
        (fname ++ b':' ∷ b'\n' ∷ [])
        ∷ slice (start_lineno current - 1) (end_lineno current (length lines) - 1)
            (mark (line_index current (length lines)) lines))

length-mark : (i : ℕ) (lines : List Bytes) → length (mark i lines) ≡ length lines
unfolding mark
length-mark i [] = refl
length-mark zero (line ∷ lines) = refl
length-mark (suc i) (line ∷ lines) = ap (λ n. suc n) (length-mark i lines)

get_elem?-mark :
    (i : ℕ) (lines : List Bytes) (line : Bytes)
    → get_elem? lines i ≡ some line
    → get_elem? (mark i lines) i ≡ some (marked line)
unfolding mark
get_elem?-mark i [] line h = absurd (cc)
get_elem?-mark zero (x ∷ lines) line h = (cc)
get_elem?-mark (suc i) (x ∷ lines) line h = get_elem?-mark i lines line h

get_elem?-take :
    (n i : ℕ) (lines : List Bytes) → i < n → get_elem? (take n lines) i ≡ get_elem? lines i
get_elem?-take zero i lines h = absurd (omega arith)
get_elem?-take (suc n) i [] h = refl
get_elem?-take (suc n) zero (x ∷ lines) h = refl
get_elem?-take (suc n) (suc i) (x ∷ lines) h = get_elem?-take n i lines (omega arith)

get_elem?-drop :
    (n i : ℕ) (lines : List Bytes) → get_elem? (drop n lines) i ≡ get_elem? lines (n + i)
get_elem?-drop zero i lines = rw zero-add refl
get_elem?-drop (suc n) i [] = refl
get_elem?-drop (suc n) i (x ∷ lines) = rw suc-add (get_elem?-drop n i lines)

length-take-le : (n : ℕ) (lines : List Bytes) → length (take n lines) ≤ n
length-take-le zero lines = omega arith
length-take-le (suc n) [] = omega arith
length-take-le (suc n) (x ∷ lines) = omega (arith, length-take-le n lines)

line_index-pos : (current n : ℕ) → 0 < current → line_index current n ≡ current - 1
unfolding line_index
line_index-pos zero n h = absurd (omega arith)
line_index-pos (suc i) n h = omega arith

take-mark : (n i : ℕ) (lines : List Bytes) → n ≤ i → take n (mark i lines) ≡ take n lines
unfolding mark
take-mark zero i lines h = refl
take-mark (suc n) i [] h = refl
take-mark (suc n) zero (x ∷ lines) h = absurd (omega arith)
take-mark (suc n) (suc i) (x ∷ lines) h = ap (λ xs. x ∷ xs) (take-mark n i lines (omega arith))

take-drop-mark :
    (n first i : ℕ) (lines : List Bytes)
    → n + first ≤ i
    → take n (drop first (mark i lines)) ≡ take n (drop first lines)
unfolding mark
take-drop-mark n zero i lines h = take-mark n i lines (omega arith)
take-drop-mark n (suc first) i [] h = refl
take-drop-mark n (suc first) zero (x ∷ lines) h = absurd (omega arith)
take-drop-mark n (suc first) (suc i) (x ∷ lines) h = take-drop-mark n first i lines (omega arith)

-- The line that the target has stopped in is part of the view, marked by an arrow, if it is not the last line of
-- the file: the view is the heading and at most ten lines, and the line stands behind those from `start_lineno` on.
pub source_view-current :
    (fname : Bytes) (lines : List Bytes) (current : ℕ) (line : Bytes)
    → 0 < current
    → current < length lines
    → get_elem? lines (current - 1) ≡ some line
    → (view : List Bytes) × (source_view fname lines current ≡ ok view)
      × (get_elem? view (suc (current - start_lineno current)) ≡ some (marked line))
      × (length view ≤ 11)
unfolding source_view
source_view-current fname lines current line h h' e =
    let i : line_index current (length lines) ≡ current - 1 =
      line_index-pos current (length lines) h in
    let first = start_lineno current - 1 in
    let last = end_lineno current (length lines) - 1 in
    let at : get_elem? (slice first last (mark (current - 1) lines))
          (current - start_lineno current)
        ≡ some (marked line) =
      get_elem?-take (last - first) (current - start_lineno current)
        (drop first (mark (current - 1) lines)) (ground arith)
      ∙ get_elem?-drop first (current - start_lineno current) (mark (current - 1) lines)
      ∙ ap (get_elem? (mark (current - 1) lines)) {y = current - 1} (ground arith)
      ∙ get_elem?-mark (current - 1) lines line e in
    (
      (fname ++ b':' ∷ b'\n' ∷ []) ∷ slice first last (mark (current - 1) lines),
      ground (arith, i),
      at,
      ground (arith, length-take-le (last - first) (drop first (mark (current - 1) lines))),
    )

-- When the current line is the last line of the file, the view is not marked, and it lacks that
-- line.
pub source_view-last :
    (fname : Bytes) (lines : List Bytes)
    → 0 < length lines
    → source_view fname lines (length lines)
      ≡ ok (
          (fname ++ b':' ∷ b'\n' ∷ [])
          ∷ slice (start_lineno (length lines) - 1) (length lines - 1) lines)
unfolding source_view
source_view-last fname lines h =
    let i : line_index (length lines) (length lines) ≡ length lines - 1 =
      line_index-pos (length lines) (length lines) h in
    let first = start_lineno (length lines) - 1 in
    let same =
      take-drop-mark (length lines - 1 - first) first (length lines - 1) lines (ground arith) in
    ground (arith, i, same)
