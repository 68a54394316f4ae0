-- ===== src/Generator/Protos/Parts.antt =====
-- The parts of a prototype, as host/create-syscall-info-db.py cuts them out.
use cwdbg.Base.{
  ℕ, ◌≡◌, refl, ap, ◌∙◌, true, false, List, [], ◌∷◌, ◌++◌, none, some, Bytes, text, All, ◌==◌,
  ==_refl, length, strip, strip_left, is_space, is_word, eq_text,
}
use cwdbg.Stabs.Text.{ends_with}
use cwdbg.Target.Syscalls.{SyscallArg}
use cwdbg.Generator.Protos.{
  find_char, rfind_char, in_front, split, declared_args, in_word, split_last_word,
}

-- A character does not occur in a text.
abbrev pub IsFree : ℕ → Bytes → Type 0
IsFree c = All (λ x. x == c ≡ false)

pub find_char-IsFree :
    (c : ℕ) (xs ys : Bytes) → IsFree c xs → find_char c (xs ++ c ∷ ys) ≡ some (length xs)
unfolding find_char
find_char-IsFree c [] ys free = rw (==_refl c) refl
find_char-IsFree c (x ∷ xs) ys (h, free) = rw h (rw (find_char-IsFree c xs ys free) refl)

rfind_char-none : (c : ℕ) (ys : Bytes) → IsFree c ys → rfind_char c ys ≡ none
unfolding rfind_char
rfind_char-none c [] free = refl
rfind_char-none c (y ∷ ys) (h, free) = rw (rfind_char-none c ys free) (rw h refl)

pub rfind_char-IsFree :
    (c : ℕ) (xs ys : Bytes) → IsFree c ys → rfind_char c (xs ++ c ∷ ys) ≡ some (length xs)
unfolding rfind_char
rfind_char-IsFree c [] ys free = rw (rfind_char-none c ys free) (rw (==_refl c) refl)
rfind_char-IsFree c (x ∷ xs) ys free = rw (rfind_char-IsFree c xs ys free) refl

pub ends_with-append : (c : ℕ) (xs : Bytes) → ends_with c (xs ++ c ∷ []) ≡ true
unfolding ends_with
ends_with-append c [] = ==_refl c
ends_with-append c (x ∷ []) = ==_refl c
ends_with-append c (x ∷ y ∷ xs) = ends_with-append c (y ∷ xs)

-- A list of texts with commas between them.
abbrev pub join_parts : List Bytes → Bytes
join_parts [] = []
join_parts (part ∷ []) = part
join_parts (part ∷ next ∷ parts) = part ++ b',' ∷ join_parts (next ∷ parts)

split-IsFree : (c : ℕ) (xs ys : Bytes) → IsFree c xs → split c (xs ++ c ∷ ys) ≡ xs ∷ split c ys
unfolding split in_front
split-IsFree c [] ys free = rw (==_refl c) refl
split-IsFree c (x ∷ xs) ys (h, free) = rw h (rw (split-IsFree c xs ys free) refl)

split_last : (c : ℕ) (xs : Bytes) → IsFree c xs → split c xs ≡ xs ∷ []
unfolding split in_front
split_last c [] free = refl
split_last c (x ∷ xs) (h, free) = rw h (rw (split_last c xs free) refl)

pub split-join_parts :
    (part : Bytes) (parts : List Bytes)
    → All (IsFree b',') (part ∷ parts)
    → split b',' (join_parts (part ∷ parts)) ≡ part ∷ parts
split-join_parts part [] (free, _) = split_last b',' part free
split-join_parts part (next ∷ parts) (free, all) =
    split-IsFree b',' part (join_parts (next ∷ parts)) free
    ∙ ap (λ ps. part ∷ ps) (split-join_parts next parts all)

-- A declaration of an argument that is kept as it is.
abbrev pub IsArg : Bytes → Type 0
IsArg arg =
    (strip arg ≡ arg)
    × (eq_text arg (text "VOID") ≡ false)
    × (eq_text arg (text "...") ≡ false)
    × IsFree b',' arg

-- The parts between the commas: a blank stands behind each comma.
abbrev pub spaced : List Bytes → List Bytes
spaced [] = []
spaced (arg ∷ args) = (b' ' ∷ arg) ∷ spaced args

abbrev pub plain_args : List Bytes → List SyscallArg
plain_args [] = []
plain_args (arg ∷ args) = record { decl = arg; register = none } ∷ plain_args args

strip-space : (s : Bytes) → strip (b' ' ∷ s) ≡ strip s
unfolding strip strip_left is_space
strip-space s = refl

declared_args-spaced :
    (args : List Bytes) → All IsArg args → declared_args (spaced args) ≡ plain_args args
unfolding declared_args
declared_args-spaced [] all = refl
declared_args-spaced (arg ∷ args) ((same, no_void, no_dots, _), all) =
    rw (strip-space arg, same)
      (rw (no_void, no_dots)
        (ap (λ xs. record { decl = arg; register = none } ∷ xs) (declared_args-spaced args all)))

pub declared_args-plain :
    (arg : Bytes) (args : List Bytes)
    → All IsArg (arg ∷ args)
    → declared_args (arg ∷ spaced args) ≡ plain_args (arg ∷ args)
unfolding declared_args
declared_args-plain arg args ((same, no_void, no_dots, _), all) = rw same (
    rw (no_void, no_dots)
      (ap (λ xs. record { decl = arg; register = none } ∷ xs) (declared_args-spaced args all)))

-- A word at the end of a text behind a character that is not part of a word.
split_last_word_all :
    (word : Bytes) → All (λ c. is_word c ≡ true) word → split_last_word word ≡ ([], word)
unfolding split_last_word in_word
split_last_word_all [] all = refl
split_last_word_all (c ∷ word) (h, all) = rw (split_last_word_all word all) (rw h refl)

pub split_last_word-append :
    (xs : Bytes) (c : ℕ) (word : Bytes)
    → is_word c ≡ false
    → All (λ c. is_word c ≡ true) word
    → split_last_word (xs ++ c ∷ word) ≡ (xs ++ c ∷ [], word)
unfolding split_last_word in_word
split_last_word-append [] c word h all = rw (split_last_word_all word all) (rw h refl)
split_last_word-append (x ∷ []) c word h all = rw (split_last_word-append [] c word h all) refl
split_last_word-append (x ∷ y ∷ xs) c word h all =
    rw (split_last_word-append (y ∷ xs) c word h all) refl
