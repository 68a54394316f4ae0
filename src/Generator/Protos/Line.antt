-- ===== src/Generator/Protos/Line.antt =====
-- A whole prototype in the format of the include files, as host/create-syscall-info-db.py reads it.
use cwdbg.Base.{
  ℕ, suc, ◌-◌, ◌≡◌, refl, sym, ap, ◌∙◌, true, false, List, [], ◌∷◌, ◌++◌, some, Bytes, arith, All,
  length, take, drop, length-append, take-append, append_assoc, is_word, Dict, insert, text_key,
}
use cwdbg.Stabs.Text.{ends_with}
use cwdbg.Target.Syscalls.{SyscallInfo}
use cwdbg.Generator.Protos.{rfind_char, match_head, proto_parts, enter_proto, read_proto}
use cwdbg.Generator.Protos.Parts.{
  IsFree, find_char-IsFree, rfind_char-IsFree, ends_with-append, join_parts, split-join_parts,
  IsArg, spaced, plain_args, declared_args-plain, split_last_word-append,
}

-- The name of a function.
abbrev pub IsName : Bytes → Type 0
IsName [] = ⊥
IsName (c ∷ cs) = All (λ c. is_word c ≡ true) (c ∷ cs)

-- `<type><name>(<argument>, …);` with a type that ends in the character `last`.
abbrev pub proto_line : Bytes → ℕ → Bytes → Bytes → List Bytes → Bytes
proto_line ret last name arg args =
    (ret ++ last ∷ name) ++ b'(' ∷ (join_parts (arg ∷ spaced args) ++ b')' ∷ b';' ∷ [])

drop-cons : (xs : Bytes) (c : ℕ) (ys : Bytes) → drop (suc (length xs)) (xs ++ c ∷ ys) ≡ ys
drop-cons [] c ys = refl
drop-cons (x ∷ xs) c ys = drop-cons xs c ys

match_head-some :
    (xs : Bytes) (c : ℕ) (name : Bytes)
    → IsName name
    → match_head (xs ++ c ∷ [], name) ≡ some (xs ++ c ∷ [], name)
unfolding match_head
match_head-some xs c [] n = absurd n
match_head-some [] c (d ∷ ds) n = refl
match_head-some (x ∷ xs) c (d ∷ ds) n = refl

word_of : (name : Bytes) → IsName name → All (λ c. is_word c ≡ true) name
word_of [] n = absurd n
word_of (c ∷ cs) n = n

all-IsFree : (args : List Bytes) → All IsArg args → All (IsFree b',') (spaced args)
all-IsFree [] all = tt
all-IsFree (arg ∷ args) ((_, _, _, free), all) = ((refl, free), all-IsFree args all)

module _ (head body : Bytes) where
  abbrev line : Bytes
  line = head ++ b'(' ∷ (body ++ b')' ∷ b';' ∷ [])

  ends_with-line : ends_with b';' line ≡ true
  ends_with-line =
      ap (ends_with b';') (
        ap (λ xs. head ++ b'(' ∷ xs) (sym (append_assoc body (b')' ∷ []) (b';' ∷ [])))
        ∙ sym (append_assoc head (b'(' ∷ (body ++ b')' ∷ [])) (b';' ∷ [])))
      ∙ ends_with-append b';' (head ++ b'(' ∷ (body ++ b')' ∷ []))

  rfind_char-line : rfind_char b')' line ≡ some (length (head ++ b'(' ∷ body))
  rfind_char-line =
      ap (rfind_char b')') (sym (append_assoc head (b'(' ∷ body) (b')' ∷ b';' ∷ [])))
      ∙ rfind_char-IsFree b')' (head ++ b'(' ∷ body) (b';' ∷ []) (refl, tt)

  between_parentheses :
      take (length (head ++ b'(' ∷ body) - suc (length head)) (drop (suc (length head)) line) ≡ body
  between_parentheses =
      ap (take (length (head ++ b'(' ∷ body) - suc (length head)))
        (drop-cons head b'(' (body ++ b')' ∷ b';' ∷ []))
      ∙ ap (λ n. take n (body ++ b')' ∷ b';' ∷ []))
          {x = length (head ++ b'(' ∷ body) - suc (length head)} {y = length body}
          (omega (arith, length-append head (b'(' ∷ body)))
      ∙ take-append body (b')' ∷ b';' ∷ [])

module _ (ret : Bytes) (last : ℕ) (name arg : Bytes) (args : List Bytes)
    (type_ends : is_word last ≡ false) (named : IsName name) (all : All IsArg (arg ∷ args))
    (free : IsFree b'(' (ret ++ last ∷ name)) where
  abbrev body : Bytes
  body = join_parts (arg ∷ spaced args)

  proto_parts-line :
      proto_parts
        (proto_line ret last name arg args)
        (some (length (ret ++ last ∷ name)))
        (some (length ((ret ++ last ∷ name) ++ b'(' ∷ body)))
      ≡ some ((ret ++ last ∷ [], name), plain_args (arg ∷ args))
  unfolding proto_parts
  proto_parts-line =
      rw (take-append (ret ++ last ∷ name) (b'(' ∷ (body ++ b')' ∷ b';' ∷ [])), proto_parts)
        (rw (split_last_word-append ret last name type_ends (word_of name named)) (
          rw (match_head-some ret last name named) (
            rw (between_parentheses (ret ++ last ∷ name) body) (
              rw (split-join_parts arg (spaced args) (all.0.3, all-IsFree args all.1))
                (rw (declared_args-plain arg args all) refl)))))

  -- A prototype of a function with at least one argument is entered under its name, with the type of the result and
  -- the declarations of the arguments in their order, and no registers yet.
  pub read_proto-proto_line :
      (by_name : Dict Bytes SyscallInfo)
      → read_proto (proto_line ret last name arg args) by_name
        ≡ insert name
            (record { name = name; args = plain_args (arg ∷ args); ret_type = ret ++ last ∷ [] })
            by_name
  unfolding read_proto enter_proto
  read_proto-proto_line by_name = rw (ends_with-line (ret ++ last ∷ name) body) (
      rw (find_char-IsFree b'(' (ret ++ last ∷ name) (body ++ b')' ∷ b';' ∷ []) free)
        (rw (rfind_char-line (ret ++ last ∷ name) body) (rw proto_parts-line refl)))
