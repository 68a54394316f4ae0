-- ===== src/Generator/Database.antt =====
-- The database of host/create-syscall-info-db.py for a library with one function.
use cwdbg.Base.{
  ℕ, ◌<◌, ◌≡◌, refl, ap, true, false, List, [], ◌∷◌, ◌++◌, some, Bytes, arith, All, length, strip,
  is_space, is_word, is_digit, begins_name, lookup, insert, nat_key, text_key, eq_text_refl, ok,
}
use cwdbg.Target.Syscalls.{SyscallInfo}
use cwdbg.Generator.{resolved, create_db}
use cwdbg.Generator.Protos.{read_protos}
use cwdbg.Generator.Protos.Parts.{IsFree, IsArg, plain_args}
use cwdbg.Generator.Protos.Line.{IsName, proto_line, read_proto-proto_line}
use cwdbg.Generator.Pragmas.{read_pragmas}
use cwdbg.Generator.Pragmas.Words.{IsWord}
use cwdbg.Generator.Pragmas.RoundTrip.{assigned}
use cwdbg.Generator.Pragmas.Line.{pragma_line, reg_info, read_pragma-pragma_line}

word_visible : (c : ℕ) → is_word c ≡ true → is_space c ≡ false
unfolding is_word is_digit begins_name is_space
word_visible c h = ground arith

visible : (cs : Bytes) → All (λ c. is_word c ≡ true) cs → All (λ c. is_space c ≡ false) cs
visible [] all = tt
visible (c ∷ cs) (h, all) = (word_visible c h, visible cs all)

IsName-IsWord : (name : Bytes) → IsName name → IsWord name
IsName-IsWord [] n = n
IsName-IsWord (c ∷ cs) n = visible (c ∷ cs) n

length-plain_args : (args : List Bytes) → length (plain_args args) ≡ length args
length-plain_args [] = refl
length-plain_args (arg ∷ args) = omega (arith, length-plain_args args)

module _ (name : Bytes) (info info' : SyscallInfo) (offset : ℕ) where
  lookup-one : lookup name ((name, info) ∷ []) ≡ some info
  unfolding lookup
  lookup-one = rw (eq_text_refl name) refl

  resolved-one :
      resolved (insert name info' ((name, info) ∷ [])) (insert offset name [])
      ≡ (offset, info') ∷ []
  unfolding resolved insert lookup
  resolved-one = rw (eq_text_refl name) (rw (eq_text_refl name, resolved) refl)

module _ (ret : Bytes) (last : ℕ) (name arg : Bytes) (args : List Bytes)
    (type_ends : is_word last ≡ false) (named : IsName name) (all : All IsArg (arg ∷ args))
    (free : IsFree b'(' (ret ++ last ∷ name)) where
  abbrev declared : SyscallInfo
  declared = record { name = name; args = plain_args (arg ∷ args); ret_type = ret ++ last ∷ [] }

  -- From the prototype of a function with arguments and its pragma, with a register for each argument, the database
  -- gets the function under its offset: with its name, the type of its result, and its arguments in the order of
  -- the prototype, each with its register.
  pub create_db-function :
      (proto pragma kind lib_base : Bytes) (offset result : ℕ) (rs : List ℕ)
      → strip proto ≡ proto_line ret last name arg args
      → strip pragma ≡ pragma_line kind lib_base name offset (reg_info rs result)
      → IsWord kind
      → IsWord lib_base
      → All (λ r. r < 15) rs
      → result < 15
      → length rs < 16
      → length (arg ∷ args) ≡ length rs
      → create_db (proto ∷ []) (pragma ∷ [])
        ≡ ok ((offset, record declared { args = assigned (plain_args (arg ∷ args)) rs }) ∷ [])
  unfolding create_db read_protos read_pragmas insert
  create_db-function proto pragma kind lib_base offset result rs p q k l few result_few short same =
      let read =
        read_pragma-pragma_line kind lib_base name offset result rs
          (record { by_name = (name, declared) ∷ []; by_offset = [] }) declared k l
          (IsName-IsWord name named) few result_few short (lookup-one name declared declared offset)
          (omega (arith, length-plain_args args, same)) in
      rw (p, q)
        (rw (read_proto-proto_line ret last name arg args type_ends named all free []) (
          rw read (
            ap ok (
              resolved-one name declared
                (record declared { args = assigned (plain_args (arg ∷ args)) rs }) offset))))
