-- ===== src/Generator.antt =====
-- The generator of the system call database, host/create-syscall-info-db.py: the loops over the lines of the
-- prototypes and of the pragmas of a library. The files are the lists of their lines.
pub mod Protos
pub mod Pragmas
pub mod Database
use cwdbg.Base.{
  ℕ, List, [], ◌∷◌, Option, none, some, Bytes, Dict, lookup, text_key, Outcome, ok, chain,
}
use cwdbg.Target.Syscalls.{SyscallInfo}
use cwdbg.Generator.Protos.{read_protos}
use cwdbg.Generator.Pragmas.{Tables, read_pragmas}

-- The entries of the dictionary by offsets: each is the object that is known under the name.
unfoldable pub resolved : Dict Bytes SyscallInfo → Dict ℕ Bytes → Dict ℕ SyscallInfo
unfolding lookup
resolved by_name [] = []
resolved by_name ((offset, name) ∷ offsets) = elim (lookup name by_name) [
  | none ↦ resolved by_name offsets
  | some info ↦ (offset, info) ∷ resolved by_name offsets
]

-- What `main` writes for the two files of a library.
unfoldable pub create_db : List Bytes → List Bytes → Outcome (Dict ℕ SyscallInfo)
unfolding read_protos read_pragmas resolved
create_db protos pragmas =
    chain (read_pragmas pragmas (record { by_name = read_protos protos []; by_offset = [] }))
      λ tables. ok (resolved tables.by_name tables.by_offset)
