-- ===== src/Target/Syscalls.antt =====
-- `_get_syscall_info` of host/target.py: which function of which library the next instruction calls.
use cwdbg.Base.{
  ℕ, ◌-◌, ◌≤◌, ◌<◌, ◌≡◌, refl, Bool, true, false, List, ◌∷◌, ◌++◌, Option, none, some, Bytes, be16,
  get_elem?, Dict, lookup, nat_key, text_key, Outcome, ok, raise, no_return, key_error,
}
use cwdbg.Target.{TargetInfo}
use cwdbg.Target.Instructions.{
  next_instr_is_syscall, get_syscall_offset, get_syscall_offset-negative,
}

pub record SyscallArg : Type 0 where
  pub decl : Bytes
  pub register : Option ℕ

pub record SyscallInfo : Type 0 where
  pub name : Bytes
  pub args : List SyscallArg
  pub ret_type : Bytes

-- The functions of each library, by their offsets.
abbrev pub SyscallDb : Type 0
SyscallDb = Dict Bytes (Dict ℕ SyscallInfo)

-- The entry for an offset; a library that is missing raises.
unfoldable pub syscall_in : Option (Dict ℕ SyscallInfo) → Outcome ℕ → Outcome (Option SyscallInfo)
unfolding lookup
syscall_in none (ok offset) = raise key_error
syscall_in (some functions) (ok offset) = ok (lookup offset functions)
syscall_in _ (raise e) = raise e
syscall_in _ no_return = no_return

-- The name of the library whose base address A6 holds.
unfoldable pub syscall_of_library :
    SyscallDb → TargetInfo → Option Bytes → Outcome (Option SyscallInfo)
unfolding syscall_in lookup get_syscall_offset
syscall_of_library db info none = ok none
syscall_of_library db info (some lib_name) =
    syscall_in (lookup lib_name db) (get_syscall_offset info)

-- The library with a base address that is held in a register.
unfoldable pub library_at : Dict ℕ Bytes → Option ℕ → Option Bytes
unfolding lookup
library_at libs none = none
library_at libs (some lib_base_addr) = lookup lib_base_addr libs

unfoldable pub syscall_if :
    SyscallDb → Dict ℕ Bytes → TargetInfo → Outcome Bool → Outcome (Option SyscallInfo)
unfolding syscall_of_library library_at
syscall_if db libs info (ok false) = ok none
syscall_if db libs info (ok true) =
    syscall_of_library db info (library_at libs (get_elem? info.task_context.reg_a 6))
syscall_if db libs info (raise e) = raise e
syscall_if db libs info no_return = no_return

unfoldable pub get_syscall_info :
    SyscallDb → Dict ℕ Bytes → TargetInfo → Outcome (Option SyscallInfo)
unfolding syscall_if next_instr_is_syscall
get_syscall_info db libs info = syscall_if db libs info (next_instr_is_syscall info)

-- At a JSR over A6 with the displacement -n, where A6 holds the base address of a library that the database
-- knows, the system call is the entry of that library for the offset n, or none if there is no such entry.
pub get_syscall_info-library :
    (db : SyscallDb) (libs : Dict ℕ Bytes) (info : TargetInfo) (n base : ℕ) (lib_name rest : Bytes)
    (functions : Dict ℕ SyscallInfo)
    → 0 < n
    → n ≤ 32768
    → info.next_instr_bytes ≡ 0x4e ∷ 0xae ∷ (be16 (65536 - n) ++ rest)
    → get_elem? info.task_context.reg_a 6 ≡ some base
    → lookup base libs ≡ some lib_name
    → lookup lib_name db ≡ some functions
    → get_syscall_info db libs info ≡ ok (lookup n functions)
unfolding get_syscall_info syscall_if syscall_of_library syscall_in library_at
get_syscall_info-library db libs info n base lib_name rest functions h h' code a6 lib known =
    let call : next_instr_is_syscall info ≡ ok true =
      unfold next_instr_is_syscall in rw code refl in
    rw call (
      rw a6 (rw lib (rw (known, get_syscall_offset-negative info n 0x4e 0xae rest h h' code) refl)))
