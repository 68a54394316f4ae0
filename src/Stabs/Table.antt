-- ===== src/Stabs/Table.antt =====
-- The table of stabs in the bytes of a debug block: `from_stabs_data` of host/stabslib.py.
pub mod RoundTrip
use Prim.Native.Nat.{bit_and}
use cwdbg.Base.{
  ℕ, zero, suc, ◌+◌, ◌-◌, ◌*◌, ◌/◌, Bool, ◌||◌, ◌&&◌, List, [], ◌∷◌, Bytes, ◌==◌, ltb,
  if◌then◌else◌, length, take, drop, word16, word32, Outcome, ok, raise, no_return, value_error,
  unicode_decode_error,
}
use cwdbg.Hunk.{is_ascii}
use cwdbg.Stabs.Types.{
  n_undf, n_so, n_gsym, n_stsym, n_lsym, n_psym, n_fun, n_lbrac, n_rbrac, n_sline, is_one_of,
  is_stab_type,
}
use cwdbg.Stabs.Nodes.{Stab}

abbrev pub sizeof_stab : ℕ
sizeof_stab = 12

-- `Stab.from_buffer_copy`, which refuses a buffer that is too short.
unfoldable pub stab_from_buffer : Bytes → Outcome Stab
stab_from_buffer (o₃ ∷ o₂ ∷ o₁ ∷ o₀ ∷ type ∷ other ∷ d₁ ∷ d₀ ∷ v₃ ∷ v₂ ∷ v₁ ∷ v₀ ∷ _) = ok (record {
  offset = word32 o₃ o₂ o₁ o₀;
  type = type;
  other = other;
  desc = word16 d₁ d₀;
  value = word32 v₃ v₂ v₁ v₀;
  string = [];
})
stab_from_buffer _ = raise value_error

-- The loop of `_get_string_from_buffer`: how many bytes stand in front of the first NUL byte, or in all.
unfoldable pub nul_index : Bytes → ℕ
nul_index [] = 0
nul_index (c ∷ cs) = if c == 0 then 0 else suc (nul_index cs)

unfoldable pub get_string_from_buffer : Bytes → Outcome Bytes
unfolding nul_index is_ascii
get_string_from_buffer buffer =
    let idx = nul_index buffer in
    if ltb idx (length buffer)
    then (if is_ascii (take idx buffer) then ok (take idx buffer) else raise unicode_decode_error)
    else raise value_error

-- The types that the source keeps.
unfoldable pub is_relevant : ℕ → Bool
unfolding is_one_of
is_relevant t =
    is_one_of t
      (n_so ∷ n_gsym ∷ n_stsym ∷ n_lsym ∷ n_psym ∷ n_fun ∷ n_lbrac ∷ n_rbrac ∷ n_sline ∷ [])

-- A type that has no name, also with its bit N_EXT cleared, is logged and passed over.
unfoldable pub is_kept : Stab → Bool
unfolding is_relevant is_stab_type
is_kept s = (is_stab_type s.type || is_stab_type (bit_and s.type 0xfe)) && is_relevant s.type

with_string : Stab → Outcome Bytes → Outcome Stab
with_string s (ok string) = ok (record s { string = string })
with_string s (raise e) = raise e
with_string s no_return = no_return

-- One entry of the table, with its string.
unfoldable pub read_stab : Bytes → Bytes → Outcome Stab
unfolding stab_from_buffer with_string get_string_from_buffer
read_stab strings table = elim (stab_from_buffer table) [
  | ok s ↦ with_string s (get_string_from_buffer (drop s.offset strings))
  | raise e ↦ raise e
  | no_return ↦ no_return
]

keep_stab : Stab → Outcome (List Stab) → Outcome (List Stab)
unfolding is_kept
keep_stab s (ok stabs) = ok (if is_kept s then s ∷ stabs else stabs)
keep_stab s (raise e) = raise e
keep_stab s no_return = no_return

-- `for i in range(0, n)` over the table.
unfoldable pub read_stabs : ℕ → Bytes → Bytes → Outcome (List Stab)
unfolding read_stab keep_stab
read_stabs zero strings table = ok []
read_stabs (suc n) strings table = elim (read_stab strings table) [
  | ok s ↦ keep_stab s (read_stabs n strings (drop sizeof_stab table))
  | raise e ↦ raise e
  | no_return ↦ no_return
]

-- The first stab has the type N_UNDF, and its field `desc` tells where the strings begin.
after_header : Bytes → Outcome Stab → Outcome (List Stab)
unfolding read_stabs
after_header content (ok s) =
    let num_stabs = s.desc / sizeof_stab in
    if s.type == n_undf
    then read_stabs (num_stabs - 1) (drop (sizeof_stab + sizeof_stab * num_stabs) content)
        (drop sizeof_stab content)
    else raise value_error
after_header content (raise e) = raise e
after_header content no_return = no_return

unfoldable pub stabs_from_data : Bytes → Outcome (List Stab)
unfolding stab_from_buffer after_header
stabs_from_data content = after_header content (stab_from_buffer content)
