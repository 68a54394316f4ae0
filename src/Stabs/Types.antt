-- ===== src/Stabs/Types.antt =====
-- The types of stabs, `StabTypes` of host/stabslib.py. The builder tests for the twelve that are named
-- here.
use cwdbg.Base.{ℕ, Bool, false, ◌||◌, List, [], ◌∷◌, ◌==◌}

abbrev pub n_undf : ℕ
n_undf = 0x00

abbrev pub n_fun : ℕ
n_fun = 0x24

abbrev pub n_stsym : ℕ
n_stsym = 0x26

abbrev pub n_lcsym : ℕ
n_lcsym = 0x28

abbrev pub n_gsym : ℕ
n_gsym = 0x20

abbrev pub n_rsym : ℕ
n_rsym = 0x40

abbrev pub n_sline : ℕ
n_sline = 0x44

abbrev pub n_so : ℕ
n_so = 0x64

abbrev pub n_lsym : ℕ
n_lsym = 0x80

abbrev pub n_psym : ℕ
n_psym = 0xa0

abbrev pub n_lbrac : ℕ
n_lbrac = 0xc0

abbrev pub n_rbrac : ℕ
n_rbrac = 0xe0

-- The values of all members, in the order of the source.
abbrev stab_types : List ℕ
stab_types =
    0x0 ∷ 0x1 ∷ 0x2 ∷ 0x4 ∷ 0x6 ∷ 0x8 ∷ 0xa ∷ 0xc ∷ 0xd ∷ 0xe ∷ 0xf ∷ 0x10 ∷ 0x11 ∷ 0x12 ∷ 0x14
    ∷ 0x16 ∷ 0x18 ∷ 0x1a ∷ 0x1c ∷ 0x1e ∷ 0x1f ∷ 0x20 ∷ 0x22 ∷ 0x24 ∷ 0x26 ∷ 0x28 ∷ 0x2a ∷ 0x2c
    ∷ 0x2e ∷ 0x30 ∷ 0x32 ∷ 0x34 ∷ 0x38 ∷ 0x3c ∷ 0x40 ∷ 0x42 ∷ 0x44 ∷ 0x46 ∷ 0x48 ∷ 0x4a ∷ 0x4c
    ∷ 0x4e ∷ 0x50 ∷ 0x54 ∷ 0x60 ∷ 0x62 ∷ 0x64 ∷ 0x66 ∷ 0x6c ∷ 0x80 ∷ 0x82 ∷ 0x84 ∷ 0xa0 ∷ 0xa2
    ∷ 0xa4 ∷ 0xc0 ∷ 0xc2 ∷ 0xc4 ∷ 0xd0 ∷ 0xe0 ∷ 0xe2 ∷ 0xe4 ∷ 0xe8 ∷ 0xea ∷ 0xf0 ∷ 0xf2 ∷ 0xf4
    ∷ 0xf6 ∷ 0xf8 ∷ 0xfe ∷ []

unfoldable pub is_one_of : ℕ → List ℕ → Bool
is_one_of t [] = false
is_one_of t (x ∷ xs) = t == x || is_one_of t xs

-- `StabTypes(t)` gives a member for these values, and raises ValueError for any other.
unfoldable pub is_stab_type : ℕ → Bool
unfolding is_one_of
is_stab_type t = is_one_of t stab_types
