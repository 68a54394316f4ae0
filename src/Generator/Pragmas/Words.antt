-- ===== src/Generator/Pragmas/Words.antt =====
-- The words of a line of pragmas, in host/create-syscall-info-db.py.
use cwdbg.Base.{
  ℕ, ◌≡◌, refl, true, false, [], ◌∷◌, ◌++◌, Bytes, arith, All, is_space, is_hex_digit, is_digit,
  nat_key, text_key,
}
use cwdbg.Generator.Pragmas.{put_before, begins_word, split_words}

-- A word: it is not empty, and no character of it is blank.
abbrev pub IsWord : Bytes → Type 0
IsWord [] = ⊥
IsWord (c ∷ cs) = All (λ c. is_space c ≡ false) (c ∷ cs)

pub split_words-word :
    (word rest : Bytes) → IsWord word → split_words (word ++ b' ' ∷ rest) ≡ word ∷ split_words rest
unfolding split_words put_before begins_word is_space
split_words-word [] rest w = absurd w
split_words-word (c ∷ []) rest (h, _) = rw h refl
split_words-word (c ∷ d ∷ cs) rest (h, (h', w)) =
    rw (split_words-word (d ∷ cs) rest (h', w)) (rw (h, h') refl)

pub split_words-last : (word : Bytes) → IsWord word → split_words word ≡ word ∷ []
unfolding split_words put_before begins_word
split_words-last [] w = absurd w
split_words-last (c ∷ []) (h, _) = rw h refl
split_words-last (c ∷ d ∷ cs) (h, (h', w)) =
    rw h (rw (split_words-last (d ∷ cs) (h', w)) (rw h' refl))

-- A digit is not blank.
hex_digit_visible : (c : ℕ) → is_hex_digit c ≡ true → is_space c ≡ false
unfolding is_hex_digit is_digit is_space
hex_digit_visible c h = ground arith

pub All-visible : (s : Bytes) → All (λ c. is_hex_digit c ≡ true) s → All (λ c. is_space c ≡ false) s
All-visible [] all = tt
All-visible (c ∷ cs) (h, all) = (hex_digit_visible c h, All-visible cs all)
