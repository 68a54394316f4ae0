-- ===== src/Hunk/Blocks/Ends.antt =====
-- How the parts of the readers of host/hunklib.py end.
use cwdbg.Base.{
  ℕ, zero, suc, ◌+◌, ◌≤◌, ◌≡◌, ◌≢◌, refl, Bool, true, false, [], ◌∷◌, Bytes, arith, if◌then◌else◌,
  length, length-drop-le, Exn, Outcome, ok, raise, no_return, Exec, pure, throw, check, proceed,
  nat_key, ◌>>=◌,
}
use cwdbg.Hunk.{File, read, read_word, eof_class, unpack_string, read_string}
use cwdbg.Hunk.Blocks.{skip_words, ext_entry}

-- The call returns or raises, and leaves no more bytes than there were.
pub record Ends {A : Type 0} (m : Exec File A) (file : File) : Type 0 where
  pub ends : (m file).0 ≢ no_return
  pub shrinks : length (m file).1 ≤ length file

module _ {A B : Type 0} where
  Ends-proceed :
      (r : Outcome A × File) (f : A → Exec File B) (file : File)
      → r.0 ≢ no_return
      → length r.1 ≤ length file
      → ((a : A) (rest : File) → r ≡ (ok a, rest) → length rest ≤ length file → Ends (f a) rest)
      → ((proceed r.0 f r.1).0 ≢ no_return) × (length (proceed r.0 f r.1).1 ≤ length file)
  Ends-proceed (ok a, rest) f file h l k =
      let e = k a rest refl l in (e.ends, omega (arith, e.shrinks))
  Ends-proceed (raise x, rest) f file h l k = (cc, l)
  Ends-proceed (no_return, rest) f file h l k = absurd (h refl)

  pub Ends-bind :
      (m : Exec File A) (f : A → Exec File B) (file : File)
      → Ends m file
      → ((a : A) (rest : File)
          → m file ≡ (ok a, rest)
          → length rest ≤ length file
          → Ends (f a) rest)
      → Ends (m >>= f) file
  Ends-bind m f file h k =
      let r = Ends-proceed (m file) f file h.ends h.shrinks k in
      record { ends = r.0; shrinks = r.1 }

pub read_word-Ends : (file : File) → Ends read_word file
unfolding read_word
read_word-Ends (a ∷ b ∷ c ∷ d ∷ file) = record { ends = cc; shrinks = omega arith }
read_word-Ends _ = record { ends = cc; shrinks = omega arith }

-- A word that is read takes four bytes.
pub read_word-length :
    (file rest : File) (w : ℕ) → read_word file ≡ (ok w, rest) → length rest + 4 ≡ length file
unfolding read_word
read_word-length (a ∷ b ∷ c ∷ d ∷ file) rest w h = ground arith
read_word-length _ rest w h = ground arith

pub read-Ends : (n : ℕ) (file : File) → Ends (read n) file
unfolding read
read-Ends n file = record { ends = cc; shrinks = length-drop-le n file }

pub pure-Ends : {A : Type 0} (a : A) (file : File) → Ends (pure a) file
pure-Ends a file = record { ends = cc; shrinks = omega arith }

pub throw-Ends : {A : Type 0} (e : Exn) (file : File) → Ends (throw {A = A} e) file
throw-Ends e file = record { ends = cc; shrinks = omega arith }

check-Ends : (b : Bool) (e : Exn) (file : File) → Ends (check b e) file
check-Ends true e file = pure-Ends tt file
check-Ends false e file = throw-Ends e file

pub if-Ends :
    {A : Type 0} (b : Bool) (m k : Exec File A) (file : File)
    → Ends m file
    → Ends k file
    → Ends (if b then m else k) file
if-Ends true m k file h h' = h
if-Ends false m k file h h' = h'

unpack_string-Ends : (n : ℕ) (buffer : Bytes) (file : File) → Ends (unpack_string n buffer) file
unfolding unpack_string
unpack_string-Ends n [] file = pure-Ends eof_class file
unpack_string-Ends n (c ∷ cs) file = record { ends = ground arith; shrinks = ground arith }

pub read_string-Ends : (n : ℕ) (file : File) → Ends (read_string n) file
unfolding read_string
read_string-Ends n file = Ends-bind _ _ file (read-Ends n file) λ b f _ _. unpack_string-Ends n b f

pub skip_words-Ends : (n : ℕ) (file : File) → Ends (skip_words n) file
unfolding skip_words
skip_words-Ends zero file = pure-Ends tt file
skip_words-Ends (suc n) file =
    Ends-bind _ _ file (read_word-Ends file) λ w f _ _. skip_words-Ends n f

pub ext_entry-Ends : (t : ℕ) (file : File) → Ends (ext_entry t) file
unfolding ext_entry
ext_entry-Ends t file =
    if-Ends _ _ _ file (Ends-bind _ _ file (read_word-Ends file) λ _ f _ _. pure-Ends tt f) (
      if-Ends _ _ _ file (Ends-bind _ _ file (read_word-Ends file) λ n f _ _. skip_words-Ends n f)
        (throw-Ends _ file))
