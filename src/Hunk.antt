-- ===== src/Hunk.antt =====
-- host/hunklib.py: reading executables in the Amiga Hunk format. A file is the bytes that are still to
-- be read.
pub mod Blocks
pub mod Exe
use cwdbg.Base.{
  ℕ, zero, suc, ◌+◌, ◌*◌, ◌/◌, ◌%◌, Bool, true, false, ◌&&◌, [], ◌∷◌, ◌++◌, Bytes, ◌==◌, ltb, leb,
  if◌then◌else◌, length, take, drop, word32, Outcome, ok, raise, Exec, pure, throw, check, ◌>>=◌,
  ◌>>◌, eof_error, struct_error, unicode_decode_error,
}

abbrev pub File : Type 0
File = Bytes

-- `exe_file.read(n)`: up to `n` bytes, none of them at the end of the file.
unfoldable pub read : ℕ → Exec File Bytes
read n file = (ok (take n file), drop n file)

unpack_word : Bytes → Exec File ℕ
unpack_word [] = throw eof_error
unpack_word (a ∷ b ∷ c ∷ d ∷ []) = pure (word32 a b c d)
unpack_word _ = throw struct_error

unfoldable pub read_word : Exec File ℕ
unfolding read unpack_word
read_word = do buffer ← read 4; unpack_word buffer

-- The value of `_read_string`: at the end of the file it returns the class EOFError, and raises nothing.
pub data ReadString : Type 0 where
  text : Bytes → ReadString
  eof_class : ReadString

-- `.replace('\x00', '')`
unfoldable pub strip_nuls : Bytes → Bytes
strip_nuls [] = []
strip_nuls (c ∷ cs) = (if c == 0 then [] else c ∷ []) ++ strip_nuls cs

unfoldable pub is_ascii : Bytes → Bool
is_ascii [] = true
is_ascii (c ∷ cs) = ltb c 128 && is_ascii cs

unpack_string : ℕ → Bytes → Exec File ReadString
unfolding strip_nuls is_ascii
unpack_string nchars [] = pure eof_class
unpack_string nchars (c ∷ cs) = do
  check (length (c ∷ cs) == nchars) struct_error
  check (is_ascii (c ∷ cs)) unicode_decode_error
  pure (text (strip_nuls (c ∷ cs)))

unfoldable pub read_string : ℕ → Exec File ReadString
unfolding read unpack_string
read_string nchars = do buffer ← read nchars; unpack_string nchars buffer
