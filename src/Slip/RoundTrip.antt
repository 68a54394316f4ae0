-- ===== src/Slip/RoundTrip.antt =====
-- The encoding and the decoding of frames, host/server.py, one against the other.
use cwdbg.Base.{
  ℕ, ◌+◌, ◌≡◌, refl, sym, ap, ◌∙◌, [], ◌∷◌, ◌++◌, none, some, Bytes, arith, ◌==◌, if◌then◌else◌,
  length, append-nil,
}
use cwdbg.Slip.{slip_end, slip_esc, slip_escaped_end, slip_escaped_esc, encode, decode, find}

-- The code that the two replacements come to for one byte.
abbrev encode_byte : ℕ → Bytes → Bytes
encode_byte c rest =
    if c == slip_esc
    then slip_esc ∷ slip_escaped_esc ∷ rest
    else if c == slip_end
    then slip_esc ∷ slip_escaped_end ∷ rest
    else c ∷ rest

encode-nil : encode [] ≡ []
unfolding encode
encode-nil = refl

encode-cons : (c : ℕ) (cs : Bytes) → encode (c ∷ cs) ≡ encode_byte c (encode cs)
unfolding encode
encode-cons c cs = ground arith

-- A text with an escape character is decoded as its two passes do it.
decode-encode_byte : (c : ℕ) (s : Bytes) → decode (encode_byte c s) ≡ c ∷ decode s
unfolding decode
decode-encode_byte c s = ground arith

encode_byte-append : (c : ℕ) (s rest : Bytes) → encode_byte c s ++ rest ≡ encode_byte c (s ++ rest)
encode_byte-append c s rest = ground arith

-- Decoding the encoded bytes `s` gives `s` back, whatever bytes follow the encoding: those are
-- decoded on their own.
pub decode-encode : (s rest : Bytes) → decode (encode s ++ rest) ≡ s ++ decode rest
decode-encode [] rest = rw encode-nil
decode-encode (c ∷ cs) rest =
    rw (encode-cons, encode_byte-append, decode-encode_byte, decode-encode cs)

decode-nil : decode [] ≡ []
unfolding decode
decode-nil = refl

decode-end : (rest : Bytes) → decode (slip_end ∷ rest) ≡ slip_end ∷ decode rest
unfolding decode
decode-end rest = refl

pub decode_frame :
    (s rest : Bytes) → decode (encode s ++ slip_end ∷ rest) ≡ s ++ slip_end ∷ decode rest
decode_frame s rest = rw (decode-encode, decode-end)

find-encode_byte :
    (c : ℕ) (s : Bytes) (n : ℕ)
    → find slip_end s ≡ some n
    → find slip_end (encode_byte c s) ≡ some (length (encode_byte c []) + n)
unfolding find
find-encode_byte c s n h = ground arith

-- The first end marker of a frame is the one that `send_message` adds behind the encoded bytes.
pub find-encode :
    (s rest : Bytes) → find slip_end (encode s ++ slip_end ∷ rest) ≡ some (length (encode s))
find-encode [] rest = rw encode-nil (unfold find in refl)
find-encode (c ∷ cs) rest =
    rw (encode-cons, encode_byte-append)
      (find-encode_byte c _ _ (find-encode cs rest) ∙ ap some (ground arith))

find-append_none : (b : ℕ) (xs ys : Bytes) → find b (xs ++ ys) ≡ none → find b xs ≡ none
unfolding find
find-append_none b [] ys h = refl
find-append_none b (x ∷ xs) ys h = ground (arith, find-append_none b xs ys)

find-encode_byte-none :
    (c : ℕ) (s : Bytes) → find slip_end s ≡ none → find slip_end (encode_byte c s) ≡ none
unfolding find
find-encode_byte-none c s h = ground arith

find_encoding : (s : Bytes) → find slip_end (encode s) ≡ none
find_encoding [] = rw encode-nil (unfold find in refl)
find_encoding (c ∷ cs) = rw encode-cons (find-encode_byte-none c (encode cs) (find_encoding cs))

-- No proper part of a frame that has been received so far holds an end marker.
pub find-encode-none : (xs ys s : Bytes) → encode s ≡ xs ++ ys → find slip_end xs ≡ none
find-encode-none xs ys s h = find-append_none slip_end xs ys (rw (← h) (find_encoding s))

-- Two messages with the same encoding are the same.
pub encode-injective : (s t : Bytes) → encode s ≡ encode t → s ≡ t
encode-injective s t h =
    let back : (u : Bytes) → decode (encode u) ≡ u = λ u.
      ap decode (sym (append-nil (encode u)))
      ∙ decode-encode u []
      ∙ rw (decode-nil) (append-nil u) in
    cc (back s, back t)
