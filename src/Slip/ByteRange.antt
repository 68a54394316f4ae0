-- ===== src/Slip/ByteRange.antt =====
-- The decoding of host/server.py over bytes.
use cwdbg.Base.{
  ℕ, zero, suc, Bool, true, false, [], ◌∷◌, ◌++◌, Bytes, arith, if◌then◌else◌, AllBytes,
}
use cwdbg.Slip.{replace_from, decode}

pub AllBytes-append : (xs ys : Bytes) → AllBytes xs → AllBytes ys → AllBytes (xs ++ ys)
AllBytes-append [] ys h k = k
AllBytes-append (x ∷ xs) ys h k = (h.0, AllBytes-append xs ys h.1 k)

if-AllBytes :
    (c : Bool) (xs ys : Bytes) → AllBytes xs → AllBytes ys → AllBytes (if c then xs else ys)
if-AllBytes true xs ys h k = h
if-AllBytes false xs ys h k = k

replace_from-AllBytes :
    (skip : ℕ) (old new s : Bytes)
    → AllBytes new
    → AllBytes s
    → AllBytes (replace_from skip old new s)
unfolding replace_from
replace_from-AllBytes skip old new [] h k = tt
replace_from-AllBytes (suc skip) old new (c ∷ cs) h k = replace_from-AllBytes skip old new cs h k.1
replace_from-AllBytes zero old new (c ∷ cs) h k =
    AllBytes-append _ _ (if-AllBytes _ new (c ∷ []) h (k.0, tt))
      (replace_from-AllBytes _ old new cs h k.1)

pub decode-AllBytes : (s : Bytes) → AllBytes s → AllBytes (decode s)
unfolding decode
decode-AllBytes s h =
    replace_from-AllBytes 0 _ _ _ (omega arith) (replace_from-AllBytes 0 _ _ s (omega arith) h)
