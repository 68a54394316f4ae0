-- ===== src/Slip.antt =====
-- SLIP framing of the serial line: host/server.py, the constants, the encoding in
-- `ServerConnection.send_message` and the decoding in `ServerConnection.recv_message`.
pub mod RoundTrip
pub mod ByteRange
use cwdbg.Base.{
  ℕ, zero, suc, ◌-◌, Bool, true, false, ◌&&◌, [], ◌∷◌, ◌++◌, Option, none, some, Bytes, ◌==◌,
  if◌then◌else◌, length,
}

abbrev pub slip_end : ℕ
slip_end = 0xc0

abbrev pub slip_escaped_end : ℕ
slip_escaped_end = 0xdc

abbrev pub slip_esc : ℕ
slip_esc = 0xdb

abbrev pub slip_escaped_esc : ℕ
slip_escaped_esc = 0xdd

-- Python's `bytes.replace(old, new)` for a non-empty `old`: the occurrences are taken from the left
-- and do not overlap. `skip` counts the bytes of the last occurrence that are still to be passed.
is_prefix : Bytes → Bytes → Bool
is_prefix [] s = true
is_prefix (p ∷ ps) [] = false
is_prefix (p ∷ ps) (c ∷ cs) = c == p && is_prefix ps cs

replace_from : ℕ → Bytes → Bytes → Bytes → Bytes
unfolding is_prefix
replace_from skip old new [] = []
replace_from (suc skip) old new (c ∷ cs) = replace_from skip old new cs
replace_from zero old new (c ∷ cs) =
    let found = is_prefix old (c ∷ cs) in
    (if found then new else c ∷ []) ++ replace_from (if found then length old - 1 else 0) old new cs

unfoldable pub replace : Bytes → Bytes → Bytes → Bytes
unfolding replace_from
replace old new s = replace_from 0 old new s

-- `buffer.find(SLIP_END)`: the first position, or -1.
unfoldable pub find : ℕ → Bytes → Option ℕ
find b [] = none
find b (c ∷ cs) =
    if c == b then some 0 else (elim (find b cs) [ none ↦ none | some i ↦ some (suc i) ])

-- The two replacements of `send_message`: escape characters first, then end characters.
unfoldable pub encode : Bytes → Bytes
unfolding replace
encode s =
    replace (slip_end ∷ []) (slip_esc ∷ slip_escaped_end ∷ [])
      (replace (slip_esc ∷ []) (slip_esc ∷ slip_escaped_esc ∷ []) s)

-- The two replacements of `recv_message`: escaped ends first, then escaped escapes.
unfoldable pub decode : Bytes → Bytes
unfolding replace
decode s =
    replace (slip_esc ∷ slip_escaped_esc ∷ []) (slip_esc ∷ [])
      (replace (slip_esc ∷ slip_escaped_end ∷ []) (slip_end ∷ []) s)

-- What goes over the line for the bytes of one message.
abbrev pub frame : Bytes → Bytes
frame s = encode s ++ slip_end ∷ []
