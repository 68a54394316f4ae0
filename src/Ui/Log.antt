-- ===== src/Ui/Log.antt =====
-- `UrwidHandler` of host/ui.py: the messages of the log that are shown.
use cwdbg.Base.{
  ℕ, suc, ◌-◌, ◌≤◌, ◌≡◌, refl, sym, ap, ◌∙◌, List, [], ◌∷◌, ◌++◌, Bytes, arith, ltb, if◌then◌else◌,
  length, drop, length-append, append_assoc, append-nil, Bool-cases, inl, inr,
}

abbrev pub max_num_of_log_messages : ℕ
max_num_of_log_messages = 10

pub record UrwidHandler : Type 0 where
  pub messages : List Bytes
  pub widget : List Bytes

-- `del self._messages[0]`, if there are too many.
unfoldable pub without_oldest : List Bytes → List Bytes
without_oldest messages =
    if ltb max_num_of_log_messages (length messages) then drop 1 messages else messages

unfoldable pub write : Bytes → UrwidHandler → UrwidHandler
unfolding without_oldest
write message handler =
    let messages = without_oldest (handler.messages ++ message ∷ []) in
    record { messages = messages; widget = messages }

abbrev pub write_all : List Bytes → UrwidHandler → UrwidHandler
write_all [] handler = handler
write_all (message ∷ messages) handler = write_all messages (write message handler)

abbrev pub new_handler : UrwidHandler
new_handler = record { messages = []; widget = [] }

-- The last items of a list, as many as are shown.
abbrev pub latest : List Bytes → List Bytes
latest messages = drop (length messages - max_num_of_log_messages) messages

-- Without its first item, a list that is too long by one or more still has the same last items.
latest-cons :
    (m : Bytes) (ms : List Bytes)
    → max_num_of_log_messages ≤ length ms
    → latest (m ∷ ms) ≡ latest ms
latest-cons m ms h =
    ap (λ n. drop n (m ∷ ms)) {x = length (m ∷ ms) - max_num_of_log_messages}
      {y = suc (length ms - max_num_of_log_messages)} (omega (arith, h))

latest-without_oldest :
    (kept ms : List Bytes)
    → length kept ≤ suc max_num_of_log_messages
    → latest (without_oldest kept ++ ms) ≡ latest (kept ++ ms)
unfolding without_oldest
latest-without_oldest [] ms h = refl
latest-without_oldest (m ∷ kept) ms h =
    let len = length-append kept ms in
    elim (Bool-cases (ltb max_num_of_log_messages (suc (length kept)))) [
      | inl long ↦ rw long (sym (latest-cons m (kept ++ ms) (ground (arith, len))))
      | inr short ↦ rw short refl
    ]

length-drop_one : (xs : List Bytes) → length (drop 1 xs) ≡ length xs - 1
length-drop_one [] = omega arith
length-drop_one (x ∷ xs) = omega arith

length-write :
    (message : Bytes) (handler : UrwidHandler)
    → length handler.messages ≤ max_num_of_log_messages
    → length (write message handler).messages ≤ max_num_of_log_messages
unfolding write without_oldest
length-write message handler h = ground (
  arith,
  length-append handler.messages (message ∷ []),
  length-drop_one (handler.messages ++ message ∷ []),
)

latest_few : (ms : List Bytes) → length ms ≤ max_num_of_log_messages → ms ≡ latest ms
latest_few ms h =
    ap (λ n. drop n ms) {x = 0} {y = length ms - max_num_of_log_messages} (omega (arith, h))

latest-write :
    (m : Bytes) (handler : UrwidHandler) (ms : List Bytes)
    → length handler.messages ≤ max_num_of_log_messages
    → latest ((write m handler).messages ++ ms) ≡ latest ((handler.messages ++ m ∷ []) ++ ms)
unfolding write
latest-write m handler ms h =
    latest-without_oldest (handler.messages ++ m ∷ []) ms
      (omega (arith, length-append handler.messages (m ∷ []), h))

write_all-from :
    (written : List Bytes) (handler : UrwidHandler)
    → length handler.messages ≤ max_num_of_log_messages
    → (write_all written handler).messages ≡ latest (handler.messages ++ written)
write_all-from [] handler h =
    latest_few handler.messages h ∙ ap latest (sym (append-nil handler.messages))
write_all-from (m ∷ ms) handler h =
    write_all-from ms (write m handler) (length-write m handler h)
    ∙ latest-write m handler ms h
    ∙ ap latest (append_assoc handler.messages (m ∷ []) ms)

-- After any number of messages, those that are kept are the last ten of all that were written, in their order, or
-- all of them if there are fewer.
pub write_all-latest :
    (written : List Bytes) → (write_all written new_handler).messages ≡ latest written
write_all-latest written = write_all-from written new_handler (omega arith)
