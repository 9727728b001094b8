-- ===== src/Enterprise/Receipts/Timeouts.antt =====
-- What a check for timeouts leaves.
use genro_mail_proxy.Prelude.{
  ℕ, ◌-◌, String, ◌≡◌, refl, sym, ap, ◌∙◌, Bool, true, false, ◌&&◌, not, none, some, List, [], ◌∷◌,
  ◌++◌, ◌==ˢ◌, eq_iff, arith, if◌then◌else◌, map, filter, any, All, inl, inr, Bool-cases,
}
use genro_mail_proxy.Queue.{Message, MessageEvent, Database}
use genro_mail_proxy.Queue.Messages.{update, update_rows}
use genro_mail_proxy.Queue.Events.{add_event, new_event, trigger_on_inserted}
use genro_mail_proxy.Queue.Cleanup.{is_before}
use genro_mail_proxy.Enterprise.Receipts.{
  clear_pec_flag, is_accepted, is_waiting, get_pec_without_acceptance, timeout_text, time_out,
  check_pec_timeouts,
}

-- The rows whose keys are listed lose the flag.
abbrev pub declassify : List String → List Message → List Message
declassify pks ms =
    map (λ m. if any (λ k. k ==ˢ m.pk) pks then record m { is_pec = false } else m) ms

declassify-update_rows :
    (pk : String) (pks : List String) (ms : List Message)
    → declassify pks (update_rows pk (λ m. record m { is_pec = false }) ms)
      ≡ declassify (pk ∷ pks) ms
unfolding update_rows
declassify-update_rows pk pks [] = refl
declassify-update_rows pk pks (m ∷ ms) =
    ground (arith, eq_iff m.pk pk, eq_iff pk m.pk, declassify-update_rows pk pks ms)

declassify_none : (ms : List Message) → declassify [] ms ≡ ms
declassify_none [] = refl
declassify_none (m ∷ ms) = ap (λ r. m ∷ r) (declassify_none ms)

messages-after :
    (now : ℕ) (m : Message) (db : Database)
    → (add_event m.pk "pec_timeout" now (some timeout_text) none (clear_pec_flag m.pk db)).messages
      ≡ update_rows m.pk (λ m. record m { is_pec = false }) db.messages
unfolding add_event trigger_on_inserted clear_pec_flag update
messages-after now m db = ground arith

messages-time_out :
    (now : ℕ) (ms : List Message) (db : Database)
    → (time_out now ms db).messages ≡ declassify (map (λ m. m.pk) ms) db.messages
unfolding time_out
messages-time_out now [] db = sym (declassify_none db.messages)
messages-time_out now (m ∷ ms) db =
    messages-time_out now ms
      (add_event m.pk "pec_timeout" now (some timeout_text) none (clear_pec_flag m.pk db))
    ∙ ap (declassify (map (λ m. m.pk) ms)) (messages-after now m db)
    ∙ declassify-update_rows m.pk (map (λ m. m.pk) ms) db.messages

accepted_append :
    (pk : String) (es : List MessageEvent) (e : MessageEvent)
    → (e.event_type ==ˢ "pec_acceptance") ≡ false
    → any (λ x. (x.message_pk ==ˢ pk) && (x.event_type ==ˢ "pec_acceptance")) (es ++ e ∷ [])
      ≡ any (λ x. (x.message_pk ==ˢ pk) && (x.event_type ==ˢ "pec_acceptance")) es
accepted_append pk [] e other = ground (arith, other)
accepted_append pk (x ∷ es) e other = ground (arith, accepted_append pk es e other)

events-after :
    (now : ℕ) (m : Message) (db : Database)
    → (add_event m.pk "pec_timeout" now
        (some timeout_text)
        none
        (clear_pec_flag m.pk db)).message_events
      ≡ db.message_events ++ new_event db m.pk "pec_timeout" now (some timeout_text) none ∷ []
unfolding add_event trigger_on_inserted clear_pec_flag update
events-after now m db = ground arith

is_accepted-time_out :
    (now : ℕ) (pk : String) (ms : List Message) (db : Database)
    → is_accepted (time_out now ms db) pk ≡ is_accepted db pk
unfolding time_out
is_accepted-time_out now pk [] db = refl
is_accepted-time_out now pk (m ∷ ms) db =
    is_accepted-time_out now pk ms
      (add_event m.pk "pec_timeout" now (some timeout_text) none (clear_pec_flag m.pk db))
    ∙ ap (any (λ x. (x.message_pk ==ˢ pk) && (x.event_type ==ˢ "pec_acceptance")))
        (events-after now m db)
    ∙ accepted_append pk db.message_events
        (new_event db m.pk "pec_timeout" now (some timeout_text) none) refl

-- Each row that passes a test has its key in a list.
abbrev Lists : (Message → Bool) → List String → Message → Type 0
Lists p pks m = p m ≡ true → any (λ k. k ==ˢ m.pk) pks ≡ true

one_more_key :
    (p : Message → Bool) (k : String) (pks : List String) (ms : List Message)
    → All (Lists p pks) ms
    → All (Lists p (k ∷ pks)) ms
one_more_key p k pks [] h = tt
one_more_key p k pks (m ∷ ms) h =
    (λ passes. ground (arith, h.0 passes), one_more_key p k pks ms h.1)

filtered_step :
    (p : Message → Bool) (m : Message) (ms : List Message) (b : Bool)
    → p m ≡ b
    → All (Lists p (map (λ n. n.pk) (filter p ms))) ms
    → All
        (Lists p (map (λ n. n.pk) (elim b [ true ↦ m ∷ filter p ms | false ↦ filter p ms ])))
        (m ∷ ms)
filtered_step p m ms true passes rest = (
  λ _. ground (arith, eq_iff m.pk m.pk),
  one_more_key p m.pk (map (λ n. n.pk) (filter p ms)) ms rest,
)
filtered_step p m ms false fails rest = (λ h. cc (fails, h), rest)

filtered_keys :
    (p : Message → Bool) (ms : List Message) → All (Lists p (map (λ n. n.pk) (filter p ms))) ms
filtered_keys p [] = tt
filtered_keys p (m ∷ ms) = filtered_step p m ms (p m) refl (filtered_keys p ms)

unlisted_not_waiting :
    (cutoff : ℕ) (db db' : Database) (pks : List String) (m : Message)
    → is_accepted db' m.pk ≡ is_accepted db m.pk
    → Lists (is_waiting cutoff db) pks m
    → any (λ k. k ==ˢ m.pk) pks ≡ false
    → is_waiting cutoff db' m ≡ false
unlisted_not_waiting cutoff db db' pks m same h unlisted =
    ap (λ b. m.is_pec && (is_before m.smtp_ts cutoff && not b)) same
    ∙ (elim (Bool-cases (is_waiting cutoff db m)) [
      | inl waits ↦ cc (h waits, unlisted)
      | inr settled ↦ settled
    ])

filter_skip :
    (p : Message → Bool) (m : Message) (ms : List Message)
    → p m ≡ false
    → filter p (m ∷ ms) ≡ filter p ms
filter_skip p m ms fails = rw (fails, filter) refl

none_waiting :
    (cutoff : ℕ) (db db' : Database) (pks : List String) (ms : List Message)
    → ((pk : String) → is_accepted db' pk ≡ is_accepted db pk)
    → All (Lists (is_waiting cutoff db) pks) ms
    → filter (is_waiting cutoff db') (declassify pks ms) ≡ []
none_waiting cutoff db db' pks [] same h = refl
none_waiting cutoff db db' pks (m ∷ ms) same h = elim (Bool-cases (any (λ k. k ==ˢ m.pk) pks)) [
  | inl listed ↦ rw listed (none_waiting cutoff db db' pks ms same h.1)
  | inr unlisted ↦ rw unlisted (
      filter_skip (is_waiting cutoff db') m (declassify pks ms)
        (unlisted_not_waiting cutoff db db' pks m (same m.pk) h.0 unlisted)
      ∙ none_waiting cutoff db db' pks ms same h.1)
]

-- After a check no message of certified mail is left that was sent before the time limit and has no
-- acceptance: the check takes the flag from the rows that it found, and changes no other row.
pub check_pec_timeouts_lem :
    (timeout now : ℕ) (db : Database)
    → (get_pec_without_acceptance (now - timeout) (check_pec_timeouts timeout now db) ≡ [])
      × ((check_pec_timeouts timeout now db).messages
          ≡ declassify
              (map (λ m. m.pk) (get_pec_without_acceptance (now - timeout) db))
              db.messages)
unfolding check_pec_timeouts get_pec_without_acceptance
check_pec_timeouts_lem timeout now db =
    let waiting = filter (is_waiting (now - timeout) db) db.messages in
    let rows = messages-time_out now waiting db in
    (
      ap (filter (is_waiting (now - timeout) (time_out now waiting db))) rows
          ∙ none_waiting (now - timeout) db (time_out now waiting db) (map (λ m. m.pk) waiting)
              db.messages (λ pk. is_accepted-time_out now pk waiting db)
              (filtered_keys (is_waiting (now - timeout) db) db.messages),
      rows,
    )
