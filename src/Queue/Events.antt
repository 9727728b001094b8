-- ===== src/Queue/Events.antt =====
-- src/core/mail_proxy/entities/message_event/table.py: delivery events, and what they do to a message.
use genro_mail_proxy.Prelude.{
  ℕ, ◌+◌, String, Bool, ◌&&◌, ◌||◌, not, Option, none, some, List, [], ◌∷◌, ◌++◌, ◌==◌, ltb, ◌==ˢ◌,
  if◌then◌else◌, filter, count, any, is_some, is_empty, take,
}
use genro_mail_proxy.Prelude.Int.{pos}
use genro_mail_proxy.Prelude.Json
use genro_mail_proxy.Prelude.Json.{Json, num, truth}
use genro_mail_proxy.Prelude.Text.{Text}
use genro_mail_proxy.Queue.{MessageEvent, Database}
use genro_mail_proxy.Queue.Messages.{mark_sent, mark_error, set_deferred, get_by_pk}

-- A value for the INTEGER column; the code puts times there, which are not negative.
abbrev pub as_ts : Json → Option ℕ
as_ts (num (pos n)) = some n
as_ts _ = none

-- `meta_dict.get("deferred_ts", event_ts)`, and the event's time if there is no metadata.
unfoldable pub event_deferral : Option Json → ℕ → Option ℕ
event_deferral none event_ts = some event_ts
event_deferral (some meta) event_ts = elim (Json.lookup "deferred_ts" meta) [
  | none ↦ some event_ts
  | some v ↦ as_ts v
]

unfoldable pub trigger_on_inserted : MessageEvent → Database → Database
trigger_on_inserted e db =
    if is_empty e.message_pk || e.event_ts == 0
    then db
    else if e.event_type ==ˢ "sent"
    then mark_sent e.message_pk e.event_ts db
    else if e.event_type ==ˢ "error"
    then mark_error e.message_pk e.event_ts db
    else if e.event_type ==ˢ "deferred"
    then set_deferred e.message_pk (event_deferral e.metadata e.event_ts) db
    else db

-- `json.dumps(metadata) if metadata else None`
abbrev pub stored_metadata : Option Json → Option Json
stored_metadata none = none
stored_metadata (some v) = if truth v then some v else none

-- The row that `add_event` inserts, with the key that the database counts up.
abbrev pub new_event : Database → String → String → ℕ → Option Text → Option Json → MessageEvent
new_event db pk type ts description metadata = record {
  id = db.next_event_id;
  message_pk = pk;
  event_type = type;
  event_ts = ts;
  description = description;
  metadata = stored_metadata metadata;
  reported_ts = none;
}

unfoldable pub add_event : String → String → ℕ → Option Text → Option Json → Database → Database
unfolding trigger_on_inserted
add_event pk type ts description metadata db =
    let e = new_event db pk type ts description metadata in
    trigger_on_inserted e (record db {
      message_events = db.message_events ++ e ∷ [];
      next_event_id = db.next_event_id + 1;
    })

-- `e.reported_ts IS NULL`
abbrev pub unreported : MessageEvent → Bool
unreported e = not (is_some e.reported_ts)

-- `UPDATE message_events SET reported_ts = ... WHERE id IN (...)`
unfoldable pub mark_rows : List ℕ → ℕ → List MessageEvent → List MessageEvent
mark_rows ids ts [] = []
mark_rows ids ts (e ∷ es) =
    (if any (λ i. i == e.id) ids then record e { reported_ts = some ts } else e)
    ∷ mark_rows ids ts es

unfoldable pub mark_reported : List ℕ → ℕ → Database → Database
unfolding mark_rows
mark_reported [] ts db = db
mark_reported (i ∷ ids) ts db = record db {
  message_events = mark_rows (i ∷ ids) ts db.message_events;
}

-- `ORDER BY e.event_ts ASC, e.id ASC`
unfoldable pub insert_event : MessageEvent → List MessageEvent → List MessageEvent
insert_event e [] = e ∷ []
insert_event e (f ∷ fs) =
    let rest = insert_event e fs in
    if ltb f.event_ts e.event_ts || (f.event_ts == e.event_ts && ltb f.id e.id)
    then f ∷ rest
    else e ∷ f ∷ fs

unfoldable pub sort_events : List MessageEvent → List MessageEvent
unfolding insert_event
sort_events [] = []
sort_events (e ∷ es) = insert_event e (sort_events es)

-- The events without a report whose message exists, in order and up to the limit. The columns of the
-- message are read by its key.
unfoldable pub fetch_unreported : ℕ → Database → List MessageEvent
unfolding sort_events
fetch_unreported limit db = take limit (
    sort_events
      (filter (λ e. unreported e && is_some (get_by_pk e.message_pk db)) db.message_events))

unfoldable pub get_events_for_message : String → Database → List MessageEvent
unfolding sort_events
get_events_for_message pk db = sort_events (filter (λ e. e.message_pk ==ˢ pk) db.message_events)

unfoldable pub delete_for_message : String → Database → Database
delete_for_message pk db = record db {
  message_events = filter (λ e. not (e.message_pk ==ˢ pk)) db.message_events;
}

unfoldable pub count_unreported_for_message : String → Database → ℕ
count_unreported_for_message pk db =
    count (λ e. (e.message_pk ==ˢ pk) && unreported e) db.message_events
