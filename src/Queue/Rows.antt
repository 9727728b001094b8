-- ===== src/Queue/Rows.antt =====
-- What the updates do to the row of each key.
use genro_mail_proxy.Prelude.{
  ℕ, String, ◌≡◌, refl, false, Option, none, some, List, [], ◌∷◌, arith, eq_iff, ◌==ˢ◌,
  if◌then◌else◌, find?, is_empty, ◌==◌,
}
use genro_mail_proxy.Prelude.Json.{Json}
use genro_mail_proxy.Prelude.Text.{Text}
use genro_mail_proxy.Queue.{Message, Database}
use genro_mail_proxy.Queue.Messages.{
  update_rows, update, get_by_pk, set_deferred, mark_sent, mark_error,
}
use genro_mail_proxy.Queue.Events.{add_event, event_deferral, stored_metadata}

-- `f` of the value, if there is one.
abbrev pub map_row : (Message → Message) → Option Message → Option Message
map_row f none = none
map_row f (some m) = some (f m)

-- The update leaves the key.
abbrev pub KeepsKey : (Message → Message) → Type 0
KeepsKey f = (m : Message) → (f m).pk ≡ m.pk

find?-update_rows :
    (k j : String) (f : Message → Message) (ms : List Message)
    → KeepsKey f
    → find? (λ m. m.pk ==ˢ j) (update_rows k f ms)
      ≡ (if k ==ˢ j then map_row f (find? (λ m. m.pk ==ˢ j) ms) else find? (λ m. m.pk ==ˢ j) ms)
unfolding update_rows
find?-update_rows k j f [] keeps = ground arith
find?-update_rows k j f (m ∷ ms) keeps = ground (
  arith,
  keeps m,
  eq_iff m.pk k,
  eq_iff m.pk j,
  eq_iff k j,
  eq_iff (f m).pk j,
  find?-update_rows k j f ms keeps,
)

pub get_by_pk-update :
    (k j : String) (f : Message → Message) (db : Database)
    → KeepsKey f
    → get_by_pk j (update k f db) ≡ (if k ==ˢ j then map_row f (get_by_pk j db) else get_by_pk j db)
unfolding get_by_pk update
get_by_pk-update k j f db keeps = find?-update_rows k j f db.messages keeps

-- What an event does to the row of its message.
abbrev pub effect : String → ℕ → Option Json → Message → Message
effect type ts metadata m =
    if type ==ˢ "sent"
    then record m { smtp_ts = some ts; deferred_ts = none }
    else if type ==ˢ "error"
    then record m { smtp_ts = some ts; deferred_ts = none }
    else if type ==ˢ "deferred"
    then record m { deferred_ts = event_deferral (stored_metadata metadata) ts; smtp_ts = none }
    else m

map_row_id : (o : Option Message) → map_row (λ m. m) o ≡ o
map_row_id none = refl
map_row_id (some m) = refl

-- An event with a key and a time above zero has its effect on the row of its message, and on no other
-- row: "sent" and "error" mark it as processed at the event's time, "deferred" makes it pending until
-- the time in the metadata, and any other type changes nothing.
pub get_by_pk-add_event :
    (pk j type : String) (ts : ℕ) (description : Option Text) (metadata : Option Json)
    (db : Database)
    → is_empty pk ≡ false
    → (ts == 0) ≡ false
    → get_by_pk j (add_event pk type ts description metadata db)
      ≡ (if pk ==ˢ j then map_row (effect type ts metadata) (get_by_pk j db) else get_by_pk j db)
unfolding add_event mark_sent mark_error set_deferred update get_by_pk
get_by_pk-add_event pk j type ts description metadata db named timed = ground (
  arith,
  find?-update_rows pk j (λ m. record m { smtp_ts = some ts; deferred_ts = none }) db.messages
      (λ m. refl),
  find?-update_rows pk j
      (λ m. record m { deferred_ts = event_deferral (stored_metadata metadata) ts; smtp_ts = none })
      db.messages (λ m. refl),
  map_row_id (find? (λ m. m.pk ==ˢ j) db.messages),
)
