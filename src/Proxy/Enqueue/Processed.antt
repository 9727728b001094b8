-- ===== src/Proxy/Enqueue/Processed.antt =====
-- What a batch of new messages leaves of the processed ones.
mod Rejected
pub use Rejected.*
use mathlib.Core.Path.{subst}
use genro_mail_proxy.Prelude.{
  ℕ, String, ◌≡◌, refl, sym, ap, ◌∙◌, true, false, Option, none, some, List, [], ◌∷◌, inl, inr,
  arith, ◌==ˢ◌, ◌==◌, ◌||◌, Bool-cases, get_or, length, is_some, is_truthy, is_empty, find?, map,
  ltb,
}
use genro_mail_proxy.Prelude.Json.{Json, null, bool, num, str, arr, obj, truth}
use genro_mail_proxy.Prelude.Text.{Text, codes}
use genro_mail_proxy.Queue.{Message, Database}
use genro_mail_proxy.Queue.Messages.{
  update, update_rows, mark_error, get, NewMessage, entry_tenant, write_row, upsert, insert_loop,
  insert_batch, pec_ids,
}
use genro_mail_proxy.Queue.Events.{add_event, trigger_on_inserted}
use genro_mail_proxy.Queue.Rows.{map_row}
use genro_mail_proxy.Queue.Fetch.Order.{Has}
use genro_mail_proxy.Queue.Upsert.{
  UniqueKeys, at_key, has_id, find?-update_rows, find?-Has, same_key,
}
use genro_mail_proxy.Queue.Batch.{
  IsFresh, DiffersLater, AreFresh, IsFresh-update_rows, UniqueKeys-update_rows, UniqueKeys-upsert,
  IsFresh-upsert, processed-upsert, processed-insert_batch,
}
use genro_mail_proxy.Smtp.Sender.{DeliveryEvent, World, publish}
use genro_mail_proxy.Proxy.Enqueue.{
  get_key, validate_enqueue_payload, Screened, reject_row, reject_item, screen_checked, screen_item,
  screen_items, validated_entry, publish_all, enqueue_validated, add_items,
}

screen_checked_db :
    (P : Database → Type 0) (d : Json) (uuid : String) (now : ℕ) (o : Option String) (item : Json)
    (st : Screened)
    → P st.db
    → ((e : NewMessage) (reason : String)
        → P (reject_row now reason (insert_batch none (λ n. uuid) now (e ∷ []) st.db)))
    → P (screen_checked d uuid now (o, item) st).db
unfolding reject_item
screen_checked_db P d uuid now none item st kept rejected = kept
screen_checked_db P d uuid now (some reason) item st kept rejected =
    elim (Bool-cases (truth (get_key "id" item))) [
      | inl named ↦ rw named (rejected _ reason)
      | inr nameless ↦ rw nameless kept
    ]

-- One round changes the database by the row of a rejected item at most.
screen_item_db :
    (P : Database → Type 0) (d : Json) (uuid : String) (now : ℕ) (v : Json) (st : Screened)
    → P st.db
    → ((e : NewMessage) (reason : String)
        → P (reject_row now reason (insert_batch none (λ n. uuid) now (e ∷ []) st.db)))
    → P (screen_item d uuid now v st).db
unfolding screen_item
screen_item_db P d uuid now (obj fs) st kept rejected =
    let checked = validate_enqueue_payload st.db (obj fs) in
    screen_checked_db P d uuid now checked.0 checked.1 st kept rejected
screen_item_db P d uuid now null st kept rejected = kept
screen_item_db P d uuid now (bool b) st kept rejected = kept
screen_item_db P d uuid now (num n) st kept rejected = kept
screen_item_db P d uuid now (str s) st kept rejected = kept
screen_item_db P d uuid now (arr vs) st kept rejected = kept

module _ (msg t : String) (m : Message) (done : is_some m.smtp_ts ≡ true) (d : Json) (now : ℕ) where
  Keeps-screen_item :
      (uuid : String) (v : Json) (st : Screened)
      → Keeps msg t m st.db
      → IsFresh uuid st.db.messages
      → Keeps msg t m (screen_item d uuid now v st).db
  unfolding insert_batch insert_loop
  Keeps-screen_item uuid v st keeps fresh =
      screen_item_db (Keeps msg t m) d uuid now v st keeps (λ e reason.
        Keeps-reject_row msg t m done now reason e.id
          (upsert (pec_ids st.db) none uuid now e st.db).0
          (upsert (pec_ids st.db) none uuid now e st.db).1
          (upsert_key msg t m done (pec_ids st.db) uuid now e st.db keeps fresh)
          (
            UniqueKeys-upsert (pec_ids st.db) none uuid now e st.db keeps.0 fresh,
            processed-upsert (pec_ids st.db) none uuid now e st.db msg t m keeps.0 keeps.1 done,
          ))

IsFresh-screen_item :
    (k : String) (d : Json) (uuid : String) (now : ℕ) (v : Json) (st : Screened)
    → IsFresh k st.db.messages
    → (uuid ==ˢ k) ≡ false
    → IsFresh k (screen_item d uuid now v st).db.messages
unfolding insert_batch insert_loop
IsFresh-screen_item k d uuid now v st h apart =
    screen_item_db (λ db. IsFresh k db.messages) d uuid now v st h
      (λ e reason.
        IsFresh-reject_row k now reason e.id (upsert (pec_ids st.db) none uuid now e st.db).0
          (upsert (pec_ids st.db) none uuid now e st.db).1
          (IsFresh-upsert (pec_ids st.db) none uuid now e st.db k h apart))

AreFresh-screen_item :
    (uuids : ℕ → String) (vs : List Json) (d : Json) (uuid : String) (now : ℕ) (v : Json)
    (st : Screened)
    → DiffersLater uuids uuid vs
    → AreFresh uuids vs st.db.messages
    → AreFresh uuids vs (screen_item d uuid now v st).db.messages
AreFresh-screen_item uuids [] d uuid now v st l h = tt
AreFresh-screen_item uuids (x ∷ vs) d uuid now v st l h = (
  IsFresh-screen_item (uuids (length vs)) d uuid now v st h.0 l.0,
  h.1,
  AreFresh-screen_item uuids vs d uuid now v st l.1 h.2,
)

-- The loop over the items of a batch keeps the rows of processed messages: an item that is not valid
-- is written over pending rows or into new ones only, and its error event falls on no processed row. No
-- two rows get one key. No two had one before, and the new keys are fresh and different.
pub processed-screen_items :
    (d : Json) (uuids : ℕ → String) (now : ℕ) (items : List Json) (st : Screened) (msg t : String)
    (m : Message)
    → UniqueKeys st.db.messages
    → AreFresh uuids items st.db.messages
    → get msg t st.db ≡ some m
    → is_some m.smtp_ts ≡ true
    → UniqueKeys (screen_items d uuids now items st).db.messages
      × (get msg t (screen_items d uuids now items st).db ≡ some m)
unfolding screen_items
processed-screen_items d uuids now [] st msg t m u h found done = (u, found)
processed-screen_items d uuids now (v ∷ vs) st msg t m u h found done =
    let next = screen_item d (uuids (length vs)) now v st in
    let keeps = Keeps-screen_item msg t m done d now (uuids (length vs)) v st (u, found) h.0 in
    processed-screen_items d uuids now vs next msg t m keeps.0
      (AreFresh-screen_item uuids vs d (uuids (length vs)) now v st h.1 h.2) keeps.1 done

publish_all-db : (es : List DeliveryEvent) (w : World) → (publish_all es w).db ≡ w.db
unfolding publish
publish_all-db [] w = refl
publish_all-db (e ∷ es) w = publish_all-db es (publish e w)

-- The state of the loop before the first item, and after the last one.
abbrev pub start : Database → Screened
start db = record { validated = []; rejected = []; events = []; db = db }

abbrev pub screened : Json → (ℕ → String) → ℕ → List Json → Database → Screened
screened d uuids now items db = screen_items d uuids now items (start db)

-- A command that adds messages leaves the row of a processed message as it is, whatever its items are:
-- valid or not, new, repeated or with the id of the processed message. No two rows get one key. No two
-- had one before; the keys for the rows of items that are not valid are fresh and different, and so are
-- the keys for the valid items after these.
pub processed-add_items :
    (max : ℕ) (invalid valid : ℕ → String) (now : ℕ) (d : Json) (items : List Json) (w : World)
    (msg t : String) (m : Message)
    → UniqueKeys w.db.messages
    → AreFresh invalid items w.db.messages
    → AreFresh valid
        (map validated_entry (screened d invalid now items w.db).validated)
        (screened d invalid now items w.db).db.messages
    → get msg t w.db ≡ some m
    → is_some m.smtp_ts ≡ true
    → Keeps msg t m (add_items max invalid valid now d items w).1.db
unfolding add_items enqueue_validated
processed-add_items max invalid valid now d items w msg t m u fresh later found done =
    let st = screened d invalid now items w.db in
    let mid = processed-screen_items d invalid now items (start w.db) msg t m u fresh found done in
    let es = map validated_entry st.validated in
    let final = processed-insert_batch none valid now es st.db msg t m mid.0 later mid.1 done in
    elim (Bool-cases (ltb max (length items))) [
      | inl many ↦ rw many (u, found)
      | inr few ↦ rw few (
          subst (Keeps msg t m)
            (sym (
              publish_all-db st.events
                (record w { db = (insert_batch none valid now es st.db).1 })))
            final)
    ]
