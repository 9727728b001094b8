-- ===== src/Proxy/Enqueue/Processed/Rejected.antt =====
-- What the row of a rejected item leaves of the processed ones.

use genro_mail_proxy.Prelude.{
  ℕ, String, ◌≡◌, refl, sym, ap, ◌∙◌, true, false, Option, none, some, List, [], ◌∷◌, inl, inr,
  arith, ◌==ˢ◌, ◌==◌, ◌||◌, Bool-cases, get_or, is_some, is_truthy, is_empty, find?,
}
use genro_mail_proxy.Prelude.Text.{Text, codes}
use genro_mail_proxy.Queue.{Message, Database}
use genro_mail_proxy.Queue.Messages.{
  update, update_rows, mark_error, get, NewMessage, entry_tenant, write_row, upsert,
}
use genro_mail_proxy.Queue.Events.{add_event, trigger_on_inserted}
use genro_mail_proxy.Queue.Rows.{map_row}
use genro_mail_proxy.Queue.Fetch.Order.{Has}
use genro_mail_proxy.Queue.Upsert.{
  UniqueKeys, at_key, has_id, find?-update_rows, find?-Has, same_key,
}
use genro_mail_proxy.Queue.Batch.{IsFresh, IsFresh-update_rows, UniqueKeys-update_rows}
use genro_mail_proxy.Proxy.Enqueue.{reject_row}

-- The row of a message that was processed.
abbrev pub IsProcessed : String → String → Message → Database → Type 0
IsProcessed msg t m db = (get msg t db ≡ some m) × (is_some m.smtp_ts ≡ true)

abbrev pub processed_at : ℕ → Message → Message
processed_at ts m = record m { smtp_ts = some ts; deferred_ts = none }

module _ (pk : String) (ts : ℕ) (d : Option Text) (db : Database) where
  -- The rows after an error event: one may be marked as processed.
  pub error_rows :
      (P : List Message → Type 0)
      → P db.messages
      → P (update_rows pk (processed_at ts) db.messages)
      → P (add_event pk "error" ts d none db).messages
  unfolding add_event trigger_on_inserted mark_error update
  error_rows P kept changed = elim (Bool-cases (is_empty pk || ts == 0)) [
    | inl skipped ↦ rw skipped kept
    | inr written ↦ rw written changed
  ]

pub fresh_key :
    (k : String) (m : Message) (ms : List Message) → IsFresh k ms → Has m ms → (m.pk ==ˢ k) ≡ false
fresh_key k m [] h there = elim there [ ]
fresh_key k m (n ∷ ms) h (inl same) = rw same h.0
fresh_key k m (n ∷ ms) h (inr there) = fresh_key k m ms h.1 there

-- What is shown to last: the keys are unique, and the processed row is there.
abbrev pub Keeps : String → String → Message → Database → Type 0
Keeps msg t m db = UniqueKeys db.messages × (get msg t db ≡ some m)

module _ (msg t : String) (m : Message) (done : is_some m.smtp_ts ≡ true) (pec : List String)
    (uuid : String) (now : ℕ) (e : NewMessage) (db : Database) (keeps : Keeps msg t m db)
    (fresh : IsFresh uuid db.messages) where
  pub there : Has m db.messages
  there = unfold get in find?-Has (has_id msg t) db.messages m keeps.1

  -- The key that an upsert writes is not the processed row's.
  pub write_row_key :
      (tenant pk : String) (o : Option Message)
      → get e.id tenant db ≡ o
      → (write_row pec tenant uuid now e o db).0 ≡ some pk
      → (m.pk ==ˢ pk) ≡ false
  unfolding write_row
  write_row_key tenant pk none found key =
      ground (arith, key, fresh_key uuid m db.messages fresh there)
  write_row_key tenant pk (some old) found key = elim (Bool-cases (m.pk ==ˢ old.pk)) [
    | inr apart ↦ ground (arith, key, apart)
    | inl one ↦
        let here : Has old db.messages =
          unfold get in find?-Has (has_id e.id tenant) db.messages old found in
        let same = same_key m old db.messages keeps.0 there here one in
        ground (arith, key, done, ap (λ (x : Message). x.smtp_ts) same)
  ]

  pub upsert_given :
      is_truthy (entry_tenant none e) ≡ true
      → upsert pec none uuid now e db
        ≡ write_row pec
            (get_or (entry_tenant none e) "")
            uuid
            now
            e
            (get e.id (get_or (entry_tenant none e) "") db)
            db
  unfolding upsert
  upsert_given given = rw given refl

  pub upsert_missing :
      is_truthy (entry_tenant none e) ≡ false → (upsert pec none uuid now e db).0 ≡ none
  unfolding upsert
  upsert_missing missing = rw missing refl

  pub upsert_key :
      (pk : String) → (upsert pec none uuid now e db).0 ≡ some pk → (m.pk ==ˢ pk) ≡ false
  upsert_key pk key = elim (Bool-cases (is_truthy (entry_tenant none e))) [
    | inl given ↦
        write_row_key (get_or (entry_tenant none e) "") pk
          (get e.id (get_or (entry_tenant none e) "") db) refl
          (ap (λ x. x.0) (sym (upsert_given given)) ∙ key)
    | inr missing ↦ cc (upsert_missing missing, key)
  ]

module _ (msg t : String) (m : Message) (done : is_some m.smtp_ts ≡ true) (now : ℕ) where
  pub Keeps-add_event :
      (pk : String) (d : Option Text) (db : Database)
      → (m.pk ==ˢ pk) ≡ false
      → Keeps msg t m db
      → Keeps msg t m (add_event pk "error" now d none db)
  unfolding get
  Keeps-add_event pk d db apart keeps =
      error_rows pk now d db (λ ms. UniqueKeys ms × (find? (has_id msg t) ms ≡ some m)) keeps
        (
          UniqueKeys-update_rows pk (processed_at now) (λ n. refl) db.messages keeps.0,
          find?-update_rows (has_id msg t) pk (processed_at now) db.messages (λ n. refl)
              ∙ ap (map_row (at_key pk (processed_at now))) keeps.1
              ∙ rw apart refl,
        )

  pub Keeps-reject_row :
      (reason id : String) (written : Option String) (db : Database)
      → ((pk : String) → written ≡ some pk → (m.pk ==ˢ pk) ≡ false)
      → Keeps msg t m db
      → Keeps msg t m
          (reject_row now reason (elim written [ none ↦ [] | some pk ↦ (id, pk) ∷ [] ], db))
  Keeps-reject_row reason id none db apart keeps = keeps
  Keeps-reject_row reason id (some pk) db apart keeps =
      Keeps-add_event pk (some (codes reason)) db (apart pk refl) keeps

pub IsFresh-reject_row :
    (k : String) (now : ℕ) (reason id : String) (written : Option String) (db : Database)
    → IsFresh k db.messages
    → IsFresh k
        (reject_row now reason (elim written [ none ↦ [] | some pk ↦ (id, pk) ∷ [] ], db)).messages
IsFresh-reject_row k now reason id none db h = h
IsFresh-reject_row k now reason id (some pk) db h =
    error_rows pk now (some (codes reason)) db (IsFresh k) h
      (IsFresh-update_rows pk (processed_at now) (λ n. refl) k db.messages h)
