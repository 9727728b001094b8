-- ===== src/Proxy/Enqueue/Resubmission.antt =====
-- An item that is not valid, under the id of a pending message.
use genro_mail_proxy.Prelude.{
  ℕ, String, ◌≡◌, refl, ap, ◌∙◌, true, false, Option, none, some, List, [], ◌∷◌, arith, eq_refl,
  ◌==◌, get_or, is_some, is_truthy, is_empty, find?,
}
use genro_mail_proxy.Prelude.Json.{Json, obj, Fields, truth}
use genro_mail_proxy.Prelude.Text.{Text, codes}
use genro_mail_proxy.Queue.{Message, Database}
use genro_mail_proxy.Queue.Messages.{
  update, update_rows, mark_error, get, NewMessage, entry_tenant, write_entry, write_row, upsert,
  insert_loop, insert_batch, pec_ids,
}
use genro_mail_proxy.Queue.Events.{add_event, trigger_on_inserted}
use genro_mail_proxy.Queue.Rows.{map_row}
use genro_mail_proxy.Queue.Upsert.{at_key, has_id, find?-update_rows}
use genro_mail_proxy.Proxy.Priority.{normalise_priority}
use genro_mail_proxy.Proxy.Enqueue.{
  get_key, text_key, validate_enqueue_payload, Screened, entry_of, reject_row, reject_item,
  screen_checked, screen_item,
}
use genro_mail_proxy.Proxy.Enqueue.Processed.{processed_at}

tenant_given :
    (t : String) (e : NewMessage)
    → e.tenant_id ≡ some t
    → is_empty t ≡ false
    → (entry_tenant none e ≡ some t) × (is_truthy (entry_tenant none e) ≡ true)
unfolding entry_tenant
tenant_given t e tenant named = (ground (arith, tenant, named), ground (arith, tenant, named))

upsert_named :
    (pec : List String) (uuid t : String) (now : ℕ) (e : NewMessage) (db : Database)
    → e.tenant_id ≡ some t
    → is_empty t ≡ false
    → upsert pec none uuid now e db ≡ write_row pec t uuid now e (get e.id t db) db
unfolding upsert
upsert_named pec uuid t now e db tenant named =
    let given = tenant_given t e tenant named in rw (given.1, given.0) refl

module _ (uuid t : String) (now : ℕ) (e : NewMessage) (db : Database) (old : Message)
    (tenant : e.tenant_id ≡ some t) (named : is_empty t ≡ false) (found : get e.id t db ≡ some old)
    (pending : is_some old.smtp_ts ≡ false) where
  upsert_pending :
      (pec : List String)
      → upsert pec none uuid now e db ≡ (some old.pk, update old.pk (write_entry db pec t e) db)
  upsert_pending pec =
      upsert_named pec uuid t now e db tenant named
      ∙ ap (λ o. write_row pec t uuid now e o db) found
      ∙ (unfold write_row in rw pending refl)

  insert_pending :
      insert_batch none (λ n. uuid) now (e ∷ []) db
      ≡ ((e.id, old.pk) ∷ [], update old.pk (write_entry db (pec_ids db) t e) db)
  unfolding insert_batch insert_loop
  insert_pending =
      ap
        (λ (u : Option String × Database).
          (elim u.0 [ none ↦ [] | some pk ↦ (e.id, pk) ∷ [] ], u.1))
        (upsert_pending (pec_ids db))

-- Two updates of a row that is found by its id, which they keep.
updated_twice :
    (msg t : String) (old : Message) (f g : Message → Message) (ms : List Message)
    → ((m : Message) → has_id msg t (f m) ≡ has_id msg t m)
    → ((m : Message) → has_id msg t (g m) ≡ has_id msg t m)
    → ((f old).pk ≡ old.pk)
    → find? (has_id msg t) ms ≡ some old
    → find? (has_id msg t) (update_rows old.pk g (update_rows old.pk f ms)) ≡ some (g (f old))
updated_twice msg t old f g ms keeps_f keeps_g key found =
    find?-update_rows (has_id msg t) old.pk g (update_rows old.pk f ms) keeps_g
    ∙ ap (map_row (at_key old.pk g)) (
        find?-update_rows (has_id msg t) old.pk f ms keeps_f ∙ ap (map_row (at_key old.pk f)) found)
    ∙ rw (eq_refl old.pk, key, eq_refl old.pk) refl

reject_item_db :
    (p : ℕ) (uuid : String) (now : ℕ) (item : Json) (reason : String) (st : Screened)
    → truth (get_key "id" item) ≡ true
    → (reject_item p uuid now item reason st).db
      ≡ reject_row now reason (insert_batch none (λ n. uuid) now (entry_of p none item ∷ []) st.db)
unfolding reject_item
reject_item_db p uuid now item reason st named = rw named refl

get-add_event :
    (msg t pk : String) (ts : ℕ) (d : Option Text) (db : Database)
    → is_empty pk ≡ false
    → (ts == 0) ≡ false
    → get msg t (add_event pk "error" ts d none db)
      ≡ find? (has_id msg t) (update_rows pk (processed_at ts) db.messages)
unfolding add_event trigger_on_inserted mark_error update get
get-add_event msg t pk ts d db keyed timed = rw (keyed, timed) refl

get-reject_row :
    (msg t id : String) (now : ℕ) (reason : String) (old : Message) (f : Message → Message)
    (db : Database)
    → ((m : Message) → has_id msg t (f m) ≡ has_id msg t m)
    → ((f old).pk ≡ old.pk)
    → get msg t db ≡ some old
    → is_empty old.pk ≡ false
    → (now == 0) ≡ false
    → get msg t (reject_row now reason ((id, old.pk) ∷ [], update old.pk f db))
      ≡ some (processed_at now (f old))
unfolding get update
get-reject_row msg t id now reason old f db keeps key found keyed timed =
    get-add_event msg t old.pk now (some (codes reason)) (update old.pk f db) keyed timed
    ∙ updated_twice msg t old f (processed_at now) db.messages keeps (λ m. refl) key found

-- An item that is not valid ends the pending message that has its id and tenant: the row keeps its key,
-- takes the item as its payload, and is processed at the time of the command. The row has a key, and
-- the time is above zero.
pub invalid_item_ends_message :
    (d : Json) (uuid msg t : String) (now : ℕ) (fs : Fields) (st : Screened) (reason : String)
    (item : Json) (old : Message)
    → validate_enqueue_payload st.db (obj fs) ≡ (some reason, item)
    → truth (get_key "id" item) ≡ true
    → text_key "id" item ≡ some msg
    → text_key "tenant_id" item ≡ some t
    → is_empty t ≡ false
    → get msg t st.db ≡ some old
    → is_some old.smtp_ts ≡ false
    → is_empty old.pk ≡ false
    → (now == 0) ≡ false
    → (n : Message) × (get msg t (screen_item d uuid now (obj fs) st).db ≡ some n)
      × (n.pk ≡ old.pk)
      × (n.smtp_ts ≡ some now)
      × (n.payload ≡ item)
unfolding screen_item entry_of write_entry
invalid_item_ends_message d uuid msg t now fs st reason item old invalid named id tenant t_named
      found pending keyed timed =
    let p = (normalise_priority (get_key "priority" item) d).0 in
    let e = entry_of p none item in
    let f = write_entry st.db (pec_ids st.db) t e in
    let here = ap (λ i. get (get_or i "") t st.db) id ∙ found in
    (
      processed_at now (f old),
      ap (λ c. get msg t (screen_checked d uuid now c st).db) invalid
          ∙ ap (get msg t) (reject_item_db p uuid now item reason st named)
          ∙ ap (λ r. get msg t (reject_row now reason r))
              (insert_pending uuid t now e st.db old tenant t_named here pending)
          ∙ get-reject_row msg t e.id now reason old f st.db (λ m. refl) refl found keyed timed,
      refl,
      refl,
      refl,
    )
