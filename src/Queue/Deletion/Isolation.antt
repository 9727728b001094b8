-- ===== src/Queue/Deletion/Isolation.antt =====
-- A deletion touches the tenant's messages only, and accounts for every id.
use genro_mail_proxy.Prelude.{
  ℕ, suc, ◌+◌, String, ◌≡◌, ◌≢◌, refl, sym, ap, Bool, true, false, ◌&&◌, not, Option, none, some,
  List, [], ◌∷◌, ◌==ˢ◌, filter, any, All, length, find?_sound, length-append, arith, inl, inr,
  Bool-cases,
}
use genro_mail_proxy.Queue.{Message, Database}
use genro_mail_proxy.Queue.Messages.{get, remove_by_pk}
use genro_mail_proxy.Queue.Fetch.Order.{Has, Has-filter}
use genro_mail_proxy.Queue.Upsert.{UniqueKeys, find?-Has, same_key}
use genro_mail_proxy.Queue.Deletion.{
  Answer, refuse, count_removed, remove_found, delete_one, delete_loop, delete_batch,
  get_ids_for_tenant, existing_ids,
}

All-filter :
    (P : Message → Type 0) (p : Message → Bool) (ms : List Message) → All P ms → All P (filter p ms)
All-filter P p [] h = tt
All-filter P p (m ∷ ms) h = elim (Bool-cases (p m)) [
  | inl kept ↦ rw (kept, filter) (h.0, All-filter P p ms h.1)
  | inr gone ↦ rw (gone, filter) (All-filter P p ms h.1)
]

pub UniqueKeys-filter :
    (p : Message → Bool) (ms : List Message) → UniqueKeys ms → UniqueKeys (filter p ms)
UniqueKeys-filter p [] u = tt
UniqueKeys-filter p (m ∷ ms) u = elim (Bool-cases (p m)) [
  | inl kept ↦
      rw (kept, filter)
        (All-filter (λ n. (n.pk ==ˢ m.pk) ≡ false) p ms u.0, UniqueKeys-filter p ms u.1)
  | inr gone ↦ rw (gone, filter) (UniqueKeys-filter p ms u.1)
]

-- A row stays, in a table with unique keys.
abbrev Stays : Message → Database → Type 0
Stays m db = UniqueKeys db.messages × Has m db.messages

remove_by_pk-Stays :
    (m r : Message) (db : Database)
    → Stays m db
    → Has r db.messages
    → r ≢ m
    → Stays m (remove_by_pk r.pk db).1
unfolding remove_by_pk
remove_by_pk-Stays m r db h there other = (
  UniqueKeys-filter (λ n. not (n.pk ==ˢ r.pk)) db.messages h.0,
  Has-filter (λ n. not (n.pk ==ˢ r.pk)) m db.messages
      (elim (Bool-cases (m.pk ==ˢ r.pk)) [
        | inl same ↦ absurd (other (sym (same_key m r db.messages h.0 h.1 there same)))
        | inr differs ↦ rw differs refl
      ])
      h.1,
)

remove_found-Stays :
    (m : Message) (tenant id : String) (o : Option Message) (a : Answer) (db : Database)
    → Stays m db
    → (m.tenant_id ==ˢ tenant) ≡ false
    → get id tenant db ≡ o
    → Stays m (remove_found id o (a, db)).1
unfolding remove_found get
remove_found-Stays m tenant id none a db h foreign found = h
remove_found-Stays m tenant id (some r) a db h foreign found =
    let is_own = find?_sound (λ n. (n.tenant_id ==ˢ tenant) && (n.id ==ˢ id)) db.messages r found in
    remove_by_pk-Stays m r db h
      (find?-Has (λ n. (n.tenant_id ==ˢ tenant) && (n.id ==ˢ id)) db.messages r found)
      (λ same.
        ground (
          arith,
          is_own,
          foreign,
          ap (λ n. n.tenant_id) same,
          ap (λ n. n.tenant_id ==ˢ tenant) same,
        ))

delete_one-Stays :
    (m : Message) (ids : List String) (tenant id : String) (r : Answer × Database)
    → Stays m r.1
    → (m.tenant_id ==ˢ tenant) ≡ false
    → Stays m (delete_one ids tenant id r).1
unfolding delete_one
delete_one-Stays m ids tenant id (a, db) h foreign = elim (Bool-cases (any (λ i. i ==ˢ id) ids)) [
  | inl own ↦
      rw (own, delete_one) (remove_found-Stays m tenant id (get id tenant db) a db h foreign refl)
  | inr other ↦ rw (other, delete_one) h
]

delete_loop-Stays :
    (m : Message) (tenant_ids : List String) (tenant : String) (ids : List String)
    (r : Answer × Database)
    → Stays m r.1
    → (m.tenant_id ==ˢ tenant) ≡ false
    → Stays m (delete_loop tenant_ids tenant ids r).1
unfolding delete_loop
delete_loop-Stays m tenant_ids tenant [] r h foreign = h
delete_loop-Stays m tenant_ids tenant (id ∷ ids) r h foreign =
    delete_loop-Stays m tenant_ids tenant ids (delete_one tenant_ids tenant id r)
      (delete_one-Stays m tenant_ids tenant id r h foreign) foreign

-- The ids that were accounted for.
abbrev pub total : Answer → ℕ
total a = a.removed + (length a.not_found + length a.unauthorized)

total-refuse : (b : Bool) (id : String) (a : Answer) → total (refuse b id a) ≡ suc (total a)
total-refuse true id a = omega (arith, length-append a.unauthorized (id ∷ []))
total-refuse false id a = omega (arith, length-append a.not_found (id ∷ []))

total-count_removed :
    (b : Bool) (id : String) (a : Answer) → total (count_removed b id a) ≡ suc (total a)
total-count_removed true id a = omega arith
total-count_removed false id a = total-refuse false id a

total-remove_found :
    (id : String) (o : Option Message) (a : Answer) (db : Database)
    → total (remove_found id o (a, db)).0 ≡ suc (total a)
unfolding remove_found
total-remove_found id none a db = total-refuse false id a
total-remove_found id (some m) a db = total-count_removed (remove_by_pk m.pk db).0 id a

total-delete_one :
    (ids : List String) (tenant id : String) (r : Answer × Database)
    → total (delete_one ids tenant id r).0 ≡ suc (total r.0)
unfolding delete_one
total-delete_one ids tenant id (a, db) = elim (Bool-cases (any (λ i. i ==ˢ id) ids)) [
  | inl own ↦ rw (own, delete_one) (total-remove_found id (get id tenant db) a db)
  | inr other ↦
      rw (other, delete_one) (total-refuse (any (λ i. i ==ˢ id) (existing_ids (id ∷ []) db)) id a)
]

total-delete_loop :
    (tenant_ids : List String) (tenant : String) (ids : List String) (r : Answer × Database)
    → total (delete_loop tenant_ids tenant ids r).0 ≡ length ids + total r.0
unfolding delete_loop
total-delete_loop tenant_ids tenant [] r = omega arith
total-delete_loop tenant_ids tenant (id ∷ ids) r = omega (
  arith,
  total-delete_loop tenant_ids tenant ids (delete_one tenant_ids tenant id r),
  total-delete_one tenant_ids tenant id r,
)

-- The deletion of a batch leaves every message of another tenant in a table with unique keys, whatever
-- ids are asked for. The number of removed ids and the lengths of the two lists of refused ones add up
-- to the number of ids.
pub delete_batch_lem :
    (tenant : String) (ids : List String) (db : Database) (m : Message)
    → UniqueKeys db.messages
    → Has m db.messages
    → (m.tenant_id ==ˢ tenant) ≡ false
    → Has m (delete_batch tenant ids db).1.messages
      × (total (delete_batch tenant ids db).0 ≡ length ids)
unfolding delete_batch
delete_batch_lem tenant ids db m unique there foreign =
    let start : Answer = record { removed = 0; not_found = []; unauthorized = [] } in
    (
      (delete_loop-Stays m (get_ids_for_tenant ids tenant db) tenant ids (start, db) (unique, there)
          foreign).1,
      omega (arith, total-delete_loop (get_ids_for_tenant ids tenant db) tenant ids (start, db)),
    )
