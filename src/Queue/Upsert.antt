-- ===== src/Queue/Upsert.antt =====
-- What the upsert of `insert_batch` leaves under every message id.
mod Keys
pub use Keys.*
use mathlib.Core.Path.{subst}
use genro_mail_proxy.Prelude.{
  ℕ, String, ◌≡◌, refl, sym, ap, ◌∙◌, Bool, true, false, ◌&&◌, inl, inr, Option, none, some, List,
  [], ◌∷◌, ◌++◌, arith, eq_iff, eq_refl, ◌==ˢ◌, if◌then◌else◌, find?, find?_sound, All, Bool-cases,
  Option-cases, is_some, is_truthy, get_or,
}
use genro_mail_proxy.Queue.{Message, Database}
use genro_mail_proxy.Queue.Messages.{
  update_rows, update, get, NewMessage, entry_tenant, write_entry, blank, write_row, upsert,
}
use genro_mail_proxy.Queue.Rows.{map_row}
use genro_mail_proxy.Queue.Fetch.Order.{Has}

-- The test of `get`.
abbrev pub has_id : String → String → Message → Bool
has_id msg tenant m = (m.tenant_id ==ˢ tenant) && (m.id ==ˢ msg)

-- What the upsert of an entry leaves under its id.
abbrev pub upserted :
    Database → List String → String → String → ℕ → NewMessage → Option Message → Message
upserted db pec tenant uuid now e (some old) =
    if is_some old.smtp_ts then old else write_entry db pec tenant e old
upserted db pec tenant uuid now e none = write_entry db pec tenant e (blank uuid e.id tenant now)

pub get_same :
    (msg t id tenant : String) (db : Database)
    → ((t ==ˢ tenant) && (msg ==ˢ id)) ≡ true
    → get msg t db ≡ get id tenant db
get_same msg t id tenant db same = ground (arith, eq_iff t tenant, eq_iff msg id)

module _ (pec : List String) (tenant uuid : String) (now : ℕ) (e : NewMessage) (db : Database)
    (unique : UniqueKeys db.messages) where
  other_row :
      (old m : Message) (msg t : String)
      → get e.id tenant db ≡ some old
      → get msg t db ≡ some m
      → ((t ==ˢ tenant) && (msg ==ˢ e.id)) ≡ false
      → (m.pk ==ˢ old.pk) ≡ false
  unfolding get
  other_row old m msg t here there other = elim (Bool-cases (m.pk ==ˢ old.pk)) [
    | inr apart ↦ apart
    | inl same ↦
        let p = find?_sound (has_id e.id tenant) db.messages old here in
        let q = find?_sound (has_id msg t) db.messages m there in
        let eq =
          same_key m old db.messages unique (find?-Has (has_id msg t) db.messages m there)
            (find?-Has (has_id e.id tenant) db.messages old here) same in
        ground (
          arith,
          p,
          q,
          ap (λ (x : Message). x.id) eq,
          ap (λ (x : Message). x.tenant_id) eq,
          eq_iff old.id e.id,
          eq_iff old.tenant_id tenant,
          eq_iff m.id msg,
          eq_iff m.tenant_id t,
          eq_iff t tenant,
          eq_iff msg e.id,
        )
  ]

  get-update :
      (k msg t : String)
      → get msg t (update k (write_entry db pec tenant e) db)
        ≡ map_row (at_key k (write_entry db pec tenant e)) (get msg t db)
  unfolding get update write_entry
  get-update k msg t =
      find?-update_rows (has_id msg t) k (write_entry db pec tenant e) db.messages (λ m. refl)

  written :
      (old : Message) (msg t : String)
      → get e.id tenant db ≡ some old
      → map_row (at_key old.pk (write_entry db pec tenant e)) (get msg t db) ≡ (
          if (t ==ˢ tenant) && (msg ==ˢ e.id)
          then some (write_entry db pec tenant e old)
          else get msg t db)
  written old msg t here = elim (Bool-cases ((t ==ˢ tenant) && (msg ==ˢ e.id))) [
    | inl same ↦ rw (same, get_same msg t e.id tenant db same, here, eq_refl old.pk)
    | inr other ↦ elim (Option-cases (get msg t db)) [
      | inl missing ↦ rw (other, missing)
      | inr found ↦ rw (other, found.1, other_row old found.0 msg t here found.1 other)
    ]
  ]

  get-write_row-some :
      (old : Message) (msg t : String)
      → get e.id tenant db ≡ some old
      → get msg t (write_row pec tenant uuid now e (some old) db).1 ≡ (
          if (t ==ˢ tenant) && (msg ==ˢ e.id)
          then some (upserted db pec tenant uuid now e (some old))
          else get msg t db)
  unfolding write_row
  get-write_row-some old msg t here = elim (Bool-cases (is_some old.smtp_ts)) [
    | inl done ↦ rw done (ground (arith, get_same msg t e.id tenant db, here))
    | inr pending ↦ rw pending (get-update old.pk msg t ∙ written old msg t here)
  ]

  kept :
      (m : Message) (msg t : String)
      → get e.id tenant db ≡ none
      → get msg t db ≡ some m
      → some m ≡ (
          if (t ==ˢ tenant) && (msg ==ˢ e.id)
          then some (upserted db pec tenant uuid now e none)
          else some m)
  kept m msg t absent found = elim (Bool-cases ((t ==ˢ tenant) && (msg ==ˢ e.id))) [
    | inl same ↦ cc (get_same msg t e.id tenant db same)
    | inr other ↦ rw other
  ]

  get-write_row-none :
      (msg t : String)
      → get e.id tenant db ≡ none
      → get msg t (write_row pec tenant uuid now e none db).1 ≡ (
          if (t ==ˢ tenant) && (msg ==ˢ e.id)
          then some (upserted db pec tenant uuid now e none)
          else get msg t db)
  unfolding write_row get write_entry
  get-write_row-none msg t absent =
      find?-append (has_id msg t) db.messages
        (write_entry db pec tenant e (blank uuid e.id tenant now))
      ∙ elim (Option-cases (find? (has_id msg t) db.messages)) [
        | inl missing ↦
            ground
              (arith, missing, eq_iff tenant t, eq_iff t tenant, eq_iff e.id msg, eq_iff msg e.id)
        | inr found ↦ rw found.1 (kept found.0 msg t absent found.1)
      ]

  get-write_row :
      (msg t : String)
      → get msg t (write_row pec tenant uuid now e (get e.id tenant db) db).1 ≡ (
          if (t ==ˢ tenant) && (msg ==ˢ e.id)
          then some (upserted db pec tenant uuid now e (get e.id tenant db))
          else get msg t db)
  get-write_row msg t = elim (Option-cases (get e.id tenant db)) [
    | inl absent ↦
        subst
          (λ o. get msg t (write_row pec tenant uuid now e o db).1 ≡ (
            if (t ==ˢ tenant) && (msg ==ˢ e.id)
            then some (upserted db pec tenant uuid now e o)
            else get msg t db))
          (sym absent) (get-write_row-none msg t absent)
    | inr here ↦
        subst
          (λ o. get msg t (write_row pec tenant uuid now e o db).1 ≡ (
            if (t ==ˢ tenant) && (msg ==ˢ e.id)
            then some (upserted db pec tenant uuid now e o)
            else get msg t db))
          (sym here.1) (get-write_row-some here.0 msg t here.1)
  ]

-- After the upsert of an entry with a tenant, its id holds: the row as it was, if that was processed; the
-- pending row with the entry's fields written over; or a new pending row. Every other pair of id and
-- tenant holds what it held. No two rows had one key.
pub get-upsert :
    (pec : List String) (default : Option String) (uuid : String) (now : ℕ) (e : NewMessage)
    (db : Database) (msg t : String)
    → UniqueKeys db.messages
    → is_truthy (entry_tenant default e) ≡ true
    → get msg t (upsert pec default uuid now e db).1 ≡ (
        if (t ==ˢ get_or (entry_tenant default e) "") && (msg ==ˢ e.id)
        then some (
            upserted db pec
              (get_or (entry_tenant default e) "")
              uuid
              now
              e
              (get e.id (get_or (entry_tenant default e) "") db))
        else get msg t db)
unfolding upsert
get-upsert pec default uuid now e db msg t unique given =
    rw given (get-write_row pec (get_or (entry_tenant default e) "") uuid now e db unique msg t)
