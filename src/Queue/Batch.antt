-- ===== src/Queue/Batch.antt =====
-- A whole batch: what was processed stays, and keys stay unique.
use genro_mail_proxy.Prelude.{
  ℕ, String, ◌≡◌, refl, sym, ◌∙◌, true, false, ◌&&◌, inl, inr, Option, none, some, List, [], ◌∷◌,
  ◌++◌, arith, eq_iff, ◌==ˢ◌, if◌then◌else◌, All, Bool-cases, is_some, is_truthy, get_or, length,
}
use genro_mail_proxy.Queue.{Message, Database}
use genro_mail_proxy.Queue.Messages.{
  update_rows, update, get, NewMessage, entry_tenant, write_entry, write_row, upsert, insert_loop,
  insert_batch, pec_ids,
}
use genro_mail_proxy.Queue.Upsert.{UniqueKeys, get-upsert, get_same, upserted}

-- No row has this key.
abbrev pub IsFresh : String → List Message → Type 0
IsFresh k ms = All (λ n. (n.pk ==ˢ k) ≡ false) ms

module _ (k : String) (f : Message → Message) (keeps : (m : Message) → (f m).pk ≡ m.pk) where
  pub IsFresh-update_rows :
      (j : String) (ms : List Message) → IsFresh j ms → IsFresh j (update_rows k f ms)
  unfolding update_rows
  IsFresh-update_rows j [] h = tt
  IsFresh-update_rows j (m ∷ ms) h = (ground (arith, keeps m, h.0), IsFresh-update_rows j ms h.1)

  pub UniqueKeys-update_rows : (ms : List Message) → UniqueKeys ms → UniqueKeys (update_rows k f ms)
  unfolding update_rows
  UniqueKeys-update_rows [] u = tt
  UniqueKeys-update_rows (m ∷ ms) u = elim (Bool-cases (m.pk ==ˢ k)) [
    | inl same ↦ rw (same, keeps m) (IsFresh-update_rows m.pk ms u.0, UniqueKeys-update_rows ms u.1)
    | inr other ↦ rw other (IsFresh-update_rows m.pk ms u.0, UniqueKeys-update_rows ms u.1)
  ]

IsFresh-append :
    (k : String) (ms : List Message) (m : Message)
    → IsFresh k ms
    → (m.pk ==ˢ k) ≡ false
    → IsFresh k (ms ++ m ∷ [])
IsFresh-append k [] m h e = (e, tt)
IsFresh-append k (n ∷ ms) m h e = (h.0, IsFresh-append k ms m h.1 e)

UniqueKeys-append :
    (ms : List Message) (m : Message) → UniqueKeys ms → IsFresh m.pk ms → UniqueKeys (ms ++ m ∷ [])
UniqueKeys-append [] m u h = (tt, tt)
UniqueKeys-append (n ∷ ms) m u h = (
  IsFresh-append n.pk ms m u.0 (ground (arith, h.0, eq_iff n.pk m.pk, eq_iff m.pk n.pk)),
  UniqueKeys-append ms m u.1 h.1,
)

module _ (pec : List String) (tenant uuid : String) (now : ℕ) (e : NewMessage) (db : Database) where
  UniqueKeys-write_row :
      (o : Option Message)
      → UniqueKeys db.messages
      → IsFresh uuid db.messages
      → UniqueKeys (write_row pec tenant uuid now e o db).1.messages
  unfolding write_row update write_entry
  UniqueKeys-write_row none u h = UniqueKeys-append db.messages _ u h
  UniqueKeys-write_row (some old) u h = elim (Bool-cases (is_some old.smtp_ts)) [
    | inl done ↦ rw done u
    | inr pending ↦
        rw pending
          (UniqueKeys-update_rows old.pk (write_entry db pec tenant e) (λ m. refl) db.messages u)
  ]

  IsFresh-write_row :
      (k : String) (o : Option Message)
      → IsFresh k db.messages
      → (uuid ==ˢ k) ≡ false
      → IsFresh k (write_row pec tenant uuid now e o db).1.messages
  unfolding write_row update write_entry
  IsFresh-write_row k none h ne = IsFresh-append k db.messages _ h ne
  IsFresh-write_row k (some old) h ne = elim (Bool-cases (is_some old.smtp_ts)) [
    | inl done ↦ rw done h
    | inr pending ↦
        rw pending
          (IsFresh-update_rows old.pk (write_entry db pec tenant e) (λ m. refl) k db.messages h)
  ]

module _ (pec : List String) (default : Option String) (uuid : String) (now : ℕ) (e : NewMessage)
    (db : Database) where
  pub UniqueKeys-upsert :
      UniqueKeys db.messages
      → IsFresh uuid db.messages
      → UniqueKeys (upsert pec default uuid now e db).1.messages
  unfolding upsert
  UniqueKeys-upsert u h = elim (Bool-cases (is_truthy (entry_tenant default e))) [
    | inl given ↦ rw given (
        UniqueKeys-write_row pec (get_or (entry_tenant default e) "") uuid now e db
          (get e.id (get_or (entry_tenant default e) "") db) u h)
    | inr missing ↦ rw missing u
  ]

  pub IsFresh-upsert :
      (k : String)
      → IsFresh k db.messages
      → (uuid ==ˢ k) ≡ false
      → IsFresh k (upsert pec default uuid now e db).1.messages
  unfolding upsert
  IsFresh-upsert k h ne = elim (Bool-cases (is_truthy (entry_tenant default e))) [
    | inl given ↦ rw given (
        IsFresh-write_row pec (get_or (entry_tenant default e) "") uuid now e db k
          (get e.id (get_or (entry_tenant default e) "") db) h ne)
    | inr missing ↦ rw missing h
  ]

  kept_value :
      (msg t tenant : String) (m : Message)
      → get msg t db ≡ some m
      → is_some m.smtp_ts ≡ true
      → (if (t ==ˢ tenant) && (msg ==ˢ e.id)
          then some (upserted db pec tenant uuid now e (get e.id tenant db))
          else get msg t db)
        ≡ some m
  kept_value msg t tenant m found done = elim (Bool-cases ((t ==ˢ tenant) && (msg ==ˢ e.id))) [
    | inl same ↦ rw (same, sym (get_same msg t e.id tenant db same), found, done) refl
    | inr other ↦ rw other found
  ]

  -- A processed row stays as it is.
  pub processed-upsert :
      (msg t : String) (m : Message)
      → UniqueKeys db.messages
      → get msg t db ≡ some m
      → is_some m.smtp_ts ≡ true
      → get msg t (upsert pec default uuid now e db).1 ≡ some m
  processed-upsert msg t m u found done = elim (Bool-cases (is_truthy (entry_tenant default e))) [
    | inl given ↦
        get-upsert pec default uuid now e db msg t u given
        ∙ kept_value msg t (get_or (entry_tenant default e) "") m found done
    | inr missing ↦ unfold upsert in rw missing found
  ]

-- The other entries get another key than this one.
abbrev pub DiffersLater {ℓ} : {A : Type ℓ} → (ℕ → String) → String → List A → Type 0
DiffersLater uuids k [] = Unit
DiffersLater uuids k (e ∷ es) = (k ==ˢ uuids (length es)) ≡ false × DiffersLater uuids k es

-- Keys that the loop may give out: fresh for the table, and each different from the later ones.
abbrev pub AreFresh {ℓ} : {A : Type ℓ} → (ℕ → String) → List A → List Message → Type 0
AreFresh uuids [] ms = Unit
AreFresh uuids (e ∷ es) ms =
    IsFresh (uuids (length es)) ms
    × DiffersLater uuids (uuids (length es)) es
    × AreFresh uuids es ms

module _ (pec : List String) (default : Option String) (uuids : ℕ → String) (now : ℕ) where
  AreFresh-upsert :
      (k : String) (e : NewMessage) (es : List NewMessage) (db : Database)
      → DiffersLater uuids k es
      → AreFresh uuids es db.messages
      → AreFresh uuids es (upsert pec default k now e db).1.messages
  AreFresh-upsert k e [] db l h = tt
  AreFresh-upsert k e (f ∷ es) db l h = (
    IsFresh-upsert pec default k now e db (uuids (length es)) h.0 l.0,
    h.1,
    AreFresh-upsert k e es db l.1 h.2,
  )

  processed-insert_loop :
      (es : List NewMessage) (db : Database) (msg t : String) (m : Message)
      → UniqueKeys db.messages
      → AreFresh uuids es db.messages
      → get msg t db ≡ some m
      → is_some m.smtp_ts ≡ true
      → UniqueKeys (insert_loop pec default uuids now es db).1.messages
        × get msg t (insert_loop pec default uuids now es db).1 ≡ some m
  unfolding insert_loop
  processed-insert_loop [] db msg t m u h found done = (u, found)
  processed-insert_loop (e ∷ es) db msg t m u h found done =
      processed-insert_loop es (upsert pec default (uuids (length es)) now e db).1 msg t m
        (UniqueKeys-upsert pec default (uuids (length es)) now e db u h.0)
        (AreFresh-upsert (uuids (length es)) e es db h.1 h.2)
        (processed-upsert pec default (uuids (length es)) now e db msg t m u found done) done

-- `insert_batch` leaves a processed row as it is, whatever the batch holds and in whatever order, and
-- no two rows get one key, when none had before and the new keys are fresh and different.
pub processed-insert_batch :
    (default : Option String) (uuids : ℕ → String) (now : ℕ) (es : List NewMessage) (db : Database)
    (msg t : String) (m : Message)
    → UniqueKeys db.messages
    → AreFresh uuids es db.messages
    → get msg t db ≡ some m
    → is_some m.smtp_ts ≡ true
    → UniqueKeys (insert_batch default uuids now es db).1.messages
      × get msg t (insert_batch default uuids now es db).1 ≡ some m
unfolding insert_batch
processed-insert_batch default uuids now es db =
    processed-insert_loop (pec_ids db) default uuids now es db
