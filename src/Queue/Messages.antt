-- ===== src/Queue/Messages.antt =====
-- src/core/mail_proxy/entities/message/table.py: the updates of one row, and the upsert of a batch.
use genro_mail_proxy.Prelude.{
  ℕ, String, Bool, false, ◌&&◌, Option, none, some, List, [], ◌∷◌, ◌++◌, ◌==ˢ◌, if◌then◌else◌,
  find?, any, is_some, is_truthy, get_or, map, length, filter, not, count,
}
use genro_mail_proxy.Prelude.Json.{Json}
use genro_mail_proxy.Queue.{Message, Database, get_account}

-- `async with self.record(pk) as rec`: the columns of the row with this key are written, if it exists.
unfoldable pub update_rows : String → (Message → Message) → List Message → List Message
update_rows pk f [] = []
update_rows pk f (m ∷ ms) = (if m.pk ==ˢ pk then f m else m) ∷ update_rows pk f ms

unfoldable pub update : String → (Message → Message) → Database → Database
unfolding update_rows
update pk f db = record db { messages = update_rows pk f db.messages }

unfoldable pub set_deferred : String → Option ℕ → Database → Database
set_deferred pk ts = update pk (λ m. record m { deferred_ts = ts; smtp_ts = none })

unfoldable pub clear_deferred : String → Database → Database
clear_deferred pk = update pk (λ m. record m { deferred_ts = none })

unfoldable pub mark_sent : String → ℕ → Database → Database
mark_sent pk ts = update pk (λ m. record m { smtp_ts = some ts; deferred_ts = none })

unfoldable pub mark_error : String → ℕ → Database → Database
mark_error pk ts = update pk (λ m. record m { smtp_ts = some ts; deferred_ts = none })

unfoldable pub update_payload : String → Json → Database → Database
update_payload pk payload = update pk (λ m. record m { payload = payload })

unfoldable pub get : String → String → Database → Option Message
get msg tenant db = find? (λ m. (m.tenant_id ==ˢ tenant) && (m.id ==ˢ msg)) db.messages

unfoldable pub get_by_pk : String → Database → Option Message
get_by_pk pk db = find? (λ m. m.pk ==ˢ pk) db.messages

-- Whether a row was deleted, and the rows that are left.
unfoldable pub remove_by_pk : String → Database → Bool × Database
remove_by_pk pk db = (
  any (λ m. m.pk ==ˢ pk) db.messages,
  record db { messages = filter (λ m. not (m.pk ==ˢ pk)) db.messages },
)

unfoldable pub purge_for_account : String → Database → Database
purge_for_account a db = record db {
  messages = filter (λ m. not (get_or m.account_id "" ==ˢ a && is_some m.account_id)) db.messages;
}

-- `SELECT COUNT(*) FROM messages WHERE smtp_ts IS NULL`
unfoldable pub count_active : Database → ℕ
count_active db = count (λ m. not (is_some m.smtp_ts)) db.messages

-- One message of a batch, as the caller passes it.
pub record NewMessage : Type 0 where
  pub id : String
  pub tenant_id : Option String
  pub account_id : Option String
  pub account_pk : Option String
  pub priority : Option ℕ
  pub payload : Json
  pub deferred_ts : Option ℕ
  pub batch_code : Option String

-- `entry.get("tenant_id") or tenant_id`
unfoldable pub entry_tenant : Option String → NewMessage → Option String
entry_tenant default e = if is_truthy e.tenant_id then e.tenant_id else default

-- The account's key: the entry's own, or else that of the account with this id, if there is one.
unfoldable pub resolve_account_pk : Database → String → NewMessage → Option String
resolve_account_pk db tenant e =
    if is_truthy e.account_id && not (is_truthy e.account_pk)
    then elim (get_account db tenant (get_or e.account_id "")) [
      | some a ↦ some a.pk
      | none ↦ e.account_pk
    ]
    else e.account_pk

-- `account_id in pec_accounts`
unfoldable pub is_pec_entry : List String → NewMessage → Bool
is_pec_entry pec e = elim e.account_id [ none ↦ false | some a ↦ any (λ p. p ==ˢ a) pec ]

-- What an upsert writes into a row, new or pending. Here `none` is an entry without the
-- key for a priority. For an explicit null `int` raises a TypeError, which is not modelled.
unfoldable pub write_entry : Database → List String → String → NewMessage → Message → Message
write_entry db pec tenant e m = record m {
  account_id = e.account_id;
  account_pk = resolve_account_pk db tenant e;
  priority = get_or e.priority 2;
  payload = e.payload;
  batch_code = e.batch_code;
  deferred_ts = e.deferred_ts;
  is_pec = is_pec_entry pec e;
}

abbrev pub blank : String → String → String → ℕ → Message
blank pk msg tenant now = record {
  pk = pk;
  id = msg;
  tenant_id = tenant;
  account_id = none;
  account_pk = none;
  priority = 2;
  payload = Json.null;
  batch_code = none;
  created_at = now;
  deferred_ts = none;
  smtp_ts = none;
  is_pec = false;
}

-- The branches on the row that has the entry's id: a processed row is left alone, a pending one is
-- written over, and with no row a new one is inserted. The answer is the key that was written.
unfoldable pub write_row :
    List String
    → String
    → String
    → ℕ
    → NewMessage
    → Option Message
    → Database
    → Option String × Database
write_row pec tenant uuid now e (some old) db =
    if is_some old.smtp_ts
    then (none, db)
    else (some old.pk, update old.pk (write_entry db pec tenant e) db)
write_row pec tenant uuid now e none db = (
  some uuid,
  record db {
    messages = db.messages ++ write_entry db pec tenant e (blank uuid e.id tenant now) ∷ [];
  },
)

-- One round of the loop in `insert_batch`. `uuid` is the key that a new row would get, and `now` its
-- creation time. An entry without a tenant is skipped.
unfoldable pub upsert :
    List String → Option String → String → ℕ → NewMessage → Database → Option String × Database
unfolding write_row
upsert pec default uuid now e db =
    if not (is_truthy (entry_tenant default e))
    then (none, db)
    else (let tenant = get_or (entry_tenant default e) "" in
        write_row pec tenant uuid now e (get e.id tenant db) db)

-- The accounts that `accounts.get_pec_account_ids()` lists.
unfoldable pub pec_ids : Database → List String
pec_ids db = map (λ a. a.id) (filter (λ a. a.is_pec_account) db.accounts)

-- The loop: `uuids n` is the key for the entry with n others after it.
unfoldable pub insert_loop :
    List String
    → Option String
    → (ℕ → String)
    → ℕ
    → List NewMessage
    → Database
    → List (String × String) × Database
insert_loop pec default uuids now [] db = ([], db)
insert_loop pec default uuids now (e ∷ es) db =
    let (written, db') = upsert pec default (uuids (length es)) now e db in
    let (rest, db'') = insert_loop pec default uuids now es db' in
    (elim written [ none ↦ rest | some pk ↦ (e.id, pk) ∷ rest ], db'')

-- `insert_batch` with `auto_pec` set and no accounts given, as the callers use it: the pairs of id and
-- key that were written.
unfoldable pub insert_batch :
    Option String
    → (ℕ → String)
    → ℕ
    → List NewMessage
    → Database
    → List (String × String) × Database
insert_batch default uuids now es db = insert_loop (pec_ids db) default uuids now es db
