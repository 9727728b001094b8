-- ===== src/Accounts.antt =====
-- src/core/mail_proxy/entities/account/table.py: how an SMTP account is added, read and removed, over the
-- operations of a table. An exception is none; `int` of a text knows ASCII.
pub mod Fields
pub mod Added
use genro_mail_proxy.Prelude.{
  ℕ, String, Bool, true, false, Option, none, some, List, [], ◌∷◌, ◌++◌, if◌then◌else◌, get_or,
}
use genro_mail_proxy.Prelude.Int.{pos}
use genro_mail_proxy.Prelude.Dict
use genro_mail_proxy.Prelude.Json.{Json, null, bool, num, str, truth}
use genro_mail_proxy.Prelude.Text.{codes}
use genro_mail_proxy.Proxy.Priority.{of_bool, parse_int}
use genro_mail_proxy.Sql.Fields.{Row, Codec}
use genro_mail_proxy.Sql.Adapter.{Adapter}
use genro_mail_proxy.Sql.Table.Many.{update_fields}
use genro_mail_proxy.Sql.Table.{
  Table, has_key, is_empty_row, base_triggers, select_one, select, delete, update_record,
}
use genro_mail_proxy.Sql.Table.Upserted.{given_record}

-- The table with the columns of both editions; it makes no keys.
abbrev pub accounts : Table
accounts = record {
  pkey = some "pk";
  json_columns = [];
  encrypted_columns = "password" ∷ "imap_password" ∷ [];
  new_pkey_value = none;
}

-- `acc.get(c, default)`, `int(...)` and `a or b`.
abbrev pub get_value : String → Json → Row → Json
get_value c default acc = get_or (Dict.lookup c acc) default

unfoldable pub int_of : Json → Option Json
int_of (num n) = some (num n)
int_of (bool b) = some (num (of_bool b))
int_of (str s) = elim (parse_int (codes s)) [ none ↦ none | some n ↦ some (num n) ]
int_of _ = none

abbrev pub or_else : Json → Json → Json
or_else v default = if truth v then v else default

abbrev pub flag_of : Json → Json
flag_of v = if truth v then num (pos 1) else num (pos 0)

abbrev pub use_tls_value : Json → Json
use_tls_value null = null
use_tls_value v = flag_of v

-- What comes after a step that may raise.
abbrev pub and_then {ℓ κ} : {A : Type ℓ} {B : Type κ} → Option A → (A → Option B) → Option B
and_then none f = none
and_then (some a) f = f a

abbrev pub imap_fields_with : Row → Json → Row
imap_fields_with acc imap_port =
    ("imap_host", get_value "imap_host" null acc)
    ∷ ("imap_port", imap_port)
    ∷ ("imap_user", or_else (get_value "imap_user" null acc) (get_value "user" null acc))
    ∷ (
      "imap_password",
      or_else (get_value "imap_password" null acc) (get_value "password" null acc),
    )
    ∷ ("imap_folder", get_value "imap_folder" (str "INBOX") acc)
    ∷ []

unfoldable pub imap_fields : Row → Option Row
unfolding int_of
imap_fields acc =
    if truth (get_value "imap_host" null acc)
    then and_then (int_of (or_else (get_value "imap_port" null acc) (num (pos 993))))
        (λ imap_port. some (imap_fields_with acc imap_port))
    else some []

abbrev pub smtp_fields : Row → Json → Json → Json → Row
smtp_fields acc host port ttl =
    ("host", host)
    ∷ ("port", port)
    ∷ ("user", get_value "user" null acc)
    ∷ ("password", get_value "password" null acc)
    ∷ ("ttl", ttl)
    ∷ ("limit_per_minute", get_value "limit_per_minute" null acc)
    ∷ ("limit_per_hour", get_value "limit_per_hour" null acc)
    ∷ ("limit_per_day", get_value "limit_per_day" null acc)
    ∷ ("limit_behavior", get_value "limit_behavior" (str "defer") acc)
    ∷ ("use_tls", use_tls_value (get_value "use_tls" null acc))
    ∷ ("batch_size", get_value "batch_size" null acc)
    ∷ ("is_pec_account", flag_of (get_value "is_pec_account" null acc))
    ∷ []

-- The assignments of `add` in their order; a missing host or port is a KeyError.
unfoldable pub account_fields : Row → Option Row
unfolding int_of imap_fields
account_fields acc = and_then (Dict.lookup "host" acc) (λ host.
    and_then (and_then (Dict.lookup "port" acc) int_of) (λ port.
      and_then (int_of (get_value "ttl" (num (pos 300)) acc))
        (λ ttl. and_then (imap_fields acc) (λ imap. some (smtp_fields acc host port ttl ++ imap)))))

-- A new record gets a key.
abbrev pub with_pk : String → Row → Row
with_pk uuid rec = if has_key "pk" rec then rec else Dict.insert "pk" (str uuid) rec

abbrev pub assign : Row → Option Row → Option Row
assign rec none = none
assign rec (some fields) = some (update_fields fields rec)

unfoldable pub add_body : String → Row → Row → Option Row
unfolding account_fields update_fields
add_body uuid acc rec = assign (with_pk uuid rec) (account_fields acc)

abbrev pub where_account : Json → Json → Row
where_account tenant_id account_id = ("tenant_id", tenant_id) ∷ ("id", account_id) ∷ []

-- `_decode_use_tls`
abbrev pub tls_of : Json → Json
tls_of null = null
tls_of v = bool (truth v)

abbrev pub change : String → (Json → Json) → Row → Option Json → Row
change c f account none = account
change c f account (some v) = Dict.insert c (f v) account

unfoldable pub decode_use_tls : Row → Row
decode_use_tls account = change "use_tls" tls_of account (Dict.lookup "use_tls" account)

-- The key in the record that the body leaves.
abbrev pub pk_of : String → Row → Row → Option Row → Option Json
pk_of uuid acc criteria old =
    and_then (add_body uuid acc (given_record criteria old)) (Dict.lookup "pk")

-- Without a row, or with an empty one, `get` raises.
abbrev pub of_found : Option Row → Option Row
of_found none = none
of_found (some row) = if is_empty_row row then none else some (decode_use_tls row)

module _ (k : Codec) (A : Adapter) where
  abbrev pub add_at : String → Row → Row → A.State → Option (Json × A.State)
  add_at uuid acc criteria s =
      and_then (select_one k accounts A (base_triggers A.State accounts) criteria s) (λ old.
        and_then (pk_of uuid acc criteria old) (λ pk.
          and_then
            (update_record k accounts A (base_triggers A.State accounts) true criteria
              (add_body uuid acc) s)
            (λ s'. some (pk, s'))))

  -- `AccountsTable.add`, with the key that a new account gets.
  unfoldable pub add : String → Row → A.State → Option (Json × A.State)
  unfolding select_one update_record add_body
  add uuid acc s = and_then (Dict.lookup "tenant_id" acc) (λ tenant_id.
      and_then (Dict.lookup "id" acc)
        (λ account_id. add_at uuid acc (where_account tenant_id account_id) s))

  -- `AccountsTable.get`
  unfoldable pub get : Json → Json → A.State → Option Row
  unfolding select_one decode_use_tls
  get tenant_id account_id s =
      and_then
        (select_one k accounts A (base_triggers A.State accounts)
          (where_account tenant_id account_id) s)
        of_found

  -- `AccountsTable.remove`
  unfoldable pub remove : Json → Json → A.State → Option A.State
  unfolding delete
  remove tenant_id account_id s =
      and_then
        (delete k accounts A (base_triggers A.State accounts) (where_account tenant_id account_id)
          s)
        (λ r. some r.1)
