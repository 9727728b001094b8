-- ===== src/Queue.antt =====
-- The tables behind the queue (src/core/mail_proxy/entities, src/sql/table.py): their rows, and the
-- database that holds them. A row is a record of its columns; NULL is none. A JSON column holds the
-- value itself: what `json.dumps` wrote is what `json.loads` reads. Rows stand in the order of
-- insertion.
pub mod Messages
pub mod Fetch
pub mod Events
pub mod Cleanup
pub mod Rows
pub mod Upsert
pub mod Batch
pub mod Suspension
pub mod Deletion
use genro_mail_proxy.Prelude.{
  ℕ, String, Bool, true, false, Option, none, some, List, [], ◌∷◌, ◌==ˢ◌, ◌&&◌, if◌then◌else◌,
  find?, length, filter, map,
}
use genro_mail_proxy.Prelude.Json.{Json}
use genro_mail_proxy.Prelude.Int.{ℤ}
use genro_mail_proxy.Prelude.Text.{Text}

-- Timestamps are seconds since the epoch. `updated_at` is left out: nothing reads it.
pub record Message : Type 0 where
  pub pk : String
  pub id : String
  pub tenant_id : String
  pub account_id : Option String
  pub account_pk : Option String
  pub priority : ℕ
  pub payload : Json
  pub batch_code : Option String
  pub created_at : ℕ
  pub deferred_ts : Option ℕ
  pub smtp_ts : Option ℕ
  pub is_pec : Bool

pub record MessageEvent : Type 0 where
  pub id : ℕ
  pub message_pk : String
  pub event_type : String
  pub event_ts : ℕ
  pub description : Option Text
  pub metadata : Option Json
  pub reported_ts : Option ℕ

-- The columns of a tenant that the queue and the reporter read.
pub record Tenant : Type 0 where
  pub id : String
  pub name : Option String
  pub client_base_url : Option String
  pub client_sync_path : Option String
  pub active : Bool
  pub suspended_batches : Option Text

-- The columns of an account that delivery reads.
pub record SmtpAccount : Type 0 where
  pub pk : String
  pub id : String
  pub tenant_id : String
  pub host : String
  pub port : ℕ
  pub user : Option String
  pub password : Option String
  pub use_tls : Option Bool
  pub batch_size : Option ℕ
  pub limit_per_minute : Option ℤ
  pub limit_per_hour : Option ℤ
  pub limit_per_day : Option ℤ
  pub limit_behavior : Option String
  pub is_pec_account : Bool

-- `LIKE` ignores the case of ASCII letters in SQLite, and not in PostgreSQL.
pub data Dialect : Type 0 where
  sqlite postgresql : Dialect

pub record Database : Type 0 where
  pub dialect : Dialect
  pub messages : List Message
  pub message_events : List MessageEvent
  pub next_event_id : ℕ
  pub tenants : List Tenant
  pub accounts : List SmtpAccount

-- `accounts.get(tenant_id, account_id)`; none is the ValueError that it raises.
unfoldable pub get_account : Database → String → String → Option SmtpAccount
get_account db tenant account =
    find? (λ a. (a.tenant_id ==ˢ tenant) && (a.id ==ˢ account)) db.accounts

unfoldable pub get_tenant : Database → String → Option Tenant
get_tenant db tenant = find? (λ t. t.id ==ˢ tenant) db.tenants
