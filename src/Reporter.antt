-- ===== src/Reporter.antt =====
-- `ClientReporter` of src/core/mail_proxy/reporting/client_reporter.py: its state, its settings, and what
-- the clients answer.
pub mod Payloads
pub mod Sending
pub mod Cycle
pub mod Acknowledged
pub mod Marking
use genro_mail_proxy.Prelude.{
  ℕ, String, Bool, Option, none, some, List, is_truthy, is_empty, if◌then◌else◌,
}
use genro_mail_proxy.Prelude.Dict
use genro_mail_proxy.Prelude.Dict.{Dict}
use genro_mail_proxy.Prelude.Text.{Text}
use genro_mail_proxy.Prelude.Json.{Json}
use genro_mail_proxy.Queue.{Tenant, Database}

-- `DEFAULT_SYNC_INTERVAL`
abbrev pub sync_interval : ℕ
sync_interval = 300

-- `enterprise` says that the mixins of the enterprise edition are installed.
pub record Settings : Type 0 where
  pub active : Bool
  pub batch_size : ℕ
  pub retention_seconds : ℕ
  pub client_sync_url : Bool
  pub has_callable : Bool
  pub enterprise : Bool

-- What a POST gives: no answer (a `ClientError`, which a status of an error is too, or a timeout), a body
-- that is no JSON object, or an object with the fields that the code reads.
pub data Reply : Type 0 where
  unreachable : Reply
  not_json : Reply
  answered : (error not_found : List String) (queued : ℕ) (next_sync_after : Option ℕ) → Reply

-- The dict of one event, by its keys.
pub data Payload : Type 0 where
  sent : String → ℕ → Payload
  error : String → ℕ → Option Text → Payload
  deferred : String → ℕ → Option Text → Payload
  bounce : String → ℕ → Option Json → Option Json → Option Text → Payload
  pec : String → String → ℕ → Option Text → Payload
  other : String → Payload

-- Where a request goes: to a tenant's own URL, or to the global URL for a tenant's events, or to the
-- callable.
pub data Request : Type 0 where
  to_tenant : String → List Payload → Request
  to_global : List Payload → Request
  to_callable : List Payload → Request

-- The part of the reporter that lasts from cycle to cycle, with the database and what was sent.
pub record Reporter : Type 0 where
  pub db : Database
  pub last_sync : Dict ℕ
  pub run_now_tenant_id : Option String
  pub requests : List Request

-- `wake`, without the event that ends the wait of the loop.
unfoldable pub wake : Option String → Reporter → Reporter
wake none r = r
wake (some id) r =
    if is_empty id
    then r
    else record r { last_sync = Dict.insert id 0 r.last_sync; run_now_tenant_id = some id }

-- Whether `get_tenant_sync_url` gives a URL.
abbrev pub has_sync_url : Tenant → Bool
has_sync_url t = is_truthy t.client_base_url
