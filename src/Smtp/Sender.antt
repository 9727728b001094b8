-- ===== src/Smtp/Sender.antt =====
-- src/core/mail_proxy/smtp/sender.py: one attempt to deliver a message, and a dispatch cycle.
-- The messages of a batch are attempted one after the other here; in the source they are tasks of one
-- event loop. What the network answers, the clock and `Builder` come from outside. Log lines and the
-- timestamps inside the published dicts are left out.
pub mod Attempt
pub mod Progress
pub mod SecondAttempt
pub mod Slots
pub mod Cycle
pub mod Tasks
use genro_mail_proxy.Prelude.{
  ℕ, zero, suc, ◌+◌, String, Bool, true, false, ◌&&◌, ◌||◌, not, Option, none, some, List, [], ◌∷◌,
  ◌++◌, map, ◌==◌, leb, ◌==ˢ◌, if◌then◌else◌, take, is_empty, is_truthy, get_or,
}
use genro_mail_proxy.Prelude.Dict
use genro_mail_proxy.Prelude.Dict.{Dict}
use genro_mail_proxy.Prelude.Int.{ℤ, pos}
use genro_mail_proxy.Prelude.Json
use genro_mail_proxy.Prelude.Json.{
  Json, null, bool, num, str, obj, end, field, truth, opt_str, opt_num,
}
use genro_mail_proxy.Prelude.Text.{Text, codes}
use genro_mail_proxy.Queue.{Message, SmtpAccount, Tenant, Database, get_account, get_tenant}
use genro_mail_proxy.Queue.Messages.{clear_deferred, update_payload}
use genro_mail_proxy.Queue.Events.{add_event}
use genro_mail_proxy.Queue.Fetch.{Entry, fetch_ready}
use genro_mail_proxy.Smtp.RateLimiter.{Account, RateLimiter, check_and_plan, log_send, release_slot}
use genro_mail_proxy.Smtp.Retry.{
  RetryStrategy, Error, truthy, classify_error, should_retry, calculate_delay,
}
use genro_mail_proxy.Smtp.Email.{Builder, build_email}

-- The settings of the proxy that delivery reads.
pub record Settings : Type 0 where
  pub retry : RetryStrategy
  pub default_host : Option String
  pub default_port : Option ℕ
  pub default_user : Option String
  pub default_password : Option String
  pub default_use_tls : Option Bool
  pub batch_size_per_account : ℕ
  pub smtp_batch_size : ℕ

-- The clock during one attempt: the start of the cycle, the rate check, and the end of the attempt.
pub record Times : Type 0 where
  pub cycle : ℕ
  pub check : ℕ
  pub done : ℕ

-- A dict that `_publish_result` puts on the result queue.
pub record DeliveryEvent : Type 0 where
  pub id : String
  pub status : String
  pub error : Option Text
  pub deferred_until : Option ℕ
  pub retry_count : Option ℕ
  pub smtp_code : Option ℤ
  pub error_code : Option Json
  pub account : Json

-- The dict of an error, without the keys that only some errors have.
abbrev pub error_event : String → Text → Json → DeliveryEvent
error_event id info account = record {
  id = id;
  status = "error";
  error = some info;
  deferred_until = none;
  retry_count = none;
  smtp_code = none;
  error_code = none;
  account = account;
}

pub data Metric : Type 0 where
  inc_sent inc_error inc_deferred inc_rate_limited : String → String → Metric

-- What delivery changes: the database, the limiter, the result queue and the counters. A metric
-- carries the labels `tenant_id` and `account_id`.
pub record World : Type 0 where
  pub db : Database
  pub limiter : RateLimiter
  pub published : List DeliveryEvent
  pub metrics : List Metric

abbrev pub count_metric : Metric → World → World
count_metric m w = record w { metrics = w.metrics ++ m ∷ [] }

unfoldable pub publish : DeliveryEvent → World → World
publish e w = record w { published = w.published ++ e ∷ [] }

-- `if pk: await self.db.table("message_events").add_event(...)`
unfoldable pub record_event : String → String → ℕ → Option Text → Option Json → World → World
record_event pk type ts description metadata w =
    if is_empty pk then w else record w { db = add_event pk type ts description metadata w.db }

-- The account's dict as the limiter reads it.
abbrev pub limits_of : SmtpAccount → Account
limits_of a = record {
  id = a.id;
  limit_per_minute = a.limit_per_minute;
  limit_per_hour = a.limit_per_hour;
  limit_per_day = a.limit_per_day;
  limit_behavior = a.limit_behavior;
}

-- The parameters of the connection, with the account that was resolved.
pub record Route : Type 0 where
  pub host : String
  pub port : ℕ
  pub user : Option String
  pub password : Option String
  pub use_tls : Option Bool
  pub account : Account

pub data Resolved : Type 0 where
  route : Route → Resolved
  misconfigured : Text → Resolved

unfoldable pub resolve_account : Settings → Database → String → Option String → Resolved
resolve_account s db tenant account =
    if is_truthy account
    then (let name = get_or account "" in
        elim (get_account db tenant name) [
          | some a ↦ route (record {
            host = a.host;
            port = a.port;
            user = a.user;
            password = a.password;
            use_tls = a.use_tls;
            account = limits_of a;
          })
          | none ↦ misconfigured (
              codes "Account '"
              ++ (codes name ++ (codes "' not found for tenant '" ++ (codes tenant ++ codes "'"))))
        ])
    else if is_truthy s.default_host && not (get_or s.default_port 0 == 0)
    then route (record {
      host = get_or s.default_host "";
      port = get_or s.default_port 0;
      user = s.default_user;
      password = s.default_password;
      use_tls = s.default_use_tls;
      account = record {
        id = "default";
        limit_per_minute = none;
        limit_per_hour = none;
        limit_per_day = none;
        limit_behavior = none;
      };
    })
    else misconfigured (codes "Missing SMTP account configuration")

-- `account_id or acc.get("id") or "default"`
unfoldable pub resolved_account_id : Option String → Account → String
resolved_account_id account acc =
    if is_truthy account then get_or account "" else if is_empty acc.id then "default" else acc.id

-- `int(port) == 465 if use_tls is None else bool(use_tls)`
unfoldable pub uses_tls : Route → Bool
uses_tls r = get_or r.use_tls (r.port == 465)

-- `json.dumps` of the entry's dict with the retry count put in.
unfoldable pub entry_json : Entry → ℕ → Json
entry_json e retry_count = obj (
    field "pk" (str e.pk) (
      field "id" (str e.id) (
        field "tenant_id" (str e.tenant_id) (
          field "account_id" (opt_str e.account_id) (
            field "priority" (num (pos e.priority)) (
              field "batch_code" (opt_str e.batch_code) (
                field "deferred_ts" (opt_num e.deferred_ts) (
                  field "is_pec" (bool e.is_pec) (
                    field "message" e.message
                      (field "retry_count" (num (pos retry_count)) end))))))))))
