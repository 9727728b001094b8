-- ===== src/Tests/Data.antt =====
-- The data of the tests.
use genro_mail_proxy.Prelude.{ℕ, zero, suc, String, true, false, none, some, [], ◌∷◌}
use genro_mail_proxy.Prelude.Int.{pos}
use genro_mail_proxy.Prelude.Json.{Json, str, obj, end, field}
use genro_mail_proxy.Queue.{Message, MessageEvent, Tenant, SmtpAccount, Dialect, Database}
use genro_mail_proxy.Queue.Messages.{NewMessage}
use genro_mail_proxy.Smtp.RateLimiter.{Account, RateLimiter, init}
use genro_mail_proxy.Smtp.Retry.{Error, default_strategy}
use genro_mail_proxy.Smtp.Sender.{Settings, World}
use genro_mail_proxy.Smtp.Sender.Attempt.{Outside}

-- Two sends a minute.
abbrev pub two_a_minute : Account
two_a_minute = record {
  id = "news";
  limit_per_minute = some (pos 2);
  limit_per_hour = none;
  limit_per_day = none;
  limit_behavior = none;
}

-- Two sends in the last minute.
abbrev pub full_minute : RateLimiter
full_minute = record { send_history = ("news", 125 ∷ 128 ∷ []) ∷ []; in_flight = [] }

abbrev pub mail : Json
mail = obj (
    field "from" (str "a@example.org")
      (field "to" (str "b@example.org") (field "subject" (str "Hello") end)))

abbrev pub pending : Message
pending = record {
  pk = "k1";
  id = "m1";
  tenant_id = "acme";
  account_id = some "news";
  account_pk = some "a1";
  priority = 2;
  payload = mail;
  batch_code = none;
  created_at = 90;
  deferred_ts = none;
  smtp_ts = none;
  is_pec = false;
}

abbrev pub processed : Message
processed = record pending { pk = "k2"; id = "m2"; smtp_ts = some 95 }

abbrev pub news_account : SmtpAccount
news_account = record {
  pk = "a1";
  id = "news";
  tenant_id = "acme";
  host = "smtp.example.org";
  port = 587;
  user = none;
  password = none;
  use_tls = none;
  batch_size = some 1;
  limit_per_minute = some (pos 2);
  limit_per_hour = none;
  limit_per_day = none;
  limit_behavior = none;
  is_pec_account = false;
}

abbrev pub acme : Tenant
acme = record {
  id = "acme";
  name = none;
  client_base_url = some "https://acme.com";
  client_sync_path = none;
  active = true;
  suspended_batches = none;
}

abbrev pub reported : MessageEvent
reported = record {
  id = 1;
  message_pk = "k2";
  event_type = "sent";
  event_ts = 95;
  description = none;
  metadata = none;
  reported_ts = some 96;
}

abbrev pub unreported_event : MessageEvent
unreported_event = record reported { reported_ts = none }

abbrev pub queue : Database
queue = record {
  dialect = Dialect.sqlite;
  messages = pending ∷ processed ∷ [];
  message_events = reported ∷ [];
  next_event_id = 2;
  tenants = acme ∷ [];
  accounts = news_account ∷ [];
}

abbrev pub world : World
world = record { db = queue; limiter = init; published = []; metrics = [] }

abbrev pub settings : Settings
settings = record {
  retry = default_strategy;
  default_host = none;
  default_port = none;
  default_user = none;
  default_password = none;
  default_use_tls = none;
  batch_size_per_account = 10;
  smtp_batch_size = 100;
}

abbrev pub network_error : Error
network_error = record {
  is_network = true;
  is_smtp = false;
  smtp_code = none;
  code = none;
  message = [];
}

-- The connection fails.
abbrev pub failing : Outside
failing = record {
  builder = record {
    py_str = λ v. [];
    assign = λ name v. none;
    assign_text = λ name text. none;
    set_content = λ v. none;
    attach = λ v. none;
  };
  show_int = λ n. [];
  times = record { cycle = 100; check = 101; done = 102 };
  answer = some network_error;
}

abbrev pub second_message : NewMessage
second_message = record {
  id = "m2";
  tenant_id = some "acme";
  account_id = some "news";
  account_pk = none;
  priority = none;
  payload = mail;
  deferred_ts = none;
  batch_code = none;
}

abbrev pub third_message : NewMessage
third_message = record second_message { id = "m3" }

-- A key for each entry of a batch of two.
abbrev pub two_keys : ℕ → String
two_keys n = elim n [ zero ↦ "k4" | suc n' ↦ "k3" ]
