-- ===== src/Tests/Reporting.antt =====
-- The reporter at small inputs.
use genro_mail_proxy.Prelude.{◌≡◌, refl, true, false, none, some, [], ◌∷◌}
use genro_mail_proxy.Prelude.Dict
use genro_mail_proxy.Queue.{get_tenant}
use genro_mail_proxy.Queue.Messages.{get_by_pk}
use genro_mail_proxy.Queue.Events.{fetch_unreported, mark_reported}
use genro_mail_proxy.Queue.Cleanup.{remove_fully_reported_before}
use genro_mail_proxy.Reporter.{answered, Settings, Reporter}
use genro_mail_proxy.Reporter.Payloads.{tenant_of, payload_of}
use genro_mail_proxy.Reporter.Cycle.{process_cycle}
use genro_mail_proxy.Reporter.Marking.{report, is_confirmed, process_cycle-report}
use genro_mail_proxy.Tests.Data.{acme, queue, unreported_event}

abbrev settings : Settings
settings = record {
  active = true;
  batch_size = 10;
  retention_seconds = 3600;
  client_sync_url = false;
  has_callable = false;
  enterprise = true;
}

abbrev reporter : Reporter
reporter = record {
  db = record queue { message_events = unreported_event ∷ []; tenants = acme ∷ [] };
  last_sync = [];
  run_now_tenant_id = none;
  requests = [];
}

-- The tenant answers, and rejects the report: it counts as reported all the same.
marks :
    (process_cycle settings (λ _. answered ("m2" ∷ []) [] 0 none) 500 reporter).1.db.message_events
    ≡ record unreported_event { reported_ts = some 500 } ∷ []
unfolding process_cycle fetch_unreported get_by_pk get_tenant Dict.lookup Dict.insert
    remove_fully_reported_before mark_reported tenant_of payload_of
marks = refl

process_cycle-report_example :
    (process_cycle settings (λ _. answered ("m2" ∷ []) [] 0 none) 500 reporter).1.db.message_events
    ≡ report
        (is_confirmed settings (λ _. answered ("m2" ∷ []) [] 0 none) reporter.db)
        500
        (unreported_event ∷ [])
process_cycle-report_example =
    process_cycle-report settings (λ _. answered ("m2" ∷ []) [] 0 none) 500 reporter refl refl

abbrev community : Settings
community = record settings { enterprise = false }
