-- ===== src/Reporter/Sending.antt =====
-- `_send_delivery_reports` and `_send_reports_to_tenant` of
-- src/core/mail_proxy/reporting/client_reporter.py.
use genro_mail_proxy.Prelude.{
  ℕ, String, not, Option, none, List, [], ◌∷◌, ◌++◌, if◌then◌else◌, map, filter, is_empty,
}
use genro_mail_proxy.Reporter.{
  Reply, unreachable, not_json, answered, Payload, Request, to_tenant, to_global, to_callable,
  Settings, Reporter,
}
use genro_mail_proxy.Reporter.Payloads.{id_of}

-- What a call of the two methods gives: an exception that the cycle catches, or the ids of the messages
-- that count as processed, the number of queued messages, and the time for the next call.
pub data Sent : Type 0 where
  failed : Sent
  processed : List String → ℕ → Option ℕ → Sent

-- The ids of all payloads, whatever the client says of them.
abbrev pub read_reply : Reply → List Payload → Sent
read_reply unreachable payloads = failed
read_reply not_json payloads = processed (map id_of payloads) 0 none
read_reply (answered error not_found queued next_sync_after) payloads =
    processed (map id_of payloads) queued next_sync_after

abbrev pub add_request : Request → Reporter → Reporter
add_request q r = record r { requests = r.requests ++ q ∷ [] }

abbrev pub send_reports_to_tenant : String → Reply → List Payload → Reporter → Sent × Reporter
send_reports_to_tenant tenant reply payloads r =
    (read_reply reply payloads, add_request (to_tenant tenant payloads) r)

-- The callable is called for each payload. Its reply is unreachable if it raises one of the exceptions
-- that the cycle catches; another exception would end the cycle and is left out.
abbrev pub read_callable : Reply → List Payload → Sent
read_callable unreachable payloads = failed
read_callable _ payloads = processed (filter (λ i. not (is_empty i)) (map id_of payloads)) 0 none

-- The caller has checked that there is a URL or a callable.
unfoldable pub send_delivery_reports : Settings → Reply → List Payload → Reporter → Sent × Reporter
send_delivery_reports cfg reply payloads r =
    if cfg.has_callable
    then (read_callable reply payloads, add_request (to_callable payloads) r)
    else (read_reply reply payloads, add_request (to_global payloads) r)
