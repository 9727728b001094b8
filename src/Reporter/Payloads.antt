-- ===== src/Reporter/Payloads.antt =====
-- `_events_to_payloads` of src/core/mail_proxy/reporting/client_reporter.py.
use genro_mail_proxy.Prelude.{String, Option, none, some, List, [], ◌∷◌, ◌==ˢ◌, if◌then◌else◌, map}
use genro_mail_proxy.Prelude.Json
use genro_mail_proxy.Prelude.Json.{Json}
use genro_mail_proxy.Prelude.Text.{Text, codes, starts_with}
use genro_mail_proxy.Queue.{MessageEvent, Database}
use genro_mail_proxy.Queue.Messages.{get_by_pk}
use genro_mail_proxy.Reporter.{Payload, sent, error, deferred, bounce, pec, other}

-- The columns `m.id` and `m.tenant_id` that the query joins to an event.
unfoldable pub message_id : Database → MessageEvent → String
message_id db e = elim (get_by_pk e.message_pk db) [ none ↦ "" | some m ↦ m.id ]

unfoldable pub tenant_of : Database → MessageEvent → String
tenant_of db e = elim (get_by_pk e.message_pk db) [ none ↦ "" | some m ↦ m.tenant_id ]

-- `metadata.get(key)`, where the metadata may be missing.
abbrev pub of_metadata : String → Option Json → Option Json
of_metadata key none = none
of_metadata key (some meta) = Json.lookup key meta

-- A description that is an empty text is left out.
abbrev pub details : Option Text → Option Text
details none = none
details (some []) = none
details (some (c ∷ s)) = some (c ∷ s)

unfoldable pub payload_of : Database → MessageEvent → Payload
unfolding message_id
payload_of db e =
    let id = message_id db e in
    if e.event_type ==ˢ "sent"
    then sent id e.event_ts
    else if e.event_type ==ˢ "error"
    then error id e.event_ts e.description
    else if e.event_type ==ˢ "deferred"
    then deferred id e.event_ts e.description
    else if e.event_type ==ˢ "bounce"
    then bounce id e.event_ts (of_metadata "bounce_type" e.metadata)
        (of_metadata "bounce_code" e.metadata) e.description
    else if starts_with (codes "pec_") (codes e.event_type)
    then pec id e.event_type e.event_ts (details e.description)
    else other id

abbrev pub events_to_payloads : Database → List MessageEvent → List Payload
events_to_payloads db es = map (payload_of db) es

-- `payload["id"]`
abbrev pub id_of : Payload → String
id_of (sent id ts) = id
id_of (error id ts description) = id
id_of (deferred id ts description) = id
id_of (bounce id ts kind code description) = id
id_of (pec id event ts description) = id
id_of (other id) = id
