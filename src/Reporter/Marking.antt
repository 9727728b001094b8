-- ===== src/Reporter/Marking.antt =====
-- Which events are marked as reported by a cycle.
use genro_mail_proxy.Prelude.{
  ℕ, String, ◌≡◌, refl, sym, ap, ◌∙◌, Bool, true, false, ◌&&◌, Option, none, some, List, [], ◌∷◌,
  ltb, ◌==◌, if◌then◌else◌, any, arith, inl, inr, Bool-cases,
}
use genro_mail_proxy.Prelude.Dict.{Dict}
use genro_mail_proxy.Queue.{MessageEvent, Tenant, Database, get_tenant}
use genro_mail_proxy.Queue.Events.{fetch_unreported, mark_rows, mark_reported}
use genro_mail_proxy.Queue.Cleanup.{remove_fully_reported_before}
use genro_mail_proxy.Reporter.{Reply, Settings, Reporter, has_sync_url}
use genro_mail_proxy.Reporter.Payloads.{tenant_of, events_to_payloads}
use genro_mail_proxy.Reporter.Sending.{
  Sent, failed, processed, read_reply, read_callable, send_delivery_reports,
}
use genro_mail_proxy.Reporter.Cycle.{
  Progress, group_events, acknowledge, sync_found, sync_tenant, sync_groups, is_polled, poll_tenant,
  poll_tenants, list_all, apply_retention, finish_cycle, start_cycle, process_cycle,
}
use genro_mail_proxy.Reporter.Acknowledged.{confirmed, acked-start_cycle, acked-poll_tenants}

db-acknowledge :
    (db : Database) (now : ℕ) (id : String) (es : List MessageEvent) (sent : Sent) (r : Reporter)
    (s : Progress)
    → (acknowledge db now id es (sent, r) s).reporter.db ≡ r.db
unfolding acknowledge
db-acknowledge db now id es failed r s = refl
db-acknowledge db now id es (processed acked queued next) r s = refl

db-sync_found :
    (cfg : Settings) (reply : String → Reply) (now : ℕ) (db : Database) (id : String)
    (es : List MessageEvent) (row : Option Tenant) (s : Progress)
    → (sync_found cfg reply now db id es row s).reporter.db ≡ s.reporter.db
unfolding sync_found send_delivery_reports
db-sync_found cfg reply now db id es none s = refl
db-sync_found cfg reply now db id es (some t) s = elim (Bool-cases (has_sync_url t)) [
  | inl own ↦
      rw own (db-acknowledge db now id es (read_reply (reply id) (events_to_payloads db es)) _ s)
  | inr shared ↦ rw shared (elim (Bool-cases cfg.client_sync_url) [
    | inl url ↦ rw url (elim (Bool-cases cfg.has_callable) [
      | inl call ↦
          rw call
            (db-acknowledge db now id es (read_callable (reply id) (events_to_payloads db es)) _ s)
      | inr post ↦
          rw post
            (db-acknowledge db now id es (read_reply (reply id) (events_to_payloads db es)) _ s)
    ])
    | inr nowhere ↦ rw nowhere refl
  ])
]

db-sync_groups :
    (cfg : Settings) (reply : String → Reply) (now : ℕ) (db : Database)
    (groups : Dict (List MessageEvent)) (s : Progress)
    → (sync_groups cfg reply now db groups s).reporter.db ≡ s.reporter.db
unfolding sync_groups sync_tenant
db-sync_groups cfg reply now db [] s = refl
db-sync_groups cfg reply now db ((id, es) ∷ groups) s =
    db-sync_groups cfg reply now db groups (sync_tenant cfg reply now db id es s)
    ∙ db-sync_found cfg reply now db id es (get_tenant db id)
        (record s { called_tenant_ids = id ∷ s.called_tenant_ids })

db-poll_tenants :
    (reply : String → Reply) (target : Option String) (now : ℕ) (db : Database) (ts : List Tenant)
    (s : Progress)
    → (poll_tenants reply target now db ts s).reporter.db ≡ s.reporter.db
unfolding poll_tenants poll_tenant
db-poll_tenants reply target now db [] s = refl
db-poll_tenants reply target now db (t ∷ ts) s =
    db-poll_tenants reply target now db ts (poll_tenant reply target now db t s)
    ∙ (elim (Bool-cases (is_polled target now t s)) [
      | inl polled ↦ rw polled (db-acknowledge db now t.id [] (read_reply (reply t.id) []) _ s)
      | inr passed ↦ rw passed refl
    ])

-- The events with a time of report put on those that pass a test.
abbrev pub report : (MessageEvent → Bool) → ℕ → List MessageEvent → List MessageEvent
report p ts [] = []
report p ts (e ∷ es) = (if p e then record e { reported_ts = some ts } else e) ∷ report p ts es

report_none : (ts : ℕ) (es : List MessageEvent) → report (λ e. false) ts es ≡ es
report_none ts [] = refl
report_none ts (e ∷ es) = ap (λ r. e ∷ r) (report_none ts es)

report_same :
    (p q : MessageEvent → Bool) (ts : ℕ)
    → ((e : MessageEvent) → p e ≡ q e)
    → (es : List MessageEvent) → report p ts es ≡ report q ts es
report_same p q ts h [] = refl
report_same p q ts h (e ∷ es) = rw (h e, report_same p q ts h es) refl

mark_rows-report :
    (ids : List ℕ) (ts : ℕ) (es : List MessageEvent)
    → mark_rows ids ts es ≡ report (λ e. any (λ i. i == e.id) ids) ts es
unfolding mark_rows
mark_rows-report ids ts [] = refl
mark_rows-report ids ts (e ∷ es) =
    ap (λ r. (if any (λ i. i == e.id) ids then record e { reported_ts = some ts } else e) ∷ r)
      (mark_rows-report ids ts es)

mark_reported-report :
    (ids : List ℕ) (ts : ℕ) (db : Database)
    → (mark_reported ids ts db).message_events
      ≡ report (λ e. any (λ i. i == e.id) ids) ts db.message_events
unfolding mark_reported
mark_reported-report [] ts db = sym (report_none ts db.message_events)
mark_reported-report (i ∷ ids) ts db = mark_rows-report (i ∷ ids) ts db.message_events

finish_cycle-report :
    (cfg : Settings) (now : ℕ) (s : Progress)
    → (finish_cycle cfg now s).db.message_events
      ≡ report (λ e. any (λ i. i == e.id) s.acked_event_ids) now s.reporter.db.message_events
unfolding finish_cycle apply_retention remove_fully_reported_before
finish_cycle-report cfg now s = elim (Bool-cases (ltb 0 cfg.retention_seconds)) [
  | inl keeps ↦ rw keeps (mark_reported-report s.acked_event_ids now s.reporter.db)
  | inr kept ↦ rw kept (mark_reported-report s.acked_event_ids now s.reporter.db)
]

db-start_cycle :
    (cfg : Settings) (reply : String → Reply) (now : ℕ) (r : Reporter)
    → (start_cycle cfg reply now r).reporter.db ≡ r.db
unfolding start_cycle
db-start_cycle cfg reply now r =
    db-sync_groups cfg reply now r.db (group_events r.db (fetch_unreported cfg.batch_size r.db) [])
      _

-- Whether an event row is among the fetched events that are confirmed.
abbrev pub is_confirmed : Settings → (String → Reply) → Database → MessageEvent → Bool
is_confirmed cfg reply db e =
    any (λ f. (f.id == e.id) && confirmed cfg reply db (tenant_of db f) f)
      (fetch_unreported cfg.batch_size db)

-- In the enterprise edition an active cycle puts its time as the time of report on the events that it
-- fetched and whose tenant exists, has a URL to call and answered the call; and on no other event.
pub process_cycle-report :
    (cfg : Settings) (reply : String → Reply) (now : ℕ) (r : Reporter)
    → cfg.active ≡ true
    → cfg.enterprise ≡ true
    → (process_cycle cfg reply now r).1.db.message_events
      ≡ report (is_confirmed cfg reply r.db) now r.db.message_events
unfolding process_cycle finish_cycle
process_cycle-report cfg reply now r active enterprise =
    let ts = list_all r.db.tenants in
    let first = start_cycle cfg reply now r in
    let s = poll_tenants reply r.run_now_tenant_id now r.db ts first in
    let same : (process_cycle cfg reply now r).1 ≡ finish_cycle cfg now s =
      rw (active, enterprise, process_cycle) refl in
    let kept : s.reporter.db ≡ r.db =
      db-poll_tenants reply r.run_now_tenant_id now r.db ts first
      ∙ db-start_cycle cfg reply now r in
    rw same (
      finish_cycle-report cfg now s
      ∙ ap (λ db. report (λ e. any (λ i. i == e.id) s.acked_event_ids) now db.message_events) kept
      ∙ report_same (λ e. any (λ i. i == e.id) s.acked_event_ids) (is_confirmed cfg reply r.db) now
          (λ e.
            acked-poll_tenants reply r.run_now_tenant_id now e.id r.db ts first
            ∙ acked-start_cycle cfg reply now e.id r)
          r.db.message_events)

none_confirmed :
    (cfg : Settings) (reply : String → Reply) (db : Database) (x : ℕ) (es : List MessageEvent)
    → any (λ f. confirmed cfg reply db (tenant_of db f) f) es ≡ false
    → any (λ f. (f.id == x) && confirmed cfg reply db (tenant_of db f) f) es ≡ false
none_confirmed cfg reply db x [] h = refl
none_confirmed cfg reply db x (e ∷ es) h = ground (arith, h, none_confirmed cfg reply db x es)

-- If no tenant of the fetched events confirms, a cycle marks nothing, whatever other events wait behind
-- the limit of the batch.
process_cycle-blocked :
    (cfg : Settings) (reply : String → Reply) (now : ℕ) (r : Reporter)
    → cfg.active ≡ true
    → cfg.enterprise ≡ true
    → any
        (λ f. confirmed cfg reply r.db (tenant_of r.db f) f)
        (fetch_unreported cfg.batch_size r.db)
      ≡ false
    → (process_cycle cfg reply now r).1.db.message_events ≡ r.db.message_events
process_cycle-blocked cfg reply now r active enterprise blocked =
    process_cycle-report cfg reply now r active enterprise
    ∙ report_same (is_confirmed cfg reply r.db) (λ e. false) now
        (λ e. none_confirmed cfg reply r.db e.id (fetch_unreported cfg.batch_size r.db) blocked)
        r.db.message_events
    ∙ report_none now r.db.message_events

-- Without the enterprise edition an active cycle ends with an exception after its requests and leaves
-- the database as it was, whatever the clients answered: the same events are reported again.
process_cycle-unmarked :
    (cfg : Settings) (reply : String → Reply) (now : ℕ) (r : Reporter)
    → cfg.active ≡ true
    → cfg.enterprise ≡ false
    → ((process_cycle cfg reply now r).0 ≡ none)
      × ((process_cycle cfg reply now r).1.requests
          ≡ (start_cycle cfg reply now r).reporter.requests)
      × ((process_cycle cfg reply now r).1.db ≡ r.db)
unfolding process_cycle
process_cycle-unmarked cfg reply now r active community =
    rw (active, community) (refl, refl, db-start_cycle cfg reply now r)
