-- ===== src/Reporter/Cycle.antt =====
-- `_process_cycle` and `_apply_retention` of src/core/mail_proxy/reporting/client_reporter.py. The
-- column of the tenant of a message is NOT NULL, so the branch for events without a tenant is left out.
use genro_mail_proxy.Prelude.{
  ℕ, zero, suc, ◌+◌, ◌-◌, String, Bool, ◌&&◌, ◌||◌, not, Option, none, some, List, [], ◌∷◌, ◌++◌,
  ltb, ◌==ˢ◌, if◌then◌else◌, map, filter, any, get_or, is_empty, is_truthy,
}
use genro_mail_proxy.Prelude.Dict
use genro_mail_proxy.Prelude.Dict.{Dict}
use genro_mail_proxy.Prelude.Text.{codes}
use genro_mail_proxy.Queue.{MessageEvent, Tenant, Database, get_tenant}
use genro_mail_proxy.Queue.Fetch.Sort.{leb_text}
use genro_mail_proxy.Queue.Events.{fetch_unreported, mark_reported}
use genro_mail_proxy.Queue.Cleanup.{remove_fully_reported_before}
use genro_mail_proxy.Reporter.{Reply, Settings, Reporter, sync_interval, has_sync_url}
use genro_mail_proxy.Reporter.Payloads.{message_id, tenant_of, events_to_payloads}
use genro_mail_proxy.Reporter.Sending.{
  Sent, failed, processed, send_reports_to_tenant, send_delivery_reports,
}

-- The local variables of the cycle.
pub record Progress : Type 0 where
  pub reporter : Reporter
  pub acked_event_ids : List ℕ
  pub called_tenant_ids : List String
  pub total_queued : ℕ

-- `events_by_tenant`
abbrev pub add_to_group :
    Database → MessageEvent → Dict (List MessageEvent) → Dict (List MessageEvent)
add_to_group db e groups =
    let tenant = tenant_of db e in
    Dict.insert tenant (get_or (Dict.lookup tenant groups) [] ++ e ∷ []) groups

unfoldable pub group_events :
    Database → List MessageEvent → Dict (List MessageEvent) → Dict (List MessageEvent)
group_events db [] groups = groups
group_events db (e ∷ es) groups = group_events db es (add_to_group db e groups)

-- `[e["event_id"] for e in tenant_events if e.get("message_id") in acked]`
unfoldable pub acked_ids : Database → List String → List MessageEvent → List ℕ
acked_ids db acked es = map (λ e. e.id) (filter (λ e. any (λ i. i ==ˢ message_id db e) acked) es)

-- `next_sync if next_sync else now`
abbrev pub next_or : Option ℕ → ℕ → ℕ
next_or none now = now
next_or (some zero) now = now
next_or (some (suc n)) now = suc n

abbrev pub set_last_sync : String → ℕ → Reporter → Reporter
set_last_sync tenant t r = record r { last_sync = Dict.insert tenant t r.last_sync }

-- What follows a call for a tenant.
unfoldable pub acknowledge :
    Database → ℕ → String → List MessageEvent → Sent × Reporter → Progress → Progress
unfolding acked_ids
acknowledge db now tenant es (failed, r) s = record s { reporter = r }
acknowledge db now tenant es (processed acked queued next, r) s = record s {
  reporter = set_last_sync tenant (next_or next now) r;
  total_queued = s.total_queued + queued;
  acked_event_ids = s.acked_event_ids ++ acked_ids db acked es;
}

-- The call for one tenant with events, if its row was found.
unfoldable pub sync_found :
    Settings
    → (String → Reply)
    → ℕ
    → Database
    → String
    → List MessageEvent
    → Option Tenant
    → Progress
    → Progress
unfolding acknowledge send_delivery_reports
sync_found cfg reply now db id es none s = s
sync_found cfg reply now db id es (some t) s =
    let payloads = events_to_payloads db es in
    if has_sync_url t
    then acknowledge db now id es (send_reports_to_tenant id (reply id) payloads s.reporter) s
    else if cfg.client_sync_url
    then acknowledge db now id es (send_delivery_reports cfg (reply id) payloads s.reporter) s
    else s

unfoldable pub sync_tenant :
    Settings → (String → Reply) → ℕ → Database → String → List MessageEvent → Progress → Progress
unfolding sync_found
sync_tenant cfg reply now db id es s =
    sync_found cfg reply now db id es (get_tenant db id)
      (record s { called_tenant_ids = id ∷ s.called_tenant_ids })

-- The first loop.
unfoldable pub sync_groups :
    Settings → (String → Reply) → ℕ → Database → Dict (List MessageEvent) → Progress → Progress
unfolding sync_tenant
sync_groups cfg reply now db [] s = s
sync_groups cfg reply now db ((id, es) ∷ groups) s =
    sync_groups cfg reply now db groups (sync_tenant cfg reply now db id es s)

-- Whether the second loop calls a tenant: active, without events, the target of `wake` if there is one,
-- not called for a while, with a URL.
unfoldable pub is_polled : Option String → ℕ → Tenant → Progress → Bool
is_polled target now t s =
    not (is_empty t.id)
    && t.active
    && not (any (λ i. i ==ˢ t.id) s.called_tenant_ids)
    && (not (is_truthy target) || (get_or target "" ==ˢ t.id))
    && not (ltb now (get_or (Dict.lookup t.id s.reporter.last_sync) 0 + sync_interval))
    && has_sync_url t

unfoldable pub poll_tenant :
    (String → Reply) → Option String → ℕ → Database → Tenant → Progress → Progress
unfolding is_polled acknowledge
poll_tenant reply target now db t s =
    if is_polled target now t s
    then acknowledge db now t.id [] (send_reports_to_tenant t.id (reply t.id) [] s.reporter) s
    else s

-- The second loop.
unfoldable pub poll_tenants :
    (String → Reply) → Option String → ℕ → Database → List Tenant → Progress → Progress
unfolding poll_tenant
poll_tenants reply target now db [] s = s
poll_tenants reply target now db (t ∷ ts) s =
    poll_tenants reply target now db ts (poll_tenant reply target now db t s)

-- `tenants.list_all()` in the enterprise edition: the rows in the order of their ids.
unfoldable pub insert_tenant : Tenant → List Tenant → List Tenant
insert_tenant t [] = t ∷ []
insert_tenant t (u ∷ us) =
    let rest = insert_tenant t us in
    if leb_text (codes t.id) (codes u.id) then t ∷ u ∷ us else u ∷ rest

unfoldable pub list_all : List Tenant → List Tenant
unfolding insert_tenant
list_all [] = []
list_all (t ∷ ts) = insert_tenant t (list_all ts)

-- `_apply_retention`, without the gauge of the queue.
unfoldable pub apply_retention : Settings → ℕ → Reporter → Reporter
apply_retention cfg now r =
    if ltb 0 cfg.retention_seconds
    then record r { db = (remove_fully_reported_before (now - cfg.retention_seconds) r.db).1 }
    else r

-- The end of the cycle: `mark_reported` does nothing without ids.
unfoldable pub finish_cycle : Settings → ℕ → Progress → Reporter
unfolding apply_retention
finish_cycle cfg now s =
    apply_retention cfg now
      (record s.reporter { db = mark_reported s.acked_event_ids now s.reporter.db })

-- The cycle from the events that were fetched on, up to the call of `list_all`.
unfoldable pub start_cycle : Settings → (String → Reply) → ℕ → Reporter → Progress
unfolding sync_groups group_events
start_cycle cfg reply now r =
    sync_groups cfg reply now r.db (group_events r.db (fetch_unreported cfg.batch_size r.db) [])
      (record {
        reporter = record r { run_now_tenant_id = none };
        acked_event_ids = [];
        called_tenant_ids = [];
        total_queued = 0;
      })

-- The number of queued messages, or none for the exception: without the enterprise edition the table of
-- tenants has no method `list_all`.
unfoldable pub process_cycle : Settings → (String → Reply) → ℕ → Reporter → Option ℕ × Reporter
unfolding start_cycle poll_tenants list_all finish_cycle
process_cycle cfg reply now r =
    if not cfg.active
    then (some 0, r)
    else if cfg.enterprise
    then (let s =
          poll_tenants reply r.run_now_tenant_id now r.db (list_all r.db.tenants)
            (start_cycle cfg reply now r) in
        (some s.total_queued, finish_cycle cfg now s))
    else (none, (start_cycle cfg reply now r).reporter)
