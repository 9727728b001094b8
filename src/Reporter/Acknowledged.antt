-- ===== src/Reporter/Acknowledged.antt =====
-- Which events a cycle acknowledges: the groups and the loops, against the events that were fetched.
mod Calls
pub use Calls.*
use genro_mail_proxy.Prelude.{
  ℕ, zero, suc, String, ◌≡◌, refl, sym, ap, ◌∙◌, Bool, true, false, ◌&&◌, ◌||◌, not, Option, none,
  some, List, [], ◌∷◌, ◌++◌, ◌==◌, ◌==ˢ◌, if◌then◌else◌, map, filter, any, All, get_or, is_empty,
  eq_iff, eq_refl, arith, inl, inr, Bool-cases, Option-cases,
}
use genro_mail_proxy.Prelude.Dict
use genro_mail_proxy.Prelude.Dict.{Dict}
use genro_mail_proxy.Queue.{MessageEvent, Tenant, Database, get_tenant}
use genro_mail_proxy.Queue.Events.{fetch_unreported}
use genro_mail_proxy.Reporter.{
  Reply, unreachable, not_json, answered, Payload, Settings, Reporter, to_tenant, has_sync_url,
}
use genro_mail_proxy.Reporter.Payloads.{
  message_id, tenant_of, payload_of, events_to_payloads, id_of,
}
use genro_mail_proxy.Reporter.Sending.{
  Sent, failed, processed, read_reply, read_callable, add_request, send_reports_to_tenant,
  send_delivery_reports,
}
use genro_mail_proxy.Reporter.Cycle.{
  Progress, add_to_group, group_events, acked_ids, acknowledge, sync_found, sync_tenant,
  sync_groups, start_cycle, is_polled, poll_tenant, poll_tenants,
}

-- Whether an id is acknowledged when a group of events is reported.
abbrev pub by_group : Settings → (String → Reply) → Database → ℕ → String → MessageEvent → Bool
by_group cfg reply db x id e = (e.id == x) && confirmed cfg reply db id e

found :
    (cfg : Settings) (reply : String → Reply) (now x : ℕ) (db : Database) (id : String)
    (es : List MessageEvent) (row : Option Tenant) (s : Progress)
    → any (λ i. i == x) (sync_found cfg reply now db id es row s).acked_event_ids ≡ (
        any (λ i. i == x) s.acked_event_ids
        || any (λ e. (e.id == x) && confirmed_by cfg (reply id) db row e) es)
unfolding sync_found send_delivery_reports
found cfg reply now x db id es none s =
    ground (arith, any_none (λ e. e.id == x) (λ e. false) es (no_names es))
found cfg reply now x db id es (some t) s = elim (Bool-cases (has_sync_url t)) [
  | inl own ↦ rw own (
      acknowledged db now x id es (read_reply (reply id) (events_to_payloads db es)) _ s
        (λ e. is_answered (reply id)) (names_reply db (reply id) es))
  | inr shared ↦ rw shared (elim (Bool-cases cfg.client_sync_url) [
    | inl url ↦ rw url (elim (Bool-cases cfg.has_callable) [
      | inl call ↦ rw call (
          acknowledged db now x id es (read_callable (reply id) (events_to_payloads db es)) _ s
            (λ e. is_answered (reply id) && not (is_empty (message_id db e)))
            (names_callable db (reply id) es))
      | inr post ↦ rw post (
          acknowledged db now x id es (read_reply (reply id) (events_to_payloads db es)) _ s
            (λ e. is_answered (reply id) && true) (names_posted db (reply id) es))
    ])
    | inr nowhere ↦
        rw nowhere (ground (arith, any_none (λ e. e.id == x) (λ e. false) es (no_names es)))
  ])
]

-- A test over all the groups.
abbrev grouped : (String → MessageEvent → Bool) → Dict (List MessageEvent) → Bool
grouped f groups = any (λ g. any (f g.0) g.1) groups

grouped-sync_groups :
    (cfg : Settings) (reply : String → Reply) (now x : ℕ) (db : Database)
    (groups : Dict (List MessageEvent)) (s : Progress)
    → any (λ i. i == x) (sync_groups cfg reply now db groups s).acked_event_ids
      ≡ (any (λ i. i == x) s.acked_event_ids || grouped (by_group cfg reply db x) groups)
unfolding sync_groups sync_tenant
grouped-sync_groups cfg reply now x db [] s = ground arith
grouped-sync_groups cfg reply now x db ((id, es) ∷ groups) s =
    grouped-sync_groups cfg reply now x db groups (sync_tenant cfg reply now db id es s)
    ∙ ground (
      arith,
      found cfg reply now x db id es (get_tenant db id)
          (record s { called_tenant_ids = id ∷ s.called_tenant_ids }),
    )

grouped-insert :
    (f : String → MessageEvent → Bool) (id : String) (e : MessageEvent)
    (groups : Dict (List MessageEvent))
    → grouped f (Dict.insert id (get_or (Dict.lookup id groups) [] ++ e ∷ []) groups)
      ≡ (grouped f groups || f id e)
unfolding Dict.lookup Dict.insert
grouped-insert f id e [] = ground arith
grouped-insert f id e ((j, es) ∷ groups) = ground (
  arith,
  eq_iff j id,
  ap (λ k. any (f k) es) {x = j} {y = id},
  any_append (f id) es (e ∷ []),
  grouped-insert f id e groups,
)

grouped-group_events :
    (f : String → MessageEvent → Bool) (db : Database) (es : List MessageEvent)
    (groups : Dict (List MessageEvent))
    → grouped f (group_events db es groups)
      ≡ (grouped f groups || any (λ e. f (tenant_of db e) e) es)
unfolding group_events
grouped-group_events f db [] groups = ground arith
grouped-group_events f db (e ∷ es) groups =
    grouped-group_events f db es (add_to_group db e groups)
    ∙ ground (arith, grouped-insert f (tenant_of db e) e groups)

-- The first part of a cycle acknowledges the fetched events that are confirmed.
pub acked-start_cycle :
    (cfg : Settings) (reply : String → Reply) (now x : ℕ) (r : Reporter)
    → any (λ i. i == x) (start_cycle cfg reply now r).acked_event_ids
      ≡ any
          (λ e. (e.id == x) && confirmed cfg reply r.db (tenant_of r.db e) e)
          (fetch_unreported cfg.batch_size r.db)
unfolding start_cycle
acked-start_cycle cfg reply now x r =
    let es = fetch_unreported cfg.batch_size r.db in
    grouped-sync_groups cfg reply now x r.db (group_events r.db es []) _
    ∙ grouped-group_events (by_group cfg reply r.db x) r.db es []

-- The calls of the second loop acknowledge nothing.
pub acked-poll_tenants :
    (reply : String → Reply) (target : Option String) (now x : ℕ) (db : Database) (ts : List Tenant)
    (s : Progress)
    → any (λ i. i == x) (poll_tenants reply target now db ts s).acked_event_ids
      ≡ any (λ i. i == x) s.acked_event_ids
unfolding poll_tenants poll_tenant
acked-poll_tenants reply target now x db [] s = refl
acked-poll_tenants reply target now x db (t ∷ ts) s =
    acked-poll_tenants reply target now x db ts (poll_tenant reply target now db t s)
    ∙ (elim (Bool-cases (is_polled target now t s)) [
      | inl polled ↦ rw polled (
          acknowledged db now x t.id [] (read_reply (reply t.id) [])
            (add_request (to_tenant t.id []) s.reporter) s (λ e. false) tt
          ∙ ground arith)
      | inr passed ↦ rw passed refl
    ])
