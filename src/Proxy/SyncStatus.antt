-- ===== src/Proxy/SyncStatus.antt =====
-- The command `listTenantsSyncStatus` of `_execute_command` in src/core/mail_proxy/proxy.py, over the
-- state of the reporter.
pub mod Agreement
use genro_mail_proxy.Prelude.{
  ℕ, ◌+◌, String, Bool, true, false, Option, none, some, List, ltb, if◌then◌else◌, map, not,
}
use genro_mail_proxy.Prelude.Dict
use genro_mail_proxy.Queue.{Tenant}
use genro_mail_proxy.Reporter.{Settings, Reporter, sync_interval}
use genro_mail_proxy.Reporter.Cycle.{list_all}

pub record SyncStatus : Type 0 where
  pub id : String
  pub name : Option String
  pub active : Bool
  pub client_base_url : Option String
  pub last_sync_ts : Option ℕ
  pub next_sync_due : Bool
  pub in_dnd : Bool

-- Whether the time of the last sync lies ahead: "do not disturb".
abbrev pub is_ahead : ℕ → Option ℕ → Bool
is_ahead now none = false
is_ahead now (some last) = ltb now last

-- A time ahead is not due; else the sync is due after the interval.
abbrev pub is_sync_due : ℕ → Option ℕ → Bool
is_sync_due now none = true
is_sync_due now (some last) = if ltb now last then false else not (ltb now (last + sync_interval))

unfoldable pub sync_status : ℕ → Reporter → Tenant → SyncStatus
sync_status now r t =
    let last = Dict.lookup t.id r.last_sync in
    record {
      id = t.id;
      name = t.name;
      active = t.active;
      client_base_url = t.client_base_url;
      last_sync_ts = last;
      next_sync_due = is_sync_due now last;
      in_dnd = is_ahead now last;
    }

-- None is the exception: without the enterprise edition there is no `list_all`.
unfoldable pub list_tenants_sync_status : Settings → ℕ → Reporter → Option (List SyncStatus)
unfolding sync_status
list_tenants_sync_status cfg now r =
    if cfg.enterprise then some (map (sync_status now r) (list_all r.db.tenants)) else none
