-- ===== src/Proxy/SyncStatus/Agreement.antt =====
-- What the status says of a tenant, and what the reporter does.
use genro_mail_proxy.Prelude.{
  ℕ, ◌+◌, ◌≤◌, ◌≡◌, true, false, not, Option, none, some, ltb, arith, any, get_or, is_empty, ◌==ˢ◌,
}
use genro_mail_proxy.Prelude.Dict
use genro_mail_proxy.Queue.{Tenant}
use genro_mail_proxy.Reporter.{sync_interval, has_sync_url}
use genro_mail_proxy.Reporter.Cycle.{Progress, is_polled}
use genro_mail_proxy.Proxy.SyncStatus.{sync_status, is_sync_due}

due_interval :
    (now : ℕ) (o : Option ℕ)
    → sync_interval ≤ now
    → not (ltb now (get_or o 0 + sync_interval)) ≡ is_sync_due now o
due_interval now none late = ground (arith, late)
due_interval now (some last) late = ground arith

-- A tenant that has a URL, is active and was not called yet in a cycle without a target is called by its
-- second loop exactly if the status says that its sync is due, from the 300th second of the epoch on.
is_polled-sync_status :
    (now : ℕ) (t : Tenant) (s : Progress)
    → sync_interval ≤ now
    → t.active ≡ true
    → has_sync_url t ≡ true
    → is_empty t.id ≡ false
    → any (λ i. i ==ˢ t.id) s.called_tenant_ids ≡ false
    → is_polled none now t s ≡ (sync_status now s.reporter t).next_sync_due
unfolding is_polled sync_status
is_polled-sync_status now t s late active url named uncalled = ground (
  arith,
  active,
  url,
  named,
  uncalled,
  due_interval now (Dict.lookup t.id s.reporter.last_sync) late,
)
