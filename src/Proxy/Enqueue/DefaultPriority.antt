-- ===== src/Proxy/Enqueue/DefaultPriority.antt =====
-- What becomes of the default priority of a batch.
use genro_mail_proxy.Prelude.{
  ℕ, String, ◌≡◌, refl, ap, true, Option, none, some, arith, eq_refl, get_or,
}
use genro_mail_proxy.Prelude.Int.{pos}
use genro_mail_proxy.Prelude.Json
use genro_mail_proxy.Prelude.Json.{Json, null, num, obj, Fields, end, field, truth, lookup_field}
use genro_mail_proxy.Queue.{Database}
use genro_mail_proxy.Proxy.Priority.{normalise_priority, priority_of}
use genro_mail_proxy.Proxy.Enqueue.{
  get_key, put_field, set_default, validate_enqueue_payload, Screened, reject_item, screen_valid,
  screen_checked, screen_item,
}

lookup-put_field :
    (k : String) (v : Json) (fs : Fields) → lookup_field k (put_field k v fs) ≡ some v
unfolding lookup_field put_field
lookup-put_field k v end = rw (eq_refl k) refl
lookup-put_field k v (field j w fs) = ground (arith, eq_refl k, lookup-put_field k v fs)

default_is_set :
    (fs : Fields)
    → Json.lookup "priority" (obj fs) ≡ none
    → Json.lookup "priority" (set_default "priority" (num (pos 2)) (obj fs)) ≡ some (num (pos 2))
unfolding set_default Json.lookup
default_is_set fs missing = ground (arith, missing, lookup-put_field "priority" (num (pos 2)) fs)

-- An item that names its id, tenant and account.
abbrev pub IsNamed : Fields → Type 0
IsNamed fs =
    (truth (get_key "id" (obj fs)) ≡ true)
    × (truth (get_key "tenant_id" (obj fs)) ≡ true)
    × (truth (get_key "account_id" (obj fs)) ≡ true)

-- The validation gives it the priority 2.
validated_priority :
    (db : Database) (fs : Fields)
    → IsNamed fs
    → Json.lookup "priority" (obj fs) ≡ none
    → get_key "priority" (validate_enqueue_payload db (obj fs)).1 ≡ num (pos 2)
unfolding validate_enqueue_payload
validated_priority db fs h missing =
    rw (h.0, h.1, h.2) (ap (λ o. get_or o null) (default_is_set fs missing))

normalise_priority-same :
    (v d e : Json) → v ≡ num (pos 2) → normalise_priority v d ≡ normalise_priority v e
unfolding normalise_priority priority_of
normalise_priority-same v d e two = rw two refl

screen_checked-same :
    (d e : Json) (uuid : String) (now : ℕ) (o : Option String) (item : Json) (st : Screened)
    → get_key "priority" item ≡ num (pos 2)
    → screen_checked d uuid now (o, item) st ≡ screen_checked e uuid now (o, item) st
screen_checked-same d e uuid now none item st two =
    ap (λ p. screen_valid p.0 item st) (normalise_priority-same (get_key "priority" item) d e two)
screen_checked-same d e uuid now (some r) item st two =
    ap (λ p. reject_item p.0 uuid now item r st)
      (normalise_priority-same (get_key "priority" item) d e two)

-- The default priority of a batch is not read for an item that names its id, tenant and account and
-- has no priority: it is screened alike under every default, since the validation has put the
-- priority 2 in.
pub screen_item-default :
    (d e : Json) (uuid : String) (now : ℕ) (fs : Fields) (st : Screened)
    → IsNamed fs
    → Json.lookup "priority" (obj fs) ≡ none
    → screen_item d uuid now (obj fs) st ≡ screen_item e uuid now (obj fs) st
unfolding screen_item
screen_item-default d e uuid now fs st h missing =
    let checked = validate_enqueue_payload st.db (obj fs) in
    screen_checked-same d e uuid now checked.0 checked.1 st (validated_priority st.db fs h missing)
