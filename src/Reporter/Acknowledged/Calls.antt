-- ===== src/Reporter/Acknowledged/Calls.antt =====
-- Which events of a group one call acknowledges.
use genro_mail_proxy.Prelude.{
  ℕ, String, ◌≡◌, refl, ap, ◌∙◌, Bool, true, false, ◌&&◌, ◌||◌, not, Option, none, some, List, [],
  ◌∷◌, ◌++◌, ◌==◌, ◌==ˢ◌, if◌then◌else◌, map, filter, any, All, is_empty, eq_iff, arith,
}
use genro_mail_proxy.Queue.{MessageEvent, Tenant, Database, get_tenant}
use genro_mail_proxy.Reporter.{
  Reply, unreachable, not_json, answered, Settings, Reporter, has_sync_url,
}
use genro_mail_proxy.Reporter.Payloads.{message_id, payload_of, events_to_payloads, id_of}
use genro_mail_proxy.Reporter.Sending.{Sent, failed, processed, read_reply, read_callable}
use genro_mail_proxy.Reporter.Cycle.{Progress, acked_ids, acknowledge}

abbrev pub is_answered : Reply → Bool
is_answered unreachable = false
is_answered _ = true

-- Whether an event of a tenant's group is acknowledged, by the tenant's row: there is a URL to call, and
-- the call is answered; the callable names no message with an empty id.
abbrev pub confirmed_by : Settings → Reply → Database → Option Tenant → MessageEvent → Bool
confirmed_by cfg reply db none e = false
confirmed_by cfg reply db (some t) e =
    if has_sync_url t
    then is_answered reply
    else cfg.client_sync_url
      && is_answered reply
      && (not cfg.has_callable || not (is_empty (message_id db e)))

abbrev pub confirmed : Settings → (String → Reply) → Database → String → MessageEvent → Bool
confirmed cfg reply db id e = confirmed_by cfg (reply id) db (get_tenant db id) e

pub id_of-payload_of :
    (db : Database) (e : MessageEvent) → id_of (payload_of db e) ≡ message_id db e
unfolding payload_of
id_of-payload_of db e = ground arith

abbrev pub ids : Database → List MessageEvent → List String
ids db es = map id_of (events_to_payloads db es)

pub own_ids_weaken :
    (db : Database) (i : String) (is : List String) (es : List MessageEvent)
    → All (λ e. any (λ j. j ==ˢ message_id db e) is ≡ true) es
    → All (λ e. any (λ j. j ==ˢ message_id db e) (i ∷ is) ≡ true) es
own_ids_weaken db i is [] h = tt
own_ids_weaken db i is (e ∷ es) h = (ground (arith, h.0), own_ids_weaken db i is es h.1)

-- The ids of the payloads are those of the messages of the events.
pub own_ids :
    (db : Database) (es : List MessageEvent)
    → All (λ e. any (λ j. j ==ˢ message_id db e) (ids db es) ≡ true) es
own_ids db [] = tt
own_ids db (e ∷ es) = (
  ground (arith, id_of-payload_of db e, eq_iff (id_of (payload_of db e)) (message_id db e)),
  own_ids_weaken db (id_of (payload_of db e)) (ids db es) es (own_ids db es),
)

pub any-filter_given :
    (s : String) (is : List String)
    → any (λ j. j ==ˢ s) (filter (λ i. not (is_empty i)) is)
      ≡ (any (λ j. j ==ˢ s) is && not (is_empty s))
any-filter_given s [] = refl
any-filter_given s (i ∷ is) =
    ground (arith, eq_iff i s, eq_iff i "", eq_iff s "", any-filter_given s is)

pub any-acked_ids :
    (db : Database) (x : ℕ) (acked : List String) (es : List MessageEvent) (f : MessageEvent → Bool)
    → All (λ e. any (λ j. j ==ˢ message_id db e) acked ≡ f e) es
    → any (λ i. i == x) (acked_ids db acked es) ≡ any (λ e. (e.id == x) && f e) es
unfolding acked_ids
any-acked_ids db x acked [] f h = refl
any-acked_ids db x acked (e ∷ es) f h = ground (arith, h.0, any-acked_ids db x acked es f h.1)

pub any_append :
    {A : Type 0} (f : A → Bool) (xs ys : List A) → any f (xs ++ ys) ≡ (any f xs || any f ys)
any_append f [] ys = refl
any_append f (x ∷ xs) ys = ground (arith, any_append f xs ys)

pub any_none :
    {A : Type 0} (f g : A → Bool) (xs : List A)
    → All (λ a. false ≡ g a) xs
    → any (λ a. f a && g a) xs ≡ false
any_none f g [] h = refl
any_none f g (x ∷ xs) h = ground (arith, h.0, any_none f g xs h.1)

-- Whether a call acknowledges an event of its group.
abbrev pub names : Database → Sent → MessageEvent → Bool
names db failed e = false
names db (processed acked queued next) e = any (λ i. i ==ˢ message_id db e) acked

pub no_names : (xs : List MessageEvent) → All (λ a. false ≡ false) xs
no_names [] = tt
no_names (x ∷ xs) = (refl, no_names xs)

pub acknowledged :
    (db : Database) (now x : ℕ) (id : String) (es : List MessageEvent) (sent : Sent) (r : Reporter)
    (s : Progress) (f : MessageEvent → Bool)
    → All (λ e. names db sent e ≡ f e) es
    → any (λ i. i == x) (acknowledge db now id es (sent, r) s).acked_event_ids
      ≡ (any (λ i. i == x) s.acked_event_ids || any (λ e. (e.id == x) && f e) es)
unfolding acknowledge
acknowledged db now x id es failed r s f h = ground (arith, any_none (λ e. e.id == x) f es h)
acknowledged db now x id es (processed acked queued next) r s f h =
    any_append (λ i. i == x) s.acked_event_ids (acked_ids db acked es)
    ∙ ap (λ b. any (λ i. i == x) s.acked_event_ids || b) (any-acked_ids db x acked es f h)

pub names_reply :
    (db : Database) (reply : Reply) (es : List MessageEvent)
    → All (λ e. names db (read_reply reply (events_to_payloads db es)) e ≡ is_answered reply) es
names_reply db unreachable es = no_names es
names_reply db not_json es = own_ids db es
names_reply db (answered error not_found queued next) es = own_ids db es

pub names_posted :
    (db : Database) (reply : Reply) (es : List MessageEvent)
    → All
        (λ e.
          names db (read_reply reply (events_to_payloads db es)) e ≡ (is_answered reply && true))
        es
names_posted db unreachable es = no_names es
names_posted db not_json es = own_ids db es
names_posted db (answered error not_found queued next) es = own_ids db es

pub given_ids :
    (db : Database) (is : List String) (es : List MessageEvent)
    → All (λ e. any (λ j. j ==ˢ message_id db e) is ≡ true) es
    → All
        (λ e.
          any (λ j. j ==ˢ message_id db e) (filter (λ i. not (is_empty i)) is)
          ≡ not (is_empty (message_id db e)))
        es
given_ids db is [] h = tt
given_ids db is (e ∷ es) h =
    (any-filter_given (message_id db e) is ∙ ground (arith, h.0), given_ids db is es h.1)

pub names_callable :
    (db : Database) (reply : Reply) (es : List MessageEvent)
    → All
        (λ e.
          names db (read_callable reply (events_to_payloads db es)) e
          ≡ (is_answered reply && not (is_empty (message_id db e))))
        es
names_callable db unreachable es = no_names es
names_callable db not_json es = given_ids db (ids db es) es (own_ids db es)
names_callable db (answered error not_found queued next) es =
    given_ids db (ids db es) es (own_ids db es)
