-- ===== src/Smtp/RateLimiter/Fields.antt =====
-- What each method does to the history and to the reserved slots of every account.
use genro_mail_proxy.Prelude.{
  ℕ, ◌-◌, String, ◌≡◌, [], ◌∷◌, ◌++◌, arith, eq_iff, ◌==ˢ◌, if◌then◌else◌,
}
use genro_mail_proxy.Prelude.Dict
use genro_mail_proxy.Smtp.RateLimiter.{
  RateLimiter, history, slots, pop_old, cleanup_old_entries, release_slot, log_send,
  purge_for_account,
}

module _ (r : RateLimiter) (a b : String) (now : ℕ) where
  pub history-cleanup :
      history (cleanup_old_entries r a now) b
      ≡ (if a ==ˢ b then pop_old now (history r b) else history r b)
  unfolding history cleanup_old_entries
  history-cleanup =
      ground (arith, eq_iff a b, Dict.lookup-insert a b (pop_old now (history r a)) r.send_history)

  pub slots-cleanup : slots (cleanup_old_entries r a now) b ≡ slots r b
  unfolding slots cleanup_old_entries
  slots-cleanup = ground arith

  pub slots-release : slots (release_slot r a) b ≡ (if a ==ˢ b then slots r b - 1 else slots r b)
  unfolding slots release_slot
  slots-release = ground (arith, eq_iff a b, Dict.lookup-insert a b (slots r a - 1) r.in_flight)

  pub history-release : history (release_slot r a) b ≡ history r b
  unfolding history release_slot
  history-release = ground arith

  pub slots-log_send : slots (log_send r a now) b ≡ (if a ==ˢ b then slots r b - 1 else slots r b)
  unfolding slots log_send
  slots-log_send = ground (arith, eq_iff a b, Dict.lookup-insert a b (slots r a - 1) r.in_flight)

  pub history-log_send :
      history (log_send r a now) b ≡ (if a ==ˢ b then history r b ++ now ∷ [] else history r b)
  unfolding history log_send
  history-log_send = ground (
    arith,
    eq_iff a b,
    Dict.lookup-insert a b (history r a ++ now ∷ []) r.send_history,
    Dict.lookup-insert a b (history r a ++ now ∷ []) (release_slot r a).send_history,
  )

  pub slots-purge : slots (purge_for_account r a).1 b ≡ (if a ==ˢ b then 0 else slots r b)
  unfolding slots purge_for_account
  slots-purge = ground (arith, eq_iff a b, Dict.lookup-erase a b r.in_flight)

  pub history-purge : history (purge_for_account r a).1 b ≡ (if a ==ˢ b then [] else history r b)
  unfolding history purge_for_account
  history-purge = ground (arith, eq_iff a b, Dict.lookup-erase a b r.send_history)
