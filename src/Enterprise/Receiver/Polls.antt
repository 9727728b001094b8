-- ===== src/Enterprise/Receiver/Polls.antt =====
-- What a second poll does.
use genro_mail_proxy.Prelude.{
  ℕ, String, ◌≡◌, refl, ap, ◌∙◌, sym, ◌≤◌, true, false, Option, none, some, List, [], ◌∷◌, ltb,
  arith, filter, is_some, All, inl, inr, Bool-cases, if◌then◌else◌,
}
use genro_mail_proxy.Prelude.Text.{Text}
use genro_mail_proxy.Enterprise.Bounce.Report.{BounceInfo}
use genro_mail_proxy.Enterprise.Receiver.{
  BounceReceiver, ImapMessage, fetch_each, fetch_since_uid, is_recreated, select_folder,
  process_message, process_messages, process_bounces,
}

email_of : {Email : Type 0} → (o : Option Email) → is_some o ≡ true → (e : Email) × (o ≡ some e)
email_of none given = cc given
email_of (some e) given = (e, refl)

same_recreated : (o : Option ℕ) (v : ℕ) → o ≡ some v → is_recreated o v ≡ false
same_recreated none v same = refl
same_recreated (some u) v same = ground (arith, same)

select_folder-again : (v : ℕ) (r : BounceReceiver) → r.uidvalidity ≡ some v → select_folder v r ≡ r
unfolding select_folder
select_folder-again v r same =
    let last : (if is_recreated r.uidvalidity v then 0 else r.last_uid) ≡ r.last_uid =
      rw (same_recreated r.uidvalidity v same) refl in
    λ i. record r { last_uid = last i; uidvalidity = sym same i }

module _ {Email : Type 0} (string : Text → String) (parse : Email → BounceInfo) where
  uidvalidity-process_messages :
      (now : ℕ) (ms : List (ImapMessage Email)) (r : BounceReceiver)
      → (process_messages string parse now ms r).uidvalidity ≡ r.uidvalidity
  unfolding process_messages process_message
  uidvalidity-process_messages now [] r = refl
  uidvalidity-process_messages now (m ∷ ms) r =
      uidvalidity-process_messages now ms (process_message string parse now m r)

  last_uid-process_messages :
      (now : ℕ) (ms : List (ImapMessage Email)) (r : BounceReceiver)
      → r.last_uid ≤ (process_messages string parse now ms r).last_uid
  unfolding process_messages process_message
  last_uid-process_messages now [] r = omega arith
  last_uid-process_messages now (m ∷ ms) r =
      ground (arith, last_uid-process_messages now ms (process_message string parse now m r))

  -- Every number above the last one is read, if the server gives its email.
  nothing_above :
      (fetch : ℕ → Option Email) (now last : ℕ) (us : List ℕ) (r : BounceReceiver)
      → All (λ u. is_some (fetch u) ≡ true) us
      → last ≤ r.last_uid
      → (k : ℕ)
      → (process_messages string parse now
          (fetch_each fetch (filter (λ u. ltb last u) us))
          r).last_uid
        ≤ k
      → filter (λ u. ltb k u) us ≡ []
  unfolding process_messages process_message fetch_each
  nothing_above fetch now last [] r given low k high = refl
  nothing_above fetch now last (u ∷ us) r (given, rest) low k high =
      elim (Bool-cases (ltb last u)) [
        | inl above ↦
            let (e, found) = email_of (fetch u) given in
            let m : ImapMessage Email = record { uid = u; raw = e } in
            let r1 = process_message string parse now m r in
            let reached =
              last_uid-process_messages now (fetch_each fetch (filter (λ u. ltb last u) us)) r1 in
            let low1 : last ≤ r1.last_uid = ground (arith, low) in
            ground (arith, above, found, reached, nothing_above fetch now last us r1 rest low1 k)
        | inr below ↦ ground (
          arith,
          below,
          low,
          last_uid-process_messages now (fetch_each fetch (filter (λ u. ltb last u) us)) r,
          nothing_above fetch now last us r rest low k,
        )
      ]

  nothing_new :
      (search : ℕ → List ℕ) (fetch : ℕ → Option Email) (now v : ℕ) (r : BounceReceiver)
      → r.uidvalidity ≡ some v
      → filter (λ u. ltb r.last_uid u) (search r.last_uid) ≡ []
      → process_bounces string parse search fetch now v r ≡ r
  unfolding process_bounces process_messages fetch_since_uid fetch_each
  nothing_new search fetch now v r same none_above =
      let poll : BounceReceiver → BounceReceiver =
        λ s. process_messages string parse now (fetch_since_uid search fetch s.last_uid) s in
      ap poll (select_folder-again v r same)
      ∙ ap (λ us. process_messages string parse now (fetch_each fetch us) r) none_above

  -- As long as the mailbox is the same, which answers a search with its numbers above the one asked for
  -- and maybe with others, and gives each of its emails, a second poll changes nothing: no bounce is
  -- recorded twice.
  pub process_bounces_again :
      (search : ℕ → List ℕ) (fetch : ℕ → Option Email) (uids : List ℕ) (now later v : ℕ)
      (r : BounceReceiver)
      → ((n : ℕ) → filter (λ u. ltb n u) (search n) ≡ filter (λ u. ltb n u) uids)
      → All (λ u. is_some (fetch u) ≡ true) uids
      → process_bounces string parse search fetch later v
          (process_bounces string parse search fetch now v r)
        ≡ process_bounces string parse search fetch now v r
  unfolding process_bounces fetch_since_uid select_folder
  process_bounces_again search fetch uids now later v r answers given =
      let sel = select_folder v r in
      let after = process_bounces string parse search fetch now v r in
      let high =
        ap (λ us. (process_messages string parse now (fetch_each fetch us) sel).last_uid)
          (answers sel.last_uid) in
      nothing_new search fetch later v after
        (uidvalidity-process_messages now (fetch_since_uid search fetch sel.last_uid) sel)
        (answers after.last_uid
          ∙ nothing_above fetch now sel.last_uid uids sel given (omega arith) after.last_uid
              (ground (arith, high)))
