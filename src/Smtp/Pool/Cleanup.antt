-- ===== src/Smtp/Pool/Cleanup.antt =====
-- What `cleanup` leaves in the pool.
use genro_mail_proxy.Prelude.{
  ℕ, String, ◌≡◌, refl, ap, ◌∙◌, Bool, false, List, [], ◌∷◌, ◌==ˢ◌, eq_iff, arith, if◌then◌else◌,
  any, filter, map, get_or, inl, inr, Bool-cases,
}
use genro_mail_proxy.Prelude.Dict
use genro_mail_proxy.Prelude.Dict.{Dict}
use genro_mail_proxy.Smtp.Pool.{
  PooledConnection, SmtpPool, idle_of, keeps, cleanup_key, cleanup_keys, cleanup,
}

abbrev Idle : Type 0
Idle = Dict (List PooledConnection)

abbrev at_key : String → Idle → List PooledConnection
at_key k d = get_or (Dict.lookup k d) []

filter_again :
    (f : PooledConnection → Bool) (cs : List PooledConnection)
    → filter f (filter f cs) ≡ filter f cs
filter_again f [] = refl
filter_again f (c ∷ cs) = ground (arith, filter_again f cs, ap (λ xs. c ∷ xs) (filter_again f cs))

put_back :
    (key k : String) (v : List PooledConnection) (d : Idle)
    → at_key k (elim v [
      | [] ↦ Dict.erase key (Dict.insert key [] d)
      | c ∷ cs ↦ Dict.insert key (c ∷ cs) d
    ])
      ≡ (if key ==ˢ k then v else at_key k d)
put_back key k [] d =
    rw (Dict.lookup-erase key k (Dict.insert key [] d), Dict.lookup-insert key k [] d)
      (ground arith)
put_back key k (c ∷ cs) d = rw (Dict.lookup-insert key k (c ∷ cs) d) (ground arith)

at-cleanup_key :
    (ttl now : ℕ) (alive : ℕ → Bool) (key k : String) (d : Idle)
    → at_key k (cleanup_key ttl now alive key d)
      ≡ (if key ==ˢ k then filter (keeps ttl now alive) (at_key k d) else at_key k d)
unfolding cleanup_key
at-cleanup_key ttl now alive key k d =
    put_back key k (filter (keeps ttl now alive) (at_key key d)) d
    ∙ ground
        (arith, eq_iff key k, ap (λ j. filter (keeps ttl now alive) (at_key j d)) {x = key} {y = k})

at-cleanup_keys :
    (ttl now : ℕ) (alive : ℕ → Bool) (keys : List String) (k : String) (d : Idle)
    → at_key k (cleanup_keys ttl now alive keys d)
      ≡ (if any (λ j. j ==ˢ k) keys then filter (keeps ttl now alive) (at_key k d) else at_key k d)
unfolding cleanup_keys
at-cleanup_keys ttl now alive [] k d = refl
at-cleanup_keys ttl now alive (key ∷ keys) k d =
    at-cleanup_keys ttl now alive keys k (cleanup_key ttl now alive key d)
    ∙ rw (at-cleanup_key ttl now alive key k d)
        (ground (arith, filter_again (keeps ttl now alive) (at_key k d)))

at_absent :
    (k : String) (d : Idle) → any (λ j. j ==ˢ k) (map (λ e. e.0) d) ≡ false → at_key k d ≡ []
unfolding Dict.lookup
at_absent k [] absent = refl
at_absent k ((j, cs) ∷ d) absent = ground (arith, at_absent k d, absent)

-- After a cleanup the idle connections of every account are those that were idle before, answer and are
-- within their time to live, in the same order.
idle_of-cleanup :
    (now : ℕ) (alive : ℕ → Bool) (p : SmtpPool) (key : String)
    → idle_of (cleanup now alive p) key ≡ filter (keeps p.ttl now alive) (idle_of p key)
unfolding cleanup
idle_of-cleanup now alive p key =
    at-cleanup_keys p.ttl now alive (map (λ e. e.0) p.idle) key p.idle
    ∙ (elim (Bool-cases (any (λ j. j ==ˢ key) (map (λ e. e.0) p.idle))) [
      | inl present ↦ rw present refl
      | inr absent ↦ rw absent (rw (at_absent key p.idle absent) refl)
    ])
