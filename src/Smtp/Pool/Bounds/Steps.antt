-- ===== src/Smtp/Pool/Bounds/Steps.antt =====
-- Each step under the lock keeps the bound.
use genro_mail_proxy.Prelude.{
  ℕ, suc, String, ◌≡◌, refl, ap, Bool, true, false, not, ◌||◌, some, List, [], ◌∷◌, ◌++◌, ltb,
  ◌==ˢ◌, arith, length, count-append, inl, inr, Bool-cases, Option-cases,
}
use genro_mail_proxy.Smtp.Pool.Bounds.Counts.{
  tracked-untrack, untrack-key_of, System, waiting, IsValid, taken_after, freed_after, same_counts,
  idle_after,
}
use genro_mail_proxy.Smtp.Pool.{
  PooledConnection, fresh, age, key_of, SmtpPool, idle_of, active_of, last_of, but_last,
  length-but_last, hand_out, take_idle, take_slot, take_turn, connected, connect_failed, give_back,
  release,
}

pub take_slot-IsValid :
    (max : ℕ) (key : String) (s : System)
    → IsValid max s
    → idle_of s.pool key ≡ []
    → IsValid max (record {
      pool = (take_slot key s.pool).1;
      pending = waiting key (take_slot key s.pool).0 s.pending;
    })
unfolding take_slot
take_slot-IsValid max key s h empty =
    elim (Bool-cases (ltb (active_of s.pool key) s.pool.max_per_account)) [
      | inl room ↦ rw room (record {
        limit = h.limit;
        counted = λ k.
            rw (taken_after s.pool key k) ground (arith, h.counted k, same_counts s.pool key k);
        bounded = λ k.
            rw (taken_after s.pool key k) ground
              (arith, room, h.limit, h.bounded k, empty, same_counts s.pool key k);
      })
      | inr no_room ↦ rw no_room h
    ]

pub take_idle-IsValid :
    (max now : ℕ) (alive : ℕ → Bool) (key : String) (c : PooledConnection)
    (cs : List PooledConnection) (s : System)
    → IsValid max s
    → idle_of s.pool key ≡ c ∷ cs
    → (let r = take_turn now alive key (c ∷ cs) s.pool in
        IsValid max (record { pool = r.1; pending = waiting key r.0 s.pending }))
unfolding take_turn take_idle hand_out
take_idle-IsValid max now alive key c cs s h some_idle =
    let d = last_of c cs in
    elim (Bool-cases (ltb s.pool.ttl (age now d) || not (alive d.smtp))) [
      | inl dead ↦ rw dead (record {
        limit = h.limit;
        counted = h.counted;
        bounded = λ k.
            rw (idle_after s.pool key k (but_last c cs)) ground
              (arith, h.bounded k, some_idle, length-but_last c cs, same_counts s.pool key k);
      })
      | inr usable ↦ rw usable (record {
        limit = h.limit;
        counted = λ k. rw (taken_after s.pool key k) ground (
          arith,
          h.counted k,
          tracked-untrack k d.smtp s.pool.connection_keys,
          same_counts s.pool key k,
        );
        bounded = λ k.
            rw (taken_after s.pool key k, idle_after s.pool key k (but_last c cs)) ground
              (arith, h.bounded k, some_idle, length-but_last c cs, same_counts s.pool key k);
      })
    ]

pub try_acquire-IsValid :
    (max now : ℕ) (alive : ℕ → Bool) (key : String) (s : System) (cs : List PooledConnection)
    → IsValid max s
    → idle_of s.pool key ≡ cs
    → (let r = take_turn now alive key cs s.pool in
        IsValid max (record { pool = r.1; pending = waiting key r.0 s.pending }))
unfolding take_turn
try_acquire-IsValid max now alive key s [] h empty = take_slot-IsValid max key s h empty
try_acquire-IsValid max now alive key s (c ∷ cs) h shape =
    take_idle-IsValid max now alive key c cs s h shape

pub connected-IsValid :
    (max smtp : ℕ) (key : String) (before after : List String) (p : SmtpPool)
    → IsValid max (record { pool = p; pending = before ++ key ∷ after })
    → IsValid max (record { pool = connected smtp key p; pending = before ++ after })
connected-IsValid max smtp key before after p h = record {
  limit = h.limit;
  counted = λ k. ground (
    arith,
    h.counted k,
    count-append (λ j. j ==ˢ k) before (key ∷ after),
    count-append (λ j. j ==ˢ k) before after,
    tracked-untrack k smtp p.connection_keys,
  );
  bounded = h.bounded;
}

pub connect_failed-IsValid :
    (max : ℕ) (key : String) (before after : List String) (p : SmtpPool)
    → IsValid max (record { pool = p; pending = before ++ key ∷ after })
    → IsValid max (record { pool = connect_failed key p; pending = before ++ after })
connect_failed-IsValid max key before after p h = record {
  limit = h.limit;
  counted = λ k. rw (freed_after p key k) ground (
    arith,
    h.counted k,
    count-append (λ j. j ==ˢ k) before (key ∷ after),
    count-append (λ j. j ==ˢ k) before after,
    same_counts p key k,
  );
  bounded = λ k. rw (freed_after p key k) ground (arith, h.bounded k, same_counts p key k);
}

pub length_snoc :
    (c : PooledConnection) (cs : List PooledConnection) → length (cs ++ c ∷ []) ≡ suc (length cs)
length_snoc c [] = refl
length_snoc c (d ∷ cs) = ap suc (length_snoc c cs)

pub give_back-IsValid :
    (max now : ℕ) (alive : Bool) (smtp : ℕ) (key : String) (s : System)
    → IsValid max s
    → key_of smtp s.pool.connection_keys ≡ some key
    → IsValid max (record s { pool = give_back now alive smtp key s.pool })
unfolding give_back
give_back-IsValid max now true smtp key s h found =
    let p = s.pool in
    record {
      limit = h.limit;
      counted = λ k. rw (freed_after p key k) (
          ground (
            arith,
            h.counted k,
            untrack-key_of k smtp key p.connection_keys found,
            same_counts p key k,
          ));
      bounded = λ k.
          rw (freed_after p key k, idle_after p key k (idle_of p key ++ fresh smtp key now ∷ []))
            (ground (
              arith,
              h.counted k,
              h.bounded k,
              untrack-key_of k smtp key p.connection_keys found,
              length_snoc (fresh smtp key now) (idle_of p key),
              same_counts p key k,
            ));
    }
give_back-IsValid max now false smtp key s h found =
    let p = s.pool in
    record {
      limit = h.limit;
      counted = λ k. rw (freed_after p key k) (
          ground (
            arith,
            h.counted k,
            untrack-key_of k smtp key p.connection_keys found,
            same_counts p key k,
          ));
      bounded = λ k. rw (freed_after p key k) (ground (arith, h.bounded k, same_counts p key k));
    }

pub release-IsValid :
    (max now : ℕ) (alive : ℕ → Bool) (smtp : ℕ) (s : System)
    → IsValid max s
    → IsValid max (record s { pool = release now alive smtp s.pool })
unfolding release
release-IsValid max now alive smtp s h = elim (Option-cases (key_of smtp s.pool.connection_keys)) [
  | inl unknown ↦ rw (unknown, release) h
  | inr (key, found) ↦
      rw (found, release) (give_back-IsValid max now (alive smtp) smtp key s h found)
]
