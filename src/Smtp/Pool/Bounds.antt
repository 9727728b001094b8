-- ===== src/Smtp/Pool/Bounds.antt =====
-- How many connections of an account there are, over the interleaved steps of the tasks.
mod Counts
pub use Counts.*
mod Steps
pub use Steps.*
use genro_mail_proxy.Prelude.{
  ℕ, suc, ◌+◌, ◌≤◌, ◌-◌, String, ◌≡◌, refl, ap, ◌∙◌, Bool, true, false, not, ◌||◌, Option, none,
  some, List, [], ◌∷◌, ◌++◌, ltb, ◌==ˢ◌, eq_iff, arith, if◌then◌else◌, length, count, count-append,
  filter, map, get_or, inl, inr, Bool-cases, Option-cases,
}
use genro_mail_proxy.Prelude.Dict
use genro_mail_proxy.Prelude.Dict.{Dict}
use genro_mail_proxy.Smtp.Pool.Bounds.Counts.{
  tracked, tracked-untrack, untrack-key_of, System, waiting, Step, tries, connects, fails, releases,
  cleans, closes, Reach, start, next, IsValid, active_after, taken_after, freed_after, same_counts,
  idle_after,
}
use genro_mail_proxy.Smtp.Pool.{
  PooledConnection, fresh, age, Keys, key_of, untrack, SmtpPool, new_pool, idle_of, active_of,
  last_of, but_last, length-but_last, Turn, reused, connecting, again, full, hand_out, take_idle,
  take_slot, take_turn, try_acquire, connected, connect_failed, give_back, release, keeps,
  cleanup_key, cleanup_keys, cleanup, close_all,
}

length-filter :
    (f : PooledConnection → Bool) (cs : List PooledConnection) → length (filter f cs) ≤ length cs
length-filter f [] = omega arith
length-filter f (c ∷ cs) = ground (arith, length-filter f cs)

-- No key has more idle connections in one dict than in the other.
abbrev HasFewer : Dict (List PooledConnection) → Dict (List PooledConnection) → Type 0
HasFewer d e =
    (k : String) → length (get_or (Dict.lookup k d) []) ≤ length (get_or (Dict.lookup k e) [])

put_fewer :
    (key k : String) (v : List PooledConnection) (d : Dict (List PooledConnection))
    → length v ≤ length (get_or (Dict.lookup key d) [])
    → length (
        get_or
          (Dict.lookup k (elim v [
            | [] ↦ Dict.erase key (Dict.insert key [] d)
            | c ∷ cs ↦ Dict.insert key (c ∷ cs) d
          ]))
          [])
      ≤ length (get_or (Dict.lookup k d) [])
put_fewer key k [] d fewer =
    rw (Dict.lookup-erase key k (Dict.insert key [] d), Dict.lookup-insert key k [] d)
      (ground arith)
put_fewer key k (c ∷ cs) d fewer = rw (Dict.lookup-insert key k (c ∷ cs) d) (
    ground (
      arith,
      fewer,
      eq_iff key k,
      ap (λ j. length (get_or (Dict.lookup j d) [])) {x = key} {y = k},
    ))

cleanup_key-HasFewer :
    (ttl now : ℕ) (alive : ℕ → Bool) (key : String) (d : Dict (List PooledConnection))
    → HasFewer (cleanup_key ttl now alive key d) d
unfolding cleanup_key
cleanup_key-HasFewer ttl now alive key d k =
    put_fewer key k (filter (keeps ttl now alive) (get_or (Dict.lookup key d) [])) d
      (length-filter (keeps ttl now alive) (get_or (Dict.lookup key d) []))

cleanup_keys-HasFewer :
    (ttl now : ℕ) (alive : ℕ → Bool) (keys : List String) (d : Dict (List PooledConnection))
    → HasFewer (cleanup_keys ttl now alive keys d) d
unfolding cleanup_keys
cleanup_keys-HasFewer ttl now alive [] d k = omega arith
cleanup_keys-HasFewer ttl now alive (key ∷ keys) d k = omega (
  arith,
  cleanup_keys-HasFewer ttl now alive keys (cleanup_key ttl now alive key d) k,
  cleanup_key-HasFewer ttl now alive key d k,
)

step-IsValid : (max : ℕ) {s t : System} → Step s t → IsValid max s → IsValid max t
unfolding try_acquire cleanup
step-IsValid max (tries now alive key s) h =
    try_acquire-IsValid max now alive key s (idle_of s.pool key) h refl
step-IsValid max (connects smtp key before after p) h =
    connected-IsValid max smtp key before after p h
step-IsValid max (fails key before after p) h = connect_failed-IsValid max key before after p h
step-IsValid max (releases now alive smtp s) h = release-IsValid max now alive smtp s h
step-IsValid max (cleans now alive s) h = record {
  limit = h.limit;
  counted = h.counted;
  bounded = λ k. omega (
    arith,
    h.bounded k,
    cleanup_keys-HasFewer s.pool.ttl now alive (map (λ e. e.0) s.pool.idle) s.pool.idle k,
  );
}
step-IsValid max (closes p) h = record {
  limit = h.limit;
  counted = λ k. unfold Dict.lookup in omega arith;
  bounded = λ k. unfold Dict.lookup in omega arith;
}

Reach-IsValid : (ttl max : ℕ) (s : System) → Reach ttl max s → IsValid max s
Reach-IsValid ttl max s start = record {
  limit = refl;
  counted = λ k. unfold Dict.lookup in omega arith;
  bounded = λ k. unfold Dict.lookup in omega arith;
}
Reach-IsValid ttl max s (next r step) = step-IsValid max step (Reach-IsValid ttl max _ r)

-- In every state that the tasks can reach, the connections of an account that are idle, in use or
-- being made are together at most the bound of the pool.
pub Reach-limit :
    (ttl max : ℕ) (s : System)
    → Reach ttl max s
    → (k : String)
    → length (idle_of s.pool k)
        + (tracked k s.pool.connection_keys + count (λ j. j ==ˢ k) s.pending)
      ≤ max
Reach-limit ttl max s r k =
    let h = Reach-IsValid ttl max s r in omega (arith, h.counted k, h.bounded k)
