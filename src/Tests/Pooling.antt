-- ===== src/Tests/Pooling.antt =====
-- The connection pool at small inputs.
use genro_mail_proxy.Prelude.{◌≤◌, ◌+◌, true, [], ◌∷◌, ◌==ˢ◌, length, count}
use genro_mail_proxy.Prelude.Dict
use genro_mail_proxy.Smtp.Pool.{
  SmtpPool, fresh, idle_of, try_acquire, take_turn, take_slot, connected, acquire,
}
use genro_mail_proxy.Smtp.Pool.Bounds.{
  System, tries, connects, Reach, start, next, tracked, Reach-limit,
}
use genro_mail_proxy.Smtp.Pool.Fresh.{acquire_lem, owed, EndsWith}

-- One connection is in use, number 7, and number 5 is idle.
abbrev pool : SmtpPool
pool = record {
  ttl = 300;
  max_per_account = 2;
  idle = ("smtp.acme.com:587:news", fresh 5 "smtp.acme.com:587:news" 100 ∷ []) ∷ [];
  active_count = ("smtp.acme.com:587:news", 1) ∷ [];
  connection_keys = (7, "smtp.acme.com:587:news") ∷ [];
}

-- A task takes the one slot of a pool, connects and gives the connection back.
abbrev slot_taken : System
slot_taken = record {
  pool = record {
    ttl = 300;
    max_per_account = 1;
    idle = [];
    active_count = ("k", 1) ∷ [];
    connection_keys = [];
  };
  pending = "k" ∷ [];
}

first_step : Reach 300 1 slot_taken
unfolding Dict.lookup Dict.insert try_acquire take_turn take_slot
first_step = next start (tries 100 (λ _. true) "k" _)

two_steps : Reach 300 1 (record { pool = connected 7 "k" slot_taken.pool; pending = [] })
two_steps = next first_step (connects 7 "k" [] [] slot_taken.pool)

Reach-limit_example :
    length (idle_of (connected 7 "k" slot_taken.pool) "k")
      + (tracked "k" (connected 7 "k" slot_taken.pool).connection_keys + count (λ j. j ==ˢ "k") [])
    ≤ 1
Reach-limit_example = Reach-limit 300 1 _ two_steps "k"

acquire_lem_example :
    EndsWith
      (acquire 2 (λ n. 200 + n) (λ _. λ _. true) "smtp.acme.com:587:news" pool)
      (owed (λ n. 200 + n) (λ _. λ _. true) "smtp.acme.com:587:news" pool)
unfolding Dict.lookup
acquire_lem_example = acquire_lem (λ n. 200 + n) (λ _. λ _. true) "smtp.acme.com:587:news" pool
