-- ===== src/Smtp/Pool/Bounds/Counts.antt =====
-- The states of the pool with its tasks, the steps between them, and what is counted.
use genro_mail_proxy.Prelude.{
  ℕ, ◌+◌, ◌≤◌, ◌-◌, String, ◌≡◌, refl, ap, ◌∙◌, Bool, true, Option, none, some, List, [], ◌∷◌, ◌++◌,
  ◌==ˢ◌, eq_iff, arith, if◌then◌else◌, length, count, get_or,
}
use genro_mail_proxy.Prelude.Dict
use genro_mail_proxy.Prelude.Dict.{Dict}
use genro_mail_proxy.Smtp.Pool.{
  PooledConnection, Keys, key_of, untrack, SmtpPool, new_pool, idle_of, active_of, Turn, reused,
  connecting, again, full, try_acquire, connected, connect_failed, release, cleanup, close_all,
}

-- The connections in use under a key.
abbrev pub tracked : String → Keys → ℕ
tracked k ks = count (λ e. e.1 ==ˢ k) ks

pub tracked-untrack : (k : String) (i : ℕ) (ks : Keys) → tracked k (untrack i ks) ≤ tracked k ks
unfolding untrack
tracked-untrack k i [] = omega arith
tracked-untrack k i ((j, key) ∷ ks) = ground (arith, tracked-untrack k i ks)

pub untrack-key_of :
    (k : String) (i : ℕ) (key : String) (ks : Keys)
    → key_of i ks ≡ some key
    → (if key ==ˢ k then 1 else 0) + tracked k (untrack i ks) ≤ tracked k ks
unfolding untrack key_of
untrack-key_of k i key [] found = cc found
untrack-key_of k i key ((j, other) ∷ ks) found =
    ground (arith, untrack-key_of k i key ks, tracked-untrack k i ks, found)

-- The pool, and the keys for which a task that holds a slot is connecting.
pub record System : Type 0 where
  pub pool : SmtpPool
  pub pending : List String

abbrev pub waiting : String → Turn → List String → List String
waiting key connecting ks = key ∷ ks
waiting key (reused i) ks = ks
waiting key (again i) ks = ks
waiting key full ks = ks

-- A step of some task. `close_all` comes when no task is connecting.
pub data Step : System → System → Type 0 where
  tries :
      (now : ℕ) (alive : ℕ → Bool) (key : String) (s : System)
      → Step s (record {
        pool = (try_acquire now alive key s.pool).1;
        pending = waiting key (try_acquire now alive key s.pool).0 s.pending;
      })
  connects :
      (smtp : ℕ) (key : String) (before after : List String) (p : SmtpPool)
      → Step
          (record { pool = p; pending = before ++ key ∷ after })
          (record { pool = connected smtp key p; pending = before ++ after })
  fails :
      (key : String) (before after : List String) (p : SmtpPool)
      → Step
          (record { pool = p; pending = before ++ key ∷ after })
          (record { pool = connect_failed key p; pending = before ++ after })
  releases :
      (now : ℕ) (alive : ℕ → Bool) (smtp : ℕ) (s : System)
      → Step s (record s { pool = release now alive smtp s.pool })
  cleans :
      (now : ℕ) (alive : ℕ → Bool) (s : System)
      → Step s (record s { pool = cleanup now alive s.pool })
  closes :
      (p : SmtpPool)
      → Step (record { pool = p; pending = [] }) (record { pool = close_all p; pending = [] })

pub data Reach (ttl max : ℕ) : System → Type 0 where
  start : Reach ttl max (record { pool = new_pool ttl max; pending = [] })
  next : {s t : System} → Reach ttl max s → Step s t → Reach ttl max t

-- Each connection of an account is idle, in use, or being made: together at most the bound.
pub record IsValid (max : ℕ) (s : System) : Type 0 where
  pub limit : s.pool.max_per_account ≡ max
  pub counted :
      (k : String)
      → tracked k s.pool.connection_keys + count (λ j. j ==ˢ k) s.pending ≤ active_of s.pool k
  pub bounded : (k : String) → length (idle_of s.pool k) + active_of s.pool k ≤ max

-- The values after a change, at each key.
pub active_after :
    (p : SmtpPool) (key k : String) (n : ℕ)
    → get_or (Dict.lookup k (Dict.insert key n p.active_count)) 0
      ≡ (if key ==ˢ k then n else active_of p k)
active_after p key k n = rw (Dict.lookup-insert key k n p.active_count) (ground arith)

pub taken_after :
    (p : SmtpPool) (key k : String)
    → get_or (Dict.lookup k (Dict.insert key (active_of p key + 1) p.active_count)) 0
      ≡ (if key ==ˢ k then active_of p key + 1 else active_of p k)
taken_after p key k = active_after p key k (active_of p key + 1)

pub less_one : (o : Option ℕ) → get_or o 1 - 1 ≡ get_or o 0 - 1
less_one none = refl
less_one (some n) = refl

pub freed_after :
    (p : SmtpPool) (key k : String)
    → get_or
        (Dict.lookup k
          (Dict.insert key (get_or (Dict.lookup key p.active_count) 1 - 1) p.active_count))
        0
      ≡ (if key ==ˢ k then active_of p key - 1 else active_of p k)
freed_after p key k =
    active_after p key k (get_or (Dict.lookup key p.active_count) 1 - 1)
    ∙ ap (λ n. if key ==ˢ k then n else active_of p k) (less_one (Dict.lookup key p.active_count))

pub same_counts :
    (p : SmtpPool) (key k : String)
    → (key ==ˢ k) ≡ true
    → (active_of p key ≡ active_of p k) × (length (idle_of p key) ≡ length (idle_of p k))
same_counts p key k same =
    let e = (eq_iff key k).0 same in (ap (active_of p) e, ap (λ j. length (idle_of p j)) e)

pub idle_after :
    (p : SmtpPool) (key k : String) (cs : List PooledConnection)
    → get_or (Dict.lookup k (Dict.insert key cs p.idle)) []
      ≡ (if key ==ˢ k then cs else idle_of p k)
idle_after p key k cs = rw (Dict.lookup-insert key k cs p.idle) (ground arith)
