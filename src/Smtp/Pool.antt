-- ===== src/Smtp/Pool.antt =====
-- `SMTPPool` of src/core/mail_proxy/smtp/pool.py. A connection is known by its number, for Python's
-- `id`, and a set of open connections answers NOOP with 250. Each part under the lock is one step.
pub mod Bounds
pub mod Fresh
pub mod Cleanup
use genro_mail_proxy.Prelude.{
  ℕ, zero, suc, ◌+◌, ◌-◌, String, Bool, true, false, ◌||◌, not, Option, none, some, List, [], ◌∷◌,
  ◌++◌, ltb, ◌==◌, if◌then◌else◌, map, filter, get_or, length, ◌≡◌, refl, ap,
}
use genro_mail_proxy.Prelude.Dict
use genro_mail_proxy.Prelude.Dict.{Dict}

pub record PooledConnection : Type 0 where
  pub smtp : ℕ
  pub account_key : String
  pub created_at : ℕ
  pub last_used : ℕ

-- `PooledConnection(smtp=smtp, account_key=key)` at a time.
abbrev pub fresh : ℕ → String → ℕ → PooledConnection
fresh smtp key now = record { smtp = smtp; account_key = key; created_at = now; last_used = now }

abbrev pub touch : ℕ → PooledConnection → PooledConnection
touch now c = record c { last_used = now }

abbrev pub age : ℕ → PooledConnection → ℕ
age now c = now - c.created_at

-- The keys of the connections that are in use, by their numbers.
abbrev pub Keys : Type 0
Keys = List (ℕ × String)

unfoldable pub key_of : ℕ → Keys → Option String
key_of i [] = none
key_of i ((j, k) ∷ ks) = if j == i then some k else key_of i ks

-- `self._connection_keys.pop(i, None)`
unfoldable pub untrack : ℕ → Keys → Keys
untrack i [] = []
untrack i ((j, k) ∷ ks) = let rest = untrack i ks in if j == i then rest else (j, k) ∷ rest

-- `self._connection_keys[i] = key`
abbrev pub track : ℕ → String → Keys → Keys
track i key ks = (i, key) ∷ untrack i ks

pub record SmtpPool : Type 0 where
  pub ttl : ℕ
  pub max_per_account : ℕ
  pub idle : Dict (List PooledConnection)
  pub active_count : Dict ℕ
  pub connection_keys : Keys

abbrev pub new_pool : ℕ → ℕ → SmtpPool
new_pool ttl max = record {
  ttl = ttl;
  max_per_account = max;
  idle = [];
  active_count = [];
  connection_keys = [];
}

abbrev pub idle_of : SmtpPool → String → List PooledConnection
idle_of p key = get_or (Dict.lookup key p.idle) []

abbrev pub active_of : SmtpPool → String → ℕ
active_of p key = get_or (Dict.lookup key p.active_count) 0

-- `list.pop()` of a list that is not empty: the last element, and the others.
abbrev pub last_of : PooledConnection → List PooledConnection → PooledConnection
last_of c [] = c
last_of c (d ∷ cs) = last_of d cs

abbrev pub but_last : PooledConnection → List PooledConnection → List PooledConnection
but_last c [] = []
but_last c (d ∷ cs) = c ∷ but_last d cs

pub length-but_last :
    (c : PooledConnection) (cs : List PooledConnection) → length (but_last c cs) ≡ length cs
length-but_last c [] = refl
length-but_last c (d ∷ cs) = ap suc (length-but_last d cs)

-- What one passage through the lock gives: a connection, the slot for a new one, or another round,
-- after a dead connection was closed or when the pool is full.
pub data Turn : Type 0 where
  reused : ℕ → Turn
  connecting : Turn
  again : ℕ → Turn
  full : Turn

unfoldable pub hand_out : ℕ → String → PooledConnection → SmtpPool → SmtpPool
hand_out now key c p = record p {
  active_count = Dict.insert key (active_of p key + 1) p.active_count;
  connection_keys = track c.smtp key p.connection_keys;
}

-- The checks on the connection that was popped.
unfoldable pub take_idle : ℕ → (ℕ → Bool) → String → PooledConnection → SmtpPool → Turn × SmtpPool
unfolding hand_out
take_idle now alive key c p =
    if ltb p.ttl (age now c) || not (alive c.smtp)
    then (again c.smtp, p)
    else (reused c.smtp, hand_out now key (touch now c) p)

-- The slot for a new connection is taken before it is made.
unfoldable pub take_slot : String → SmtpPool → Turn × SmtpPool
take_slot key p =
    if ltb (active_of p key) p.max_per_account
    then (
      connecting,
      record p { active_count = Dict.insert key (active_of p key + 1) p.active_count },
    )
    else (full, p)

unfoldable pub take_turn :
    ℕ → (ℕ → Bool) → String → List PooledConnection → SmtpPool → Turn × SmtpPool
unfolding take_idle take_slot
take_turn now alive key [] p = take_slot key p
take_turn now alive key (c ∷ cs) p =
    take_idle now alive key (last_of c cs)
      (record p { idle = Dict.insert key (but_last c cs) p.idle })

-- The part of `acquire` under the lock.
unfoldable pub try_acquire : ℕ → (ℕ → Bool) → String → SmtpPool → Turn × SmtpPool
unfolding take_turn
try_acquire now alive key p = take_turn now alive key (idle_of p key) p

-- What follows the attempt to connect: the connection is tracked, or its slot given back. The count
-- is positive while a slot is held, so the subtraction does not stop at 0.
abbrev pub connected : ℕ → String → SmtpPool → SmtpPool
connected smtp key p = record p { connection_keys = track smtp key p.connection_keys }

abbrev pub connect_failed : String → SmtpPool → SmtpPool
connect_failed key p = record p {
  active_count = Dict.insert key (get_or (Dict.lookup key p.active_count) 1 - 1) p.active_count;
}

-- `release` of a connection that is tracked under a key.
unfoldable pub give_back : ℕ → Bool → ℕ → String → SmtpPool → SmtpPool
give_back now alive smtp key p = record p {
  active_count = Dict.insert key (get_or (Dict.lookup key p.active_count) 1 - 1) p.active_count;
  connection_keys = untrack smtp p.connection_keys;
  idle =
      if alive then Dict.insert key (idle_of p key ++ fresh smtp key now ∷ []) p.idle else p.idle;
}

-- A connection that is not tracked is closed.
unfoldable pub release : ℕ → (ℕ → Bool) → ℕ → SmtpPool → SmtpPool
unfolding give_back
release now alive smtp p = elim (key_of smtp p.connection_keys) [
  | none ↦ p
  | some key ↦ give_back now (alive smtp) smtp key p
]

abbrev pub keeps : ℕ → ℕ → (ℕ → Bool) → PooledConnection → Bool
keeps ttl now alive c = not (ltb ttl (age now c) || not (alive c.smtp))

-- `cleanup` at one key: the entry goes if no connection is left.
unfoldable pub cleanup_key :
    ℕ → ℕ → (ℕ → Bool) → String → Dict (List PooledConnection) → Dict (List PooledConnection)
cleanup_key ttl now alive key d =
    elim (filter (keeps ttl now alive) (get_or (Dict.lookup key d) [])) [
      | [] ↦ Dict.erase key (Dict.insert key [] d)
      | c ∷ cs ↦ Dict.insert key (c ∷ cs) d
    ]

unfoldable pub cleanup_keys :
    ℕ → ℕ → (ℕ → Bool) → List String → Dict (List PooledConnection) → Dict (List PooledConnection)
unfolding cleanup_key
cleanup_keys ttl now alive [] d = d
cleanup_keys ttl now alive (key ∷ keys) d =
    cleanup_keys ttl now alive keys (cleanup_key ttl now alive key d)

unfoldable pub cleanup : ℕ → (ℕ → Bool) → SmtpPool → SmtpPool
unfolding cleanup_keys
cleanup now alive p = record p {
  idle = cleanup_keys p.ttl now alive (map (λ e. e.0) p.idle) p.idle;
}

abbrev pub close_all : SmtpPool → SmtpPool
close_all p = record p { idle = []; active_count = []; connection_keys = [] }

-- After a dead connection was closed, what the next rounds give.
abbrev pub go_on : Turn × SmtpPool → Option (Turn × SmtpPool) → Option (Turn × SmtpPool)
go_on (again smtp, p) rest = rest
go_on (reused smtp, p) rest = some (reused smtp, p)
go_on (connecting, p) rest = some (connecting, p)
go_on (full, p) rest = some (full, p)

-- The rounds of `acquire` when no other task comes between, on fuel, up to the first that does not end
-- with a dead connection. The clock and the answers to NOOP may change from round to round: those of a
-- round are given by the fuel that is left after it. Without fuel there is no answer.
unfoldable pub acquire : ℕ → (ℕ → ℕ) → (ℕ → ℕ → Bool) → String → SmtpPool → Option (Turn × SmtpPool)
unfolding try_acquire
acquire zero now alive key p = none
acquire (suc fuel) now alive key p =
    let round = try_acquire (now fuel) (alive fuel) key p in
    go_on round (acquire fuel now alive key round.1)
