-- ===== src/Smtp/Pool/Fresh.antt =====
-- What `acquire` hands out, and what `cleanup` leaves.
use genro_mail_proxy.Prelude.{
  ℕ, zero, suc, ◌+◌, ◌≤◌, String, ◌≡◌, refl, ap, ◌∙◌, Bool, true, false, not, ◌||◌, Option, none,
  some, List, [], ◌∷◌, ◌++◌, ltb, eq_refl, arith, if◌then◌else◌, length, inl, inr, Bool-cases,
}
use mathlib.Core.Path.{subst}
use genro_mail_proxy.Prelude.Dict
use genro_mail_proxy.Prelude.Dict.{Dict}
use genro_mail_proxy.Smtp.Pool.{
  PooledConnection, fresh, touch, age, key_of, SmtpPool, idle_of, active_of, last_of, but_last,
  length-but_last, Turn, reused, connecting, again, full, hand_out, take_idle, take_slot, take_turn,
  try_acquire, go_on, acquire, give_back, release, keeps,
}

-- The last connection of a list that may be used, where the test is told the place, counted from one
-- below the number that is given.
abbrev pub last_usable :
    (ℕ → PooledConnection → Bool) → ℕ → List PooledConnection → Option PooledConnection
last_usable f i [] = none
last_usable f i (c ∷ cs) = elim (last_usable f (suc i) cs) [
  | some d ↦ some d
  | none ↦ if f (suc i) c then some c else none
]

-- The answer, by the last usable connection and whether there is room for one more.
abbrev pub answer : Option PooledConnection → Bool → Turn
answer (some c) room = reused c.smtp
answer none true = connecting
answer none false = full

last_usable_step :
    (f : ℕ → PooledConnection → Bool) (i : ℕ) (c : PooledConnection) (cs : List PooledConnection)
    → last_usable f i (c ∷ cs) ≡ (
        if f (suc (i + length cs)) (last_of c cs)
        then some (last_of c cs)
        else last_usable f i (but_last c cs))
last_usable_step f i c [] = let alone : i + 0 ≡ i = omega arith in rw alone refl
last_usable_step f i c (d ∷ cs) =
    let shift : i + suc (length cs) ≡ suc (i + length cs) = omega arith in
    rw (last_usable_step f (suc i) d cs, shift) (ground arith)

popped :
    (key : String) (cs : List PooledConnection) (p : SmtpPool)
    → idle_of (record p { idle = Dict.insert key cs p.idle }) key ≡ cs
popped key cs p = rw (Dict.lookup-insert key key cs p.idle, eq_refl key) refl

-- Whether a connection is kept, in the round that begins with as many idle ones as is given.
abbrev pub usable : ℕ → (ℕ → ℕ) → (ℕ → ℕ → Bool) → ℕ → PooledConnection → Bool
usable ttl now alive n c = keeps ttl (now n) (alive n) c

-- The answer that the pool owes. Its idle connections are tried from the last one on, the one at the
-- n-th place in the round that begins with n of them.
abbrev pub owed : (ℕ → ℕ) → (ℕ → ℕ → Bool) → String → SmtpPool → Turn
owed now alive key p =
    answer (last_usable (usable p.ttl now alive) 0 (idle_of p key))
      (ltb (active_of p key) p.max_per_account)

owed_shape :
    (now : ℕ → ℕ) (alive : ℕ → ℕ → Bool) (key : String) (p : SmtpPool) (cs : List PooledConnection)
    → idle_of p key ≡ cs
    → owed now alive key p
      ≡ answer (last_usable (usable p.ttl now alive) 0 cs) (ltb (active_of p key) p.max_per_account)
owed_shape now alive key p cs shape =
    ap
      (λ xs.
        answer (last_usable (usable p.ttl now alive) 0 xs)
          (ltb (active_of p key) p.max_per_account))
      shape

-- The rounds end with an answer.
abbrev pub EndsWith : Option (Turn × SmtpPool) → Turn → Type 0
EndsWith o turn = (p : SmtpPool) × (o ≡ some (turn, p))

acquire_round :
    (fuel : ℕ) (now : ℕ → ℕ) (alive : ℕ → ℕ → Bool) (key : String) (p : SmtpPool)
    (r : Turn × SmtpPool)
    → try_acquire (now fuel) (alive fuel) key p ≡ r
    → acquire (suc fuel) now alive key p ≡ go_on r (acquire fuel now alive key r.1)
unfolding acquire
acquire_round fuel now alive key p r round =
    ap (λ x. go_on x (acquire fuel now alive key x.1)) round

try_shape :
    (now : ℕ) (alive : ℕ → Bool) (key : String) (p : SmtpPool) (cs : List PooledConnection)
    → idle_of p key ≡ cs
    → try_acquire now alive key p ≡ take_turn now alive key cs p
unfolding try_acquire
try_shape now alive key p cs shape = ap (λ xs. take_turn now alive key xs p) shape

acquire_owed :
    (n : ℕ) (now : ℕ → ℕ) (alive : ℕ → ℕ → Bool) (key : String) (p : SmtpPool)
    (cs : List PooledConnection)
    → idle_of p key ≡ cs
    → length cs ≡ n
    → EndsWith (acquire (suc n) now alive key p) (
        answer
          (last_usable (usable p.ttl now alive) 0 cs)
          (ltb (active_of p key) p.max_per_account))
unfolding take_turn take_idle take_slot
acquire_owed n now alive key p [] shape size =
    let turn = try_shape (now n) (alive n) key p [] shape in
    elim (Bool-cases (ltb (active_of p key) p.max_per_account)) [
      | inl room ↦ rw room (
        (take_slot key p).1,
        acquire_round n now alive key p (connecting, (take_slot key p).1)
            (turn ∙ rw (room, take_slot) refl),
      )
      | inr no_room ↦ rw no_room (
        (take_slot key p).1,
        acquire_round n now alive key p (full, (take_slot key p).1)
            (turn ∙ rw (no_room, take_slot) refl),
      )
    ]
acquire_owed zero now alive key p (c ∷ cs) shape size = absurd (ground (arith, size))
acquire_owed (suc n) now alive key p (c ∷ cs) shape size =
    let d = last_of c cs in
    let p' = record p { idle = Dict.insert key (but_last c cs) p.idle } in
    let count : suc (0 + length cs) ≡ suc n = omega (arith, size) in
    let rest =
      acquire_owed n now alive key p' (but_last c cs) (popped key (but_last c cs) p)
        (ground (arith, size, length-but_last c cs)) in
    let turn = try_shape (now (suc n)) (alive (suc n)) key p (c ∷ cs) shape in
    rw (last_usable_step (usable p.ttl now alive) 0 c cs, count)
      (elim (Bool-cases (ltb p.ttl (age (now (suc n)) d) || not (alive (suc n) d.smtp))) [
        | inl dead ↦ rw dead (
          rest.0,
          acquire_round (suc n) now alive key p (again d.smtp, p') (turn ∙ rw dead refl) ∙ rest.1,
        )
        | inr good ↦ rw good (
          hand_out (now (suc n)) key (touch (now (suc n)) d) p',
          acquire_round (suc n) now alive key p
              (reused d.smtp, hand_out (now (suc n)) key (touch (now (suc n)) d) p')
              (turn ∙ rw good refl),
        )
      ])

-- The rounds of `acquire`, with no other task between them and whatever the clock and the servers do
-- from round to round, end after at most one more than there are idle connections. They give the last
-- of the idle connections that in its round answers and is within its time to live; and if there is
-- none, a slot for a new one exactly if the account is below its bound.
pub acquire_lem :
    (now : ℕ → ℕ) (alive : ℕ → ℕ → Bool) (key : String) (p : SmtpPool)
    → EndsWith (acquire (suc (length (idle_of p key))) now alive key p) (owed now alive key p)
acquire_lem now alive key p =
    acquire_owed (length (idle_of p key)) now alive key p (idle_of p key) refl refl

last_usable_snoc :
    (f : ℕ → PooledConnection → Bool) (i : ℕ) (c : PooledConnection) (cs : List PooledConnection)
    → ((n : ℕ) → f n c ≡ true)
    → last_usable f i (cs ++ c ∷ []) ≡ some c
last_usable_snoc f i c [] ok = rw (ok (suc i)) refl
last_usable_snoc f i c (d ∷ cs) ok = rw (last_usable_snoc f (suc i) c cs ok) refl

-- A connection that is released while it answers is the one that the next `acquire` for its account
-- gives, within the time to live after the release, however long ago it was made.
acquire-release :
    (now later : ℕ) (alive : ℕ → Bool) (smtp : ℕ) (key : String) (p : SmtpPool)
    → key_of smtp p.connection_keys ≡ some key
    → alive smtp ≡ true
    → later ≤ now + p.ttl
    → (let q = release now alive smtp p in
        EndsWith
          (acquire (suc (length (idle_of q key))) (λ _. later) (λ _. alive) key q)
          (reused smtp))
unfolding release give_back
acquire-release now later alive smtp key p found answers young =
    let same : release now alive smtp p ≡ give_back now true smtp key p =
      rw (found, answers, release) refl in
    let q = give_back now true smtp key p in
    rw same (
      subst (EndsWith (acquire (suc (length (idle_of q key))) (λ _. later) (λ _. alive) key q))
        (owed_shape (λ _. later) (λ _. alive) key q (idle_of p key ++ fresh smtp key now ∷ [])
            (popped key (idle_of p key ++ fresh smtp key now ∷ []) p)
          ∙ rw
              (last_usable_snoc (usable p.ttl (λ _. later) (λ _. alive)) 0 (fresh smtp key now)
                (idle_of p key) (λ n. ground (arith, answers, young)))
              refl)
        (acquire_lem (λ _. later) (λ _. alive) key q))
