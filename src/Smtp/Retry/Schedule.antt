-- ===== src/Smtp/Retry/Schedule.antt =====
-- The delays between the attempts.
use genro_mail_proxy.Prelude.{
  ℕ, zero, suc, ◌≤◌, ◌≡◌, ◌≢◌, refl, true, some, List, [], ◌∷◌, arith, ◌==◌, length, get_elem?, any,
}
use genro_mail_proxy.Smtp.Retry.{RetryStrategy, last_delay, calculate_delay}

-- No later delay is shorter.
abbrev pub IsSorted : List ℕ → Type 0
IsSorted [] = Unit
IsSorted (d ∷ []) = Unit
IsSorted (d ∷ e ∷ ds) = (d ≤ e) × IsSorted (e ∷ ds)

-- The delay of a non-empty list, by recursion on both.
delay : ℕ → List ℕ → ℕ → ℕ
delay d [] n = d
delay d (e ∷ ds) zero = d
delay d (e ∷ ds) (suc n) = delay e ds n

last_delay-delay :
    (d : ℕ) (ds : List ℕ) (n : ℕ) → length ds ≤ n → last_delay (d ∷ ds) ≡ some (delay d ds n)
unfolding last_delay delay
last_delay-delay d [] n h = ground arith
last_delay-delay d (e ∷ ds) zero h = absurd (omega arith)
last_delay-delay d (e ∷ ds) (suc n) h = last_delay-delay e ds n (omega arith)

get_elem?-delay :
    (d : ℕ) (ds : List ℕ) (n : ℕ) → n ≤ length ds → get_elem? (d ∷ ds) n ≡ some (delay d ds n)
unfolding delay
get_elem?-delay d [] zero h = ground arith
get_elem?-delay d [] (suc n) h = absurd (omega arith)
get_elem?-delay d (e ∷ ds) zero h = ground arith
get_elem?-delay d (e ∷ ds) (suc n) h = get_elem?-delay e ds n (omega arith)

calculate_delay-delay :
    (m d : ℕ) (ds : List ℕ) (n : ℕ)
    → calculate_delay (record { max_retries = m; delays = d ∷ ds }) n ≡ some (delay d ds n)
unfolding calculate_delay
calculate_delay-delay m d ds n = ground (arith, last_delay-delay d ds n, get_elem?-delay d ds n)

delay-any : (d : ℕ) (ds : List ℕ) (n : ℕ) → any (λ x. x == delay d ds n) (d ∷ ds) ≡ true
unfolding delay
delay-any d [] n = ground arith
delay-any d (e ∷ ds) zero = ground arith
delay-any d (e ∷ ds) (suc n) = ground (arith, delay-any e ds n)

delay-le_first : (d : ℕ) (ds : List ℕ) (n : ℕ) → IsSorted (d ∷ ds) → d ≤ delay d ds n
unfolding delay
delay-le_first d [] n s = omega arith
delay-le_first d (e ∷ ds) zero s = omega arith
delay-le_first d (e ∷ ds) (suc n) s = omega (arith, delay-le_first e ds n s.1, s.0)

delay_mono :
    (d : ℕ) (ds : List ℕ) (m n : ℕ) → IsSorted (d ∷ ds) → m ≤ n → delay d ds m ≤ delay d ds n
unfolding delay
delay_mono d [] m n s h = omega arith
delay_mono d (e ∷ ds) zero zero s h = omega arith
delay_mono d (e ∷ ds) zero (suc n) s h = omega (arith, delay-le_first e ds n s.1, s.0)
delay_mono d (e ∷ ds) (suc m) zero s h = absurd (omega arith)
delay_mono d (e ∷ ds) (suc m) (suc n) s h = delay_mono e ds m n s.1 (omega arith)

schedule_of :
    (k : ℕ) (ds : List ℕ) (n : ℕ)
    → ds ≢ []
    → (d : ℕ) × (calculate_delay (record { max_retries = k; delays = ds }) n ≡ some d)
      × (any (λ x. x == d) ds ≡ true)
      × ((m e : ℕ)
          → IsSorted ds
          → n ≤ m
          → calculate_delay (record { max_retries = k; delays = ds }) m ≡ some e
          → d ≤ e)
schedule_of k [] n ne = absurd (ne refl)
schedule_of k (d ∷ ds) n ne = (
  delay d ds n,
  calculate_delay-delay k d ds n,
  delay-any d ds n,
  λ m e sorted le h. ground (arith, calculate_delay-delay k d ds m, delay_mono d ds n m sorted le),
)

-- A strategy with at least one delay has a delay for every retry count, and it is one of those that
-- are configured; where no later delay is shorter, the delay for a later retry is not shorter.
pub calculate_delay_schedule :
    (s : RetryStrategy) (n : ℕ)
    → s.delays ≢ []
    → (d : ℕ) × (calculate_delay s n ≡ some d)
      × (any (λ x. x == d) s.delays ≡ true)
      × ((m e : ℕ) → IsSorted s.delays → n ≤ m → calculate_delay s m ≡ some e → d ≤ e)
calculate_delay_schedule s n ne = schedule_of s.max_retries s.delays n ne
