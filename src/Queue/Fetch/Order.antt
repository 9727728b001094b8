-- ===== src/Queue/Fetch/Order.antt =====
-- The order of the queue is total, and sorting by it keeps every row.
use mathlib.Core.Path.{subst}
use genro_mail_proxy.Prelude.{
  ℕ, zero, suc, ◌≡◌, refl, sym, ◌∙◌, ap, Bool, true, false, ◌⊎◌, inl, inr, List, [], ◌∷◌, arith,
  Bool-cases, All, filter, take, length,
}
use genro_mail_proxy.Prelude.Text.{Text, codes}
use genro_mail_proxy.Queue.{Message}
use genro_mail_proxy.Queue.Fetch.Sort.{leb_text, before, insert_sorted, sort}

leb_text_total : (s t : Text) → leb_text s t ≡ false → leb_text t s ≡ true
unfolding leb_text
leb_text_total [] t h = cc
leb_text_total (c ∷ s) [] h = refl
leb_text_total (c ∷ s) (d ∷ t) h = ground (arith, leb_text_total s t)

leb_text_trans : (s t u : Text) → leb_text s t ≡ true → leb_text t u ≡ true → leb_text s u ≡ true
unfolding leb_text
leb_text_trans [] t u h k = refl
leb_text_trans (c ∷ s) [] u h k = cc
leb_text_trans (c ∷ s) (d ∷ t) [] h k = cc
leb_text_trans (c ∷ s) (d ∷ t) (e ∷ u) h k = ground (arith, leb_text_trans s t u)

before_total : (m n : Message) → before m n ≡ false → before n m ≡ true
unfolding before
before_total m n h = ground (arith, leb_text_total (codes m.pk) (codes n.pk))

before_trans : (m n k : Message) → before m n ≡ true → before n k ≡ true → before m k ≡ true
unfolding before
before_trans m n k h h' = ground (arith, leb_text_trans (codes m.pk) (codes n.pk) (codes k.pk))

-- Every row stands before all that follow it.
abbrev pub IsSorted : List Message → Type 0
IsSorted [] = Unit
IsSorted (m ∷ ms) = All (λ n. before m n ≡ true) ms × IsSorted ms

-- The row is one of the list.
abbrev pub Has : Message → List Message → Type 0
Has m [] = ⊥
Has m (n ∷ ns) = (m ≡ n) ⊎ Has m ns

All-before :
    (k m : Message) (ns : List Message)
    → before k m ≡ true
    → All (λ n. before m n ≡ true) ns
    → All (λ n. before k n ≡ true) ns
All-before k m [] h a = tt
All-before k m (n ∷ ns) h a = (before_trans k m n h a.0, All-before k m ns h a.1)

All-insert_sorted {ℓ} :
    (P : Message → Type ℓ) (m : Message) (ns : List Message)
    → P m
    → All P ns
    → All P (insert_sorted m ns)
unfolding insert_sorted
All-insert_sorted P m [] h a = (h, tt)
All-insert_sorted P m (n ∷ ns) h a = elim (Bool-cases (before m n)) [
  | inl first ↦ rw first (h, a)
  | inr later ↦ rw later (a.0, All-insert_sorted P m ns h a.1)
]

insert_sorted-IsSorted :
    (m : Message) (ns : List Message) → IsSorted ns → IsSorted (insert_sorted m ns)
unfolding insert_sorted
insert_sorted-IsSorted m [] s = (tt, tt)
insert_sorted-IsSorted m (n ∷ ns) s = elim (Bool-cases (before m n)) [
  | inl first ↦ rw first ((first, All-before m n ns first s.0), s)
  | inr later ↦ rw later (
    All-insert_sorted (λ x. before n x ≡ true) m ns (before_total m n later) s.0,
    insert_sorted-IsSorted m ns s.1,
  )
]

pub sort-IsSorted : (ms : List Message) → IsSorted (sort ms)
unfolding sort
sort-IsSorted [] = tt
sort-IsSorted (m ∷ ms) = insert_sorted-IsSorted m (sort ms) (sort-IsSorted ms)

Has-insert_sorted :
    (k m : Message) (ns : List Message) → (k ≡ m) ⊎ Has k ns → Has k (insert_sorted m ns)
unfolding insert_sorted
Has-insert_sorted k m [] h = h
Has-insert_sorted k m (n ∷ ns) h = elim (Bool-cases (before m n)) [
  | inl first ↦ rw first h
  | inr later ↦ rw later (past (Has-insert_sorted k m ns) h)
]
  where
    past :
        ((k ≡ m) ⊎ Has k ns → Has k (insert_sorted m ns))
        → (k ≡ m) ⊎ ((k ≡ n) ⊎ Has k ns)
        → (k ≡ n) ⊎ Has k (insert_sorted m ns)
    past rec (inl same) = inr (rec (inl same))
    past rec (inr (inl here)) = inl here
    past rec (inr (inr there)) = inr (rec (inr there))

pub Has-sort : (k : Message) (ms : List Message) → Has k ms → Has k (sort ms)
unfolding sort
Has-sort k [] h = h
Has-sort k (m ∷ ms) (inl same) = Has-insert_sorted k m (sort ms) (inl same)
Has-sort k (m ∷ ms) (inr there) = Has-insert_sorted k m (sort ms) (inr (Has-sort k ms there))

pub All-sort {ℓ} : (P : Message → Type ℓ) (ms : List Message) → All P ms → All P (sort ms)
unfolding sort
All-sort P [] a = tt
All-sort P (m ∷ ms) a = All-insert_sorted P m (sort ms) a.0 (All-sort P ms a.1)

pub All-take {ℓ} : (P : Message → Type ℓ) (n : ℕ) (ms : List Message) → All P ms → All P (take n ms)
All-take P zero ms a = tt
All-take P (suc n) [] a = tt
All-take P (suc n) (m ∷ ms) a = (a.0, All-take P n ms a.1)

pub take-IsSorted : (n : ℕ) (ms : List Message) → IsSorted ms → IsSorted (take n ms)
take-IsSorted zero ms s = tt
take-IsSorted (suc n) [] s = tt
take-IsSorted (suc n) (m ∷ ms) s =
    (All-take (λ k. before m k ≡ true) n ms s.0, take-IsSorted n ms s.1)

-- A row is taken, or as many rows as asked for are, and each of them may stand before it.
abbrev pub TakenOrLater : ℕ → Message → List Message → Type 0
TakenOrLater n k taken = Has k taken ⊎ ((length taken ≡ n) × All (λ m. before m k ≡ true) taken)

All_Has {ℓ} : (P : Message → Type ℓ) (k : Message) (ms : List Message) → All P ms → Has k ms → P k
All_Has P k [] a h = elim h [ ]
All_Has P k (m ∷ ms) a (inl same) = subst P (sym same) a.0
All_Has P k (m ∷ ms) a (inr there) = All_Has P k ms a.1 there

pub Has-take :
    (n : ℕ) (k : Message) (ms : List Message)
    → IsSorted ms
    → Has k ms
    → TakenOrLater n k (take n ms)
Has-take zero k ms s h = inr (refl, tt)
Has-take (suc n) k [] s h = elim h [ ]
Has-take (suc n) k (m ∷ ms) s (inl same) = inl (inl same)
Has-take (suc n) k (m ∷ ms) s (inr there) = elim (Has-take n k ms s.1 there) [
  | inl taken ↦ inl (inr taken)
  | inr full ↦ inr (ap suc full.0, (All_Has (λ x. before m x ≡ true) k ms s.0 there, full.1))
]

pub Has-filter :
    (p : Message → Bool) (k : Message) (ms : List Message)
    → p k ≡ true
    → Has k ms
    → Has k (filter p ms)
Has-filter p k [] ok h = h
Has-filter p k (m ∷ ms) ok (inl same) = rw (ap p (sym same) ∙ ok, filter) (inl same)
Has-filter p k (m ∷ ms) ok (inr there) = elim (Bool-cases (p m)) [
  | inl kept ↦ rw (kept, filter) (inr (Has-filter p k ms ok there))
  | inr gone ↦ rw (gone, filter) (Has-filter p k ms ok there)
]

pub All-filter : (p : Message → Bool) (ms : List Message) → All (λ m. p m ≡ true) (filter p ms)
All-filter p [] = tt
All-filter p (m ∷ ms) = elim (Bool-cases (p m)) [
  | inl kept ↦ rw (kept, filter) (kept, All-filter p ms)
  | inr gone ↦ rw (gone, filter) (All-filter p ms)
]
