-- ===== src/Queue/Fetch/Ready.antt =====
-- The conditions of the query for messages to deliver, each on its own.
use genro_mail_proxy.Prelude.{
  ℕ, ◌≤◌, ◌≡◌, ◌⊎◌, ◌↔◌, refl, ap, sym, ◌∙◌, inl, inr, Bool, true, false, ◌&&◌, not, Option, none,
  some, String, is_some, arith, Bool-cases, Option-cases, get_or,
}
use mathlib.Core.Path.{subst}
use genro_mail_proxy.Prelude.Text.{Text, codes, is_star}
use genro_mail_proxy.Queue.{Message, Tenant, Dialect, Database, get_tenant}
use genro_mail_proxy.Queue.Fetch.{
  listed, not_suspended, suspended_of, is_due, priority_fits, is_ready,
}

-- The priority is the one asked for, or else at least the least one asked for.
abbrev pub IsWanted : Option ℕ → Option ℕ → ℕ → Type 0
IsWanted (some p) least q = q ≡ p
IsWanted none (some l) q = l ≤ q
IsWanted none none q = Unit

-- The column of a tenant suspends every batch, or lists this one.
abbrev pub Covers : Dialect → Text → Option String → Type 0
Covers d s code =
    (is_star s ≡ true) ⊎ ((c : String) × (code ≡ some c) × (listed d s (codes c) ≡ true))

-- The message's tenant has suspended it.
abbrev pub IsSuspended : Database → Message → Type 0
IsSuspended db m =
    (t : Tenant) × (s : Text) × (get_tenant db m.tenant_id ≡ some t)
    × (t.suspended_batches ≡ some s)
    × Covers db.dialect s m.batch_code

-- Not yet processed, not deferred beyond now, of a priority that is asked for, and not suspended.
pub record IsReady (db : Database) (now : ℕ) (priority least : Option ℕ) (m : Message)
    : Type 0 where
  pub unprocessed : m.smtp_ts ≡ none
  pub due : (ts : ℕ) → m.deferred_ts ≡ some ts → ts ≤ now
  pub wanted : IsWanted priority least m.priority
  pub sending : ¬ IsSuspended db m

priority_iff :
    (priority least : Option ℕ) (q : ℕ)
    → (priority_fits priority least q ≡ true) ↔ IsWanted priority least q
unfolding priority_fits
priority_iff (some p) least q = ground arith
priority_iff none (some l) q = ground arith
priority_iff none none q = (λ h. tt, λ h. refl)

due_iff : (now : ℕ) (o : Option ℕ) → (is_due now o ≡ true) ↔ ((ts : ℕ) → o ≡ some ts → ts ≤ now)
unfolding is_due
due_iff now none = (λ h. λ ts e. cc e, λ h. refl)
due_iff now (some t) = (λ h. λ ts e. ground (arith, h, e), λ h. ground (arith, h t refl))

listed_shape :
    (d : Dialect) (s : Text) (c : String)
    → not_suspended d (some s) (some c) ≡ (not (is_star s) && not (listed d s (codes c)))
unfolding not_suspended
listed_shape d s c = refl

refuted : (a b : Bool) → (not a && not b) ≡ true → (a ≡ false) × (b ≡ false)
refuted a b h = (ground (arith, h), ground (arith, h))

neither : (a b : Bool) → ¬ (a ≡ true) → ¬ (b ≡ true) → (not a && not b) ≡ true
neither a b h k = ground (arith, h, k)

pub column_suspends_iff :
    (d : Dialect) (s : Text) (code : Option String)
    → (not_suspended d (some s) code ≡ true) ↔ (¬ Covers d s code)
column_suspends_iff d s none =
    unfold not_suspended in
    (
      λ h cover. elim cover [ inl star ↦ ground (arith, h, star) | inr (c, e, there) ↦ cc e ],
      λ out. elim (Bool-cases (is_star s)) [
        | inl star ↦ absurd (out (inl star))
        | inr plain ↦ rw plain refl
      ],
    )
column_suspends_iff d s (some c) = (
  λ h cover.
      let both = refuted (is_star s) (listed d s (codes c)) (sym (listed_shape d s c) ∙ h) in
      elim cover [ inl star ↦ cc (both.0, star) | inr (k, e, there) ↦ cc (both.1, there, e) ],
  λ out.
      listed_shape d s c
      ∙ neither (is_star s) (listed d s (codes c)) (λ star. out (inl star))
          (λ there. out (inr (c, refl, there))),
)

-- The columns of the joined tenant.
abbrev column_of : Option Tenant → Option Text
column_of none = none
column_of (some t) = t.suspended_batches

tenant_iff :
    (db : Database) (m : Message) (t : Tenant) (o : Option Text)
    → get_tenant db m.tenant_id ≡ some t
    → t.suspended_batches ≡ o
    → (not_suspended db.dialect o m.batch_code ≡ true) ↔ (¬ IsSuspended db m)
tenant_iff db m t none found column = (
  λ h (u, s, here, filled, cover). cc (column, filled, here, found),
  λ out. unfold not_suspended in refl,
)
tenant_iff db m t (some s) found column =
    let same = column_suspends_iff db.dialect s m.batch_code in
    (
      λ h (u, s', here, filled, cover).
          let text =
            sym filled ∙ ap (λ o. (get_or o t).suspended_batches) (sym here ∙ found) ∙ column in
          same.0 h
            (subst (λ x. Covers db.dialect x m.batch_code) (ap (λ o. get_or o s) text) cover),
      λ out. same.1 (λ cover. out (t, s, found, column, cover)),
    )

kept_iff :
    (db : Database) (m : Message) (o : Option Tenant)
    → get_tenant db m.tenant_id ≡ o
    → (not_suspended db.dialect (column_of o) m.batch_code ≡ true) ↔ (¬ IsSuspended db m)
kept_iff db m none found =
    (λ h (u, s, here, filled, cover). cc (here, found), λ out. unfold not_suspended in refl)
kept_iff db m (some t) found = tenant_iff db m t t.suspended_batches found refl

suspended_of-column_of :
    (db : Database) (m : Message) → suspended_of db m ≡ column_of (get_tenant db m.tenant_id)
unfolding suspended_of
suspended_of-column_of db m = elim (Option-cases (get_tenant db m.tenant_id)) [
  | inl absent ↦ rw (absent, suspended_of) refl
  | inr found ↦ rw (found.1, suspended_of) refl
]

sending_iff :
    (db : Database) (m : Message)
    → (not_suspended db.dialect (suspended_of db m) m.batch_code ≡ true) ↔ (¬ IsSuspended db m)
sending_iff db m =
    subst (λ o. (not_suspended db.dialect o m.batch_code ≡ true) ↔ (¬ IsSuspended db m))
      (sym (suspended_of-column_of db m)) (kept_iff db m (get_tenant db m.tenant_id) refl)

four :
    (a b c d : Bool) → (a && b && c && d) ≡ true → (a ≡ true) × (b ≡ true) × (c ≡ true) × (d ≡ true)
four a b c d h = ground (arith, h)

all_four : (a b c d : Bool) → a ≡ true → b ≡ true → c ≡ true → d ≡ true → (a && b && c && d) ≡ true
all_four a b c d ha hb hc hd = ground (arith, ha, hb, hc, hd)

is_none : (o : Option ℕ) → not (is_some o) ≡ true → o ≡ none
is_none none h = refl
is_none (some n) h = cc h

-- The WHERE clause holds of the ready rows, and of no others.
pub is_ready_iff :
    (db : Database) (now : ℕ) (priority least : Option ℕ) (m : Message)
    → (is_ready db now priority least m ≡ true) ↔ IsReady db now priority least m
unfolding is_ready
is_ready_iff db now priority least m = (
  λ h.
      let all =
        four (not (is_some m.smtp_ts)) (is_due now m.deferred_ts)
          (priority_fits priority least m.priority)
          (not_suspended db.dialect (suspended_of db m) m.batch_code) h in
      record {
        unprocessed = is_none m.smtp_ts all.0;
        due = (due_iff now m.deferred_ts).0 all.1;
        wanted = (priority_iff priority least m.priority).0 all.2;
        sending = (sending_iff db m).0 all.3;
      },
  λ r.
      all_four (not (is_some m.smtp_ts)) (is_due now m.deferred_ts)
        (priority_fits priority least m.priority)
        (not_suspended db.dialect (suspended_of db m) m.batch_code)
        (ap (λ o. not (is_some o)) r.unprocessed) ((due_iff now m.deferred_ts).1 r.due)
        ((priority_iff priority least m.priority).1 r.wanted) ((sending_iff db m).1 r.sending),
)
