-- ===== src/Queue/Deletion/Judgement.antt =====
-- How the ids of a deletion are judged, seen from the table before it.
use genro_mail_proxy.Prelude.{
  ℕ, suc, ◌+◌, String, ◌≡◌, refl, ap, ◌∙◌, Bool, true, false, ◌&&◌, not, List, [], ◌∷◌, ◌++◌, ◌==ˢ◌,
  filter, any, All, find?, arith, inl, inr, Bool-cases, is_some, is_empty, if◌then◌else◌, map,
  eq_iff, eq_refl,
}
use mathlib.Core.List.{append_assoc}
use genro_mail_proxy.Queue.{Message, Database}
use genro_mail_proxy.Queue.Cleanup.{owned_by}
use genro_mail_proxy.Queue.Fetch.Order.{Has}
use genro_mail_proxy.Queue.Deletion.{Answer, refuse, get_ids_for_tenant, existing_ids}

-- A message with this id is owned through its account; one stands under the tenant; one exists at all.
abbrev pub is_owned : Database → String → String → Bool
is_owned db tenant id = any (λ m. (m.id ==ˢ id) && owned_by db tenant m) db.messages

abbrev pub is_held : Database → String → String → Bool
is_held db tenant id = any (λ m. (m.tenant_id ==ˢ tenant) && (m.id ==ˢ id)) db.messages

abbrev pub is_known : Database → String → Bool
is_known db id = any (λ m. (m.id ==ˢ id) && not (is_empty id)) db.messages

abbrev pub is_removed : Database → String → String → Bool
is_removed db tenant id = is_owned db tenant id && is_held db tenant id

abbrev pub is_unauthorized : Database → String → String → Bool
is_unauthorized db tenant id = not (is_owned db tenant id) && is_known db id

abbrev pub is_missing : Database → String → String → Bool
is_missing db tenant id = not (is_removed db tenant id) && not (is_unauthorized db tenant id)

abbrev pub NoRepeats : List String → Type 0
NoRepeats [] = Unit
NoRepeats (id ∷ ids) = All (λ i. (i ==ˢ id) ≡ false) ids × NoRepeats ids

any-map-filter :
    (id : String) (f : Message → Bool) (ms : List Message)
    → any (λ i. i ==ˢ id) (map (λ m. m.id) (filter f ms)) ≡ any (λ m. (m.id ==ˢ id) && f m) ms
any-map-filter id f [] = refl
any-map-filter id f (m ∷ ms) = ground (arith, any-map-filter id f ms)

any_same :
    (p q : Message → Bool) (ms : List Message) → ((m : Message) → p m ≡ q m) → any p ms ≡ any q ms
any_same p q [] same = refl
any_same p q (m ∷ ms) same = ground (arith, same m, any_same p q ms same)

pub any-filter :
    (p q : Message → Bool) (ms : List Message)
    → ((m : Message) → Has m ms → q m ≡ false → p m ≡ false)
    → any p (filter q ms) ≡ any p ms
any-filter p q [] out = refl
any-filter p q (m ∷ ms) out =
    ground (arith, out m (inl refl), any-filter p q ms (λ n there. out n (inr there)))

pub is_some-find? : (p : Message → Bool) (ms : List Message) → is_some (find? p ms) ≡ any p ms
is_some-find? p [] = refl
is_some-find? p (m ∷ ms) = ground (arith, is_some-find? p ms)

pub known_lem :
    (id : String) (db : Database) → any (λ i. i ==ˢ id) (existing_ids (id ∷ []) db) ≡ is_known db id
unfolding existing_ids
known_lem id db =
    any-map-filter id (λ m. any (λ i. not (is_empty i) && (i ==ˢ m.id)) (id ∷ [])) db.messages
    ∙ any_same _ (λ m. (m.id ==ˢ id) && not (is_empty id)) db.messages
        (λ m. ground (arith, eq_iff m.id id, eq_iff id m.id, eq_refl id))

asked_same :
    (id : String) (ids : List String) (owned : Bool) (m : Message)
    → any (λ i. i ==ˢ id) ids ≡ true
    → ((m.id ==ˢ id) && (any (λ i. i ==ˢ m.id) ids && owned)) ≡ ((m.id ==ˢ id) && owned)
asked_same id ids owned m asked = elim (Bool-cases (m.id ==ˢ id)) [
  | inl same ↦
      rw same
        (ap (λ b. b && owned) (ap (λ k. any (λ i. i ==ˢ k) ids) ((eq_iff m.id id).0 same) ∙ asked))
  | inr differs ↦ rw differs refl
]

pub owned_lem :
    (id : String) (ids : List String) (tenant : String) (db : Database)
    → any (λ i. i ==ˢ id) ids ≡ true
    → any (λ i. i ==ˢ id) (get_ids_for_tenant ids tenant db) ≡ is_owned db tenant id
unfolding get_ids_for_tenant
owned_lem id ids tenant db asked =
    any-map-filter id (λ m. any (λ i. i ==ˢ m.id) ids && owned_by db tenant m) db.messages
    ∙ any_same _ (λ m. (m.id ==ˢ id) && owned_by db tenant m) db.messages
        (λ m. asked_same id ids (owned_by db tenant m) m asked)

abbrev pub made : ℕ → List String → List String → Answer
made n ms us = record { removed = n; not_found = ms; unauthorized = us }

-- What one id adds, and then the others: by whether it is removed or unauthorized.
pub add_then :
    (id : String) (n : ℕ) (ms us : List String) (a : Answer) (gone refused : Bool)
    → (gone && refused) ≡ false
    → (let b = if gone then record a { removed = a.removed + 1 } else refuse refused id a in
        made (b.removed + n) (b.not_found ++ ms) (b.unauthorized ++ us))
      ≡ made
          (a.removed + (elim gone [ true ↦ suc n | false ↦ n ]))
          (a.not_found ++ (elim (not gone && not refused) [ true ↦ id ∷ ms | false ↦ ms ]))
          (a.unauthorized ++ (elim refused [ true ↦ id ∷ us | false ↦ us ]))
add_then id n ms us a true true apart = cc
add_then id n ms us a true false apart =
    let more : (a.removed + 1) + n ≡ a.removed + suc n = omega arith in
    ap (λ k. made k (a.not_found ++ ms) (a.unauthorized ++ us)) more
add_then id n ms us a false true apart =
    ap (made (a.removed + n) (a.not_found ++ ms)) (append_assoc a.unauthorized (id ∷ []) us)
add_then id n ms us a false false apart =
    ap (λ xs. made (a.removed + n) xs (a.unauthorized ++ us))
      (append_assoc a.not_found (id ∷ []) ms)
