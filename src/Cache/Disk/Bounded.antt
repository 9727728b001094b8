-- ===== src/Cache/Disk/Bounded.antt =====
-- The bound of the disk cache, over all calls.
use genro_mail_proxy.Prelude.{
  ℕ, ◌+◌, ◌≤◌, String, ◌≡◌, refl, ap, ◌∙◌, Bool, false, not, Option, none, some, List, [], ◌∷◌, ltb,
  arith, eq_iff, ◌==ˢ◌, length, filter, inl, inr, Bool-cases,
}
use genro_mail_proxy.Prelude.Dict
use genro_mail_proxy.Prelude.Dict.{Dict}
use genro_mail_proxy.Cache.Memory.{Bytes, Entry, is_expired, Call, gets, sets, cleans, clears}
use genro_mail_proxy.Cache.Memory.Counted.{total, IsDict, IsDict-erase}
use genro_mail_proxy.Cache.Disk.{
  DiskCache, remove, read, get, ensure_space, set, cleanup_expired, step, run,
}
use genro_mail_proxy.Cache.Disk.Space.{ensure_space_fits}

-- The files have different keys and together fit the bound.
pub record IsBounded (max : ℕ) (c : DiskCache) : Type 0 where
  pub distinct : IsDict c.files
  pub bounded : total c.files ≤ c.max_bytes
  pub limit : c.max_bytes ≡ max

total-erase-le : (k : String) (d : Dict Entry) → total (Dict.erase k d) ≤ total d
unfolding Dict.erase
total-erase-le k [] = omega arith
total-erase-le k ((j, e) ∷ d) = ground (arith, total-erase-le k d)

total-insert :
    (k : String) (v : Entry) (d : Dict Entry) → total (Dict.insert k v d) ≤ length v.0 + total d
unfolding Dict.insert
total-insert k v [] = omega arith
total-insert k v ((j, e) ∷ d) = ground (arith, total-insert k v d)

absent_insert :
    (k j : String) (v : Entry) (d : Dict Entry)
    → (k ==ˢ j) ≡ false
    → Dict.lookup j d ≡ none
    → Dict.lookup j (Dict.insert k v d) ≡ none
absent_insert k j v d other absent = Dict.lookup-insert k j v d ∙ ground (arith, other, absent)

IsDict-insert : (k : String) (v : Entry) (d : Dict Entry) → IsDict d → IsDict (Dict.insert k v d)
unfolding Dict.insert
IsDict-insert k v [] h = (unfold Dict.lookup in refl, tt)
IsDict-insert k v ((j, e) ∷ d) h = elim (Bool-cases (j ==ˢ k)) [
  | inl same ↦
      rw same (ground (arith, h.0, eq_iff j k, ap (λ i. Dict.lookup i d) {x = j} {y = k}), h.1)
  | inr other ↦ rw other (
    absent_insert k j v d (ground (arith, other, eq_iff j k, eq_iff k j)) h.0,
    IsDict-insert k v d h.1,
  )
]

absent_filter :
    (p : String × Entry → Bool) (k : String) (d : Dict Entry)
    → Dict.lookup k d ≡ none
    → Dict.lookup k (filter p d) ≡ none
unfolding Dict.lookup
absent_filter p k [] absent = refl
absent_filter p k ((j, e) ∷ d) absent = ground (arith, absent, absent_filter p k d)

IsDict-filter : (p : String × Entry → Bool) (d : Dict Entry) → IsDict d → IsDict (filter p d)
IsDict-filter p [] h = tt
IsDict-filter p ((j, e) ∷ d) h = elim (Bool-cases (p (j, e))) [
  | inl kept ↦ rw (kept, filter) (absent_filter p j d h.0, IsDict-filter p d h.1)
  | inr gone ↦ rw (gone, filter) (IsDict-filter p d h.1)
]

total-filter : (p : String × Entry → Bool) (d : Dict Entry) → total (filter p d) ≤ total d
total-filter p [] = omega arith
total-filter p ((j, e) ∷ d) = ground (arith, total-filter p d)

remove-IsBounded :
    (max : ℕ) (k : String) (c : DiskCache) → IsBounded max c → IsBounded max (remove k c)
remove-IsBounded max k c h = record {
  distinct = IsDict-erase k c.files h.distinct;
  bounded = omega (arith, h.bounded, total-erase-le k c.files);
  limit = h.limit;
}

read-IsBounded :
    (max now : ℕ) (k : String) (o : Option Entry) (c : DiskCache)
    → IsBounded max c
    → IsBounded max (read now k o c).1
unfolding read
read-IsBounded max now k none c h = h
read-IsBounded max now k (some (content, mtime)) c h =
    elim (Bool-cases (is_expired c.ttl_seconds now mtime)) [
      | inl expired ↦ rw (expired, read) (remove-IsBounded max k c h)
      | inr young ↦ rw (young, read) h
    ]

set-IsBounded :
    (max now : ℕ) (k : String) (content : Bytes) (c : DiskCache)
    → IsBounded max c
    → IsBounded max (set now k content c)
unfolding set
set-IsBounded max now k content c h = elim (Bool-cases (ltb c.max_bytes (length content))) [
  | inl large ↦ rw (large, set) h
  | inr small ↦
      let room = ensure_space_fits (length content) c h.distinct (ground (arith, small)) in
      let files = (ensure_space (length content) c).files in
      rw (small, set)
        (record {
          distinct = IsDict-insert k (content, now) files room.0;
          bounded = omega (arith, room.1, room.2, total-insert k (content, now) files);
          limit = room.2 ∙ h.limit;
        })
]

step-IsBounded :
    (max : ℕ) (call : Call) (c : DiskCache) → IsBounded max c → IsBounded max (step call c)
unfolding step get cleanup_expired
step-IsBounded max (gets now k) c h = read-IsBounded max now k (Dict.lookup k c.files) c h
step-IsBounded max (sets now k content) c h = set-IsBounded max now k content c h
step-IsBounded max (cleans now) c h =
    let kept = λ (f : String × Entry). not (is_expired c.ttl_seconds now f.1.1) in
    record {
      distinct = IsDict-filter kept c.files h.distinct;
      bounded = omega (arith, h.bounded, total-filter kept c.files);
      limit = h.limit;
    }
step-IsBounded max clears c h = record { distinct = tt; bounded = omega arith; limit = h.limit }

-- If the files of a disk cache have different keys and together fit its bound, they do so after any
-- calls.
pub run-IsBounded :
    (max : ℕ) (calls : List Call) (c : DiskCache) → IsBounded max c → IsBounded max (run calls c)
unfolding run
run-IsBounded max [] c h = h
run-IsBounded max (call ∷ calls) c h =
    run-IsBounded max calls (step call c) (step-IsBounded max call c h)
