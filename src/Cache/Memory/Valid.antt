-- ===== src/Cache/Memory/Valid.antt =====
-- The bound on the size of the memory cache, and what is read after a write.
use mathlib.Core.Path.{subst}
use genro_mail_proxy.Prelude.{
  ℕ, ◌+◌, ◌≤◌, String, ◌≡◌, refl, sym, ap, ◌∙◌, false, Option, none, some, List, [], ◌∷◌, ◌++◌, ltb,
  arith, eq_iff, eq_refl, ◌==ˢ◌, length, inl, inr, Bool-cases,
}
use genro_mail_proxy.Prelude.Dict
use genro_mail_proxy.Prelude.Dict.{Dict}
use genro_mail_proxy.Cache.Memory.{
  Bytes, Entry, MemoryCache, empty, is_expired, remove, read, get, make_room, store, set, expired,
  remove_all, cleanup_expired, Call, gets, sets, cleans, clears, step, run,
}
use genro_mail_proxy.Cache.Memory.Counted.{
  total, IsDict, IsDict-erase, total-erase, IsCounted, remove-IsCounted, remove-total,
  lookup-remove, HasSpace,
}
use genro_mail_proxy.Cache.Memory.Room.{make_room_keeps, make_room_fits}

-- The size is counted right and within the bound, and no key stands twice.
pub record IsValid (max : ℕ) (c : MemoryCache) : Type 0 where
  pub contents : IsCounted c
  pub bounded : c.current_bytes ≤ c.max_bytes
  pub limit : c.max_bytes ≡ max

total-append :
    (k : String) (e : Entry) (d : Dict Entry) → total (d ++ (k, e) ∷ []) ≡ length e.0 + total d
total-append k e [] = refl
total-append k e ((j, f) ∷ d) = omega (arith, total-append k e d)

pub insert-append :
    (k : String) (e : Entry) (d : Dict Entry)
    → Dict.lookup k d ≡ none
    → Dict.insert k e d ≡ d ++ (k, e) ∷ []
unfolding Dict.lookup Dict.insert
insert-append k e [] h = refl
insert-append k e ((j, f) ∷ d) h = ground (arith, h, insert-append k e d)

cons_absent :
    (k j : String) (f : Entry) (d : Dict Entry)
    → Dict.lookup k ((j, f) ∷ d) ≡ none
    → ((j ==ˢ k) ≡ false) × (Dict.lookup k d ≡ none)
unfolding Dict.lookup
cons_absent k j f d absent = (ground (arith, absent), ground (arith, absent))

pub IsDict-append :
    (k : String) (e : Entry) (d : Dict Entry)
    → IsDict d
    → Dict.lookup k d ≡ none
    → IsDict (d ++ (k, e) ∷ [])
IsDict-append k e [] h absent = (unfold Dict.lookup in refl, tt)
IsDict-append k e ((j, f) ∷ d) h absent =
    let apart = cons_absent k j f d absent in
    (
      ap (Dict.lookup j) (sym (insert-append k e d apart.1))
          ∙ Dict.lookup-insert k j e d
          ∙ ground (arith, apart.0, eq_iff j k, eq_iff k j, h.0),
      IsDict-append k e d h.1 apart.1,
    )

-- The limits and the sizes that one removal leaves.
remove-IsValid : (max : ℕ) (k : String) (c : MemoryCache) → IsValid max c → IsValid max (remove k c)
remove-IsValid max k c h =
    let t = remove-total k c in
    record {
      contents = remove-IsCounted k c h.contents;
      bounded = omega (arith, t.0, t.2, h.bounded);
      limit = t.0 ∙ h.limit;
    }

pub remove_all-IsValid :
    (max : ℕ) (ks : List String) (c : MemoryCache) → IsValid max c → IsValid max (remove_all ks c)
unfolding remove_all
remove_all-IsValid max [] c h = h
remove_all-IsValid max (k ∷ ks) c h =
    remove_all-IsValid max ks (remove k c) (remove-IsValid max k c h)

erased : (k : String) (d : Dict Entry) → Dict.lookup k (Dict.erase k d) ≡ none
erased k d = Dict.lookup-erase k k d ∙ rw (eq_refl k) refl

read-IsValid :
    (max now : ℕ) (k : String) (o : Option Entry) (c : MemoryCache)
    → Dict.lookup k c.cache ≡ o
    → IsValid max c
    → IsValid max (read now k o c).1
unfolding read
read-IsValid max now k none c found h = h
read-IsValid max now k (some (content, ts)) c found h =
    elim (Bool-cases (is_expired c.ttl_seconds now ts)) [
      | inl old ↦ rw old (remove-IsValid max k c h)
      | inr young ↦ rw young (record {
        contents = record {
          counted = omega (
            arith,
            h.contents.counted,
            total-append k (content, ts) (Dict.erase k c.cache),
            total-erase k (content, ts) c.cache h.contents.distinct found,
          );
          distinct =
              IsDict-append k (content, ts) (Dict.erase k c.cache)
                (IsDict-erase k c.cache h.contents.distinct) (erased k c.cache);
        };
        bounded = h.bounded;
        limit = h.limit;
      })
    ]

get-IsValid :
    (max now : ℕ) (k : String) (c : MemoryCache) → IsValid max c → IsValid max (get now k c).1
unfolding get
get-IsValid max now k c h = read-IsValid max now k (Dict.lookup k c.cache) c refl h

-- What is true of the cache when the content is stored.
pub ready :
    (max : ℕ) (k : String) (size : ℕ) (c : MemoryCache)
    → IsValid max c
    → size ≤ max
    → let room = make_room (length (remove k c).cache) size (remove k c) in
      IsValid max room × HasSpace size room × (Dict.lookup k room.cache ≡ none)
ready max k size c h small =
    let c1 = remove k c in
    let h1 = remove-IsValid max k c h in
    (
      make_room_keeps (IsValid max) (length c1.cache) size c1 (λ j x _ v. remove-IsValid max j x v)
          h1,
      make_room_fits (length c1.cache) size c1 (omega arith) h1.contents (rw h1.limit small),
      make_room_keeps (λ x. Dict.lookup k x.cache ≡ none) (length c1.cache) size c1
          (λ j x _ absent. lookup-remove j k x ∙ ground (arith, absent))
          (lookup-remove k k c ∙ rw (eq_refl k) refl),
    )

store-IsValid :
    (max now : ℕ) (k : String) (content : Bytes) (c : MemoryCache)
    → IsValid max c
    → HasSpace (length content) c
    → Dict.lookup k c.cache ≡ none
    → IsValid max (store now k content c)
unfolding store
store-IsValid max now k content c h space absent = record {
  contents = record {
    counted =
        ap (λ n. n + length content) h.contents.counted
        ∙ omega (arith, total-append k (content, now) c.cache)
        ∙ ap total (sym (insert-append k (content, now) c.cache absent));
    distinct =
        subst IsDict (sym (insert-append k (content, now) c.cache absent))
          (IsDict-append k (content, now) c.cache h.contents.distinct absent);
  };
  bounded = space;
  limit = h.limit;
}

set-IsValid :
    (max now : ℕ) (k : String) (content : Bytes) (c : MemoryCache)
    → IsValid max c
    → IsValid max (set now k content c)
unfolding set
set-IsValid max now k content c h = elim (Bool-cases (ltb c.max_bytes (length content))) [
  | inl large ↦ rw large h
  | inr small ↦
      let r = ready max k (length content) c h (ground (arith, small, h.limit)) in
      rw small (store-IsValid max now k content _ r.0 r.1 r.2)
]

pub step-IsValid :
    (max : ℕ) (call : Call) (c : MemoryCache) → IsValid max c → IsValid max (step call c)
unfolding step cleanup_expired
step-IsValid max (gets now k) c h = get-IsValid max now k c h
step-IsValid max (sets now k content) c h = set-IsValid max now k content c h
step-IsValid max (cleans now) c h = remove_all-IsValid max (expired c.ttl_seconds now c.cache) c h
step-IsValid max clears c h = record {
  contents = record { counted = refl; distinct = tt };
  bounded = omega arith;
  limit = h.limit;
}

run_keeps :
    (max : ℕ) (calls : List Call) (c : MemoryCache) → IsValid max c → IsValid max (run calls c)
unfolding run
run_keeps max [] c h = h
run_keeps max (call ∷ calls) c h = run_keeps max calls (step call c) (step-IsValid max call c h)

-- After any calls on an empty cache the size that it counts is the size of its contents, at most the
-- bound that it was made with, and no key stands twice.
pub run-IsValid : (max ttl : ℕ) (calls : List Call) → IsValid max (run calls (empty max ttl))
run-IsValid max ttl calls = run_keeps max calls (empty max ttl) (record {
  contents = record { counted = refl; distinct = tt };
  bounded = omega arith;
  limit = refl;
})
