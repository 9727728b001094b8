-- ===== src/Cache/Memory/Recent.antt =====
-- The order of the entries of the memory cache: the last ones of the log of uses.
use genro_mail_proxy.Prelude.{
  ℕ, String, ◌≡◌, refl, sym, ap, ◌∙◌, Option, none, some, List, [], ◌∷◌, ◌++◌, ltb, arith, eq_refl,
  if◌then◌else◌, length, inl, inr, Bool-cases, Option-cases,
}
use mathlib.Core.Path.{subst}
use genro_mail_proxy.Prelude.Dict
use genro_mail_proxy.Prelude.Dict.{Dict}
use genro_mail_proxy.Cache.Memory.{
  Bytes, Entry, MemoryCache, empty, is_expired, remove, read, get, oldest, make_room, store, set,
  expired, remove_all, cleanup_expired, Call, gets, sets, cleans, clears, step, run,
}
use genro_mail_proxy.Cache.Memory.Counted.{IsDict, IsCounted, erase-absent, remove-IsCounted}
use genro_mail_proxy.Cache.Memory.Room.{make_room_keeps}
use genro_mail_proxy.Cache.Memory.Valid.{IsValid, insert-append, step-IsValid, run-IsValid, ready}

-- The log of uses, the last one at its end: the stores, and the reads that find their entry in the cache.
-- A key that is used again, or found expired, leaves its earlier place.
abbrev pub use_again : ℕ → ℕ → String → Option Entry → Dict Entry → Dict Entry
use_again ttl now k none h = h
use_again ttl now k (some e) h =
    if is_expired ttl now e.1 then Dict.erase k h else Dict.erase k h ++ (k, e) ∷ []

abbrev pub forget : List String → Dict Entry → Dict Entry
forget [] h = h
forget (k ∷ ks) h = forget ks (Dict.erase k h)

abbrev pub note : Call → MemoryCache → Dict Entry → Dict Entry
note (gets now k) c h = use_again c.ttl_seconds now k (Dict.lookup k c.cache) h
note (sets now k content) c h =
    if ltb c.max_bytes (length content) then h else Dict.erase k h ++ (k, (content, now)) ∷ []
note (cleans now) c h = forget (expired c.ttl_seconds now c.cache) h
note clears c h = []

-- The log after some calls.
unfoldable pub history : List Call → MemoryCache → Dict Entry → Dict Entry
unfolding step
history [] c h = h
history (call ∷ calls) c h = history calls (step call c) (note call c h)

-- The cache holds the last uses of the log.
abbrev pub IsLast : Dict Entry → Dict Entry → Type 0
IsLast h d = (before : Dict Entry) × (h ≡ before ++ d)

append_assoc : (a b c : Dict Entry) → (a ++ b) ++ c ≡ a ++ (b ++ c)
append_assoc [] b c = refl
append_assoc (x ∷ a) b c = ap (λ r. x ∷ r) (append_assoc a b c)

erase-append :
    (k : String) (a b : Dict Entry) → Dict.erase k (a ++ b) ≡ Dict.erase k a ++ Dict.erase k b
unfolding Dict.erase
erase-append k [] b = refl
erase-append k ((j, e) ∷ a) b = ground (arith, erase-append k a b)

IsLast-erase :
    (k : String) (h d : Dict Entry) → IsLast h d → IsLast (Dict.erase k h) (Dict.erase k d)
IsLast-erase k h d (before, eq) =
    (Dict.erase k before, ap (Dict.erase k) eq ∙ erase-append k before d)

IsLast-append :
    (e : String × Entry) (h d : Dict Entry) → IsLast h d → IsLast (h ++ e ∷ []) (d ++ e ∷ [])
IsLast-append e h d (before, eq) =
    (before, ap (λ x. x ++ e ∷ []) eq ∙ append_assoc before d (e ∷ []))

IsLast-tail : (e : String × Entry) (h d : Dict Entry) → IsLast h (e ∷ d) → IsLast h d
IsLast-tail e h d (before, eq) = (before ++ e ∷ [], eq ∙ sym (append_assoc before (e ∷ []) d))

pub remove-cache : (k : String) (c : MemoryCache) → (remove k c).cache ≡ Dict.erase k c.cache
unfolding remove
remove-cache k c = elim (Option-cases (Dict.lookup k c.cache)) [
  | inl absent ↦ rw (absent, remove) (sym (erase-absent k c.cache absent))
  | inr found ↦ rw (found.1, remove) refl
]

pub head_erased :
    (k j : String) (e : Entry) (rest : Dict Entry)
    → Option.some j ≡ some k
    → Dict.lookup j rest ≡ none
    → Dict.erase k ((j, e) ∷ rest) ≡ rest
unfolding Dict.erase
head_erased k j e rest first absent = ground (arith, first, absent, eq_refl j, erase-absent j rest)

oldest_erased :
    (k : String) (h d : Dict Entry)
    → oldest d ≡ some k
    → IsDict d
    → IsLast h d
    → IsLast h (Dict.erase k d)
oldest_erased k h [] first distinct last = cc
oldest_erased k h ((j, e) ∷ rest) first distinct last =
    subst (IsLast h) (sym (head_erased k j e rest first distinct.0))
      (IsLast-tail (j, e) h rest last)

-- The removal of the oldest entry keeps the others, in their order.
oldest_gone :
    (k : String) (h : Dict Entry) (c : MemoryCache)
    → oldest c.cache ≡ some k
    → IsDict c.cache
    → IsLast h c.cache
    → IsLast h (remove k c).cache
oldest_gone k h c first distinct last =
    subst (IsLast h) (sym (remove-cache k c)) (oldest_erased k h c.cache first distinct last)

-- The cache is counted, and holds the last uses.
abbrev Follows : Dict Entry → MemoryCache → Type 0
Follows h c = IsCounted c × IsLast h c.cache

Follows-make_room :
    (h : Dict Entry) (fuel size : ℕ) (c : MemoryCache)
    → Follows h c
    → Follows h (make_room fuel size c)
Follows-make_room h fuel size c f =
    make_room_keeps (Follows h) fuel size c
      (λ k x first g. (remove-IsCounted k x g.0, oldest_gone k h x first g.0.distinct g.1)) f

IsLast-remove :
    (k : String) (h : Dict Entry) (c : MemoryCache)
    → IsLast h c.cache
    → IsLast (Dict.erase k h) (remove k c).cache
IsLast-remove k h c last =
    subst (IsLast (Dict.erase k h)) (sym (remove-cache k c)) (IsLast-erase k h c.cache last)

IsLast-remove_all :
    (ks : List String) (h : Dict Entry) (c : MemoryCache)
    → IsLast h c.cache
    → IsLast (forget ks h) (remove_all ks c).cache
unfolding remove_all
IsLast-remove_all [] h c last = last
IsLast-remove_all (k ∷ ks) h c last =
    IsLast-remove_all ks (Dict.erase k h) (remove k c) (IsLast-remove k h c last)

IsLast-read :
    (now : ℕ) (k : String) (o : Option Entry) (h : Dict Entry) (c : MemoryCache)
    → IsLast h c.cache
    → IsLast (use_again c.ttl_seconds now k o h) (read now k o c).1.cache
unfolding read
IsLast-read now k none h c last = last
IsLast-read now k (some (content, ts)) h c last =
    elim (Bool-cases (is_expired c.ttl_seconds now ts)) [
      | inl old ↦ rw old (IsLast-remove k h c last)
      | inr young ↦ rw young (
          IsLast-append (k, (content, ts)) (Dict.erase k h) (Dict.erase k c.cache)
            (IsLast-erase k h c.cache last))
    ]

IsLast-set :
    (max now : ℕ) (k : String) (content : Bytes) (h : Dict Entry) (c : MemoryCache)
    → IsValid max c
    → IsLast h c.cache
    → IsLast (note (sets now k content) c h) (set now k content c).cache
unfolding set store
IsLast-set max now k content h c valid last = elim (Bool-cases (ltb c.max_bytes (length content))) [
  | inl large ↦ rw large last
  | inr small ↦
      let c1 = remove k c in
      let room = make_room (length c1.cache) (length content) c1 in
      let r = ready max k (length content) c valid (ground (arith, small, valid.limit)) in
      let f =
        Follows-make_room (Dict.erase k h) (length c1.cache) (length content) c1
          (remove-IsCounted k c valid.contents, IsLast-remove k h c last) in
      rw small (
        subst (IsLast (Dict.erase k h ++ (k, (content, now)) ∷ []))
          (sym (insert-append k (content, now) room.cache r.2))
          (IsLast-append (k, (content, now)) (Dict.erase k h) room.cache f.1))
]

step-IsLast :
    (max : ℕ) (call : Call) (h : Dict Entry) (c : MemoryCache)
    → IsValid max c
    → IsLast h c.cache
    → IsLast (note call c h) (step call c).cache
unfolding step get cleanup_expired
step-IsLast max (gets now k) h c valid last = IsLast-read now k (Dict.lookup k c.cache) h c last
step-IsLast max (sets now k content) h c valid last = IsLast-set max now k content h c valid last
step-IsLast max (cleans now) h c valid last =
    IsLast-remove_all (expired c.ttl_seconds now c.cache) h c last
step-IsLast max clears h c valid last = ([], refl)

run_follows :
    (max : ℕ) (calls : List Call) (h : Dict Entry) (c : MemoryCache)
    → IsValid max c
    → IsLast h c.cache
    → IsLast (history calls c h) (run calls c).cache
unfolding history run
run_follows max [] h c valid last = last
run_follows max (call ∷ calls) h c valid last =
    run_follows max calls (note call c h) (step call c) (step-IsValid max call c valid)
      (step-IsLast max call h c valid last)

-- After any calls on an empty cache its entries are the last ones of the log of uses, in their order and
-- with their contents.
pub run-IsLast :
    (max ttl : ℕ) (calls : List Call)
    → IsLast (history calls (empty max ttl) []) (run calls (empty max ttl)).cache
run-IsLast max ttl calls =
    run_follows max calls [] (empty max ttl) (unfold run in run-IsValid max ttl []) ([], refl)
