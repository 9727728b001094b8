-- ===== src/Cache/Memory/Evictions.antt =====
-- What a store evicts from the memory cache: the entries at the front that have to go, and no more.
use genro_mail_proxy.Prelude.{
  ℕ, zero, suc, ◌+◌, ◌≤◌, ◌<◌, String, ◌≡◌, refl, sym, ap, ◌∙◌, true, false, some, List, [], ◌∷◌,
  ◌++◌, ltb, arith, length, inl, inr, Bool-cases,
}
use mathlib.Core.Path.{subst}
use genro_mail_proxy.Prelude.Dict
use genro_mail_proxy.Prelude.Dict.{Dict}
use genro_mail_proxy.Cache.Memory.{
  Bytes, Entry, MemoryCache, empty, remove, oldest, make_room, store, set, Call, run,
}
use genro_mail_proxy.Cache.Memory.Counted.{total, IsDict, IsCounted, remove-IsCounted, remove-total}
use genro_mail_proxy.Cache.Memory.Valid.{IsValid, insert-append, run-IsValid, ready}
use genro_mail_proxy.Cache.Memory.Recent.{IsLast, history, run-IsLast, head_erased, remove-cache}

-- The last of the evicted entries had to go: it and those that are kept leave no room for `size` bytes.
abbrev pub IsNeeded : ℕ → ℕ → Dict Entry → Dict Entry → Type 0
IsNeeded max size [] kept = Unit
IsNeeded max size (e ∷ []) kept = max < total (e ∷ kept) + size
IsNeeded max size (e ∷ f ∷ gone) kept = IsNeeded max size (f ∷ gone) kept

-- Entries go from the front until `size` bytes fit, and none after that.
abbrev pub MakesRoom : ℕ → ℕ → Dict Entry → Dict Entry → Type 0
MakesRoom max size d kept =
    (gone : Dict Entry) × (d ≡ gone ++ kept)
    × (total kept + size ≤ max)
    × IsNeeded max size gone kept

one_more :
    (max size : ℕ) (e : String × Entry) (d kept : Dict Entry)
    → max < total (e ∷ d) + size
    → MakesRoom max size d kept
    → MakesRoom max size (e ∷ d) kept
one_more max size e d kept over ([], split, fits, needed) =
    (e ∷ [], ap (λ r. e ∷ r) split, fits, subst (λ r. max < total (e ∷ r) + size) split over)
one_more max size e d kept over (f ∷ gone, split, fits, needed) =
    (e ∷ f ∷ gone, ap (λ r. e ∷ r) split, fits, needed)

remove_first :
    (k : String) (e : Entry) (rest : Dict Entry) (c : MemoryCache)
    → c.cache ≡ (k, e) ∷ rest
    → IsCounted c
    → (remove k c).cache ≡ rest
remove_first k e rest c shape h =
    remove-cache k c
    ∙ ap (Dict.erase k) shape
    ∙ head_erased k k e rest refl (subst IsDict shape h.distinct).0

none_left : (fuel size : ℕ) (c : MemoryCache) → c.cache ≡ [] → c ≡ make_room fuel size c
unfolding make_room
none_left zero size c shape = refl
none_left (suc fuel) size c shape = rw (ap oldest shape, make_room) refl

goes_on :
    (fuel size : ℕ) (c : MemoryCache) (k : String)
    → oldest c.cache ≡ some k
    → ltb c.max_bytes (c.current_bytes + size) ≡ true
    → make_room fuel size (remove k c) ≡ make_room (suc fuel) size c
unfolding make_room
goes_on fuel size c k first full = rw (first, full, make_room) refl

stops :
    (fuel size : ℕ) (c : MemoryCache) (k : String)
    → oldest c.cache ≡ some k
    → ltb c.max_bytes (c.current_bytes + size) ≡ false
    → c ≡ make_room (suc fuel) size c
unfolding make_room
stops fuel size c k first fits = rw (first, fits, make_room) refl

make_room-MakesRoom :
    (max fuel size : ℕ) (c : MemoryCache) (d : Dict Entry)
    → c.max_bytes ≡ max
    → c.cache ≡ d
    → length d ≤ fuel
    → IsCounted c
    → size ≤ max
    → MakesRoom max size d (make_room fuel size c).cache
make_room-MakesRoom max fuel size c [] limit shape enough h small =
    subst (λ x. MakesRoom max size [] x.cache) (none_left fuel size c shape)
      (subst (MakesRoom max size []) (sym shape) ([], refl, omega (arith, small), tt))
make_room-MakesRoom max zero size c (e ∷ rest) limit shape enough h small =
    absurd (ground (arith, enough))
make_room-MakesRoom max (suc fuel) size c ((k, e) ∷ rest) limit shape enough h small =
    let first = ap oldest shape in
    let sizes = h.counted ∙ ap total shape in
    elim (Bool-cases (ltb c.max_bytes (c.current_bytes + size))) [
      | inl full ↦
          subst (λ x. MakesRoom max size ((k, e) ∷ rest) x.cache) (goes_on fuel size c k first full)
            (one_more max size (k, e) rest _ (ground (arith, full, sizes, limit))
              (make_room-MakesRoom max fuel size (remove k c) rest ((remove-total k c).0 ∙ limit)
                (remove_first k e rest c shape h) (ground (arith, enough)) (remove-IsCounted k c h)
                small))
      | inr fits ↦
          subst (λ x. MakesRoom max size ((k, e) ∷ rest) x.cache) (stops fuel size c k first fits)
            (subst (MakesRoom max size ((k, e) ∷ rest)) (sym shape)
              ([], refl, ground (arith, fits, sizes, limit), tt))
    ]

set-shape :
    (max now : ℕ) (k : String) (content : Bytes) (c : MemoryCache)
    → IsValid max c
    → length content ≤ max
    → (kept : Dict Entry) × ((set now k content c).cache ≡ kept ++ (k, (content, now)) ∷ [])
      × MakesRoom max (length content) (Dict.erase k c.cache) kept
unfolding set store
set-shape max now k content c valid small =
    let c1 = remove k c in
    let room = make_room (length c1.cache) (length content) c1 in
    let fits : ltb c.max_bytes (length content) ≡ false = ground (arith, small, valid.limit) in
    (
      room.cache,
      rw fits (
          insert-append k (content, now) room.cache (ready max k (length content) c valid small).2),
      subst (λ d. MakesRoom max (length content) d room.cache) (remove-cache k c)
          (make_room-MakesRoom max (length c1.cache) (length content) c1 c1.cache
            ((remove-total k c).0 ∙ valid.limit) refl (omega arith)
            (remove-IsCounted k c valid.contents) small),
    )

-- After any calls on an empty cache its entries are the last ones of the log of uses, in their order: of
-- the stores, and of the reads that found their entry, without the keys that were stored again or found
-- expired. And a store of a content that is not larger than the bound, made after them, puts its entry at
-- the end and drops, beside the old entry of its key, entries from the front until the content fits: those
-- that are kept and the content are within the bound, and with the last of the dropped ones they are not.
pub run-MakesRoom :
    (max ttl : ℕ) (calls : List Call) (now : ℕ) (k : String) (content : Bytes)
    → length content ≤ max
    → IsLast (history calls (empty max ttl) []) (run calls (empty max ttl)).cache
      × ((kept : Dict Entry) × ((set now k content (run calls (empty max ttl))).cache
            ≡ kept ++ (k, (content, now)) ∷ [])
          × MakesRoom max (length content) (Dict.erase k (run calls (empty max ttl)).cache) kept)
run-MakesRoom max ttl calls now k content small = (
  run-IsLast max ttl calls,
  set-shape max now k content (run calls (empty max ttl)) (run-IsValid max ttl calls) small,
)
