-- ===== src/Cache/Memory.antt =====
-- `MemoryCache` of src/core/mail_proxy/smtp/cache.py. The `OrderedDict` lists the least recently used
-- entry first.
pub mod Counted
pub mod Room
pub mod Valid
pub mod Recent
pub mod Evictions
pub mod Reads
use genro_mail_proxy.Prelude.{
  ℕ, zero, suc, ◌+◌, ◌-◌, String, Bool, true, false, Option, none, some, List, [], ◌∷◌, ◌++◌, ltb,
  if◌then◌else◌, length, is_some,
}
use genro_mail_proxy.Prelude.Dict
use genro_mail_proxy.Prelude.Dict.{Dict}

abbrev pub Bytes : Type 0
Bytes = List ℕ

-- The content, and the time at which it was stored.
abbrev pub Entry : Type 0
Entry = Bytes × ℕ

pub record MemoryCache : Type 0 where
  pub max_bytes : ℕ
  pub ttl_seconds : ℕ
  pub cache : Dict Entry
  pub current_bytes : ℕ

abbrev pub empty : ℕ → ℕ → MemoryCache
empty max ttl = record { max_bytes = max; ttl_seconds = ttl; cache = []; current_bytes = 0 }

-- `now - timestamp > ttl`
abbrev pub is_expired : ℕ → ℕ → ℕ → Bool
is_expired ttl now timestamp = ltb (timestamp + ttl) now

-- `_remove`
unfoldable pub remove : String → MemoryCache → MemoryCache
remove k c = elim (Dict.lookup k c.cache) [
  | none ↦ c
  | some e ↦ record c { cache = Dict.erase k c.cache; current_bytes = c.current_bytes - length e.0 }
]

-- The branches of `get` on the entry that was found.
unfoldable pub read : ℕ → String → Option Entry → MemoryCache → Option Bytes × MemoryCache
unfolding remove
read now k none c = (none, c)
read now k (some (content, timestamp)) c =
    if is_expired c.ttl_seconds now timestamp
    then (none, remove k c)
    else (some content, record c { cache = Dict.erase k c.cache ++ (k, (content, timestamp)) ∷ [] })

unfoldable pub get : ℕ → String → MemoryCache → Option Bytes × MemoryCache
unfolding read
get now k c = read now k (Dict.lookup k c.cache) c

-- The key that `next(iter(self._cache))` gives, if there is an entry.
abbrev pub oldest : Dict Entry → Option String
oldest [] = none
oldest ((k, e) ∷ d) = some k

-- The loop that evicts, on fuel: the oldest entry goes while the content does not fit.
unfoldable pub make_room : ℕ → ℕ → MemoryCache → MemoryCache
unfolding remove
make_room zero size c = c
make_room (suc fuel) size c = elim (oldest c.cache) [
  | none ↦ c
  | some k ↦ elim (ltb c.max_bytes (c.current_bytes + size)) [
    | true ↦ make_room fuel size (remove k c)
    | false ↦ c
  ]
]

-- The entry is put at the end: its key is not there any more.
unfoldable pub store : ℕ → String → Bytes → MemoryCache → MemoryCache
store now k content c = record c {
  cache = Dict.insert k (content, now) c.cache;
  current_bytes = c.current_bytes + length content;
}

-- The fuel is the number of entries.
unfoldable pub set : ℕ → String → Bytes → MemoryCache → MemoryCache
unfolding remove make_room store
set now k content c =
    if ltb c.max_bytes (length content)
    then c
    else (let c' = remove k c in
        store now k content (make_room (length c'.cache) (length content) c'))

abbrev pub clear : MemoryCache → MemoryCache
clear c = record c { cache = []; current_bytes = 0 }

-- The keys of the entries that have expired, and the number of entries that are removed.
unfoldable pub expired : ℕ → ℕ → Dict Entry → List String
expired ttl now [] = []
expired ttl now ((k, (content, timestamp)) ∷ d) =
    let rest = expired ttl now d in if is_expired ttl now timestamp then k ∷ rest else rest

unfoldable pub remove_all : List String → MemoryCache → MemoryCache
unfolding remove
remove_all [] c = c
remove_all (k ∷ ks) c = remove_all ks (remove k c)

unfoldable pub cleanup_expired : ℕ → MemoryCache → ℕ × MemoryCache
unfolding expired remove_all
cleanup_expired now c = let ks = expired c.ttl_seconds now c.cache in (length ks, remove_all ks c)

-- A call of the cache, with its time.
pub data Call : Type 0 where
  gets : ℕ → String → Call
  sets : ℕ → String → Bytes → Call
  cleans : ℕ → Call
  clears : Call

unfoldable pub step : Call → MemoryCache → MemoryCache
unfolding get set cleanup_expired
step (gets now k) c = (get now k c).1
step (sets now k content) c = set now k content c
step (cleans now) c = (cleanup_expired now c).1
step clears c = clear c

unfoldable pub run : List Call → MemoryCache → MemoryCache
unfolding step
run [] c = c
run (call ∷ calls) c = run calls (step call c)
