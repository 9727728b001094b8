-- ===== src/Tests/Caching.antt =====
-- The attachment cache at small inputs.
use genro_mail_proxy.Prelude.{◌≡◌, refl, some, List, [], ◌∷◌, ◌++◌, arith}
use genro_mail_proxy.Prelude.Dict
use genro_mail_proxy.Prelude.Dict.{Dict}
use genro_mail_proxy.Cache.Memory
use genro_mail_proxy.Cache.Memory.{Entry, empty, Call, gets, sets, cleans, run, get, read}
use genro_mail_proxy.Cache.Memory.Valid.{IsValid, run-IsValid}
use genro_mail_proxy.Cache.Memory.Recent.{IsLast, history}
use genro_mail_proxy.Cache.Memory.Evictions.{MakesRoom, run-MakesRoom}
use genro_mail_proxy.Cache.Disk
use genro_mail_proxy.Cache.Disk.{DiskCache}
use genro_mail_proxy.Cache.Disk.Bounded.{IsBounded, run-IsBounded}
use genro_mail_proxy.Cache.Tiered
use genro_mail_proxy.Cache.Tiered.{TieredCache}
use genro_mail_proxy.Cache.Tiered.Reads.{on_disk, get-set}

-- The third content takes the place of "b", since "a" was read after it.
abbrev calls : List Call
calls =
    sets 100 "a" (1 ∷ 2 ∷ [])
    ∷ sets 101 "b" (3 ∷ 4 ∷ [])
    ∷ gets 102 "a"
    ∷ sets 103 "c" (5 ∷ 6 ∷ [])
    ∷ cleans 104
    ∷ []

evicts : (run calls (empty 5 60)).cache ≡ ("a", (1 ∷ 2 ∷ [], 100)) ∷ ("c", (5 ∷ 6 ∷ [], 103)) ∷ []
unfolding run Dict.lookup Dict.insert Dict.erase
evicts = refl

run-IsValid_example : IsValid 5 (run calls (empty 5 60))
run-IsValid_example = run-IsValid 5 60 calls

run-MakesRoom_example :
    IsLast (history calls (empty 5 60) []) (run calls (empty 5 60)).cache
    × ((kept : Dict Entry) × ((Memory.set 104 "d" (7 ∷ 8 ∷ []) (run calls (empty 5 60))).cache
          ≡ kept ++ ("d", (7 ∷ 8 ∷ [], 104)) ∷ [])
        × MakesRoom 5 2 (Dict.erase "d" (run calls (empty 5 60)).cache) kept)
run-MakesRoom_example = run-MakesRoom 5 60 calls 104 "d" (7 ∷ 8 ∷ []) (omega arith)

abbrev tiers : TieredCache
tiers = record {
  memory = empty 4 60;
  disk = some (record { max_bytes = 8; ttl_seconds = 600; files = [] });
  threshold_bytes = 3;
}

get-set_example :
    (Tiered.get 500 "a" (Tiered.set 100 "a" (1 ∷ 2 ∷ 3 ∷ 4 ∷ 5 ∷ []) tiers)).0
    ≡ some (1 ∷ 2 ∷ 3 ∷ 4 ∷ 5 ∷ [])
unfolding Dict.lookup get read
get-set_example = get-set tiers 100 500 "a" (1 ∷ 2 ∷ 3 ∷ 4 ∷ 5 ∷ []) (
    on_disk (record { max_bytes = 8; ttl_seconds = 600; files = [] }) refl (omega arith)
      (omega arith) (omega arith) refl)

abbrev disk : DiskCache
disk = record {
  max_bytes = 4;
  ttl_seconds = 600;
  files = ("a", (1 ∷ 2 ∷ [], 100)) ∷ ("b", (3 ∷ 4 ∷ [], 90)) ∷ [];
}

-- The new file takes the place of "b", which is older.
replaces :
    (Disk.run (sets 110 "c" (5 ∷ []) ∷ []) disk).files
    ≡ ("a", (1 ∷ 2 ∷ [], 100)) ∷ ("c", (5 ∷ [], 110)) ∷ []
unfolding Disk.run Dict.lookup Dict.insert Dict.erase
replaces = refl

run-IsBounded_example : IsBounded 4 (Disk.run calls disk)
unfolding Dict.lookup
run-IsBounded_example =
    run-IsBounded 4 calls disk
      (record { distinct = (refl, (refl, tt)); bounded = omega arith; limit = refl })
