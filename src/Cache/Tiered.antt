-- ===== src/Cache/Tiered.antt =====
-- `TieredCache` of src/core/mail_proxy/smtp/cache.py: small contents in memory, large ones on disk.
pub mod Reads
use genro_mail_proxy.Prelude.{ℕ, String, Option, none, some, ltb, if◌then◌else◌, length}
use genro_mail_proxy.Cache.Memory
use genro_mail_proxy.Cache.Memory.{Bytes, MemoryCache}
use genro_mail_proxy.Cache.Disk
use genro_mail_proxy.Cache.Disk.{DiskCache}

pub record TieredCache : Type 0 where
  pub memory : MemoryCache
  pub disk : Option DiskCache
  pub threshold_bytes : ℕ

-- What `get` does with the answer of the disk cache: small contents are promoted to memory.
unfoldable pub promote : ℕ → String → Option Bytes → TieredCache → Option Bytes × TieredCache
promote now k none c = (none, c)
promote now k (some content) c = (
  some content,
  record c {
    memory =
        if ltb (length content) c.threshold_bytes
        then Memory.set now k content c.memory
        else c.memory;
  },
)

unfoldable pub get_from_disk :
    ℕ → String → Option DiskCache → TieredCache → Option Bytes × TieredCache
unfolding promote
get_from_disk now k none c = (none, c)
get_from_disk now k (some d) c =
    promote now k (Disk.get now k d).0 (record c { disk = some (Disk.get now k d).1 })

-- What `get` does with the answer of the memory cache.
unfoldable pub get_past_memory :
    ℕ → String → Option Bytes → TieredCache → Option Bytes × TieredCache
unfolding get_from_disk
get_past_memory now k (some content) c = (some content, c)
get_past_memory now k none c = get_from_disk now k c.disk c

unfoldable pub get : ℕ → String → TieredCache → Option Bytes × TieredCache
unfolding get_past_memory
get now k c =
    get_past_memory now k (Memory.get now k c.memory).0
      (record c { memory = (Memory.get now k c.memory).1 })

unfoldable pub set : ℕ → String → Bytes → TieredCache → TieredCache
set now k content c =
    if ltb (length content) c.threshold_bytes
    then record c { memory = Memory.set now k content c.memory }
    else record c { disk = elim c.disk [ none ↦ none | some d ↦ some (Disk.set now k content d) ] }

-- The numbers of entries removed from memory and from disk.
unfoldable pub cleanup_expired : ℕ → TieredCache → (ℕ × ℕ) × TieredCache
cleanup_expired now c =
    let (in_memory, m) = Memory.cleanup_expired now c.memory in
    elim c.disk [
      | none ↦ ((in_memory, 0), record c { memory = m })
      | some d ↦
          (let (on_disk, d') = Disk.cleanup_expired now d in
            ((in_memory, on_disk), record c { memory = m; disk = some d' }))
    ]

abbrev pub clear : TieredCache → TieredCache
clear c = record c {
  memory = Memory.clear c.memory;
  disk = elim c.disk [ none ↦ none | some d ↦ some (Disk.clear d) ];
}
