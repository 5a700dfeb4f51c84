-- ===== src/BufferCache.antt =====
-- kernel/hal/storage/buffer_cache.cpp: the cache of sectors. The 64 entries are a list, none where the
-- pointer is null; the bytes of an entry and of a buffer are functions of the offset.
pub mod Coherence
pub mod Puts
pub mod History
pub mod Hits
mod Tests
use morphic_os_dev.Base.{
  ℕ, zero, suc, ◌+◌, Bool, true, false, ◌&&◌, Option, none, some, List, [], ◌∷◌, ltb, ◌==◌,
  if◌then◌else◌, take, set, get_elem?, add32,
}
use morphic_os_dev.Runtime.{Text, same_text}

pub record CacheEntry : Type 0 where
  pub device_name : Text
  pub lba : ℕ
  pub bytes : ℕ → ℕ
  pub access_count : ℕ
  pub valid : Bool

pub record BufferCache : Type 0 where
  pub cache : Option (List CacheEntry)
  pub hit_count : ℕ
  pub miss_count : ℕ
  pub access_counter : ℕ

abbrev pub cache_size : ℕ
cache_size = 64

abbrev pub max_sector_size : ℕ
max_sector_size = 512

-- `kmemcpy(to, from, n)` between two blocks.
abbrev pub copy_bytes : ℕ → (ℕ → ℕ) → (ℕ → ℕ) → ℕ → ℕ
copy_bytes n source target i = if ltb i n then source i else target i

abbrev pub zero_entries : ℕ → List CacheEntry
zero_entries zero = []
zero_entries (suc n) =
    record { device_name = []; lba = 0; bytes = λ i. 0; access_count = 0; valid = false }
    ∷ zero_entries n

-- Whether `kmalloc` returned a block.
abbrev pub init_cache : Bool → BufferCache
init_cache allocated = record {
  cache = if allocated then some (zero_entries cache_size) else none;
  hit_count = 0;
  miss_count = 0;
  access_counter = 0;
}

abbrev pub is_entry : Text → ℕ → CacheEntry → Bool
is_entry name lba e = e.valid && e.lba == lba && same_text e.device_name name

-- The index, or none for -1.
unfoldable pub find_in : Text → ℕ → List CacheEntry → Option ℕ
find_in name lba [] = none
find_in name lba (e ∷ es) =
    let rest : Option ℕ = elim (find_in name lba es) [ some i ↦ some (suc i) | none ↦ none ] in
    if is_entry name lba e then some 0 else rest

-- `for (i = 1; …)`, from `i` on, with the oldest entry so far.
unfoldable pub lru_from : ℕ → ℕ → ℕ → List CacheEntry → ℕ
lru_from i oldest min_access [] = oldest
lru_from i oldest min_access (e ∷ es) =
    let older = ltb e.access_count min_access in
    let rest =
      lru_from (i + 1) (if older then i else oldest) (if older then e.access_count else min_access)
        es in
    if e.valid then rest else i

unfoldable pub find_lru : List CacheEntry → ℕ
unfolding lru_from
find_lru [] = 0
find_lru (e ∷ es) = lru_from 1 0 e.access_count es

-- An entry at an index that `FindEntry` or `FindLRU` gave.
unfoldable pub change : (CacheEntry → CacheEntry) → ℕ → List CacheEntry → List CacheEntry
change f i [] = []
change f zero (e ∷ es) = f e ∷ es
change f (suc i) (e ∷ es) = e ∷ change f i es

-- What the entry at the index holds.
abbrev pub bytes_at : ℕ → List CacheEntry → ℕ → ℕ
bytes_at i [] = λ j. 0
bytes_at zero (e ∷ es) = e.bytes
bytes_at (suc i) (e ∷ es) = bytes_at i es

-- The result, the buffer and the cache afterwards.
unfoldable pub get : Text → ℕ → (ℕ → ℕ) → ℕ → BufferCache → Bool × (ℕ → ℕ) × BufferCache
unfolding find_in change
get name lba buffer sector_size b = elim b.cache [
  | none ↦ (false, buffer, record b { miss_count = add32 b.miss_count 1 })
  | some es ↦ elim (find_in name lba es) [
    | none ↦ (false, buffer, record b { miss_count = add32 b.miss_count 1 })
    | some i ↦ (
      true,
      copy_bytes sector_size (bytes_at i es) buffer,
      record b {
        cache = some (change (λ e. record e { access_count = add32 b.access_counter 1 }) i es);
        access_counter = add32 b.access_counter 1;
        hit_count = add32 b.hit_count 1;
      },
    )
  ]
]

-- The entry that `Put` makes of the one that it takes.
abbrev pub filled : Text → ℕ → (ℕ → ℕ) → ℕ → ℕ → CacheEntry → CacheEntry
filled name lba source sector_size stamp e = record {
  device_name = take 15 name;
  lba = lba;
  bytes = copy_bytes sector_size source e.bytes;
  access_count = stamp;
  valid = true;
}

abbrev pub slot_for : Text → ℕ → List CacheEntry → ℕ
slot_for name lba es = elim (find_in name lba es) [ some i ↦ i | none ↦ find_lru es ]

unfoldable pub put : Text → ℕ → (ℕ → ℕ) → ℕ → BufferCache → BufferCache
unfolding find_in find_lru change
put name lba source sector_size b = elim b.cache [
  | none ↦ b
  | some es ↦ if ltb max_sector_size sector_size then b else record b {
    cache = some (
        change (filled name lba source sector_size (add32 b.access_counter 1))
          (slot_for name lba es) es);
    access_counter = add32 b.access_counter 1;
  }
]

unfoldable pub invalidate : Text → ℕ → BufferCache → BufferCache
unfolding find_in change
invalidate name lba b = elim b.cache [
  | none ↦ b
  | some es ↦ elim (find_in name lba es) [
    | none ↦ b
    | some i ↦ record b { cache = some (change (λ e. record e { valid = false }) i es) }
  ]
]

unfoldable pub flush_entries : Text → List CacheEntry → List CacheEntry
flush_entries name [] = []
flush_entries name (e ∷ es) =
    (if e.valid && same_text e.device_name name then record e { valid = false } else e)
    ∷ flush_entries name es

unfoldable pub flush_device : Text → BufferCache → BufferCache
unfolding flush_entries
flush_device name b = elim b.cache [
  | none ↦ b
  | some es ↦ record b { cache = some (flush_entries name es) }
]
