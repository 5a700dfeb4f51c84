-- ===== src/Storage.antt =====
-- kernel/hal/storage/storage_manager.cpp: the block devices, and reads and writes of sectors through the
-- cache. What a driver does with its hardware is a pair of functions.
pub mod Reading
pub mod Writing
pub mod RamDisk
mod Tests
use morphic_os_dev.Base.{
  ℕ, zero, suc, ◌+◌, ◌-◌, Bool, true, false, ◌||◌, Option, none, some, List, [], ◌∷◌, ◌++◌, ltb,
  leb, ◌==◌, if◌then◌else◌, get_elem?, length, add64,
}
use morphic_os_dev.Runtime.{Text, same_text}
use morphic_os_dev.BufferCache.{BufferCache, init_cache, get, put, invalidate}

-- The answer, the bytes behind the pointer, and the hardware afterwards.
abbrev pub ReadFunc : Type 0 → Type 0
ReadFunc H = ℕ → ℕ → (ℕ → ℕ) → H → Bool × (ℕ → ℕ) × H

abbrev pub WriteFunc : Type 0 → Type 0
WriteFunc H = ℕ → ℕ → (ℕ → ℕ) → H → Bool × H

pub record BlockDevice (H : Type 0) : Type 0 where
  pub name : Text
  pub sector_size : ℕ
  pub total_bytes : ℕ
  pub read_blocks : Option (ReadFunc H)
  pub write_blocks : Option (WriteFunc H)

abbrev pub max_devices : ℕ
max_devices = 16

-- The bytes from `buf` on, and a buffer in which they are changed.
abbrev pub behind : ℕ → (ℕ → ℕ) → ℕ → ℕ
behind at buffer j = buffer (at + j)

abbrev pub write_back : ℕ → (ℕ → ℕ) → (ℕ → ℕ) → ℕ → ℕ
write_back at bytes buffer j = if leb at j then bytes (j - at) else buffer j

unfoldable pub invalidate_all : ℕ → Text → ℕ → BufferCache → BufferCache
invalidate_all zero name lba c = c
invalidate_all (suc n) name lba c = invalidate_all n name (add64 lba 1) (invalidate name lba c)

module _ {H : Type 0} where
  unfoldable pub register_device :
      Option (BlockDevice H) → List (BlockDevice H) → List (BlockDevice H)
  register_device none ds = ds
  register_device (some d) ds = if leb max_devices (length ds) then ds else ds ++ d ∷ []

  unfoldable pub get_device : Text → List (BlockDevice H) → Option (BlockDevice H)
  get_device name [] = none
  get_device name (d ∷ ds) =
      let rest = get_device name ds in if same_text d.name name then some d else rest

  abbrev pub get_device_by_index : ℕ → List (BlockDevice H) → Option (BlockDevice H)
  get_device_by_index i ds = get_elem? ds i

  abbrev pub get_device_count : List (BlockDevice H) → ℕ
  get_device_count ds = length ds

  -- The loop of `ReadSectors`, with the rounds left; `at` is how far `buf` has moved.
  unfoldable pub read_loop :
      ℕ
      → Text
      → ℕ
      → ℕ
      → ReadFunc H
      → ℕ
      → (ℕ → ℕ)
      → BufferCache
      → H
      → Bool × (ℕ → ℕ) × BufferCache × H
  read_loop zero name lba size read at buffer c h = (true, buffer, c, h)
  read_loop (suc n) name lba size read at buffer c h =
      let (hit, cached, c1) = get name lba (behind at buffer) size c in
      let (ok, bytes, h1) = read lba 1 (behind at buffer) h in
      let buffer' = write_back at (if hit then cached else bytes) buffer in
      let c2 = if hit then c1 else put name lba bytes size c1 in
      let rest =
        read_loop n name (add64 lba 1) size read (at + size) buffer' c2 (if hit then h else h1) in
      if hit || ok then rest else (false, buffer', c1, h1)

  unfoldable pub read_sectors :
      Text
      → ℕ
      → ℕ
      → (ℕ → ℕ)
      → List (BlockDevice H)
      → BufferCache
      → H
      → Bool × (ℕ → ℕ) × BufferCache × H
  unfolding get_device read_loop
  read_sectors name lba count buffer ds c h = elim (get_device name ds) [
    | none ↦ (false, buffer, c, h)
    | some d ↦ elim d.read_blocks [
      | none ↦ (false, buffer, c, h)
      | some read ↦ read_loop count name lba d.sector_size read 0 buffer c h
    ]
  ]

  unfoldable pub write_sectors :
      Text → ℕ → ℕ → (ℕ → ℕ) → List (BlockDevice H) → BufferCache → H → Bool × BufferCache × H
  unfolding get_device invalidate_all
  write_sectors name lba count buffer ds c h = elim (get_device name ds) [
    | none ↦ (false, c, h)
    | some d ↦ elim d.write_blocks [
      | none ↦ (false, c, h)
      | some write_to ↦
          let (ok, h') = write_to lba count buffer h in (ok, invalidate_all count name lba c, h')
    ]
  ]
