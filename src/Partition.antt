-- ===== src/Partition.antt =====
-- kernel/hal/storage/partition.cpp: the partitions of a device by its master boot record. The array of
-- partitions is a list, whose length is `partitionCount`; the sector is a function of the offset.
pub mod Table
pub mod Layout
mod Tests
use morphic_os_dev.Base.{
  ℕ, zero, suc, ◌+◌, ◌*◌, ◌^◌, ◌||◌, Bool, true, false, not, ◌&&◌, Option, none, some, List, [],
  ◌∷◌, ◌++◌, ltb, leb, ◌==◌, if◌then◌else◌, length, take, get_elem?,
}
use morphic_os_dev.Runtime.{Text}
use morphic_os_dev.Storage.{ReadFunc, BlockDevice}

pub data PartitionType : Type 0 where
  empty : PartitionType
  fat12 : PartitionType
  fat16 : PartitionType
  fat32 : PartitionType
  linux : PartitionType
  ntfs : PartitionType
  unknown : PartitionType

-- The parent is known by its name.
pub record Partition : Type 0 where
  pub name : Text
  pub parent : Text
  pub start_lba : ℕ
  pub sector_count : ℕ
  pub kind : PartitionType
  pub bootable : Bool

pub record MbrEntry : Type 0 where
  pub status : ℕ
  pub type_byte : ℕ
  pub lba_first : ℕ
  pub sector_count : ℕ

abbrev pub max_partitions : ℕ
max_partitions = 32

abbrev pub word_at : (ℕ → ℕ) → ℕ → ℕ
word_at b i = b i + 2 ^ 8 * b (i + 1) + 2 ^ 16 * b (i + 2) + 2 ^ 24 * b (i + 3)

-- `mbr->partitions[i]`: 16 bytes, from byte 446 on.
abbrev pub entry_at : (ℕ → ℕ) → ℕ → MbrEntry
entry_at b i = record {
  status = b (446 + 16 * i);
  type_byte = b (450 + 16 * i);
  lba_first = word_at b (454 + 16 * i);
  sector_count = word_at b (458 + 16 * i);
}

abbrev pub signature : (ℕ → ℕ) → ℕ
signature b = b 510 + 256 * b 511

abbrev pub partition_type : ℕ → PartitionType
partition_type t =
    if t == 0x00
    then empty
    else if t == 0x01
    then fat12
    else if t == 0x04 || t == 0x06 || t == 0x0e
    then fat16
    else if t == 0x0b || t == 0x0c
    then fat32
    else if t == 0x07
    then ntfs
    else if t == 0x83
    then linux
    else unknown

-- At most 12 characters of the device, a 'p' and a digit.
abbrev pub partition_name : Text → ℕ → Text
partition_name device i = take 12 device ++ 112 ∷ (49 + i) ∷ []

abbrev pub partition_of : Text → ℕ → MbrEntry → Partition
partition_of device i e = record {
  name = partition_name device i;
  parent = device;
  start_lba = e.lba_first;
  sector_count = e.sector_count;
  kind = partition_type e.type_byte;
  bootable = e.status == 0x80;
}

abbrev pub is_used : MbrEntry → Bool
is_used e = not (e.type_byte == 0) && ltb 0 e.sector_count

-- The `for`, from the entry `i` on, with the rounds left; `break` when the array is full.
unfoldable pub scan_entries : ℕ → Text → (ℕ → ℕ) → ℕ → ℕ → List Partition → ℕ × List Partition
scan_entries zero device b i found ps = (found, ps)
scan_entries (suc n) device b i found ps =
    let e = entry_at b i in
    let more = if is_used e then ps ++ partition_of device i e ∷ [] else ps in
    let rest = scan_entries n device b (i + 1) (if is_used e then found + 1 else found) more in
    if is_used e && leb max_partitions (length ps) then (found, ps) else rest

abbrev pub scan_sector : Text → (ℕ → ℕ) → List Partition → ℕ × List Partition
scan_sector device b ps = if signature b == 0xaa55 then scan_entries 4 device b 0 0 ps else (0, ps)

-- `junk` is what stands in the buffer before.
unfoldable pub scan_device :
    {H : Type 0} → (ℕ → ℕ) → BlockDevice H → List Partition → H → ℕ × List Partition
unfolding scan_entries
scan_device junk d ps h = elim d.read_blocks [
  | none ↦ (0, ps)
  | some read ↦ let (ok, b, h') = read 0 1 junk h in if ok then scan_sector d.name b ps else (0, ps)
]

abbrev pub get_partition : ℕ → List Partition → Option Partition
get_partition i ps = get_elem? ps i
