-- ===== src/Partition/Tests.antt =====
-- The scan of a boot record with two used entries, on the RAM disk.
use morphic_os_dev.Base.{
  ℕ, zero, suc, ◌+◌, ◌-◌, ◌<◌, ◌≡◌, ◌∙◌, refl, ap, true, false, some, List, [], ◌∷◌, ◌++◌, arith,
}
use morphic_os_dev.Base.Text.{bytes}
use morphic_os_dev.Runtime.{Memory}
use morphic_os_dev.Storage.{BlockDevice}
use morphic_os_dev.Storage.RamDisk.{read_blocks, ram_device, read_first}
use morphic_os_dev.Partition.{scan_device, fat32, linux}
use morphic_os_dev.Partition.Layout.{DiskEntry, Bounded, table_bytes, byte_at, scan_device-encoded}

abbrev zeros : ℕ → List ℕ
zeros zero = []
zeros (suc n) = 0 ∷ zeros n

abbrev entry : ℕ → ℕ → ℕ → ℕ → DiskEntry
entry status type lba count = record {
  status = status;
  chs_first = (1, 2, 3);
  type_byte = type;
  chs_last = (4, 5, 6);
  lba_first = lba;
  sector_count = count;
}

-- The second entry has a size but no type, and the third a type but no size.
abbrev entries : List DiskEntry
entries =
    entry 0x80 0x0c 2048 256 ∷ entry 0 0 2304 100 ∷ entry 0 0x07 2304 0 ∷ entry 0 0x83 70000 5 ∷ []

abbrev sector : List ℕ
sector = zeros 446 ++ table_bytes entries (0x55 ∷ 0xaa ∷ [])

-- The disk is at 4096.
abbrev memory : Memory
memory x = byte_at sector (x - 4096)

abbrev disk : BlockDevice Memory
disk = ram_device (some 4096)

on_disk : (j : ℕ) → j < 512 → (read_blocks (some 4096) 0 1 (λ i. 0) memory).1 j ≡ byte_at sector j
on_disk j lt =
    read_first 4096 (λ i. 0) memory j lt
    ∙ ap (byte_at sector) {x = 4096 + j - 4096} {y = j} (omega arith)

read_first_ok : (read_blocks (some 4096) 0 1 (λ i. 0) memory).0 ≡ true
unfolding read_blocks
read_first_ok = refl

all_small : Bounded entries
all_small = (
  omega arith,
  omega arith,
  (omega arith, omega arith, (omega arith, omega arith, (omega arith, omega arith, tt))),
)

scan_device-encoded_example : scan_device (λ i. 0) disk [] memory ≡ (
  2,
  record {
    name = bytes "rd0p1";
    parent = bytes "rd0";
    start_lba = 2048;
    sector_count = 256;
    kind = fat32;
    bootable = true;
  }
      ∷ record {
        name = bytes "rd0p4";
        parent = bytes "rd0";
        start_lba = 70000;
        sector_count = 5;
        kind = linux;
        bootable = false;
      }
      ∷ [],
)
scan_device-encoded_example =
    scan_device-encoded (λ i. 0) disk [] memory (read_blocks (some 4096)) refl read_first_ok
      (zeros 446) entries 0x55 0xaa (omega arith) refl refl all_small (omega arith) (omega arith)
      on_disk
