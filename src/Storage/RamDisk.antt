-- ===== src/Storage/RamDisk.antt =====
-- kernel/drivers/ramdisk.cpp: the driver of a disk in memory. It keeps what the storage manager needs of a
-- driver.
use native.Mathlib.Nat.{mod-eq_of_lt}
use native.Mathlib.Decide.{dec_lt}
use morphic_os_dev.Base.{
  ℕ, ◌+◌, ◌-◌, ◌*◌, ◌%◌, ◌^◌, ◌≤◌, ◌<◌, ◌≡◌, refl, sym, ap, ◌∙◌, inl, inr, Bool, true, false, ◌&&◌,
  Option, none, some, ltb, leb, if◌then◌else◌, arith, Bool-cases, true-ne-false, add64,
}
use morphic_os_dev.Base.Text.{bytes}
use morphic_os_dev.Runtime.{Text, Memory, same_text, kstrcmp}
use morphic_os_dev.BufferCache.Coherence.{Disk}
use morphic_os_dev.Storage.{ReadFunc, WriteFunc, BlockDevice}
use morphic_os_dev.Storage.Reading.{IsReader, Serves}
use morphic_os_dev.Storage.Writing.{is_written, IsWriter}

abbrev pub ram_sector_size : ℕ
ram_sector_size = 512

abbrev pub sector_count : ℕ
sector_count = 256

-- `count * SECTOR_SIZE` on 32 bits.
abbrev pub byte_count : ℕ → ℕ
byte_count count = count * ram_sector_size % 2 ^ 32

-- `diskData + lba * SECTOR_SIZE`.
abbrev pub sector_at : ℕ → ℕ → ℕ
sector_at p lba = p + lba * ram_sector_size % 2 ^ 64

-- `diskData` is a pointer into the memory of the kernel, none where it is null; the caller's buffer lies
-- elsewhere.
unfoldable pub read_blocks : Option ℕ → ReadFunc Memory
read_blocks none lba count buffer m = (false, buffer, m)
read_blocks (some p) lba count buffer m =
    if ltb sector_count (add64 lba count)
    then (false, buffer, m)
    else (true, (λ j. if ltb j (byte_count count) then m (sector_at p lba + j) else buffer j), m)

unfoldable pub write_blocks : Option ℕ → WriteFunc Memory
write_blocks none lba count buffer m = (false, m)
write_blocks (some p) lba count buffer m =
    if ltb sector_count (add64 lba count) then (false, m) else (
      true,
      (λ x.
          if leb (sector_at p lba) x && ltb x (sector_at p lba + byte_count count)
          then buffer (x - sector_at p lba)
          else m x),
    )

-- `Init`, with what `kmalloc` returns, up to the registration: `diskData` and the memory.
abbrev pub init_ram_disk : Option ℕ → Memory → Option ℕ × Memory
init_ram_disk none m = (none, m)
init_ram_disk (some p) m =
    (some p, (λ x. if leb p x && ltb x (p + ram_sector_size * sector_count) then 0 else m x))

abbrev pub ram_device : Option ℕ → BlockDevice Memory
ram_device disk_data = record {
  name = bytes "rd0";
  sector_size = ram_sector_size;
  total_bytes = ram_sector_size * sector_count;
  read_blocks = some (read_blocks disk_data);
  write_blocks = some (write_blocks disk_data);
}

-- What the disk holds.
abbrev pub held : ℕ → Memory → Disk
held p m n l j =
    if same_text n (bytes "rd0") && ltb l 256 && ltb j 512 then m (p + l * 512 + j) else 0

module _ (p : ℕ) where
  no_wrap : (lba : ℕ) → lba + 1 < 2 ^ 64 → ltb 256 (add64 lba 1) ≡ false → lba < 256
  no_wrap lba top e = ground (arith, top, e)

  sector_at-plain : (lba : ℕ) → lba ≤ 256 → sector_at p lba ≡ p + lba * 512
  sector_at-plain lba le =
      let small : lba * 512 % 2 ^ 64 ≡ lba * 512 = mod-eq_of_lt (omega (arith, le)) in
      ap (λ x. p + x) small

  pub read_blocks-IsReader : IsReader (held p) (bytes "rd0") 512 (read_blocks (some p))
  unfolding read_blocks kstrcmp
  read_blocks-IsReader = record {
    reads = λ lba buffer m j top ok lt. elim (Bool-cases (ltb 256 (add64 lba 1))) [
      | inl e ↦ absurd (ground (arith, e, ok))
      | inr e ↦
          let near = no_wrap lba top e in
          rw (e) (
            ground (
              arith,
              near,
              lt,
              ap m {x = sector_at p lba + j} {y = p + lba * 512 + j}
                  (ap (λ a. a + j) (sector_at-plain lba (omega (arith, near)))),
            ))
    ];
    keeps = λ lba buffer m j le. ground (arith, le);
    changes_nothing = λ lba buffer m n l i. ground arith;
  }

  pub read_first :
      (buffer : ℕ → ℕ) (m : Memory) (j : ℕ)
      → j < 512
      → (read_blocks (some p) 0 1 buffer m).1 j ≡ m (p + j)
  unfolding read_blocks
  read_first buffer m j lt =
      ground (arith, lt, ap m {x = sector_at p 0 + j} {y = p + j} (omega arith))

  -- The sectors of the disk are read.
  pub read_blocks-Serves :
      (lba count : ℕ) → lba + count ≤ 256 → Serves lba count (read_blocks (some p))
  unfolding read_blocks
  read_blocks-Serves lba count le i buffer m lt =
      let e : add64 (lba + i) 1 ≡ lba + i + 1 = mod-eq_of_lt (omega (arith, le, lt)) in
      ground (arith, le, lt, e)

  -- The memory after a write that succeeded.
  module _ (lba count : ℕ) (inside : lba + count ≤ 256) (buffer : ℕ → ℕ) (m : Memory) where
    stored : Memory
    stored x =
        if leb (p + lba * 512) x && ltb x (p + lba * 512 + count * 512)
        then buffer (x - (p + lba * 512))
        else m x

    stored_sector :
        (i j : ℕ)
        → i < count
        → j < 512
        → held p stored (bytes "rd0") (lba + i) j ≡ buffer (i * 512 + j)
    unfolding kstrcmp stored
    stored_sector i j lt lt' = ground (
      arith,
      inside,
      lt,
      lt',
      ap buffer {x = p + (lba + i) * 512 + j - (p + lba * 512)} {y = i * 512 + j} (omega arith),
    )

    stored_others :
        (n : Text) (l j : ℕ)
        → is_written (bytes "rd0") lba count n l ≡ false
        → held p stored n l j ≡ held p m n l j
    unfolding stored
    stored_others n l j off = ground (arith, inside, off)

    write_blocks-stored : write_blocks (some p) lba count buffer m ≡ (true, stored)
    unfolding write_blocks stored
    write_blocks-stored =
        let bytes_is : byte_count count ≡ count * 512 = mod-eq_of_lt (omega (arith, inside)) in
        let near : ltb 256 (add64 lba count) ≡ false = ground (arith, inside) in
        let plain = sector_at-plain lba (omega (arith, inside)) in rw (near, plain, bytes_is) refl

  write_blocks-fails :
      (lba count : ℕ) (buffer : ℕ → ℕ) (m : Memory)
      → 256 < lba + count
      → lba + count < 2 ^ 64
      → write_blocks (some p) lba count buffer m ≡ (false, m)
  unfolding write_blocks
  write_blocks-fails lba count buffer m far top =
      let sum : add64 lba count ≡ lba + count = mod-eq_of_lt top in
      let over : ltb 256 (lba + count) ≡ true = ground (arith, far) in rw (sum, over) refl

  pub write_blocks-IsWriter :
      (lba count : ℕ)
      → lba + count < 2 ^ 64
      → IsWriter (held p) (bytes "rd0") 512 lba count (write_blocks (some p))
  write_blocks-IsWriter lba count top = elim (dec_lt 256 (lba + count)) [
    | yes far ↦ record {
      writes = λ buffer m i j ok. absurd (
          true-ne-false (
            sym ok
            ∙ ap (λ (r : Bool × Memory). r.0) (write_blocks-fails lba count buffer m far top)));
      others = λ buffer m n l j off.
          ap (λ (r : Bool × Memory). held p r.1 n l j)
            (write_blocks-fails lba count buffer m far top);
    }
    | no near ↦
        let inside : lba + count ≤ 256 = omega (arith, near) in
        record {
          writes = λ buffer m i j ok lt lt'.
              ap (λ (r : Bool × Memory). held p r.1 (bytes "rd0") (lba + i) j)
                (write_blocks-stored lba count inside buffer m)
              ∙ stored_sector lba count inside buffer m i j lt lt';
          others = λ buffer m n l j off.
              ap (λ (r : Bool × Memory). held p r.1 n l j)
                (write_blocks-stored lba count inside buffer m)
              ∙ stored_others lba count inside buffer m n l j off;
        }
  ]
