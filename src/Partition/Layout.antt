-- ===== src/Partition/Layout.antt =====
-- A boot record as it lies in the first sector, and the partitions that a scan makes of it.
use mathlib.Core.Path.{subst}
use morphic_os_dev.Base.{
  ℕ, zero, suc, ◌+◌, ◌-◌, ◌*◌, ◌/◌, ◌%◌, ◌^◌, ◌≤◌, ◌<◌, ◌≡◌, refl, sym, ap, ◌∙◌, inl, inr, Bool,
  true, false, ◌&&◌, ◌||◌, not, ltb, some, List, [], ◌∷◌, ◌++◌, ◌==◌, if◌then◌else◌, length, take,
  arith, Bool-cases,
}
use morphic_os_dev.Base.Text.{bytes}
use morphic_os_dev.Runtime.{Text}
use morphic_os_dev.Storage.{ReadFunc, BlockDevice}
use morphic_os_dev.Partition.{
  Partition, PartitionType, fat12, fat16, fat32, linux, ntfs, unknown, MbrEntry, entry_at, word_at,
  signature, partition_type, partition_of, is_used, scan_device,
}
use morphic_os_dev.Partition.Table.{used_from, registered, scan_device-registered}

-- An entry with the addresses by cylinder, head and sector, which a scan does not read.
pub record DiskEntry : Type 0 where
  pub status : ℕ
  pub chs_first : ℕ × ℕ × ℕ
  pub type_byte : ℕ
  pub chs_last : ℕ × ℕ × ℕ
  pub lba_first : ℕ
  pub sector_count : ℕ

-- 32 bits, the low byte first.
abbrev little_endian : ℕ → List ℕ
little_endian n = n % 2 ^ 8 ∷ n / 2 ^ 8 % 2 ^ 8 ∷ n / 2 ^ 16 % 2 ^ 8 ∷ n / 2 ^ 24 ∷ []

abbrev three_bytes : ℕ × ℕ × ℕ → List ℕ
three_bytes (a, b, c) = a ∷ b ∷ c ∷ []

abbrev entry_bytes : DiskEntry → List ℕ
entry_bytes e =
    e.status ∷ three_bytes e.chs_first
    ++ e.type_byte ∷ three_bytes e.chs_last
    ++ little_endian e.lba_first
    ++ little_endian e.sector_count

-- The entries one behind the other, and the last two bytes of the sector.
abbrev pub table_bytes : List DiskEntry → List ℕ → List ℕ
table_bytes [] last = last
table_bytes (e ∷ es) last = entry_bytes e ++ table_bytes es last

abbrev pub byte_at : List ℕ → ℕ → ℕ
byte_at [] i = 0
byte_at (x ∷ xs) zero = x
byte_at (x ∷ xs) (suc i) = byte_at xs i

abbrev pub Bounded : List DiskEntry → Type 0
Bounded [] = Unit {0}
Bounded (e ∷ es) = (e.lba_first < 2 ^ 32) × (e.sector_count < 2 ^ 32) × Bounded es

-- The types that are known, by their codes.
abbrev known_types : List (ℕ × PartitionType)
known_types =
    (0x01, fat12)
    ∷ (0x04, fat16)
    ∷ (0x06, fat16)
    ∷ (0x07, ntfs)
    ∷ (0x0b, fat32)
    ∷ (0x0c, fat32)
    ∷ (0x0e, fat16)
    ∷ (0x83, linux)
    ∷ []

abbrev type_in : List (ℕ × PartitionType) → ℕ → PartitionType
type_in [] code = unknown
type_in ((c, t) ∷ ts) code = if code == c then t else type_in ts code

abbrev suffix : ℕ → Text
suffix zero = bytes "p1"
suffix (suc zero) = bytes "p2"
suffix (suc (suc zero)) = bytes "p3"
suffix i = bytes "p4"

-- The partitions of the entries from the `i`-th on: those with a type and a size.
abbrev pub expected : Text → ℕ → List DiskEntry → List Partition
expected device i [] = []
expected device i (e ∷ es) =
    let rest = expected device (i + 1) es in
    let p : Partition = record {
      name = take 12 device ++ suffix i;
      parent = device;
      start_lba = e.lba_first;
      sector_count = e.sector_count;
      kind = type_in known_types e.type_byte;
      bootable = e.status == 0x80;
    } in
    if e.type_byte == 0 || e.sector_count == 0 then rest else p ∷ rest

byte_at-append : (xs ys : List ℕ) (k : ℕ) → byte_at (xs ++ ys) (length xs + k) ≡ byte_at ys k
byte_at-append [] ys k = ap (byte_at ys) {x = 0 + k} {y = k} (omega arith)
byte_at-append (x ∷ xs) ys k =
    ap (byte_at (x ∷ xs ++ ys)) {x = suc (length xs) + k} {y = suc (length xs + k)} (omega arith)
    ∙ byte_at-append xs ys k

byte_at-append_left : (xs ys : List ℕ) (k : ℕ) → k < length xs → byte_at (xs ++ ys) k ≡ byte_at xs k
byte_at-append_left [] ys k lt = absurd (omega (arith, lt))
byte_at-append_left (x ∷ xs) ys zero lt = refl
byte_at-append_left (x ∷ xs) ys (suc k) lt = byte_at-append_left xs ys k (omega (arith, lt))

-- Behind the entries.
last_bytes :
    (n : ℕ) (es : List DiskEntry) (last : List ℕ) (k : ℕ)
    → length es ≡ n
    → byte_at (table_bytes es last) (16 * n + k) ≡ byte_at last k
last_bytes zero [] last k len = ap (byte_at last) {x = 16 * zero + k} {y = k} (omega arith)
last_bytes zero (e ∷ es) last k len = absurd (omega (arith, len))
last_bytes (suc n) [] last k len = absurd (omega (arith, len))
last_bytes (suc n) (e ∷ es) last k len =
    ap (byte_at (table_bytes (e ∷ es) last)) {x = 16 * suc n + k} {y = 16 + (16 * n + k)}
      (omega arith)
    ∙ byte_at-append (entry_bytes e) (table_bytes es last) (16 * n + k)
    ∙ last_bytes n es last k (omega (arith, len))

suffix-digit : (i : ℕ) → i < 4 → 112 ∷ (49 + i) ∷ [] ≡ suffix i
suffix-digit zero lt = refl
suffix-digit (suc zero) lt = refl
suffix-digit (suc (suc zero)) lt = refl
suffix-digit (suc (suc (suc zero))) lt = refl
suffix-digit (suc (suc (suc (suc i)))) lt = absurd (omega (arith, lt))

partition_type-known : (t : ℕ) → (t == 0) ≡ false → partition_type t ≡ type_in known_types t
partition_type-known t e = ground (arith, e)

-- One entry read back.
module _ (b : ℕ → ℕ) (i : ℕ) (e : DiskEntry)
    (at : (k : ℕ) → k < 16 → b (446 + 16 * i + k) ≡ byte_at (entry_bytes e) k)
    (lba : e.lba_first < 2 ^ 32) (count : e.sector_count < 2 ^ 32) where
  byte_is : (x k : ℕ) → x ≡ 446 + 16 * i + k → k < 16 → b x ≡ byte_at (entry_bytes e) k
  byte_is x k there lt = ap b there ∙ at k lt

  entry_at-encoded : entry_at b i ≡ record {
    status = e.status;
    type_byte = e.type_byte;
    lba_first = e.lba_first;
    sector_count = e.sector_count;
  }
  entry_at-encoded =
      let status_is : b (446 + 16 * i) ≡ e.status = byte_is _ 0 (omega arith) (omega arith) in
      let type_is : b (450 + 16 * i) ≡ e.type_byte = byte_is _ 4 (omega arith) (omega arith) in
      let lba_is : word_at b (454 + 16 * i) ≡ e.lba_first = omega (
        arith,
        lba,
        byte_is (454 + 16 * i) 8 (omega arith) (omega arith),
        byte_is (454 + 16 * i + 1) 9 (omega arith) (omega arith),
        byte_is (454 + 16 * i + 2) 10 (omega arith) (omega arith),
        byte_is (454 + 16 * i + 3) 11 (omega arith) (omega arith),
      ) in
      let count_is : word_at b (458 + 16 * i) ≡ e.sector_count = omega (
        arith,
        count,
        byte_is (458 + 16 * i) 12 (omega arith) (omega arith),
        byte_is (458 + 16 * i + 1) 13 (omega arith) (omega arith),
        byte_is (458 + 16 * i + 2) 14 (omega arith) (omega arith),
        byte_is (458 + 16 * i + 3) 15 (omega arith) (omega arith),
      ) in
      rw (status_is, type_is, lba_is, count_is) refl

-- The entries read back, one after the other.
used_from-expected :
    (n i : ℕ) (device : Text) (b : ℕ → ℕ) (es : List DiskEntry) (last : List ℕ)
    → length es ≡ n
    → i + n ≤ 4
    → Bounded es
    → ((k : ℕ) → k < 16 * n → b (446 + 16 * i + k) ≡ byte_at (table_bytes es last) k)
    → used_from n device b i ≡ expected device i es
unfolding used_from
used_from-expected zero i device b [] last len le w at = refl
used_from-expected zero i device b (e ∷ es) last len le w at = absurd (omega (arith, len))
used_from-expected (suc n) i device b [] last len le w at = absurd (omega (arith, len))
used_from-expected (suc n) i device b (e ∷ es) last len le (lba, count, w) at =
    let entry =
      entry_at-encoded b i e
        (λ k lt.
          at k (omega (arith, lt)) ∙ byte_at-append_left (entry_bytes e) (table_bytes es last) k lt)
        lba count in
    let rest =
      used_from-expected n (i + 1) device b es last (omega (arith, len)) (omega (arith, le)) w
        (λ k lt.
          ap b {x = 446 + 16 * (i + 1) + k} {y = 446 + 16 * i + (16 + k)} (omega arith)
          ∙ at (16 + k) (omega (arith, lt))
          ∙ byte_at-append (entry_bytes e) (table_bytes es last) k) in
    let name = ap (λ (t : Text). take 12 device ++ t) (suffix-digit i (omega (arith, le))) in
    subst
      (λ (m : MbrEntry).
        (if is_used m
          then partition_of device i m ∷ used_from n device b (i + 1)
          else used_from n device b (i + 1))
        ≡ expected device i (e ∷ es))
      (sym entry)
      (elim (Bool-cases (e.type_byte == 0 || e.sector_count == 0)) [
        | inl none_here ↦
            let unused : (not (e.type_byte == 0) && ltb 0 e.sector_count) ≡ false =
              ground (arith, none_here) in
            rw (unused, none_here) rest
        | inr here ↦
            let used : (not (e.type_byte == 0) && ltb 0 e.sector_count) ≡ true =
              ground (arith, here) in
            let kind = partition_type-known e.type_byte (ground (arith, here)) in
            rw (used, here, rest, name, kind) refl
      ])

-- The partitions of a record, as many as there is room for: none without 0x55 and 0xaa at the end.
abbrev pub fitting : Text → List DiskEntry → ℕ → ℕ → List Partition → List Partition
fitting device es s0 s1 ps =
    let all = if s0 == 0x55 && s1 == 0xaa then expected device 0 es else [] in
    take (32 - length ps) all

module _ {H : Type 0} (junk : ℕ → ℕ) (d : BlockDevice H) (ps : List Partition) (h : H)
    (read : ReadFunc H) (can_read : d.read_blocks ≡ some read) (ok : (read 0 1 junk h).0 ≡ true)
    (boot : List ℕ) (es : List DiskEntry) (s0 s1 : ℕ) where
  -- The first sector is read from the device: 446 bytes, four entries of 16 bytes (status, address, type,
  -- address, and the first sector and their number with the low byte first), and two bytes. With at most
  -- 32 partitions before, the scan adds those of the entries with a type and a size, as they say and in
  -- their order, up to 32 in all; it adds none without 0x55 and 0xaa at the end. It returns how many.
  pub scan_device-encoded :
      length ps ≤ 32
      → length boot ≡ 446
      → length es ≡ 4
      → Bounded es
      → s0 < 2 ^ 8
      → s1 < 2 ^ 8
      → ((j : ℕ)
          → j < 512
          → (read 0 1 junk h).1 j ≡ byte_at (boot ++ table_bytes es (s0 ∷ s1 ∷ [])) j)
      → scan_device junk d ps h
        ≡ (length (fitting d.name es s0 s1 ps), ps ++ fitting d.name es s0 s1 ps)
  scan_device-encoded room len four w lo hi bytes_are =
      scan_device-registered junk d ps h read room can_read ok
      ∙ ap (registered 0 ps) found
      ∙ ap (λ (n : ℕ). (n, ps ++ added)) {x = 0 + length added} {y = length added} (omega arith)
    where
      added : List Partition
      added = fitting d.name es s0 s1 ps

      b : ℕ → ℕ
      b = (read 0 1 junk h).1

      at : (k : ℕ) → k < 66 → b (446 + k) ≡ byte_at (table_bytes es (s0 ∷ s1 ∷ [])) k
      at k lt =
          bytes_are (446 + k) (omega (arith, lt))
          ∙ ap (byte_at (boot ++ table_bytes es (s0 ∷ s1 ∷ []))) {x = 446 + k} {y = length boot + k}
              (omega (arith, len))
          ∙ byte_at-append boot (table_bytes es (s0 ∷ s1 ∷ [])) k

      byte_510 : b 510 ≡ s0
      byte_510 = at 64 (omega arith) ∙ last_bytes 4 es (s0 ∷ s1 ∷ []) 0 four

      byte_511 : b 511 ≡ s1
      byte_511 = at 65 (omega arith) ∙ last_bytes 4 es (s0 ∷ s1 ∷ []) 1 four

      found :
          (if signature b == 0xaa55 then used_from 4 d.name b 0 else [])
          ≡ (if s0 == 0x55 && s1 == 0xaa then expected d.name 0 es else [])
      found =
          let test : (signature b == 0xaa55) ≡ (s0 == 0x55 && s1 == 0xaa) =
            ground (arith, lo, hi, byte_510, byte_511) in
          let all =
            used_from-expected 4 0 d.name b es (s0 ∷ s1 ∷ []) four (omega arith) w
              (λ k lt. at k (omega (arith, lt))) in
          ap (λ (t : Bool). if t then used_from 4 d.name b 0 else []) test
          ∙ ap (λ (us : List Partition). if s0 == 0x55 && s1 == 0xaa then us else []) all
