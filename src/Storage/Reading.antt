-- ===== src/Storage/Reading.antt =====
-- `ReadSectors` gives what the device holds, whatever of it the cache answers.
use mathlib.Core.Path.{subst}
use native.Mathlib.Nat.{mod-eq_of_lt, suc-mul}
use morphic_os_dev.Base.{
  ℕ, zero, suc, ◌+◌, ◌-◌, ◌*◌, ◌^◌, ◌≤◌, ◌<◌, ◌≡◌, refl, sym, ap, ◌∙◌, inl, inr, Bool, true, ◌&&◌,
  Option, none, some, List, [], ◌∷◌, ◌==◌, length, arith, Bool-cases, ==→eq, le→leb, true-ne-false,
  add64,
}
use morphic_os_dev.Runtime.{Text, same_text}
use morphic_os_dev.Runtime.Strings.{NoNul, same_text-equal}
use morphic_os_dev.BufferCache.{CacheEntry, BufferCache, max_sector_size, get, put}
use morphic_os_dev.BufferCache.Coherence.{Disk, Coherent, written}
use morphic_os_dev.BufferCache.History.{CoherentCache, get_op, put_op, step-CoherentCache, get-disk}
use morphic_os_dev.Storage.{
  BlockDevice, get_device, read_sectors, ReadFunc, behind, write_back, read_loop,
}

-- Two disks with the same first bytes of the sectors, under names that are C strings.
abbrev pub Alike : ℕ → Disk → Disk → Type 0
Alike size d d' = (n : Text) (l i : ℕ) → NoNul n → i < size → d' n l i ≡ d n l i

Coherent-Alike :
    (size : ℕ) (d d' : Disk) (es : List CacheEntry)
    → Alike size d d'
    → Coherent size d es
    → Coherent size d' es
Coherent-Alike size d d' [] a c = tt
Coherent-Alike size d d' (e ∷ es) a (holds, other, c) = (
  (λ v. let (n, b) = holds v in (n, λ i lt. b i lt ∙ sym (a e.device_name e.lba i n lt))),
  other,
  Coherent-Alike size d d' es a c,
)

pub CoherentCache-Alike :
    (size : ℕ) (d d' : Disk) (c : Option (List CacheEntry))
    → Alike size d d'
    → CoherentCache size d c
    → CoherentCache size d' c
CoherentCache-Alike size d d' none a k = tt
CoherentCache-Alike size d d' (some es) a k = Coherent-Alike size d d' es a k

-- What a driver promises of a read of one sector, where `view` is what the hardware holds: if it
-- succeeds the bytes of the sector are behind the pointer, it writes no more than a sector, and it
-- changes nothing that the hardware holds.
pub record IsReader {H : Type 0} (view : H → Disk) (name : Text) (size : ℕ) (read : ReadFunc H)
    : Type 0 where
  pub reads :
      (lba : ℕ) (buffer : ℕ → ℕ) (h : H) (j : ℕ)
      → lba + 1 < 2 ^ 64
      → (read lba 1 buffer h).0 ≡ true
      → j < size
      → (read lba 1 buffer h).1 j ≡ view h name lba j
  pub keeps :
      (lba : ℕ) (buffer : ℕ → ℕ) (h : H) (j : ℕ) → size ≤ j → (read lba 1 buffer h).1 j ≡ buffer j
  pub changes_nothing :
      (lba : ℕ) (buffer : ℕ → ℕ) (h : H) (n : Text) (l i : ℕ)
      → view (read lba 1 buffer h).2 n l i ≡ view h n l i

-- The driver reads each of these sectors.
abbrev pub Serves : {H : Type 0} → ℕ → ℕ → ReadFunc H → Type 0
Serves {H} lba count read =
    (i : ℕ) (buffer : ℕ → ℕ) (h : H) → i < count → (read (lba + i) 1 buffer h).0 ≡ true

-- A read from the cache writes no more than a sector.
get-keeps :
    (name : Text) (lba : ℕ) (buffer : ℕ → ℕ) (size : ℕ) (c : BufferCache) (j : ℕ)
    → size ≤ j
    → (get name lba buffer size c).1 j ≡ buffer j
unfolding get
get-keeps name lba buffer size c j le = ground (arith, le)

-- The result of a read of `n` sectors to `at`, of a device that holds `disk`.
pub record Result {H : Type 0} (view : H → Disk) (disk : Disk) (name : Text) (size : ℕ)
    (read : ReadFunc H) (n lba at : ℕ) (buffer : ℕ → ℕ) (r : Bool × (ℕ → ℕ) × BufferCache × H)
    : Type 0 where
  pub coherent : CoherentCache size disk r.2.cache
  pub same_disk : (m : Text) (l i : ℕ) → view r.3 m l i ≡ disk m l i
  pub bytes :
      r.0 ≡ true → (i j : ℕ) → i < n → j < size → r.1 (at + i * size + j) ≡ disk name (lba + i) j
  pub in_front : (j : ℕ) → j < at → r.1 j ≡ buffer j
  pub after : (j : ℕ) → at + n * size ≤ j → r.1 j ≡ buffer j
  pub succeeds : Serves lba n read → r.0 ≡ true

module _ {H : Type 0} (view : H → Disk) (disk : Disk) (name : Text) (size : ℕ) (read : ReadFunc H)
    (small : size ≤ max_sector_size) (q : NoNul name) (short : length name ≤ 15)
    (reader : IsReader view name size read) where
  -- What a put of the sector's own bytes leaves.
  put_own :
      (lba : ℕ) (source : ℕ → ℕ) (c : BufferCache)
      → ((j : ℕ) → j < size → source j ≡ disk name lba j)
      → CoherentCache size disk c.cache
      → CoherentCache size disk (put name lba source size c).cache
  put_own lba source c own k =
      CoherentCache-Alike size (written name lba source disk) disk
        (put name lba source size c).cache (λ n l i p lt. sym (written_same n l i p lt))
        (step-CoherentCache size small disk (put_op name lba source) c (q, short) k)
    where
      written_same :
          (n : Text) (l i : ℕ)
          → NoNul n
          → i < size
          → written name lba source disk n l i ≡ disk n l i
      written_same n l i p lt = elim (Bool-cases (l == lba && same_text n name)) [
        | inr f ↦ rw (f) refl
        | inl t ↦ rw (t) (
            own i lt
            ∙ ap (λ x. disk x lba i) (sym (same_text-equal n name p q (ground (arith, t))))
            ∙ ap (λ x. disk n x i) (sym (==→eq l lba (ground (arith, t)))))
      ]

  -- A sector at `at`, and the others behind it.
  first_sector :
      (n lba at : ℕ) (buffer bytes : ℕ → ℕ) (r : Bool × (ℕ → ℕ) × BufferCache × H)
      → lba + suc n < 2 ^ 64
      → ((j : ℕ) → j < size → bytes j ≡ disk name lba j)
      → ((j : ℕ) → size ≤ j → bytes j ≡ behind at buffer j)
      → Result view disk name size read n (add64 lba 1) (at + size) (write_back at bytes buffer) r
      → Result view disk name size read (suc n) lba at buffer r
  first_sector n lba at buffer bytes r top own keep s = record {
    coherent = s.coherent;
    same_disk = s.same_disk;
    bytes = λ ok i j lt lt'. sector ok i j lt lt';
    in_front = λ j lt. s.in_front j (omega (arith, lt)) ∙ ground (arith, lt);
    after = λ j le.
        s.after j (omega (arith, le, suc-mul n size))
        ∙ back_after j (omega (arith, le, suc-mul n size));
    succeeds = λ serves. s.succeeds (λ i b h lt.
        subst (λ l. (read l 1 b h).0 ≡ true) {x = lba + suc i} {y = add64 lba 1 + i}
          (omega (arith, next)) (serves (suc i) b h (omega (arith, lt))));
  }
    where
      back : (j : ℕ) → write_back at bytes buffer (at + j) ≡ bytes j
      back j =
          rw (le→leb at (at + j) (omega arith)) (ap bytes {x = at + j - at} {y = j} (omega arith))

      back_after : (j : ℕ) → at + size ≤ j → write_back at bytes buffer j ≡ buffer j
      back_after j le = rw (le→leb at j (omega (arith, le))) (
          keep (j - at) (omega (arith, le))
          ∙ ap buffer {x = at + (j - at)} {y = j} (omega (arith, le)))

      next : add64 lba 1 ≡ lba + 1
      next = mod-eq_of_lt (omega (arith, top))

      sector :
          r.0 ≡ true
          → (i j : ℕ) → i < suc n
          → j < size
          → r.1 (at + i * size + j) ≡ disk name (lba + i) j
      sector ok zero j lt lt' =
          ap r.1 {x = at + 0 * size + j} {y = at + j} (omega arith)
          ∙ s.in_front (at + j) (omega (arith, lt'))
          ∙ back j
          ∙ own j lt'
          ∙ ap (λ l. disk name l j) {x = lba} {y = lba + 0} (omega arith)
      sector ok (suc i) j lt lt' =
          ap r.1 {x = at + suc i * size + j} {y = at + size + i * size + j}
            (omega (arith, suc-mul i size))
          ∙ s.bytes ok i j (omega (arith, lt)) lt'
          ∙ ap (λ l. disk name l j) {x = add64 lba 1 + i} {y = lba + suc i} (omega (arith, next))

  read_loop-Result :
      (n lba at : ℕ) (buffer : ℕ → ℕ) (c : BufferCache) (h : H)
      → lba + n < 2 ^ 64
      → CoherentCache size disk c.cache
      → ((m : Text) (l i : ℕ) → view h m l i ≡ disk m l i)
      → Result view disk name size read n lba at buffer
          (read_loop n name lba size read at buffer c h)
  unfolding read_loop
  read_loop-Result zero lba at buffer c h top k d = record {
    coherent = k;
    same_disk = d;
    bytes = λ ok i j lt lt'. absurd (omega (arith, lt));
    in_front = λ j lt. refl;
    after = λ j le. refl;
    succeeds = λ serves. refl;
  }
  read_loop-Result (suc n) lba at buffer c h top k d =
      let next : add64 lba 1 ≡ lba + 1 = mod-eq_of_lt (omega (arith, top)) in
      let old = behind at buffer in
      let g = get name lba old size c in
      let r = read lba 1 old h in
      let k1 = step-CoherentCache size small disk (get_op name lba old) c q k in
      let d1 : (m : Text) (l i : ℕ) → view r.2 m l i ≡ disk m l i =
        λ m l i. reader.changes_nothing lba old h m l i ∙ d m l i in
      elim (Bool-cases g.0) [
        | inl hit ↦
            let own =
              get-disk size small disk name lba old c.cache c.hit_count c.miss_count
                c.access_counter q k hit in
            rw (hit) (
              first_sector n lba at buffer g.1 _ top own (get-keeps name lba old size c) (
                read_loop-Result n (add64 lba 1) (at + size) (write_back at g.1 buffer) g.2 h
                  (omega (arith, top, next)) k1 d))
        | inr missed ↦ elim (Bool-cases r.0) [
          | inl ok ↦
              let own : (j : ℕ) → j < size → r.1 j ≡ disk name lba j =
                λ j lt. reader.reads lba old h j (omega (arith, top)) ok lt ∙ d name lba j in
              rw (missed, ok)
                (first_sector n lba at buffer r.1 _ top own (reader.keeps lba old h) (
                  read_loop-Result n (add64 lba 1) (at + size) (write_back at r.1 buffer)
                    (put name lba r.1 size g.2) r.2 (omega (arith, top, next))
                    (put_own lba r.1 g.2 own k1) d1))
          | inr failed ↦
              rw (missed, failed)
                (record {
                  coherent = k1;
                  same_disk = d1;
                  bytes = λ ok. absurd (true-ne-false (sym ok));
                  in_front = λ j lt. ground (arith, lt);
                  after = λ j le. rw (le→leb at j (omega (arith, le))) (
                      reader.keeps lba old h (j - at) (omega (arith, le, suc-mul n size))
                      ∙ ap buffer {x = at + (j - at)} {y = j} (omega (arith, le)));
                  succeeds = λ serves. absurd (
                      true-ne-false (
                        sym (
                          subst (λ l. (read l 1 old h).0 ≡ true) {x = lba + 0} {y = lba}
                            (omega arith) (serves 0 old h (omega arith)))
                        ∙ failed));
                })
        ]
      ]

  -- `ReadSectors`, with a coherent cache and a driver that keeps its promises, of sectors of at most 512
  -- bytes below 2 ^ 64 from a device with a name of at most 15: if it returns true the bytes that the
  -- device holds are in the buffer. In any case the cache is coherent again, the device holds the same,
  -- and the bytes of the buffer behind those sectors are kept. It returns true if the driver reads each
  -- of the sectors asked for.
  pub read_sectors-Result :
      (d : BlockDevice H) (ds : List (BlockDevice H)) (count lba : ℕ) (buffer : ℕ → ℕ)
      (c : BufferCache) (h : H)
      → get_device name ds ≡ some d
      → d.sector_size ≡ size
      → d.read_blocks ≡ some read
      → lba + count < 2 ^ 64
      → CoherentCache size disk c.cache
      → ((m : Text) (l i : ℕ) → view h m l i ≡ disk m l i)
      → Result view disk name size read count lba 0 buffer
          (read_sectors name lba count buffer ds c h)
  unfolding read_sectors
  read_sectors-Result d ds count lba buffer c h found size_is can_read top k same =
      rw (found, can_read, read_sectors, size_is)
        (read_loop-Result count lba 0 buffer c h top k same)
