-- ===== src/Storage/Writing.antt =====
-- `WriteSectors` leaves no stale sector in the cache: what is read back is what was written.
use mathlib.Core.Path.{subst}
use native.Mathlib.Nat.{mod-eq_of_lt}
use native.Mathlib.Decide.{dec_lt}
use morphic_os_dev.Base.{
  ℕ, zero, suc, ◌+◌, ◌*◌, ◌^◌, ◌≤◌, ◌<◌, ◌≡◌, refl, sym, ap, ◌∙◌, inl, inr, Bool, true, false, ◌&&◌,
  Option, none, some, List, [], ◌∷◌, ltb, leb, length, arith, Bool-cases, Option-cases, add64,
}
use morphic_os_dev.Runtime.{Text, same_text}
use morphic_os_dev.Runtime.Strings.{NoNul}
use morphic_os_dev.BufferCache.{
  CacheEntry, BufferCache, max_sector_size, invalidate, find_in, change,
}
use morphic_os_dev.BufferCache.Coherence.{
  Disk, Coherent, AllOther, AllWeaker-AllOther, change-AllWeaker,
}
use morphic_os_dev.BufferCache.Puts.{Found, Others, find_in-Found}
use morphic_os_dev.BufferCache.History.{CoherentCache, cache_of, invalidate_op, step-CoherentCache}
use morphic_os_dev.Storage.{
  BlockDevice, get_device, ReadFunc, WriteFunc, invalidate_all, write_sectors, read_sectors,
}
use morphic_os_dev.Storage.Reading.{IsReader, Serves, read_sectors-Result}

-- No valid entry of the sector.
abbrev pub OtherCache : Text → ℕ → Option (List CacheEntry) → Type 0
OtherCache name lba none = Unit {0}
OtherCache name lba (some es) = AllOther name lba es

abbrev stale : CacheEntry → CacheEntry
stale e = record e { valid = false }

Others-stale :
    (name : Text) (lba i : ℕ) (es : List CacheEntry)
    → Others name lba i es
    → AllOther name lba (change stale i es)
unfolding change
Others-stale name lba i [] o = tt
Others-stale name lba zero (e ∷ es) o = (refl, o)
Others-stale name lba (suc i) (e ∷ es) (o, os) = (o, Others-stale name lba i es os)

module _ (size : ℕ) (disk : Disk) (name : Text) (q : NoNul name) where
  invalidate-OtherCache :
      (lba : ℕ) (c : Option (List CacheEntry)) (h m a : ℕ)
      → CoherentCache size disk c
      → OtherCache name lba (invalidate name lba (cache_of c h m a)).cache
  unfolding invalidate
  invalidate-OtherCache lba none h m a k = tt
  invalidate-OtherCache lba (some es) h m a k =
      at_found (find_in name lba es) (find_in-Found name lba size disk es q k) refl
    where
      at_found :
          (o : Option ℕ)
          → Found name lba es o
          → find_in name lba es ≡ o
          → OtherCache name lba (invalidate name lba (cache_of (some es) h m a)).cache
      at_found none f e = rw (e, invalidate) f
      at_found (some i) f e = rw (e, invalidate) (Others-stale name lba i es f)

  invalidate-keeps :
      (lba l : ℕ) (c : Option (List CacheEntry)) (h m a : ℕ)
      → OtherCache name l c
      → OtherCache name l (invalidate name lba (cache_of c h m a)).cache
  unfolding invalidate
  invalidate-keeps lba l none h m a o = tt
  invalidate-keeps lba l (some es) h m a o = elim (Option-cases (find_in name lba es)) [
    | inl n ↦ rw (n, invalidate) o
    | inr (i, e) ↦
        rw (e, invalidate)
          (AllWeaker-AllOther name l (change stale i es) es
            (change-AllWeaker stale i es (λ e. record {
              valid = λ v. absurd (ground (arith, v));
              name = refl;
              lba = refl;
              bytes = refl;
            }))
            o)
  ]

  all_keep :
      (n lba l : ℕ) (c : BufferCache)
      → OtherCache name l c.cache
      → OtherCache name l (invalidate_all n name lba c).cache
  unfolding invalidate_all
  all_keep zero lba l c o = o
  all_keep (suc n) lba l c o =
      all_keep n (add64 lba 1) l (invalidate name lba c)
        (invalidate-keeps lba l c.cache c.hit_count c.miss_count c.access_counter o)

  -- None of the sectors is in the cache any more, and the cache is still coherent.
  invalidate_all-OtherCache :
      (n lba : ℕ) (c : BufferCache)
      → size ≤ max_sector_size
      → lba + n < 2 ^ 64
      → CoherentCache size disk c.cache
      → CoherentCache size disk (invalidate_all n name lba c).cache
        × ((l : ℕ) → lba ≤ l → l < lba + n → OtherCache name l (invalidate_all n name lba c).cache)
  unfolding invalidate_all
  invalidate_all-OtherCache zero lba c small top k =
      (k, (λ l lo hi. absurd (omega (arith, lo, hi))))
  invalidate_all-OtherCache (suc n) lba c small top k =
      let next : add64 lba 1 ≡ lba + 1 = mod-eq_of_lt (omega (arith, top)) in
      let c1 = invalidate name lba c in
      let k1 = step-CoherentCache size small disk (invalidate_op name lba) c q k in
      let (k2, others) =
        invalidate_all-OtherCache n (add64 lba 1) c1 small (omega (arith, top, next)) k1 in
      (
        k2,
        (λ l lo hi. elim (dec_lt lba l) [
          | yes y ↦ others l (omega (arith, next, y)) (omega (arith, next, hi))
          | no x ↦
              subst (λ i. OtherCache name i (invalidate_all n name (add64 lba 1) c1).cache)
                {x = lba} {y = l} (omega (arith, lo, x))
                (all_keep n (add64 lba 1) lba c1
                  (invalidate-OtherCache lba c.cache c.hit_count c.miss_count c.access_counter k))
        ]),
      )

-- Whether a sector is one of those written.
abbrev pub is_written : Text → ℕ → ℕ → Text → ℕ → Bool
is_written name lba count n l = same_text n name && leb lba l && ltb l (lba + count)

-- What a driver promises of a write of `count` sectors from `lba` on: the sectors hold the bytes if it
-- succeeds, and it changes no other sector.
pub record IsWriter {H : Type 0} (view : H → Disk) (name : Text) (size lba count : ℕ)
    (write_to : WriteFunc H) : Type 0 where
  pub writes :
      (buffer : ℕ → ℕ) (h : H) (i j : ℕ)
      → (write_to lba count buffer h).0 ≡ true
      → i < count
      → j < size
      → view (write_to lba count buffer h).1 name (lba + i) j ≡ buffer (i * size + j)
  pub others :
      (buffer : ℕ → ℕ) (h : H) (n : Text) (l j : ℕ)
      → is_written name lba count n l ≡ false
      → view (write_to lba count buffer h).1 n l j ≡ view h n l j

-- The disk may change where no valid entry is.
Coherent-is_written :
    (size : ℕ) (disk disk' : Disk) (name : Text) (lba count : ℕ) (es : List CacheEntry)
    → ((n : Text) (l j : ℕ) → is_written name lba count n l ≡ false → disk' n l j ≡ disk n l j)
    → ((l : ℕ) → lba ≤ l → l < lba + count → AllOther name l es)
    → Coherent size disk es
    → Coherent size disk' es
Coherent-is_written size disk disk' name lba count [] same o c = tt
Coherent-is_written size disk disk' name lba count (e ∷ es) same o (holds, other, c) = (
  (λ v. elim (Bool-cases (is_written name lba count e.device_name e.lba)) [
    | inr f ↦ let (n, b) = holds v in (n, λ i lt. b i lt ∙ sym (same e.device_name e.lba i f))
    | inl t ↦
        let other_here = (o e.lba (ground (arith, t)) (ground (arith, t))).0 in
        absurd (ground (arith, t, v, other_here))
  ]),
  other,
  Coherent-is_written size disk disk' name lba count es same (λ l lo hi. (o l lo hi).1) c,
)

CoherentCache-is_written :
    (size : ℕ) (disk disk' : Disk) (name : Text) (lba count : ℕ) (c : Option (List CacheEntry))
    → ((n : Text) (l j : ℕ) → is_written name lba count n l ≡ false → disk' n l j ≡ disk n l j)
    → ((l : ℕ) → lba ≤ l → l < lba + count → OtherCache name l c)
    → CoherentCache size disk c
    → CoherentCache size disk' c
CoherentCache-is_written size disk disk' name lba count none same o k = tt
CoherentCache-is_written size disk disk' name lba count (some es) same o k =
    Coherent-is_written size disk disk' name lba count es same o k

module _ {H : Type 0} (view : H → Disk) (name : Text) (size : ℕ) (small : size ≤ max_sector_size)
    (q : NoNul name) (write_to : WriteFunc H) (lba count : ℕ)
    (writer : IsWriter view name size lba count write_to) (d : BlockDevice H)
    (ds : List (BlockDevice H)) (found : get_device name ds ≡ some d)
    (can_write : d.write_blocks ≡ some write_to) where
  write_sectors_call :
      (buffer : ℕ → ℕ) (c : BufferCache) (h : H)
      → write_sectors name lba count buffer ds c h ≡ (
        (write_to lba count buffer h).0,
        invalidate_all count name lba c,
        (write_to lba count buffer h).1,
      )
  unfolding write_sectors
  write_sectors_call buffer c h = rw (found, can_write, write_sectors) refl

  -- The cache says nothing that the device does not hold, whether the write succeeds or not.
  write_sectors-CoherentCache :
      (buffer : ℕ → ℕ) (c : BufferCache) (h : H)
      → lba + count < 2 ^ 64
      → CoherentCache size (view h) c.cache
      → CoherentCache size
          (view (write_sectors name lba count buffer ds c h).2)
          (write_sectors name lba count buffer ds c h).1.cache
  write_sectors-CoherentCache buffer c h top k =
      let (k', others) = invalidate_all-OtherCache size (view h) name q count lba c small top k in
      subst (λ (r : Bool × BufferCache × H). CoherentCache size (view r.2) r.1.cache)
        (sym (write_sectors_call buffer c h))
        (CoherentCache-is_written size (view h) (view (write_to lba count buffer h).1) name lba
          count (invalidate_all count name lba c).cache (writer.others buffer h) others k')

  -- After a `WriteSectors` that returned true, `ReadSectors` of the same sectors gives the bytes that were
  -- written, from the device or from the cache. The cache is coherent before, sectors have at most 512
  -- bytes and end below 2 ^ 64, the name has at most 15, the write of these sectors changes them only,
  -- and the driver keeps its promises of a read and reads each of them.
  pub read_sectors-write_sectors :
      (read : ReadFunc H) (buffer target : ℕ → ℕ) (c : BufferCache) (h : H)
      → length name ≤ 15
      → IsReader view name size read
      → Serves lba count read
      → d.read_blocks ≡ some read
      → d.sector_size ≡ size
      → lba + count < 2 ^ 64
      → CoherentCache size (view h) c.cache
      → (write_sectors name lba count buffer ds c h).0 ≡ true
      → (i j : ℕ) → i < count
      → j < size
      → (read_sectors name lba count target ds
            (write_sectors name lba count buffer ds c h).1
            (write_sectors name lba count buffer ds c h).2).1
          (i * size + j)
        ≡ buffer (i * size + j)
  read_sectors-write_sectors read buffer target c h short reader serves can_read size_is top k ok i
        j lt lt' =
      let w = write_sectors name lba count buffer ds c h in
      let call = write_sectors_call buffer c h in
      let s =
        read_sectors-Result view (view w.2) name size read small q short reader d ds count lba
          target w.1 w.2 found size_is can_read top (write_sectors-CoherentCache buffer c h top k)
          (λ m l n. refl) in
      ap (read_sectors name lba count target ds w.1 w.2).1 {x = i * size + j} {y = 0 + i * size + j}
        (omega arith)
      ∙ s.bytes (s.succeeds serves) i j lt lt'
      ∙ ap (λ (r : Bool × BufferCache × H). view r.2 name (lba + i) j) call
      ∙ writer.writes buffer h i j (sym (ap (λ (r : Bool × BufferCache × H). r.0) call) ∙ ok) lt lt'
