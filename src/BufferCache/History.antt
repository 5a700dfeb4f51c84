-- ===== src/BufferCache/History.antt =====
-- The cache of sectors over any sequence of calls.
use mathlib.Core.Path.{subst}
use morphic_os_dev.Base.{
  ℕ, zero, suc, ◌≡◌, ◌≤◌, ◌<◌, refl, ap, ◌∙◌, inl, inr, Bool, true, false, Option, none, some, List,
  [], ◌∷◌, ltb, length, arith, add32, Bool-cases, Option-cases,
}
use morphic_os_dev.Runtime.{Text}
use morphic_os_dev.Runtime.Strings.{NoNul}
use morphic_os_dev.BufferCache.{
  CacheEntry, BufferCache, cache_size, max_sector_size, zero_entries, init_cache, is_entry, find_in,
  find_lru, slot_for, change, bytes_at, get, put, invalidate, flush_entries, flush_device,
}
use morphic_os_dev.BufferCache.Coherence.{
  Disk, Coherent, written, AllWeaker-Coherent, change-AllWeaker, flush_entries-AllWeaker,
}
use morphic_os_dev.BufferCache.Puts.{
  is_entry_key, Found, Others, AllOther-Others, find_in-Found, change-Coherent,
}

pub data Operation : Type 0 where
  get_op : Text → ℕ → (ℕ → ℕ) → Operation
  put_op : Text → ℕ → (ℕ → ℕ) → Operation
  invalidate_op : Text → ℕ → Operation
  flush_op : Text → Operation

-- A call for sectors of this size.
abbrev pub step : ℕ → Operation → BufferCache → BufferCache
step size (get_op name lba buffer) b = (get name lba buffer size b).2
step size (put_op name lba source) b = put name lba source size b
step size (invalidate_op name lba) b = invalidate name lba b
step size (flush_op name) b = flush_device name b

abbrev pub run : ℕ → List Operation → BufferCache → BufferCache
run size [] b = b
run size (o ∷ ops) b = run size ops (step size o b)

-- What was put last.
abbrev pub disk_step : Operation → Disk → Disk
disk_step (get_op name lba buffer) d = d
disk_step (put_op name lba source) d = written name lba source d
disk_step (invalidate_op name lba) d = d
disk_step (flush_op name) d = d

abbrev pub disk_run : List Operation → Disk → Disk
disk_run [] d = d
disk_run (o ∷ ops) d = disk_run ops (disk_step o d)

-- Names are C strings, and those of a put fit into the entry.
abbrev pub Proper : Operation → Type 0
Proper (get_op name lba buffer) = NoNul name
Proper (put_op name lba source) = NoNul name × (length name ≤ 15)
Proper (invalidate_op name lba) = NoNul name
Proper (flush_op name) = NoNul name

abbrev pub AllProper : List Operation → Type 0
AllProper [] = Unit {0}
AllProper (o ∷ ops) = Proper o × AllProper ops

abbrev pub CoherentCache : ℕ → Disk → Option (List CacheEntry) → Type 0
CoherentCache size disk none = Unit {0}
CoherentCache size disk (some es) = Coherent size disk es

abbrev pub cache_of : Option (List CacheEntry) → ℕ → ℕ → ℕ → BufferCache
cache_of c h m a = record { cache = c; hit_count = h; miss_count = m; access_counter = a }

module _ (size : ℕ) (small : size ≤ max_sector_size) (disk : Disk) where
  get-CoherentCache :
      (name : Text) (lba : ℕ) (buffer : ℕ → ℕ) (c : Option (List CacheEntry)) (h m a : ℕ)
      → CoherentCache size disk c
      → CoherentCache size disk (get name lba buffer size (cache_of c h m a)).2.cache
  unfolding get
  get-CoherentCache name lba buffer none h m a k = tt
  get-CoherentCache name lba buffer (some es) h m a k = elim (Option-cases (find_in name lba es)) [
    | inl f ↦ rw (f, get) k
    | inr (i, f) ↦
        rw (f, get)
          (AllWeaker-Coherent size disk (change (λ e. record e { access_count = add32 a 1 }) i es)
            es
            (change-AllWeaker (λ e. record e { access_count = add32 a 1 }) i es
              (λ e. record { valid = λ v. v; name = refl; lba = refl; bytes = refl }))
            k)
  ]

  put-CoherentCache :
      (name : Text) (lba : ℕ) (source : ℕ → ℕ) (c : Option (List CacheEntry)) (h m a : ℕ)
      → NoNul name
      → length name ≤ 15
      → CoherentCache size disk c
      → CoherentCache size
          (written name lba source disk)
          (put name lba source size (cache_of c h m a)).cache
  unfolding put
  put-CoherentCache name lba source none h m a q short k = tt
  put-CoherentCache name lba source (some es) h m a q short k =
      let fits : ltb max_sector_size size ≡ false = ground (arith, small) in
      let found = find_in-Found name lba size disk es q k in
      let others : Others name lba (slot_for name lba es) es =
        at_slot (find_in name lba es) found in
      rw (fits, put)
        (change-Coherent name lba source size (add32 a 1) disk short q (slot_for name lba es) es
          others k)
    where
      at_slot :
          (o : Option ℕ)
          → Found name lba es o
          → Others name lba (elim o [ some i ↦ i | none ↦ find_lru es ]) es
      at_slot none f = AllOther-Others name lba (find_lru es) es f
      at_slot (some i) f = f

  invalidate-CoherentCache :
      (name : Text) (lba : ℕ) (c : Option (List CacheEntry)) (h m a : ℕ)
      → CoherentCache size disk c
      → CoherentCache size disk (invalidate name lba (cache_of c h m a)).cache
  unfolding invalidate
  invalidate-CoherentCache name lba none h m a k = tt
  invalidate-CoherentCache name lba (some es) h m a k = elim (Option-cases (find_in name lba es)) [
    | inl f ↦ rw (f, invalidate) k
    | inr (i, f) ↦
        rw (f, invalidate)
          (AllWeaker-Coherent size disk (change (λ e. record e { valid = false }) i es) es
            (change-AllWeaker (λ e. record e { valid = false }) i es
              (λ e. record {
                valid = λ v. absurd (ground (arith, v));
                name = refl;
                lba = refl;
                bytes = refl;
              }))
            k)
  ]

  flush-CoherentCache :
      (name : Text) (c : Option (List CacheEntry)) (h m a : ℕ)
      → CoherentCache size disk c
      → CoherentCache size disk (flush_device name (cache_of c h m a)).cache
  unfolding flush_device
  flush-CoherentCache name none h m a k = tt
  flush-CoherentCache name (some es) h m a k =
      AllWeaker-Coherent size disk (flush_entries name es) es (flush_entries-AllWeaker name es) k

  pub step-CoherentCache :
      (o : Operation) (b : BufferCache)
      → Proper o
      → CoherentCache size disk b.cache
      → CoherentCache size (disk_step o disk) (step size o b).cache
  step-CoherentCache (get_op name lba buffer) b q k =
      get-CoherentCache name lba buffer b.cache b.hit_count b.miss_count b.access_counter k
  step-CoherentCache (put_op name lba source) b (q, short) k =
      put-CoherentCache name lba source b.cache b.hit_count b.miss_count b.access_counter q short k
  step-CoherentCache (invalidate_op name lba) b q k =
      invalidate-CoherentCache name lba b.cache b.hit_count b.miss_count b.access_counter k
  step-CoherentCache (flush_op name) b q k =
      flush-CoherentCache name b.cache b.hit_count b.miss_count b.access_counter k

  -- The entry that is found holds what the disk has.
  abbrev Reads : Text → ℕ → List CacheEntry → Option ℕ → Type 0
  Reads name lba es none = Unit {0}
  Reads name lba es (some i) = (j : ℕ) → j < size → bytes_at i es j ≡ disk name lba j

  Reads-behind :
      (name : Text) (lba : ℕ) (e : CacheEntry) (es : List CacheEntry) (o : Option ℕ)
      → Reads name lba es o
      → Reads name lba (e ∷ es) (elim o [ some i ↦ some (suc i) | none ↦ none ])
  Reads-behind name lba e es none r = tt
  Reads-behind name lba e es (some i) r = r

  find_in-Reads :
      (name : Text) (lba : ℕ) (es : List CacheEntry)
      → NoNul name
      → Coherent size disk es
      → Reads name lba es (find_in name lba es)
  unfolding find_in
  find_in-Reads name lba [] q k = tt
  find_in-Reads name lba (e ∷ es) q (h, a, k) = elim (Bool-cases (is_entry name lba e)) [
    | inl f ↦
        let (v, l, n) = is_entry_key name lba size disk e q h f in
        rw (f, find_in)
          (λ j lt. (h v).1 j lt ∙ ap (λ (t : Text). disk t e.lba j) n ∙ ap (λ s. disk name s j) l)
    | inr f ↦
        rw (f, find_in)
          (Reads-behind name lba e es (find_in name lba es) (find_in-Reads name lba es q k))
  ]

  pub get-disk :
      (name : Text) (lba : ℕ) (buffer : ℕ → ℕ) (c : Option (List CacheEntry)) (h m a : ℕ)
      → NoNul name
      → CoherentCache size disk c
      → (get name lba buffer size (cache_of c h m a)).0 ≡ true
      → (j : ℕ) → j < size
      → (get name lba buffer size (cache_of c h m a)).1 j ≡ disk name lba j
  unfolding get
  get-disk name lba buffer none h m a q k hit = absurd (ground (arith, hit))
  get-disk name lba buffer (some es) h m a q k hit = elim (Option-cases (find_in name lba es)) [
    | inl f ↦
        let missed : (get name lba buffer size (cache_of (some es) h m a)).0 ≡ false =
          rw (f, get) refl in
        absurd (ground (arith, hit, missed))
    | inr (i, f) ↦ rw (f, get) (λ j lt. let r = reads i f j lt in ground (arith, lt, r))
  ]
    where
      reads : (i : ℕ) → find_in name lba es ≡ some i → Reads name lba es (some i)
      reads i f = subst (Reads name lba es) f (find_in-Reads name lba es q k)

pub run-CoherentCache :
    (size : ℕ) (small : size ≤ max_sector_size) (disk : Disk) (ops : List Operation)
    (b : BufferCache)
    → AllProper ops
    → CoherentCache size disk b.cache
    → CoherentCache size (disk_run ops disk) (run size ops b).cache
run-CoherentCache size small disk [] b p k = k
run-CoherentCache size small disk (o ∷ ops) b (p, ps) k =
    run-CoherentCache size small (disk_step o disk) ops (step size o b) ps
      (step-CoherentCache size small disk o b p k)

zero_entries-Coherent : (size n : ℕ) (disk : Disk) → Coherent size disk (zero_entries n)
zero_entries-Coherent size zero disk = tt
zero_entries-Coherent size (suc n) disk = (
  (λ v. absurd (ground (arith, v))),
  (λ v. absurd (ground (arith, v))),
  zero_entries-Coherent size n disk,
)

pub init_cache-CoherentCache :
    (size : ℕ) (allocated : Bool) (disk : Disk)
    → CoherentCache size disk (init_cache allocated).cache
init_cache-CoherentCache size true disk = zero_entries-Coherent size cache_size disk
init_cache-CoherentCache size false disk = tt

-- After any sequence of calls for sectors of one size of at most 512 bytes, with names that fit into
-- an entry, a hit of `Get` copies the bytes that were put last for this sector of this device.
pub get-disk_run :
    (size : ℕ) (allocated : Bool) (disk : Disk) (ops : List Operation) (name : Text) (lba : ℕ)
    (buffer : ℕ → ℕ) (j : ℕ)
    → size ≤ max_sector_size
    → AllProper ops
    → NoNul name
    → (get name lba buffer size (run size ops (init_cache allocated))).0 ≡ true
    → j < size
    → (get name lba buffer size (run size ops (init_cache allocated))).1 j
      ≡ disk_run ops disk name lba j
get-disk_run size allocated disk ops name lba buffer j small p q hit lt =
    let b = run size ops (init_cache allocated) in
    get-disk size small (disk_run ops disk) name lba buffer b.cache b.hit_count b.miss_count
      b.access_counter q
      (run-CoherentCache size small disk ops (init_cache allocated) p
        (init_cache-CoherentCache size allocated disk))
      hit j lt
