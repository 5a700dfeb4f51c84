-- ===== src/BufferCache/Hits.antt =====
-- A sector that was put is found.
use morphic_os_dev.Base.{
  ℕ, zero, suc, ◌+◌, ◌≡◌, ◌≤◌, ◌<◌, refl, ap, ◌∙◌, inl, inr, Bool, true, false, Option, none, some,
  List, [], ◌∷◌, ltb, length, take_all, arith, Bool-cases, Option-cases, add32,
}
use morphic_os_dev.Runtime.{Text}
use morphic_os_dev.Runtime.Strings.{same_text_refl, NoNul}
use morphic_os_dev.BufferCache.{
  CacheEntry, BufferCache, cache_size, max_sector_size, zero_entries, init_cache, is_entry, find_in,
  lru_from, find_lru, slot_for, change, get, filled, put, invalidate, flush_entries, flush_device,
}
use morphic_os_dev.BufferCache.Coherence.{Disk, written}
use morphic_os_dev.BufferCache.History.{
  Operation, get_op, put_op, invalidate_op, flush_op, step, run, disk_run, AllProper, cache_of,
  get-disk, step-CoherentCache, run-CoherentCache, init_cache-CoherentCache,
}

length-change :
    (f : CacheEntry → CacheEntry) (i : ℕ) (es : List CacheEntry)
    → length (change f i es) ≡ length es
unfolding change
length-change f i [] = refl
length-change f zero (e ∷ es) = refl
length-change f (suc i) (e ∷ es) = ap suc (length-change f i es)

length-flush_entries :
    (name : Text) (es : List CacheEntry) → length (flush_entries name es) ≡ length es
unfolding flush_entries
length-flush_entries name [] = refl
length-flush_entries name (e ∷ es) = ap suc (length-flush_entries name es)

length-zero_entries : (n : ℕ) → length (zero_entries n) ≡ n
length-zero_entries zero = refl
length-zero_entries (suc n) = ap suc (length-zero_entries n)

-- The cache was allocated, with all its entries.
abbrev Sized : Option (List CacheEntry) → Type 0
Sized none = ⊥
Sized (some es) = length es ≡ cache_size

get-Sized :
    (name : Text) (lba : ℕ) (buffer : ℕ → ℕ) (size : ℕ) (es : List CacheEntry) (h m a : ℕ)
    → Sized (some es)
    → Sized (get name lba buffer size (cache_of (some es) h m a)).2.cache
unfolding get
get-Sized name lba buffer size es h m a k = elim (Option-cases (find_in name lba es)) [
  | inl f ↦ rw (f, get) k
  | inr (i, f) ↦ rw (f, get) (length-change (λ e. record e { access_count = add32 a 1 }) i es ∙ k)
]

put-Sized :
    (name : Text) (lba : ℕ) (source : ℕ → ℕ) (size : ℕ) (es : List CacheEntry) (h m a : ℕ)
    → Sized (some es)
    → Sized (put name lba source size (cache_of (some es) h m a)).cache
unfolding put
put-Sized name lba source size es h m a k = elim (Bool-cases (ltb max_sector_size size)) [
  | inl f ↦ rw (f, put) k
  | inr f ↦
      rw (f, put)
        (length-change (filled name lba source size (add32 a 1)) (slot_for name lba es) es ∙ k)
]

invalidate-Sized :
    (name : Text) (lba : ℕ) (es : List CacheEntry) (h m a : ℕ)
    → Sized (some es)
    → Sized (invalidate name lba (cache_of (some es) h m a)).cache
unfolding invalidate
invalidate-Sized name lba es h m a k = elim (Option-cases (find_in name lba es)) [
  | inl f ↦ rw (f, invalidate) k
  | inr (i, f) ↦ rw (f, invalidate) (length-change (λ e. record e { valid = false }) i es ∙ k)
]

step-Sized :
    (size : ℕ) (o : Operation) (c : Option (List CacheEntry)) (h m a : ℕ)
    → Sized c
    → Sized (step size o (cache_of c h m a)).cache
unfolding flush_device
step-Sized size o none h m a k = elim k [ ]
step-Sized size (get_op name lba buffer) (some es) h m a k =
    get-Sized name lba buffer size es h m a k
step-Sized size (put_op name lba source) (some es) h m a k =
    put-Sized name lba source size es h m a k
step-Sized size (invalidate_op name lba) (some es) h m a k = invalidate-Sized name lba es h m a k
step-Sized size (flush_op name) (some es) h m a k = length-flush_entries name es ∙ k

run-Sized :
    (size : ℕ) (ops : List Operation) (b : BufferCache)
    → Sized b.cache
    → Sized (run size ops b).cache
run-Sized size [] b k = k
run-Sized size (o ∷ ops) b k =
    run-Sized size ops (step size o b)
      (step-Sized size o b.cache b.hit_count b.miss_count b.access_counter k)

-- `FindLRU` stays among the entries.
lru_from_bound :
    (i oldest least : ℕ) (es : List CacheEntry)
    → oldest < i
    → lru_from i oldest least es < i + length es
unfolding lru_from
lru_from_bound i oldest least [] lt = omega (arith, lt)
lru_from_bound i oldest least (e ∷ es) lt = elim (Bool-cases e.valid) [
  | inr f ↦ rw (f, lru_from) (omega arith)
  | inl f ↦ elim (Bool-cases (ltb e.access_count least)) [
    | inl g ↦
        rw (f, g, lru_from)
          (omega (arith, lru_from_bound (i + 1) i e.access_count es (omega arith)))
    | inr g ↦
        rw (f, g, lru_from)
          (omega (arith, lru_from_bound (i + 1) oldest least es (omega (arith, lt))))
  ]
]

find_lru_bound : (es : List CacheEntry) → length es ≡ cache_size → find_lru es < length es
unfolding find_lru
find_lru_bound [] k = omega (arith, k)
find_lru_bound (e ∷ es) k = omega (arith, lru_from_bound 1 0 e.access_count es (omega arith))

abbrev is_some : Option ℕ → Bool
is_some none = false
is_some (some i) = true

abbrev Below : ℕ → Option ℕ → Type 0
Below n none = Unit {0}
Below n (some i) = i < n

Below-behind :
    (n : ℕ) (o : Option ℕ)
    → Below n o
    → Below (suc n) (elim o [ some i ↦ some (suc i) | none ↦ none ])
Below-behind n none b = tt
Below-behind n (some i) b = omega (arith, b)

find_in-Below :
    (name : Text) (lba : ℕ) (es : List CacheEntry) → Below (length es) (find_in name lba es)
unfolding find_in
find_in-Below name lba [] = tt
find_in-Below name lba (e ∷ es) = elim (Bool-cases (is_entry name lba e)) [
  | inl f ↦ rw (f, find_in) (omega arith)
  | inr f ↦
      rw (f, find_in) (Below-behind (length es) (find_in name lba es) (find_in-Below name lba es))
]

-- The entry that was made for this sector is found, or one before it.
find_in-change :
    (name : Text) (lba : ℕ) (f : CacheEntry → CacheEntry) (i : ℕ) (es : List CacheEntry)
    → ((e : CacheEntry) → is_entry name lba (f e) ≡ true)
    → i < length es
    → is_some (find_in name lba (change f i es)) ≡ true
unfolding find_in change
find_in-change name lba f i [] k lt = absurd (omega (arith, lt))
find_in-change name lba f zero (e ∷ es) k lt = rw (k e, find_in) refl
find_in-change name lba f (suc i) (e ∷ es) k lt = elim (Bool-cases (is_entry name lba e)) [
  | inl g ↦ rw (g, find_in) refl
  | inr g ↦
      rw (g, find_in)
        (behind (find_in name lba (change f i es))
          (find_in-change name lba f i es k (omega (arith, lt))))
]
  where
    behind :
        (o : Option ℕ)
        → is_some o ≡ true
        → is_some (elim o [ some i ↦ some (suc i) | none ↦ none ]) ≡ true
    behind none h = h
    behind (some j) h = refl

get-is_some :
    (name : Text) (lba : ℕ) (buffer : ℕ → ℕ) (size : ℕ) (es : List CacheEntry) (h m a : ℕ)
    → (get name lba buffer size (cache_of (some es) h m a)).0 ≡ is_some (find_in name lba es)
unfolding get
get-is_some name lba buffer size es h m a = elim (Option-cases (find_in name lba es)) [
  | inl f ↦ rw (f, get) refl
  | inr (i, f) ↦ rw (f, get) refl
]

module _ (name : Text) (lba : ℕ) (source buffer : ℕ → ℕ) (size : ℕ) (small : size ≤ max_sector_size)
    (short : length name ≤ 15) (q : NoNul name) where
  filled-is_entry :
      (stamp : ℕ) (e : CacheEntry) → is_entry name lba (filled name lba source size stamp e) ≡ true
  filled-is_entry stamp e =
      let same = same_text_refl name q in rw (take_all 15 name short) (ground (arith, same))

  slot_for_bound :
      (es : List CacheEntry) → length es ≡ cache_size → slot_for name lba es < length es
  slot_for_bound es k = at_slot (find_in name lba es) (find_in-Below name lba es)
    where
      at_slot :
          (o : Option ℕ)
          → Below (length es) o
          → (elim o [ some i ↦ i | none ↦ find_lru es ]) < length es
      at_slot none b = find_lru_bound es k
      at_slot (some i) b = b

  get-put_hit :
      (c : Option (List CacheEntry)) (h m a : ℕ)
      → Sized c
      → (get name lba buffer size (put name lba source size (cache_of c h m a))).0 ≡ true
  unfolding put
  get-put_hit none h m a k = elim k [ ]
  get-put_hit (some es) h m a k =
      let fits : ltb max_sector_size size ≡ false = ground (arith, small) in
      let es' = change (filled name lba source size (add32 a 1)) (slot_for name lba es) es in
      rw (fits, put)
        (get-is_some name lba buffer size es' h m (add32 a 1)
          ∙ find_in-change name lba (filled name lba source size (add32 a 1)) (slot_for name lba es)
              es (filled-is_entry (add32 a 1)) (slot_for_bound es k))

-- In an allocated cache, after any sequence of calls for sectors of one size of at most 512 bytes, `Get`
-- of a sector that was just put hits, whatever entry `Put` took for it, and copies the bytes that were
-- put; the names fit into an entry.
pub get-put :
    (ops : List Operation) (name : Text) (lba : ℕ) (source buffer : ℕ → ℕ) (size j : ℕ)
    → size ≤ max_sector_size
    → length name ≤ 15
    → NoNul name
    → AllProper ops
    → j < size
    → ((get name lba buffer size (put name lba source size (run size ops (init_cache true)))).0
        ≡ true)
      × ((get name lba buffer size (put name lba source size (run size ops (init_cache true)))).1 j
          ≡ source j)
get-put ops name lba source buffer size j small short q p lt =
    let disk : Disk = λ n l i. 0 in
    let b = run size ops (init_cache true) in
    let b' = put name lba source size b in
    let sized = run-Sized size ops (init_cache true) (length-zero_entries cache_size) in
    let hit =
      get-put_hit name lba source buffer size small short q b.cache b.hit_count b.miss_count
        b.access_counter sized in
    let coherent =
      run-CoherentCache size small disk ops (init_cache true) p
        (init_cache-CoherentCache size true disk) in
    let after =
      step-CoherentCache size small (disk_run ops disk) (put_op name lba source) b (q, short)
        coherent in
    let same = same_text_refl name q in
    (
      hit,
      get-disk size small (written name lba source (disk_run ops disk)) name lba buffer b'.cache
            b'.hit_count b'.miss_count b'.access_counter q after hit j lt
          ∙ ground (arith, same),
    )
