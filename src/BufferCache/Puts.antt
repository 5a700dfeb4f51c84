-- ===== src/BufferCache/Puts.antt =====
-- `Put` keeps the cache of sectors coherent.
use mathlib.Core.Path.{subst}
use morphic_os_dev.Base.{
  ℕ, zero, suc, ◌≡◌, ◌≤◌, inl, inr, true, false, ◌&&◌, Option, none, some, List, [], ◌∷◌, ◌==◌,
  length, take_all, arith, Bool-cases,
}
use morphic_os_dev.Runtime.{Text, same_text}
use morphic_os_dev.Runtime.Strings.{same_text_refl, same_text_sym, NoNul, same_text-equal}
use morphic_os_dev.BufferCache.{CacheEntry, is_entry, find_in, change, filled}
use morphic_os_dev.BufferCache.Coherence.{Disk, Holds, IsOther, AllOther, Coherent, written}

-- All but the entry at the index are of other sectors.
abbrev pub Others : Text → ℕ → ℕ → List CacheEntry → Type 0
Others name lba i [] = Unit {0}
Others name lba zero (e ∷ es) = AllOther name lba es
Others name lba (suc i) (e ∷ es) = IsOther name lba e × Others name lba i es

pub AllOther-Others :
    (name : Text) (lba i : ℕ) (es : List CacheEntry) → AllOther name lba es → Others name lba i es
AllOther-Others name lba i [] o = tt
AllOther-Others name lba zero (e ∷ es) (o, os) = os
AllOther-Others name lba (suc i) (e ∷ es) (o, os) = (o, AllOther-Others name lba i es os)

-- The result of the search.
abbrev pub Found : Text → ℕ → List CacheEntry → Option ℕ → Type 0
Found name lba es none = AllOther name lba es
Found name lba es (some i) = Others name lba i es

Found-behind :
    (name : Text) (lba : ℕ) (e : CacheEntry) (es : List CacheEntry) (o : Option ℕ)
    → IsOther name lba e
    → Found name lba es o
    → Found name lba (e ∷ es) (elim o [ some i ↦ some (suc i) | none ↦ none ])
Found-behind name lba e es none h f = (h, f)
Found-behind name lba e es (some i) h f = (h, f)

-- What a valid entry of this sector has as its key.
pub is_entry_key :
    (name : Text) (lba size : ℕ) (disk : Disk) (e : CacheEntry)
    → NoNul name
    → Holds size disk e
    → is_entry name lba e ≡ true
    → (e.valid ≡ true) × (e.lba ≡ lba) × (e.device_name ≡ name)
is_entry_key name lba size disk e q h f =
    let v : e.valid ≡ true = ground (arith, f) in
    (v, ground (arith, f), same_text-equal e.device_name name (h v).0 q (ground (arith, f)))

pub find_in-Found :
    (name : Text) (lba size : ℕ) (disk : Disk) (es : List CacheEntry)
    → NoNul name
    → Coherent size disk es
    → Found name lba es (find_in name lba es)
unfolding find_in
find_in-Found name lba size disk [] q c = tt
find_in-Found name lba size disk (e ∷ es) q (h, a, c) = elim (Bool-cases (is_entry name lba e)) [
  | inl f ↦
      let (v, l, n) = is_entry_key name lba size disk e q h f in
      rw (f, find_in)
        (subst (λ (t : Text). AllOther t lba es) n
          (subst (λ k. AllOther e.device_name k es) l (a v)))
  | inr f ↦
      rw (f, find_in)
        (Found-behind name lba e es (find_in name lba es) f
          (find_in-Found name lba size disk es q c))
]

module _ (name : Text) (lba : ℕ) (source : ℕ → ℕ) (size stamp : ℕ) (disk : Disk)
    (short : length name ≤ 15) (q : NoNul name) where
  other-Holds :
      (e : CacheEntry)
      → IsOther name lba e
      → Holds size disk e
      → Holds size (written name lba source disk) e
  other-Holds e o h = λ v.
      let (n, b) = h v in
      let differs : (e.lba == lba && same_text e.device_name name) ≡ false = ground (arith, v, o) in
      (n, λ i lt. rw differs (b i lt))

  AllOther-Coherent :
      (es : List CacheEntry)
      → AllOther name lba es
      → Coherent size disk es
      → Coherent size (written name lba source disk) es
  AllOther-Coherent [] o c = tt
  AllOther-Coherent (e ∷ es) (o, os) (h, a, c) = (other-Holds e o h, a, AllOther-Coherent es os c)

  filled-Holds :
      (e : CacheEntry)
      → Holds size (written name lba source disk) (filled name lba source size stamp e)
  filled-Holds e = λ v.
      rw (take_all 15 name short)
        (q, λ i lt. let same = same_text_refl name q in ground (arith, lt, same))

  filled-IsOther :
      (e e' : CacheEntry)
      → NoNul e.device_name
      → e.valid ≡ true
      → IsOther name lba e
      → IsOther e.device_name e.lba (filled name lba source size stamp e')
  filled-IsOther e e' n v o = rw (take_all 15 name short) (elim (Bool-cases (lba == e.lba)) [
    | inr f ↦ ground (arith, f)
    | inl f ↦
        let back : same_text e.device_name name ≡ false = ground (arith, f, v, o) in
        let away = same_text_sym e.device_name name n q back in ground (arith, away)
  ])

  AllOther-change :
      (e : CacheEntry) (i : ℕ) (es : List CacheEntry)
      → NoNul e.device_name
      → e.valid ≡ true
      → IsOther name lba e
      → AllOther e.device_name e.lba es
      → AllOther e.device_name e.lba (change (filled name lba source size stamp) i es)
  unfolding change
  AllOther-change e i [] n v o os = tt
  AllOther-change e zero (e' ∷ es) n v o (_, os) = (filled-IsOther e e' n v o, os)
  AllOther-change e (suc i) (e' ∷ es) n v o (o', os) = (o', AllOther-change e i es n v o os)

  pub change-Coherent :
      (i : ℕ) (es : List CacheEntry)
      → Others name lba i es
      → Coherent size disk es
      → Coherent size
          (written name lba source disk)
          (change (filled name lba source size stamp) i es)
  unfolding change
  change-Coherent i [] o c = tt
  change-Coherent zero (e ∷ es) o (h, a, c) =
      (filled-Holds e, λ v. rw (take_all 15 name short) o, AllOther-Coherent es o c)
  change-Coherent (suc i) (e ∷ es) (o, os) (h, a, c) =
      (other-Holds e o h, λ v. AllOther-change e i es (h v).0 v o (a v), change-Coherent i es os c)
