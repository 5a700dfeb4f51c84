-- ===== src/BufferCache/Coherence.antt =====
-- What the cache of sectors holds, against the last sectors that were put.
use mathlib.Core.Path.{subst}
use morphic_os_dev.Base.{
  ℕ, zero, suc, ◌≡◌, ◌<◌, refl, sym, inl, inr, true, false, ◌&&◌, List, [], ◌∷◌, ◌==◌,
  if◌then◌else◌, arith, Bool-cases,
}
use morphic_os_dev.Runtime.{Text, same_text}
use morphic_os_dev.Runtime.Strings.{NoNul}
use morphic_os_dev.BufferCache.{CacheEntry, is_entry, change, flush_entries}

-- What was put last: the bytes of a sector of a device.
abbrev pub Disk : Type 0
Disk = Text → ℕ → ℕ → ℕ

-- The first `size` bytes of each entry are what the disk has there, if the entry is valid.
abbrev pub Holds : ℕ → Disk → CacheEntry → Type 0
Holds size disk e =
    (e.valid ≡ true)
    → NoNul e.device_name × ((i : ℕ) → i < size → e.bytes i ≡ disk e.device_name e.lba i)

-- Not the valid entry of this sector.
abbrev pub IsOther : Text → ℕ → CacheEntry → Type 0
IsOther name lba e = is_entry name lba e ≡ false

abbrev pub AllOther : Text → ℕ → List CacheEntry → Type 0
AllOther name lba [] = Unit {0}
AllOther name lba (e ∷ es) = IsOther name lba e × AllOther name lba es

-- The entries hold what the disk has, and no two of the valid ones are of the same sector.
abbrev pub Coherent : ℕ → Disk → List CacheEntry → Type 0
Coherent size disk [] = Unit {0}
Coherent size disk (e ∷ es) =
    Holds size disk e × (e.valid ≡ true → AllOther e.device_name e.lba es) × Coherent size disk es

-- The disk after a put.
abbrev pub written : Text → ℕ → (ℕ → ℕ) → Disk → Disk
written name lba source disk n l i = if l == lba && same_text n name then source i else disk n l i

-- An entry that changes in nothing but its count, or stops to be valid.
pub record Weaker (e' e : CacheEntry) : Type 0 where
  pub valid : e'.valid ≡ true → e.valid ≡ true
  pub name : e'.device_name ≡ e.device_name
  pub lba : e'.lba ≡ e.lba
  pub bytes : e'.bytes ≡ e.bytes

abbrev pub AllWeaker : List CacheEntry → List CacheEntry → Type 0
AllWeaker [] [] = Unit {0}
AllWeaker [] (e ∷ es) = ⊥
AllWeaker (e' ∷ es') [] = ⊥
AllWeaker (e' ∷ es') (e ∷ es) = Weaker e' e × AllWeaker es' es

Weaker-IsOther :
    (name : Text) (lba : ℕ) (e' e : CacheEntry)
    → Weaker e' e
    → IsOther name lba e
    → IsOther name lba e'
Weaker-IsOther name lba e' e w o = elim (Bool-cases e'.valid) [
  | inr f ↦ rw f refl
  | inl f ↦ let g = w.valid f in rw (f, w.name, w.lba) (ground (arith, g, o))
]

pub AllWeaker-AllOther :
    (name : Text) (lba : ℕ) (es' es : List CacheEntry)
    → AllWeaker es' es
    → AllOther name lba es
    → AllOther name lba es'
AllWeaker-AllOther name lba [] [] w o = tt
AllWeaker-AllOther name lba [] (e ∷ es) w o = elim w [ ]
AllWeaker-AllOther name lba (e' ∷ es') [] w o = elim w [ ]
AllWeaker-AllOther name lba (e' ∷ es') (e ∷ es) (w, ws) (o, os) =
    (Weaker-IsOther name lba e' e w o, AllWeaker-AllOther name lba es' es ws os)

pub AllWeaker-Coherent :
    (size : ℕ) (disk : Disk) (es' es : List CacheEntry)
    → AllWeaker es' es
    → Coherent size disk es
    → Coherent size disk es'
AllWeaker-Coherent size disk [] [] w c = tt
AllWeaker-Coherent size disk [] (e ∷ es) w c = elim w [ ]
AllWeaker-Coherent size disk (e' ∷ es') [] w c = elim w [ ]
AllWeaker-Coherent size disk (e' ∷ es') (e ∷ es) (w, ws) (h, a, c) = (
  λ v.
      let (n, b) = h (w.valid v) in
      (subst NoNul (sym w.name) n, λ i lt. rw (w.bytes, w.name, w.lba) (b i lt)),
  λ v. rw (w.name, w.lba) (AllWeaker-AllOther e.device_name e.lba es' es ws (a (w.valid v))),
  AllWeaker-Coherent size disk es' es ws c,
)

same-Weaker : (e : CacheEntry) → Weaker e e
same-Weaker e = record { valid = λ v. v; name = refl; lba = refl; bytes = refl }

same-AllWeaker : (es : List CacheEntry) → AllWeaker es es
same-AllWeaker [] = tt
same-AllWeaker (e ∷ es) = (same-Weaker e, same-AllWeaker es)

pub change-AllWeaker :
    (f : CacheEntry → CacheEntry) (i : ℕ) (es : List CacheEntry)
    → ((e : CacheEntry) → Weaker (f e) e)
    → AllWeaker (change f i es) es
unfolding change
change-AllWeaker f i [] w = tt
change-AllWeaker f zero (e ∷ es) w = (w e, same-AllWeaker es)
change-AllWeaker f (suc i) (e ∷ es) w = (same-Weaker e, change-AllWeaker f i es w)

pub flush_entries-AllWeaker :
    (name : Text) (es : List CacheEntry) → AllWeaker (flush_entries name es) es
unfolding flush_entries
flush_entries-AllWeaker name [] = tt
flush_entries-AllWeaker name (e ∷ es) =
    elim (Bool-cases (e.valid && same_text e.device_name name)) [
      | inl f ↦ rw f (
        record { valid = λ v. absurd (ground (arith, v)); name = refl; lba = refl; bytes = refl },
        flush_entries-AllWeaker name es,
      )
      | inr f ↦ rw f (same-Weaker e, flush_entries-AllWeaker name es)
    ]
