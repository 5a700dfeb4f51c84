-- ===== src/MLock/Slots.antt =====
-- What `merge_first` and `add_first` do to the locked addresses.
use mathlib.Core.Path.{subst}
use morphic_os_dev.Base.{
  ℕ, zero, suc, ◌+◌, ◌-◌, ◌^◌, ◌≡◌, ◌≤◌, ◌<◌, refl, sym, ap, ◌∙◌, inl, inr, Bool, true, false, ◌&&◌,
  ◌||◌, Option, none, some, List, [], ◌∷◌, ltb, leb, if◌then◌else◌, arith, Bool-cases, none-ne-some,
  length,
}
use morphic_os_dev.MLock.{
  LockedRegion, overlaps, extend, merge_first, add_first, within, is_locked_in,
}

-- No active region wraps.
abbrev pub Fits : List LockedRegion → Type 0
Fits [] = Unit {0}
Fits (r ∷ rs) = (r.active ≡ true → r.start + r.size < 2 ^ 64) × Fits rs

-- The number of active regions.
abbrev pub active_count : List LockedRegion → ℕ
active_count [] = 0
active_count (r ∷ rs) = (if r.active then 1 else 0) + active_count rs

abbrev pub in_range : ℕ → ℕ → ℕ → Bool
in_range start size x = leb start x && ltb x (start + size)

module _ (start size : ℕ) (room : start + size < 2 ^ 64) where
  -- Without the wraps.
  abbrev plain : LockedRegion → LockedRegion
  plain r = record {
    start = if ltb start r.start then start else r.start;
    size =
        (if ltb (r.start + r.size) (start + size) then start + size else r.start + r.size)
        - (if ltb start r.start then start else r.start);
    active = r.active;
  }

  extend-plain : (r : LockedRegion) → r.start + r.size < 2 ^ 64 → extend start size r ≡ plain r
  extend-plain r fit = ground arith

  within-plain :
      (r : LockedRegion) (x : ℕ)
      → r.start + r.size < 2 ^ 64
      → r.active ≡ true
      → start < r.start + r.size
      → r.start < start + size
      → within x (plain r) ≡ (within x r || in_range start size x)
  within-plain r x fit act o o' = ground arith

  overlaps-apart :
      (r : LockedRegion)
      → (r.active ≡ true → r.start + r.size < 2 ^ 64)
      → overlaps start size r ≡ true
      → (r.active ≡ true)
        × (r.start + r.size < 2 ^ 64)
        × (start < r.start + r.size)
        × (r.start < start + size)
  overlaps-apart r fit o = elim (Bool-cases r.active) [
    | inl act ↦ let f = fit act in (act, f, ground arith, ground arith)
    | inr act ↦ absurd (ground (arith, act, o))
  ]

  extend_lem :
      (r : LockedRegion) (x : ℕ)
      → (r.active ≡ true → r.start + r.size < 2 ^ 64)
      → overlaps start size r ≡ true
      → (within x (extend start size r) ≡ (within x r || in_range start size x))
        × (extend start size r).active ≡ true
        × (extend start size r).start + (extend start size r).size < 2 ^ 64
  extend_lem r x fit o =
      let (act, f, a, b) = overlaps-apart r fit o in
      let e = extend-plain r f in
      (
        ap (within x) e ∙ within-plain r x f act a b,
        ap (λ (q : LockedRegion). q.active) e ∙ act,
        subst (λ (q : LockedRegion). q.start + q.size < 2 ^ 64) (sym e) (ground arith),
      )

  -- The slots `rs'` lock what `rs` do and the new range, in `k` more active regions.
  abbrev Covers : ℕ → List LockedRegion → List LockedRegion → Type 0
  Covers k rs rs' =
      ((x : ℕ) → is_locked_in x rs' ≡ (is_locked_in x rs || in_range start size x))
      × Fits rs'
      × (active_count rs' ≡ k + active_count rs)
      × (length rs' ≡ length rs)

  abbrev pub Result : ℕ → List LockedRegion → Option (List LockedRegion) → Type 0
  Result k rs none = Unit {0}
  Result k rs (some rs') = Covers k rs rs'

  behind : LockedRegion → Option (List LockedRegion) → Option (List LockedRegion)
  behind r o = elim o [ some rs' ↦ some (r ∷ rs') | none ↦ none ]

  behind-Result :
      (k : ℕ) (r : LockedRegion) (rs : List LockedRegion) (o : Option (List LockedRegion))
      → (r.active ≡ true → r.start + r.size < 2 ^ 64)
      → Result k rs o
      → Result k (r ∷ rs) (behind r o)
  unfolding behind is_locked_in
  behind-Result k r rs none fit c = tt
  behind-Result k r rs (some rs') fit (w, f, a, n) =
      (λ x. ground (arith, w x), (fit, f), omega arith, omega arith)

  pub merge_first_lem :
      (n : ℕ) (rs : List LockedRegion) → Fits rs → Result 0 rs (merge_first n start size rs)
  unfolding merge_first is_locked_in behind
  merge_first_lem zero rs fit = tt
  merge_first_lem (suc n) [] fit = tt
  merge_first_lem (suc n) (r ∷ rs) fit = elim (Bool-cases (overlaps start size r)) [
    | inl o ↦
        let e = extend_lem r in
        let act = (overlaps-apart r fit.0 o).0 in
        rw o (
          λ x. ground (arith, (e x fit.0 o).0),
          (λ _. (e 0 fit.0 o).2, fit.1),
          rw ((e 0 fit.0 o).1, act) (omega arith),
          refl,
        )
    | inr o ↦
        rw o (behind-Result 0 r rs (merge_first n start size rs) fit.0 (merge_first_lem n rs fit.1))
  ]

  pub add_first_lem : (rs : List LockedRegion) → Fits rs → Result 1 rs (add_first start size rs)
  unfolding add_first is_locked_in behind
  add_first_lem [] fit = tt
  add_first_lem (r ∷ rs) fit = elim (Bool-cases r.active) [
    | inl o ↦
        subst (λ (b : Bool). Result 1 (r ∷ rs) (choose b r rs)) (sym o)
          (behind-Result 1 r rs (add_first start size rs) fit.0 (add_first_lem rs fit.1))
    | inr o ↦
        subst (λ (b : Bool). Result 1 (r ∷ rs) (choose b r rs)) (sym o)
          (λ x. ground (arith, o), (λ _. room, fit.1), rw o (omega arith), refl)
  ]
    where
      choose : Bool → LockedRegion → List LockedRegion → Option (List LockedRegion)
      choose b r rs =
          if b
          then behind r (add_first start size rs)
          else some (record { start = start; size = size; active = true } ∷ rs)

  behind-none : (r : LockedRegion) (o : Option (List LockedRegion)) → behind r o ≡ none → o ≡ none
  unfolding behind
  behind-none r none e = refl
  behind-none r (some rs) e = cc

  -- No slot is free only if all are active.
  pub add_first-full :
      (rs : List LockedRegion) → add_first start size rs ≡ none → active_count rs ≡ length rs
  unfolding add_first behind
  add_first-full [] e = refl
  add_first-full (r ∷ rs) e = elim (Bool-cases r.active) [
    | inl o ↦ omega (
      arith,
      add_first-full rs (behind-none r (add_first start size rs) (sym (first o) ∙ e)),
      weight o,
    )
    | inr o ↦ absurd (none-ne-some (sym e ∙ free o))
  ]
    where
      first : r.active ≡ true → add_first start size (r ∷ rs) ≡ behind r (add_first start size rs)
      first o =
          ap
            (λ (b : Bool).
              if b
              then behind r (add_first start size rs)
              else some (record { start = start; size = size; active = true } ∷ rs))
            o

      free :
          r.active ≡ false
          → add_first start size (r ∷ rs)
            ≡ some (record { start = start; size = size; active = true } ∷ rs)
      free o =
          ap
            (λ (b : Bool).
              if b
              then behind r (add_first start size rs)
              else some (record { start = start; size = size; active = true } ∷ rs))
            o

      weight : r.active ≡ true → ◌≡◌ {A = ℕ} (if r.active then 1 else 0) 1
      weight o = rw o refl

pub active-le-length : (rs : List LockedRegion) → active_count rs ≤ length rs
active-le-length [] = omega arith
active-le-length (r ∷ rs) = ground (arith, active-le-length rs)
