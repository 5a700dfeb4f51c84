-- ===== src/KHeap/RoundTrip.antt =====
-- A block that `Allocate` returned is given back by `Free`.
use mathlib.Core.Path.{subst}
use morphic_os_dev.Base.{
  ℕ, ◌+◌, ◌-◌, ◌^◌, ◌<◌, ◌≡◌, refl, sym, ap, ◌∙◌, inl, inr, Bool, true, false, ◌&&◌, Option, some,
  List, [], ◌∷◌, ◌++◌, arith, ◌==◌, if◌then◌else◌, Bool-cases, Option-cases, some-eq, none-ne-some,
}
use morphic_os_dev.KHeap.{KHeap, header_size, align, find_fit, rounds, allocate, free_block}
use morphic_os_dev.KHeap.Layout.{Segment, extent}
use morphic_os_dev.KHeap.FirstFit.{HeapOk, fits, carve, allocate-Outcome}
use morphic_os_dev.KHeap.Free.{grow, reach, freed, coalesce}
use morphic_os_dev.KHeap.Release.{free-HeapOk}

-- No two free segments adjoin.
abbrev pub Apart : List Segment → Type 0
Apart [] = Unit {0}
Apart (s ∷ []) = Unit {0}
Apart (s ∷ t ∷ ts) = ((s.free && t.free) ≡ false) × Apart (t ∷ ts)

pub Apart-behind : (before ss : List Segment) → Apart (before ++ ss) → Apart ss
Apart-behind [] ss a = a
Apart-behind (b ∷ []) [] a = tt
Apart-behind (b ∷ []) (s ∷ ss) a = a.1
Apart-behind (b ∷ c ∷ bs) ss a = Apart-behind (c ∷ bs) ss a.1

free_segment :
    (s : Segment) (n : ℕ) → s.free ≡ true → n ≡ s.size → record { size = n; free = true } ≡ s
free_segment s n f e = ground (arith, f, e)

grow-alone :
    (s : Segment) (after : List Segment)
    → s.free ≡ true
    → Apart (s ∷ after)
    → grow s after ≡ s ∷ after
grow-alone s [] f a = refl
grow-alone s (t ∷ ts) f a =
    ap
      (λ (b : Bool).
        if b then record { size = s.size + header_size + t.size; free = true } ∷ ts else s ∷ t ∷ ts)
      {x = t.free} {y = false} (ground (arith, f, a.0))

reach-alone : (p s : Segment) (ss : List Segment) → p.free ≡ false → reach p (s ∷ ss) ≡ p ∷ s ∷ ss
reach-alone p s ss f =
    ap
      (λ (b : Bool).
        if b then record { size = p.size + header_size + s.size; free = true } ∷ ss else p ∷ s ∷ ss)
      f

coalesce-Apart :
    (before : List Segment) (u s : Segment) (rest after : List Segment)
    → s.free ≡ true
    → grow (freed u) rest ≡ s ∷ after
    → Apart (before ++ s ∷ after)
    → coalesce before u rest ≡ before ++ s ∷ after
coalesce-Apart [] u s rest after f e a = e
coalesce-Apart (p ∷ []) u s rest after f e a =
    ap (reach p) e ∙ reach-alone p s after (ground (arith, f, a.0))
coalesce-Apart (p ∷ b ∷ bs) u s rest after f e a =
    ap (λ (l : List Segment). p ∷ l) (coalesce-Apart (b ∷ bs) u s rest after f e a.1)

-- The block that was carved out of a free segment, freed again.
carve-coalesce :
    (size : ℕ) (before : List Segment) (s : Segment) (after : List Segment)
    → fits size s ≡ true
    → Apart (before ++ s ∷ after)
    → (u : Segment) × (rest : List Segment) × (carve size s after ≡ u ∷ rest)
      × (coalesce before u rest ≡ before ++ s ∷ after)
carve-coalesce size before s after f a = elim (Bool-cases (s.size == size)) [
  | inl e ↦ (
    record s { free = false },
    after,
    rw e refl,
    coalesce-Apart before (record s { free = false }) s after after is_free
        (ap (λ (x : Segment). grow x after) (free_segment s s.size is_free refl)
          ∙ grow-alone s after is_free (Apart-behind before (s ∷ after) a))
        a,
  )
  | inr e ↦ (
    record { size = size; free = false },
    record { size = s.size - size - header_size; free = true } ∷ after,
    rw e refl,
    coalesce-Apart before (record { size = size; free = false }) s
        (record { size = s.size - size - header_size; free = true } ∷ after) after is_free
        (ap (λ (x : Segment). x ∷ after)
          (free_segment s (size + header_size + (s.size - size - header_size)) is_free
            (ground (arith, e, f))))
        a,
  )
]
  where
    is_free : s.free ≡ true
    is_free = ground (arith, f)

allocate-start : (h : KHeap) (asked : ℕ) → (allocate h asked).1.first_segment ≡ h.first_segment
unfolding allocate
allocate-start h asked = elim (Bool-cases (align asked == 0)) [
  | inl e ↦ rw e refl
  | inr e ↦ elim (Option-cases (find_fit (rounds h) h.memory (align asked) h.first_segment)) [
    | inl n ↦ rw (e, n, allocate) refl
    | inr (c, n) ↦ rw (e, n, allocate) refl
  ]
]

-- In a heap of adjoining segments of which no two free ones adjoin, a block that `Allocate` returned
-- and that `Free` is given next leaves the segments as they were; the size is not 0 and does not come
-- near 2 ^ 64.
pub free-allocate :
    (h : KHeap) (ss : List Segment)
    → HeapOk h ss
    → Apart ss
    → (asked p : ℕ) → 0 < align asked
    → align asked + header_size < 2 ^ 64
    → (allocate h asked).0 ≡ some p
    → HeapOk (free_block (allocate h asked).1 p) ss
free-allocate h ss ok a asked p some_size small got =
    elim (allocate-Outcome h ss ok asked some_size small) [
      | inl (e, u) ↦ absurd (none-ne-some (sym (ap (λ (r : Option ℕ × KHeap). r.0) e) ∙ got))
      | inr (before, s, after, e, u, f, at, taken) ↦
          let (v, rest, c, back) =
            carve-coalesce (align asked) before s after f (subst Apart e a) in
          let h' : KHeap = (allocate h asked).1 in
          let there : h'.first_segment + extent before + header_size ≡ p =
            ap (λ (x : ℕ). x + extent before + header_size) (allocate-start h asked)
            ∙ some-eq (sym at ∙ got) in
          subst (HeapOk (free_block h' p)) (back ∙ sym e) (
            subst (λ (x : ℕ). HeapOk (free_block h' x) (coalesce before v rest)) there
              (free-HeapOk h' before v rest
                (subst (λ (l : List Segment). HeapOk h' (before ++ l)) c taken)))
    ]
