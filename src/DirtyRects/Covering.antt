-- ===== src/DirtyRects/Covering.antt =====
-- No dirty point is lost by `Mark`.
use mathlib.Core.Path.{subst}
use morphic_os_dev.Base.{
  ℕ, zero, suc, ◌+◌, ◌-◌, ◌^◌, ◌≡◌, ◌≤◌, ◌<◌, refl, ap, ◌∙◌, inl, inr, Bool, true, false, ◌&&◌,
  ◌||◌, Option, none, some, List, [], ◌∷◌, ltb, leb, if◌then◌else◌, set, add32, arith, length,
  Bool-cases, Option-cases, leb→lt, length-set,
}
use morphic_os_dev.DirtyRects.{
  Rect, DirtyRects, max_dirty_rects, place, joined_start, joined_size, merge, overlaps, merge_first,
  whole_screen, mark,
}

-- On one axis: the end neither overflows nor lies left of the screen.
abbrev pub EndsOnScreen : ℕ → ℕ → Type 0
EndsOnScreen x w = (x < 2 ^ 32) × (2 ^ 31 ≤ place x + w) × (place x + w < 2 ^ 32)

abbrev pub Fits : Rect → Type 0
Fits r = EndsOnScreen r.x r.w × EndsOnScreen r.y r.h

-- What one axis covers.
abbrev pub on : ℕ → ℕ → ℕ → Bool
on x w p = leb (place x) p && ltb p (place x + w)

abbrev pub covers : ℕ → ℕ → Rect → Bool
covers p q r = r.valid && on r.x r.w p && on r.y r.h q

end_pattern : (y v : ℕ) → EndsOnScreen y v → add32 y v ≡ place y + v - 2 ^ 31
end_pattern y v e = omega (arith, e.0, e.1, e.2)

-- The united side, in places.
abbrev low : ℕ → ℕ → ℕ
low x rx = if ltb (place x) (place rx) then place x else place rx

abbrev high : ℕ → ℕ → ℕ → ℕ → ℕ
high x w rx rw = if ltb (place rx + rw) (place x + w) then place x + w else place rx + rw

module _ (x w rx rw : ℕ) (f : EndsOnScreen x w) (g : EndsOnScreen rx rw) where
  joined_start-place : place (joined_start x rx) ≡ low x rx
  joined_start-place = ground arith

  joined-end : place (joined_start x rx) + joined_size x w rx rw ≡ high x w rx rw
  joined-end = ground (arith, end_pattern x w f, end_pattern rx rw g)

  joined-EndsOnScreen : EndsOnScreen (joined_start x rx) (joined_size x w rx rw)
  joined-EndsOnScreen =
      let j = joined-end in
      (ground (arith, f.0, g.0), ground (arith, f.1, j), ground (arith, f.2, g.2, j))

  joined-on :
      (p : ℕ)
      → (on x w p || on rx rw p) ≡ true
      → on (joined_start x rx) (joined_size x w rx rw) p ≡ true
  joined-on p o = let s = joined_start-place in let j = joined-end in ground (arith, s, j, o)

merge-Fits : (q r : Rect) → Fits q → Fits r → Fits (merge q r)
unfolding merge
merge-Fits q r f g =
    (joined-EndsOnScreen q.x q.w r.x r.w f.0 g.0, joined-EndsOnScreen q.y q.h r.y r.h f.1 g.1)

both_axes :
    (u v a a' b b' c d : Bool)
    → v ≡ true
    → ((a || a') ≡ true → c ≡ true)
    → ((b || b') ≡ true → d ≡ true)
    → ((u && a && b) || (v && a' && b')) ≡ true
    → (v && c && d) ≡ true
both_axes u v a a' b b' c d e across down o =
    let cross : (a || a') ≡ true = ground (arith, o) in
    let below : (b || b') ≡ true = ground (arith, o) in
    let c1 = across cross in let d1 = down below in ground (arith, e, c1, d1)

-- A point of either rectangle is in the united one.
merge-covers :
    (q r : Rect) (a b : ℕ)
    → Fits q
    → Fits r
    → r.valid ≡ true
    → (covers a b q || covers a b r) ≡ true
    → covers a b (merge q r) ≡ true
unfolding merge
merge-covers q r a b f g v c =
    both_axes q.valid r.valid (on q.x q.w a) (on r.x r.w a) (on q.y q.h b) (on r.y r.h b)
      (on (joined_start q.x r.x) (joined_size q.x q.w r.x r.w) a)
      (on (joined_start q.y r.y) (joined_size q.y q.h r.y r.h) b) v
      (joined-on q.x q.w r.x r.w f.0 g.0 a) (joined-on q.y q.h r.y r.h f.1 g.1 b) c

-- The first `n` rectangles that are valid fit.
abbrev pub AllFit : ℕ → List Rect → Type 0
AllFit zero rs = Unit {0}
AllFit (suc n) [] = Unit {0}
AllFit (suc n) (r ∷ rs) = (r.valid ≡ true → Fits r) × AllFit n rs

abbrev pub covered : ℕ → ℕ → ℕ → List Rect → Bool
covered a b zero rs = false
covered a b (suc n) [] = false
covered a b (suc n) (r ∷ rs) = covers a b r || covered a b n rs

-- What a search among the first `n` rectangles is to leave.
abbrev Result : ℕ → Rect → List Rect → Option (List Rect) → Type 0
Result n q rs none = Unit {0}
Result n q rs (some rs') =
    AllFit n rs'
    × (length rs' ≡ length rs)
    × ((a b : ℕ) → (covers a b q || covered a b n rs) ≡ true → covered a b n rs' ≡ true)

merged_covers :
    (u v w m : Bool) → ((u || v) ≡ true → m ≡ true) → (u || (v || w)) ≡ true → (m || w) ≡ true
merged_covers u v true m k o = ground arith
merged_covers u v false m k o = let k1 = k (ground (arith, o)) in ground (arith, k1)

later :
    (n : ℕ) (q r : Rect) (rs : List Rect) (found : Option (List Rect))
    → (r.valid ≡ true → Fits r)
    → Result n q rs found
    → Result (suc n) q (r ∷ rs) (elim found [ some rs' ↦ some (r ∷ rs') | none ↦ none ])
later n q r rs none fit e = e
later n q r rs (some rs') fit (f, l, c) = (
  (fit, f),
  ap suc l,
  λ a b o.
      later_covers (covers a b q) (covers a b r) (covered a b n rs) (covered a b n rs') (c a b) o,
)
  where
    later_covers :
        (u v w w' : Bool)
        → ((u || w) ≡ true → w' ≡ true)
        → (u || (v || w)) ≡ true
        → (v || w') ≡ true
    later_covers u true w w' k o = refl
    later_covers true false w w' k o = k refl
    later_covers false false w w' k o = k o

merge_first_lem :
    (n : ℕ) (q : Rect) (rs : List Rect) → Fits q → AllFit n rs → Result n q rs (merge_first n q rs)
unfolding merge_first
merge_first_lem zero q rs f g = tt
merge_first_lem (suc n) q [] f g = tt
merge_first_lem (suc n) q (r ∷ rs) f (fit, g) = elim (Bool-cases (overlaps q r)) [
  | inl o ↦
      let v : r.valid ≡ true = ground (arith, o) in
      rw o (
        (λ _. merge-Fits q r f (fit v), g),
        refl,
        λ a b c.
            merged_covers (covers a b q) (covers a b r) (covered a b n rs) (covers a b (merge q r))
              (merge-covers q r a b f (fit v) v) c,
      )
  | inr o ↦ rw o (later n q r rs (merge_first n q rs) fit (merge_first_lem n q rs f g))
]

set-covered :
    (n : ℕ) (q : Rect) (rs : List Rect)
    → n < length rs
    → Fits q
    → AllFit n rs
    → AllFit (suc n) (set rs n q)
      × ((a b : ℕ) → covered a b (suc n) (set rs n q) ≡ (covers a b q || covered a b n rs))
set-covered zero q [] l f g = absurd (omega (arith, l))
set-covered zero q (r ∷ rs) l f g = ((λ _. f, tt), λ a b. refl)
set-covered (suc n) q [] l f g = absurd (omega (arith, l))
set-covered (suc n) q (r ∷ rs) l f (fit, g) =
    let (h, c) = set-covered n q rs (omega (arith, l)) f g in
    ((fit, h), λ a b. let e = c a b in ground (arith, e))

pub record Sane (d : DirtyRects) : Type 0 where
  pub slots : length d.rects ≡ max_dirty_rects
  pub counted : d.count ≤ max_dirty_rects
  pub fit : AllFit d.count d.rects

-- `d'` is sane, and a point of the screen that is in `q` or is to be drawn in `d` is to be drawn in `d'`.
abbrev pub Marked : Rect → DirtyRects → DirtyRects → Type 0
Marked q d d' =
    Sane d'
    × ((a b : ℕ)
        → on 0 0xFFFF a ≡ true
        → on 0 0xFFFF b ≡ true
        → (covers a b q || covered a b d.count d.rects) ≡ true
        → covered a b d'.count d'.rects ≡ true)

module _ (q : Rect) (d : DirtyRects) (f : Fits q) (s : Sane d) where
  whole-Marked : Marked q d (record { rects = set d.rects 0 whole_screen; count = 1 })
  whole-Marked =
      let whole-Fits : Fits whole_screen =
        ((omega arith, omega arith, omega arith), (omega arith, omega arith, omega arith)) in
      let (g, c) = set-covered 0 whole_screen d.rects (omega (arith, s.slots)) whole-Fits tt in
      (
        record {
          slots = length-set d.rects 0 whole_screen ∙ s.slots;
          counted = omega arith;
          fit = g;
        },
        λ a b on_a on_b o. let e = c a b in ground (arith, e, on_a, on_b),
      )

  merged-Marked :
      (rs : List Rect)
      → merge_first d.count q d.rects ≡ some rs
      → Marked q d (record d { rects = rs })
  merged-Marked rs e =
      let (g, l, c) =
        subst (Result d.count q d.rects) e (merge_first_lem d.count q d.rects f s.fit) in
      (record { slots = l ∙ s.slots; counted = s.counted; fit = g }, λ a b on_a on_b o. c a b o)

  added-Marked :
      d.count < max_dirty_rects
      → Marked q d (record { rects = set d.rects d.count q; count = d.count + 1 })
  added-Marked room =
      let (g, c) = set-covered d.count q d.rects (omega (arith, room, s.slots)) f s.fit in
      subst (λ n. Marked q d (record { rects = set d.rects d.count q; count = n }))
        {x = suc d.count} (omega arith)
        (
          record {
            slots = length-set d.rects d.count q ∙ s.slots;
            counted = omega (arith, room);
            fit = g;
          },
          λ a b on_a on_b o. c a b ∙ o,
        )

mark-Marked : (q : Rect) (d : DirtyRects) → Fits q → Sane d → Marked q d (mark q d)
unfolding mark
mark-Marked q d f s = elim (Bool-cases (leb max_dirty_rects d.count)) [
  | inl full ↦ rw full (whole-Marked q d f s)
  | inr more ↦ elim (Option-cases (merge_first d.count q d.rects)) [
    | inr (rs, e) ↦ rw (more, e) (merged-Marked q d f s rs e)
    | inl e ↦ rw (more, e) (added-Marked q d f s (leb→lt max_dirty_rects d.count more))
  ]
]

-- When neither the new rectangle nor a stored one ends left of or above the screen or beyond 2 ^ 31, and
-- the list has its 32 slots, `Mark` keeps this, and a point of the screen that was to be drawn or lies
-- in the new rectangle is to be drawn afterwards, whether the rectangle is merged, added, or replaced
-- by the whole screen.
pub mark-covers :
    (q : Rect) (d : DirtyRects) (a b : ℕ)
    → Fits q
    → Sane d
    → (on 0 0xFFFF a && on 0 0xFFFF b) ≡ true
    → (covers a b q || covered a b d.count d.rects) ≡ true
    → Sane (mark q d) × (covered a b (mark q d).count (mark q d).rects ≡ true)
mark-covers q d a b f s shown o =
    let (sane, c) = mark-Marked q d f s in
    (sane, c a b (ground (arith, shown)) (ground (arith, shown)) o)
