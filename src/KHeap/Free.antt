-- ===== src/KHeap/Free.antt =====
-- `Free`: the segment is marked and joined with its free neighbours.
use mathlib.Core.Path.{subst}
use morphic_os_dev.Base.{
  ℕ, ◌+◌, ◌^◌, ◌<◌, ◌≡◌, refl, sym, ap, ◌∙◌, inl, inr, Bool, true, false, not, ◌&&◌, List, [], ◌∷◌,
  ◌++◌, arith, ◌==◌, if◌then◌else◌, update, Bool-cases,
}
use morphic_os_dev.KHeap.{
  Header, Memory, header_size, combine, combine_right, combine_left, release,
}
use morphic_os_dev.KHeap.Layout.{
  Segment, extent, link, header_of, Laid, Laid-update, update_self, update_other,
}
use morphic_os_dev.KHeap.Combine.{joined, combine-Laid, combine-below}

-- A free segment with what lies behind it.
abbrev pub grow : Segment → List Segment → List Segment
grow s [] = s ∷ []
grow s (t ∷ ts) = if t.free then joined s t ∷ ts else s ∷ t ∷ ts

-- And with the segment before it.
abbrev pub reach : Segment → List Segment → List Segment
reach p [] = p ∷ []
reach p (s ∷ ss) = if p.free then joined p s ∷ ss else p ∷ s ∷ ss

abbrev pub freed : Segment → Segment
freed s = record s { free = true }

-- The segment is freed, and joined with its free neighbours.
abbrev pub coalesce : List Segment → Segment → List Segment → List Segment
coalesce [] s after = grow (freed s) after
coalesce (p ∷ []) s after = reach p (grow (freed s) after)
coalesce (p ∷ b ∷ bs) s after = p ∷ coalesce (b ∷ bs) s after

-- What a step keeps: the memory below, and a layout of these segments.
abbrev pub Kept : Memory → Memory → ℕ → ℕ → List Segment → Type 0
Kept m m' prev a ss = Laid m' prev a ss × ((x : ℕ) → x < a → m' x ≡ m x)

mark-Kept :
    (m : Memory) (q c : ℕ) (s : Segment) (after : List Segment)
    → Laid m q c (s ∷ after)
    → Kept m (update m c (record (m c) { free = true })) q c (freed s ∷ after)
mark-Kept m q c s after (h, l) = (
  (
    update_self m c _ ∙ ap (λ (x : Header). record x { free = true }) h,
    Laid-update m c (c + header_size + s.size) c _ after (omega arith) l,
  ),
  λ x lt. update_other m c x _ (omega arith),
)

pub choice :
    (s t : Segment) (ts : List Segment) (b v : Bool)
    → b ≡ v
    → (if v then joined s t ∷ ts else s ∷ t ∷ ts) ≡ (if b then joined s t ∷ ts else s ∷ t ∷ ts)
choice s t ts b v e = ap (λ (x : Bool). if x then joined s t ∷ ts else s ∷ t ∷ ts) (sym e)

reach-link : (d : ℕ) (p : Segment) (ss : List Segment) → link d (reach p ss) ≡ d
reach-link d p [] = refl
reach-link d p (s ∷ ss) = elim (Bool-cases p.free) [
  | inl e ↦ ap (link d) (sym (choice p s ss p.free true e))
  | inr e ↦ ap (link d) (sym (choice p s ss p.free false e))
]

pub coalesce-link :
    (d : ℕ) (p : Segment) (bs : List Segment) (s : Segment) (after : List Segment)
    → link d (coalesce (p ∷ bs) s after) ≡ d
coalesce-link d p [] s after = reach-link d p (grow (freed s) after)
coalesce-link d p (b ∷ bs) s after = refl

-- The segment behind a free one is joined to it exactly if it is free.
module _ (m : Memory) (q c : ℕ) (s t : Segment) (ts : List Segment) (pos : 0 < c)
    (l : Laid m q c (s ∷ t ∷ ts)) where
  abbrev middle : ℕ
  middle = c + header_size + s.size

  next_is : (m c).next ≡ middle
  next_is = ap (λ (h : Header). h.next) l.0

  prev_is : (m middle).prev ≡ c
  prev_is = ap (λ (h : Header). h.prev) l.1.0

  right_test : (b : Bool) → t.free ≡ b → (not (middle == 0) && (m middle).free) ≡ b
  right_test b g = rw l.1.0 (ground (arith, g))

  left_test : (b : Bool) → s.free ≡ b → (not (c == 0) && (m c).free) ≡ b
  left_test b g = rw l.0 (ground (arith, g))

  right_joins : t.free ≡ true → combine_right m c ≡ combine m c middle
  unfolding combine_right
  right_joins g = rw next_is (rw (right_test true g) refl)

  right_stays : t.free ≡ false → combine_right m c ≡ m
  unfolding combine_right
  right_stays g = rw next_is (rw (right_test false g) refl)

  left_joins : s.free ≡ true → combine_left m middle ≡ combine m c middle
  unfolding combine_left
  left_joins g = rw prev_is (rw (left_test true g) refl)

  left_stays : s.free ≡ false → combine_left m middle ≡ m
  unfolding combine_left
  left_stays g = rw prev_is (rw (left_test false g) refl)

  module _ (room : c + header_size + s.size + header_size + t.size < 2 ^ 64) where
    joins :
        (w : Memory)
        → w ≡ combine m c middle
        → s.free ≡ true
        → t.free ≡ true
        → Kept m w q c (joined s t ∷ ts)
    joins w e f g =
        subst (λ (v : Memory). Kept m v q c (joined s t ∷ ts)) (sym e)
          (combine-Laid m q c s t ts pos room f g l, combine-below m q c s t ts pos room f g l)

    stays : (w : Memory) → w ≡ m → Kept m w q c (s ∷ t ∷ ts)
    stays w e = subst (λ (v : Memory). Kept m v q c (s ∷ t ∷ ts)) (sym e) (l, λ x lt. refl)

    right_two : s.free ≡ true → Kept m (combine_right m c) q c (grow s (t ∷ ts))
    right_two f = elim (Bool-cases t.free) [
      | inl g ↦
          subst (Kept m (combine_right m c) q c) (choice s t ts t.free true g)
            (joins (combine_right m c) (right_joins g) f g)
      | inr g ↦
          subst (Kept m (combine_right m c) q c) (choice s t ts t.free false g)
            (stays (combine_right m c) (right_stays g))
    ]

    left_two : t.free ≡ true → Kept m (combine_left m middle) q c (reach s (t ∷ ts))
    left_two g = elim (Bool-cases s.free) [
      | inl f ↦
          subst (Kept m (combine_left m middle) q c) (choice s t ts s.free true f)
            (joins (combine_left m middle) (left_joins f) f g)
      | inr f ↦
          subst (Kept m (combine_left m middle) q c) (choice s t ts s.free false f)
            (stays (combine_left m middle) (left_stays f))
    ]

right-Kept :
    (m : Memory) (q c : ℕ) (s : Segment) (after : List Segment)
    → 0 < c
    → c + extent (s ∷ after) < 2 ^ 64
    → s.free ≡ true
    → Laid m q c (s ∷ after)
    → Kept m (combine_right m c) q c (grow s after)
unfolding combine_right
right-Kept m q c s [] pos room f (h, l) = rw h ((h, tt), λ x lt. refl)
right-Kept m q c s (t ∷ ts) pos room f l = right_two m q c s t ts pos l (omega arith) f

-- What grows is free, and takes the same bytes.
pub grow-shape :
    (s : Segment) (after : List Segment)
    → s.free ≡ true
    → (r : Segment) × (rs : List Segment) × (grow s after ≡ r ∷ rs)
      × (r.free ≡ true)
      × (extent (r ∷ rs) ≡ extent (s ∷ after))
grow-shape s [] f = (s, [], refl, f, refl)
grow-shape s (t ∷ ts) f = elim (Bool-cases t.free) [
  | inl g ↦ (joined s t, ts, sym (choice s t ts t.free true g), refl, omega arith)
  | inr g ↦ (s, t ∷ ts, sym (choice s t ts t.free false g), f, refl)
]

left-none : (w : Memory) (c : ℕ) → (w c).prev ≡ 0 → combine_left w c ≡ w
unfolding combine_left
left-none w c e = rw e refl

-- The segment is marked and joined with the one behind it.
marked-Kept :
    (m : Memory) (q c : ℕ) (s : Segment) (after : List Segment)
    → 0 < c
    → c + extent (s ∷ after) < 2 ^ 64
    → Laid m q c (s ∷ after)
    → Kept m
        (combine_right (update m c (record (m c) { free = true })) c)
        q
        c
        (grow (freed s) after)
marked-Kept m q c s after pos room l =
    let m1 : Memory = update m c (record (m c) { free = true }) in
    let (l1, b1) = mark-Kept m q c s after l in
    let (l2, b2) = right-Kept m1 q c (freed s) after pos room refl l1 in
    (l2, λ x lt. b2 x lt ∙ b1 x lt)

-- `Free` of the first segment.
pub first-Laid :
    (m : Memory) (c : ℕ) (s : Segment) (after : List Segment)
    → 0 < c
    → c + extent (s ∷ after) < 2 ^ 64
    → Laid m 0 c (s ∷ after)
    → Laid (release m c) 0 c (grow (freed s) after)
unfolding release
first-Laid m c s after pos room l =
    let m2 : Memory = combine_right (update m c (record (m c) { free = true })) c in
    let (l2, b2) = marked-Kept m 0 c s after pos room l in
    let (r, rs, e, f, x) = grow-shape (freed s) after refl in
    let h = subst (Laid m2 0 c) e l2 in
    subst (λ (w : Memory). Laid w 0 c (grow (freed s) after))
      (sym (left-none m2 c (ap (λ (k : Header). k.prev) h.0))) l2

-- `Free` of the segment behind `p`.
second-Kept :
    (m : Memory) (q c : ℕ) (p s : Segment) (after : List Segment)
    → 0 < c
    → c + extent (p ∷ s ∷ after) < 2 ^ 64
    → Laid m q c (p ∷ s ∷ after)
    → Kept m (release m (c + header_size + p.size)) q c (reach p (grow (freed s) after))
unfolding release
second-Kept m q c p s after pos room (h, l) =
    let d : ℕ = c + header_size + p.size in
    let m2 : Memory = combine_right (update m d (record (m d) { free = true })) d in
    let (l2, b2) = marked-Kept m c d s after (omega arith) (omega arith) l in
    let (r, rs, e, f, x) = grow-shape (freed s) after refl in
    let (l3, b3) =
      left_two m2 q c p r rs pos (b2 c (omega arith) ∙ h, subst (Laid m2 c d) e l2)
        (omega (arith, x)) f in
    (
      subst (λ (ss : List Segment). Laid (combine_left m2 d) q c (reach p ss)) (sym e) l3,
      λ y lt. b3 y lt ∙ b2 y (omega arith),
    )

-- `Free` of any segment that is not the first one.
pub later-Kept :
    (m : Memory) (q a c : ℕ) (p : Segment) (bs : List Segment) (s : Segment) (after : List Segment)
    → c ≡ a + extent (p ∷ bs)
    → 0 < a
    → a + extent (p ∷ bs) + extent (s ∷ after) < 2 ^ 64
    → Laid m q a (p ∷ bs ++ s ∷ after)
    → Kept m (release m c) q a (coalesce (p ∷ bs) s after)
later-Kept m q a c p [] s after e pos room l =
    subst (λ (d : ℕ). Kept m (release m d) q a (reach p (grow (freed s) after))) (omega arith)
      (second-Kept m q a p s after pos (omega arith) l)
later-Kept m q a c p (b ∷ bs) s after e pos room (h, l) =
    let (k, below) =
      later-Kept m a (a + header_size + p.size) c b bs s after (omega arith) (omega arith)
        (omega arith) l in
    (
      (
        below a (omega arith)
            ∙ h
            ∙ ap (λ (x : ℕ). header_of p x q)
                (sym (coalesce-link (a + header_size + p.size) b bs s after)),
        k,
      ),
      λ x lt. below x (omega arith),
    )
