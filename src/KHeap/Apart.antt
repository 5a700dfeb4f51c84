-- ===== src/KHeap/Apart.antt =====
-- Free segments do not adjoin, neither after `Free` nor after `Allocate`.
use mathlib.Core.Path.{subst}
use morphic_os_dev.Base.{
  ℕ, ◌+◌, ◌-◌, ◌<◌, ◌^◌, Option, ◌≡◌, refl, sym, ap, ◌∙◌, inl, inr, Bool, true, false, ◌&&◌, List,
  [], ◌∷◌, ◌++◌, arith, ◌==◌, Bool-cases,
}
use morphic_os_dev.KHeap.{KHeap, header_size, align, allocate, free_block}
use morphic_os_dev.KHeap.Layout.{Segment, extent}
use morphic_os_dev.KHeap.FirstFit.{HeapOk, carve, allocate-Outcome}
use morphic_os_dev.KHeap.Combine.{joined}
use morphic_os_dev.KHeap.Free.{grow, reach, freed, coalesce, choice}
use morphic_os_dev.KHeap.RoundTrip.{Apart, Apart-behind}
use morphic_os_dev.KHeap.Release.{free-HeapOk}

-- The list begins with a segment that is free or not, as the flag says, and no free ones adjoin.
Begins : Bool → List Segment → Type 0
Begins b ss = (c : Segment) × (cs : List Segment) × (ss ≡ c ∷ cs) × (c.free ≡ b) × Apart (c ∷ cs)

Apart-head : (s t : Segment) (ts : List Segment) → s.free ≡ t.free → Apart (s ∷ ts) → Apart (t ∷ ts)
Apart-head s t [] e a = tt
Apart-head s t (u ∷ ts) e a = (ground (arith, e, a.0), a.1)

Apart-tail : (s : Segment) (ts : List Segment) → Apart (s ∷ ts) → Apart ts
Apart-tail s [] a = tt
Apart-tail s (t ∷ ts) a = a.1

grow-Begins :
    (s : Segment) (after : List Segment) → s.free ≡ true → Apart after → Begins true (grow s after)
unfolding Begins
grow-Begins s [] f a = (s, [], refl, f, tt)
grow-Begins s (t ∷ ts) f a = elim (Bool-cases t.free) [
  | inl g ↦
      (joined s t, ts, sym (choice s t ts t.free true g), refl, Apart-head t (joined s t) ts g a)
  | inr g ↦ (s, t ∷ ts, sym (choice s t ts t.free false g), f, (ground (arith, g), a))
]

reach-Begins : (p : Segment) (ss : List Segment) → Begins true ss → Begins p.free (reach p ss)
unfolding Begins
reach-Begins p ss (r, rs, e, f, a) = subst (λ l. Begins p.free (reach p l)) (sym e) here
  where
    here : Begins p.free (reach p (r ∷ rs))
    here = elim (Bool-cases p.free) [
      | inl g ↦ (
        joined p r,
        rs,
        sym (choice p r rs p.free true g),
        sym g,
        Apart-head r (joined p r) rs f a,
      )
      | inr g ↦ (p, r ∷ rs, sym (choice p r rs p.free false g), refl, (ground (arith, g), a))
    ]

put-Begins :
    (p : Segment) (b : Bool) (ss : List Segment)
    → (p.free && b) ≡ false
    → Begins b ss
    → Begins p.free (p ∷ ss)
unfolding Begins
put-Begins p b ss h (c, cs, e, f, a) = (
  p,
  ss,
  refl,
  refl,
  subst (λ l. Apart (p ∷ l)) (sym e) (ap (λ (x : Bool). p.free && x) f ∙ h, a),
)

coalesce-Begins :
    (p : Segment) (bs : List Segment) (s : Segment) (after : List Segment)
    → Apart (p ∷ bs ++ s ∷ after)
    → Begins p.free (coalesce (p ∷ bs) s after)
coalesce-Begins p [] s after a =
    reach-Begins p (grow (freed s) after)
      (grow-Begins (freed s) after refl (Apart-tail s after a.1))
coalesce-Begins p (b ∷ bs) s after a =
    put-Begins p b.free (coalesce (b ∷ bs) s after) a.0 (coalesce-Begins b bs s after a.1)

Begins-Apart : (b : Bool) (ss : List Segment) → Begins b ss → Apart ss
unfolding Begins
Begins-Apart b ss (c, cs, e, f, a) = subst Apart (sym e) a

coalesce-KeepsApart :
    (before : List Segment) (s : Segment) (after : List Segment)
    → Apart (before ++ s ∷ after)
    → Apart (coalesce before s after)
coalesce-KeepsApart [] s after a =
    Begins-Apart true (grow (freed s) after)
      (grow-Begins (freed s) after refl (Apart-tail s after a))
coalesce-KeepsApart (p ∷ bs) s after a =
    Begins-Apart p.free (coalesce (p ∷ bs) s after) (coalesce-Begins p bs s after a)

Apart-used : (u : Segment) (after : List Segment) → u.free ≡ false → Apart after → Apart (u ∷ after)
Apart-used u [] f a = tt
Apart-used u (t ∷ ts) f a = (ground (arith, f), a)

carve-Begins :
    (size : ℕ) (s : Segment) (after : List Segment)
    → s.free ≡ true
    → Apart (s ∷ after)
    → Begins false (carve size s after)
unfolding Begins
carve-Begins size s after f a = elim (Bool-cases (s.size == size)) [
  | inl e ↦ rw e (
    record s { free = false },
    after,
    refl,
    refl,
    Apart-used (record s { free = false }) after refl (Apart-tail s after a),
  )
  | inr e ↦ rw e (
    record { size = size; free = false },
    record { size = s.size - size - header_size; free = true } ∷ after,
    refl,
    refl,
    (refl, Apart-head s (record { size = s.size - size - header_size; free = true }) after f a),
  )
]

placed-Apart :
    (before : List Segment) (s : Segment) (after new : List Segment)
    → Begins false new
    → Apart (before ++ s ∷ after)
    → Apart (before ++ new)
placed-Apart [] s after new b a = Begins-Apart false new b
placed-Apart (p ∷ []) s after new b a =
    Begins-Apart p.free (p ∷ new) (put-Begins p false new (ground arith) b)
placed-Apart (p ∷ c ∷ bs) s after new b a = (a.0, placed-Apart (c ∷ bs) s after new b a.1)

allocate-nothing : (h : KHeap) (asked : ℕ) → (align asked == 0) ≡ true → (allocate h asked).1 ≡ h
unfolding allocate
allocate-nothing h asked z = rw z refl

-- A heap of adjoining segments of which no two free ones adjoin.
unfoldable pub Joined : KHeap → Type 0
Joined h = (ss : List Segment) × HeapOk h ss × Apart ss

-- In a heap of adjoining segments of which no two free ones adjoin, `Free` of the address behind a
-- segment's header leaves such a heap.
pub free_block-Joined :
    (h : KHeap) (before : List Segment) (s : Segment) (after : List Segment)
    → HeapOk h (before ++ s ∷ after)
    → Apart (before ++ s ∷ after)
    → Joined (free_block h (h.first_segment + extent before + header_size))
unfolding Joined
free_block-Joined h before s after ok a =
    (coalesce before s after, free-HeapOk h before s after ok, coalesce-KeepsApart before s after a)

-- `Allocate` of any size that does not come near 2 ^ 64 leaves a heap of adjoining segments of which no
-- two free ones adjoin, if it was such a heap.
pub allocate-Joined :
    (h : KHeap)
    → Joined h
    → (asked : ℕ) → align asked + header_size < 2 ^ 64
    → Joined (allocate h asked).1
unfolding Joined
allocate-Joined h (ss, ok, a) asked small = elim (Bool-cases (align asked == 0)) [
  | inl z ↦ subst (λ (k : KHeap). Joined k) (sym (allocate-nothing h asked z)) (ss, ok, a)
  | inr z ↦ elim (allocate-Outcome h ss ok asked (ground arith) small) [
    | inl (e, u) ↦
        subst (λ (k : KHeap). Joined k) (sym (ap (λ (r : Option ℕ × KHeap). r.1) e)) (ss, ok, a)
    | inr (before, s, after, e, u, f, at, taken) ↦
        let apart = subst Apart e a in
        (
          before ++ carve (align asked) s after,
          taken,
          placed-Apart before s after (carve (align asked) s after)
              (carve-Begins (align asked) s after (ground (arith, f))
                (Apart-behind before (s ∷ after) apart))
              apart,
        )
  ]
]
