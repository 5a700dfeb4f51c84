-- ===== src/KHeap/FirstFit.antt =====
-- `Allocate` as first fit on the sequence of segments.
use mathlib.Core.Path.{subst}
use morphic_os_dev.Base.{
  ℕ, zero, suc, ◌+◌, ◌-◌, ◌*◌, ◌^◌, ◌≤◌, ◌<◌, ◌≡◌, refl, sym, ap, ◌∙◌, ◌⊎◌, inl, inr, Bool, true,
  false, ◌&&◌, ◌||◌, Option, none, some, List, [], ◌∷◌, ◌++◌, arith, ltb, ◌==◌, if◌then◌else◌,
  update, add64, length, Bool-cases,
}
use morphic_os_dev.KHeap.{
  Header, Memory, KHeap, header_size, align, takes, find_fit, split, place, rounds, allocate,
}
use morphic_os_dev.KHeap.Layout.{
  Segment, extent, extent-append, link, link-append, Laid, Laid-change, Laid-at, update_other,
}
use morphic_os_dev.KHeap.Alloc.{take_whole, split-Laid, split-below}

-- A free segment of this size, or of room for it and one more header.
abbrev pub fits : ℕ → Segment → Bool
fits size s = s.free && (s.size == size || ltb (size + header_size) s.size)

-- No segment fits.
abbrev pub Unfit : ℕ → List Segment → Type 0
Unfit size [] = Unit {0}
Unfit size (s ∷ ss) = (fits size s ≡ false) × Unfit size ss

-- What becomes of the segment that is taken.
abbrev pub carve : ℕ → Segment → List Segment → List Segment
carve size s after =
    if s.size == size
    then record s { free = false } ∷ after
    else record { size = size; free = false }
      ∷ record { size = s.size - size - header_size; free = true }
      ∷ after

pub record HeapOk (h : KHeap) (ss : List Segment) : Type 0 where
  pub laid : Laid h.memory 0 h.first_segment ss
  pub start : link h.first_segment ss ≡ h.first_segment
  pub not_null : 0 < h.first_segment
  pub whole : extent ss ≡ h.heap_size
  pub room : h.first_segment + h.heap_size < 2 ^ 64

-- The first segment that fits, and those around it.
abbrev pub FirstFit : ℕ → ℕ → List Segment → ℕ → Type 0
FirstFit size a ss c =
    (before : List Segment) × (s : Segment) × (after : List Segment) × (ss ≡ before ++ s ∷ after)
    × Unfit size before
    × (fits size s ≡ true)
    × (c ≡ a + extent before)

module _ (m : Memory) (size : ℕ) (small : size + header_size < 2 ^ 64) where
  pub find_fit_lem :
      (fuel prev a : ℕ) (ss : List Segment)
      → length ss ≤ fuel
      → 0 < a
      → Laid m prev a ss
      → (find_fit fuel m size (link a ss) ≡ none) × Unfit size ss
        ⊎ ((c : ℕ) × (find_fit fuel m size (link a ss) ≡ some c) × FirstFit size a ss c)
  unfolding find_fit
  find_fit_lem zero prev a [] le pos l = inl (refl, tt)
  find_fit_lem zero prev a (s ∷ ss) le pos l = absurd (omega arith)
  find_fit_lem (suc fuel) prev a [] le pos l = inl (refl, tt)
  find_fit_lem (suc fuel) prev a (s ∷ ss) le pos (h, l) = elim (Bool-cases (fits size s)) [
    | inl f ↦ inr (a, first f, ([], s, ss, refl, tt, f, omega arith))
    | inr f ↦
        elim (find_fit_lem fuel a (a + header_size + s.size) ss (omega arith) (omega arith) l) [
          | inl (n, u) ↦ inl (later f ∙ n, (f, u))
          | inr (c, found, (before, t, after, e, u, g, at)) ↦ inr (
            c,
            later f ∙ found,
            (s ∷ before, t, after, ap (λ (r : List Segment). s ∷ r) e, (f, u), g, omega arith),
          )
        ]
  ]
    where
      nonzero : (a == 0) ≡ false
      nonzero = ground arith

      same : takes (m a) size ≡ fits size s
      same = rw h (ground arith)

      first : fits size s ≡ true → find_fit (suc fuel) m size a ≡ some a
      first f = rw (nonzero, same, f) refl

      later :
          fits size s ≡ false
          → find_fit (suc fuel) m size a ≡ find_fit fuel m size (link (a + header_size + s.size) ss)
      later f = rw (nonzero, same, f) (rw h refl)

  module _ (prev a c : ℕ) (before : List Segment) (s : Segment) (after : List Segment)
      (e : c ≡ a + extent before) (pos : 0 < c) (room : c + header_size + s.size < 2 ^ 64)
      (f : fits size s ≡ true) (l : Laid m prev a (before ++ s ∷ after)) where
    header : (m c).length ≡ s.size
    header =
        let (q, k) = Laid-at m prev a c before (s ∷ after) e l in ap (λ (x : Header). x.length) k.0

    test : ((m c).length == size) ≡ (s.size == size)
    test = ap (λ (n : ℕ). n == size) header

    whole_step :
        (s.size == size) ≡ true → Laid (place m c size) prev a (before ++ carve size s after)
    unfolding place
    whole_step g =
        rw (test ∙ g, g)
          (Laid-change m (update m c (record (m c) { free = false })) prev a c before s
            (record s { free = false }) after after e (λ x lt. update_other m c x _ (omega arith))
            (λ q k. take_whole m q c size s after pos room k (ground arith)) l)

    split_step :
        (s.size == size) ≡ false → Laid (place m c size) prev a (before ++ carve size s after)
    unfolding place
    split_step g =
        let (q, k) = Laid-at m prev a c before (s ∷ after) e l in
        rw (test ∙ g, g)
          (Laid-change m (split m c size) prev a c before s (record { size = size; free = false })
            after (record { size = s.size - size - header_size; free = true } ∷ after) e
            (split-below m q c size s after pos room k (ground arith))
            (λ p j. split-Laid m p c size s after pos room j (ground arith)) l)

    pub place-Laid : Laid (place m c size) prev a (before ++ carve size s after)
    place-Laid = elim (Bool-cases (s.size == size)) [ inl g ↦ whole_step g | inr g ↦ split_step g ]

pub length-extent : (ss : List Segment) → length ss * header_size ≤ extent ss
length-extent [] = omega arith
length-extent (s ∷ ss) = omega (arith, length-extent ss)

extent-carve :
    (size : ℕ) (s : Segment) (after : List Segment)
    → fits size s ≡ true
    → extent (carve size s after) ≡ extent (s ∷ after)
extent-carve size s after f = ground arith

carve-shape :
    (a size : ℕ) (before : List Segment) (s : Segment) (after : List Segment)
    → link a (before ++ carve size s after) ≡ a
carve-shape a size before s after = elim (Bool-cases (s.size == size)) [
  | inl e ↦ rw e (link-append a before (record s { free = false }) after)
  | inr e ↦ rw e (
      link-append a before (record { size = size; free = false })
        (record { size = s.size - size - header_size; free = true } ∷ after))
]

module _ (h : KHeap) (asked : ℕ) (some_size : 0 < align asked) where
  size_test : (align asked == 0) ≡ false
  size_test = ground arith

  allocate-none :
      find_fit (rounds h) h.memory (align asked) h.first_segment ≡ none
      → allocate h asked ≡ (none, h)
  unfolding allocate
  allocate-none e = rw (size_test, e, allocate) refl

  pub allocate-some :
      (c : ℕ)
      → find_fit (rounds h) h.memory (align asked) h.first_segment ≡ some c
      → allocate h asked
        ≡ (some (add64 c header_size), record h { memory = place h.memory c (align asked) })
  unfolding allocate
  allocate-some c e = rw (size_test, e, allocate) refl

module _ (h : KHeap) (before : List Segment) (s : Segment) (after : List Segment) (size c : ℕ)
    (ok : HeapOk h (before ++ s ∷ after)) (small : size + header_size < 2 ^ 64)
    (f : fits size s ≡ true) (e : c ≡ h.first_segment + extent before) where
  in_heap : h.first_segment + extent before + (header_size + s.size + extent after) < 2 ^ 64
  in_heap = omega (arith, extent-append before (s ∷ after), ok.whole, ok.room)

  place-HeapOk : HeapOk (record h { memory = place h.memory c size }) (before ++ carve size s after)
  place-HeapOk = record {
    laid =
        place-Laid h.memory size small 0 h.first_segment c before s after e
          (omega (arith, ok.not_null)) (omega (arith, in_heap)) f ok.laid;
    start = carve-shape h.first_segment size before s after;
    not_null = ok.not_null;
    whole = omega (
      arith,
      extent-append before (carve size s after),
      extent-append before (s ∷ after),
      extent-carve size s after f,
      ok.whole,
    );
    room = ok.room;
  }

-- In a heap of adjoining segments, `Allocate` of a size that is not 0 and does not come near 2 ^ 64
-- takes the first free segment that fits, whole or its front with a free segment left behind it, and
-- returns the address behind its header; or it returns null, and then no segment fits.
pub allocate-Outcome :
    (h : KHeap) (ss : List Segment)
    → HeapOk h ss
    → (asked : ℕ) → 0 < align asked
    → align asked + header_size < 2 ^ 64
    → (allocate h asked ≡ (none, h)) × Unfit (align asked) ss
      ⊎ ((before : List Segment) × (s : Segment) × (after : List Segment) × (ss
            ≡ before ++ s ∷ after)
          × Unfit (align asked) before
          × (fits (align asked) s ≡ true)
          × ((allocate h asked).0 ≡ some (h.first_segment + extent before + header_size))
          × HeapOk (allocate h asked).1 (before ++ carve (align asked) s after))
allocate-Outcome h ss ok asked some_size small =
    elim (find_fit_lem h.memory (align asked) small (rounds h) 0 h.first_segment ss
      (omega (arith, length-extent ss, ok.whole)) ok.not_null ok.laid) [
        | inl (n, u) ↦ inl (allocate-none h asked some_size (from_start none n), u)
        | inr (c, n, (before, s, after, e, u, f, at)) ↦
            let done = allocate-some h asked some_size c (from_start (some c) n) in
            let ok' = subst (HeapOk h) e ok in
            inr (
              before,
              s,
              after,
              e,
              u,
              f,
              ap (λ (r : Option ℕ × KHeap). r.0) done
                  ∙ ap some
                      (omega (arith, at, in_heap h before s after (align asked) c ok' small f at)),
              subst (λ (r : Option ℕ × KHeap). HeapOk r.1 (before ++ carve (align asked) s after))
                  (sym done) (place-HeapOk h before s after (align asked) c ok' small f at),
            )
      ]
  where
    from_start :
        (o : Option ℕ)
        → find_fit (rounds h) h.memory (align asked) (link h.first_segment ss) ≡ o
        → find_fit (rounds h) h.memory (align asked) h.first_segment ≡ o
    from_start o e = ap (λ (c : ℕ). find_fit (rounds h) h.memory (align asked) c) (sym ok.start) ∙ e
