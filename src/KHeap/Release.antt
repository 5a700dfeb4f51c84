-- ===== src/KHeap/Release.antt =====
-- `Init` and `Free` on the heap as a whole.
use mathlib.Core.Path.{subst}
use morphic_os_dev.Base.{
  ℕ, ◌+◌, ◌-◌, ◌^◌, ◌≤◌, ◌<◌, ◌≡◌, refl, ap, ◌∙◌, true, false, List, [], ◌∷◌, ◌++◌, arith, ◌==◌,
  sub64,
}
use morphic_os_dev.KHeap.{Memory, KHeap, header_size, heap_magic, init, release, free_block}
use morphic_os_dev.KHeap.Layout.{
  Segment, extent, extent-append, link, header_of, Laid, Laid-at, update_self,
}
use morphic_os_dev.KHeap.Free.{
  grow, reach, coalesce, freed, coalesce-link, grow-shape, first-Laid, later-Kept,
}
use morphic_os_dev.KHeap.FirstFit.{HeapOk}

-- A new heap is one free segment.
pub init-HeapOk :
    (found : Memory) (start size : ℕ)
    → 0 < start
    → header_size ≤ size
    → start + size < 2 ^ 64
    → HeapOk (init found start size) (record { size = size - header_size; free = true } ∷ [])
unfolding init
init-HeapOk found start size pos room top = record {
  laid = (
    update_self found start _
        ∙ ap (λ (n : ℕ). header_of (record { size = n; free = true }) 0 0) (omega arith),
    tt,
  );
  start = refl;
  not_null = pos;
  whole = omega arith;
  room = top;
}

extent-reach : (p : Segment) (ss : List Segment) → extent (reach p ss) ≡ extent (p ∷ ss)
extent-reach p [] = refl
extent-reach p (s ∷ ss) = ground arith

extent-grow : (s : Segment) (after : List Segment) → extent (grow s after) ≡ extent (s ∷ after)
extent-grow s [] = refl
extent-grow s (t ∷ ts) = ground arith

pub extent-coalesce :
    (before : List Segment) (s : Segment) (after : List Segment)
    → extent (coalesce before s after) ≡ extent before + extent (s ∷ after)
extent-coalesce [] s after = omega (arith, extent-grow (freed s) after)
extent-coalesce (p ∷ []) s after =
    omega (arith, extent-reach p (grow (freed s) after), extent-grow (freed s) after)
extent-coalesce (p ∷ b ∷ bs) s after = omega (arith, extent-coalesce (b ∷ bs) s after)

release-Laid :
    (m : Memory) (a c : ℕ) (before : List Segment) (s : Segment) (after : List Segment)
    → c ≡ a + extent before
    → 0 < a
    → a + extent before + extent (s ∷ after) < 2 ^ 64
    → Laid m 0 a (before ++ s ∷ after)
    → Laid (release m c) 0 a (coalesce before s after) × (link a (coalesce before s after) ≡ a)
release-Laid m a c [] s after e pos room l =
    let (r, rs, g, f, x) = grow-shape (freed s) after refl in
    (
      subst (λ (d : ℕ). Laid (release m d) 0 a (grow (freed s) after)) (omega arith)
          (first-Laid m a s after pos (omega arith) l),
      ap (link a) g,
    )
release-Laid m a c (p ∷ bs) s after e pos room l =
    ((later-Kept m 0 a c p bs s after e pos room l).0, coalesce-link a p bs s after)

-- In a heap of adjoining segments, `Free` of the address behind a segment's header marks that segment
-- free and joins it with the free segments beside it, and the heap consists of adjoining segments
-- again.
pub free-HeapOk :
    (h : KHeap) (before : List Segment) (s : Segment) (after : List Segment)
    → HeapOk h (before ++ s ∷ after)
    → HeapOk
        (free_block h (h.first_segment + extent before + header_size))
        (coalesce before s after)
unfolding free_block
free-HeapOk h before s after ok =
    rw (header, not_null, magic)
      (record {
        laid = done.0;
        start = done.1;
        not_null = ok.not_null;
        whole = omega (arith, sizes, ok.whole, extent-coalesce before s after);
        room = ok.room;
      })
  where
    sizes : extent (before ++ s ∷ after) ≡ extent before + extent (s ∷ after)
    sizes = extent-append before (s ∷ after)

    fits : h.first_segment + extent before + extent (s ∷ after) < 2 ^ 64
    fits = omega (arith, sizes, ok.whole, ok.room)

    header :
        sub64 (h.first_segment + extent before + header_size) header_size
        ≡ h.first_segment + extent before
    header = omega (arith, fits)

    not_null : (h.first_segment + extent before + header_size == 0) ≡ false
    not_null = ground arith

    magic : ((h.memory (h.first_segment + extent before)).magic == heap_magic) ≡ true
    magic =
        let (q, l) =
          Laid-at h.memory 0 h.first_segment (h.first_segment + extent before) before (s ∷ after)
            refl ok.laid in
        rw l.0 refl

    done :
        Laid
          (release h.memory (h.first_segment + extent before))
          0
          h.first_segment
          (coalesce before s after)
        × (link h.first_segment (coalesce before s after) ≡ h.first_segment)
    done =
        release-Laid h.memory h.first_segment (h.first_segment + extent before) before s after refl
          ok.not_null fits ok.laid
