-- ===== src/KHeap/Count.antt =====
-- `GetFree` and `GetUsed` against the segments.
use morphic_os_dev.Base.{
  ℕ, zero, suc, ◌+◌, ◌^◌, ◌≤◌, ◌<◌, ◌≡◌, sym, ap, ◌∙◌, inl, inr, true, false, List, [], ◌∷◌, arith,
  ◌==◌, if◌then◌else◌, add64, length, Bool-cases,
}
use morphic_os_dev.KHeap.{KHeap, Memory, header_size, rounds, count_free, get_free, get_used}
use morphic_os_dev.KHeap.Layout.{Segment, link, Laid, extent}
use morphic_os_dev.KHeap.FirstFit.{HeapOk, length-extent}

abbrev pub free_bytes : List Segment → ℕ
free_bytes [] = 0
free_bytes (s ∷ ss) = if s.free then s.size + free_bytes ss else free_bytes ss

-- The segments in use, and the headers behind the first one.
abbrev pub used_bytes : List Segment → ℕ
used_bytes [] = 0
used_bytes (s ∷ ss) =
    if s.free then header_size + used_bytes ss else header_size + s.size + used_bytes ss

free_bytes-extent : (ss : List Segment) → free_bytes ss + used_bytes ss ≡ extent ss
free_bytes-extent [] = omega arith
free_bytes-extent (s ∷ ss) = ground (arith, free_bytes-extent ss)

count_free_lem :
    (fuel : ℕ) (m : Memory) (prev a acc : ℕ) (ss : List Segment)
    → length ss ≤ fuel
    → 0 < a
    → Laid m prev a ss
    → acc + extent ss < 2 ^ 64
    → count_free fuel m (link a ss) acc ≡ acc + free_bytes ss
unfolding count_free
count_free_lem zero m prev a acc [] le pos l room = omega arith
count_free_lem zero m prev a acc (s ∷ ss) le pos l room = absurd (omega arith)
count_free_lem (suc fuel) m prev a acc [] le pos l room = omega arith
count_free_lem (suc fuel) m prev a acc (s ∷ ss) le pos (h, l) room =
    rw (not_null, h)
      (elim (Bool-cases s.free) [
        | inl f ↦
            rw (f, sum f)
              (count_free_lem fuel m a b (acc + s.size) ss (omega arith) (omega arith) l
                  (omega arith)
                ∙ omega arith)
        | inr f ↦
            rw f (count_free_lem fuel m a b acc ss (omega arith) (omega arith) l (omega arith))
      ])
  where
    b : ℕ
    b = a + header_size + s.size

    not_null : (a == 0) ≡ false
    not_null = ground arith

    sum : s.free ≡ true → add64 acc s.size ≡ acc + s.size
    sum f = omega arith

-- In a heap of adjoining segments, `GetFree` is the sum of the sizes of the free ones, and `GetUsed` is
-- that of the sizes of the others and of all headers but one.
pub get_free-get_used :
    (h : KHeap) (ss : List Segment)
    → HeapOk h ss
    → (get_free h ≡ free_bytes ss) × (get_used h + header_size ≡ used_bytes ss)
unfolding get_free get_used
get_free-get_used h [] ok = absurd (omega (arith, ok.start, ok.not_null))
get_free-get_used h (s ∷ ss) ok =
    (sum, rw sum (omega (arith, free_bytes-extent (s ∷ ss), ok.whole, ok.room, at_least)))
  where
    sum : count_free (rounds h) h.memory h.first_segment 0 ≡ free_bytes (s ∷ ss)
    sum =
        ap (λ (c : ℕ). count_free (rounds h) h.memory c 0) (sym ok.start)
        ∙ count_free_lem (rounds h) h.memory 0 h.first_segment 0 (s ∷ ss)
            (omega (arith, length-extent (s ∷ ss), ok.whole)) ok.not_null ok.laid
            (omega (arith, ok.whole, ok.room))
        ∙ omega arith

    at_least : header_size ≤ used_bytes (s ∷ ss)
    at_least = ground arith
