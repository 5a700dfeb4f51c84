-- ===== src/KHeap/Overrun.antt =====
-- `Allocate` of a size near 2 ^ 64: the sum with the size of a header wraps.
use morphic_os_dev.Base.{
  ℕ, zero, suc, ◌+◌, ◌-◌, ◌%◌, ◌^◌, ◌≤◌, ◌<◌, ◌≡◌, refl, ap, ◌∙◌, Bool, true, false, ◌&&◌, ◌||◌,
  Option, some, List, ◌∷◌, arith, ltb, ◌==◌, add64,
}
use morphic_os_dev.KHeap.{KHeap, Memory, header_size, align, takes, find_fit, rounds, allocate}
use morphic_os_dev.KHeap.Layout.{Segment}
use morphic_os_dev.KHeap.FirstFit.{HeapOk, allocate-some}

find_fit_first :
    (fuel : ℕ) (m : Memory) (size a : ℕ)
    → 0 < fuel
    → 0 < a
    → takes (m a) size ≡ true
    → find_fit fuel m size a ≡ some a
unfolding find_fit
find_fit_first zero m size a lt pos t = absurd (omega arith)
find_fit_first (suc fuel) m size a lt pos t = rw (not_null, t) refl
  where
    not_null : (a == 0) ≡ false
    not_null = ground arith

align_less : (asked : ℕ) → align asked < 2 ^ 64
unfolding align
align_less asked = omega arith

align_whole : (asked : ℕ) → align asked % 16 ≡ 0
unfolding align
align_whole asked = omega arith

wrapped : (x : ℕ) → 2 ^ 64 - 32 ≤ x → x < 2 ^ 64 → x % 16 ≡ 0 → add64 x header_size ≤ 16
wrapped x near less whole = omega arith

room_seen :
    (free same : Bool) (w n : ℕ)
    → free ≡ true
    → w ≤ 16
    → 16 < n
    → (free && (same || ltb w n)) ≡ true
room_seen free same w n f le lt = ground arith

-- In a heap of adjoining segments whose first one is free and of more than 16 bytes, `Allocate` of a
-- size that rounds up to 2 ^ 64 - 32 or more does not return null, but the first segment's block.
pub allocate_overrun :
    (h : KHeap) (s : Segment) (ss : List Segment)
    → HeapOk h (s ∷ ss)
    → s.free ≡ true
    → 16 < s.size
    → (asked : ℕ) → 2 ^ 64 - 32 ≤ align asked
    → (allocate h asked).0 ≡ some (h.first_segment + header_size)
allocate_overrun h s ss ok f big asked near =
    ap (λ (r : Option ℕ × KHeap). r.0)
      (allocate-some h asked (omega arith) h.first_segment (
        find_fit_first (rounds h) h.memory (align asked) h.first_segment (omega (arith, ok.whole))
          ok.not_null taken))
    ∙ ap some (omega (arith, ok.room, ok.whole))
  where
    taken : takes (h.memory h.first_segment) (align asked) ≡ true
    taken = rw ok.laid.0 (
        room_seen s.free (s.size == align asked) (add64 (align asked) header_size) s.size f
          (wrapped (align asked) near (align_less asked) (align_whole asked)) big)
