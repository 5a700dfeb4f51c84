-- ===== src/DirtyRects/Tests.antt =====
-- Runs of dirty_rects.h, and instances of the theorems.
use Prim.Native.Nat.{ℕ, zero, suc, ◌+◌, ◌-◌, ◌^◌}
use morphic_os_dev.Base.{◌≡◌, refl, true, false, List, [], ◌∷◌, arith}
use morphic_os_dev.DirtyRects.{Rect, DirtyRects, mark, merge_first, merge}
use morphic_os_dev.DirtyRects.Covering.{Sane, covered, mark-covers}

abbrev unused : Rect
unused = record { x = 0; y = 0; w = 0; h = 0; valid = false }

abbrev copies : ℕ → List Rect → List Rect
copies zero rs = rs
copies (suc n) rs = unused ∷ copies n rs

abbrev box : ℕ → ℕ → ℕ → ℕ → Rect
box x y w h = record { x = x; y = y; w = w; h = h; valid = true }

abbrev one_box : DirtyRects
one_box = record { rects = box 10 10 20 20 ∷ copies 31 []; count = 1 }

one_box-Sane : Sane one_box
one_box-Sane = record {
  slots = refl;
  counted = omega arith;
  fit = (
    (λ _. ((omega arith, omega arith, omega arith), (omega arith, omega arith, omega arith))),
    tt,
  );
}

-- A rectangle that overlaps is united with the first.
marked : mark (box 5 25 10 10) one_box ≡ record { rects = box 5 10 25 25 ∷ copies 31 []; count = 1 }
unfolding mark merge_first merge
marked = refl

-- From left of the screen: the comparison of the ends is unsigned, and the union is too small.
mark_left :
    mark (box (2 ^ 32 - 10) 0 5 1) (record { rects = box (2 ^ 32 - 20) 0 30 1 ∷ []; count = 1 })
    ≡ record { rects = box (2 ^ 32 - 20) 0 15 1 ∷ []; count = 1 }
unfolding mark merge_first merge
mark_left = refl

mark-covers_example :
    Sane (mark (box 5 25 10 10) one_box)
    × (covered
          (2 ^ 31 + 12)
          (2 ^ 31 + 12)
          (mark (box 5 25 10 10) one_box).count
          (mark (box 5 25 10 10) one_box).rects
        ≡ true)
mark-covers_example =
    mark-covers (box 5 25 10 10) one_box (2 ^ 31 + 12) (2 ^ 31 + 12)
      ((omega arith, omega arith, omega arith), (omega arith, omega arith, omega arith))
      one_box-Sane refl refl
