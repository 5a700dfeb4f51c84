-- ===== src/DirtyRects.antt =====
-- kernel/hal/video/dirty_rects.h: the regions of the screen to draw again. A coordinate is an `int32_t`
-- as a bit pattern, and so is the text's mixed arithmetic: where an `int32_t` meets a `uint32_t` the
-- comparison is unsigned.
pub mod Covering
mod Tests
use morphic_os_dev.Base.{
  ℕ, zero, suc, ◌+◌, ◌-◌, ◌%◌, ◌^◌, Bool, true, false, ◌&&◌, Option, none, some, List, [], ◌∷◌, ltb,
  leb, ◌==◌, if◌then◌else◌, set, add32, sub32,
}

pub record Rect : Type 0 where
  pub x : ℕ
  pub y : ℕ
  pub w : ℕ
  pub h : ℕ
  pub valid : Bool

pub record DirtyRects : Type 0 where
  pub rects : List Rect
  pub count : ℕ

abbrev pub max_dirty_rects : ℕ
max_dirty_rects = 32

-- The place of a coordinate on a line that begins at -2 ^ 31.
abbrev pub place : ℕ → ℕ
place v = (v + 2 ^ 31) % 2 ^ 32

-- `a < b` for two `int32_t`.
abbrev pub signed_ltb : ℕ → ℕ → Bool
signed_ltb a b = ltb (place a) (place b)

-- `x < rx + rw && x + w > rx`, on one axis.
abbrev pub meets : ℕ → ℕ → ℕ → ℕ → Bool
meets x w rx rw = signed_ltb x (add32 rx rw) && signed_ltb rx (add32 x w)

-- `nx`, and `nx2 - nx`.
abbrev pub joined_start : ℕ → ℕ → ℕ
joined_start x rx = if signed_ltb x rx then x else rx

abbrev pub joined_size : ℕ → ℕ → ℕ → ℕ → ℕ
joined_size x w rx rw =
    sub32 (if ltb (add32 rx rw) (add32 x w) then add32 x w else add32 rx rw) (joined_start x rx)

unfoldable pub merge : Rect → Rect → Rect
merge q r = record r {
  x = joined_start q.x r.x;
  y = joined_start q.y r.y;
  w = joined_size q.x q.w r.x r.w;
  h = joined_size q.y q.h r.y r.h;
}

abbrev pub overlaps : Rect → Rect → Bool
overlaps q r = r.valid && meets q.x q.w r.x r.w && meets q.y q.h r.y r.h

-- `for (i = 0; i < count; i++)`: the first of these rectangles that overlaps takes the new one in.
unfoldable pub merge_first : ℕ → Rect → List Rect → Option (List Rect)
merge_first zero q rs = none
merge_first (suc n) q [] = none
merge_first (suc n) q (r ∷ rs) =
    let rest : Option (List Rect) = elim (merge_first n q rs) [
      | some rs' ↦ some (r ∷ rs')
      | none ↦ none
    ] in
    if overlaps q r then some (merge q r ∷ rs) else rest

abbrev pub whole_screen : Rect
whole_screen = record { x = 0; y = 0; w = 0xFFFF; h = 0xFFFF; valid = true }

-- `Mark`; `q` is the rectangle, valid as it is stored.
unfoldable pub mark : Rect → DirtyRects → DirtyRects
mark q d =
    if leb max_dirty_rects d.count
    then record { rects = set d.rects 0 whole_screen; count = 1 }
    else elim (merge_first d.count q d.rects) [
      | some rs ↦ record d { rects = rs }
      | none ↦ record { rects = set d.rects d.count q; count = d.count + 1 }
    ]

unfoldable pub invalid : List Rect → List Rect
invalid [] = []
invalid (r ∷ rs) = record r { valid = false } ∷ invalid rs

-- `Init` and `Clear` are the same.
unfoldable pub clear : DirtyRects → DirtyRects
unfolding invalid
clear d = record { rects = invalid d.rects; count = 0 }

unfoldable pub has_dirty : DirtyRects → Bool
has_dirty d = ltb 0 d.count
