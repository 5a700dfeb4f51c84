-- ===== src/Focus/Hit.antt =====
-- The pointer stays on the screen, and is over the topmost window that shows there.
use mathlib.Core.Path.{subst}
use mathlib.Core.HLevel.{⊥_prop}
use mathlib.Core.Logic.Or
use mathlib.Core.List.{
  Perm, Mem, mem-append, mem-append_left, mem-append_right, mem-cons_self, eq-or-mem_of_mem-cons,
  not-mem-nil,
}
use native.Mathlib.Decide.{dec_lt}
use mathlib.Core.List.Perm
use morphic_os_dev.Base.{
  ℕ, zero, suc, ◌-◌, ◌≤◌, ◌<◌, ◌≡◌, refl, sym, ap, ◌∙◌, inl, inr, Bool, true, false, Option, none,
  some, List, [], ◌∷◌, ◌++◌, ltb, get_elem?, length, arith, Bool-cases, ltb→lt, true-ne-false,
}
use morphic_os_dev.Base.Int.{ℤ, pos, negsuc, add_ℤ}
use morphic_os_dev.SharedBuffers.{SharedBuffer, Buffers, z_at, get_where, is_shown}
use morphic_os_dev.SharedBuffers.Inserting.{cells, Ascending}
use morphic_os_dev.SharedBuffers.Visible.{slots_where, get_where-Ascending}
use morphic_os_dev.Focus.{
  FocusState, clamp, contains, find_hit, hit_slot, moved, enter_buffer, buffer_at, set_focus,
  handle_mouse,
}

-- A coordinate on a screen of at least one pixel.
pub clamp_inside : (size : ℕ) (v : ℤ) → 0 < size → (n : ℕ) × (clamp size v ≡ pos n) × (n < size)
clamp_inside size (negsuc n) lt = (0, ground (arith, lt), lt)
clamp_inside size (pos n) lt = elim (Bool-cases (ltb n size)) [
  | inl t ↦ (n, rw (never n, t) refl, ltb→lt n size t)
  | inr f ↦ (size - 1, rw (never n, f) (ground (arith, lt)), omega (arith, lt))
]
  where
    never : (k : ℕ) → ltb k 0 ≡ false
    never k = ground arith

-- The topmost slot that is hit, or no slot is.
pub data Topmost (z : ℕ → ℕ) (hits : ℕ → Bool) (shown : List ℕ) : Option ℕ → Type 0 where
  top :
      (i : ℕ)
      → Mem i shown
      → hits i ≡ true
      → ((k : ℕ) → Mem k shown → hits k ≡ true → ¬ (z i < z k))
      → Topmost z hits shown (some i)
  no_hit : ((k : ℕ) → Mem k shown → ¬ (hits k ≡ true)) → Topmost z hits shown none

-- What holds of no cell holds of no member.
cell_of :
    (n : ℕ) (bufs : ℕ → ℕ) (k : ℕ) → Mem k (cells n bufs) → ((j : ℕ) → j < n → k ≡ bufs j → ⊥) → ⊥
unfolding cells
cell_of zero bufs k m h = not-mem-nil m
cell_of (suc n) bufs k m h =
    Or.elim ⊥_prop (mem-append.0 m) (λ m'. cell_of n bufs k m' (λ j lt. h j (omega (arith, lt))))
      (λ m'. Or.elim ⊥_prop (eq-or-mem_of_mem-cons m') (λ e. h n (omega arith) e) not-mem-nil)

mem_cell : (n : ℕ) (bufs : ℕ → ℕ) (j : ℕ) → j < n → Mem (bufs j) (cells n bufs)
unfolding cells
mem_cell zero bufs j lt = absurd (omega (arith, lt))
mem_cell (suc n) bufs j lt = elim (dec_lt j n) [
  | yes y ↦ mem-append_left (bufs n ∷ []) (mem_cell n bufs j y)
  | no x ↦
      subst (λ i. Mem (bufs i) (cells n bufs ++ bufs n ∷ [])) {x = n} {y = j} (omega arith)
        (mem-append_right (cells n bufs) mem-cons_self)
]

-- The search from the end finds the last cell that is hit.
data Last (hits : ℕ → Bool) (n : ℕ) (bufs : ℕ → ℕ) : Option ℕ → Type 0 where
  last :
      (j : ℕ)
      → j < n
      → hits (bufs j) ≡ true
      → ((k : ℕ) → j < k → k < n → hits (bufs k) ≡ false)
      → Last hits n bufs (some (bufs j))
  never : ((k : ℕ) → k < n → hits (bufs k) ≡ false) → Last hits n bufs none

Last-suc :
    (hits : ℕ → Bool) (n : ℕ) (bufs : ℕ → ℕ) (r : Option ℕ)
    → hits (bufs n) ≡ false
    → Last hits n bufs r
    → Last hits (suc n) bufs r
Last-suc hits n bufs r f (last j lt h above) = last j (omega (arith, lt)) h (λ k lo hi.
    elim (dec_lt k n) [
      | yes y ↦ above k lo y
      | no x ↦ subst (λ i. hits (bufs i) ≡ false) {x = n} {y = k} (omega arith) f
    ])
Last-suc hits n bufs r f (never all) = never (λ k hi. elim (dec_lt k n) [
  | yes y ↦ all k y
  | no x ↦ subst (λ i. hits (bufs i) ≡ false) {x = n} {y = k} (omega arith) f
])

find_hit-Last : (hits : ℕ → Bool) (n : ℕ) (bufs : ℕ → ℕ) → Last hits n bufs (find_hit hits n bufs)
unfolding find_hit
find_hit-Last hits zero bufs = never (λ k hi. absurd (omega (arith, hi)))
find_hit-Last hits (suc n) bufs = elim (Bool-cases (hits (bufs n))) [
  | inl t ↦ rw (t) (last n (omega arith) t (λ k lo hi. absurd (omega (arith, lo, hi))))
  | inr f ↦ rw (f) (Last-suc hits n bufs (find_hit hits n bufs) f (find_hit-Last hits n bufs))
]

Last-Topmost :
    (z : ℕ → ℕ) (hits : ℕ → Bool) (n : ℕ) (bufs : ℕ → ℕ) (shown : List ℕ) (r : Option ℕ)
    → Perm (cells n bufs) shown
    → Ascending z n bufs
    → Last hits n bufs r
    → Topmost z hits shown r
Last-Topmost z hits n bufs shown r p asc (last j lt h above) =
    top (bufs j) ((Perm.mem_iff p).0 (mem_cell n bufs j lt)) h (λ k m t higher.
      cell_of n bufs k ((Perm.mem_iff p).1 m) (λ i hi e. elim (dec_lt j i) [
        | yes y ↦ true-ne-false (sym t ∙ ap hits e ∙ above i y hi)
        | no x ↦ absurd (omega (arith, higher, ap z e, asc i j (omega arith) lt))
      ]))
Last-Topmost z hits n bufs shown r p asc (never all) = no_hit (λ k m t.
    cell_of n bufs k ((Perm.mem_iff p).1 m)
      (λ i hi e. true-ne-false (sym t ∙ ap hits e ∙ all i hi)))

-- The slot under the pointer, among the windows that show: none of those that contain the point lies
-- higher.
pub hit_slot-Topmost :
    (junk : ℕ → ℕ) (x y : ℤ) (bs : List SharedBuffer)
    → length bs ≤ 64
    → Topmost
        (z_at bs)
        (λ i. contains x y (get_elem? bs i))
        (slots_where is_shown 0 bs)
        (hit_slot junk x y bs)
unfolding hit_slot
hit_slot-Topmost junk x y bs le =
    let (p, asc) = get_where-Ascending is_shown bs junk 64 le in
    let hits : ℕ → Bool = λ i. contains x y (get_elem? bs i) in
    Last-Topmost (z_at bs) hits (get_where is_shown bs junk 64).0 (get_where is_shown bs junk 64).1
      (slots_where is_shown 0 bs)
      (find_hit hits (get_where is_shown bs junk 64).0 (get_where is_shown bs junk 64).1) p asc
      (find_hit-Last hits (get_where is_shown bs junk 64).0 (get_where is_shown bs junk 64).1)

abbrev pub owner_of : Option SharedBuffer → ℕ
owner_of none = 0
owner_of (some b) = b.owner_pid

-- What `HandleMouse` makes of the state: the pointer is on the screen, and the window that gets the
-- clicks is the topmost one there.
pub record Pointed (w h : ℕ) (bs : List SharedBuffer) (s : FocusState) : Type 0 where
  pub column : ℕ
  pub row : ℕ
  pub on_screen : (column < w) × (row < h)
  pub at : (s.mouse_x ≡ pos column) × (s.mouse_y ≡ pos row)
  pub hit : Option ℕ
  pub topmost :
      Topmost
        (z_at bs)
        (λ i. contains (pos column) (pos row) (get_elem? bs i))
        (slots_where is_shown 0 bs)
        hit
  pub owner : s.mouse_owner_pid ≡ owner_of (buffer_at hit bs)

-- Neither the focus nor the owner moves the pointer.
entered-owner :
    (buttons : ℕ) (o : Option SharedBuffer) (s : FocusState) (m : Buffers)
    → ((enter_buffer buttons o s m).0.mouse_x ≡ s.mouse_x)
      × ((enter_buffer buttons o s m).0.mouse_y ≡ s.mouse_y)
      × ((enter_buffer buttons o s m).0.mouse_owner_pid ≡ owner_of o)
unfolding set_focus
entered-owner buttons none s m = (refl, refl, refl)
entered-owner buttons (some b) s m = ground arith

-- On a screen that is not empty.
pub handle_mouse-Pointed :
    (junk : ℕ → ℕ) (w h : ℕ) (dx dy : ℤ) (buttons : ℕ) (s : FocusState) (m : Buffers)
    → 0 < w
    → 0 < h
    → length m.slots ≤ 64
    → Pointed w h m.slots (handle_mouse junk w h dx dy buttons s m).0
unfolding handle_mouse
handle_mouse-Pointed junk w h dx dy buttons s m some_w some_h le =
    let (i, x, in_x) = clamp_inside w (add_ℤ s.mouse_x dx) some_w in
    let (j, y, in_y) = clamp_inside h (add_ℤ s.mouse_y dy) some_h in
    let s' = moved w h dx dy s in
    let hit = hit_slot junk s'.mouse_x s'.mouse_y m.slots in
    let (sx, sy, o) = entered-owner buttons (buffer_at hit m.slots) s' m in
    record {
      column = i;
      row = j;
      on_screen = (in_x, in_y);
      at = (sx ∙ x, sy ∙ y);
      hit = hit;
      topmost =
          subst
            (λ v.
              Topmost (z_at m.slots) (λ k. contains v (pos j) (get_elem? m.slots k))
                (slots_where is_shown 0 m.slots) hit)
            x
            (subst
              (λ v.
                Topmost (z_at m.slots) (λ k. contains s'.mouse_x v (get_elem? m.slots k))
                  (slots_where is_shown 0 m.slots) hit)
              y (hit_slot-Topmost junk s'.mouse_x s'.mouse_y m.slots le));
      owner = o;
    }
