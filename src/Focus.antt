-- ===== src/Focus.antt =====
-- kernel/hal/input/focus_manager.cpp: the pointer, and the window that has the focus. Coordinates are
-- integers; the sums that would leave `int32_t` are not defined in the code and are not cut here.
pub mod Hit
mod Tests
use morphic_os_dev.Base.{
  ℕ, zero, suc, ◌+◌, ◌-◌, ◌*◌, ◌/◌, ◌%◌, Bool, true, false, not, ◌&&◌, Option, none, some, List, [],
  ◌∷◌, ltb, ◌==◌, if◌then◌else◌, get_elem?,
}
use morphic_os_dev.Base.Int.{ℤ, pos, negsuc, add_ℤ, ltb_ℤ, sub_ℕ}
use morphic_os_dev.SharedBuffers.{
  SharedBuffer, Buffers, change_slot, get_buffer, get_visible_buffers, get_where, is_shown,
}

pub record FocusState : Type 0 where
  pub focused_pid : ℕ
  pub focused_buffer_id : ℕ
  pub mouse_x : ℤ
  pub mouse_y : ℤ
  pub dragging : Bool
  pub drag_buffer_id : ℕ
  pub drag_offset_x : ℤ
  pub drag_offset_y : ℤ
  pub mouse_owner_pid : ℕ

abbrev pub init_focus : ℕ → ℕ → FocusState → FocusState
init_focus w h s = record s {
  focused_pid = 0;
  focused_buffer_id = 0;
  mouse_x = pos (w / 2);
  mouse_y = pos (h / 2);
  dragging = false;
  mouse_owner_pid = 0;
}

-- The clamp of one coordinate to a screen of `size` pixels.
abbrev pub clamp : ℕ → ℤ → ℤ
clamp size v =
    let v' = if ltb_ℤ v (pos 0) then pos 0 else v in
    if ltb_ℤ v' (pos size) then v' else sub_ℕ size 1

abbrev pub moved : ℕ → ℕ → ℤ → ℤ → FocusState → FocusState
moved w h dx dy s = record s {
  mouse_x = clamp w (add_ℤ s.mouse_x dx);
  mouse_y = clamp h (add_ℤ s.mouse_y dy);
}

-- `v >= start && v < start + size`.
abbrev pub within : ℤ → ℤ → ℕ → Bool
within v start size = not (ltb_ℤ v start) && ltb_ℤ v (add_ℤ start (pos size))

abbrev pub contains : ℤ → ℤ → Option SharedBuffer → Bool
contains x y none = false
contains x y (some b) = within x b.x b.width && within y b.y b.height

-- From the last of `n` pointers down; the slot that is hit.
unfoldable pub find_hit : (ℕ → Bool) → ℕ → (ℕ → ℕ) → Option ℕ
find_hit hits zero bufs = none
find_hit hits (suc i) bufs =
    let rest = find_hit hits i bufs in if hits (bufs i) then some (bufs i) else rest

abbrev pub raise : Option ℕ → Buffers → Buffers
raise none m = m
raise (some i) m = record m { slots = change_slot (λ b. record b { z_order = 100 }) i m.slots }

unfoldable pub set_focus : ℕ → ℕ → FocusState → Buffers → FocusState × Buffers
unfolding change_slot get_buffer
set_focus pid id s m =
    if s.focused_pid == pid && s.focused_buffer_id == id
    then (s, m)
    else (record s { focused_pid = pid; focused_buffer_id = id }, raise (get_buffer id m.slots) m)

-- What the slot that is hit does to the state.
abbrev pub enter_buffer : ℕ → Option SharedBuffer → FocusState → Buffers → FocusState × Buffers
enter_buffer buttons none s m = (record s { mouse_owner_pid = 0 }, m)
enter_buffer buttons (some b) s m =
    let s' = record s { mouse_owner_pid = b.owner_pid } in
    if buttons % 2 == 1 && not (s.focused_pid == b.owner_pid)
    then set_focus b.owner_pid b.id s' m
    else (s', m)

-- The slot under the pointer; `junk` is what stands on the stack.
unfoldable pub hit_slot : (ℕ → ℕ) → ℤ → ℤ → List SharedBuffer → Option ℕ
unfolding get_where find_hit
hit_slot junk x y bs =
    let (count, bufs) = get_visible_buffers bs junk 64 in
    find_hit (λ i. contains x y (get_elem? bs i)) count bufs

abbrev pub buffer_at : Option ℕ → List SharedBuffer → Option SharedBuffer
buffer_at none bs = none
buffer_at (some i) bs = get_elem? bs i

unfoldable pub handle_mouse :
    (ℕ → ℕ) → ℕ → ℕ → ℤ → ℤ → ℕ → FocusState → Buffers → FocusState × Buffers
unfolding hit_slot set_focus
handle_mouse junk w h dx dy buttons s m =
    let s' = moved w h dx dy s in
    let hit = hit_slot junk s'.mouse_x s'.mouse_y m.slots in
    enter_buffer buttons (buffer_at hit m.slots) s' m
