-- ===== src/Focus/Tests.antt =====
-- The pointer over two windows, and an instance of the theorem.
use morphic_os_dev.Base.{ℕ, ◌≡◌, refl, some, true, false, [], ◌∷◌, arith}
use morphic_os_dev.Base.Int.{ℤ, pos, negsuc}
use morphic_os_dev.SharedBuffers.{
  SharedBuffer, Buffers, collect, get_where, sort_buffers_by_z, sort_from, shift, find_slot,
  get_buffer, change_slot,
}
use morphic_os_dev.Focus.{FocusState, init_focus, handle_mouse, hit_slot, find_hit, set_focus}
use morphic_os_dev.Focus.Hit.{Pointed, handle_mouse-Pointed}

abbrev window : ℕ → ℕ → ℕ → ℤ → SharedBuffer
window id owner z x = record {
  id = id;
  width = 50;
  height = 50;
  pitch = 200;
  kernel_addr = some 0x10000;
  phys_addr = 0;
  user_addr = 0;
  owner_pid = owner;
  x = x;
  y = pos 0;
  z_order = z;
  visible = true;
  ready = true;
  consumed = false;
  dirty = λ i. record { x = pos 0; y = pos 0; w = pos 0; h = pos 0 };
  dirty_count = 0;
  submit_time = 0;
  display_time = 0;
}

-- The first window lies over the second one.
abbrev two_windows : Buffers
two_windows = record {
  slots = window 1 11 9 (pos 20) ∷ window 2 12 4 (negsuc 4) ∷ [];
  active_buffer_count = 2;
  next_buffer_id = 3;
}

abbrev started : FocusState
started = init_focus 100 100 (record {
  focused_pid = 0;
  focused_buffer_id = 0;
  mouse_x = pos 0;
  mouse_y = pos 0;
  dragging = false;
  drag_buffer_id = 0;
  drag_offset_x = pos 0;
  drag_offset_y = pos 0;
  mouse_owner_pid = 0;
})

-- A click where they overlap goes to the higher one.
clicked :
    (handle_mouse (λ i. 0) 100 100 (negsuc 19) (negsuc 9) 1 started two_windows).0.focused_pid ≡ 11
unfolding handle_mouse hit_slot find_hit set_focus get_where collect sort_buffers_by_z sort_from
    shift get_buffer find_slot change_slot
clicked = refl

handle_mouse-Pointed_example :
    Pointed 100 100 two_windows.slots
      (handle_mouse (λ i. 0) 100 100 (negsuc 19) (negsuc 9) 1 started two_windows).0
handle_mouse-Pointed_example =
    handle_mouse-Pointed (λ i. 0) 100 100 (negsuc 19) (negsuc 9) 1 started two_windows (omega arith)
      (omega arith) (omega arith)
