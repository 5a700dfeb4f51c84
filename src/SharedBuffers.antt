-- ===== src/SharedBuffers.antt =====
-- kernel/hal/drm/buffer_manager.cpp: the buffers that applications draw in. A pointer to a buffer is
-- the number of its slot; the heap's answer is an argument, and the pixels are left out.
pub mod Slots
pub mod Lifecycle
pub mod Inserting
pub mod Sorting
pub mod Visible
mod Tests
use morphic_os_dev.Base.{
  ℕ, zero, suc, ◌+◌, ◌-◌, ◌*◌, ◌%◌, ◌^◌, Bool, true, false, not, ◌&&◌, ◌||◌, Option, none, some,
  List, [], ◌∷◌, ltb, leb, ◌==◌, if◌then◌else◌, update, set, get_elem?, add32, sub32, add64,
}
use morphic_os_dev.Base.Int.{ℤ, pos}

pub record DirtyRect : Type 0 where
  pub x : ℤ
  pub y : ℤ
  pub w : ℤ
  pub h : ℤ

pub record SharedBuffer : Type 0 where
  pub id : ℕ
  pub width : ℕ
  pub height : ℕ
  pub pitch : ℕ
  pub kernel_addr : Option ℕ
  pub phys_addr : ℕ
  pub user_addr : ℕ
  pub owner_pid : ℕ
  pub x : ℤ
  pub y : ℤ
  pub z_order : ℕ
  pub visible : Bool
  pub ready : Bool
  pub consumed : Bool
  pub dirty : ℕ → DirtyRect
  pub dirty_count : ℕ
  pub submit_time : ℕ
  pub display_time : ℕ

pub record Buffers : Type 0 where
  pub slots : List SharedBuffer
  pub active_buffer_count : ℕ
  pub next_buffer_id : ℕ

abbrev pub max_buffers : ℕ
max_buffers = 64

-- What `Init` leaves of a slot.
abbrev pub cleared : SharedBuffer → SharedBuffer
cleared b = record b { id = 0; kernel_addr = none }

unfoldable pub clear_slots : List SharedBuffer → List SharedBuffer
clear_slots [] = []
clear_slots (b ∷ bs) = cleared b ∷ clear_slots bs

abbrev pub init_buffers : List SharedBuffer → Buffers
init_buffers ram = record { slots = clear_slots ram; active_buffer_count = 0; next_buffer_id = 1 }

abbrev pub is_some {ℓ} : {A : Type ℓ} → Option A → Bool
is_some none = false
is_some (some a) = true

-- The slots with memory are freed.
unfoldable pub shut_slots : List SharedBuffer → List SharedBuffer
shut_slots [] = []
shut_slots (b ∷ bs) =
    (if not (b.id == 0) && is_some b.kernel_addr then cleared b else b) ∷ shut_slots bs

abbrev pub shutdown : Buffers → Buffers
shutdown m = record m { slots = shut_slots m.slots; active_buffer_count = 0 }

-- The first slot that passes the test, from the slot `i` on.
unfoldable pub find_slot : (SharedBuffer → Bool) → ℕ → List SharedBuffer → Option ℕ
find_slot test i [] = none
find_slot test i (b ∷ bs) = let rest = find_slot test (i + 1) bs in if test b then some i else rest

-- A slot changed through its pointer.
unfoldable pub change_slot :
    (SharedBuffer → SharedBuffer) → ℕ → List SharedBuffer → List SharedBuffer
change_slot f i [] = []
change_slot f zero (b ∷ bs) = f b ∷ bs
change_slot f (suc i) (b ∷ bs) = b ∷ change_slot f i bs

abbrev pub is_free : SharedBuffer → Bool
is_free b = b.id == 0

-- The new contents of the slot; the old rectangles stay in memory and are not counted.
abbrev pub filled_slot : ℕ → ℕ → ℕ → ℕ → ℕ → SharedBuffer → SharedBuffer
filled_slot id w h owner mem b = record b {
  id = id;
  width = w;
  height = h;
  pitch = w * 4 % 2 ^ 32;
  kernel_addr = some mem;
  phys_addr = 0;
  user_addr = 0;
  owner_pid = owner;
  x = pos 0;
  y = pos 0;
  z_order = 0;
  visible = false;
  ready = false;
  consumed = true;
  submit_time = 0;
  display_time = 0;
  dirty_count = 0;
}

abbrev pub refuses_size : ℕ → ℕ → Bool
refuses_size w h = w == 0 || h == 0 || ltb 4096 w || ltb 4096 h

-- `mem` is what the heap answers.
unfoldable pub create_buffer : ℕ → ℕ → ℕ → Option ℕ → Buffers → Option ℕ × Buffers
unfolding find_slot change_slot
create_buffer w h owner mem m =
    if refuses_size w h || leb max_buffers m.active_buffer_count
    then (none, m)
    else elim (find_slot is_free 0 m.slots) [
      | none ↦ (none, m)
      | some i ↦ elim mem [
        | none ↦ (none, m)
        | some a ↦ (
          some i,
          record m {
            slots = change_slot (filled_slot m.next_buffer_id w h owner a) i m.slots;
            active_buffer_count = add32 m.active_buffer_count 1;
            next_buffer_id = add64 m.next_buffer_id 1;
          },
        )
      ]
    ]

abbrev pub slot_id : Option SharedBuffer → ℕ
slot_id none = 0
slot_id (some b) = b.id

unfoldable pub destroy_buffer : ℕ → Buffers → Buffers
unfolding change_slot
destroy_buffer i m = if slot_id (get_elem? m.slots i) == 0 then m else record m {
  slots = change_slot cleared i m.slots;
  active_buffer_count = sub32 m.active_buffer_count 1;
}

unfoldable pub get_buffer : ℕ → List SharedBuffer → Option ℕ
unfolding find_slot
get_buffer id bs = if id == 0 then none else find_slot (λ b. b.id == id) 0 bs

unfoldable pub get_buffer_by_pid : ℕ → List SharedBuffer → Option ℕ
unfolding find_slot
get_buffer_by_pid pid bs = find_slot (λ b. not (b.id == 0) && b.owner_pid == pid) 0 bs

abbrev pub mark_ready : SharedBuffer → SharedBuffer
mark_ready b = record b { ready = true; consumed = false }

abbrev pub mark_consumed : SharedBuffer → SharedBuffer
mark_consumed b = record b { consumed = true; ready = false }

unfoldable pub mark_dirty : ℤ → ℤ → ℤ → ℤ → SharedBuffer → SharedBuffer
mark_dirty x y w h b =
    if ltb b.dirty_count 8
    then record b {
      dirty = update b.dirty b.dirty_count (record { x = x; y = y; w = w; h = h });
      dirty_count = add32 b.dirty_count 1;
    }
    else record b {
      dirty = update b.dirty 0 (record { x = pos 0; y = pos 0; w = pos b.width; h = pos b.height });
      dirty_count = 1;
    }

abbrev pub clear_dirty : SharedBuffer → SharedBuffer
clear_dirty b = record b { dirty_count = 0 }

abbrev pub set_position : ℤ → ℤ → ℕ → Bool → SharedBuffer → SharedBuffer
set_position x y z visible b = record b { x = x; y = y; z_order = z; visible = visible }

-- The `while` of `SortBuffersByZ`: `j` is one more than the code's, and `bufs` an array of slots.
unfoldable pub shift : (ℕ → ℕ) → ℕ → ℕ → (ℕ → ℕ) → ℕ → ℕ
shift z key zero bufs = update bufs 0 key
shift z key (suc j) bufs =
    let moved = shift z key j (update bufs (suc j) (bufs j)) in
    if ltb (z key) (z (bufs j)) then moved else update bufs (suc j) key

-- The `for`, from `i` on, with the rounds left.
unfoldable pub sort_from : (ℕ → ℕ) → ℕ → ℕ → (ℕ → ℕ) → ℕ → ℕ
unfolding shift
sort_from z zero i bufs = bufs
sort_from z (suc n) i bufs = sort_from z n (suc i) (shift z (bufs i) i bufs)

unfoldable pub sort_buffers_by_z : (ℕ → ℕ) → ℕ → (ℕ → ℕ) → ℕ → ℕ
unfolding sort_from
sort_buffers_by_z z count bufs = sort_from z (count - 1) 1 bufs

-- The slots that pass the test go to the array, as long as there is room.
unfoldable pub collect :
    (SharedBuffer → Bool) → ℕ → ℕ → List SharedBuffer → ℕ → (ℕ → ℕ) → ℕ × (ℕ → ℕ)
collect test max i [] count out = (count, out)
collect test max i (b ∷ bs) count out =
    if test b && ltb count max
    then collect test max (i + 1) bs (count + 1) (update out count i)
    else collect test max (i + 1) bs count out

abbrev pub z_of : Option SharedBuffer → ℕ
z_of none = 0
z_of (some b) = b.z_order

abbrev pub is_shown : SharedBuffer → Bool
is_shown b = not (b.id == 0) && b.visible

abbrev pub is_shown_ready : SharedBuffer → Bool
is_shown_ready b = not (b.id == 0) && b.visible && b.ready

abbrev pub z_at : List SharedBuffer → ℕ → ℕ
z_at bs i = z_of (get_elem? bs i)

-- The count and the array.
unfoldable pub get_where : (SharedBuffer → Bool) → List SharedBuffer → (ℕ → ℕ) → ℕ → ℕ × (ℕ → ℕ)
unfolding collect sort_buffers_by_z
get_where test bs out max =
    let (count, found) = collect test max 0 bs 0 out in
    (count, sort_buffers_by_z (z_at bs) count found)

abbrev pub get_ready_buffers : List SharedBuffer → (ℕ → ℕ) → ℕ → ℕ × (ℕ → ℕ)
get_ready_buffers = get_where is_shown_ready

abbrev pub get_visible_buffers : List SharedBuffer → (ℕ → ℕ) → ℕ → ℕ × (ℕ → ℕ)
get_visible_buffers = get_where is_shown
