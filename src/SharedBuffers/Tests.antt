-- ===== src/SharedBuffers/Tests.antt =====
-- Runs of the buffer manager, and an instance of the sorting theorem.
use mathlib.Core.List.{Perm}
use morphic_os_dev.Base.{arith, ℕ, ◌≡◌, refl, none, some, [], ◌∷◌, if◌then◌else◌, ◌==◌, false}
use morphic_os_dev.Base.Int.{pos}
use morphic_os_dev.SharedBuffers.{
  SharedBuffer, Buffers, init_buffers, create_buffer, destroy_buffer, get_buffer, find_slot,
  change_slot, clear_slots, sort_buffers_by_z, sort_from, shift,
}
use morphic_os_dev.SharedBuffers.Lifecycle.{
  IsConsistent, creates, destroys, live_run, one_owner_of_id,
}
use morphic_os_dev.SharedBuffers.Inserting.{cells, Ascending}
use morphic_os_dev.SharedBuffers.Sorting.{sort_buffers_by_z-Ascending}

abbrev pub empty_slot : SharedBuffer
empty_slot = record {
  id = 0;
  width = 0;
  height = 0;
  pitch = 0;
  kernel_addr = none;
  phys_addr = 0;
  user_addr = 0;
  owner_pid = 0;
  x = pos 0;
  y = pos 0;
  z_order = 0;
  visible = false;
  ready = false;
  consumed = false;
  dirty = λ i. record { x = pos 0; y = pos 0; w = pos 0; h = pos 0 };
  dirty_count = 0;
  submit_time = 0;
  display_time = 0;
}

abbrev two_slots : Buffers
two_slots = init_buffers (empty_slot ∷ empty_slot ∷ [])

-- The slot of a destroyed buffer is used again, under a new id.
used_again :
    get_buffer 2
      (create_buffer 10 10 7
        (some 0x5000)
        (destroy_buffer 0 (create_buffer 20 10 7 (some 0x4000) two_slots).1)).1.slots
    ≡ some 0
unfolding create_buffer destroy_buffer get_buffer find_slot change_slot clear_slots
used_again = refl

-- Slots 0, 1 and 2 with z 5, 3 and 4.
abbrev some_z : ℕ → ℕ
some_z i = if i == 0 then 5 else if i == 1 then 3 else 4

sorted_slots : cells 3 (sort_buffers_by_z some_z 3 (λ i. i)) ≡ 1 ∷ 2 ∷ 0 ∷ []
unfolding cells sort_buffers_by_z sort_from shift
sorted_slots = refl

sort_buffers_by_z-Ascending_example :
    Perm (cells 3 (sort_buffers_by_z some_z 3 (λ i. i))) (cells 3 (λ i. i))
    × Ascending some_z 3 (sort_buffers_by_z some_z 3 (λ i. i))
sort_buffers_by_z-Ascending_example = sort_buffers_by_z-Ascending some_z 3 (λ i. i)

-- Three requests, of which the second finds no memory, and the end of the first buffer.
one_owner_of_id_example : IsConsistent (
    live_run
      (creates 20 10 7 (some 0x4000)
        ∷ creates 5 5 7 none
        ∷ destroys 0
        ∷ creates 10 10 8 (some 0x5000)
        ∷ [])
      two_slots)
one_owner_of_id_example =
    one_owner_of_id (empty_slot ∷ empty_slot ∷ [])
      (creates 20 10 7 (some 0x4000)
        ∷ creates 5 5 7 none
        ∷ destroys 0
        ∷ creates 10 10 8 (some 0x5000)
        ∷ [])
      (omega arith) (omega arith)
