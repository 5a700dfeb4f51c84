-- ===== src/SharedBuffers/Lifecycle.antt =====
-- The ids of the buffers over their lives.
use mathlib.Core.Path.{subst}
use morphic_os_dev.Base.{
  ℕ, zero, suc, ◌+◌, ◌-◌, ◌^◌, ◌≤◌, ◌<◌, ◌≡◌, ◌≢◌, refl, sym, ap, inl, inr, true, false, ◌||◌,
  Option, none, some, List, [], ◌∷◌, leb, ◌==◌, if◌then◌else◌, get_elem?, length, arith, Bool-cases,
  add32, sub32, add64,
}
use morphic_os_dev.SharedBuffers.{
  SharedBuffer, Buffers, cleared, clear_slots, init_buffers, find_slot, change_slot, is_free,
  filled_slot, refuses_size, create_buffer, destroy_buffer, slot_id, max_buffers,
}
use morphic_os_dev.SharedBuffers.Slots.{
  length-change_slot, one_if_live, live, live-change_slot, live-le-length, find_slot-some, id_at,
  id_at-change_slot,
}

-- No two buffers have one id, ids that are still to come are new, and the count is right.
pub record IsConsistent (m : Buffers) : Type 0 where
  pub unique : (i j : ℕ) → id_at m.slots i ≢ 0 → id_at m.slots i ≡ id_at m.slots j → i ≡ j
  pub older : (i : ℕ) → id_at m.slots i < m.next_buffer_id
  pub counted : m.active_buffer_count ≡ live m.slots
  pub few : length m.slots ≤ 64

one_if_free : (b : SharedBuffer) → is_free b ≡ true → one_if_live b ≡ 0
one_if_free b e = rw (e) refl

one_if_id : (b : SharedBuffer) {n : ℕ} → n < b.id → one_if_live b ≡ 1
one_if_id b lt = ground (arith, lt)

filled-IsConsistent :
    (m : Buffers) (i w h owner a : ℕ) (b : SharedBuffer)
    → IsConsistent m
    → m.next_buffer_id + 1 < 2 ^ 64
    → get_elem? m.slots i ≡ some b
    → is_free b ≡ true
    → IsConsistent (record m {
      slots = change_slot (filled_slot m.next_buffer_id w h owner a) i m.slots;
      active_buffer_count = add32 m.active_buffer_count 1;
      next_buffer_id = add64 m.next_buffer_id 1;
    })
filled-IsConsistent m i w h owner a b c small at free =
    let f = filled_slot m.next_buffer_id w h owner a in
    let ids : (j : ℕ)
        → id_at (change_slot f i m.slots) j
          ≡ (if i == j then m.next_buffer_id else id_at m.slots j) =
      λ j. id_at-change_slot f i m.slots b j at in
    record {
      unique = λ j k. ground (arith, ids j, ids k, c.unique j k, c.older j, c.older k);
      older = λ j. ground (arith, ids j, c.older j, c.older i);
      counted = omega (
        arith,
        live-change_slot f i m.slots b at,
        one_if_free b free,
        one_if_id (f b) (c.older i),
        c.counted,
        live-le-length m.slots,
        c.few,
      );
      few = omega (arith, length-change_slot f i m.slots, c.few);
    }

-- What `mem`, the answer of the heap, makes of a free slot.
create_from :
    (w h owner : ℕ) (mem : Option ℕ) (m : Buffers) (found : Option ℕ)
    → IsConsistent m
    → m.next_buffer_id + 1 < 2 ^ 64
    → (refuses_size w h || leb max_buffers m.active_buffer_count) ≡ false
    → find_slot is_free 0 m.slots ≡ found
    → IsConsistent (create_buffer w h owner mem m).1
unfolding create_buffer
create_from w h owner mem m none c small go e = rw (go, e, create_buffer) c
create_from w h owner none m (some i) c small go e = rw (go, e, create_buffer) c
create_from w h owner (some a) m (some i) c small go e =
    let (b, le, at, t) = find_slot-some is_free 0 m.slots i e in
    rw (go, e, create_buffer)
      (filled-IsConsistent m i w h owner a b c small
        (subst (λ n. get_elem? m.slots n ≡ some b) {x = i - 0} {y = i} (omega arith) at) t)

pub create_buffer-IsConsistent :
    (w h owner : ℕ) (mem : Option ℕ) (m : Buffers)
    → IsConsistent m
    → m.next_buffer_id + 1 < 2 ^ 64
    → IsConsistent (create_buffer w h owner mem m).1
unfolding create_buffer
create_buffer-IsConsistent w h owner mem m c small =
    elim (Bool-cases (refuses_size w h || leb max_buffers m.active_buffer_count)) [
      | inl stop ↦ rw (stop) c
      | inr go ↦ create_from w h owner mem m (find_slot is_free 0 m.slots) c small go refl
    ]

emptied-IsConsistent :
    (i : ℕ) (m : Buffers) (b : SharedBuffer)
    → IsConsistent m
    → get_elem? m.slots i ≡ some b
    → (b.id == 0) ≡ false
    → IsConsistent (record m {
      slots = change_slot cleared i m.slots;
      active_buffer_count = sub32 m.active_buffer_count 1;
    })
emptied-IsConsistent i m b c at used =
    let ids : (j : ℕ)
        → id_at (change_slot cleared i m.slots) j ≡ (if i == j then 0 else id_at m.slots j) =
      λ j. id_at-change_slot cleared i m.slots b j at in
    record {
      unique = λ j k. ground (arith, ids j, ids k, c.unique j k);
      older = λ j. ground (arith, ids j, c.older j, c.older i);
      counted = omega (
        arith,
        live-change_slot cleared i m.slots b at,
        one_if_used b used,
        c.counted,
        live-le-length m.slots,
        c.few,
      );
      few = omega (arith, length-change_slot cleared i m.slots, c.few);
    }
  where
    one_if_used : (b : SharedBuffer) → (b.id == 0) ≡ false → one_if_live b ≡ 1
    one_if_used b e = rw (e) refl

destroy_from :
    (i : ℕ) (m : Buffers) (o : Option SharedBuffer)
    → IsConsistent m
    → get_elem? m.slots i ≡ o
    → IsConsistent (destroy_buffer i m)
unfolding destroy_buffer
destroy_from i m none c e = rw (e) c
destroy_from i m (some b) c e = elim (Bool-cases (b.id == 0)) [
  | inl z ↦ rw (e, z) c
  | inr nz ↦ rw (e, nz) (emptied-IsConsistent i m b c e nz)
]

-- Requests for buffers, with the answers of the heap, and the ends of buffers.
pub data Life : Type 0 where
  creates : ℕ → ℕ → ℕ → Option ℕ → Life
  destroys : ℕ → Life

abbrev pub live_step : Life → Buffers → Buffers
live_step (creates w h owner mem) m = (create_buffer w h owner mem m).1
live_step (destroys i) m = destroy_buffer i m

abbrev pub live_run : List Life → Buffers → Buffers
live_run [] m = m
live_run (l ∷ ls) m = live_run ls (live_step l m)

next_after_create :
    (w h owner : ℕ) (mem : Option ℕ) (m : Buffers) (found : Option ℕ)
    → find_slot is_free 0 m.slots ≡ found
    → (create_buffer w h owner mem m).1.next_buffer_id ≤ m.next_buffer_id + 1
unfolding create_buffer
next_after_create w h owner mem m found e =
    elim (Bool-cases (refuses_size w h || leb max_buffers m.active_buffer_count)) [
      | inl stop ↦ rw (stop) (omega arith)
      | inr go ↦ rw (go, e, create_buffer) (answer found mem)
    ]
  where
    answer :
        (found mem : Option ℕ)
        → (elim found as (λ x. Option ℕ × Buffers) [
          | none ↦ (none, m)
          | some i ↦ elim mem [
            | none ↦ (none, m)
            | some a ↦ (
              some i,
              record m {
                slots = change_slot (filled_slot m.next_buffer_id w h owner a) i m.slots;
                active_buffer_count = add32 m.active_buffer_count 1;
                next_buffer_id = add64 m.next_buffer_id 1;
              },
            )
          ]
        ]).1.next_buffer_id
          ≤ m.next_buffer_id + 1
    answer none mem = omega arith
    answer (some i) none = omega arith
    answer (some i) (some a) = omega arith

next_after_destroy : (i : ℕ) (m : Buffers) → (destroy_buffer i m).next_buffer_id ≡ m.next_buffer_id
unfolding destroy_buffer
next_after_destroy i m = elim (Bool-cases (slot_id (get_elem? m.slots i) == 0)) [
  | inl z ↦ rw (z) refl
  | inr nz ↦ rw (nz) refl
]

live_run-IsConsistent :
    (ls : List Life) (m : Buffers)
    → IsConsistent m
    → m.next_buffer_id + length ls < 2 ^ 64
    → IsConsistent (live_run ls m)
live_run-IsConsistent [] m c small = c
live_run-IsConsistent (creates w h owner mem ∷ ls) m c small =
    live_run-IsConsistent ls (create_buffer w h owner mem m).1
      (create_buffer-IsConsistent w h owner mem m c (omega (arith, small)))
      (omega (arith, small, next_after_create w h owner mem m (find_slot is_free 0 m.slots) refl))
live_run-IsConsistent (destroys i ∷ ls) m c small =
    live_run-IsConsistent ls (destroy_buffer i m) (destroy_from i m (get_elem? m.slots i) c refl)
      (omega (arith, small, next_after_destroy i m))

id_at-clear_slots : (ram : List SharedBuffer) (i : ℕ) → id_at (clear_slots ram) i ≡ 0
unfolding clear_slots
id_at-clear_slots [] i = refl
id_at-clear_slots (b ∷ ram) zero = refl
id_at-clear_slots (b ∷ ram) (suc i) = id_at-clear_slots ram i

live-clear_slots : (ram : List SharedBuffer) → live (clear_slots ram) ≡ 0
unfolding clear_slots live
live-clear_slots [] = refl
live-clear_slots (b ∷ ram) = omega (arith, live-clear_slots ram)

length-clear_slots : (ram : List SharedBuffer) → length (clear_slots ram) ≡ length ram
unfolding clear_slots
length-clear_slots [] = refl
length-clear_slots (b ∷ ram) = ap suc (length-clear_slots ram)

-- After any requests and ends of buffers from `Init` on, as few as there are ids.
pub one_owner_of_id :
    (ram : List SharedBuffer) (ls : List Life)
    → length ram ≤ 64
    → length ls + 1 < 2 ^ 64
    → IsConsistent (live_run ls (init_buffers ram))
one_owner_of_id ram ls le small =
    live_run-IsConsistent ls (init_buffers ram)
      (record {
        unique = λ i j ne e. absurd (ne (id_at-clear_slots ram i));
        older = λ i. omega (arith, id_at-clear_slots ram i);
        counted = sym (live-clear_slots ram);
        few = omega (arith, length-clear_slots ram, le);
      })
      (omega (arith, small))
