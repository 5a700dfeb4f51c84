-- ===== src/Evdev.antt =====
-- kernel/hal/input/evdev.cpp: the ring of input events between the drivers and the consumers. The
-- time stamp is an argument; interrupts are off during each call, so calls do not overlap.
pub mod Order
mod Tests
use morphic_os_dev.Base.{
  ℕ, ◌+◌, ◌-◌, ◌%◌, Bool, true, false, not, Option, none, some, List, [], ◌∷◌, leb, ◌==◌,
  if◌then◌else◌, update, add32, add64,
}
use morphic_os_dev.Base.Int.{ℤ, pos, negsuc}

pub record InputEvent : Type 0 where
  pub time_us : ℕ
  pub kind : ℕ
  pub code : ℕ
  pub value : ℤ

pub record Evdev : Type 0 where
  pub ring_buffer : ℕ → InputEvent
  pub head : ℕ
  pub tail : ℕ
  pub count : ℕ
  pub total_events : ℕ
  pub dropped_events : ℕ

abbrev pub buffer_size : ℕ
buffer_size = 4096

-- The events that are in the memory stay there.
abbrev pub init_evdev : (ℕ → InputEvent) → Evdev
init_evdev ram = record {
  ring_buffer = ram;
  head = 0;
  tail = 0;
  count = 0;
  total_events = 0;
  dropped_events = 0;
}

unfoldable pub push_event : InputEvent → Evdev → Bool × Evdev
push_event ev r =
    if leb buffer_size r.count
    then (false, record r { dropped_events = add64 r.dropped_events 1 })
    else (
      true,
      record r {
        ring_buffer = update r.ring_buffer r.head ev;
        head = add32 r.head 1 % buffer_size;
        count = add32 r.count 1;
        total_events = add64 r.total_events 1;
      },
    )

unfoldable pub pop_event : Evdev → Option InputEvent × Evdev
pop_event r = if r.count == 0 then (none, r) else (
  some (r.ring_buffer r.tail),
  record r { tail = add32 r.tail 1 % buffer_size; count = r.count - 1 },
)

abbrev pub event : ℕ → ℕ → ℕ → ℤ → InputEvent
event now kind code value = record { time_us = now; kind = kind; code = code; value = value }

abbrev pub is_zero : ℤ → Bool
is_zero (pos n) = n == 0
is_zero (negsuc n) = false

-- `EV_REL` is 2, with `REL_X` 0, `REL_Y` 1 and `REL_WHEEL` 8; `EV_KEY` is 1 and `EV_SYN` 0.
unfoldable pub push_relative_motion : ℕ → ℤ → ℤ → Evdev → Evdev
unfolding push_event
push_relative_motion now dx dy r =
    let r' = if not (is_zero dx) then (push_event (event now 2 0 dx) r).1 else r in
    if not (is_zero dy) then (push_event (event now 2 1 dy) r').1 else r'

abbrev pub push_button : ℕ → ℕ → Bool → Evdev → Evdev
push_button now button pressed r =
    (push_event (event now 1 button (if pressed then pos 1 else pos 0)) r).1

abbrev pub push_scroll : ℕ → ℤ → Evdev → Evdev
push_scroll now delta r = (push_event (event now 2 8 delta) r).1

abbrev pub push_key : ℕ → ℕ → ℤ → Evdev → Evdev
push_key now keycode state r = (push_event (event now 1 keycode state) r).1

abbrev pub push_sync : ℕ → Evdev → Evdev
push_sync now r = (push_event (event now 0 0 (pos 0)) r).1

-- A call of a driver or a consumer.
pub data Call : Type 0 where
  pushes : InputEvent → Call
  moves : ℕ → ℤ → ℤ → Call
  clicks : ℕ → ℕ → Bool → Call
  scrolls : ℕ → ℤ → Call
  keys : ℕ → ℕ → ℤ → Call
  syncs : ℕ → Call
  pops : Call

abbrev pub step : Call → Evdev → Evdev
step (pushes ev) r = (push_event ev r).1
step (moves now dx dy) r = push_relative_motion now dx dy r
step (clicks now button pressed) r = push_button now button pressed r
step (scrolls now delta) r = push_scroll now delta r
step (keys now keycode state) r = push_key now keycode state r
step (syncs now) r = push_sync now r
step pops r = (pop_event r).1

abbrev pub run : List Call → Evdev → Evdev
run [] r = r
run (c ∷ cs) r = run cs (step c r)
