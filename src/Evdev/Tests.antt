-- ===== src/Evdev/Tests.antt =====
-- Runs of the ring of input events.
use morphic_os_dev.Base.{◌≡◌, refl, some, List, [], ◌∷◌}
use morphic_os_dev.Base.Int.{pos, negsuc}
use morphic_os_dev.Evdev.{
  Call, moves, syncs, keys, pops, run, init_evdev, event, push_event, pop_event,
  push_relative_motion,
}
use morphic_os_dev.Evdev.Order.{waiting, queue_run, nothing_waits, calls_in_order}

-- A motion on one axis, a report and a key, of which one event is read.
abbrev some_calls : List Call
some_calls = moves 10 (pos 0) (negsuc 4) ∷ syncs 10 ∷ keys 12 30 (pos 1) ∷ pops ∷ []

next_event :
    (pop_event (run some_calls (init_evdev (λ i. event 0 0 0 (pos 0))))).0
    ≡ some (event 10 0 0 (pos 0))
unfolding push_event pop_event push_relative_motion
next_event = refl

calls_in_order_example :
    (waiting (run some_calls (init_evdev (λ i. event 0 0 0 (pos 0))))
      ≡ queue_run some_calls nothing_waits)
    × ((pop_event (run some_calls (init_evdev (λ i. event 0 0 0 (pos 0))))).0
        ≡ some (event 10 0 0 (pos 0)))
calls_in_order_example = calls_in_order (λ i. event 0 0 0 (pos 0)) some_calls
