-- ===== src/Evdev/Order.antt =====
-- The ring as a queue of at most 4096 events.
use mathlib.Core.Path.{subst}
use native.Mathlib.Nat.{mod-eq_of_lt}
use morphic_os_dev.Base.{
  ℕ, suc, ◌+◌, ◌-◌, ◌%◌, ◌≤◌, ◌<◌, ◌≡◌, refl, sym, ap, ◌∙◌, inl, inr, not, Option, none, some, List,
  [], ◌∷◌, ◌++◌, leb, ◌==◌, if◌then◌else◌, update, add32, add64, length, arith, Bool-cases, leb→lt,
  ==→eq, ==→ne,
}
use morphic_os_dev.Base.Int.{ℤ, pos}
use morphic_os_dev.Base.Span.{span, length-span, span-push, span-suc, span-mod}
use morphic_os_dev.Evdev.{
  InputEvent, Evdev, push_event, pop_event, event, is_zero, push_relative_motion, Call, pushes,
  moves, clicks, scrolls, keys, syncs, pops, step, run, init_evdev,
}

pub record IsRing (r : Evdev) : Type 0 where
  pub tail_in : r.tail < 4096
  pub room : r.count ≤ 4096
  pub head_at : r.head ≡ (r.tail + r.count) % 4096

-- What waits, oldest first, and the two counters.
pub record Waiting : Type 0 where
  pub events : List InputEvent
  pub total : ℕ
  pub dropped : ℕ

unfoldable pub waiting : Evdev → Waiting
waiting r = record {
  events = span 4096 r.ring_buffer r.tail r.count;
  total = r.total_events;
  dropped = r.dropped_events;
}

-- A queue of bounded length: an event joins the end, or is dropped.
abbrev pub join : InputEvent → Waiting → Waiting
join ev w =
    if leb 4096 (length w.events)
    then record w { dropped = add64 w.dropped 1 }
    else record w { events = w.events ++ ev ∷ []; total = add64 w.total 1 }

abbrev pub join_moved : ℕ → ℕ → ℤ → Waiting → Waiting
join_moved now axis d w = if is_zero d then w else join (event now 2 axis d) w

abbrev pub tail_of : List InputEvent → List InputEvent
tail_of [] = []
tail_of (e ∷ es) = es

abbrev pub head_of : List InputEvent → Option InputEvent
head_of [] = none
head_of (e ∷ es) = some e

abbrev pub queue_step : Call → Waiting → Waiting
queue_step (pushes ev) w = join ev w
queue_step (moves now dx dy) w = join_moved now 1 dy (join_moved now 0 dx w)
queue_step (clicks now button pressed) w =
    join (event now 1 button (if pressed then pos 1 else pos 0)) w
queue_step (scrolls now delta) w = join (event now 2 8 delta) w
queue_step (keys now keycode state) w = join (event now 1 keycode state) w
queue_step (syncs now) w = join (event now 0 0 (pos 0)) w
queue_step pops w = record w { events = tail_of w.events }

abbrev pub queue_run : List Call → Waiting → Waiting
queue_run [] w = w
queue_run (c ∷ cs) w = queue_run cs (queue_step c w)

-- A ring that stands for the queue.
pub record Stands (r : Evdev) (w : Waiting) : Type 0 where
  pub ring : IsRing r
  pub same : waiting r ≡ w

length-waiting : (r : Evdev) → length (waiting r).events ≡ r.count
unfolding waiting
length-waiting r = length-span 4096 r.ring_buffer r.tail r.count

pub push_event-Stands :
    (ev : InputEvent) (r : Evdev) → IsRing r → Stands (push_event ev r).1 (join ev (waiting r))
unfolding push_event waiting
push_event-Stands ev r i = elim (Bool-cases (leb 4096 r.count)) [
  | inl full ↦
      rw (length-span 4096 r.ring_buffer r.tail r.count, full)
        (record {
          ring = record { tail_in = i.tail_in; room = i.room; head_at = i.head_at };
          same = refl;
        })
  | inr free ↦
      let lt = leb→lt 4096 r.count free in
      let more : add32 r.count 1 ≡ suc r.count = omega (arith, lt) in
      rw (length-span 4096 r.ring_buffer r.tail r.count, free)
        (record {
          ring = record {
            tail_in = i.tail_in;
            room = omega (arith, lt);
            head_at = omega (arith, i.head_at);
          };
          same =
              ap
                (λ es. record {
                  events = es;
                  total = add64 r.total_events 1;
                  dropped = r.dropped_events;
                })
                (pushed lt more);
        })
]
  where
    pushed :
        r.count < 4096
        → add32 r.count 1 ≡ suc r.count
        → span 4096 (update r.ring_buffer r.head ev) r.tail (add32 r.count 1)
          ≡ span 4096 r.ring_buffer r.tail r.count ++ ev ∷ []
    pushed lt more = rw (more, i.head_at) (span-push 4096 r.ring_buffer r.tail r.count ev lt)

-- The oldest event, and the others.
first_of :
    (r : Evdev) (n : ℕ)
    → r.tail < 4096
    → r.count ≡ suc n
    → span 4096 r.ring_buffer r.tail r.count
      ≡ r.ring_buffer r.tail ∷ span 4096 r.ring_buffer (add32 r.tail 1 % 4096) n
first_of r n lt e =
    ap (λ m. span 4096 r.ring_buffer r.tail m) e
    ∙ span-suc 4096 r.ring_buffer r.tail n
    ∙ ap (λ t. r.ring_buffer t ∷ span 4096 r.ring_buffer (r.tail + 1) n) (mod-eq_of_lt lt)
    ∙ ap (λ es. r.ring_buffer r.tail ∷ es)
        (span-mod 4096 r.ring_buffer (r.tail + 1) (add32 r.tail 1 % 4096) n (omega arith))

pub pop_event-Stands :
    (r : Evdev)
    → IsRing r
    → ((pop_event r).0 ≡ head_of (waiting r).events)
      × Stands (pop_event r).1 (record (waiting r) { events = tail_of (waiting r).events })
unfolding pop_event waiting span
pop_event-Stands r i = elim (Bool-cases (r.count == 0)) [
  | inl z ↦
      let e : span 4096 r.ring_buffer r.tail r.count ≡ [] =
        ap (λ n. span 4096 r.ring_buffer r.tail n) (==→eq r.count 0 z) in
      rw (z) (
        sym (ap head_of e),
        record {
          ring = i;
          same =
              ap (λ es. record { events = es; total = r.total_events; dropped = r.dropped_events })
                (e ∙ sym (ap tail_of e));
        },
      )
  | inr nz ↦
      let e = first_of r (r.count - 1) i.tail_in (omega (arith, ==→ne r.count 0 nz)) in
      rw (nz) (
        sym (ap head_of e),
        record {
          ring = record {
            tail_in = omega arith;
            room = omega (arith, i.room);
            head_at = omega (arith, i.head_at, ==→ne r.count 0 nz);
          };
          same =
              ap (λ es. record { events = es; total = r.total_events; dropped = r.dropped_events })
                (sym (ap tail_of e));
        },
      )
]

push_step :
    (ev : InputEvent) (r : Evdev) (w : Waiting)
    → Stands r w
    → Stands (push_event ev r).1 (join ev w)
push_step ev r w s =
    subst (λ x. Stands (push_event ev r).1 (join ev x)) s.same (push_event-Stands ev r s.ring)

-- The axis of a motion that is not zero.
move_step :
    (now axis : ℕ) (d : ℤ) (r : Evdev) (w : Waiting)
    → Stands r w
    → Stands
        (if not (is_zero d) then (push_event (event now 2 axis d) r).1 else r)
        (join_moved now axis d w)
move_step now axis d r w s = elim (Bool-cases (is_zero d)) [
  | inl z ↦ rw (z) s
  | inr nz ↦ rw (nz) (push_step (event now 2 axis d) r w s)
]

step-Stands : (c : Call) (r : Evdev) (w : Waiting) → Stands r w → Stands (step c r) (queue_step c w)
unfolding push_relative_motion
step-Stands (pushes ev) r w s = push_step ev r w s
step-Stands (moves now dx dy) r w s =
    move_step now 1 dy _ (join_moved now 0 dx w) (move_step now 0 dx r w s)
step-Stands (clicks now button pressed) r w s = push_step _ r w s
step-Stands (scrolls now delta) r w s = push_step _ r w s
step-Stands (keys now keycode state) r w s = push_step _ r w s
step-Stands (syncs now) r w s = push_step _ r w s
step-Stands pops r w s =
    subst (λ (x : Waiting). Stands (pop_event r).1 (record x { events = tail_of x.events })) s.same
      (pop_event-Stands r s.ring).1

run-Stands :
    (cs : List Call) (r : Evdev) (w : Waiting) → Stands r w → Stands (run cs r) (queue_run cs w)
run-Stands [] r w s = s
run-Stands (c ∷ cs) r w s = run-Stands cs (step c r) (queue_step c w) (step-Stands c r w s)

abbrev pub nothing_waits : Waiting
nothing_waits = record { events = []; total = 0; dropped = 0 }

-- After any calls from `Init` on, what waits and the counters are those of a queue of at most 4096
-- events that drops what it has no room for, and `PopEvent` gives its oldest event.
pub calls_in_order :
    (ram : ℕ → InputEvent) (cs : List Call)
    → (waiting (run cs (init_evdev ram)) ≡ queue_run cs nothing_waits)
      × ((pop_event (run cs (init_evdev ram))).0 ≡ head_of (queue_run cs nothing_waits).events)
unfolding waiting span
calls_in_order ram cs =
    let s =
      run-Stands cs (init_evdev ram) nothing_waits (record { ring = omega arith; same = refl }) in
    (
      s.same,
      (pop_event-Stands (run cs (init_evdev ram)) s.ring).0
          ∙ ap (λ (x : Waiting). head_of x.events) s.same,
    )
