-- ===== src/Scheduler/Queue.antt =====
-- The event queue of a task: a ring of 128 cells that holds at most 127 events, as a list.
use native.Mathlib.Nat.{mod-eq_of_lt}
use morphic_os_dev.Base.{
  ℕ, suc, ◌+◌, ◌-◌, ◌%◌, ◌<◌, ◌≡◌, refl, sym, ap, ◌∙◌, ◌≢◌, ◌⊎◌, inl, inr, none, some, List, [],
  ◌∷◌, ◌++◌, arith, ◌==◌, update, length, Bool-cases,
}
use morphic_os_dev.Base.Span.{span, span-push, span-suc, span-mod, length-span}
use morphic_os_dev.Scheduler.{OsEvent, Task, enqueue, dequeue}

-- Both ends are indices of the queue.
unfoldable pub QueueOk : Task → Type 0
QueueOk t = (t.event_head < 128) × (t.event_tail < 128)

-- The number of events that wait.
unfoldable pub waiting : Task → ℕ
waiting t = (t.event_head + 128 - t.event_tail) % 128

-- The events that wait, the oldest first.
unfoldable pub pending : Task → List OsEvent
unfolding span waiting
pending t = span 128 t.event_queue t.event_tail (waiting t)

module _ (t : Task) (ok : QueueOk t) where
  waiting_head : (t.event_tail + waiting t) % 128 ≡ t.event_head
  unfolding waiting QueueOk
  waiting_head = ground arith

  waiting_less : waiting t < 128
  unfolding waiting
  waiting_less = ground arith

  waiting_full : (t.event_head + 1) % 128 ≡ t.event_tail → waiting t ≡ 127
  unfolding waiting QueueOk
  waiting_full e = ground arith

  waiting_pushed :
      (t.event_head + 1) % 128 ≢ t.event_tail
      → ((t.event_head + 1) % 128 + 128 - t.event_tail) % 128 ≡ suc (waiting t)
  unfolding waiting QueueOk
  waiting_pushed ne = ground arith

  waiting_none : t.event_head ≡ t.event_tail → waiting t ≡ 0
  unfolding waiting QueueOk
  waiting_none e = ground arith

  waiting_popped :
      t.event_head ≢ t.event_tail
      → waiting t ≡ suc ((t.event_head + 128 - (t.event_tail + 1) % 128) % 128)
  unfolding waiting QueueOk
  waiting_popped ne = ground arith

  pushed :
      (ev : OsEvent)
      → (t.event_head + 1) % 128 ≢ t.event_tail
      → span 128
          (update t.event_queue t.event_head ev)
          t.event_tail
          (((t.event_head + 1) % 128 + 128 - t.event_tail) % 128)
        ≡ span 128 t.event_queue t.event_tail (waiting t) ++ ev ∷ []
  pushed ev ne = rw (waiting_pushed ne) (
      ap (λ (i : ℕ). span 128 (update t.event_queue i ev) t.event_tail (suc (waiting t)))
        (sym waiting_head)
      ∙ span-push 128 t.event_queue t.event_tail (waiting t) ev waiting_less)

  popped :
      t.event_head ≢ t.event_tail
      → span 128 t.event_queue t.event_tail (waiting t)
        ≡ t.event_queue t.event_tail
          ∷ span 128 t.event_queue
              ((t.event_tail + 1) % 128)
              ((t.event_head + 128 - (t.event_tail + 1) % 128) % 128)
  unfolding QueueOk
  popped ne =
      rw
        (
          waiting_popped ne,
          span-suc 128 t.event_queue t.event_tail
              ((t.event_head + 128 - (t.event_tail + 1) % 128) % 128),
          mod-eq_of_lt ok.1,
        )
        (ap (λ (l : List OsEvent). t.event_queue t.event_tail ∷ l)
          (span-mod 128 t.event_queue (t.event_tail + 1) ((t.event_tail + 1) % 128)
            ((t.event_head + 128 - (t.event_tail + 1) % 128) % 128) (omega arith)))

  -- A task's queue refuses an event exactly if 127 events wait; else the event is put behind those that
  -- wait.
  pub enqueue_lem :
      (ev : OsEvent)
      → (enqueue t ev ≡ none) × (length (pending t) ≡ 127)
        ⊎ ((t' : Task) × (enqueue t ev ≡ some t')
            × (pending t' ≡ pending t ++ ev ∷ [])
            × QueueOk t')
  unfolding enqueue pending QueueOk waiting
  enqueue_lem ev = elim (Bool-cases ((t.event_head + 1) % 128 == t.event_tail)) [
    | inl e ↦ rw e (
        inl (
          refl,
          length-span 128 t.event_queue t.event_tail (waiting t) ∙ waiting_full (ground arith),
        ))
    | inr e ↦ rw e (inr (_, refl, pushed ev (ground arith), (omega arith, ok.1)))
  ]

  -- A task's queue gives out the oldest event that waits, or none if none waits.
  pub dequeue_lem :
      (dequeue t ≡ none) × (pending t ≡ [])
      ⊎ ((ev : OsEvent) × (t' : Task) × (dequeue t ≡ some (ev, t'))
          × (pending t ≡ ev ∷ pending t')
          × QueueOk t')
  unfolding dequeue pending QueueOk waiting
  dequeue_lem = elim (Bool-cases (t.event_head == t.event_tail)) [
    | inl e ↦ rw e (inl (refl, rw (waiting_none (ground arith)) refl))
    | inr e ↦ rw e (inr (_, _, refl, popped (ground arith), (ok.0, omega arith)))
  ]
