-- ===== src/Scheduler/Events.antt =====
-- Events of a task over time: `PushEventToTask` and `PopEventFromCurrentTask` in any order.
use morphic_os_dev.Base.{
  ◌≡◌, sym, ap, ◌∙◌, inl, inr, none, some, List, [], ◌∷◌, ◌++◌, append_assoc, append-nil,
}
use morphic_os_dev.Scheduler.{OsEvent, Task, enqueue, dequeue}
use morphic_os_dev.Scheduler.Queue.{QueueOk, pending, enqueue_lem, dequeue_lem}

pub data EventCall : Type 0 where
  pushes : OsEvent → EventCall
  pops : EventCall

-- The events that a history of calls accepts, those that it gives out, and the task after it.
pub record Traffic : Type 0 where
  pub accepted : List OsEvent
  pub given : List OsEvent
  pub after : Task

unfoldable pub step : EventCall → Task → Traffic
step (pushes ev) t = elim (enqueue t ev) [
  | none ↦ record { accepted = []; given = []; after = t }
  | some t' ↦ record { accepted = ev ∷ []; given = []; after = t' }
]
step pops t = elim (dequeue t) [
  | none ↦ record { accepted = []; given = []; after = t }
  | some (ev, t') ↦ record { accepted = []; given = ev ∷ []; after = t' }
]

unfoldable pub run : List EventCall → Task → Traffic
unfolding step
run [] t = record { accepted = []; given = []; after = t }
run (c ∷ cs) t =
    let first = step c t in
    let rest = run cs first.after in
    record {
      accepted = first.accepted ++ rest.accepted;
      given = first.given ++ rest.given;
      after = rest.after;
    }

step_in_order :
    (c : EventCall) (t : Task)
    → QueueOk t
    → ((step c t).given ++ pending (step c t).after ≡ pending t ++ (step c t).accepted)
      × QueueOk (step c t).after
unfolding step
step_in_order (pushes ev) t ok = elim (enqueue_lem t ok ev) [
  | inl (e, f) ↦ rw (e, step) (sym (append-nil (pending t)), ok)
  | inr (t', e, p, ok') ↦ rw (e, step) (p, ok')
]
step_in_order pops t ok = elim (dequeue_lem t ok) [
  | inl (e, f) ↦ rw (e, step) (sym (append-nil (pending t)), ok)
  | inr (ev, t', e, p, ok') ↦ rw (e, step) (sym p ∙ sym (append-nil (pending t)), ok')
]

-- Two ways of reading four pieces put together.
regroup :
    (g h p q r a b : List OsEvent)
    → g ++ q ≡ p ++ a
    → h ++ r ≡ q ++ b
    → (g ++ h) ++ r ≡ p ++ (a ++ b)
regroup g h p q r a b e f =
    append_assoc g h r
    ∙ ap (λ (l : List OsEvent). g ++ l) f
    ∙ sym (append_assoc g q b)
    ∙ ap (λ (l : List OsEvent). l ++ b) e
    ∙ append_assoc p a b

-- Events are neither lost, doubled nor reordered: from ends within the queue, whatever pushes and pops
-- follow one another, the events that a task was given and then those that still wait are the ones
-- that waited at first and then those that were accepted, and the ends are within the queue again.
pub deliver_in_order :
    (cs : List EventCall) (t : Task)
    → QueueOk t
    → ((run cs t).given ++ pending (run cs t).after ≡ pending t ++ (run cs t).accepted)
      × QueueOk (run cs t).after
unfolding run
deliver_in_order [] t ok = (sym (append-nil (pending t)), ok)
deliver_in_order (c ∷ cs) t ok =
    let (e, ok') = step_in_order c t ok in
    let (f, ok'') = deliver_in_order cs (step c t).after ok' in
    (
      regroup (step c t).given (run cs (step c t).after).given (pending t)
          (pending (step c t).after) (pending (run cs (step c t).after).after) (step c t).accepted
          (run cs (step c t).after).accepted e f,
      ok'',
    )
