-- ===== src/Scheduler/Messages.antt =====
-- `PushEventToTask` and `PopEventFromCurrentTask` of kernel/process/scheduler.cpp.
use morphic_os_dev.Base.{
  ℕ, ◌+◌, ◌%◌, ◌^◌, Bool, true, false, Option, none, some, ◌∷◌, ◌++◌, ◌==◌, if◌then◌else◌, update,
}
use morphic_os_dev.Scheduler.Ring.{OsEvent, Task, Scheduler, is_sleeping, find_id, ready}

abbrev pub event_queue_size : ℕ
event_queue_size = 128

-- The ring-buffer part of `PushEventToTask`; `none` is a full queue.
unfoldable pub enqueue : Task → OsEvent → Option Task
enqueue t ev =
    let next = (t.event_head + 1) % event_queue_size in
    if next == t.event_tail
    then none
    else some (record t { event_queue = update t.event_queue t.event_head ev; event_head = next })

-- A sleeper that is sent an event is made ready.
abbrev pub rouse : Task → Task
rouse t = if is_sleeping t then record t { state = ready } else t

-- `PushEventToTask`, once the task is found, with the place that the changed task goes to.
unfoldable pub deliver : Scheduler → Task → OsEvent → (Task → Scheduler) → Bool × Scheduler
deliver s t ev place = elim (enqueue t ev) [
  | none ↦ (false, record s { drop_count = (s.drop_count + 1) % 2 ^ 64 })
  | some t' ↦
      let q = place (rouse t') in (true, record q { push_count = (s.push_count + 1) % 2 ^ 64 })
]

-- `GetTaskById` goes round the ring; ids are unique, so it may start at the current task.
unfoldable pub push_event_to_task : ℕ → OsEvent → Scheduler → Bool × Scheduler
push_event_to_task id ev s =
    if s.current.id == id
    then deliver s s.current ev (λ t. record s { current = t })
    else elim (find_id id s.others) [
      | none ↦ (false, s)
      | some c ↦ deliver s c.task ev (λ t. record s { others = c.before ++ t ∷ c.behind })
    ]

-- The oldest event of a task's queue, and the task without it.
unfoldable pub dequeue : Task → Option (OsEvent × Task)
dequeue t =
    if t.event_head == t.event_tail
    then none
    else some (
      t.event_queue t.event_tail,
      record t { event_tail = (t.event_tail + 1) % event_queue_size },
    )

unfoldable pub pop_event_from_current_task : Scheduler → Option OsEvent × Scheduler
pop_event_from_current_task s = elim (dequeue s.current) [
  | none ↦ (none, s)
  | some (ev, t) ↦ (some ev, record s { current = t; pop_count = (s.pop_count + 1) % 2 ^ 64 })
]
