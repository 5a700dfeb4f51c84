-- ===== src/Scheduler/Ring.antt =====
-- kernel/process/scheduler.h and the search of `Schedule` in scheduler.cpp: the tasks in a ring, and
-- which of them runs next.
use morphic_os_dev.Base.{
  ℕ, Bool, true, false, ◌&&◌, Option, none, some, List, [], ◌∷◌, ◌++◌, leb, ◌==◌, if◌then◌else◌,
}

-- `enum class TaskState`.
pub data TaskState : Type 0 where
  ready running sleeping dead : TaskState

-- `OSEvent`, as bit patterns.
pub record OsEvent : Type 0 where
  pub kind : ℕ
  pub dx : ℕ
  pub dy : ℕ
  pub buttons : ℕ
  pub scancode : ℕ
  pub ascii : ℕ

-- A descriptor's node is a pointer, 0 where it is null.
pub record FileDescriptor : Type 0 where
  pub node : ℕ
  pub offset : ℕ
  pub flags : ℕ
  pub in_use : Bool

pub record Task : Type 0 where
  pub stack_pointer : ℕ
  pub id : ℕ
  pub state : TaskState
  pub cr3 : ℕ
  pub wake_up_time : ℕ
  pub kernel_stack_top : ℕ
  pub fd_table : List FileDescriptor
  pub event_queue : ℕ → OsEvent
  pub event_head : ℕ
  pub event_tail : ℕ

-- `tasksHead` and `idleTask` by id, and the counters.
pub record Scheduler : Type 0 where
  pub current : Task
  pub others : List Task
  pub head_id : ℕ
  pub idle_id : ℕ
  pub next_task_id : ℕ
  pub push_count : ℕ
  pub pop_count : ℕ
  pub drop_count : ℕ

abbrev pub is_sleeping : Task → Bool
is_sleeping t = elim t.state [ sleeping ↦ true | _ ↦ false ]

abbrev pub is_dead : Task → Bool
is_dead t = elim t.state [ dead ↦ true | _ ↦ false ]

abbrev pub is_runnable : Task → Bool
is_runnable t = elim t.state [ ready ↦ true | running ↦ true | _ ↦ false ]

-- The first body of the search loop: a sleeper whose time has come is made ready.
unfoldable pub wake : ℕ → Task → Task
wake now t = if is_sleeping t && leb t.wake_up_time now then record t { state = ready } else t

-- A ring cut at a task: the tasks before it, the task, and the tasks behind it.
pub record Cut : Type 0 where
  pub before : List Task
  pub task : Task
  pub behind : List Task

abbrev pub put_before : Task → Option Cut → Option Cut
put_before t none = none
put_before t (some c) = some (record c { before = t ∷ c.before })

-- `while (next != start)`: the first task behind the current one that can run now, woken if need be.
unfoldable pub find_next : ℕ → List Task → Option Cut
find_next now [] = none
find_next now (t ∷ ts) =
    let rest = put_before t (find_next now ts) in
    if is_runnable (wake now t)
    then some (record { before = []; task = wake now t; behind = ts })
    else rest

-- The place of a task in the ring.
unfoldable pub find_id : ℕ → List Task → Option Cut
find_id i [] = none
find_id i (t ∷ ts) =
    let rest = put_before t (find_id i ts) in
    if t.id == i then some (record { before = []; task = t; behind = ts }) else rest

-- `currentTask = next; currentTask->state = RUNNING;` where `next` is another task of the ring.
unfoldable pub switch_to : Scheduler → Cut → Scheduler
switch_to s c = record s {
  current = record (c.task) { state = running };
  others = c.behind ++ s.current ∷ c.before;
}

-- The same where `next` is the current task itself.
unfoldable pub stay : Scheduler → Scheduler
stay s = record s { current = record (s.current) { state = running } }

-- `next = idleTask` if there is one beside the current task, else the current task goes on.
unfoldable pub run_idle : Scheduler → Scheduler
run_idle s = elim (find_id s.idle_id s.others) [ some c ↦ switch_to s c | none ↦ stay s ]

-- No other task can run.
unfoldable pub no_other : ℕ → Scheduler → Scheduler
no_other now s =
    if is_sleeping s.current
    then (if leb s.current.wake_up_time now then stay s else run_idle s)
    else if is_dead s.current
    then run_idle s
    else stay s

-- `Schedule` up to the context switch, with the saved stack pointer of the current task.
unfoldable pub choose : ℕ → Scheduler → Scheduler
choose now s = elim (find_next now s.others) [ some c ↦ switch_to s c | none ↦ no_other now s ]
