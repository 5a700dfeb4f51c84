-- ===== src/Scheduler/Create.antt =====
-- `Init`, `CreateTask` and `CreateUserTask` of kernel/process/scheduler.cpp.
use morphic_os_dev.Base.{
  ℕ, zero, suc, ◌+◌, ◌-◌, ◌%◌, ◌^◌, Bool, true, false, Option, none, some, List, [], ◌∷◌, ◌++◌,
  ◌==◌, if◌then◌else◌,
}
use morphic_os_dev.Scheduler.Ring.{
  OsEvent, FileDescriptor, Task, Scheduler, find_id, ready, running,
}

-- `newTask->next = tasksHead->next; tasksHead->next = newTask;`
unfoldable pub insert : Task → Scheduler → Scheduler
insert t s =
    if s.current.id == s.head_id
    then record s { others = t ∷ s.others }
    else elim (find_id s.head_id s.others) [
      | some c ↦ record s { others = c.before ++ c.task ∷ t ∷ c.behind }
      | none ↦ s
    ]

abbrev pub standard_fd : FileDescriptor
standard_fd = record { node = 0; offset = 0; flags = 0; in_use = true }

abbrev pub free_fd : FileDescriptor
free_fd = record { node = 0; offset = 0; flags = 0; in_use = false }

unfoldable pub replicate : ℕ → FileDescriptor → List FileDescriptor
replicate zero f = []
replicate (suc n) f = f ∷ replicate n f

abbrev pub no_event : OsEvent
no_event = record { kind = 0; dx = 0; dy = 0; buttons = 0; scancode = 0; ascii = 0 }

-- `sizeof(StackFrame)`: 22 registers of 8 bytes.
abbrev pub frame_size : ℕ
frame_size = 176

-- A task as `CreateTask` and `CreateUserTask` fill it in, zeroed but for these fields.
unfoldable pub new_task : ℕ → ℕ → ℕ → Task
unfolding replicate
new_task id cr3 stack = record {
  stack_pointer = stack + 16384 - frame_size;
  id = id;
  state = ready;
  cr3 = cr3;
  wake_up_time = 0;
  kernel_stack_top = stack + 16384;
  fd_table = standard_fd ∷ standard_fd ∷ standard_fd ∷ replicate 29 free_fd;
  event_queue = λ i. no_event;
  event_head = 0;
  event_tail = 0;
}

-- `CreateTask` with the page table that is loaded, and `CreateUserTask` with the one it is given.
-- `kmalloc` is asked for the task, and then for its stack; an id is used up also where the stack fails.
unfoldable pub create_task : Bool → Option ℕ → ℕ → Scheduler → Scheduler
create_task false stack cr3 s = s
create_task true none cr3 s = record s { next_task_id = (s.next_task_id + 1) % 2 ^ 64 }
create_task true (some stack) cr3 s =
    insert (new_task s.next_task_id cr3 stack)
      (record s { next_task_id = (s.next_task_id + 1) % 2 ^ 64 })

unfoldable pub mark_standard : List FileDescriptor → List FileDescriptor
mark_standard (a ∷ b ∷ c ∷ fs) =
    record a { in_use = true } ∷ record b { in_use = true } ∷ record c { in_use = true } ∷ fs
mark_standard fs = fs

-- The main task: the memory that `kmalloc` gave, `found`, is not zeroed.
unfoldable pub main_task : Task → ℕ → ℕ → Task
unfolding mark_standard
main_task found cr3 boot_stack = record found {
  id = 0;
  stack_pointer = 0;
  event_head = 0;
  event_tail = 0;
  cr3 = cr3;
  kernel_stack_top = boot_stack;
  state = running;
  fd_table = mark_standard found.fd_table;
}

-- `idleTask = tasksHead->next`, which is the main task itself if no idle task could be made.
unfoldable pub set_idle : Scheduler → Scheduler
set_idle s = elim s.others [
  | t ∷ ts ↦ record s { idle_id = t.id; others = record t { state = ready } ∷ ts }
  | [] ↦ record s { idle_id = s.current.id; current = record (s.current) { state = ready } }
]

-- `Init`, with what `kmalloc` answers for the idle task and its stack.
unfoldable pub init : Task → ℕ → ℕ → Bool → Option ℕ → Scheduler
init found cr3 boot_stack task_given stack = set_idle (
    create_task task_given stack cr3 (record {
      current = main_task found cr3 boot_stack;
      others = [];
      head_id = 0;
      idle_id = 0;
      next_task_id = 1;
      push_count = 0;
      pop_count = 0;
      drop_count = 0;
    }))
