-- ===== src/Scheduler.antt =====
-- kernel/process/scheduler.cpp: tasks in a circular list, round robin, sleeping, reaping and the
-- event queues. The list is kept from the current task on: `current`, then `others` in the order of
-- their `next` pointers, which lead back to `current`. Tasks are told apart by their ids, as the code
-- tells them apart by their addresses. Assembly, page tables and printing are left out; what the code
-- hands to other parts when it reaps a task is a `Release`.
mod Ring
mod Reaper
mod Create
mod Messages
pub mod Queue
pub mod Events
mod Tests
pub mod Reap
pub mod Wait
pub mod Choice
unfoldable pub use Ring.*
unfoldable pub use Reaper.*
unfoldable pub use Create.*
unfoldable pub use Messages.*
use morphic_os_dev.Base.{
  ℕ, zero, suc, ◌+◌, ◌-◌, ◌*◌, ◌%◌, ◌^◌, Bool, true, false, not, ◌&&◌, ◌||◌, Option, none, some,
  List, [], ◌∷◌, ◌++◌, ltb, leb, ◌==◌, if◌then◌else◌, update, length,
}

-- `Schedule`: the stack pointer is saved, the next task is chosen, and dead tasks are reaped. The
-- result is the stack pointer to switch to.
unfoldable pub schedule : ℕ → ℕ → Scheduler → ℕ × Scheduler × List Release
schedule now rsp s =
    let saved = record s { current = record (s.current) { stack_pointer = rsp } } in
    let (s', freed) = reap_dead_tasks (choose now saved) in (s'.current.stack_pointer, s', freed)

-- `Sleep` up to its `Yield`.
unfoldable pub sleep : ℕ → ℕ → Scheduler → Scheduler
sleep now ms s = record s {
  current = record (s.current) { wake_up_time = (now + ms) % 2 ^ 64; state = sleeping };
}

-- `Exit` up to its `Yield`; the main task does not exit.
unfoldable pub exit : Scheduler → Scheduler
exit s = if s.current.id == 0 then s else record s { current = record (s.current) { state = dead } }
