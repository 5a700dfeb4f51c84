-- ===== src/Scheduler/Reaper.antt =====
-- `ReapDeadTasks` of kernel/process/scheduler.cpp.
use morphic_os_dev.Base.{
  ℕ, zero, suc, ◌+◌, ◌-◌, Bool, not, ◌&&◌, Option, none, some, List, [], ◌∷◌, ◌++◌, ◌==◌,
  if◌then◌else◌, length,
}
use morphic_os_dev.Scheduler.Ring.{FileDescriptor, Task, Scheduler, is_dead, Cut, find_id}

-- What `ReapDeadTasks` hands back for one task: `VFS::Close` for its open nodes from descriptor 3 on,
-- `MMU::DestroyPageTable` (none for a table that is null or the head's), and `kfree` of its stack.
pub record Release : Type 0 where
  pub task_id : ℕ
  pub closed : List ℕ
  pub page_table : Option ℕ
  pub stack_base : Option ℕ

unfoldable pub close_all : List FileDescriptor → List ℕ
close_all [] = []
close_all (f ∷ fs) = if f.in_use && not (f.node == 0) then f.node ∷ close_all fs else close_all fs

abbrev pub from_third : List FileDescriptor → List FileDescriptor
from_third (a ∷ b ∷ c ∷ fs) = fs
from_third _ = []

unfoldable pub release : ℕ → Task → Release
unfolding close_all
release head_cr3 t = record {
  task_id = t.id;
  closed = close_all (from_third t.fd_table);
  page_table = if not (t.cr3 == 0) && not (t.cr3 == head_cr3) then some t.cr3 else none;
  stack_base = if t.kernel_stack_top == 0 then none else some (t.kernel_stack_top - 16384);
}

-- Dead, and neither the current task nor the idle one.
abbrev pub is_reapable : Scheduler → Task → Bool
is_reapable s t = is_dead t && not (t.id == s.current.id) && not (t.id == s.idle_id)

-- `while (curr != tasksHead && count < 64)` over the tasks behind the head: those that stay, and what
-- is released. `n` is the number of rounds that `count` leaves.
unfoldable pub reap : Scheduler → ℕ → ℕ → List Task → List Task × List Release
reap s head_cr3 zero ts = (ts, [])
reap s head_cr3 (suc n) [] = ([], [])
reap s head_cr3 (suc n) (t ∷ ts) =
    let (kept, freed) = reap s head_cr3 n ts in
    if is_reapable s t then (kept, release head_cr3 t ∷ freed) else (t ∷ kept, freed)

abbrev pub reap_rounds : ℕ
reap_rounds = 64

-- The ring behind the head, if the head is the current task.
unfoldable pub reap_from_current : Scheduler → Scheduler × List Release
reap_from_current s =
    let (kept, freed) = reap s s.current.cr3 reap_rounds s.others in
    (record s { others = kept }, freed)

-- The head stands further on: behind it lie `behind`, the current task and `before`. The current task
-- counts as one of the 64, and stays.
unfoldable pub reap_from_head : Scheduler → Cut → Scheduler × List Release
reap_from_head s c =
    let (behind, freed) = reap s (c.task.cr3) reap_rounds c.behind in
    let left = reap_rounds - (length c.behind + 1) in
    let (before, freed') = reap s (c.task.cr3) left c.before in
    (record s { others = before ++ c.task ∷ behind }, freed ++ freed')

unfoldable pub reap_dead_tasks : Scheduler → Scheduler × List Release
reap_dead_tasks s =
    if s.current.id == s.head_id
    then reap_from_current s
    else elim (find_id s.head_id s.others) [ some c ↦ reap_from_head s c | none ↦ (s, []) ]
