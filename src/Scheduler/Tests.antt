-- ===== src/Scheduler/Tests.antt =====
-- Small rings of tasks on which the properties of the scheduler are applied.
use morphic_os_dev.Base.{ℕ, ◌*◌, ◌≡◌, refl, ◌⊎◌, none, some, List, [], ◌∷◌, ◌++◌, arith, length}
use morphic_os_dev.Scheduler.{
  Scheduler, Task, TaskState, ready, running, dead, Cut, OsEvent, new_task, no_event, wake,
  find_next, find_id, reap_from_head, reap_from_current, switch_to, choose, reap, reap_dead_tasks,
  schedule, enqueue, dequeue,
}
use morphic_os_dev.Scheduler.Reap.{here, there, Drops, reap_dead_tasks-Drops}
use morphic_os_dev.Scheduler.Wait.{goes_on, exits, sleeps, Served, runnable-Served}
use morphic_os_dev.Scheduler.Choice.{Chosen, IdleReady, idle_at, ids, choose-Chosen}
use morphic_os_dev.Scheduler.Queue.{QueueOk, pending, enqueue_lem, dequeue_lem}
use morphic_os_dev.Scheduler.Events.{EventCall, pushes, pops, run, deliver_in_order}

abbrev task : ℕ → TaskState → Task
task id state = record (new_task id 0 (id * 16384)) { state = state }

-- The main task runs, the idle task and two others stand behind it, one of them dead.
abbrev ring : Scheduler
ring = record {
  current = task 0 running;
  others = task 1 ready ∷ task 2 dead ∷ task 3 ready ∷ [];
  head_id = 0;
  idle_id = 1;
  next_task_id = 4;
  push_count = 0;
  pop_count = 0;
  drop_count = 0;
}

-- The dead task is gone after the first call.
reaped : ids (schedule 5 0 ring).1 ≡ 1 ∷ 3 ∷ 0 ∷ []
unfolding schedule choose find_next wake switch_to reap_dead_tasks reap_from_current reap_from_head
    reap find_id new_task
reaped = refl

abbrev idle_cut : Cut
idle_cut = record { before = []; task = task 1 ready; behind = task 2 dead ∷ task 3 ready ∷ [] }

ring-IdleReady : IdleReady ring
unfolding find_id new_task
ring-IdleReady = idle_at idle_cut refl refl

abbrev event : ℕ → OsEvent
event n = record no_event { kind = n }

fresh-QueueOk : QueueOk (task 0 running)
unfolding QueueOk new_task
fresh-QueueOk = (omega arith, omega arith)

runnable-Served_example : Served 3 ((goes_on, 1, 0) ∷ (exits, 2, 0) ∷ (sleeps 5, 3, 0) ∷ []) ring
unfolding new_task
runnable-Served_example =
    runnable-Served ((goes_on, 1, 0) ∷ (exits, 2, 0) ∷ (sleeps 5, 3, 0) ∷ []) ring (task 3 ready) 2
      refl (there (there here)) (omega arith)

reap_dead_tasks-Drops_example :
    Drops ring.others (reap_dead_tasks ring).0.others
    × ((reap_dead_tasks ring).0.current ≡ ring.current)
reap_dead_tasks-Drops_example = reap_dead_tasks-Drops ring

choose-Chosen_example : Chosen 5 ring (choose 5 ring)
choose-Chosen_example = choose-Chosen 5 ring ring-IdleReady

abbrev calls : List EventCall
calls = pushes (event 1) ∷ pushes (event 2) ∷ pops ∷ pushes (event 3) ∷ pops ∷ []

deliver_in_order_example :
    ((run calls (task 0 running)).given ++ pending (run calls (task 0 running)).after
      ≡ pending (task 0 running) ++ (run calls (task 0 running)).accepted)
    × QueueOk (run calls (task 0 running)).after
deliver_in_order_example = deliver_in_order calls (task 0 running) fresh-QueueOk

dequeue_lem_example :
    (dequeue (task 0 running) ≡ none) × (pending (task 0 running) ≡ [])
    ⊎ ((ev : OsEvent) × (t' : Task) × (dequeue (task 0 running) ≡ some (ev, t'))
        × (pending (task 0 running) ≡ ev ∷ pending t')
        × QueueOk t')
dequeue_lem_example = dequeue_lem (task 0 running) fresh-QueueOk

enqueue_lem_example :
    (enqueue (task 0 running) (event 1) ≡ none) × (length (pending (task 0 running)) ≡ 127)
    ⊎ ((t' : Task) × (enqueue (task 0 running) (event 1) ≡ some t')
        × (pending t' ≡ pending (task 0 running) ++ event 1 ∷ [])
        × QueueOk t')
enqueue_lem_example = enqueue_lem (task 0 running) fresh-QueueOk (event 1)
