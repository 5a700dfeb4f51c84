-- ===== src/Scheduler/Choice.antt =====
-- Which task is chosen, and what becomes of the ring.
use mathlib.Core.Path.{subst}
use mathlib.Core.List.{map}
use morphic_os_dev.Base.{
  ℕ, ◌≡◌, refl, ap, inl, inr, true, false, Option, none, some, List, [], ◌∷◌, ◌++◌, arith, leb,
  ◌==◌, ==→eq, sym, ◌∙◌, Bool, ◌&&◌, Bool-cases, Option-cases,
}
use morphic_os_dev.Scheduler.{
  Scheduler, Task, sleeping, dead, ready, running, Cut, is_sleeping, is_dead, is_runnable, wake,
  put_before, find_next, find_id, switch_to, stay, run_idle, no_other, choose,
}

-- The ids of the ring's tasks, from the current one on.
abbrev pub ids : Scheduler → List ℕ
ids s = map (λ (t : Task). t.id) (s.current ∷ s.others)

-- Whether a task can run at a time: not if it is dead, and not if it sleeps until later.
abbrev pub can_run : ℕ → Task → Bool
can_run now t = elim t.state [
  | ready ↦ true
  | running ↦ true
  | sleeping ↦ leb t.wake_up_time now
  | dead ↦ false
]

abbrev pub NoneRuns : ℕ → List Task → Type 0
NoneRuns now [] = Unit {0}
NoneRuns now (t ∷ ts) = (can_run now t ≡ false) × NoneRuns now ts

-- The ring of a scheduler, cut at another task.
pub record CutAt (s : Scheduler) (before : List Task) (t : Task) (behind : List Task) : Type 0 where
  pub joins : s.others ≡ before ++ t ∷ behind

-- That task made the current one; the others keep their order in the ring.
abbrev pub resumed : Scheduler → List Task → Task → List Task → Scheduler
resumed s before t behind = record s {
  current = record t { state = running };
  others = behind ++ s.current ∷ before;
}

-- The first other task of the ring that can run; or none can, and the current task goes on, or it is
-- dead or asleep, and the idle task runs.
pub data Chosen (now : ℕ) (s : Scheduler) : Scheduler → Type 0 where
  next :
      (before : List Task) (t : Task) (behind : List Task)
      → CutAt s before t behind
      → NoneRuns now before
      → can_run now t ≡ true
      → Chosen now s (resumed s before t behind)
  same :
      NoneRuns now s.others
      → can_run now s.current ≡ true
      → Chosen now s (record s { current = record (s.current) { state = running } })
  idle :
      (before : List Task) (t : Task) (behind : List Task)
      → CutAt s before t behind
      → NoneRuns now s.others
      → can_run now s.current ≡ false
      → t.id ≡ s.idle_id
      → is_dead t ≡ false
      → Chosen now s (resumed s before t behind)

-- The idle task can be switched to.
pub data IdleReady (s : Scheduler) : Type 0 where
  idle_at : (c : Cut) → find_id s.idle_id s.others ≡ some c → is_dead c.task ≡ false → IdleReady s

wake-can_run : (now : ℕ) (t : Task) → is_runnable (wake now t) ≡ can_run now t
unfolding wake
wake-can_run now t = ground arith

wake-running :
    (now : ℕ) (t : Task)
    → ◌≡◌ {A = Task} (record (wake now t) { state = running }) (record t { state = running })
unfolding wake
wake-running now t = elim (Bool-cases (is_sleeping t && leb t.wake_up_time now)) [
  | inl e ↦ rw e refl
  | inr e ↦ rw e refl
]

-- What the search from a list on comes to.
Next : ℕ → List Task → Option Cut → Type 0
Next now ts none = NoneRuns now ts
Next now ts (some c) =
    (t : Task) × (ts ≡ c.before ++ t ∷ c.behind)
    × (c.task ≡ wake now t)
    × NoneRuns now c.before
    × (can_run now t ≡ true)

put_before-Next :
    (now : ℕ) (t : Task) (ts : List Task) (o : Option Cut)
    → can_run now t ≡ false
    → Next now ts o
    → Next now (t ∷ ts) (put_before t o)
unfolding Next
put_before-Next now t ts none e n = (e, n)
put_before-Next now t ts (some c) e (u, joins, woken, none_before, can) =
    (u, ap (λ (l : List Task). t ∷ l) joins, woken, (e, none_before), can)

find_next-Next : (now : ℕ) (ts : List Task) → Next now ts (find_next now ts)
unfolding Next find_next
find_next-Next now [] = tt
find_next-Next now (t ∷ ts) = elim (Bool-cases (is_runnable (wake now t))) [
  | inl e ↦ rw e (t, refl, refl, tt, sym (wake-can_run now t) ∙ e)
  | inr e ↦ rw e (
      put_before-Next now t ts (find_next now ts) (sym (wake-can_run now t) ∙ e)
        (find_next-Next now ts))
]

-- What the search of an id comes to.
Named : ℕ → List Task → Option Cut → Type 0
Named i ts none = Unit {0}
Named i ts (some c) = (ts ≡ c.before ++ c.task ∷ c.behind) × (c.task.id ≡ i)

put_before-Named :
    (i : ℕ) (t : Task) (ts : List Task) (o : Option Cut)
    → Named i ts o
    → Named i (t ∷ ts) (put_before t o)
unfolding Named
put_before-Named i t ts none n = tt
put_before-Named i t ts (some c) (joins, n) = (ap (λ (l : List Task). t ∷ l) joins, n)

find_id-Named : (i : ℕ) (ts : List Task) → Named i ts (find_id i ts)
unfolding Named find_id
find_id-Named i [] = tt
find_id-Named i (t ∷ ts) = elim (Bool-cases (t.id == i)) [
  | inl e ↦ rw e (refl, ==→eq t.id i e)
  | inr e ↦ rw e (put_before-Named i t ts (find_id i ts) (find_id-Named i ts))
]

module _ (now : ℕ) (s : Scheduler) where
  run_idle-Chosen :
      NoneRuns now s.others
      → can_run now s.current ≡ false
      → IdleReady s
      → Chosen now s (run_idle s)
  unfolding run_idle switch_to Named
  run_idle-Chosen n f (idle_at c e h) =
      let (joins, named) = subst (Named s.idle_id s.others) e (find_id-Named s.idle_id s.others) in
      rw (e, run_idle) (idle c.before c.task c.behind (record { joins = joins }) n f named h)

  no_other-Chosen : NoneRuns now s.others → IdleReady s → Chosen now s (no_other now s)
  unfolding no_other stay
  no_other-Chosen n i = elim (Bool-cases (is_sleeping s.current)) [
    | inl e ↦ elim (Bool-cases (leb s.current.wake_up_time now)) [
      | inl f ↦ rw (e, f) (same n (ground arith))
      | inr f ↦ rw (e, f) (run_idle-Chosen n (ground arith) i)
    ]
    | inr e ↦ elim (Bool-cases (is_dead s.current)) [
      | inl f ↦ rw (e, f) (run_idle-Chosen n (ground arith) i)
      | inr f ↦ rw (e, f) (same n (ground arith))
    ]
  ]

  -- `Schedule` runs the first other task of the ring that can run at the time. If none can, the current
  -- task goes on unless it is dead or sleeps until later; then the idle task runs. The idle task is not
  -- dead and stands in the ring beside the current task.
  pub choose-Chosen : IdleReady s → Chosen now s (choose now s)
  unfolding choose Next switch_to
  choose-Chosen i = elim (Option-cases (find_next now s.others)) [
    | inl n ↦
        rw (n, choose)
          (no_other-Chosen (subst (Next now s.others) n (find_next-Next now s.others)) i)
    | inr (c, f) ↦
        let (t, joins, woken, none_before, can) =
          subst (Next now s.others) f (find_next-Next now s.others) in
        rw (f, choose)
          (subst
            (λ (u : Task).
              Chosen now s (record s { current = u; others = c.behind ++ s.current ∷ c.before }))
            (sym (ap (λ (u : Task). record u { state = running }) woken ∙ wake-running now t))
            (next c.before t c.behind (record { joins = joins }) none_before can))
  ]
