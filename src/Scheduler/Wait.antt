-- ===== src/Scheduler/Wait.antt =====
-- Round robin: how long a task that can run has to wait.
use mathlib.Core.Path.{subst}
use morphic_os_dev.Base.{
  ℕ, suc, ◌<◌, ◌≡◌, refl, sym, ap, ◌∙◌, ◌≢◌, ◌⊎◌, inl, inr, true, Option, none, some, List, [], ◌∷◌,
  arith, length, Bool-cases, Option-cases, some-eq,
}
use morphic_os_dev.Scheduler.{
  Scheduler, Task, Cut, is_runnable, wake, put_before, find_next, switch_to, choose,
  reap_dead_tasks, schedule, sleep, exit,
}
use morphic_os_dev.Scheduler.Reap.{
  Within, here, there, Within-suc, Within-append, Within-Drops, reap_dead_tasks-Drops,
}

-- The search behind the current task reaches a task that can run, or one before it.
Reached : Task → ℕ → Option Cut → Type 0
Reached t d none = ⊥
Reached t d (some c) = (c.task.id ≡ t.id) ⊎ ((n : ℕ) × (d ≡ suc n) × Within t n c.behind)

put_before-Reached :
    (t u : Task) (d : ℕ) (o : Option Cut) → Reached t d o → Reached t (suc d) (put_before u o)
unfolding Reached
put_before-Reached t u d none r = absurd r
put_before-Reached t u d (some c) (inl same) = inl same
put_before-Reached t u d (some c) (inr (n, e, w)) =
    inr (d, refl, subst (λ k. Within t k c.behind) (sym e) (Within-suc w))

wake-runnable :
    (now : ℕ) (t : Task)
    → is_runnable t ≡ true
    → (is_runnable (wake now t) ≡ true) × ((wake now t).id ≡ t.id)
unfolding wake
wake-runnable now t h = ground arith

find_next-Reached :
    (now : ℕ) {t : Task} {d : ℕ} {ts : List Task}
    → is_runnable t ≡ true
    → Within t d ts
    → Reached t d (find_next now ts)
unfolding find_next Reached
find_next-Reached now {t} h (here {d} {ts}) =
    let (r, same) = wake-runnable now t h in rw r (inl same)
find_next-Reached now {t} h (there {d} {u} {ts} w) = elim (Bool-cases (is_runnable (wake now u))) [
  | inl e ↦ rw e (inr (d, refl, w))
  | inr e ↦ rw e (put_before-Reached t u d (find_next now ts) (find_next-Reached now h w))
]

-- The current task is the awaited one, or the awaited one has come nearer.
abbrev pub Nearer : Task → ℕ → Scheduler → Type 0
Nearer t d s = (s.current.id ≡ t.id) ⊎ ((n : ℕ) × (d ≡ suc n) × Within t n s.others)

switched-Nearer :
    (s : Scheduler) (t : Task) (d : ℕ) (o : Option Cut)
    → Reached t d o
    → (c : Cut) → o ≡ some c
    → Nearer t d (switch_to s c)
unfolding Reached switch_to
switched-Nearer s t d none r c e = absurd r
switched-Nearer s t d (some b) (inl same) c e =
    inl (ap (λ (k : Cut). k.task.id) (sym (some-eq e)) ∙ same)
switched-Nearer s t d (some b) (inr (n, f, w)) c e =
    inr
      (n, f, Within-append (s.current ∷ c.before) (subst (λ k. Within t n k.behind) (some-eq e) w))

something_found : (t : Task) (d : ℕ) (o : Option Cut) → Reached t d o → o ≢ none
unfolding Reached
something_found t d none r e = r
something_found t d (some c) r e = cc

choose-Nearer :
    (now : ℕ) (s : Scheduler) (t : Task) (d : ℕ)
    → is_runnable t ≡ true
    → Within t d s.others
    → Nearer t d (choose now s)
unfolding choose
choose-Nearer now s t d h w = elim (Option-cases (find_next now s.others)) [
  | inl n ↦ absurd (something_found t d (find_next now s.others) (find_next-Reached now h w) n)
  | inr (c, f) ↦
      rw (f, choose)
        (switched-Nearer s t d (find_next now s.others) (find_next-Reached now h w) c f)
]

-- `Schedule` runs the awaited task, or brings it nearer.
pub schedule-Nearer :
    (now rsp : ℕ) (s : Scheduler) (t : Task) (d : ℕ)
    → is_runnable t ≡ true
    → Within t d s.others
    → Nearer t d (schedule now rsp s).1
unfolding schedule
schedule-Nearer now rsp s t d h w = after (choose-Nearer now saved t d h w)
  where
    saved : Scheduler
    saved = record s { current = record (s.current) { stack_pointer = rsp } }

    after : Nearer t d (choose now saved) → Nearer t d (reap_dead_tasks (choose now saved)).0
    after (inl same) =
        inl (ap (λ (k : Task). k.id) (reap_dead_tasks-Drops (choose now saved)).1 ∙ same)
    after (inr (n, e, v)) =
        inr (n, e, Within-Drops (ground arith) (reap_dead_tasks-Drops (choose now saved)).0 v)

-- What the current task does before the timer calls `Schedule`.
pub data Turn : Type 0 where
  goes_on exits : Turn
  sleeps : ℕ → Turn

unfoldable pub act : Turn → ℕ → Scheduler → Scheduler
act goes_on now s = s
act exits now s = exit s
act (sleeps ms) now s = sleep now ms s

-- One of the next calls of `Schedule`, at these times, runs the task of this id.
unfoldable pub Served : ℕ → List (Turn × ℕ × ℕ) → Scheduler → Type 0
Served id [] s = ⊥
Served id ((turn, now, rsp) ∷ rest) s =
    let s' = (schedule now rsp (act turn now s)).1 in (s'.current.id ≡ id) ⊎ Served id rest s'

act-others : (turn : Turn) (now : ℕ) (s : Scheduler) → (act turn now s).others ≡ s.others
unfolding act exit sleep
act-others goes_on now s = refl
act-others exits now s = ground arith
act-others (sleeps ms) now s = refl

-- Bounded waiting: a task that can run, with at most `d` tasks before it in the ring, runs within the
-- next d + 1 calls of `Schedule`, whatever the tasks that run before it do.
pub runnable-Served :
    (turns : List (Turn × ℕ × ℕ)) (s : Scheduler) (t : Task) (d : ℕ)
    → is_runnable t ≡ true
    → Within t d s.others
    → d < length turns
    → Served t.id turns s
unfolding Served
runnable-Served [] s t d h w lt = absurd (omega arith)
runnable-Served ((turn, now, rsp) ∷ rest) s t d h w lt =
    let s' = (schedule now rsp (act turn now s)).1 in
    elim (schedule-Nearer now rsp (act turn now s) t d h
      (subst (Within t d) (sym (act-others turn now s)) w)) [
        | inl same ↦ inl same
        | inr (n, e, v) ↦ inr (runnable-Served rest s' t n h v (omega arith))
      ]
