-- ===== src/Scheduler/Reap.antt =====
-- Which tasks reaping takes out of the ring.
use mathlib.Core.Path.{subst}
use morphic_os_dev.Base.{
  ℕ, zero, suc, ◌+◌, ◌-◌, ◌≡◌, refl, sym, ap, ◌∙◌, inl, inr, true, false, Option, none, some, List,
  [], ◌∷◌, ◌++◌, arith, ◌==◌, length, Bool-cases, Option-cases, true-ne-false,
}
use morphic_os_dev.Scheduler.{
  Scheduler, Task, Cut, is_dead, put_before, find_id, is_reapable, reap, reap_from_current,
  reap_from_head, reap_dead_tasks, reap_rounds,
}

-- The task stands in the list with at most `d` tasks before it.
pub data Within (t : Task) : ℕ → List Task → Type 0 where
  here : {d : ℕ} {ts : List Task} → Within t d (t ∷ ts)
  there : {d : ℕ} {u : Task} {ts : List Task} → Within t d ts → Within t (suc d) (u ∷ ts)

pub Within-suc : {t : Task} {d : ℕ} {ts : List Task} → Within t d ts → Within t (suc d) ts
Within-suc here = here
Within-suc (there w) = there (Within-suc w)

pub Within-append :
    {t : Task} {d : ℕ} {ts : List Task} (us : List Task) → Within t d ts → Within t d (ts ++ us)
Within-append us here = here
Within-append us (there w) = there (Within-append us w)

-- The second list is the first one without some of its dead tasks.
pub data Drops : List Task → List Task → Type 0 where
  done : Drops [] []
  keep : {t : Task} {ts us : List Task} → Drops ts us → Drops (t ∷ ts) (t ∷ us)
  drop : {t : Task} {ts us : List Task} → is_dead t ≡ true → Drops ts us → Drops (t ∷ ts) us

Drops-refl : (ts : List Task) → Drops ts ts
Drops-refl [] = done
Drops-refl (t ∷ ts) = keep (Drops-refl ts)

Drops-append : {ts us vs ws : List Task} → Drops ts us → Drops vs ws → Drops (ts ++ vs) (us ++ ws)
Drops-append done e = e
Drops-append (keep d) e = keep (Drops-append d e)
Drops-append (drop h d) e = drop h (Drops-append d e)

pub Within-Drops :
    {t : Task} {d : ℕ} {ts us : List Task}
    → is_dead t ≡ false
    → Drops ts us
    → Within t d ts
    → Within t d us
Within-Drops h done w = elim w [ ]
Within-Drops h (keep e) here = here
Within-Drops h (keep e) (there w) = there (Within-Drops h e w)
Within-Drops h (drop g e) here = absurd (true-ne-false (sym g ∙ h))
Within-Drops h (drop g e) (there w) = Within-suc (Within-Drops h e w)

reap-Drops : (s : Scheduler) (cr3 n : ℕ) (ts : List Task) → Drops ts (reap s cr3 n ts).0
unfolding reap
reap-Drops s cr3 zero ts = Drops-refl ts
reap-Drops s cr3 (suc n) [] = done
reap-Drops s cr3 (suc n) (t ∷ ts) = elim (Bool-cases (is_reapable s t)) [
  | inl e ↦ rw e (drop (ground arith) (reap-Drops s cr3 n ts))
  | inr e ↦ rw e (keep (reap-Drops s cr3 n ts))
]

-- A cut is the list in three parts.
abbrev pub Joins : Option Cut → List Task → Type 0
Joins none ts = Unit {0}
Joins (some c) ts = c.before ++ c.task ∷ c.behind ≡ ts

put_before-Joins :
    (t : Task) (o : Option Cut) (ts : List Task) → Joins o ts → Joins (put_before t o) (t ∷ ts)
put_before-Joins t none ts j = tt
put_before-Joins t (some c) ts j = ap (λ (l : List Task). t ∷ l) j

pub find_id-Joins : (i : ℕ) (ts : List Task) → Joins (find_id i ts) ts
unfolding find_id
find_id-Joins i [] = tt
find_id-Joins i (t ∷ ts) = elim (Bool-cases (t.id == i)) [
  | inl h ↦ rw h refl
  | inr h ↦ rw h (put_before-Joins t (find_id i ts) ts (find_id-Joins i ts))
]

reap_from_current-Drops :
    (s : Scheduler)
    → Drops s.others (reap_from_current s).0.others × ((reap_from_current s).0.current ≡ s.current)
unfolding reap_from_current
reap_from_current-Drops s = (reap-Drops s s.current.cr3 reap_rounds s.others, refl)

reap_from_head-Drops :
    (s : Scheduler) (c : Cut)
    → Joins (some c) s.others
    → Drops s.others (reap_from_head s c).0.others × ((reap_from_head s c).0.current ≡ s.current)
unfolding reap_from_head
reap_from_head-Drops s c j = (
  subst (λ ts. Drops ts (reap_from_head s c).0.others) j
      (Drops-append (reap-Drops s (c.task.cr3) (reap_rounds - (length c.behind + 1)) c.before)
        (keep (reap-Drops s (c.task.cr3) reap_rounds c.behind))),
  refl,
)

-- Reaping takes only dead tasks out of the ring, keeps the order of the others, and leaves the current
-- task alone.
pub reap_dead_tasks-Drops :
    (s : Scheduler)
    → Drops s.others (reap_dead_tasks s).0.others × ((reap_dead_tasks s).0.current ≡ s.current)
unfolding reap_dead_tasks
reap_dead_tasks-Drops s = elim (Bool-cases (s.current.id == s.head_id)) [
  | inl e ↦ rw e (reap_from_current-Drops s)
  | inr e ↦ elim (Option-cases (find_id s.head_id s.others)) [
    | inl n ↦ rw (e, n, reap_dead_tasks) (Drops-refl s.others, refl)
    | inr (c, f) ↦
        rw (e, f, reap_dead_tasks)
          (reap_from_head-Drops s c
            (subst (λ o. Joins o s.others) f (find_id-Joins s.head_id s.others)))
  ]
]
