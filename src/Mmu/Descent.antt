-- ===== src/Mmu/Descent.antt =====
-- The step of `MapPage` from a table to the next one, on all of its branches.
use morphic_os_dev.Base.{
  refl, ℕ, ◌<◌, ◌≡◌, inl, inr, Bool, true, false, ◌&&◌, Option, some, List, length, update,
  Bool-cases,
}
use morphic_os_dev.Pmm.{Pmm}
use morphic_os_dev.Mmu.{
  zero_entry, Mmu, masked, enter, write, allocate_table, directory_entry, permit, Step, descended,
  out_of_memory, collision, descend,
}
use morphic_os_dev.Mmu.Tree.{walk, IsTree}
use morphic_os_dev.Mmu.Frames.{Fewer, TableOutcome, given, none_left, allocate_table-TableOutcome}
use morphic_os_dev.Mmu.Permitting.{Descended, permitted}
use morphic_os_dev.Mmu.Opening.{entered}

pub data StepOutcome (m : Mmu) (i : ℕ) (p : List ℕ) : Step × Mmu → Type 0 where
  went : (n : ℕ) (m' : Mmu) → Descended m m' i n p → StepOutcome m i p (descended n, m')
  no_page : (q : Pmm) → Fewer m q → StepOutcome m i p (out_of_memory, record m { pmm = q })
  huge_page : StepOutcome m i p (collision, m)

not_huge :
    (check huge : Bool) → (check && huge) ≡ false → (check ≡ false → huge ≡ false) → huge ≡ false
not_huge true huge e h = e
not_huge false huge e h = h refl

-- The entry `i` of the table `a`, that is reached by `p` and is not one of the last level.
module _ (m : Mmu) (tr : IsTree m) (a i : ℕ) (p : List ℕ) (short : length p < 3)
    (at : walk m.tables (masked m.cr3) p ≡ some a) where
  enter-StepOutcome :
      (r : Option ℕ × Mmu)
      → (m.tables a i).present ≡ false
      → TableOutcome m r
      → StepOutcome m i p (enter a i r)
  enter-StepOutcome r absent (given n q less was_free is_used aligned nz) =
      went n
        (record m {
          pmm = q;
          tables = write (update m.tables n (λ k. zero_entry)) a i (directory_entry n);
        })
        (entered m tr a i p short at n q less was_free is_used aligned nz absent)
  enter-StepOutcome r absent (none_left q less) = no_page q less

  -- A huge page is met only where the code looks for one.
  pub descend-StepOutcome :
      (check : Bool) (flags : ℕ)
      → (check ≡ false → (m.tables a i).huge ≡ false)
      → StepOutcome m i p (descend check flags a i m)
  unfolding descend
  descend-StepOutcome check flags h = elim (Bool-cases (m.tables a i).present) [
    | inr off ↦
        rw (off)
          (enter-StepOutcome (allocate_table m) off (allocate_table-TableOutcome m tr.valid tr.low))
    | inl on ↦ elim (Bool-cases (check && (m.tables a i).huge)) [
      | inl big ↦ rw (on, big) huge_page
      | inr e ↦
          let small = not_huge check (m.tables a i).huge e h in
          rw (on, e)
            (went (m.tables a i).address
              (record m { tables = write m.tables a i (permit flags (m.tables a i)) })
              (permitted m tr a i p short at (permit flags (m.tables a i)) (m.tables a i).address
                (rw (on, small) refl) (rw (small) refl)))
    ]
  ]
