-- ===== src/Mmu/Frames.antt =====
-- `AllocateTable` over the allocator of pages.
use morphic_os_dev.Base.{
  true-ne-false, ℕ, ◌+◌, ◌*◌, ◌/◌, ◌^◌, ◌≤◌, ◌≡◌, ◌≢◌, inl, inr, Option, none, some, ◌==◌, update,
  Bool-cases, arith, ==→ne,
}
use morphic_os_dev.Pmm.{Pmm, limit, alloc_page}
use morphic_os_dev.Pmm.Page.{AllUsed, alloc_page-Outcome}
use morphic_os_dev.Pmm.Spec.{IsValid, Outcome, Takes, allocated, refused}
use morphic_os_dev.Mmu.{zero_entry, Mmu, masked, zeroed, allocate_table}
use morphic_os_dev.Mmu.Tree.{IsFreeAt}

-- The allocator gives no page more than before.
pub record Fewer (m : Mmu) (p : Pmm) : Type 0 where
  pub valid : IsValid p
  pub low : p.highest_addr ≤ 2 ^ 52
  pub fewer : (a : ℕ) → IsFreeAt p a → IsFreeAt m.pmm a

pub data TableOutcome (m : Mmu) : Option ℕ × Mmu → Type 0 where
  given :
      (n : ℕ) (p : Pmm)
      → Fewer m p
      → IsFreeAt m.pmm n
      → ¬ IsFreeAt p n
      → masked n ≡ n
      → n ≢ 0
      → TableOutcome m (some n, record m { pmm = p; tables = update m.tables n (λ i. zero_entry) })
  none_left : (p : Pmm) → Fewer m p → TableOutcome m (none, record m { pmm = p })

taken_page :
    (m : Mmu) (i : ℕ) (q : Pmm)
    → m.pmm.highest_addr ≤ 2 ^ 52
    → i + 1 ≤ limit m.pmm
    → Takes m.pmm q i 1
    → Fewer m q
      × IsFreeAt m.pmm (i * 4096)
      × (¬ IsFreeAt q (i * 4096))
      × (masked (i * 4096) ≡ i * 4096)
taken_page m i q low le t = (
  record {
    valid = t.valid;
    low = omega (arith, t.same_top, low);
    fewer = λ a f. (omega (arith, t.same_top, f.0), ground (arith, t.bits (a / 4096), f.1));
  },
  rw (page) (omega (arith, le), t.were_free i (omega arith) (omega arith)),
  (λ f. absurd (true-ne-false (ground (arith, t.bits i, rw (page) at f.1)))),
  omega (arith, le, low),
)
  where
    page : (i * 4096) / 4096 ≡ i
    page = omega arith

zeroed-TableOutcome :
    (m : Mmu) (r : Option ℕ × Pmm)
    → IsValid m.pmm
    → m.pmm.highest_addr ≤ 2 ^ 52
    → Outcome (AllUsed m.pmm) m.pmm 1 r
    → TableOutcome m (zeroed m r)
zeroed-TableOutcome m r v low (refused all) =
    none_left m.pmm (record { valid = v; low = low; fewer = λ a f. f })
zeroed-TableOutcome m r v low (allocated i q le t) =
    let (less, was_free, is_used, aligned) = taken_page m i q low le t in
    elim (Bool-cases (i * 4096 == 0)) [
      | inl z ↦ rw (z) (none_left q less)
      | inr nz ↦ rw (nz) (given (i * 4096) q less was_free is_used aligned (==→ne (i * 4096) 0 nz))
    ]

pub allocate_table-TableOutcome :
    (m : Mmu) → IsValid m.pmm → m.pmm.highest_addr ≤ 2 ^ 52 → TableOutcome m (allocate_table m)
unfolding allocate_table
allocate_table-TableOutcome m v low =
    zeroed-TableOutcome m (alloc_page m.pmm) v low (alloc_page-Outcome m.pmm v)
