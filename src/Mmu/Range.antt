-- ===== src/Mmu/Range.antt =====
-- `MapRange`: the loop ends, and maps every page of the range.
use native.Mathlib.Nat.{mod-eq_of_lt}
use native.Mathlib.Decide.{dec_lt}
use morphic_os_dev.Base.{
  sym, ap, ◌∙◌, refl, ℕ, zero, suc, ◌+◌, ◌*◌, ◌/◌, ◌%◌, ◌^◌, ◌≤◌, ◌<◌, ◌≡◌, inl, inr, ◌≢◌, Bool,
  true, false, Option, some, [], ◌∷◌, if◌then◌else◌, ltb, Bool-cases, arith, ltb→lt, ltb→le, add64,
}
use morphic_os_dev.Mmu.{
  Mmu, masked, pml4_index, pdpt_index, pd_index, pt_index, page_entry, map_page, map_from,
  map_range,
}
use morphic_os_dev.Mmu.Tree.{leaf_from, leaf, page_of, IsTree}
use morphic_os_dev.Mmu.Mapping.{MapOutcome, mapped, not_mapped, map_page-MapOutcome}
use morphic_os_dev.Mmu.Replacing.{Replaced, leaf_reached}

-- What the loop may come to from `offset` on. It is never out of fuel.
pub data RangeOutcome (m : Mmu) (virt phys size flags offset : ℕ)
    : Option (Bool × Mmu) → Type 0 where
  all_mapped :
      (m' : Mmu)
      → IsTree m'
      → ((k : ℕ)
          → offset ≤ k
          → k < size
          → leaf m' (virt + k) ≡ some (page_entry (phys + k / 4096 * 4096) flags))
      → ((w : ℕ)
          → ((k : ℕ) → offset ≤ k → k < size → page_of w ≢ page_of (virt + k))
          → leaf m' w ≡ leaf m w)
      → RangeOutcome m virt phys size flags offset (some (true, m'))
  stopped : (m' : Mmu) → IsTree m' → RangeOutcome m virt phys size flags offset (some (false, m'))

leaf-page_of : (m : Mmu) (v w : ℕ) → page_of v ≡ page_of w → leaf m v ≡ leaf m w
leaf-page_of m v w e =
    let i4 : pml4_index v ≡ pml4_index w = omega (arith, e) in
    let i3 : pdpt_index v ≡ pdpt_index w = omega (arith, e) in
    let i2 : pd_index v ≡ pd_index w = omega (arith, e) in
    let i1 : pt_index v ≡ pt_index w = omega (arith, e) in
    ap (λ x. leaf_from m.tables (masked m.cr3) x)
      (ap (λ x. x ∷ pdpt_index v ∷ pd_index v ∷ pt_index v ∷ []) i4
        ∙ ap (λ x. pml4_index w ∷ x ∷ pd_index v ∷ pt_index v ∷ []) i3
        ∙ ap (λ x. pml4_index w ∷ pdpt_index w ∷ x ∷ pt_index v ∷ []) i2
        ∙ ap (λ x. pml4_index w ∷ pdpt_index w ∷ pd_index w ∷ x ∷ []) i1)

ge→ltb : (a b : ℕ) → b ≤ a → ltb a b ≡ false
ge→ltb a b h = ground arith

-- Whole pages: the virtual range has at most 2 ^ 48 bytes and does not go round, and the physical one
-- ends below 2 ^ 52.
module _ (virt phys size flags : ℕ) (whole_virt : virt % 4096 ≡ 0) (whole_phys : phys % 4096 ≡ 0)
    (virt_end : virt + size ≤ 2 ^ 64) (short : size ≤ 2 ^ 48)
    (phys_end : phys + size ≤ 2 ^ 52) where
  next_offset : (offset : ℕ) → offset < size → add64 offset 4096 ≡ offset + 4096
  next_offset offset lt = mod-eq_of_lt (omega (arith, lt, short))

  -- The rounds after one that mapped its page.
  after_page :
      (m m' : Mmu) (offset : ℕ) (r : Option (Bool × Mmu))
      → offset % 4096 ≡ 0
      → offset < size
      → Replaced m m' (virt + offset) (page_entry (phys + offset) flags)
      → RangeOutcome m' virt phys size flags (offset + 4096) r
      → RangeOutcome m virt phys size flags offset r
  after_page m m' offset r whole lt rep (stopped m'' tr) = stopped m'' tr
  after_page m m' offset r whole lt rep (all_mapped m'' tr maps others) =
      all_mapped m'' tr
        (λ k lo hi. elim (dec_lt k (offset + 4096)) [
          | no n ↦ maps k (omega arith) hi
          | yes y ↦
              let page : k / 4096 * 4096 ≡ offset = omega arith in
              others (virt + k)
                (λ j lo' hi' e. absurd (omega (arith, e, short, whole_virt, y, lo', hi')))
              ∙ leaf-page_of m' (virt + k) (virt + offset) (omega (arith, page, whole_virt))
              ∙ leaf_reached m' (virt + offset) rep.page_table _ rep.reached rep.entry
              ∙ ap (λ x. some (page_entry (phys + x) flags)) (sym page)
        ])
        (λ w out.
          others w (λ j lo hi. out j (omega arith) hi)
          ∙ rep.others w (λ e. out offset (omega arith) lt e))

  after_call :
      (m : Mmu) (offset : ℕ) (r : Bool × Mmu) (rest : Mmu → Option (Bool × Mmu))
      → offset % 4096 ≡ 0
      → offset < size
      → MapOutcome m (virt + offset) (phys + offset) flags r
      → ((m' : Mmu) → IsTree m' → RangeOutcome m' virt phys size flags (offset + 4096) (rest m'))
      → RangeOutcome m virt phys size flags offset (if r.0 then rest r.1 else some (false, r.1))
  after_call m offset r rest whole lt (mapped m' rep on) h =
      after_page m m' offset (rest m') whole lt rep (h m' rep.is_tree)
  after_call m offset r rest whole lt (not_mapped m' kept) h = stopped m' kept.is_tree

  nothing_left :
      (m : Mmu) (offset : ℕ)
      → IsTree m
      → size ≤ offset
      → RangeOutcome m virt phys size flags offset (some (true, m))
  nothing_left m offset tr le =
      all_mapped m tr (λ k lo hi. absurd (omega (arith, le, lo, hi))) (λ w out. refl)

  from_offset :
      (fuel offset : ℕ) (m : Mmu)
      → IsTree m
      → offset % 4096 ≡ 0
      → size ≤ offset + fuel * 4096
      → RangeOutcome m virt phys size flags offset (map_from fuel virt phys size flags offset m)
  unfolding map_from
  from_offset zero offset m tr whole enough =
      rw (ge→ltb offset size (omega arith)) (nothing_left m offset tr (omega arith))
  from_offset (suc fuel) offset m tr whole enough = elim (Bool-cases (ltb offset size)) [
    | inr done ↦ rw (done) (nothing_left m offset tr (ltb→le offset size done))
    | inl more ↦
        let lt = ltb→lt offset size more in
        let v : add64 virt offset ≡ virt + offset = mod-eq_of_lt (omega (arith, lt, virt_end)) in
        let p : add64 phys offset ≡ phys + offset = mod-eq_of_lt (omega (arith, lt, phys_end)) in
        let o = next_offset offset lt in
        rw (more, v, p, o)
          (after_call m offset (map_page (virt + offset) (phys + offset) flags m)
            (λ m'. map_from fuel virt phys size flags (offset + 4096) m') whole lt
            (map_page-MapOutcome (virt + offset) (phys + offset) flags m tr)
            (λ m' tr'. from_offset fuel (offset + 4096) m' tr' (omega arith) (omega arith)))
  ]

  -- In page tables that are a tree, with fuel for each page, `MapRange` ends and leaves a tree; if it
  -- returns true, every address of the range is mapped to the address at the same offset, and all others
  -- are as before. The range is one of whole pages, has at most 2 ^ 48 bytes, does not go round at 2 ^ 64,
  -- and ends at 2 ^ 52 or below in physical memory.
  pub map_range-RangeOutcome :
      (fuel : ℕ) (m : Mmu)
      → IsTree m
      → size ≤ fuel * 4096
      → RangeOutcome m virt phys size flags 0 (map_range fuel virt phys size flags m)
  map_range-RangeOutcome fuel m tr enough = from_offset fuel 0 m tr (omega arith) (omega arith)
