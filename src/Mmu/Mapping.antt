-- ===== src/Mmu/Mapping.antt =====
-- What `MapPage` does to the map of addresses.
use morphic_os_dev.Base.{
  true-ne-false, ◌∙◌, refl, ℕ, ◌≡◌, inl, inr, Bool, true, false, [], ◌∷◌, ◌==◌, Bool-cases, arith,
}
use morphic_os_dev.Pmm.{Pmm}
use morphic_os_dev.Mmu.{
  Mmu, masked, pml4_index, pdpt_index, pd_index, page_entry, Step, descended, descend, map_in_pt,
  map_in_pd, map_in_pdpt, map_page,
}
use morphic_os_dev.Mmu.Tree.{walk, indices, IsTree}
use morphic_os_dev.Mmu.Frames.{Fewer}
use morphic_os_dev.Mmu.Permitting.{Kept}
use morphic_os_dev.Mmu.Descent.{StepOutcome, went, no_page, huge_page, descend-StepOutcome}
use morphic_os_dev.Mmu.Replacing.{Replaced, written-Replaced}

-- What `MapPage` may come to. A page that could not be mapped leaves the map of addresses as it was.
pub data MapOutcome (m : Mmu) (virt phys flags : ℕ) : Bool × Mmu → Type 0 where
  mapped :
      (m' : Mmu)
      → Replaced m m' virt (page_entry phys flags)
      → m'.write_protect ≡ true
      → MapOutcome m virt phys flags (true, m')
  not_mapped : (m' : Mmu) → Kept m m' → MapOutcome m virt phys flags (false, m')

kept_refl : (m : Mmu) → IsTree m → Kept m m
kept_refl m tr = record { is_tree = tr; same_root = refl; leaves = λ is len. refl }

kept_trans : (m n o : Mmu) → Kept m n → Kept n o → Kept m o
kept_trans m n o k l = record {
  is_tree = l.is_tree;
  same_root = l.same_root ∙ k.same_root;
  leaves = λ is len. l.leaves is len ∙ k.leaves is len;
}

-- What the tables do not depend on.
pub Kept-write_protect : (m : Mmu) (b : Bool) → IsTree m → Kept m (record m { write_protect = b })
Kept-write_protect m b tr = record {
  is_tree = record { tree = tr.tree; valid = tr.valid; low = tr.low };
  same_root = refl;
  leaves = λ is len. refl;
}

Kept-pmm : (m : Mmu) (q : Pmm) → IsTree m → Fewer m q → Kept m (record m { pmm = q })
Kept-pmm m q tr less = record {
  is_tree = record {
    tree = record {
      only = tr.tree.only;
      owned = λ r a l w f. tr.tree.owned r a l w (less.fewer a f);
      not_null = tr.tree.not_null;
      top = tr.tree.top;
    };
    valid = less.valid;
    low = less.low;
  };
  same_root = refl;
  leaves = λ is len. refl;
}

-- An outcome in tables that map every address as `m` does.
MapOutcome-Kept :
    (m n : Mmu) (virt phys flags : ℕ) (r : Bool × Mmu)
    → Kept m n
    → MapOutcome n virt phys flags r
    → MapOutcome m virt phys flags r
MapOutcome-Kept m n virt phys flags r k (mapped m' rep on) =
    mapped m'
      (record {
        is_tree = rep.is_tree;
        same_root = rep.same_root ∙ k.same_root;
        page_table = rep.page_table;
        reached = rep.reached;
        entry = rep.entry;
        others = λ w ne. rep.others w ne ∙ k.leaves (indices w) (omega arith);
      })
      on
MapOutcome-Kept m n virt phys flags r k (not_mapped m' l) = not_mapped m' (kept_trans m n m' k l)

module _ (virt phys flags : ℕ) where
  map_in_pt-MapOutcome :
      (m : Mmu) (r : Step × Mmu)
      → IsTree m
      → StepOutcome m (pd_index virt) (pdpt_index virt ∷ pml4_index virt ∷ []) r
      → MapOutcome m virt phys flags (map_in_pt virt phys flags r)
  map_in_pt-MapOutcome m r tr (went n m' d) =
      let rep = written-Replaced m' d.kept.is_tree n virt (page_entry phys flags) true d.leads in
      MapOutcome-Kept m m' virt phys flags (map_in_pt virt phys flags (descended n, m')) d.kept
        (mapped _ rep refl)
  map_in_pt-MapOutcome m r tr (no_page q less) = not_mapped _ (Kept-pmm m q tr less)
  map_in_pt-MapOutcome m r tr huge_page = not_mapped _ (Kept-write_protect m true tr)

  map_in_pd-MapOutcome :
      (m : Mmu) (r : Step × Mmu)
      → IsTree m
      → StepOutcome m (pdpt_index virt) (pml4_index virt ∷ []) r
      → MapOutcome m virt phys flags (map_in_pd virt phys flags r)
  map_in_pd-MapOutcome m r tr (went n m' d) = MapOutcome-Kept m m' virt phys flags _ d.kept (
      map_in_pt-MapOutcome m' (descend true flags n (pd_index virt) m') d.kept.is_tree (
        descend-StepOutcome m' d.kept.is_tree n (pd_index virt)
          (pdpt_index virt ∷ pml4_index virt ∷ []) (omega arith) d.leads true flags
          (λ e. absurd (true-ne-false e))))
  map_in_pd-MapOutcome m r tr (no_page q less) = not_mapped _ (Kept-pmm m q tr less)
  map_in_pd-MapOutcome m r tr huge_page = not_mapped m (kept_refl m tr)

  map_in_pdpt-MapOutcome :
      (m : Mmu) (r : Step × Mmu)
      → IsTree m
      → StepOutcome m (pml4_index virt) [] r
      → MapOutcome m virt phys flags (map_in_pdpt virt phys flags r)
  map_in_pdpt-MapOutcome m r tr (went n m' d) = MapOutcome-Kept m m' virt phys flags _ d.kept (
      map_in_pd-MapOutcome m' (descend true flags n (pdpt_index virt) m') d.kept.is_tree (
        descend-StepOutcome m' d.kept.is_tree n (pdpt_index virt) (pml4_index virt ∷ [])
          (omega arith) d.leads true flags (λ e. absurd (true-ne-false e))))
  map_in_pdpt-MapOutcome m r tr (no_page q less) = not_mapped _ (Kept-pmm m q tr less)
  map_in_pdpt-MapOutcome m r tr huge_page = not_mapped m (kept_refl m tr)

  pub map_page-MapOutcome :
      (m : Mmu) → IsTree m → MapOutcome m virt phys flags (map_page virt phys flags m)
  unfolding map_page walk
  map_page-MapOutcome m tr =
      let k = Kept-write_protect m false tr in
      elim (Bool-cases (masked m.cr3 == 0)) [
        | inl z ↦ rw (z) (not_mapped _ (Kept-write_protect m true tr))
        | inr nz ↦ rw (nz) (
            MapOutcome-Kept m (record m { write_protect = false }) virt phys flags _ k
              (map_in_pdpt-MapOutcome (record m { write_protect = false })
                (descend false flags (masked m.cr3) (pml4_index virt)
                  (record m { write_protect = false }))
                k.is_tree
                (descend-StepOutcome (record m { write_protect = false }) k.is_tree (masked m.cr3)
                  (pml4_index virt) [] (omega arith) refl false flags
                  (λ e. tr.tree.top (pml4_index virt)))))
      ]
