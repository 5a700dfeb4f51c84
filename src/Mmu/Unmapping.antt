-- ===== src/Mmu/Unmapping.antt =====
-- `GetPhysical` and `UnmapPage` against the map of addresses.
use mathlib.Core.Path.{subst}
use morphic_os_dev.Base.{
  sym, ap, ◌∙◌, refl, ℕ, ◌+◌, ◌%◌, ◌^◌, ◌≤◌, ◌≡◌, inl, inr, ◌≢◌, true, false, Option, none, some,
  List, [], ◌∷◌, ◌==◌, if◌then◌else◌, length, Bool-cases, arith,
}
use morphic_os_dev.Mmu.{
  Entry, Tables, Mmu, masked, pml4_index, pdpt_index, pd_index, pt_index, write, table_of, no_null,
  unmap_page, physical_in, clear_page, get_physical, zero_entry,
}
use morphic_os_dev.Mmu.Tree.{link, walk, leaf_from, leaf, page_of, IsTree}
use morphic_os_dev.Mmu.Writing.{walk-suc}
use morphic_os_dev.Mmu.Replacing.{upper_path, written-Replaced, leaf_reached}

-- The address is not in a huge page.
abbrev pub IsSmall : Mmu → ℕ → Type 0
IsSmall m virt = (e : Entry) → leaf m virt ≡ some e → e.huge ≡ false

-- What the code finds by the present bits: no page table, and no entry, or the table of the tree.
pub data Found (m : Mmu) (virt : ℕ) : Option ℕ → Type 0 where
  no_table : leaf m virt ≡ none → Found m virt none
  table_at :
      (pt : ℕ)
      → walk m.tables (masked m.cr3) (upper_path virt) ≡ some pt
      → no_null m.tables (masked m.cr3) virt ≡ true
      → Found m virt (some pt)

leaf_below :
    (t : Tables) (a i j : ℕ) (is : List ℕ)
    → (t a i).present ≡ true
    → (t a i).huge ≡ false
    → leaf_from t a (i ∷ j ∷ is) ≡ leaf_from t (t a i).address (j ∷ is)
unfolding leaf_from
leaf_below t a i j is on small = simp (on, small)

leaf_absent :
    (t : Tables) (a i : ℕ) (is : List ℕ) → (t a i).present ≡ false → leaf_from t a (i ∷ is) ≡ none
unfolding leaf_from
leaf_absent t a i is off = rw (off) refl

leaf_huge :
    (t : Tables) (a i j : ℕ) (is : List ℕ)
    → (t a i).present ≡ true
    → (t a i).huge ≡ true
    → leaf_from t a (i ∷ j ∷ is) ≡ some (t a i)
unfolding leaf_from
leaf_huge t a i j is on big = simp (on, big)

leaf_last :
    (t : Tables) (a i : ℕ)
    → leaf_from t a (i ∷ []) ≡ (if (t a i).present then some (t a i) else none)
unfolding leaf_from
leaf_last t a i = refl

link-present : (e : Entry) → e.present ≡ true → e.huge ≡ false → link e ≡ some e.address
link-present e on small = simp (on, small)

module _ (m : Mmu) (tr : IsTree m) (virt : ℕ) (small : IsSmall m virt) where
  abbrev e4 : Entry
  e4 = m.tables (masked m.cr3) (pml4_index virt)

  abbrev e3 : Entry
  e3 = m.tables e4.address (pdpt_index virt)

  abbrev e2 : Entry
  e2 = m.tables e3.address (pd_index virt)

  e4_small : e4.huge ≡ false
  e4_small = tr.tree.top (pml4_index virt)

  leaf-e4 :
      e4.present ≡ true
      → leaf m virt
        ≡ leaf_from m.tables e4.address (pdpt_index virt ∷ pd_index virt ∷ pt_index virt ∷ [])
  leaf-e4 on = leaf_below m.tables (masked m.cr3) (pml4_index virt) (pdpt_index virt) _ on e4_small

  e3_small : e4.present ≡ true → e3.present ≡ true → e3.huge ≡ false
  e3_small on on' = elim (Bool-cases e3.huge) [
    | inr s ↦ s
    | inl big ↦
        small e3
          (leaf-e4 on ∙ leaf_huge m.tables e4.address (pdpt_index virt) (pd_index virt) _ on' big)
  ]

  leaf-e3 :
      e4.present ≡ true
      → e3.present ≡ true
      → leaf m virt ≡ leaf_from m.tables e3.address (pd_index virt ∷ pt_index virt ∷ [])
  leaf-e3 on on' =
      leaf-e4 on
      ∙ leaf_below m.tables e4.address (pdpt_index virt) (pd_index virt) _ on' (e3_small on on')

  e2_small : e4.present ≡ true → e3.present ≡ true → e2.present ≡ true → e2.huge ≡ false
  e2_small on on' on'' = elim (Bool-cases e2.huge) [
    | inr s ↦ s
    | inl big ↦
        small e2 (
          leaf-e3 on on'
          ∙ leaf_huge m.tables e3.address (pd_index virt) (pt_index virt) [] on'' big)
  ]

  nonzero :
      (q : List ℕ) (a : ℕ)
      → length q ≤ 3
      → walk m.tables (masked m.cr3) q ≡ some a
      → (a == 0) ≡ false
  nonzero q a l w = ground (arith, tr.tree.not_null q a l w)

  all_present :
      e4.present ≡ true
      → e3.present ≡ true
      → e2.present ≡ true
      → (walk m.tables (masked m.cr3) (upper_path virt) ≡ some e2.address)
        × (no_null m.tables (masked m.cr3) virt ≡ true)
  unfolding walk
  all_present on on' on'' =
      let w4 =
        walk-suc m.tables (masked m.cr3) (pml4_index virt) (masked m.cr3) e4.address [] refl
          (link-present e4 on e4_small) in
      let w3 =
        walk-suc m.tables (masked m.cr3) (pdpt_index virt) e4.address e3.address
          (pml4_index virt ∷ []) w4 (link-present e3 on' (e3_small on on')) in
      let w2 =
        walk-suc m.tables (masked m.cr3) (pd_index virt) e3.address e2.address
          (pdpt_index virt ∷ pml4_index virt ∷ []) w3
          (link-present e2 on'' (e2_small on on' on'')) in
      (
        w2,
        simp (
          nonzero (pml4_index virt ∷ []) e4.address (omega arith) w4,
          nonzero (pdpt_index virt ∷ pml4_index virt ∷ []) e3.address (omega arith) w3,
          nonzero (upper_path virt) e2.address (omega arith) w2,
        ),
      )

  pub table_of-Found : Found m virt (table_of m.tables (masked m.cr3) virt)
  table_of-Found = elim (Bool-cases e4.present) [
    | inr off ↦ rw (off) (no_table (leaf_absent m.tables (masked m.cr3) (pml4_index virt) _ off))
    | inl on ↦ elim (Bool-cases e3.present) [
      | inr off ↦
          rw (on, off)
            (no_table (leaf-e4 on ∙ leaf_absent m.tables e4.address (pdpt_index virt) _ off))
      | inl on' ↦ elim (Bool-cases e2.present) [
        | inr off ↦
            rw (on, on', off)
              (no_table (leaf-e3 on on' ∙ leaf_absent m.tables e3.address (pd_index virt) _ off))
        | inl on'' ↦
            let (w, z) = all_present on on' on'' in rw (on, on', on'') (table_at e2.address w z)
      ]
    ]
  ]

-- The address that an entry gives to an address in its page.
abbrev pub through : Option Entry → ℕ → ℕ
through none virt = 0
through (some e) virt = e.address + virt % 2 ^ 12

through_if :
    (e : Entry) (virt : ℕ)
    → (if e.present then e.address + virt % 2 ^ 12 else 0)
      ≡ through (if e.present then some e else none) virt
through_if e virt = ground arith

physical_in-Found :
    (m : Mmu) (virt : ℕ) (o : Option ℕ)
    → Found m virt o
    → physical_in m.tables virt o ≡ through (leaf m virt) virt
physical_in-Found m virt o (no_table l) = sym (ap (λ x. through x virt) l)
physical_in-Found m virt o (table_at pt w n) =
    through_if (m.tables pt (pt_index virt)) virt
    ∙ sym (ap (λ x. through x virt) (leaf_reached m virt pt _ w refl))

-- `GetPhysical` gives the address that the entry of the address's page stands for, or 0, when the
-- address is in no huge page.
pub get_physical-leaf :
    (m : Mmu) (virt : ℕ)
    → IsTree m
    → IsSmall m virt
    → get_physical m virt ≡ through (leaf m virt) virt
unfolding get_physical walk
get_physical-leaf m virt tr small =
    rw (nonzero m tr virt small [] (masked m.cr3) (omega arith) refl) (
      physical_in-Found m virt (table_of m.tables (masked m.cr3) virt)
        (table_of-Found m tr virt small))

-- No address of the page is mapped, and all others are as before.
pub record Unmapped (m m' : Mmu) (virt : ℕ) : Type 0 where
  pub is_tree : IsTree m'
  pub gone : leaf m' virt ≡ none
  pub others : (w : ℕ) → page_of w ≢ page_of virt → leaf m' w ≡ leaf m w

clear_page-Unmapped :
    (m : Mmu) (virt : ℕ) (o : Option ℕ)
    → IsTree m
    → m.kernel_pml4 ≡ masked m.cr3
    → Found m virt o
    → Unmapped m (clear_page virt m o) virt
clear_page-Unmapped m virt o tr k (no_table l) = record {
  is_tree = tr;
  gone = l;
  others = λ w ne. refl;
}
clear_page-Unmapped m virt o tr k (table_at pt w n) =
    let rep = written-Replaced m tr pt virt zero_entry m.write_protect w in
    let m' = record m { tables = write m.tables pt (pt_index virt) zero_entry } in
    let n' = subst (λ r. no_null m.tables r virt ≡ true) (sym k) n in
    rw (n') (record {
      is_tree = rep.is_tree;
      gone = leaf_reached m' virt rep.page_table zero_entry rep.reached rep.entry;
      others = rep.others;
    })

pub unmap_page-Unmapped :
    (m : Mmu) (virt : ℕ)
    → IsTree m
    → m.kernel_pml4 ≡ masked m.cr3
    → IsSmall m virt
    → Unmapped m (unmap_page virt m) virt
unfolding unmap_page walk
unmap_page-Unmapped m virt tr k small =
    let nz =
      subst (λ r. (r == 0) ≡ false) (sym k)
        (nonzero m tr virt small [] (masked m.cr3) (omega arith) refl) in
    let f =
      subst (λ r. Found m virt (table_of m.tables r virt)) (sym k)
        (table_of-Found m tr virt small) in
    rw (nz) (clear_page-Unmapped m virt (table_of m.tables m.kernel_pml4 virt) tr k f)
