-- ===== src/Mmu/Replacing.antt =====
-- A write to the entry of a page: the page is mapped by the new entry, and no other page is.
use morphic_os_dev.Base.{
  some-eq, sym, ap, ◌∙◌, refl, ℕ, ◌+◌, ◌≤◌, ◌<◌, ◌≡◌, inl, inr, ◌≢◌, Bool, none, some, List, [],
  ◌∷◌, if◌then◌else◌, length, get_elem?, arith,
}
use morphic_os_dev.Mmu.{
  Entry, Tables, Mmu, masked, pml4_index, pdpt_index, pd_index, pt_index, write,
}
use morphic_os_dev.Mmu.Tree.{walk, leaf_from, indices, leaf, page_of, IsTree}
use morphic_os_dev.Mmu.Writing.{
  walk_agree, walk-pred, write-cases, whole, Agree, same, link-some, leaf_agree,
}

-- The path of an address's page table.
abbrev pub upper_path : ℕ → List ℕ
upper_path v = pd_index v ∷ pdpt_index v ∷ pml4_index v ∷ []

-- The page tables of `m` with the entry of an address's page replaced.
pub record Replaced (m m' : Mmu) (virt : ℕ) (e : Entry) : Type 0 where
  pub is_tree : IsTree m'
  pub same_root : m'.cr3 ≡ m.cr3
  pub page_table : ℕ
  pub reached : walk m'.tables (masked m'.cr3) (upper_path virt) ≡ some page_table
  pub entry : m'.tables page_table (pt_index virt) ≡ e
  pub others : (w : ℕ) → page_of w ≢ page_of virt → leaf m' w ≡ leaf m w

-- The whole path of another page is another one.
path-page_of :
    (v w : ℕ) → pt_index w ∷ upper_path w ≡ pt_index v ∷ upper_path v → page_of w ≡ page_of v
path-page_of v w e = omega (
  arith,
  some-eq (ap (λ xs. get_elem? xs 0) e),
  some-eq (ap (λ xs. get_elem? xs 1) e),
  some-eq (ap (λ xs. get_elem? xs 2) e),
  some-eq (ap (λ xs. get_elem? xs 3) e),
)

same_page :
    (v w : ℕ) (r : List ℕ) (j : ℕ) (js : List ℕ)
    → r ≡ upper_path v
    → length r + length (j ∷ js) ≡ 4
    → j ≡ pt_index v
    → whole (j ∷ js) r ≡ whole (indices w) []
    → page_of w ≡ page_of v
same_page v w r j [] p len vj on =
    path-page_of v w (sym on ∙ ap (λ x. x ∷ r) vj ∙ ap (λ x. pt_index v ∷ x) p)
same_page v w r j (k ∷ ks) p len vj on = absurd (omega (arith, len, ap length p))

-- A write to an entry of a table of the last level.
module _ (m : Mmu) (tr : IsTree m) (pt virt : ℕ) (e : Entry) (b : Bool)
    (at : walk m.tables (masked m.cr3) (upper_path virt) ≡ some pt) where
  abbrev written : Tables
  written = write m.tables pt (pt_index virt) e

  on_path :
      (q : List ℕ) (a : ℕ)
      → length q ≤ 3
      → walk m.tables (masked m.cr3) q ≡ some a
      → a ≡ pt
      → q ≡ upper_path virt
  on_path q a le w u = tr.tree.only q (upper_path virt) a le (omega arith) w (at ∙ ap some (sym u))

  upper_same :
      (q : List ℕ) (a i : ℕ)
      → length q < 3
      → walk m.tables (masked m.cr3) q ≡ some a
      → written a i ≡ m.tables a i
  upper_same q a i lt w = elim (write-cases m.tables pt (pt_index virt) e a i) [
    | inr s ↦ s
    | inl (u, v, s) ↦ absurd (omega (arith, lt, ap length (on_path q a (omega arith) w u)))
  ]

  walks :
      (q : List ℕ) → length q ≤ 3 → walk written (masked m.cr3) q ≡ walk m.tables (masked m.cr3) q
  walks = walk_agree m.tables written (masked m.cr3) 3 upper_same

  other_entry :
      (w : ℕ)
      → page_of w ≢ page_of virt
      → (r : List ℕ) (c j : ℕ) (js : List ℕ) → walk m.tables (masked m.cr3) r ≡ some c
      → length r + length (j ∷ js) ≡ 4
      → whole (j ∷ js) r ≡ whole (indices w) []
      → Agree written (m.tables c j) (written c j) js
  other_entry w ne r c j js l len on = elim (write-cases m.tables pt (pt_index virt) e c j) [
    | inr s ↦ same s
    | inl (u, v, s) ↦
        absurd (ne (same_page virt w r j js (on_path r c (omega (arith, len)) l u) len v on))
  ]

  pub written-Replaced : Replaced m (record m { tables = written; write_protect = b }) virt e
  unfolding walk
  written-Replaced = record {
    is_tree = record {
      tree = record {
        only = λ q r c l l' w w'.
            tr.tree.only q r c l l' (sym (walks q l) ∙ w) (sym (walks r l') ∙ w');
        owned = λ q c l w. tr.tree.owned q c l (sym (walks q l) ∙ w);
        not_null = λ q c l w. tr.tree.not_null q c l (sym (walks q l) ∙ w);
        top = λ i.
            ap (λ (x : Entry). x.huge) (upper_same [] (masked m.cr3) i (omega arith) refl)
            ∙ tr.tree.top i;
      };
      valid = tr.valid;
      low = tr.low;
    };
    same_root = refl;
    page_table = pt;
    reached = walks (upper_path virt) (omega arith) ∙ at;
    entry = ground arith;
    others = λ w ne.
        leaf_agree m.tables written (masked m.cr3) (masked m.cr3) 4 [] (indices w) refl
          (omega arith) (λ r c j js l len on. other_entry w ne r c j js l len on);
  }

-- The entry of a page whose table is reached.
pub leaf_reached :
    (m : Mmu) (virt pt : ℕ) (e : Entry)
    → walk m.tables (masked m.cr3) (upper_path virt) ≡ some pt
    → m.tables pt (pt_index virt) ≡ e
    → leaf m virt ≡ (if e.present then some e else none)
unfolding leaf_from walk
leaf_reached m virt pt e w entry =
    let (b, s, l) =
      walk-pred m.tables (masked m.cr3) (pd_index virt) pt (pdpt_index virt ∷ pml4_index virt ∷ [])
        w in
    let (c, s', l') =
      walk-pred m.tables (masked m.cr3) (pdpt_index virt) b (pml4_index virt ∷ []) s in
    let (d, s'', l'') = walk-pred m.tables (masked m.cr3) (pml4_index virt) c [] s' in
    let root : masked m.cr3 ≡ d = some-eq s'' in
    let (on, small, at) = link-some (m.tables b (pd_index virt)) pt l in
    let (on', small', at') = link-some (m.tables c (pdpt_index virt)) b l' in
    let (on'', small'', at'') = link-some (m.tables d (pml4_index virt)) c l'' in
    rw (root, on'', small'', at'', on', small', at', on, small, at, entry) refl
