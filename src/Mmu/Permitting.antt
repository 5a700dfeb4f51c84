-- ===== src/Mmu/Permitting.antt =====
-- A step of `MapPage` to a table that is there: the entry may get permissions.
use morphic_os_dev.Base.{
  sym, ap, ◌∙◌, refl, ℕ, suc, ◌+◌, ◌<◌, ◌≡◌, inl, inr, false, some, List, [], ◌∷◌, length, arith,
}
use morphic_os_dev.Mmu.{Entry, Tables, Mmu, masked, write}
use morphic_os_dev.Mmu.Tree.{link, walk, leaf_from, IsTree}
use morphic_os_dev.Mmu.Writing.{
  walk_same, walk-suc, write-cases, Agree, same, still, link-some, leaf_agree,
}

-- A tree again, in which every address is mapped by the same entry.
pub record Kept (m m' : Mmu) : Type 0 where
  pub is_tree : IsTree m'
  pub same_root : m'.cr3 ≡ m.cr3
  pub leaves :
      (is : List ℕ)
      → length is ≡ 4
      → leaf_from m'.tables (masked m'.cr3) is ≡ leaf_from m.tables (masked m.cr3) is

-- After a step to the table `n` at the path `i ∷ p`.
pub record Descended (m m' : Mmu) (i n : ℕ) (p : List ℕ) : Type 0 where
  pub kept : Kept m m'
  pub leads : walk m'.tables (masked m'.cr3) (i ∷ p) ≡ some n

pub nonempty-Agree :
    (n : ℕ) (t' : Tables) (e e' : Entry) (js : List ℕ)
    → n < 3
    → n + suc (length js) ≡ 4
    → ((k : ℕ) (ks : List ℕ) → Agree t' e e' (k ∷ ks))
    → Agree t' e e' js
nonempty-Agree n t' e e' [] lt len h = absurd (omega (arith, lt, len))
nonempty-Agree n t' e e' (k ∷ ks) lt len h = h k ks

-- The entry `i` of the table `a`, that is reached by `p` and is not one of the last level.
module _ (m : Mmu) (tr : IsTree m) (a i : ℕ) (p : List ℕ) (short : length p < 3)
    (at : walk m.tables (masked m.cr3) p ≡ some a) where
  -- An entry that is there keeps where it leads.
  module _ (e : Entry) (c : ℕ) (led : link (m.tables a i) ≡ some c) (now : link e ≡ some c) where
    links : (b j : ℕ) → link (write m.tables a i e b j) ≡ link (m.tables b j)
    links b j = elim (write-cases m.tables a i e b j) [
      | inr s ↦ ap link s
      | inl (u, v, s) ↦
          ap link s
          ∙ now
          ∙ sym led
          ∙ ap (λ x. link (m.tables x i)) (sym u)
          ∙ ap (λ x. link (m.tables b x)) (sym v)
    ]

    walks :
        (q : List ℕ) → walk (write m.tables a i e) (masked m.cr3) q ≡ walk m.tables (masked m.cr3) q
    walks = walk_same m.tables (write m.tables a i e) (masked m.cr3) links

    permitted_top : (j : ℕ) → (write m.tables a i e (masked m.cr3) j).huge ≡ false
    permitted_top j = elim (write-cases m.tables a i e (masked m.cr3) j) [
      | inr s ↦ ap (λ (x : Entry). x.huge) s ∙ tr.tree.top j
      | inl (u, v, s) ↦ ap (λ (x : Entry). x.huge) s ∙ (link-some e c now).1
    ]

    permitted_entry :
        (r : List ℕ) (b j : ℕ) (js : List ℕ)
        → walk m.tables (masked m.cr3) r ≡ some b
        → length r + length (j ∷ js) ≡ 4
        → Agree (write m.tables a i e) (m.tables b j) (write m.tables a i e b j) js
    permitted_entry r b j js w len = elim (write-cases m.tables a i e b j) [
      | inr s ↦ same s
      | inl (u, v, s) ↦
          let r=p : r ≡ p =
            tr.tree.only r p a (omega (arith, len)) (omega arith) (w ∙ ap some u) at in
          nonempty-Agree (length p) (write m.tables a i e) (m.tables b j) (write m.tables a i e b j)
            js short (omega (arith, len, ap length r=p))
            (λ k ks. still (sym (links b j) ∙ ap link s ∙ now) (ap link s ∙ now))
    ]

    pub permitted : Descended m (record m { tables = write m.tables a i e }) i c p
    unfolding walk
    permitted = record {
      kept = record {
        is_tree = record {
          tree = record {
            only =
                λ q r b l l' w w'. tr.tree.only q r b l l' (sym (walks q) ∙ w) (sym (walks r) ∙ w');
            owned = λ q b l w. tr.tree.owned q b l (sym (walks q) ∙ w);
            not_null = λ q b l w. tr.tree.not_null q b l (sym (walks q) ∙ w);
            top = permitted_top;
          };
          valid = tr.valid;
          low = tr.low;
        };
        same_root = refl;
        leaves = λ is len.
            leaf_agree m.tables (write m.tables a i e) (masked m.cr3) (masked m.cr3) 4 [] is refl
              (omega (arith, len)) (λ r b j js w l on. permitted_entry r b j js w l);
      };
      leads = walks (i ∷ p) ∙ walk-suc m.tables (masked m.cr3) i a c p at led;
    }
