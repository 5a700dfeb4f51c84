-- ===== src/Mmu/Opening.antt =====
-- A step of `MapPage` to a new table.
use mathlib.Core.Path.{subst}
use morphic_os_dev.Base.{
  sym, ap, ◌∙◌, refl, ℕ, ◌+◌, ◌≤◌, ◌<◌, ◌≡◌, ◌≢◌, inl, inr, ◌⊎◌, false, none, some, List, [], ◌∷◌,
  ◌==◌, length, update, Bool-cases, arith, ==→eq,
}
use morphic_os_dev.Pmm.{Pmm}
use morphic_os_dev.Mmu.{Entry, zero_entry, Tables, Mmu, masked, write, directory_entry}
use morphic_os_dev.Mmu.Tree.{link, walk, IsFreeAt, IsTree}
use morphic_os_dev.Mmu.Writing.{
  write-cases, Only, walk-opened, walk-new, Agree, same, opened, leaf_agree,
}
use morphic_os_dev.Mmu.Frames.{Fewer}
use morphic_os_dev.Mmu.Permitting.{Descended, nonempty-Agree}

-- The entry `i` of the table `a`, that is reached by `p` and is not one of the last level.
module _ (m : Mmu) (tr : IsTree m) (a i : ℕ) (p : List ℕ) (short : length p < 3)
    (at : walk m.tables (masked m.cr3) p ≡ some a) where
  -- A new table, for an entry that is not there.
  module _ (n : ℕ) (q : Pmm) (less : Fewer m q) (was_free : IsFreeAt m.pmm n)
      (is_used : ¬ IsFreeAt q n) (aligned : masked n ≡ n) (nz : n ≢ 0)
      (absent : (m.tables a i).present ≡ false) where
    abbrev cleared : Tables
    cleared = update m.tables n (λ k. zero_entry)

    abbrev grown : Tables
    grown = write cleared a i (directory_entry n)

    not_reached :
        (r : List ℕ) (b : ℕ) → length r ≤ 3 → walk m.tables (masked m.cr3) r ≡ some b → n ≢ b
    not_reached r b l w e = tr.tree.owned r b l w (subst (λ x. IsFreeAt m.pmm x) e was_free)

    cleared-at : (b j : ℕ) → n ≢ b → cleared b j ≡ m.tables b j
    cleared-at b j ne = elim (Bool-cases (n == b)) [
      | inl y ↦ absurd (ne (==→eq n b y))
      | inr o ↦ rw (o) refl
    ]

    others :
        (r : List ℕ) (b j : ℕ)
        → length r ≤ 3
        → walk m.tables (masked m.cr3) r ≡ some b
        → (b ≡ a) × (j ≡ i) ⊎ (grown b j ≡ m.tables b j)
    others r b j l w = elim (write-cases cleared a i (directory_entry n) b j) [
      | inl (u, v, s) ↦ inl (u, v)
      | inr s ↦ inr (s ∙ cleared-at b j (not_reached r b l w))
    ]

    grown_entry : grown a i ≡ directory_entry n
    grown_entry = ground arith

    leads_on : link (grown a i) ≡ some n
    leads_on = ap link grown_entry ∙ ap some aligned

    empty_entry : (j : ℕ) → grown n j ≡ zero_entry
    empty_entry j = elim (write-cases cleared a i (directory_entry n) n j) [
      | inl (u, v, s) ↦ absurd (not_reached p a (omega arith) at u)
      | inr s ↦ s ∙ ground arith
    ]

    empty : (j : ℕ) → link (grown n j) ≡ none
    empty j = ap link (empty_entry j)

    nowhere : link (m.tables a i) ≡ none
    nowhere = rw (absent) refl

    new_walk :
        (r : List ℕ) (c : ℕ)
        → length r ≤ 3
        → walk grown (masked m.cr3) r ≡ some c
        → (r ≡ i ∷ p) × (c ≡ n) ⊎ (walk m.tables (masked m.cr3) r ≡ some c)
    new_walk =
        walk-new m.tables grown (masked m.cr3) a i n p at nowhere leads_on empty
          (λ r b j l w. others r b j (omega arith) w) tr.tree.only (omega arith)

    grown_entries :
        (r : List ℕ) (b j : ℕ) (js : List ℕ)
        → walk m.tables (masked m.cr3) r ≡ some b
        → length r + length (j ∷ js) ≡ 4
        → Agree grown (m.tables b j) (grown b j) js
    grown_entries r b j js w len = elim (others r b j (omega (arith, len)) w) [
      | inr s ↦ same s
      | inl (u, v) ↦
          let r=p : r ≡ p =
            tr.tree.only r p a (omega (arith, len)) (omega arith) (w ∙ ap some u) at in
          nonempty-Agree (length p) grown (m.tables b j) (grown b j) js short
            (omega (arith, len, ap length r=p))
            (λ k ks.
              opened
                (ap (λ x. (m.tables x j).present) u ∙ ap (λ x. (m.tables a x).present) v ∙ absent)
                (ap (λ x. link (grown x j)) u ∙ ap (λ x. link (grown a x)) v ∙ leads_on)
                (λ h. ap (λ (x : Entry). x.present) (empty_entry h)))
    ]

    grown-Only : Only grown (masked m.cr3)
    grown-Only r s c l l' w w' = elim (new_walk r c l w) [
      | inl (u, v) ↦ elim (new_walk s c l' w') [
        | inl (u', v') ↦ u ∙ sym u'
        | inr old ↦ absurd (not_reached s c l' old (sym v))
      ]
      | inr old ↦ elim (new_walk s c l' w') [
        | inl (u', v') ↦ absurd (not_reached r c l old (sym v'))
        | inr old' ↦ tr.tree.only r s c l l' old old'
      ]
    ]

    grown_owned :
        (r : List ℕ) (c : ℕ) → length r ≤ 3 → walk grown (masked m.cr3) r ≡ some c → ¬ IsFreeAt q c
    grown_owned r c l w f = elim (new_walk r c l w) [
      | inl (u, v) ↦ is_used (subst (λ x. IsFreeAt q x) v f)
      | inr old ↦ tr.tree.owned r c l old (less.fewer c f)
    ]

    grown_not_null :
        (r : List ℕ) (c : ℕ) → length r ≤ 3 → walk grown (masked m.cr3) r ≡ some c → c ≢ 0
    grown_not_null r c l w z = elim (new_walk r c l w) [
      | inl (u, v) ↦ nz (sym v ∙ z)
      | inr old ↦ tr.tree.not_null r c l old z
    ]

    grown_top : (j : ℕ) → (grown (masked m.cr3) j).huge ≡ false
    unfolding walk
    grown_top j = elim (others [] (masked m.cr3) j (omega arith) refl) [
      | inl (u, v) ↦
          ap (λ x. (grown x j).huge) u
          ∙ ap (λ x. (grown a x).huge) v
          ∙ ap (λ (x : Entry). x.huge) grown_entry
      | inr s ↦ ap (λ (x : Entry). x.huge) s ∙ tr.tree.top j
    ]

    pub entered : Descended m (record m { pmm = q; tables = grown }) i n p
    unfolding walk
    entered = record {
      kept = record {
        is_tree = record {
          tree = record {
            only = grown-Only;
            owned = grown_owned;
            not_null = grown_not_null;
            top = grown_top;
          };
          valid = less.valid;
          low = less.low;
        };
        same_root = refl;
        leaves = λ is len.
            leaf_agree m.tables grown (masked m.cr3) (masked m.cr3) 4 [] is refl
              (omega (arith, len)) (λ r b j js w l on. grown_entries r b j js w l);
      };
      leads =
          walk-opened m.tables grown (masked m.cr3) a i n p at nowhere leads_on empty
            (λ r b j l w. others r b j (omega arith) w) short;
    }
