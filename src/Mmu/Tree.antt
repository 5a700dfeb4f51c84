-- ===== src/Mmu/Tree.antt =====
-- What the page tables stand for: the tables that the processor reaches from a root, by the reversed
-- list of indices, and the entry at which the walk of an address ends.
use morphic_os_dev.Base.{
  ℕ, ◌/◌, ◌%◌, ◌^◌, ◌≤◌, ◌<◌, ◌≡◌, ◌≢◌, Bool, true, false, not, ◌&&◌, Option, none, some, List, [],
  ◌∷◌, if◌then◌else◌, length,
}
use morphic_os_dev.Pmm.{Pmm, limit}
use morphic_os_dev.Pmm.Spec.{IsFree, IsValid}
use morphic_os_dev.Mmu.{Entry, Tables, Mmu, masked, pml4_index, pdpt_index, pd_index, pt_index}

-- The table that an entry leads to.
abbrev pub link : Entry → Option ℕ
link e = if e.present && not e.huge then some e.address else none

-- The last index is the first of the list.
unfoldable pub walk : Tables → ℕ → List ℕ → Option ℕ
walk t root [] = some root
walk t root (i ∷ p) = elim (walk t root p) [ none ↦ none | some a ↦ link (t a i) ]

abbrev pub ends_here : Entry → List ℕ → Bool
ends_here e [] = true
ends_here e (i ∷ is) = e.huge

-- The entry that maps an address, a page's or a huge page's, from a table with the indices left.
unfoldable pub leaf_from : Tables → ℕ → List ℕ → Option Entry
leaf_from t a [] = none
leaf_from t a (i ∷ is) =
    let below = leaf_from t (t a i).address is in
    if (t a i).present then (if ends_here (t a i) is then some (t a i) else below) else none

abbrev pub indices : ℕ → List ℕ
indices v = pml4_index v ∷ pdpt_index v ∷ pd_index v ∷ pt_index v ∷ []

abbrev pub leaf : Mmu → ℕ → Option Entry
leaf m v = leaf_from m.tables (masked m.cr3) (indices v)

-- The number of an address's page among the 2 ^ 36 pages that four levels tell apart.
abbrev pub page_of : ℕ → ℕ
page_of v = v / 2 ^ 12 % 2 ^ 36

-- A page that the allocator may give.
abbrev pub IsFreeAt : Pmm → ℕ → Type 0
IsFreeAt p a = (a / 4096 < limit p) × IsFree p (a / 4096)

-- No table is reached in two ways, stands in a free page or at 0, and the root has no huge pages.
pub record Tree (t : Tables) (root : ℕ) (p : Pmm) : Type 0 where
  pub only :
      (q r : List ℕ) (a : ℕ)
      → length q ≤ 3
      → length r ≤ 3
      → walk t root q ≡ some a
      → walk t root r ≡ some a
      → q ≡ r
  pub owned : (q : List ℕ) (a : ℕ) → length q ≤ 3 → walk t root q ≡ some a → ¬ IsFreeAt p a
  pub not_null : (q : List ℕ) (a : ℕ) → length q ≤ 3 → walk t root q ≡ some a → a ≢ 0
  pub top : (i : ℕ) → (t root i).huge ≡ false

-- The tables of the current root are a tree, and the allocator is valid, with its pages below 2 ^ 52.
pub record IsTree (m : Mmu) : Type 0 where
  pub tree : Tree m.tables (masked m.cr3) m.pmm
  pub valid : IsValid m.pmm
  pub low : m.pmm.highest_addr ≤ 2 ^ 52
