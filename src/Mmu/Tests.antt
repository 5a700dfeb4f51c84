-- ===== src/Mmu/Tests.antt =====
-- Runs of the page tables, and instances of the theorems.
use mathlib.Core.Path.{subst}
use morphic_os_dev.Base.{
  none-ne-some, true-ne-false, ◌/◌, some-eq, sym, ap, ◌∙◌, refl, ℕ, ◌≡◌, Bool, true, false, none,
  some, List, [], ◌∷◌, arith,
}
use morphic_os_dev.Bitmap
use morphic_os_dev.Pmm.{Pmm, first_free, take_page, take_bit, alloc_page}
use morphic_os_dev.Mmu.{
  Entry, zero_entry, Mmu, map_page, map_range, get_physical, unmap_page, create_page_table,
  allocate_table, descend, map_from,
}
use morphic_os_dev.Mmu.Tree.{walk, leaf, leaf_from, IsTree}
use morphic_os_dev.Mmu.Writing.{walk-pred}
use morphic_os_dev.Mmu.Mapping.{MapOutcome, mapped, not_mapped, map_page-MapOutcome}
use morphic_os_dev.Mmu.Range.{RangeOutcome, map_range-RangeOutcome}
use morphic_os_dev.Mmu.Unmapping.{
  IsSmall, through, get_physical-leaf, Unmapped, unmap_page-Unmapped,
}

-- 512 MB and a page, of which the low four of each eight pages are used.
abbrev half_free : Pmm
half_free = record {
  bitmap = record { base = 0x100000; bytes = λ i. 0x0f; size = 16385 };
  total_ram = 0x20001000;
  free_ram = 0x10000000;
  bitmap_size = 16385;
  highest_addr = 0x20001000;
  last_free_index = 0;
}

-- An empty root in the used page 1.
abbrev no_pages : Mmu
no_pages = record {
  cr3 = 0x1018;
  kernel_pml4 = 0x1000;
  write_protect = true;
  tables = λ a i. zero_entry;
  pmm = half_free;
}

-- The root is the only table.
only_root :
    (q : List ℕ) (a : ℕ) → walk (λ b i. zero_entry) 0x1000 q ≡ some a → (q ≡ []) × (a ≡ 0x1000)
unfolding walk
only_root [] a e = (refl, sym (some-eq e))
only_root (i ∷ q) a e =
    let (b, s, l) = walk-pred (λ b i. zero_entry) 0x1000 i a q e in absurd (none-ne-some l)

no_pages-IsTree : IsTree no_pages
unfolding Bitmap.get
no_pages-IsTree = record {
  tree = record {
    only = λ q r a l l' w w'. (only_root q a w).0 ∙ sym (only_root r a w').0;
    owned = λ q a l w f.
        true-ne-false
          (subst (λ x. Bitmap.get half_free.bitmap (x / 4096) ≡ false) (only_root q a w).1 f.1);
    not_null = λ q a l w z. ground (arith, (only_root q a w).1, z);
    top = λ i. refl;
  };
  valid = omega arith;
  low = omega arith;
}

first_mapping : (map_page 0x400123 0x7000 6 no_pages).0 ≡ true
unfolding map_page descend allocate_table alloc_page first_free Bitmap.get take_page take_bit
    Bitmap.put
first_mapping = refl

abbrev one_page : Mmu
one_page = (map_page 0x400123 0x7000 6 no_pages).1

first_address : get_physical one_page 0x400456 ≡ 0x7456
unfolding map_page descend allocate_table alloc_page first_free Bitmap.get get_physical take_page
    take_bit Bitmap.put
first_address = refl

three_pages : map_range 0 0 0 4096 6 no_pages ≡ none
unfolding map_from
three_pages = refl

map_page-MapOutcome_example :
    MapOutcome no_pages 0x400123 0x7000 6 (map_page 0x400123 0x7000 6 no_pages)
map_page-MapOutcome_example = map_page-MapOutcome 0x400123 0x7000 6 no_pages no_pages-IsTree

map_range-RangeOutcome_example :
    RangeOutcome no_pages 0xFFFFA00000000000 0x10000 10000 6 0
      (map_range 3 0xFFFFA00000000000 0x10000 10000 6 no_pages)
map_range-RangeOutcome_example =
    map_range-RangeOutcome 0xFFFFA00000000000 0x10000 10000 6 (omega arith) (omega arith)
      (omega arith) (omega arith) (omega arith) 3 no_pages no_pages-IsTree (omega arith)

MapOutcome-IsTree :
    {m : Mmu} {virt phys flags : ℕ} {r : Bool × Mmu} → MapOutcome m virt phys flags r → IsTree r.1
MapOutcome-IsTree (mapped m' rep on) = rep.is_tree
MapOutcome-IsTree (not_mapped m' kept) = kept.is_tree

one_page-IsTree : IsTree one_page
one_page-IsTree = MapOutcome-IsTree map_page-MapOutcome_example

one_page-IsSmall : IsSmall one_page 0x400456
unfolding map_page descend allocate_table alloc_page first_free Bitmap.get take_page take_bit
    Bitmap.put leaf_from
one_page-IsSmall e h = sym (ap (λ (x : Entry). x.huge) (some-eq h))

get_physical-leaf_example :
    get_physical one_page 0x400456 ≡ through (leaf one_page 0x400456) 0x400456
get_physical-leaf_example = get_physical-leaf one_page 0x400456 one_page-IsTree one_page-IsSmall

unmap_page-Unmapped_example : Unmapped one_page (unmap_page 0x400456 one_page) 0x400456
unfolding map_page descend allocate_table alloc_page first_free Bitmap.get take_page take_bit
    Bitmap.put
unmap_page-Unmapped_example =
    unmap_page-Unmapped one_page 0x400456 one_page-IsTree refl one_page-IsSmall

new_root : (create_page_table no_pages).0 ≡ 0x4000
unfolding create_page_table allocate_table alloc_page first_free Bitmap.get take_page take_bit
    Bitmap.put
new_root = refl
