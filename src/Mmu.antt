-- ===== src/Mmu.antt =====
-- kernel/hal/arch/x86_64/mmu.cpp: the page tables of the processor. A table entry is the bits that the
-- code names, the address and the other bits; memory that holds tables is a function of the table's
-- address and the index. The allocator of pages is the model of `PMM`.
pub mod Tree
pub mod Writing
pub mod Frames
pub mod Permitting
pub mod Opening
pub mod Descent
pub mod Replacing
pub mod Mapping
pub mod Unmapping
pub mod Range
mod Tests
use morphic_os_dev.Base.{
  ℕ, zero, suc, ◌+◌, ◌-◌, ◌*◌, ◌/◌, ◌%◌, ◌^◌, Bool, true, false, not, ◌&&◌, ◌||◌, Option, none,
  some, List, [], ◌∷◌, ltb, ◌==◌, if◌then◌else◌, update, add64,
}
use morphic_os_dev.Pmm.{Pmm, alloc_page}

pub record Entry : Type 0 where
  pub present : Bool
  pub writable : Bool
  pub user : Bool
  pub write_through : Bool
  pub cache_disable : Bool
  pub huge : Bool
  pub global : Bool
  pub no_execute : Bool
  pub address : ℕ
  pub rest : ℕ

abbrev pub zero_entry : Entry
zero_entry = record {
  present = false;
  writable = false;
  user = false;
  write_through = false;
  cache_disable = false;
  huge = false;
  global = false;
  no_execute = false;
  address = 0;
  rest = 0;
}

-- A page table by its address, and an entry by its index.
abbrev pub Tables : Type 0
Tables = ℕ → ℕ → Entry

pub record Mmu : Type 0 where
  pub cr3 : ℕ
  pub kernel_pml4 : ℕ
  pub write_protect : Bool
  pub tables : Tables
  pub pmm : Pmm

-- `a & PTE_ADDR_MASK`: the bits from 12 to 51.
abbrev pub masked : ℕ → ℕ
masked a = a / 2 ^ 12 % 2 ^ 40 * 2 ^ 12

abbrev pub pml4_index : ℕ → ℕ
pml4_index v = v / 2 ^ 39 % 512

abbrev pub pdpt_index : ℕ → ℕ
pdpt_index v = v / 2 ^ 30 % 512

abbrev pub pd_index : ℕ → ℕ
pd_index v = v / 2 ^ 21 % 512

abbrev pub pt_index : ℕ → ℕ
pt_index v = v / 2 ^ 12 % 512

abbrev pub bit : ℕ → ℕ → Bool
bit flags k = flags / 2 ^ k % 2 == 1

abbrev pub page_writable : ℕ → Bool
page_writable flags = bit flags 1

abbrev pub page_user : ℕ → Bool
page_user flags = bit flags 2

abbrev pub page_executable : ℕ → Bool
page_executable flags = bit flags 3

-- `(phys & PTE_ADDR_MASK) | ConvertFlags(flags)`.
abbrev pub page_entry : ℕ → ℕ → Entry
page_entry phys flags = record {
  present = true;
  writable = page_writable flags;
  user = page_user flags;
  write_through = bit flags 5;
  cache_disable = bit flags 4;
  huge = false;
  global = bit flags 6;
  no_execute = not (page_executable flags);
  address = masked phys;
  rest = 0;
}

abbrev pub write : Tables → ℕ → ℕ → Entry → Tables
write t a i e = update t a (update (t a) i e)

-- The page that the allocator gave, with all of its entries zero; none when there is no page (or it is
-- the page at 0).
abbrev pub zeroed : Mmu → Option ℕ × Pmm → Option ℕ × Mmu
zeroed m (none, p) = (none, record m { pmm = p })
zeroed m (some a, p) =
    if a == 0
    then (none, record m { pmm = p })
    else (some a, record m { pmm = p; tables = update m.tables a (λ i. zero_entry) })

unfoldable pub allocate_table : Mmu → Option ℕ × Mmu
allocate_table m = zeroed m (alloc_page m.pmm)

-- The entry for a new table.
abbrev pub directory_entry : ℕ → Entry
directory_entry table = record zero_entry {
  present = true;
  writable = true;
  user = true;
  address = masked table;
}

-- The entry of a table that is there, with the permissions that the page needs.
abbrev pub permit : ℕ → Entry → Entry
permit flags e = record e {
  present = true;
  writable = e.writable || page_writable flags;
  user = e.user || page_user flags;
  no_execute = e.no_execute && not (page_executable flags);
}

pub data Step : Type 0 where
  descended : ℕ → Step
  out_of_memory : Step
  collision : Step

-- A new table goes into the entry.
abbrev pub enter : ℕ → ℕ → Option ℕ × Mmu → Step × Mmu
enter table i (none, m) = (out_of_memory, m)
enter table i (some n, m) =
    (descended n, record m { tables = write m.tables table i (directory_entry n) })

-- From a table to the table of the next level; `check_huge` where the code looks for a huge page.
unfoldable pub descend : Bool → ℕ → ℕ → ℕ → Mmu → Step × Mmu
unfolding allocate_table
descend check_huge flags table i m =
    let e = m.tables table i in
    let entered = enter table i (allocate_table m) in
    if e.present
    then (if check_huge && e.huge
        then (collision, m)
        else (descended e.address, record m { tables = write m.tables table i (permit flags e) }))
    else entered

-- `MapPage` from the page table on.
abbrev pub map_in_pt : ℕ → ℕ → ℕ → Step × Mmu → Bool × Mmu
map_in_pt virt phys flags (descended pt, m) = (
  true,
  record m {
    tables = write m.tables pt (pt_index virt) (page_entry phys flags);
    write_protect = true;
  },
)
map_in_pt virt phys flags (out_of_memory, m) = (false, m)
map_in_pt virt phys flags (collision, m) = (false, record m { write_protect = true })

-- `MapPage` from the page directory on.
abbrev pub map_in_pd : ℕ → ℕ → ℕ → Step × Mmu → Bool × Mmu
map_in_pd virt phys flags (descended pd, m) =
    map_in_pt virt phys flags (descend true flags pd (pd_index virt) m)
map_in_pd virt phys flags (out_of_memory, m) = (false, m)
map_in_pd virt phys flags (collision, m) = (false, m)

-- `MapPage` from the page directory pointer table on.
abbrev pub map_in_pdpt : ℕ → ℕ → ℕ → Step × Mmu → Bool × Mmu
map_in_pdpt virt phys flags (descended pdpt, m) =
    map_in_pd virt phys flags (descend true flags pdpt (pdpt_index virt) m)
map_in_pdpt virt phys flags (out_of_memory, m) = (false, m)
map_in_pdpt virt phys flags (collision, m) = (false, m)

unfoldable pub map_page : ℕ → ℕ → ℕ → Mmu → Bool × Mmu
unfolding descend
map_page virt phys flags m =
    let off = record m { write_protect = false } in
    let mapped =
      map_in_pdpt virt phys flags (descend false flags (masked m.cr3) (pml4_index virt) off) in
    if masked m.cr3 == 0 then (false, record m { write_protect = true }) else mapped

-- The loop of `MapRange` from `offset` on; none when the fuel is used up. A page that is not mapped
-- ends it.
unfoldable pub map_from : ℕ → ℕ → ℕ → ℕ → ℕ → ℕ → Mmu → Option (Bool × Mmu)
unfolding map_page
map_from zero virt phys size flags offset m = if ltb offset size then none else some (true, m)
map_from (suc fuel) virt phys size flags offset m =
    let page = map_page (add64 virt offset) (add64 phys offset) flags m in
    let rest = map_from fuel virt phys size flags (add64 offset 4096) page.1 in
    if ltb offset size then (if page.0 then rest else some (false, page.1)) else some (true, m)

abbrev pub map_range : ℕ → ℕ → ℕ → ℕ → ℕ → Mmu → Option (Bool × Mmu)
map_range fuel virt phys size flags m = map_from fuel virt phys size flags 0 m

-- The page table of an address, by tests of the present bit only; none where the code returns.
abbrev pub table_of : Tables → ℕ → ℕ → Option ℕ
table_of t pml4 virt =
    let e4 = t pml4 (pml4_index virt) in
    let e3 = t e4.address (pdpt_index virt) in
    let e2 = t e3.address (pd_index virt) in
    if e4.present && e3.present && e2.present then some e2.address else none

-- The pointers that `UnmapPage` tests beside the present bits.
abbrev pub no_null : Tables → ℕ → ℕ → Bool
no_null t pml4 virt =
    let e4 = t pml4 (pml4_index virt) in
    let e3 = t e4.address (pdpt_index virt) in
    let e2 = t e3.address (pd_index virt) in
    not (e4.address == 0) && not (e3.address == 0) && not (e2.address == 0)

abbrev pub clear_page : ℕ → Mmu → Option ℕ → Mmu
clear_page virt m none = m
clear_page virt m (some pt) =
    if no_null m.tables m.kernel_pml4 virt
    then record m { tables = write m.tables pt (pt_index virt) zero_entry }
    else m

unfoldable pub unmap_page : ℕ → Mmu → Mmu
unmap_page virt m =
    if m.kernel_pml4 == 0 then m else clear_page virt m (table_of m.tables m.kernel_pml4 virt)

-- The entry's address with the offset in the page, or 0.
abbrev pub physical_in : Tables → ℕ → Option ℕ → ℕ
physical_in t virt none = 0
physical_in t virt (some pt) =
    if (t pt (pt_index virt)).present then (t pt (pt_index virt)).address + virt % 2 ^ 12 else 0

unfoldable pub get_physical : Mmu → ℕ → ℕ
get_physical m virt =
    if masked m.cr3 == 0
    then 0
    else physical_in m.tables virt (table_of m.tables (masked m.cr3) virt)

unfoldable pub is_mapped : Mmu → ℕ → Bool
unfolding get_physical
is_mapped m virt = not (get_physical m virt == 0)

-- `Init` reads the register; `CreatePageTable` copies entry 0 and the upper half.
abbrev pub init_mmu : Mmu → Mmu
init_mmu m = record m { kernel_pml4 = masked m.cr3 }

abbrev pub copied : Tables → ℕ → ℕ → ℕ → Entry
copied t kernel table i = if i == 0 || (ltb 255 i && ltb i 512) then t kernel i else t table i

-- The new root, or 0.
abbrev pub rooted : Option ℕ × Mmu → ℕ × Mmu
rooted (none, m) = (0, m)
rooted (some table, m) = (
  table,
  (if m.kernel_pml4 == 0
      then m
      else record m { tables = update m.tables table (copied m.tables m.kernel_pml4 table) }),
)

unfoldable pub create_page_table : Mmu → ℕ × Mmu
unfolding allocate_table
create_page_table m = rooted (allocate_table m)
