-- ===== src/Pmm.antt =====
-- kernel/mm/pmm.cpp: the physical page allocator. Addresses are numbers, `nullptr` is `none`, and
-- the static members with `lastFreeIndex` are one record. `size_t` arithmetic keeps its wrap.
pub mod Spec
pub mod Page
pub mod Contiguous
pub mod History
pub mod Boot
mod Tests
use morphic_os_dev.Base.{
  add64, sub64, mul64, ℕ, zero, suc, ◌+◌, ◌-◌, ◌*◌, ◌/◌, ◌%◌, ◌^◌, Bool, true, false, ◌&&◌, ◌||◌,
  Option, none, some, List, [], ◌∷◌, ltb, leb, ◌==◌, if◌then◌else◌, update,
}
use morphic_os_dev.Bitmap
use morphic_os_dev.Bitmap.{Bitmap, Bytes}

pub record Pmm : Type 0 where
  pub bitmap : Bitmap
  pub total_ram : ℕ
  pub free_ram : ℕ
  pub bitmap_size : ℕ
  pub highest_addr : ℕ
  pub last_free_index : ℕ

abbrev pub page_size : ℕ
page_size = 4096

abbrev pub limit : Pmm → ℕ
limit p = p.highest_addr / page_size

-- The first free page among the `n` pages from `i` on.
unfoldable pub first_free : ℕ → Bitmap → ℕ → Option ℕ
first_free zero m i = none
first_free (suc n) m i =
    let rest = first_free n m (i + 1) in if Bitmap.get m i then rest else some i

-- `bitmap.Set(i, true); freeRAM -= 4096;`
unfoldable pub take_bit : Pmm → ℕ → Pmm
take_bit p i = record p {
  bitmap = Bitmap.put p.bitmap i true;
  free_ram = sub64 p.free_ram page_size;
}

-- What `AllocPage` does with the free page that a search found.
unfoldable pub take_page : Pmm → ℕ → Pmm
take_page p i = record (take_bit p i) { last_free_index = i + 1 }

unfoldable pub alloc_page : Pmm → Option ℕ × Pmm
alloc_page p = elim (first_free (limit p - p.last_free_index) p.bitmap p.last_free_index) [
  | some i ↦ (some (mul64 i page_size), take_page p i)
  | none ↦ elim (first_free p.last_free_index p.bitmap 0) [
    | some i ↦ (some (mul64 i page_size), take_page p i)
    | none ↦ (none, p)
  ]
]

-- The inner loop of `AllocContiguous`: the first used page among `start + i` for the `n` values of
-- `i` that are left; `none` is `found`.
unfoldable pub first_used : ℕ → Bitmap → ℕ → Option ℕ
first_used zero m i = none
first_used (suc n) m i =
    let rest = first_used n m (i + 1) in if Bitmap.get m i then some i else rest

-- `for (start = …; start <= bound; start++)`, where a used page moves `start` to it.
unfoldable pub find_run : ℕ → Bitmap → ℕ → ℕ → ℕ → Option ℕ
find_run zero m start bound pages = none
find_run (suc fuel) m start bound pages =
    let search : Option ℕ = elim (first_used pages m start) [
      | none ↦ some start
      | some used ↦ find_run fuel m (used + 1) bound pages
    ] in
    if leb start bound then search else none

-- `for (i = 0; i < pages; i++) { bitmap.Set(start + i, true); freeRAM -= 4096; }`
unfoldable pub take_run : ℕ → Pmm → ℕ → Pmm
take_run zero p i = p
take_run (suc n) p i = take_run n (take_bit p i) (i + 1)

abbrev pub start_search : Pmm → ℕ
start_search p =
    if ltb (0x10000000 / page_size) p.last_free_index
    then p.last_free_index
    else 0x10000000 / page_size

-- `limit - pages` is unsigned: it wraps when more pages are asked for than there are.
abbrev pub last_start : Pmm → ℕ → ℕ
last_start p pages = sub64 (limit p) pages

-- `if (start + pages > lastFreeIndex) lastFreeIndex = start + pages;`
abbrev pub hint_after : Pmm → ℕ → Pmm
hint_after p end = record p {
  last_free_index = if ltb p.last_free_index end then end else p.last_free_index;
}

unfoldable pub alloc_contiguous : Pmm → ℕ → Option ℕ × Pmm
alloc_contiguous p pages =
    elim (find_run (suc (last_start p pages) - start_search p) p.bitmap (start_search p)
      (last_start p pages) pages) [
        | none ↦ (none, p)
        | some start ↦
            (some (mul64 start page_size), hint_after (take_run pages p start) (start + pages))
      ]

unfoldable pub free_page : Pmm → ℕ → Pmm
free_page p address =
    let page = address / page_size in
    if Bitmap.get p.bitmap page
    then record p { bitmap = Bitmap.put p.bitmap page false; free_ram = add64 p.free_ram page_size }
    else p
