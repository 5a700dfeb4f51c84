-- ===== src/Pmm/Boot.antt =====
-- `PMM::Init`: the bitmap laid out over the firmware's memory map. The map is the list of its
-- entries; the panic loop of a machine with no room for the bitmap is `none`. The static hint
-- `lastFreeIndex` is 0 when the kernel starts.
pub mod Layout
use morphic_os_dev.Base.{
  add64, sub64, mul64, ℕ, ◌+◌, ◌-◌, ◌*◌, ◌/◌, ◌%◌, ◌^◌, Bool, true, false, ◌&&◌, ◌||◌, Option, none,
  some, List, [], ◌∷◌, ltb, leb, ◌==◌, if◌then◌else◌,
}
use morphic_os_dev.Bitmap
use morphic_os_dev.Bitmap.{Bytes}
use morphic_os_dev.Pmm.{Pmm, page_size}

-- `MemoryDescriptor`, its fields that the allocator reads.
pub record Descriptor : Type 0 where
  pub kind : ℕ
  pub phys_addr : ℕ
  pub num_pages : ℕ

-- The kinds of `enum class MemoryType` that `IsUsableMemory` names.
abbrev loader_code : ℕ
loader_code = 1

abbrev loader_data : ℕ
loader_data = 2

abbrev boot_services_code : ℕ
boot_services_code = 3

abbrev boot_services_data : ℕ
boot_services_data = 4

abbrev conventional_memory : ℕ
conventional_memory = 7

unfoldable pub is_usable : ℕ → Bool
is_usable kind =
    kind == conventional_memory
    || kind == boot_services_code
    || kind == boot_services_data
    || kind == loader_code
    || kind == loader_data

abbrev pub region_end : Descriptor → ℕ
region_end d = add64 d.phys_addr (mul64 d.num_pages page_size)

unfoldable pub top_of : List Descriptor → ℕ → ℕ
top_of [] highest = highest
top_of (d ∷ ds) highest = top_of ds (if ltb highest (region_end d) then region_end d else highest)

-- At least 16 MB are taken to be addressable.
abbrev pub highest_of : List Descriptor → ℕ
highest_of ds = if ltb (top_of ds 0) 0x1000000 then 0x1000000 else top_of ds 0

abbrev pub bitmap_size_of : List Descriptor → ℕ
bitmap_size_of ds = highest_of ds / page_size / 8 + 1

abbrev pub holds : ℕ → Descriptor → Bool
holds size d = is_usable d.kind && leb size (mul64 d.num_pages page_size)

-- The first usable region above 1 MB that holds the bitmap, else the first usable one that does.
unfoldable pub find_high : ℕ → List Descriptor → Option ℕ
find_high size [] = none
find_high size (d ∷ ds) =
    let rest = find_high size ds in
    if holds size d && leb 0x100000 d.phys_addr then some d.phys_addr else rest

unfoldable pub find_any : ℕ → List Descriptor → Option ℕ
find_any size [] = none
find_any size (d ∷ ds) =
    let rest = find_any size ds in if holds size d then some d.phys_addr else rest

-- A region at address 0 leaves the pointer null.
unfoldable pub find_buffer : ℕ → List Descriptor → Option ℕ
find_buffer size ds = elim (find_high size ds) [
  | some a ↦ some a
  | none ↦ elim (find_any size ds) [ some a ↦ if a == 0 then none else some a | none ↦ none ]
]

unfoldable pub free_region : Pmm → Descriptor → Pmm
free_region p d = record p {
  bitmap = Bitmap.set_range p.bitmap (d.phys_addr / page_size) d.num_pages false;
  total_ram = add64 p.total_ram (mul64 d.num_pages page_size);
  free_ram = add64 p.free_ram (mul64 d.num_pages page_size);
}

unfoldable pub mark_free : Pmm → List Descriptor → Pmm
mark_free p [] = p
mark_free p (d ∷ ds) = mark_free (if is_usable d.kind then free_region p d else p) ds

-- `bitmap.SetRange(start, pages, true); if (freeRAM >= pages * 4096) freeRAM -= pages * 4096;`
unfoldable pub reserve : Pmm → ℕ → ℕ → Pmm
reserve p start pages = record p {
  bitmap = Bitmap.set_range p.bitmap start pages true;
  free_ram =
      if leb (mul64 pages page_size) p.free_ram
      then sub64 p.free_ram (mul64 pages page_size)
      else p.free_ram;
}

-- The state when the whole bitmap has been filled with ones.
unfoldable pub all_used : Bytes → List Descriptor → ℕ → Pmm
all_used ram ds buffer = record {
  bitmap =
      Bitmap.fill_bytes (bitmap_size_of ds) (Bitmap.init ram buffer (bitmap_size_of ds)) 0 0xff;
  total_ram = 0;
  free_ram = 0;
  bitmap_size = bitmap_size_of ds;
  highest_addr = highest_of ds;
  last_free_index = 0;
}

abbrev pub low_pages : ℕ
low_pages = 0x10000000 / page_size

abbrev pub kernel_start : ℕ
kernel_start = 0x40000000 / page_size

abbrev pub kernel_pages : ℕ
kernel_pages = 0x01000000 / page_size

-- The pages of the bitmap, the low zone and the kernel are taken out again.
unfoldable pub lay_out : Bytes → List Descriptor → ℕ → Pmm
lay_out ram ds buffer =
    reserve
      (reserve
        (reserve (mark_free (all_used ram ds buffer) ds) (buffer / page_size)
          ((bitmap_size_of ds + 4095) / page_size))
        0 low_pages)
      kernel_start kernel_pages

unfoldable pub init : Bytes → List Descriptor → Option Pmm
init ram ds = elim (find_buffer (bitmap_size_of ds) ds) [
  | none ↦ none
  | some buffer ↦ some (lay_out ram ds buffer)
]
