-- ===== src/Pmm/Tests.antt =====
-- The allocator at concrete states and memory maps.
use mathlib.Core.Logic.{◌⊎◌}
use morphic_os_dev.Base.{◌≡◌, ◌≢◌, ◌≤◌, refl, false, List, [], ◌∷◌, ℕ, ◌%◌, ◌^◌, ◌<◌, arith, some}
use morphic_os_dev.Base.Bits.{bit_and-zero_left}
use morphic_os_dev.Bitmap
use morphic_os_dev.Pmm.{
  Pmm, alloc_page, alloc_contiguous, free_page, first_free, take_page, take_bit, take_run, find_run,
  first_used,
}
use morphic_os_dev.Pmm.Spec.{IsValid, Outcome}
use morphic_os_dev.Pmm.Page.{AllUsed, alloc_page-Outcome, Frees, free_page-Frees}
use morphic_os_dev.Pmm.Contiguous.{NoRun, alloc_contiguous-Outcome, alloc_contiguous_overrun}
use morphic_os_dev.Pmm.History.{
  Call, allocs_page, allocs_run, frees, run, Keeps, run-Keeps, alloc_page_twice,
  alloc_contiguous_twice, step,
}
use morphic_os_dev.Pmm.Boot.{
  Descriptor, bitmap_size_of, top_of, find_buffer, find_high, find_any, is_usable, init, lay_out,
}
use morphic_os_dev.Pmm.Boot.Layout.{Housed, LaidOut, init-LaidOut}

-- 24 pages, of which the low four of each eight are used.
abbrev striped : Pmm
striped = record {
  bitmap = record { base = 0x100000; bytes = λ i. 0x0f; size = 4 };
  total_ram = 0x18000;
  free_ram = 0xc000;
  bitmap_size = 4;
  highest_addr = 0x18000;
  last_free_index = 6;
}

striped-IsValid : IsValid striped
striped-IsValid = omega arith

-- 512 MB and a page, all free.
abbrev empty_memory : Pmm
empty_memory = record {
  bitmap = record { base = 0x100000; bytes = λ i. 0; size = 16385 };
  total_ram = 0x20001000;
  free_ram = 0x20001000;
  bitmap_size = 16385;
  highest_addr = 0x20001000;
  last_free_index = 0;
}

empty_memory-IsValid : IsValid empty_memory
empty_memory-IsValid = omega arith

first_page : alloc_page striped ≡ (some 0x6000, take_page striped 6)
unfolding alloc_page first_free Bitmap.get
first_page = refl

alloc_page-Outcome_example : Outcome (AllUsed striped) striped 1 (alloc_page striped)
alloc_page-Outcome_example = alloc_page-Outcome striped striped-IsValid

free_page-Frees_example : Frees striped (free_page striped 0x9008) 9
free_page-Frees_example = free_page-Frees striped 0x9008 striped-IsValid (omega arith)

alloc_contiguous-Outcome_example :
    Outcome
      (NoRun empty_memory.bitmap 65536 131069 4)
      empty_memory
      4
      (alloc_contiguous empty_memory 4)
alloc_contiguous-Outcome_example =
    alloc_contiguous-Outcome empty_memory 4 empty_memory-IsValid (omega arith)

-- A machine of 96 KB asked for 25 pages.
abbrev clear_memory : Pmm
clear_memory = record striped { bitmap = record { base = 0x100000; bytes = λ i. 0; size = 4 } }

clear_bit : (k : ℕ) → Bitmap.get clear_memory.bitmap k ≡ false
unfolding Bitmap.get
clear_bit k = rw (bit_and-zero_left (2 ^ (k % 8)))

alloc_contiguous_overrun_example :
    ((alloc_contiguous clear_memory 25).0 ≡ some 0x10000000) × (24 < 65561)
alloc_contiguous_overrun_example =
    alloc_contiguous_overrun clear_memory 25 (omega arith) (omega arith) (omega arith)
      (λ k lo hi. clear_bit k)

abbrev history : List Call
history = frees 0x9000 ∷ allocs_page ∷ allocs_run 3 ∷ []

run-Keeps_example : Keeps striped (run striped history)
run-Keeps_example = run-Keeps striped history striped-IsValid (omega arith)

second_page :
    alloc_page (run (take_page striped 6) (frees 0x9000 ∷ []))
    ≡ (some 0x7000, take_page (run (take_page striped 6) (frees 0x9000 ∷ [])) 7)
unfolding alloc_page first_free Bitmap.get run step free_page take_page take_bit Bitmap.put
second_page = refl

alloc_page_twice_example : ◌≢◌ {A = ℕ} 0x6000 0x7000
alloc_page_twice_example =
    alloc_page_twice striped (take_page striped 6)
      (take_page (run (take_page striped 6) (frees 0x9000 ∷ [])) 7) (frees 0x9000 ∷ []) 0x6000
      0x7000 striped-IsValid first_page (omega arith) (omega arith) second_page

abbrev usual_map : List Descriptor
usual_map =
    record { kind = 7; phys_addr = 0x10000000; num_pages = 0x40000 }
    ∷ record { kind = 0; phys_addr = 0x50000000; num_pages = 16 }
    ∷ []

usual_boot : init (λ i. 0) usual_map ≡ some (lay_out (λ i. 0) usual_map 0x10000000)
unfolding init find_buffer find_high find_any is_usable top_of
usual_boot = refl

init-LaidOut_example :
    (buffer : ℕ) × Housed (bitmap_size_of usual_map) buffer usual_map
    × LaidOut usual_map buffer (lay_out (λ i. 0) usual_map 0x10000000)
init-LaidOut_example =
    init-LaidOut (λ i. 0) usual_map (lay_out (λ i. 0) usual_map 0x10000000) (omega arith)
      (omega arith) usual_boot

first_block :
    alloc_contiguous empty_memory 4
    ≡ (some 0x10000000, record (take_run 4 empty_memory 65536) { last_free_index = 65540 })
unfolding alloc_contiguous find_run first_used Bitmap.get take_run take_bit
first_block = refl

abbrev after_block : Pmm
after_block = record (take_run 4 empty_memory 65536) { last_free_index = 65540 }

second_block :
    alloc_contiguous (run after_block (allocs_page ∷ [])) 2
    ≡ (some 0x10005000, (alloc_contiguous (run after_block (allocs_page ∷ [])) 2).1)
unfolding alloc_contiguous find_run first_used Bitmap.get take_run take_bit run step alloc_page
    first_free take_page Bitmap.put
second_block = refl

alloc_contiguous_twice_example : (0x10007000 ≤ 0x10000000) ⊎ (0x10004000 ≤ 0x10005000)
alloc_contiguous_twice_example =
    alloc_contiguous_twice empty_memory after_block
      (alloc_contiguous (run after_block (allocs_page ∷ [])) 2).1 (allocs_page ∷ []) 4 2 0x10000000
      0x10005000 empty_memory-IsValid (omega arith) (omega arith) (omega arith) (omega arith)
      first_block (tt, tt) (λ i lo hi. (tt, tt)) second_block

abbrev small_map : List Descriptor
small_map = record { kind = 7; phys_addr = 0x10000000; num_pages = 0x8000 } ∷ []

small_boot : init (λ i. 0) small_map ≡ some (lay_out (λ i. 0) small_map 0x10000000)
unfolding init find_buffer find_high find_any is_usable top_of
small_boot = refl
