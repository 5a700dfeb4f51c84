-- ===== src/KHeap/Tests.antt =====
-- A small heap on which the properties are applied.
use morphic_os_dev.Base.{
  ◌+◌, ◌≡◌, ◌⊎◌, ◌^◌, ◌-◌, refl, true, false, none, some, List, [], ◌∷◌, ◌++◌, arith,
}
use morphic_os_dev.KHeap.{KHeap, Memory, header_size, init, align, find_fit, allocate, free_block}
use morphic_os_dev.KHeap.Layout.{Segment, extent}
use morphic_os_dev.KHeap.FirstFit.{HeapOk, Unfit, fits, carve, allocate-Outcome}
use morphic_os_dev.KHeap.Free.{coalesce}
use morphic_os_dev.KHeap.Release.{init-HeapOk, free-HeapOk}
use morphic_os_dev.KHeap.RoundTrip.{free-allocate}
use morphic_os_dev.KHeap.Apart.{Joined}
use morphic_os_dev.KHeap.Overrun.{allocate_overrun}

abbrev blank : Memory
blank x = record { length = 0; next = 0; prev = 0; free = false; magic = 0 }

abbrev fresh : KHeap
fresh = init blank 4096 1024

abbrev whole : Segment
whole = record { size = 992; free = true }

fresh-HeapOk : HeapOk fresh (whole ∷ [])
fresh-HeapOk = init-HeapOk blank 4096 1024 (omega arith) (omega arith) (omega arith)

-- The first block begins behind the first header.
first_block : (allocate fresh 100).0 ≡ some 4128
unfolding allocate init find_fit align
first_block = refl

allocate-Outcome_example :
    (allocate fresh 100 ≡ (none, fresh)) × Unfit (align 100) (whole ∷ [])
    ⊎ ((before : List Segment) × (s : Segment) × (after : List Segment) × (whole ∷ []
          ≡ before ++ s ∷ after)
        × Unfit (align 100) before
        × (fits (align 100) s ≡ true)
        × ((allocate fresh 100).0 ≡ some (fresh.first_segment + extent before + header_size))
        × HeapOk (allocate fresh 100).1 (before ++ carve (align 100) s after))
unfolding align
allocate-Outcome_example =
    allocate-Outcome fresh (whole ∷ []) fresh-HeapOk 100 (omega arith) (omega arith)

free-HeapOk_example :
    HeapOk (free_block fresh (fresh.first_segment + extent [] + header_size)) (coalesce [] whole [])
free-HeapOk_example = free-HeapOk fresh [] whole [] fresh-HeapOk

allocate_overrun_example :
    (allocate fresh (2 ^ 64 - 16)).0 ≡ some (fresh.first_segment + header_size)
unfolding align
allocate_overrun_example =
    allocate_overrun fresh whole [] fresh-HeapOk refl (omega arith) (2 ^ 64 - 16) (omega arith)

free-allocate_example : HeapOk (free_block (allocate fresh 100).1 4128) (whole ∷ [])
unfolding align
free-allocate_example =
    free-allocate fresh (whole ∷ []) fresh-HeapOk tt 100 4128 (omega arith) (omega arith)
      first_block

fresh-Joined : Joined fresh
unfolding Joined
fresh-Joined = (whole ∷ [], fresh-HeapOk, tt)
