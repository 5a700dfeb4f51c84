-- ===== src/MLock.antt =====
-- kernel/mm/mlock.h: the regions of memory that are locked. The 16 slots are a list.
pub mod Slots
pub mod Covering
mod Tests
use morphic_os_dev.Base.{
  ℕ, zero, suc, ◌+◌, ◌-◌, ◌*◌, ◌/◌, ◌%◌, Bool, true, false, ◌&&◌, ◌||◌, Option, none, some, List,
  [], ◌∷◌, ltb, leb, ◌==◌, if◌then◌else◌, add64, sub64,
}

pub record LockedRegion : Type 0 where
  pub start : ℕ
  pub size : ℕ
  pub active : Bool

pub record MLock : Type 0 where
  pub regions : List LockedRegion
  pub count : ℕ

abbrev pub max_locked_regions : ℕ
max_locked_regions = 16

-- `addr & ~0xFFF`.
abbrev pub page_start : ℕ → ℕ
page_start addr = addr / 4096 * 4096

-- `(size + 0xFFF) & ~0xFFF`.
abbrev pub page_size_up : ℕ → ℕ
page_size_up size = add64 size 0xFFF / 4096 * 4096

abbrev pub region_end : LockedRegion → ℕ
region_end r = add64 r.start r.size

abbrev pub overlaps : ℕ → ℕ → LockedRegion → Bool
overlaps start size r = r.active && ltb start (region_end r) && ltb r.start (add64 start size)

-- The region, extended to hold the new one: first below, then above; `end1` is its old end.
abbrev pub extend_below : ℕ → LockedRegion → LockedRegion
extend_below start r =
    if ltb start r.start
    then record r { start = start; size = add64 r.size (sub64 r.start start) }
    else r

abbrev pub extend_above : ℕ → ℕ → LockedRegion → LockedRegion
extend_above end1 end2 r = if ltb end1 end2 then record r { size = sub64 end2 r.start } else r

abbrev pub extend : ℕ → ℕ → LockedRegion → LockedRegion
extend start size r = extend_above (region_end r) (add64 start size) (extend_below start r)

-- `for (i = 0; i < lockedCount; i++)`: the first of these slots that overlaps is extended.
unfoldable pub merge_first : ℕ → ℕ → ℕ → List LockedRegion → Option (List LockedRegion)
merge_first zero start size rs = none
merge_first (suc n) start size [] = none
merge_first (suc n) start size (r ∷ rs) =
    let rest : Option (List LockedRegion) = elim (merge_first n start size rs) [
      | some rs' ↦ some (r ∷ rs')
      | none ↦ none
    ] in
    if overlaps start size r then some (extend start size r ∷ rs) else rest

-- The first slot that is not active takes the region.
unfoldable pub add_first : ℕ → ℕ → List LockedRegion → Option (List LockedRegion)
add_first start size [] = none
add_first start size (r ∷ rs) =
    let rest : Option (List LockedRegion) = elim (add_first start size rs) [
      | some rs' ↦ some (r ∷ rs')
      | none ↦ none
    ] in
    if r.active then rest else some (record { start = start; size = size; active = true } ∷ rs)

unfoldable pub lock : MLock → ℕ → ℕ → Bool × MLock
lock l addr size =
    let start = page_start addr in
    let aligned = page_size_up size in
    if leb max_locked_regions l.count
    then (false, l)
    else elim (merge_first l.count start aligned l.regions) [
      | some rs ↦ (true, record l { regions = rs })
      | none ↦ elim (add_first start aligned l.regions) [
        | some rs ↦ (true, record { regions = rs; count = l.count + 1 })
        | none ↦ (false, l)
      ]
    ]

unfoldable pub drop_first : ℕ → List LockedRegion → Option (List LockedRegion)
drop_first target [] = none
drop_first target (r ∷ rs) =
    let rest : Option (List LockedRegion) = elim (drop_first target rs) [
      | some rs' ↦ some (r ∷ rs')
      | none ↦ none
    ] in
    if r.active && r.start == target then some (record r { active = false } ∷ rs) else rest

unfoldable pub unlock : MLock → ℕ → Bool × MLock
unlock l addr = elim (drop_first (page_start addr) l.regions) [
  | some rs ↦ (true, record { regions = rs; count = l.count - 1 })
  | none ↦ (false, l)
]

abbrev pub within : ℕ → LockedRegion → Bool
within target r = r.active && leb r.start target && ltb target (region_end r)

unfoldable pub is_locked_in : ℕ → List LockedRegion → Bool
is_locked_in target [] = false
is_locked_in target (r ∷ rs) = if within target r then true else is_locked_in target rs

unfoldable pub is_locked : MLock → ℕ → Bool
unfolding is_locked_in
is_locked l addr = is_locked_in addr l.regions

unfoldable pub inactive : List LockedRegion → List LockedRegion
inactive [] = []
inactive (r ∷ rs) = record r { active = false } ∷ inactive rs

unfoldable pub init_locks : MLock → MLock
unfolding inactive
init_locks l = record { regions = inactive l.regions; count = 0 }

unfoldable pub total_size : ℕ → List LockedRegion → ℕ
total_size total [] = total
total_size total (r ∷ rs) = total_size (if r.active then add64 total r.size else total) rs

unfoldable pub get_locked_size : MLock → ℕ
unfolding total_size
get_locked_size l = total_size 0 l.regions
