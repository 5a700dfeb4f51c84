-- ===== src/MLock/Tests.antt =====
-- Runs of mlock.h, and instances of the theorems.
use Prim.Native.Nat.{ℕ, zero, suc}
use mathlib.Core.Logic.{◌⊎◌}
use morphic_os_dev.Base.{◌≡◌, refl, true, false, ◌||◌, List, [], ◌∷◌, arith}
use morphic_os_dev.MLock.{
  LockedRegion, MLock, lock, unlock, is_locked, merge_first, add_first, drop_first, is_locked_in,
}
use morphic_os_dev.MLock.Slots.{Fits, active_count}
use morphic_os_dev.MLock.Covering.{Valid, in_page_of, lock-Covers}

abbrev copies : ℕ → List LockedRegion
copies zero = []
copies (suc n) = record { start = 0; size = 0; active = false } ∷ copies n

abbrev no_locks : MLock
no_locks = record { regions = copies 16; count = 0 }

lock_page : lock no_locks 0x1234 0x800 ≡ (
  true,
  record {
    regions = record { start = 0x1000; size = 0x1000; active = true } ∷ copies 15;
    count = 1;
  },
)
unfolding lock merge_first add_first
lock_page = refl

unlock_page : (unlock (lock no_locks 0x1234 0x800).1 0x1FFF).0 ≡ true
unfolding lock merge_first add_first unlock drop_first
unlock_page = refl

-- The last of the two pages of the bytes from 0x1800 to 0x27FF is not locked.
last_page : is_locked (lock no_locks 0x1800 0x1000).1 0x2000 ≡ false
unfolding lock merge_first add_first is_locked is_locked_in
last_page = refl

none_active : (n : ℕ) → Fits (copies n)
none_active zero = tt
none_active (suc n) = ((λ e. absurd (ground (arith, e))), none_active n)

no_locks-Valid : Valid no_locks
no_locks-Valid = record { slots = refl; counted = refl; fits = none_active 16 }

lock-Covers_example :
    ((lock no_locks 0x1000 0x800 ≡ (false, no_locks)) × (active_count (copies 16) ≡ 16))
    ⊎ (((lock no_locks 0x1000 0x800).0 ≡ true)
        × Valid (lock no_locks 0x1000 0x800).1
        × ((x : ℕ)
            → is_locked (lock no_locks 0x1000 0x800).1 x
              ≡ (is_locked no_locks x || in_page_of 0x1000 0x800 x)))
lock-Covers_example = lock-Covers no_locks 0x1000 0x800 no_locks-Valid refl (omega arith)
