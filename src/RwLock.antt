-- ===== src/RwLock.antt =====
-- kernel/arch/common/spinlock.h: the read-write lock with its spinlock, used by any number of threads.
-- A step is one atomic access of one thread.
pub mod Exclusion
mod Tests
use morphic_os_dev.Base.{
  add32, sub32, ℕ, zero, suc, ◌+◌, ◌-◌, ◌%◌, ◌^◌, ◌<◌, ◌≤◌, ◌≡◌, ◌≢◌, ◌⊎◌, List, [], ◌∷◌, ◌++◌,
}

-- `readers` is an `int32_t` as a bit pattern; `locked` is that of `write_lock`.
pub record RwLock : Type 0 where
  pub readers : ℕ
  pub writer : ℕ
  pub locked : ℕ

-- Where a thread stands: outside, in `ReadLock` after its accesses, reading, and likewise for writing.
pub data Phase : Type 0 where
  idle seen counted backing reading held announced writing leaving : Phase

pub data Move (l : RwLock) : Phase → RwLock → Phase → Type 0 where
  -- `while (lock->writer)`.
  sees_none : l.writer ≡ 0 → Move l idle l seen
  -- `__sync_fetch_and_add(&lock->readers, 1)`.
  counts : Move l seen (record l { readers = add32 l.readers 1 }) counted
  -- `if (lock->writer)`.
  passes : l.writer ≡ 0 → Move l counted l reading
  meets_writer : l.writer ≢ 0 → Move l counted l backing
  retries : Move l backing (record l { readers = sub32 l.readers 1 }) idle
  -- `ReadUnlock`.
  read_unlocks : Move l reading (record l { readers = sub32 l.readers 1 }) idle
  -- `Lock(&lock->write_lock)`, when the old value is 0.
  takes_lock : l.locked ≡ 0 → Move l idle (record l { locked = 1 }) held
  -- `__sync_fetch_and_add(&lock->writer, 1)`.
  announces : Move l held (record l { writer = add32 l.writer 1 }) announced
  -- `while (lock->readers > 0)`, signed.
  enters : (l.readers ≡ 0) ⊎ (2 ^ 31 ≤ l.readers) → Move l announced l writing
  -- `WriteUnlock`.
  withdraws : Move l writing (record l { writer = sub32 l.writer 1 }) leaving
  unlocks : Move l leaving (record l { locked = 0 }) idle

pub record System : Type 0 where
  pub lock : RwLock
  pub threads : List Phase

-- One thread moves. A round of a busy wait changes nothing and is left out.
pub data Step : System → System → Type 0 where
  moves :
      {l l' : RwLock} {p p' : Phase} (before after : List Phase)
      → Move l p l' p'
      → Step
          (record { lock = l; threads = before ++ p ∷ after })
          (record { lock = l'; threads = before ++ p' ∷ after })

pub data Reaches (s : System) : System → Type 0 where
  start : Reaches s s
  then : {t u : System} → Reaches s t → Step t u → Reaches s u

abbrev pub all_idle : ℕ → List Phase
all_idle zero = []
all_idle (suc n) = idle ∷ all_idle n

-- `RWLOCK_INIT`, and this many threads.
abbrev pub initial : ℕ → System
initial n = record { lock = record { readers = 0; writer = 0; locked = 0 }; threads = all_idle n }
