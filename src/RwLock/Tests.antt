-- ===== src/RwLock/Tests.antt =====
-- Two threads on the lock: one reads, and the other one waits to write.
use morphic_os_dev.Base.{◌≤◌, ◌≡◌, ◌⊎◌, refl, [], ◌∷◌, arith}
use morphic_os_dev.RwLock.{
  idle, counted, reading, held, announced, sees_none, counts, passes, takes_lock, announces, System,
  moves, Reaches, start, then, initial,
}
use morphic_os_dev.RwLock.Exclusion.{tally, is_reading, is_writing, writer_alone}

abbrev contended : System
contended = record {
  lock = record { readers = 1; writer = 1; locked = 1 };
  threads = reading ∷ announced ∷ [];
}

contended_reached : Reaches (initial 2) contended
contended_reached =
    then
      (then
        (then
          (then (then start (moves [] (idle ∷ []) (sees_none refl))) (moves [] (idle ∷ []) counts))
          (moves (counted ∷ []) [] (takes_lock refl)))
        (moves [] (held ∷ []) (passes refl)))
      (moves (reading ∷ []) [] announces)

writer_alone_example :
    (tally is_writing contended.threads ≤ 1)
    × ((tally is_writing contended.threads ≡ 0) ⊎ (tally is_reading contended.threads ≡ 0))
writer_alone_example = writer_alone 2 (omega arith) contended contended_reached
