-- ===== src/AudioRing/Tests.antt =====
-- A ring of 8 bytes whose counters are about to wrap.
use morphic_os_dev.Base.{◌≡◌, ◌+◌, refl, List, [], ◌∷◌, ◌++◌, arith}
use morphic_os_dev.AudioRing.{Ring, write, read, copy_out, mask, write_available, read_available}
use morphic_os_dev.AudioRing.Fifo.{IsWord, contents}
use morphic_os_dev.AudioRing.Stream.{Call, writes, reads, run, run_in_order}

abbrev wrapping : Ring
wrapping = record { buffer = λ i. i + 10; write_pos = 1; read_pos = 0xffff_fffe }

wrapping-IsWord : IsWord wrapping
wrapping-IsWord = omega arith

write_stops_when_full : (write 3 wrapping (1 ∷ 2 ∷ 3 ∷ 4 ∷ 5 ∷ [])).0 ≡ 4
unfolding write write_available mask
write_stops_when_full = refl

read_wraps : (read 3 wrapping 9).0 ≡ 16 ∷ 17 ∷ 10 ∷ []
unfolding read read_available copy_out mask
read_wraps = refl

three_stored : read_available 3 wrapping ≡ 3
unfolding read_available mask
three_stored = refl

abbrev calls : List Call
calls = writes (1 ∷ 2 ∷ []) ∷ reads 4 ∷ writes (3 ∷ []) ∷ []

run_in_order_example :
    let (taken, given, end) = run 3 wrapping calls in
    given ++ contents 3 end ≡ contents 3 wrapping ++ taken
run_in_order_example = run_in_order 3 (omega arith) calls wrapping wrapping-IsWord
