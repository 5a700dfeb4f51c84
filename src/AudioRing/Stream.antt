-- ===== src/AudioRing/Stream.antt =====
-- The producer and the consumer of the audio ring in any order.
use morphic_os_dev.Base.{
  ℕ, ◌≤◌, ◌≡◌, sym, ◌∙◌, ap, List, [], ◌∷◌, ◌++◌, append-nil, append_assoc, take, take-append-drop,
}
use morphic_os_dev.AudioRing.{Ring, write, read}
use morphic_os_dev.AudioRing.Fifo.{IsWord, contents, write_lem, read_lem}

pub data Call : Type 0 where
  writes : List ℕ → Call
  reads : ℕ → Call

module _ (k : ℕ) where
  -- The bytes that the calls take in, the bytes that they give out, and the ring after them.
  unfoldable pub run : Ring → List Call → List ℕ × List ℕ × Ring
  run r [] = ([], [], r)
  run r (writes bytes ∷ cs) =
      let (n, r') = write k r bytes in
      let (taken, given, end) = run r' cs in (take n bytes ++ taken, given, end)
  run r (reads wanted ∷ cs) =
      let (out, r') = read k r wanted in
      let (taken, given, end) = run r' cs in (taken, out ++ given, end)

-- However writes and reads follow one another, no byte is lost, made up or reordered: what was given
-- out and then what is still stored is what was stored at first and then what was taken in.
pub run_in_order :
    (k : ℕ) (fits : k ≤ 32) (cs : List Call) (r : Ring)
    → IsWord r
    → let (taken, given, end) = run k r cs in given ++ contents k end ≡ contents k r ++ taken
unfolding run
run_in_order k fits [] r w = sym (append-nil (contents k r))
run_in_order k fits (writes bytes ∷ cs) r w =
    let (n, c, w') = write_lem k fits r w bytes in
    run_in_order k fits cs (write k r bytes).1 w'
    ∙ rw c (
        append_assoc (contents k r) (take (write k r bytes).0 bytes)
          (run k (write k r bytes).1 cs).0)
run_in_order k fits (reads wanted ∷ cs) r w =
    let (out, c, w') = read_lem k fits r w wanted in
    let (given, r') = read k r wanted in
    let (taken, later, end) = run k r' cs in
    append_assoc given later (contents k end)
    ∙ ap (λ (l : List ℕ). given ++ l) (run_in_order k fits cs (read k r wanted).1 w')
    ∙ sym (append_assoc given (contents k r') taken)
    ∙ ap (λ (l : List ℕ). l ++ taken) (rw (out, c) (take-append-drop _ (contents k r)))
