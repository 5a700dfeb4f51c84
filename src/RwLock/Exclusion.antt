-- ===== src/RwLock/Exclusion.antt =====
-- Mutual exclusion of the read-write lock: an invariant that counts the threads in each phase.
use morphic_os_dev.Base.{
  ℕ, zero, suc, ◌+◌, ◌^◌, ◌<◌, ◌≤◌, ◌≡◌, refl, sym, ap, ◌⊎◌, inl, List, [], ◌∷◌, ◌++◌, arith,
  length, length-append,
}
use morphic_os_dev.RwLock.{
  RwLock, Phase, idle, seen, counted, backing, reading, held, announced, writing, leaving, Move,
  sees_none, counts, passes, meets_writer, retries, read_unlocks, takes_lock, announces, enters,
  withdraws, unlocks, System, Step, moves, Reaches, start, then, all_idle, initial,
}

abbrev as_reader : Phase → ℕ
as_reader counted = 1
as_reader backing = 1
as_reader reading = 1
as_reader _ = 0

abbrev as_writer : Phase → ℕ
as_writer announced = 1
as_writer writing = 1
as_writer _ = 0

abbrev as_holder : Phase → ℕ
as_holder held = 1
as_holder announced = 1
as_holder writing = 1
as_holder leaving = 1
as_holder _ = 0

abbrev pub is_reading : Phase → ℕ
is_reading reading = 1
is_reading _ = 0

abbrev pub is_writing : Phase → ℕ
is_writing writing = 1
is_writing _ = 0

-- The number of threads that a weight counts.
abbrev pub tally : (Phase → ℕ) → List Phase → ℕ
tally w [] = 0
tally w (p ∷ ps) = w p + tally w ps

tally-append : (w : Phase → ℕ) (ps qs : List Phase) → tally w (ps ++ qs) ≡ tally w ps + tally w qs
tally-append w [] qs = omega arith
tally-append w (p ∷ ps) qs = omega (arith, tally-append w ps qs)

-- The weights are ordered.
Ordered : (Phase → ℕ) → (Phase → ℕ) → Type 0
Ordered v w = (p : Phase) → v p ≤ w p

tally-Ordered : (v w : Phase → ℕ) → Ordered v w → (ps : List Phase) → tally v ps ≤ tally w ps
unfolding Ordered
tally-Ordered v w o [] = omega arith
tally-Ordered v w o (p ∷ ps) = omega (arith, o p, tally-Ordered v w o ps)

is_writing-Ordered : Ordered is_writing as_writer
unfolding Ordered
is_writing-Ordered idle = omega arith
is_writing-Ordered seen = omega arith
is_writing-Ordered counted = omega arith
is_writing-Ordered backing = omega arith
is_writing-Ordered reading = omega arith
is_writing-Ordered held = omega arith
is_writing-Ordered announced = omega arith
is_writing-Ordered writing = omega arith
is_writing-Ordered leaving = omega arith

as_writer-Ordered : Ordered as_writer as_holder
unfolding Ordered
as_writer-Ordered idle = omega arith
as_writer-Ordered seen = omega arith
as_writer-Ordered counted = omega arith
as_writer-Ordered backing = omega arith
as_writer-Ordered reading = omega arith
as_writer-Ordered held = omega arith
as_writer-Ordered announced = omega arith
as_writer-Ordered writing = omega arith
as_writer-Ordered leaving = omega arith

is_reading-Ordered : Ordered is_reading as_reader
unfolding Ordered
is_reading-Ordered idle = omega arith
is_reading-Ordered seen = omega arith
is_reading-Ordered counted = omega arith
is_reading-Ordered backing = omega arith
is_reading-Ordered reading = omega arith
is_reading-Ordered held = omega arith
is_reading-Ordered announced = omega arith
is_reading-Ordered writing = omega arith
is_reading-Ordered leaving = omega arith

one_reader : (p : Phase) → as_reader p ≤ 1
one_reader idle = omega arith
one_reader seen = omega arith
one_reader counted = omega arith
one_reader backing = omega arith
one_reader reading = omega arith
one_reader held = omega arith
one_reader announced = omega arith
one_reader writing = omega arith
one_reader leaving = omega arith

tally-length : (ps : List Phase) → tally as_reader ps ≤ length ps
tally-length [] = omega arith
tally-length (p ∷ ps) = omega (arith, one_reader p, tally-length ps)

-- What the counters of the lock say of the numbers of threads in the phases.
abbrev Sound : RwLock → ℕ → ℕ → ℕ → ℕ → ℕ → ℕ → Type 0
Sound l readers writers holders reads writes size =
    (l.readers ≡ readers)
    × (l.writer ≡ writers)
    × (l.locked ≡ holders)
    × (holders ≤ 1)
    × (size < 2 ^ 31)
    × ((writes ≡ 0) ⊎ (reads ≡ 0))

-- The numbers of the threads that do not move.
abbrev Others : ℕ → ℕ → ℕ → ℕ → ℕ → ℕ → Type 0
Others readers writers holders reads writes size =
    (readers < size) × (reads ≤ readers) × (writers ≤ holders) × (writes ≤ writers)

module _ (r w h d t n : ℕ) (o : Others r w h d t n) where
  At : RwLock → Phase → Type 0
  At l p =
      Sound l (as_reader p + r) (as_writer p + w) (as_holder p + h) (is_reading p + d)
        (is_writing p + t) n

  Move-Sound : {l l' : RwLock} {p p' : Phase} → Move l p l' p' → At l p → At l' p'
  unfolding At
  Move-Sound (sees_none e) s = ground arith
  Move-Sound counts s = ground arith
  Move-Sound (passes e) s = ground arith
  Move-Sound (meets_writer e) s = ground arith
  Move-Sound retries s = ground arith
  Move-Sound read_unlocks s = ground arith
  Move-Sound (takes_lock e) s = ground arith
  Move-Sound announces s = ground arith
  Move-Sound (enters e) s = ground arith
  Move-Sound withdraws s = ground arith
  Move-Sound unlocks s = ground arith

-- The numbers of the threads around one.
around : (Phase → ℕ) → List Phase → List Phase → ℕ
around w before after = tally w before + tally w after

tally-around :
    (w : Phase → ℕ) (before : List Phase) (p : Phase) (after : List Phase)
    → tally w (before ++ p ∷ after) ≡ w p + around w before after
unfolding around
tally-around w before p after = omega (arith, tally-append w before (p ∷ after))

around-Ordered :
    (v w : Phase → ℕ)
    → Ordered v w
    → (before after : List Phase) → around v before after ≤ around w before after
unfolding around
around-Ordered v w o before after =
    omega (arith, tally-Ordered v w o before, tally-Ordered v w o after)

around-Others :
    (before : List Phase) (p : Phase) (after : List Phase)
    → Others
        (around as_reader before after)
        (around as_writer before after)
        (around as_holder before after)
        (around is_reading before after)
        (around is_writing before after)
        (length (before ++ p ∷ after))
unfolding around
around-Others before p after = (
  omega (arith, tally-length before, tally-length after, length-append before (p ∷ after)),
  around-Ordered is_reading as_reader is_reading-Ordered before after,
  around-Ordered as_writer as_holder as_writer-Ordered before after,
  around-Ordered is_writing as_writer is_writing-Ordered before after,
)

SoundSystem : System → Type 0
SoundSystem s =
    Sound s.lock (tally as_reader s.threads) (tally as_writer s.threads) (tally as_holder s.threads)
      (tally is_reading s.threads) (tally is_writing s.threads) (length s.threads)

same_size :
    (before : List Phase) (p p' : Phase) (after : List Phase)
    → length (before ++ p ∷ after) ≡ length (before ++ p' ∷ after)
same_size before p p' after =
    omega (arith, length-append before (p ∷ after), length-append before (p' ∷ after))

Step-SoundSystem : {s t : System} → Step s t → SoundSystem s → SoundSystem t
unfolding SoundSystem At
Step-SoundSystem (moves {p} {p'} before after m) s =
    rw
      (
        tally-around as_reader before p' after,
        tally-around as_writer before p' after,
        tally-around as_holder before p' after,
        tally-around is_reading before p' after,
        tally-around is_writing before p' after,
        ← same_size before p p' after,
      )
      (Move-Sound _ _ _ _ _ _ (around-Others before p after) m (
        rw
          (
            ← tally-around as_reader before p after,
            ← tally-around as_writer before p after,
            ← tally-around as_holder before p after,
            ← tally-around is_reading before p after,
            ← tally-around is_writing before p after,
          )
          s))

idle-none : (w : Phase → ℕ) → w idle ≡ 0 → (n : ℕ) → tally w (all_idle n) ≡ 0
idle-none w e zero = refl
idle-none w e (suc n) = omega (arith, e, idle-none w e n)

idle-length : (n : ℕ) → length (all_idle n) ≡ n
idle-length zero = refl
idle-length (suc n) = ap suc (idle-length n)

initial-SoundSystem : (n : ℕ) → n < 2 ^ 31 → SoundSystem (initial n)
unfolding SoundSystem
initial-SoundSystem n lt = (
  sym (idle-none as_reader refl n),
  sym (idle-none as_writer refl n),
  sym (idle-none as_holder refl n),
  omega (arith, idle-none as_holder refl n),
  omega (arith, idle-length n),
  inl (idle-none is_writing refl n),
)

reached-SoundSystem : (n : ℕ) → n < 2 ^ 31 → {s : System} → Reaches (initial n) s → SoundSystem s
reached-SoundSystem n lt start = initial-SoundSystem n lt
reached-SoundSystem n lt (then r m) = Step-SoundSystem m (reached-SoundSystem n lt r)

-- Mutual exclusion: however fewer than 2 ^ 31 threads interleave on the read-write lock, at most one
-- of them writes at a time, and none reads while one writes.
pub writer_alone :
    (n : ℕ)
    → n < 2 ^ 31
    → (s : System) → Reaches (initial n) s
    → (tally is_writing s.threads ≤ 1)
      × ((tally is_writing s.threads ≡ 0) ⊎ (tally is_reading s.threads ≡ 0))
unfolding SoundSystem
writer_alone n lt s r =
    let (_, _, _, single, _, apart) = reached-SoundSystem n lt r in
    (
      omega (
        arith,
        single,
        tally-Ordered is_writing as_writer is_writing-Ordered s.threads,
        tally-Ordered as_writer as_holder as_writer-Ordered s.threads,
      ),
      apart,
    )
