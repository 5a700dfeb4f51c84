-- ===== src/AudioRing/Fifo.antt =====
-- The ring as a queue of at most 2 ^ k - 1 bytes: what it holds, and what each method does to that.
use native.Mathlib.Nat.{
  mod-lt, mod-le, div-add-mod', mod-eq_of_lt, one-le-pow, mod-add-mod, add-mod-mod,
}
use morphic_os_dev.Base.{
  ℕ, zero, suc, ◌+◌, ◌-◌, ◌/◌, ◌%◌, ◌^◌, ◌≤◌, ◌<◌, min, ◌≡◌, refl, sym, ap, ◌∙◌, List, [], ◌∷◌,
  ◌++◌, append-nil, append_assoc, arith, ltb, if◌then◌else◌, update, length, take, drop,
  length-take,
}
use morphic_os_dev.AudioRing.{
  Ring, mask, read_available, write_available, copy_in, write, copy_out, read, advance_read, add32,
}
use morphic_os_dev.Base.Bits.{mod_unique}
use morphic_os_dev.Base.Span.{
  span, length-span, span-mod, span-suc, span-push, take-span, span-at, drop-span,
}
use morphic_os_dev.AudioRing.Index.{wrap-mod, mask-wrap, mask-mod}

-- The counters fit their type.
pub record IsWord (r : Ring) : Type 0 where
  pub write_word : r.write_pos < 2 ^ 32
  pub read_word : r.read_pos < 2 ^ 32

-- How far the writer is ahead of the reader.
ahead : ℕ → Ring → ℕ
ahead k r = (r.write_pos + 2 ^ 32 - r.read_pos) % 2 ^ k

-- The bytes that are stored, oldest first.
pub contents : ℕ → Ring → List ℕ
unfolding ahead
contents k r = span (2 ^ k) r.buffer r.read_pos (ahead k r)

module _ (k : ℕ) (fits : k ≤ 32) where
  next_index : (h n : ℕ) → mask k (add32 ((h + n) % 2 ^ k) 1) ≡ (h + suc n) % 2 ^ k
  next_index h n =
      mask-wrap k fits ((h + n) % 2 ^ k + 1)
      ∙ mod-add-mod (h + n) (2 ^ k) 1
      ∙ ap (λ (t : ℕ). t % 2 ^ k) (omega arith)

  copy_in-span :
      (xs : List ℕ) (buffer : ℕ → ℕ) (h n m w : ℕ)
      → w ≡ (h + n) % 2 ^ k
      → m ≡ n + length xs
      → m ≤ 2 ^ k
      → span (2 ^ k) (copy_in k xs buffer w) h m ≡ span (2 ^ k) buffer h n ++ xs
  unfolding copy_in
  copy_in-span [] buffer h n m w e em le =
      span-at (2 ^ k) buffer h h m n refl (omega arith) ∙ sym (append-nil _)
  copy_in-span (x ∷ xs) buffer h n m w e em le =
      copy_in-span xs (update buffer w x) h (suc n) m _ (rw e (next_index h n)) (omega arith) le
      ∙ rw (e, span-push (2 ^ k) buffer h n x (omega arith))
          (append_assoc (span (2 ^ k) buffer h n) (x ∷ []) xs)

  copy_out-span :
      (n : ℕ) (buffer : ℕ → ℕ) (h : ℕ) → copy_out k n buffer (h % 2 ^ k) ≡ span (2 ^ k) buffer h n
  unfolding copy_out span
  copy_out-span zero buffer h = refl
  copy_out-span (suc n) buffer h =
      ap (λ (l : List ℕ). buffer (h % 2 ^ k) ∷ l) (rw next (copy_out-span n buffer (h + 1)))
      ∙ sym (span-suc (2 ^ k) buffer h n)
    where
      next : mask k (add32 (h % 2 ^ k) 1) ≡ (h + 1) % 2 ^ k
      next = mask-wrap k fits (h % 2 ^ k + 1) ∙ mod-add-mod h (2 ^ k) 1

  wrap-add : (x y : ℕ) → (x % 2 ^ 32 + y) % 2 ^ k ≡ (x + y) % 2 ^ k
  wrap-add x y =
      sym (mod-add-mod (x % 2 ^ 32) (2 ^ k) y)
      ∙ ap (λ (t : ℕ). (t + y) % 2 ^ k) (wrap-mod k fits x)
      ∙ mod-add-mod x (2 ^ k) y

  size_pos : 0 < 2 ^ k
  size_pos = one-le-pow k 2 (omega arith)

  ahead-lt : (r : Ring) → ahead k r < 2 ^ k
  unfolding ahead
  ahead-lt r = mod-lt (r.write_pos + 2 ^ 32 - r.read_pos) size_pos

  length-contents : (r : Ring) → length (contents k r) ≡ ahead k r
  unfolding contents
  length-contents r = length-span (2 ^ k) r.buffer r.read_pos (ahead k r)

  pub read_available-length : (r : Ring) → read_available k r ≡ length (contents k r)
  unfolding read_available ahead
  read_available-length r =
      mask-wrap k fits (r.write_pos + 2 ^ 32 - r.read_pos) ∙ sym (length-contents r)

  -- The free space and the contents make up the capacity, one byte less than the buffer.
  pub write_available-add-length :
      (r : Ring) → write_available k r + length (contents k r) ≡ 2 ^ k - 1
  unfolding write_available ahead
  write_available-add-length r =
      omega
        (arith, mask-wrap k fits (r.write_pos + 2 ^ 32 - r.read_pos), length-contents r, ahead-lt r)

  module _ (r : Ring) (w : IsWord r) where
    -- The writer's index is the one just past the contents.
    write_index : mask k r.write_pos ≡ (r.read_pos + ahead k r) % 2 ^ k
    unfolding ahead
    write_index =
        mask-mod k r.write_pos
        ∙ sym (wrap-mod k fits r.write_pos)
        ∙ ap (λ (t : ℕ). t % 2 ^ k) {x = r.write_pos % 2 ^ 32} {y = (r.write_pos + 2 ^ 32) % 2 ^ 32}
            (omega arith)
        ∙ wrap-mod k fits (r.write_pos + 2 ^ 32)
        ∙ ap (λ (t : ℕ). t % 2 ^ k) {x = r.write_pos + 2 ^ 32}
            {y = r.read_pos + (r.write_pos + 2 ^ 32 - r.read_pos)} (omega (arith, w.read_word))
        ∙ sym (add-mod-mod r.read_pos (r.write_pos + 2 ^ 32 - r.read_pos) (2 ^ k))

    ahead-add :
        (n : ℕ)
        → ahead k r + n < 2 ^ k
        → (add32 r.write_pos n + 2 ^ 32 - r.read_pos) % 2 ^ k ≡ ahead k r + n
    unfolding ahead
    ahead-add n lt =
        ap (λ (t : ℕ). t % 2 ^ k) {x = add32 r.write_pos n + 2 ^ 32 - r.read_pos}
          {y = add32 r.write_pos n + (2 ^ 32 - r.read_pos)} (omega (arith, w.read_word))
        ∙ wrap-add (r.write_pos + n) (2 ^ 32 - r.read_pos)
        ∙ ap (λ (t : ℕ). t % 2 ^ k) {x = r.write_pos + n + (2 ^ 32 - r.read_pos)}
            {y = r.write_pos + 2 ^ 32 - r.read_pos + n} (omega (arith, w.read_word))
        ∙ sym (mod-add-mod (r.write_pos + 2 ^ 32 - r.read_pos) (2 ^ k) n)
        ∙ mod-eq_of_lt lt

    ahead-sub :
        (n : ℕ)
        → n ≤ ahead k r
        → (r.write_pos + 2 ^ 32 - add32 r.read_pos n) % 2 ^ k ≡ ahead k r - n
    unfolding ahead
    ahead-sub n le =
        sym (wrap-mod k fits (r.write_pos + 2 ^ 32 - add32 r.read_pos n))
        ∙ ap (λ (t : ℕ). t % 2 ^ k) {x = (r.write_pos + 2 ^ 32 - add32 r.read_pos n) % 2 ^ 32}
            {y = (gap - n) % 2 ^ 32} (omega (arith, w.read_word, small))
        ∙ wrap-mod k fits (gap - n)
        ∙ mod_unique (gap / 2 ^ k) (2 ^ k) (gap % 2 ^ k - n) (gap - n)
            (omega (arith, mod-lt gap size_pos)) (omega (arith, div-add-mod' gap (2 ^ k)))
      where
        gap : ℕ
        gap = r.write_pos + 2 ^ 32 - r.read_pos

        small : n ≤ gap
        small = omega (arith, mod-le gap (2 ^ k))

    appended :
        (n : ℕ) (bytes : List ℕ)
        → n ≤ length bytes
        → ahead k r + n < 2 ^ k
        → contents k (record r {
          buffer = copy_in k (take n bytes) r.buffer (mask k r.write_pos);
          write_pos = add32 r.write_pos n;
        })
          ≡ contents k r ++ take n bytes
    unfolding contents
    appended n bytes le lt = rw (ahead-add n lt) (
        copy_in-span (take n bytes) r.buffer r.read_pos (ahead k r) (ahead k r + n)
          (mask k r.write_pos) write_index (omega (arith, length-take n bytes)) (omega arith))

    -- `Write` takes as many bytes as there is room for, from the front of what it is given, and
    -- appends them to the contents.
    pub write_lem :
        (bytes : List ℕ)
        → let (n, r') = write k r bytes in
          (n ≡ min (length bytes) (2 ^ k - 1 - length (contents k r)))
          × (contents k r' ≡ contents k r ++ take n bytes)
          × IsWord r'
    unfolding write
    write_lem bytes = (
      ground (arith, room),
      appended taken bytes (ground arith) (ground (arith, room, length-contents r, ahead-lt r)),
      record { write_word = omega arith; read_word = w.read_word },
    )
      where
        taken : ℕ
        taken =
            if ltb (write_available k r) (length bytes) then write_available k r else length bytes

        room : write_available k r + length (contents k r) ≡ 2 ^ k - 1
        room = write_available-add-length r

    removed :
        (n : ℕ)
        → n ≤ ahead k r
        → (copy_out k n r.buffer (mask k r.read_pos) ≡ take n (contents k r))
          × (contents k (record r { read_pos = add32 r.read_pos n }) ≡ drop n (contents k r))
    unfolding contents
    removed n le = (
      rw (
        mask-mod k r.read_pos,
        copy_out-span n r.buffer r.read_pos,
        take-span (2 ^ k) r.buffer r.read_pos n (ahead k r) le,
      ),
      rw (ahead-sub n le, drop-span (2 ^ k) r.buffer r.read_pos n (ahead k r) le)
          (span-mod (2 ^ k) r.buffer (add32 r.read_pos n) (r.read_pos + n) (ahead k r - n)
            (wrap-mod k fits (r.read_pos + n))),
    )

    -- `Read` returns and removes as many of the oldest bytes as are asked for and there.
    pub read_lem :
        (wanted : ℕ)
        → let (out, r') = read k r wanted in
          (out ≡ take (min wanted (length (contents k r))) (contents k r))
          × (contents k r' ≡ drop (min wanted (length (contents k r))) (contents k r))
          × IsWord r'
    unfolding read
    read_lem wanted =
        let n = min wanted (length (contents k r)) in
        let (out, rest) = removed n (omega (arith, length-contents r)) in
        rw (same, read) (out, rest, record { write_word = w.write_word; read_word = omega arith })
      where
        same :
            (if ltb (read_available k r) wanted then read_available k r else wanted)
            ≡ min wanted (length (contents k r))
        same = ground (arith, read_available-length r)

    -- `AdvanceRead` by no more than is stored drops the oldest bytes, as a read would.
    pub advance_read_lem :
        (n : ℕ)
        → n ≤ length (contents k r)
        → (contents k (advance_read r n) ≡ drop n (contents k r)) × IsWord (advance_read r n)
    unfolding advance_read
    advance_read_lem n le = (
      (removed n (omega (arith, length-contents r))).1,
      record { write_word = w.write_word; read_word = omega arith },
    )
