-- ===== src/SharedBuffers/Sorting.antt =====
-- `SortBuffersByZ`: the array holds the same slots afterwards, from the lowest z on.
use mathlib.Core.Path.{subst}
use mathlib.Core.List.{Perm, perm_append_comm}
use mathlib.Core.List.Perm
use morphic_os_dev.Base.{
  ℕ, zero, suc, ◌+◌, ◌-◌, ◌≤◌, ◌≡◌, refl, sym, ap, ◌∙◌, inl, inr, List, [], ◌∷◌, ◌++◌, ltb, update,
  arith, Bool-cases,
}
use morphic_os_dev.SharedBuffers.{shift, sort_from, sort_buffers_by_z}
use morphic_os_dev.SharedBuffers.Inserting.{
  cells, cells_agree, cells-suc, own, Ascending, Inserted, shift-Inserted, shift-Ascending,
}

module _ (z : ℕ → ℕ) where
  perm_last : (x : ℕ) (xs : List ℕ) → Perm (xs ++ x ∷ []) (x ∷ xs)
  perm_last x xs = perm_append_comm xs (x ∷ [])

  stopped_perm : (key j : ℕ) (a : ℕ → ℕ) → Perm (cells (suc j) (update a j key)) (key ∷ cells j a)
  stopped_perm key j a = rw (cells-suc j a (update a j key) (λ i lt. ground (arith, lt))) (
      subst (λ x. Perm (cells j a ++ x ∷ []) (key ∷ cells j a)) (sym (own key j a))
        (perm_last key (cells j a)))

  moved_perm :
      (key j : ℕ) (a b : ℕ → ℕ)
      → Perm (cells (suc j) b) (key ∷ cells j (update a (suc j) (a j)))
      → Inserted z key j (update a (suc j) (a j)) b
      → Perm (cells (suc (suc j)) b) (key ∷ cells (suc j) a)
  moved_perm key j a b p s =
      let last : b (suc j) ≡ a j = s.above (suc j) (omega arith) ∙ own (a j) (suc j) a in
      let same = cells_agree j (update a (suc j) (a j)) a (λ i lt. ground (arith, lt)) in
      subst (λ xs. Perm xs (key ∷ cells (suc j) a))
        (sym (cells-suc (suc j) b b (λ i lt. refl) ∙ ap (λ x. cells (suc j) b ++ x ∷ []) last))
        (subst (λ xs. Perm (cells (suc j) b ++ a j ∷ []) (key ∷ xs))
          (sym (cells-suc j a a (λ i lt. refl)))
          (Perm.append_right (a j ∷ []) (subst (λ xs. Perm (cells (suc j) b) (key ∷ xs)) same p)))

  shift-perm : (key j : ℕ) (a : ℕ → ℕ) → Perm (cells (suc j) (shift z key j a)) (key ∷ cells j a)
  unfolding shift
  shift-perm key zero a = stopped_perm key zero a
  shift-perm key (suc j) a = elim (Bool-cases (ltb (z key) (z (a j)))) [
    | inr f ↦ rw (f) (stopped_perm key (suc j) a)
    | inl t ↦ rw (t) (
        moved_perm key j a (shift z key j (update a (suc j) (a j)))
          (shift-perm key j (update a (suc j) (a j)))
          (shift-Inserted z key j (update a (suc j) (a j))))
  ]

  -- Cells from the inserted one on do not change.
  longer_perm :
      (i k : ℕ) (a b : ℕ → ℕ)
      → Perm (cells i b) (cells i a)
      → ((m : ℕ) → i ≤ m → b m ≡ a m)
      → Perm (cells (i + k) b) (cells (i + k) a)
  longer_perm i zero a b p h =
      subst (λ n. Perm (cells n b) (cells n a)) {x = i} {y = i + 0} (omega arith) p
  longer_perm i (suc k) a b p h =
      subst (λ n. Perm (cells n b) (cells n a)) {x = suc (i + k)} {y = i + suc k} (omega arith)
        (rw
          (
            cells-suc (i + k) b b (λ m lt. refl),
            cells-suc (i + k) a a (λ m lt. refl),
            h (i + k) (omega arith),
          )
          (Perm.append_right (a (i + k) ∷ []) (longer_perm i k a b p h)))

  round_perm : (i : ℕ) (a : ℕ → ℕ) → Perm (cells (suc i) (shift z (a i) i a)) (cells (suc i) a)
  round_perm i a =
      Perm.trans (shift-perm (a i) i a)
        (rw (cells-suc i a a (λ m lt. refl)) (Perm.symm (perm_last (a i) (cells i a))))

  sort_from-sorts :
      (n i : ℕ) (a : ℕ → ℕ)
      → Ascending z i a
      → Perm (cells (i + n) (sort_from z n i a)) (cells (i + n) a)
        × Ascending z (i + n) (sort_from z n i a)
  unfolding sort_from
  sort_from-sorts zero i a asc = (Perm.rfl, (λ j k le lt. asc j k le (omega arith)))
  sort_from-sorts (suc n) i a asc =
      let b = shift z (a i) i a in
      let s = shift-Inserted z (a i) i a in
      let (p, asc') = sort_from-sorts n (suc i) b (shift-Ascending z (a i) i a asc) in
      let e : suc i + n ≡ i + suc n = omega arith in
      (
        Perm.trans (subst (λ m. Perm (cells m (sort_from z n (suc i) b)) (cells m b)) e p) (
            subst (λ m. Perm (cells m b) (cells m a)) e
              (longer_perm (suc i) n a b (round_perm i a) (λ m le. s.above m (omega (arith, le))))),
        (λ j k le lt. asc' j k le (omega (arith, lt))),
      )

  -- The first `count` cells hold the same slots, and their z does not fall.
  pub sort_buffers_by_z-Ascending :
      (count : ℕ) (bufs : ℕ → ℕ)
      → Perm (cells count (sort_buffers_by_z z count bufs)) (cells count bufs)
        × Ascending z count (sort_buffers_by_z z count bufs)
  unfolding sort_buffers_by_z sort_from
  sort_buffers_by_z-Ascending zero bufs = (Perm.rfl, (λ i k le lt. absurd (omega (arith, lt))))
  sort_buffers_by_z-Ascending (suc n) bufs =
      let (p, asc) = sort_from-sorts n 1 bufs (λ i k le lt.
        subst (λ m. z (bufs i) ≤ z (bufs m)) {x = i} {y = k} (omega arith) (omega arith)) in
      let sorted = sort_from z n 1 bufs in
      subst
        (λ m.
          Perm (cells (suc n) (sort_from z m 1 bufs)) (cells (suc n) bufs)
          × Ascending z (suc n) (sort_from z m 1 bufs))
        {x = n} {y = suc n - 1} (omega arith)
        (subst (λ m. Perm (cells m sorted) (cells m bufs) × Ascending z m sorted) {x = 1 + n}
          {y = suc n} (omega arith) (p, asc))
