-- ===== src/SharedBuffers/Inserting.antt =====
-- A round of `SortBuffersByZ`: where the loop puts its key.
use native.Mathlib.Decide.{dec_lt}
use mathlib.Core.Path.{subst}
use morphic_os_dev.Base.{
  ℕ, zero, suc, ◌-◌, ◌≤◌, ◌<◌, ◌≡◌, refl, ap, ◌∙◌, inl, inr, ◌⊎◌, true, false, List, [], ◌∷◌, ◌++◌,
  ltb, update, arith, Bool-cases, ltb→lt, ltb→le,
}
use morphic_os_dev.SharedBuffers.{shift}

-- The first `n` cells of an array.
unfoldable pub cells : ℕ → (ℕ → ℕ) → List ℕ
cells zero a = []
cells (suc n) a = cells n a ++ a n ∷ []

pub cells_agree : (n : ℕ) (a b : ℕ → ℕ) → ((i : ℕ) → i < n → a i ≡ b i) → cells n a ≡ cells n b
unfolding cells
cells_agree zero a b h = refl
cells_agree (suc n) a b h =
    rw (cells_agree n a b (λ i lt. h i (omega arith)), h n (omega arith)) refl

-- A cell that was written.
pub own : (key j : ℕ) (a : ℕ → ℕ) → update a j key j ≡ key
own key j a = ground arith

-- The cells with another one behind them.
pub cells-suc :
    (n : ℕ) (a b : ℕ → ℕ) → ((i : ℕ) → i < n → b i ≡ a i) → cells (suc n) b ≡ cells n a ++ b n ∷ []
unfolding cells
cells-suc n a b h = ap (λ xs. xs ++ b n ∷ []) (cells_agree n b a h)

module _ (z : ℕ → ℕ) where
  -- The lowest z comes first.
  abbrev pub Ascending : ℕ → (ℕ → ℕ) → Type 0
  Ascending n a = (i k : ℕ) → i ≤ k → k < n → z (a i) ≤ z (a k)

  -- The key stands at `place` among the first `j` cells.
  pub record Inserted (key j : ℕ) (a b : ℕ → ℕ) : Type 0 where
    pub place : ℕ
    pub inside : place ≤ j
    pub low : (i : ℕ) → i < place → b i ≡ a i
    pub here : b place ≡ key
    pub high : (i : ℕ) → place ≤ i → i < j → b (suc i) ≡ a i
    pub above : (i : ℕ) → j < i → b i ≡ a i
    pub less : (i : ℕ) → place ≤ i → i < j → z key < z (a i)
    pub stop : (i : ℕ) → suc i ≡ place → z (a i) ≤ z key

  stop_here :
      (key j : ℕ) (a : ℕ → ℕ) (i : ℕ)
      → ltb (z key) (z (a j)) ≡ false
      → suc i ≡ suc j
      → z (a i) ≤ z key
  stop_here key j a i f e =
      subst (λ x. z (a x) ≤ z key) (omega (arith, e)) (ltb→le (z key) (z (a j)) f)

  cell_below : (j i : ℕ) (a : ℕ → ℕ) → i ≤ j → update a (suc j) (a j) i ≡ a i
  cell_below j i a le = ground (arith, le)

  module _ (key j : ℕ) (a b : ℕ → ℕ) (i : ℕ) (s : Inserted key j (update a (suc j) (a j)) b) where
    last_cell : i ≡ j → update a (suc j) (a j) (suc i) ≡ a i
    last_cell e = rw (e) (ground arith)

    high_of : s.place ≤ i → i < suc j → b (suc i) ≡ a i
    high_of lo hi = elim (dec_lt i j) [
      | yes y ↦ s.high i lo y ∙ cell_below j i a (omega arith)
      | no n ↦ s.above (suc i) (omega arith) ∙ last_cell (omega arith)
    ]

    less_of : ltb (z key) (z (a j)) ≡ true → s.place ≤ i → i < suc j → z key < z (a i)
    less_of t lo hi = elim (dec_lt i j) [
      | yes y ↦ subst (λ x. z key < z x) (cell_below j i a (omega arith)) (s.less i lo y)
      | no n ↦ subst (λ x. z key < z (a x)) (omega arith) (ltb→lt (z key) (z (a j)) t)
    ]

  pub shift-Inserted : (key j : ℕ) (a : ℕ → ℕ) → Inserted key j a (shift z key j a)
  unfolding shift
  shift-Inserted key zero a = record {
    place = 0;
    inside = omega arith;
    low = λ i lt. absurd (omega (arith, lt));
    here = ground arith;
    high = λ i lo hi. absurd (omega (arith, hi));
    above = λ i lt. ground (arith, lt);
    less = λ i lo hi. absurd (omega (arith, hi));
    stop = λ i e. absurd (omega (arith, e));
  }
  shift-Inserted key (suc j) a = elim (Bool-cases (ltb (z key) (z (a j)))) [
    | inr f ↦ rw (f) (record {
      place = suc j;
      inside = omega arith;
      low = λ i lt. ground (arith, lt);
      here = ground arith;
      high = λ i lo hi. absurd (omega (arith, lo, hi));
      above = λ i lt. ground (arith, lt);
      less = λ i lo hi. absurd (omega (arith, lo, hi));
      stop = λ i e. stop_here key j a i f e;
    })
    | inl t ↦
        let s = shift-Inserted key j (update a (suc j) (a j)) in
        rw (t) (record {
          place = s.place;
          inside = omega (arith, s.inside);
          low = λ i lt. s.low i lt ∙ ground (arith, lt, s.inside);
          here = s.here;
          high = λ i lo hi. high_of key j a _ i s lo hi;
          above = λ i lt. s.above i (omega (arith, lt)) ∙ ground (arith, lt);
          less = λ i lo hi. less_of key j a _ i s t lo hi;
          stop = λ i e.
              subst (λ x. z x ≤ z key) (cell_below j i a (omega (arith, e, s.inside))) (s.stop i e);
        })
  ]

  -- What stands at a place among the first cells.
  value :
      (key j : ℕ) (a b : ℕ → ℕ) (s : Inserted key j a b) (m : ℕ)
      → m ≤ j
      → (m < s.place) × (b m ≡ a m)
        ⊎ ((m ≡ s.place) × (b m ≡ key) ⊎ ((s.place < m) × (b m ≡ a (m - 1))))
  value key j a b s m le = elim (dec_lt m s.place) [
    | yes y ↦ inl (y, s.low m y)
    | no n ↦ elim (dec_lt s.place m) [
      | no n' ↦ inr (inl (omega arith, ap b (omega (arith, n, n')) ∙ s.here))
      | yes y' ↦
          inr (inr (y', ap b (omega (arith, y')) ∙ s.high (m - 1) (omega arith) (omega arith)))
    ]
  ]

  pub shift-Ascending :
      (key j : ℕ) (a : ℕ → ℕ) → Ascending j a → Ascending (suc j) (shift z key j a)
  shift-Ascending key j a asc i k le lt =
      let s = shift-Inserted key j a in
      let b = shift z key j a in
      elim (value key j a b s i (omega arith)) [
        | inl (li, ei) ↦ elim (value key j a b s k (omega arith)) [
          | inl (lk, ek) ↦ rw (ei, ek) (asc i k le (omega (arith, lk, s.inside)))
          | inr r ↦ elim r [
            | inl (lk, ek) ↦
                rw (ei, ek)
                  (omega (
                    arith,
                    asc i (s.place - 1) (omega arith) (omega (arith, s.inside)),
                    s.stop (s.place - 1) (omega arith),
                  ))
            | inr (lk, ek) ↦ rw (ei, ek) (asc i (k - 1) (omega arith) (omega arith))
          ]
        ]
        | inr q ↦ elim q [
          | inl (li, ei) ↦ elim (value key j a b s k (omega arith)) [
            | inl (lk, ek) ↦ absurd (omega arith)
            | inr r ↦ elim r [
              | inl (lk, ek) ↦ rw (ei, ek) (omega arith)
              | inr (lk, ek) ↦
                  rw (ei, ek) (omega (arith, s.less (k - 1) (omega arith) (omega arith)))
            ]
          ]
          | inr (li, ei) ↦ elim (value key j a b s k (omega arith)) [
            | inl (lk, ek) ↦ absurd (omega arith)
            | inr r ↦ elim r [
              | inl (lk, ek) ↦ absurd (omega arith)
              | inr (lk, ek) ↦ rw (ei, ek) (asc (i - 1) (k - 1) (omega arith) (omega arith))
            ]
          ]
        ]
      ]
