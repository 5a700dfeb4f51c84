-- ===== src/Mmu/Writing.antt =====
-- How a write to a table changes the walks from the root.
use morphic_os_dev.Base.{
  none-ne-some, some-eq, sym, ap, ◌∙◌, refl, ℕ, ◌+◌, ◌≤◌, ◌<◌, ◌≡◌, inl, inr, ◌⊎◌, true, false,
  none, some, List, [], ◌∷◌, ◌==◌, length, Bool-cases, Option-cases, arith, ==→eq,
}
use morphic_os_dev.Mmu.{Entry, Tables, write}
use morphic_os_dev.Mmu.Tree.{link, walk, leaf_from}

-- No table within three steps is reached in two ways.
abbrev pub Only : Tables → ℕ → Type 0
Only t root =
    (q r : List ℕ) (a : ℕ)
    → length q ≤ 3
    → length r ≤ 3
    → walk t root q ≡ some a
    → walk t root r ≡ some a
    → q ≡ r

pub walk-suc :
    (t : Tables) (root i b c : ℕ) (q : List ℕ)
    → walk t root q ≡ some b
    → link (t b i) ≡ some c
    → walk t root (i ∷ q) ≡ some c
unfolding walk
walk-suc t root i b c q e l = rw (e) l

pub walk-pred :
    (t : Tables) (root i c : ℕ) (q : List ℕ)
    → walk t root (i ∷ q) ≡ some c
    → (b : ℕ) × (walk t root q ≡ some b) × (link (t b i) ≡ some c)
unfolding walk
walk-pred t root i c q e = elim (Option-cases (walk t root q)) [
  | inl n ↦ absurd (none-ne-some {a = c} (rw (n, walk) at e))
  | inr (b, s) ↦ (b, s, rw (s, walk) at e)
]

-- When every entry leads where it led, the walks are the same.
pub walk_same :
    (t t' : Tables) (root : ℕ)
    → ((a i : ℕ) → link (t' a i) ≡ link (t a i))
    → (q : List ℕ) → walk t' root q ≡ walk t root q
unfolding walk
walk_same t t' root h [] = refl
walk_same t t' root h (i ∷ q) = elim (Option-cases (walk t root q)) [
  | inl e ↦ rw (walk_same t t' root h q, e) refl
  | inr (a, e) ↦ rw (walk_same t t' root h q, e) (h a i)
]

-- The tables that are reached do not change.
pub walk_agree :
    (t t' : Tables) (root : ℕ) (n : ℕ)
    → ((q : List ℕ) (a i : ℕ) → length q < n → walk t root q ≡ some a → t' a i ≡ t a i)
    → (q : List ℕ) → length q ≤ n
    → walk t' root q ≡ walk t root q
unfolding walk
walk_agree t t' root n h [] le = refl
walk_agree t t' root n h (i ∷ q) le = elim (Option-cases (walk t root q)) [
  | inl e ↦ rw (walk_agree t t' root n h q (omega arith), e) refl
  | inr (a, e) ↦
      rw (walk_agree t t' root n h q (omega arith), e) (ap link (h q a i (omega arith) e))
]

-- A new table `n` under an entry that led nowhere: the walks of before, and one more.
module _ (t t' : Tables) (root a i n : ℕ) (p : List ℕ) (at : walk t root p ≡ some a)
    (nowhere : link (t a i) ≡ none) (now : link (t' a i) ≡ some n)
    (empty : (j : ℕ) → link (t' n j) ≡ none)
    (others : (q : List ℕ) (b j : ℕ)
      → length q < 3
      → walk t root q ≡ some b
      → (b ≡ a) × (j ≡ i) ⊎ (t' b j ≡ t b j)) where
  pub walk-kept :
      (q : List ℕ) (c : ℕ) → length q ≤ 3 → walk t root q ≡ some c → walk t' root q ≡ some c
  unfolding walk
  walk-kept [] c le e = e
  walk-kept (j ∷ q) c le e =
      let (b, s, l) = walk-pred t root j c q e in
      elim (others q b j (omega arith) s) [
        | inl (u, v) ↦ absurd (
            none-ne-some
              (sym nowhere ∙ ap (λ x. link (t x i)) (sym u) ∙ ap (λ x. link (t b x)) (sym v) ∙ l))
        | inr same ↦ walk-suc t' root j b c q (walk-kept q b (omega arith) s) (ap link same ∙ l)
      ]

  -- The new walk.
  pub walk-opened : length p < 3 → walk t' root (i ∷ p) ≡ some n
  walk-opened lt = walk-suc t' root i a n p (walk-kept p a (omega arith) at) now

  module _ (only : Only t root) (short : length p ≤ 3) where
    pub walk-new :
        (q : List ℕ) (c : ℕ)
        → length q ≤ 3
        → walk t' root q ≡ some c
        → (q ≡ i ∷ p) × (c ≡ n) ⊎ (walk t root q ≡ some c)
    unfolding walk
    walk-new [] c le e = inr e
    walk-new (j ∷ q) c le e =
        let (b, s, l) = walk-pred t' root j c q e in
        elim (walk-new q b (omega arith) s) [
          | inl (u, v) ↦ absurd (none-ne-some (sym (empty j) ∙ ap (λ x. link (t' x j)) (sym v) ∙ l))
          | inr old ↦ elim (others q b j (omega arith) old) [
            | inl (u, v) ↦ inl (
              ap (λ x. x ∷ q) v
                  ∙ ap (λ x. i ∷ x) (only q p a (omega arith) short (old ∙ ap some u) at),
              some-eq (sym l ∙ ap (λ x. link (t' x j)) u ∙ ap (λ x. link (t' a x)) v ∙ now),
            )
            | inr same ↦ inr (walk-suc t root j b c q old (ap link (sym same) ∙ l))
          ]
        ]

-- The whole path, last index first, of a walk with its indices left.
abbrev pub whole : List ℕ → List ℕ → List ℕ
whole [] q = q
whole (i ∷ is) q = whole is (i ∷ q)

-- How an entry on the way of an address may differ between two memories and map it to the same entry.
pub data Agree (t' : Tables) (e e' : Entry) : List ℕ → Type 0 where
  same : {is : List ℕ} → e' ≡ e → Agree t' e e' is
  still :
      {i : ℕ} {is : List ℕ} {c : ℕ} → link e ≡ some c → link e' ≡ some c → Agree t' e e' (i ∷ is)
  opened :
      {i : ℕ} {is : List ℕ} {c : ℕ}
      → e.present ≡ false
      → link e' ≡ some c
      → ((k : ℕ) → (t' c k).present ≡ false)
      → Agree t' e e' (i ∷ is)

-- What an entry that leads on says of itself.
pub link-some :
    (e : Entry) (c : ℕ) → link e ≡ some c → (e.present ≡ true) × (e.huge ≡ false) × (e.address ≡ c)
link-some e c l = ground (arith, l)

leaf-step :
    (t t' : Tables) (b j : ℕ) (is : List ℕ)
    → ((c : ℕ) → link (t b j) ≡ some c → leaf_from t' c is ≡ leaf_from t c is)
    → Agree t' (t b j) (t' b j) is
    → leaf_from t' b (j ∷ is) ≡ leaf_from t b (j ∷ is)
unfolding leaf_from
leaf-step t t' b j [] below (same e) = rw (e) refl
leaf-step t t' b j (k ∷ ks) below (same e) = elim (Bool-cases (t b j).present) [
  | inr off ↦ rw (e, off) refl
  | inl on ↦ elim (Bool-cases (t b j).huge) [
    | inl big ↦ rw (e, on, big) refl
    | inr small ↦
        let l : link (t b j) ≡ some (t b j).address = rw (on, small) refl in
        rw (e, on, small) (below (t b j).address l)
  ]
]
leaf-step t t' b j (k ∷ ks) below (still {c = c} l l') =
    let (on, small, at) = link-some (t b j) c l in
    let (on', small', at') = link-some (t' b j) c l' in
    rw (on, small, on', small', at, at') (below c l)
leaf-step t t' b j (k ∷ ks) below (opened {c = c} off l z) =
    let (on', small', at') = link-some (t' b j) c l in rw (off, on', small', at', z k) refl

pub leaf_agree :
    (t t' : Tables) (root b n : ℕ) (q is : List ℕ)
    → walk t root q ≡ some b
    → length q + length is ≡ n
    → ((r : List ℕ) (c j : ℕ) (js : List ℕ)
        → walk t root r ≡ some c
        → length r + length (j ∷ js) ≡ n
        → whole (j ∷ js) r ≡ whole is q
        → Agree t' (t c j) (t' c j) js)
    → leaf_from t' b is ≡ leaf_from t b is
unfolding leaf_from
leaf_agree t t' root b n q [] w len h = refl
leaf_agree t t' root b n q (j ∷ is) w len h =
    leaf-step t t' b j is
      (λ c l.
        leaf_agree t t' root c n (j ∷ q) is (walk-suc t root j b c q w l) (omega (arith, len)) h)
      (h q b j is w len refl)

pub write-cases :
    (t : Tables) (a i : ℕ) (e : Entry) (b j : ℕ)
    → (b ≡ a) × (j ≡ i) × (write t a i e b j ≡ e) ⊎ (write t a i e b j ≡ t b j)
write-cases t a i e b j = elim (Bool-cases (a == b)) [
  | inr n ↦ inr (rw (n) refl)
  | inl y ↦ elim (Bool-cases (i == j)) [
    | inl z ↦ inl (sym (==→eq a b y), sym (==→eq i j z), rw (y, z) refl)
    | inr n ↦ inr (rw (y, n) (ap (λ x. t x j) (==→eq a b y)))
  ]
]
