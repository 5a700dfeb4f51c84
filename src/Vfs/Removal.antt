-- ===== src/Vfs/Removal.antt =====
-- What `unlink` of kernel/fs/vfs.cpp leaves of the children of a node.
use mathlib.Core.Path.{subst}
use morphic_os_dev.Base.{
  ℕ, ◌≡◌, ◌≢◌, ◌≤◌, refl, sym, ap, ◌∙◌, inl, inr, true, Option, none, some, List, [], ◌∷◌, ◌==◌,
  length, update, arith, Bool-cases, ==→eq, ==→ne,
}
use morphic_os_dev.Runtime.{Text}
use morphic_os_dev.Runtime.Strings.{NoNul}
use morphic_os_dev.Vfs.{VfsNode, NodeType, points_to}
use morphic_os_dev.Vfs.Change.{find_prev, unlink}
use morphic_os_dev.Vfs.Listing.{
  Listing, In, NotIn, Distinct, remove, Children, Listing-update, NotIn-In, update_eq, update_ne,
  Without, find_prev-Without,
}

-- What of a node is no link to a sibling or a child.
abbrev pub content : VfsNode → Text × NodeType × Option ℕ
content n = (n.name, n.type, n.parent)

abbrev pub Kept : (ℕ → VfsNode) → (ℕ → VfsNode) → Type 0
Kept m m' = (x : ℕ) → content (m' x) ≡ content (m x)

update-Kept :
    (m : ℕ → VfsNode) (a : ℕ) (n : VfsNode) → content n ≡ content (m a) → Kept m (update m a n)
update-Kept m a n e x = elim (Bool-cases (a == x)) [
  | inl f ↦
      let same = ==→eq a x f in
      subst (λ y. content (update m a n y) ≡ content (m y)) same (ap content (update_eq m a n) ∙ e)
  | inr f ↦ ap content (update_ne m a n x (==→ne a x f))
]

Children-Kept :
    (m m' : ℕ → VfsNode) (r : ℕ) (xs : List ℕ) → Kept m m' → Children m r xs → Children m' r xs
Children-Kept m m' r [] k c = tt
Children-Kept m m' r (x ∷ xs) k (n, e, c) = (
  subst NoNul (sym (ap (λ (t : Text × NodeType × Option ℕ). t.0) (k x))) n,
  ap (λ (t : Text × NodeType × Option ℕ). t.2) (k x) ∙ e,
  Children-Kept m m' r xs k c,
)

Children-remove :
    (m : ℕ → VfsNode) (r a : ℕ) (xs : List ℕ) → Children m r xs → Children m r (remove a xs)
Children-remove m r a [] c = tt
Children-remove m r a (x ∷ xs) (n, e, c) = elim (Bool-cases (a == x)) [
  | inl f ↦ rw f c
  | inr f ↦ rw f (n, e, Children-remove m r a xs c)
]

pub NotIn-remove : (r a : ℕ) (xs : List ℕ) → NotIn r xs → NotIn r (remove a xs)
NotIn-remove r a [] n = tt
NotIn-remove r a (x ∷ xs) (ne, n) = elim (Bool-cases (a == x)) [
  | inl f ↦ rw f n
  | inr f ↦ rw f (ne, NotIn-remove r a xs n)
]

pub Distinct-remove : (a : ℕ) (xs : List ℕ) → Distinct xs → Distinct (remove a xs)
Distinct-remove a [] d = tt
Distinct-remove a (x ∷ xs) (n, d) = elim (Bool-cases (a == x)) [
  | inl f ↦ rw f d
  | inr f ↦ rw f (NotIn-remove x a xs n, Distinct-remove a xs d)
]

-- The children of `r` are the same without `a`.
abbrev pub Unlinked : (ℕ → VfsNode) → ℕ → ℕ → List ℕ → (ℕ → VfsNode) → Type 0
Unlinked m r a xs m' =
    Listing m' (m' r).first_child (remove a xs) × Children m' r (remove a xs) × Kept m m'

first-Unlinked :
    (m : ℕ → VfsNode) (r x : ℕ) (xs : List ℕ)
    → NotIn r xs
    → Listing m (m x).next_sibling xs
    → Children m r (x ∷ xs)
    → Unlinked m r x (x ∷ xs) (update m r (record (m r) { first_child = (m x).next_sibling }))
first-Unlinked m r x xs n l (_, _, c) =
    let self : (x == x) ≡ true = ground arith in
    let k = update-Kept m r (record (m r) { first_child = (m x).next_sibling }) refl in
    rw self (
      subst
          (λ (b : VfsNode).
            Listing (update m r (record (m r) { first_child = (m x).next_sibling })) b.first_child
              xs)
          (sym (update_eq m r (record (m r) { first_child = (m x).next_sibling })))
          (Listing-update m r (record (m r) { first_child = (m x).next_sibling }) (m x).next_sibling
            xs n l),
      Children-Kept m (update m r (record (m r) { first_child = (m x).next_sibling })) r xs k c,
      k,
    )

later-Unlinked :
    (m : ℕ → VfsNode) (r a : ℕ) (xs : List ℕ) (found : Option ℕ)
    → NotIn r xs
    → Children m r xs
    → Without m (m r).first_child a xs found
    → Unlinked m r a xs (elim found [
      | none ↦ m
      | some p ↦ update m p (record (m p) { next_sibling = (m a).next_sibling })
    ])
later-Unlinked m r a xs none n c w = elim w [ ]
later-Unlinked m r a xs (some q) n c (i, l) =
    let k = update-Kept m q (record (m q) { next_sibling = (m a).next_sibling }) refl in
    let apart = NotIn-In r q xs n i in
    (
      subst
          (λ (b : VfsNode).
            Listing (update m q (record (m q) { next_sibling = (m a).next_sibling })) b.first_child
              (remove a xs))
          (sym (update_ne m q (record (m q) { next_sibling = (m a).next_sibling }) r apart)) l,
      Children-Kept m (update m q (record (m q) { next_sibling = (m a).next_sibling })) r
          (remove a xs) k (Children-remove m r a xs c),
      k,
    )

pub unlink-Unlinked :
    (fuel : ℕ) (m : ℕ → VfsNode) (r a : ℕ) (xs : List ℕ)
    → length xs ≤ fuel
    → NotIn r xs
    → Distinct xs
    → Children m r xs
    → Listing m (m r).first_child xs
    → In a xs
    → Unlinked m r a xs (unlink fuel m r a)
unfolding unlink
unlink-Unlinked fuel m r a [] le n d c l i = elim i [ ]
unlink-Unlinked fuel m r a (x ∷ xs) le (nr, n) d c (at, l) i =
    elim (Bool-cases (points_to (m r).first_child a)) [
      | inl e ↦
          let same : x ≡ a = ==→eq x a (ap (λ (o : Option ℕ). points_to o a) (sym at) ∙ e) in
          rw (e, unlink)
            (subst
              (λ b.
                Unlinked m r b (x ∷ xs)
                  (update m r (record (m r) { first_child = (m b).next_sibling })))
              same (first-Unlinked m r x xs n l c))
      | inr e ↦
          let other : x ≢ a = ==→ne x a (ap (λ (o : Option ℕ). points_to o a) (sym at) ∙ e) in
          rw (e, unlink)
            (later-Unlinked m r a (x ∷ xs) (find_prev fuel m (m r).first_child a) (nr, n) c
              (find_prev-Without fuel m (m r).first_child a x xs (omega (arith, le)) d
                (behind other i) (at, l)))
    ]
  where
    behind : x ≢ a → In a (x ∷ xs) → In a xs
    behind other (inl h) = absurd (other (sym h))
    behind other (inr h) = h
