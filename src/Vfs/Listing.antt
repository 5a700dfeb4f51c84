-- ===== src/Vfs/Listing.antt =====
-- The children of a node of kernel/fs/vfs.cpp, as a list of addresses.
use mathlib.Core.Path.{subst}
use morphic_os_dev.Base.{
  ℕ, zero, suc, ◌≡◌, ◌≢◌, ◌≤◌, refl, sym, ap, ◌∙◌, ◌⊎◌, inl, inr, true, false, Option, none, some,
  List, [], ◌∷◌, ◌==◌, if◌then◌else◌, length, update, arith, Bool-cases, ==→eq, ==→ne,
}
use morphic_os_dev.Runtime.{Text, same_text}
use morphic_os_dev.Runtime.Strings.{NoNul, same_text-equal, same_text-differ}
use morphic_os_dev.Vfs.{VfsNode, points_to, find_from}
use morphic_os_dev.Vfs.Change.{find_prev}

-- From this pointer on, the siblings are these.
abbrev pub Listing : (ℕ → VfsNode) → Option ℕ → List ℕ → Type 0
Listing m p [] = p ≡ none
Listing m p (x ∷ xs) = (p ≡ some x) × Listing m (m x).next_sibling xs

abbrev pub In : ℕ → List ℕ → Type 0
In x [] = ⊥
In x (y ∷ ys) = (x ≡ y) ⊎ In x ys

abbrev pub NotIn : ℕ → List ℕ → Type 0
NotIn x [] = Unit {0}
NotIn x (y ∷ ys) = (x ≢ y) × NotIn x ys

abbrev pub Distinct : List ℕ → Type 0
Distinct [] = Unit {0}
Distinct (x ∷ xs) = NotIn x xs × Distinct xs

abbrev pub remove : ℕ → List ℕ → List ℕ
remove x [] = []
remove x (y ∷ ys) = if x == y then ys else y ∷ remove x ys

-- Each is a child of the node, with a C string as its name.
abbrev pub Children : (ℕ → VfsNode) → ℕ → List ℕ → Type 0
Children m r [] = Unit {0}
Children m r (x ∷ xs) = NoNul (m x).name × ((m x).parent ≡ some r) × Children m r xs

abbrev pub NoneNamed : (ℕ → VfsNode) → Text → List ℕ → Type 0
NoneNamed m name [] = Unit {0}
NoneNamed m name (x ∷ xs) = ((m x).name ≢ name) × NoneNamed m name xs

-- The result of a search for a name.
abbrev pub Lookup : (ℕ → VfsNode) → Text → List ℕ → Option ℕ → Type 0
Lookup m name xs none = NoneNamed m name xs
Lookup m name xs (some x) = In x xs × ((m x).name ≡ name)

Lookup-behind :
    (m : ℕ → VfsNode) (name : Text) (x : ℕ) (xs : List ℕ) (o : Option ℕ)
    → (m x).name ≢ name
    → Lookup m name xs o
    → Lookup m name (x ∷ xs) o
Lookup-behind m name x xs none ne l = (ne, l)
Lookup-behind m name x xs (some y) ne (i, e) = (inr i, e)

pub find_from-Lookup :
    (fuel : ℕ) (m : ℕ → VfsNode) (r : ℕ) (p : Option ℕ) (name : Text) (xs : List ℕ)
    → length xs ≤ fuel
    → NoNul name
    → Children m r xs
    → Listing m p xs
    → Lookup m name xs (find_from fuel m p name)
unfolding find_from
find_from-Lookup zero m r p name [] le q c l = tt
find_from-Lookup zero m r p name (x ∷ xs) le q c l = absurd (omega (arith, le))
find_from-Lookup (suc fuel) m r p name [] le q c l = rw (l, find_from) tt
find_from-Lookup (suc fuel) m r p name (x ∷ xs) le q (n, e, c) (at, l) =
    rw (at, find_from)
      (elim (Bool-cases (same_text (m x).name name)) [
        | inl s ↦ rw s (inl refl, same_text-equal (m x).name name n q s)
        | inr s ↦ rw s (
            Lookup-behind m name x xs (find_from fuel m (m x).next_sibling name)
              (same_text-differ (m x).name name n q s)
              (find_from-Lookup fuel m r (m x).next_sibling name xs (omega (arith, le)) q c l))
      ])

pub update_ne : (m : ℕ → VfsNode) (a : ℕ) (n : VfsNode) (x : ℕ) → a ≢ x → update m a n x ≡ m x
update_ne m a n x ne = ground (arith, ne)

pub update_eq : (m : ℕ → VfsNode) (a : ℕ) (n : VfsNode) → update m a n a ≡ n
update_eq m a n = ground arith

-- A node that is not among them may change.
pub Listing-update :
    (m : ℕ → VfsNode) (a : ℕ) (n : VfsNode) (p : Option ℕ) (xs : List ℕ)
    → NotIn a xs
    → Listing m p xs
    → Listing (update m a n) p xs
Listing-update m a n p [] ne l = l
Listing-update m a n p (x ∷ xs) (ne, nes) (e, l) = (
  e,
  subst (λ (b : VfsNode). Listing (update m a n) b.next_sibling xs) (sym (update_ne m a n x ne))
      (Listing-update m a n (m x).next_sibling xs nes l),
)

pub Children-update :
    (m : ℕ → VfsNode) (a r : ℕ) (n : VfsNode) (xs : List ℕ)
    → NotIn a xs
    → Children m r xs
    → Children (update m a n) r xs
Children-update m a r n [] ne c = tt
Children-update m a r n (x ∷ xs) (ne, nes) (k, e, c) =
    subst (λ (b : VfsNode). NoNul b.name × (b.parent ≡ some r) × Children (update m a n) r xs)
      (sym (update_ne m a n x ne)) (k, e, Children-update m a r n xs nes c)

pub NotIn-In : (x y : ℕ) (xs : List ℕ) → NotIn x xs → In y xs → y ≢ x
NotIn-In x y [] ne i = elim i [ ]
NotIn-In x y (z ∷ zs) (ne, nes) (inl e) = λ h. ne (sym h ∙ e)
NotIn-In x y (z ∷ zs) (ne, nes) (inr i) = NotIn-In x y zs nes i

-- The siblings from `p` on, without `a`: the one before it points behind it.
abbrev pub Without : (ℕ → VfsNode) → Option ℕ → ℕ → List ℕ → Option ℕ → Type 0
Without m p a xs none = ⊥
Without m p a xs (some q) =
    In q xs
    × Listing (update m q (record (m q) { next_sibling = (m a).next_sibling })) p (remove a xs)

Without-behind :
    (m : ℕ → VfsNode) (p : Option ℕ) (a x : ℕ) (xs : List ℕ) (o : Option ℕ)
    → p ≡ some x
    → a ≢ x
    → NotIn x xs
    → Without m (m x).next_sibling a xs o
    → Without m p a (x ∷ xs) o
Without-behind m p a x xs none at ne d w = elim w [ ]
Without-behind m p a x xs (some q) at ne d (i, l) =
    let other : (a == x) ≡ false = ground (arith, ne) in
    let apart = NotIn-In x q xs d i in
    (
      inr i,
      rw other (
        at,
        subst
            (λ (b : VfsNode).
              Listing (update m q (record (m q) { next_sibling = (m a).next_sibling }))
                b.next_sibling (remove a xs))
            (sym (update_ne m q (record (m q) { next_sibling = (m a).next_sibling }) x apart)) l,
      ),
    )

pub find_prev-Without :
    (fuel : ℕ) (m : ℕ → VfsNode) (p : Option ℕ) (a x : ℕ) (xs : List ℕ)
    → length xs ≤ fuel
    → Distinct (x ∷ xs)
    → In a xs
    → Listing m p (x ∷ xs)
    → Without m p a (x ∷ xs) (find_prev fuel m p a)
unfolding find_prev
find_prev-Without fuel m p a x [] le d i l = elim i [ ]
find_prev-Without zero m p a x (y ∷ ys) le d i l = absurd (omega (arith, le))
find_prev-Without (suc fuel) m p a x (y ∷ ys) le ((ne, nx), (ny, d)) i (at, (next, l)) =
    rw (at, find_prev)
      (elim (Bool-cases (points_to (m x).next_sibling a)) [
        | inl e ↦
            let same : y ≡ a = ==→eq y a (ap (λ (o : Option ℕ). points_to o a) (sym next) ∙ e) in
            rw e (
              inl refl,
              subst
                  (λ b.
                    Listing (update m x (record (m x) { next_sibling = (m b).next_sibling }))
                      (some x) (remove b (x ∷ y ∷ ys)))
                  same (first_gone (record (m x) { next_sibling = (m y).next_sibling }) refl),
            )
        | inr e ↦
            let other : y ≢ a = ==→ne y a (ap (λ (o : Option ℕ). points_to o a) (sym next) ∙ e) in
            rw e (
              Without-behind m (some x) a x (y ∷ ys) (find_prev fuel m (m x).next_sibling a) refl
                (NotIn-In x a (y ∷ ys) (ne, nx) i) (ne, nx)
                (find_prev-Without fuel m (m x).next_sibling a y ys (omega (arith, le)) (ny, d)
                  (behind other i) (next, l)))
      ])
  where
    behind : y ≢ a → In a (y ∷ ys) → In a ys
    behind other (inl h) = absurd (other (sym h))
    behind other (inr h) = h

    first_gone :
        (n : VfsNode)
        → n.next_sibling ≡ (m y).next_sibling
        → Listing (update m x n) (some x) (remove y (x ∷ y ∷ ys))
    first_gone n h =
        let u : (y == x) ≡ false = ground (arith, ne) in
        let w : (y == y) ≡ true = ground arith in
        rw (u, w)
          (
            refl,
            subst (λ (b : VfsNode). Listing (update m x n) b.next_sibling ys)
                (sym (update_eq m x n))
                (subst (λ (o : Option ℕ). Listing (update m x n) o ys) (sym h)
                  (Listing-update m x n (m y).next_sibling ys nx l)),
          )
