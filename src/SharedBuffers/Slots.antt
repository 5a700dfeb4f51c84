-- ===== src/SharedBuffers/Slots.antt =====
-- The slots of the buffers: a change through a pointer, the search for a slot, and how many there are.
use mathlib.Core.Path.{subst}
use morphic_os_dev.Base.{
  ℕ, zero, suc, ◌+◌, ◌-◌, ◌≤◌, ◌≡◌, refl, sym, ap, ◌∙◌, inl, inr, Bool, true, Option, none, some,
  some-eq, none-ne-some, List, [], ◌∷◌, ◌==◌, if◌then◌else◌, get_elem?, length, arith, Bool-cases,
  ==→eq,
}
use morphic_os_dev.SharedBuffers.{SharedBuffer, find_slot, change_slot, slot_id}

abbrev pub after : (SharedBuffer → SharedBuffer) → Option SharedBuffer → Option SharedBuffer
after f none = none
after f (some b) = some (f b)

pub get_elem?-change_slot :
    (f : SharedBuffer → SharedBuffer) (i : ℕ) (bs : List SharedBuffer) (j : ℕ)
    → get_elem? (change_slot f i bs) j
      ≡ (if i == j then after f (get_elem? bs j) else get_elem? bs j)
unfolding change_slot
get_elem?-change_slot f i [] j = ground arith
get_elem?-change_slot f zero (b ∷ bs) zero = ground arith
get_elem?-change_slot f zero (b ∷ bs) (suc j) = ground arith
get_elem?-change_slot f (suc i) (b ∷ bs) zero = ground arith
get_elem?-change_slot f (suc i) (b ∷ bs) (suc j) = ground (arith, get_elem?-change_slot f i bs j)

pub length-change_slot :
    (f : SharedBuffer → SharedBuffer) (i : ℕ) (bs : List SharedBuffer)
    → length (change_slot f i bs) ≡ length bs
unfolding change_slot
length-change_slot f i [] = refl
length-change_slot f zero (b ∷ bs) = refl
length-change_slot f (suc i) (b ∷ bs) = ap suc (length-change_slot f i bs)

abbrev pub one_if_live : SharedBuffer → ℕ
one_if_live b = if b.id == 0 then 0 else 1

-- The buffers there are.
unfoldable pub live : List SharedBuffer → ℕ
live [] = 0
live (b ∷ bs) = one_if_live b + live bs

pub live-change_slot :
    (f : SharedBuffer → SharedBuffer) (i : ℕ) (bs : List SharedBuffer) (b : SharedBuffer)
    → get_elem? bs i ≡ some b
    → live (change_slot f i bs) + one_if_live b ≡ live bs + one_if_live (f b)
unfolding live change_slot
live-change_slot f i [] b e = absurd (none-ne-some e)
live-change_slot f zero (c ∷ bs) b e =
    omega (arith, ap one_if_live (some-eq e), ap (λ x. one_if_live (f x)) (some-eq e))
live-change_slot f (suc i) (c ∷ bs) b e = omega (arith, live-change_slot f i bs b e)

pub live-le-length : (bs : List SharedBuffer) → live bs ≤ length bs
unfolding live
live-le-length [] = omega arith
live-le-length (b ∷ bs) = ground (arith, live-le-length bs)

-- The slot that is found passes the test.
pub find_slot-some :
    (test : SharedBuffer → Bool) (i : ℕ) (bs : List SharedBuffer) (j : ℕ)
    → find_slot test i bs ≡ some j
    → (b : SharedBuffer) × (i ≤ j) × (get_elem? bs (j - i) ≡ some b) × (test b ≡ true)
unfolding find_slot
find_slot-some test i [] j e = absurd (none-ne-some e)
find_slot-some test i (c ∷ bs) j e = elim (Bool-cases (test c)) [
  | inl t ↦
      let same : i ≡ j = some-eq (rw (t) at e) in
      (
        c,
        omega arith,
        subst (λ n. get_elem? (c ∷ bs) n ≡ some c) {x = 0} {y = j - i} (omega arith) refl,
        t,
      )
  | inr f ↦
      let (b, le, at, t) = find_slot-some test (i + 1) bs j (rw (f) at e) in
      (
        b,
        omega arith,
        subst (λ n. get_elem? (c ∷ bs) n ≡ some b) {x = suc (j - (i + 1))} {y = j - i} (omega arith)
            at,
        t,
      )
]

-- The id that the slot has, or 0.
abbrev pub id_at : List SharedBuffer → ℕ → ℕ
id_at bs i = slot_id (get_elem? bs i)

pub id_at-change_slot :
    (f : SharedBuffer → SharedBuffer) (i : ℕ) (bs : List SharedBuffer) (b : SharedBuffer) (j : ℕ)
    → get_elem? bs i ≡ some b
    → id_at (change_slot f i bs) j ≡ (if i == j then (f b).id else id_at bs j)
id_at-change_slot f i bs b j e = elim (Bool-cases (i == j)) [
  | inl t ↦
      rw (get_elem?-change_slot f i bs j, t)
        (ap (λ o. slot_id (after f o)) (ap (get_elem? bs) (sym (==→eq i j t)) ∙ e))
  | inr n ↦ rw (get_elem?-change_slot f i bs j, n) refl
]
