-- ===== src/Runtime/Digits.antt =====
-- The text that `kitoa` writes, read back.
use morphic_os_dev.Base.{
  ℕ, zero, suc, ◌+◌, ◌-◌, ◌^◌, ◌≡◌, ◌≢◌, ◌≤◌, ◌<◌, sym, ap, ◌∙◌, true, false, ◌&&◌, ◌||◌, arith,
  ◌==◌, ltb, leb, if◌then◌else◌, update, ltb→lt, ltb→le, ==→eq, ==→ne, ◌⊎◌, inl, inr, Bool-cases,
}
use morphic_os_dev.Base.Int.{ℤ, pos, negsuc}
use morphic_os_dev.Runtime.{Memory, write_digits, swap_between, write_number, kitoa}
use morphic_os_dev.Runtime.Writing.{Written, read_number, read_number-turned, write_digits-Written}

abbrev swapped : Memory → ℕ → ℕ → Memory
swapped m p q = update (update m q (m p)) p (m q)

-- One swap and then the turn of what lies between.
swapped-turned :
    (m : Memory) (p q x : ℕ)
    → p < q
    → (if leb (p + 1) x && leb x (q - 1)
        then swapped m p q (p + 1 + (q - 1) - x)
        else swapped m p q x)
      ≡ (if leb p x && leb x q then m (p + q - x) else m x)
swapped-turned m p q x lt = rw total (cases (Bool-cases (leb (p + 1) x && leb x (q - 1))))
  where
    total : p + 1 + (q - 1) ≡ p + q
    total = omega arith

    cases :
        ((leb (p + 1) x && leb x (q - 1)) ≡ true) ⊎ ((leb (p + 1) x && leb x (q - 1)) ≡ false)
        → (if leb (p + 1) x && leb x (q - 1) then swapped m p q (p + q - x) else swapped m p q x)
          ≡ (if leb p x && leb x q then m (p + q - x) else m x)
    cases (inl e) = rw e (ground (arith, e))
    cases (inr e) = rw e (ground (arith, e, at_p, at_q))
      where
        at_p : x ≡ p → p + q - x ≡ q
        at_p h = omega arith

        at_q : x ≡ q → p + q - x ≡ p
        at_q h = omega arith

swap_between-turned :
    (fuel : ℕ) (m : Memory) (p q x : ℕ)
    → q + 1 - p ≤ fuel
    → swap_between fuel m p q x ≡ (if leb p x && leb x q then m (p + q - x) else m x)
unfolding swap_between
swap_between-turned zero m p q x le = ground arith
swap_between-turned (suc fuel) m p q x le = elim (Bool-cases (ltb p q)) [
  | inl e ↦ rw e (
      swap_between-turned fuel (swapped m p q) (p + 1) (q - 1) x (omega arith)
      ∙ swapped-turned m p q x (ltb→lt p q e))
  | inr e ↦ rw e (ground (arith, ap m (turned (ltb→le p q e))))
]
  where
    turned : q ≤ p → p + p - p ≡ p
    turned h = omega arith

-- A number stands in the text from `p` on: its digits, and then a NUL.
pub record Shows (m : Memory) (p base value : ℕ) : Type 0 where
  pub count : ℕ
  pub value_is : read_number base m p (suc count) ≡ value
  pub ended : m (p + suc count) ≡ 0
  pub not_nul : (i : ℕ) → i < suc count → m (p + i) ≢ 0

module _ (m m' : Memory) (p value end base : ℕ) (w : Written base m m' p value end) where
  last : ℕ
  last = p + w.count

  ended_there : Memory
  ended_there = update m' end 0

  same_there : (x : ℕ) → x ≢ end → ended_there x ≡ m' x
  unfolding ended_there
  same_there x ne = ground arith

  turned : Memory
  turned = swap_between (end - p) (update m' end 0) p (end - 1)

  turned_at : (i : ℕ) → i < suc w.count → turned (p + i) ≡ m' (p + (w.count - i))
  unfolding turned
  turned_at i lt =
      swap_between-turned (end - p) (update m' end 0) p (end - 1) (p + i) (omega (arith, w.end_is))
      ∙ ground (arith, w.end_is, ap m' (place (omega (arith, w.end_is))))
    where
      place : end ≡ p + suc w.count → p + (end - 1) - (p + i) ≡ p + (w.count - i)
      place e = omega arith

  turned_lem : turned end ≡ 0
  unfolding turned
  turned_lem =
      swap_between-turned (end - p) (update m' end 0) p (end - 1) end (omega (arith, w.end_is))
      ∙ ground (arith, w.end_is)

  turned-Shows : Shows turned p base value
  turned-Shows = record {
    count = w.count;
    value_is =
        read_number-turned base m' turned p p (suc w.count)
          (λ i lt. turned_at i lt ∙ ap m' (omega arith))
        ∙ w.value_is;
    ended = ap turned (sym w.end_is) ∙ turned_lem;
    not_nul = λ i lt z. w.not_nul (w.count - i) (omega arith) (sym (turned_at i lt) ∙ z);
  }

  turned_before : (x : ℕ) → x < p → turned x ≡ m x
  unfolding turned
  turned_before x lt =
      swap_between-turned (end - p) (update m' end 0) p (end - 1) x (omega (arith, w.end_is))
      ∙ ground (arith, w.end_is, w.before x lt)

write_number-Shows :
    (m : Memory) (p value base : ℕ) → 2 ≤ base → Shows (write_number m p value base) p base value
unfolding write_number turned
write_number-Shows m p value base two =
    turned-Shows m (write_digits (suc value) m p value base).0 p value
      (write_digits (suc value) m p value base).1 base
      (write_digits-Written base (suc value) m p value two (omega arith))

-- An `int` that can be negated: not -2 ^ 31.
abbrev pub IsInt : ℤ → Type 0
IsInt (pos n) = n < 2 ^ 31
IsInt (negsuc n) = suc n < 2 ^ 31

-- What `kitoa` leaves in memory for a number.
abbrev pub Printed : Memory → ℕ → ℕ → ℤ → Type 0
Printed m p base (pos n) = Shows m p base n
Printed m p base (negsuc n) =
    ((base ≡ 10) × (m p ≡ b'-') × Shows m (p + 1) base (suc n))
    ⊎ ((base ≢ 10) × Shows m p base (suc n))

write_number-before :
    (m : Memory) (p value base x : ℕ) → 2 ≤ base → x < p → write_number m p value base x ≡ m x
unfolding write_number turned
write_number-before m p value base x two lt =
    turned_before m (write_digits (suc value) m p value base).0 p value
      (write_digits (suc value) m p value base).1 base
      (write_digits-Written base (suc value) m p value two (omega arith)) x lt

valid_base : (base : ℕ) → 2 ≤ base → base ≤ 36 → (ltb base 2 || ltb 36 base) ≡ false
valid_base base lo hi = ground arith

-- What `kitoa` writes for an `int` above -2 ^ 31 in a base from 2 to 36 reads back in this base, and a
-- NUL ends it: as the number if it is not negative, as a minus sign and its absolute value if it is
-- negative and the base is 10, and as its absolute value alone if the base is another one.
pub kitoa-Printed :
    (m : Memory) (value : ℤ) (p base : ℕ)
    → IsInt value
    → 2 ≤ base
    → base ≤ 36
    → Printed (kitoa m value p base) p base value
unfolding kitoa
kitoa-Printed m (pos n) p base int lo hi =
    rw (valid_base base lo hi) (write_number-Shows m p n base lo)
kitoa-Printed m (negsuc n) p base int lo hi =
    rw (valid_base base lo hi) (elim (Bool-cases (base == 10)) [
      | inl e ↦ rw e (
          inl (
            ==→eq base 10 e,
            write_number-before (update m p b'-') (p + 1) (suc n) base p lo (omega arith)
                ∙ ground arith,
            write_number-Shows (update m p b'-') (p + 1) (suc n) base lo,
          ))
      | inr e ↦ rw e (inr (==→ne base 10 e, write_number-Shows m p (suc n) base lo))
    ])
