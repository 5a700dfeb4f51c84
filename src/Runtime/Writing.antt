-- ===== src/Runtime/Writing.antt =====
-- The digits that `write_digits` leaves in memory.
use native.Mathlib.Nat.{div-add-mod', div-lt_self, mul_comm, zero-div}
use morphic_os_dev.Base.{
  ℕ, zero, suc, ◌+◌, ◌-◌, ◌*◌, ◌/◌, ◌≡◌, ◌≢◌, ◌≤◌, ◌<◌, refl, sym, ap, ◌∙◌, true, false, arith,
  ◌==◌, ltb, leb, if◌then◌else◌, update, ltb→lt, ltb→le, ==→eq, ==→ne, ◌⊎◌, inl, inr, Bool-cases,
}
use morphic_os_dev.Runtime.{Memory, digit, write_digits}

-- The value of a digit.
unfoldable pub undigit : ℕ → ℕ
undigit c = if leb c b'9' then c - b'0' else c - b'A' + 10

undigit-digit : (d : ℕ) → undigit (digit d) ≡ d
unfolding undigit digit
undigit-digit d = ground arith

digit-not_nul : (d : ℕ) → digit d ≢ 0
unfolding digit
digit-not_nul d = ground arith

module _ (base : ℕ) where
  -- The `n` digits from `p` on as a number, the last one counting least.
  unfoldable pub read_number : Memory → ℕ → ℕ → ℕ
  unfolding undigit
  read_number m p zero = 0
  read_number m p (suc n) = read_number m p n * base + undigit (m (p + n))

  -- And the first one counting least.
  pub read_back : Memory → ℕ → ℕ → ℕ
  unfolding undigit
  read_back m p zero = 0
  read_back m p (suc n) = undigit (m p) + base * read_back m (p + 1) n

  read_back-same :
      (m m' : Memory) (p n : ℕ)
      → ((x : ℕ) → p ≤ x → x < p + n → m' x ≡ m x)
      → read_back m' p n ≡ read_back m p n
  unfolding read_back
  read_back-same m m' p zero same = refl
  read_back-same m m' p (suc n) same = rw (
    same p (omega arith) (omega arith),
    read_back-same m m' (p + 1) n (λ x le lt. same x (omega arith) (omega arith)),
  )

  pub read_number-turned :
      (m m' : Memory) (p b n : ℕ)
      → ((i : ℕ) → i < n → m' (p + i) ≡ m (b + (n - 1 - i)))
      → read_number m' p n ≡ read_back m b n
  unfolding read_number read_back
  read_number-turned m m' p b zero turned = refl
  read_number-turned m m' p b (suc n) turned =
      rw
        (
          turned n (omega arith),
          read_number-turned m m' p (b + 1) n (λ i lt. turned i (omega arith) ∙ ap m (omega arith)),
        )
        (ap (λ (x : ℕ). read_back m (b + 1) n * base + undigit (m x)) {y = b} (omega arith)
          ∙ omega (arith, mul_comm (read_back m (b + 1) n) base))

  -- The digits stand from `p` on, with no NUL among them, and the memory before is as it was.
  pub record Written (m m' : Memory) (p value end : ℕ) : Type 0 where
    pub count : ℕ
    pub end_is : end ≡ p + suc count
    pub value_is : read_back m' p (suc count) ≡ value
    pub not_nul : (i : ℕ) → i < suc count → m' (p + i) ≢ 0
    pub before : (x : ℕ) → x < p → m' x ≡ m x

  put_digit : Memory → ℕ → ℕ → Memory
  put_digit m p value = update m p (digit (value - value / base * base))

  digit_put :
      (m : Memory) (p value : ℕ) → put_digit m p value p ≡ digit (value - value / base * base)
  unfolding put_digit
  digit_put m p value = ground arith

  digit_kept :
      (m : Memory) (p value : ℕ) (m' : Memory) (i : ℕ)
      → i ≡ 0
      → m' p ≡ put_digit m p value p
      → m' (p + i) ≢ 0
  digit_kept m p value m' i first same z =
      digit-not_nul (value - value / base * base)
        (sym (digit_put m p value) ∙ sym same ∙ ap m' {y = p + i} (omega arith) ∙ z)

  put_before : (m : Memory) (p value x : ℕ) → x < p → put_digit m p value x ≡ m x
  unfolding put_digit
  put_before m p value x lt = ground arith

  last_digit :
      (m : Memory) (p value : ℕ)
      → 2 ≤ base
      → value / base ≡ 0
      → Written m (put_digit m p value) p value (p + 1)
  unfolding read_back
  last_digit m p value two e = record {
    count = 0;
    end_is = refl;
    value_is = rw (digit_put m p value, undigit-digit, e) (omega arith);
    not_nul = λ i lt. digit_kept m p value (put_digit m p value) i (omega arith) refl;
    before = put_before m p value;
  }

  more_digits :
      (m : Memory) (p value : ℕ)
      → 2 ≤ base
      → {m' : Memory} (end : ℕ) → Written (put_digit m p value) m' (p + 1) (value / base) end
      → Written m m' p value end
  unfolding read_back
  more_digits m p value two {m'} end w = record {
    count = suc w.count;
    end_is = omega (arith, w.end_is);
    value_is =
        rw (w.before p (omega arith), digit_put m p value, undigit-digit, w.value_is)
          (omega (arith, div-add-mod' value base, mul_comm base (value / base)));
    not_nul = λ i lt. not_nul i lt;
    before = λ x lt. w.before x (omega arith) ∙ put_before m p value x lt;
  }
    where
      not_nul : (i : ℕ) → i < suc (suc w.count) → m' (p + i) ≢ 0
      not_nul zero lt = digit_kept m p value m' 0 refl (w.before p (omega arith))
      not_nul (suc i) lt = λ z. w.not_nul i (omega arith) (ap m' (omega arith) ∙ z)

  pub write_digits-Written :
      (fuel : ℕ) (m : Memory) (p value : ℕ)
      → 2 ≤ base
      → value < fuel
      → Written m (write_digits fuel m p value base).0 p value (write_digits fuel m p value base).1
  unfolding write_digits read_back put_digit
  write_digits-Written zero m p value two lt = absurd (omega arith)
  write_digits-Written (suc fuel) m p value two lt = elim (Bool-cases (value / base == 0)) [
    | inl e ↦ rw (e, write_digits) (last_digit m p value two (==→eq (value / base) 0 e))
    | inr e ↦
        rw (e, write_digits)
          (more_digits m p value two _ (
            write_digits-Written fuel (put_digit m p value) (p + 1) (value / base) two
              (less (==→ne (value / base) 0 e))))
  ]
    where
      less : value / base ≢ 0 → value / base < fuel
      less ne =
          omega (arith, div-lt_self {n = value} {k = base} (pos (Bool-cases (ltb 0 value))) two)
        where
          pos : (ltb 0 value ≡ true) ⊎ (ltb 0 value ≡ false) → 0 < value
          pos (inl t) = ltb→lt 0 value t
          pos (inr t) = absurd (
              ne (
                ap (λ (v : ℕ). v / base) {y = 0} (omega (arith, ltb→le 0 value t)) ∙ zero-div base))
