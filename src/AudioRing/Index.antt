-- ===== src/AudioRing/Index.antt =====
-- Indices that go round: remainders by a power of two below 2 ^ 32.
use native.Mathlib.Nat.{div-add-mod', mod-lt, one-le-pow, pow-suc}
use morphic_os_dev.Base.{ℕ, zero, suc, ◌+◌, ◌-◌, ◌*◌, ◌/◌, ◌%◌, ◌^◌, ◌≤◌, ◌≡◌, sym, ap, ◌∙◌, arith}
use morphic_os_dev.Base.Bits.{mod_unique, bit_and_mask}
use morphic_os_dev.AudioRing.{mask}

-- A power of two is a multiple of each smaller one.
pow_split : (j k m : ℕ) → m ≡ j + k → 2 ^ m ≡ 2 ^ j * 2 ^ k
pow_split zero k m e = ap (λ (t : ℕ). 2 ^ t) {x = m} {y = k} (omega arith) ∙ omega arith
pow_split (suc j) k zero e = absurd (omega arith)
pow_split (suc j) k (suc m) e = omega (
  arith,
  pow-suc 2 m,
  ap (λ (t : ℕ). t * 2 ^ k) (pow-suc 2 j),
  ap (λ (t : ℕ). t * 2) (pow_split j k m (omega arith)),
)

module _ (k : ℕ) (fits : k ≤ 32) where
  -- A counter of 32 bits keeps its index when it wraps.
  pub wrap-mod : (x : ℕ) → x % 2 ^ 32 % 2 ^ k ≡ x % 2 ^ k
  wrap-mod x = sym (
      mod_unique (x / 2 ^ 32 * 2 ^ (32 - k) + x % 2 ^ 32 / 2 ^ k) (2 ^ k) (x % 2 ^ 32 % 2 ^ k) x
        (mod-lt (x % 2 ^ 32) {m = 2 ^ k} (one-le-pow k 2 (omega arith)))
        (omega (
          arith,
          div-add-mod' x (2 ^ 32),
          div-add-mod' (x % 2 ^ 32) (2 ^ k),
          ap (λ (t : ℕ). x / 2 ^ 32 * t) (pow_split (32 - k) k 32 (omega arith)),
        )))

  pub mask-wrap : (x : ℕ) → mask k (x % 2 ^ 32) ≡ x % 2 ^ k
  unfolding mask
  mask-wrap x = bit_and_mask k (x % 2 ^ 32) ∙ wrap-mod x

pub mask-mod : (k x : ℕ) → mask k x ≡ x % 2 ^ k
unfolding mask
mask-mod k x = bit_and_mask k x
