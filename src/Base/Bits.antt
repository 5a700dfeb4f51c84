-- ===== src/Base/Bits.antt =====
-- `&` with a mask of low ones, as a remainder at every width, and tables over small ranges.
use Prim.Native.Nat.{digits, bit_and, bit_and-bitwise}
use Prim.Native.Nat.{ℕ, zero, suc, ◌+◌, ◌-◌, ◌*◌, ◌/◌, ◌%◌, ◌^◌, ◌≤◌, ◌<◌, min}
use mathlib.Core.Path.{◌≡◌, sym, ap, ◌∙◌}
use mathlib.Core.Bool.{Bool, true, ◌&&◌}
use native.Mathlib.Nat.{
  zero-mod, pow-suc, one-le-pow, mod-lt, mod-eq_of_lt, mul-add-mod_self_right, div-add-mod',
}
use native.Mathlib.Omega.{arith}

-- A test that is run on every number below a bound.
unfoldable pub every : (ℕ → Bool) → ℕ → Bool
every test zero = true
every test (suc bound) = every test bound && test bound

pub every-at : (test : ℕ → Bool) (bound i : ℕ) → i < bound → every test bound ≡ true → test i ≡ true
unfolding every
every-at test zero i in_bound passed = elim in_bound [ ]
every-at test (suc bound) i in_bound passed = ground (arith, every-at test bound i)

pub bit_and-zero_left : (mask : ℕ) → bit_and 0 mask ≡ 0
bit_and-zero_left mask = bit_and-bitwise 0 mask

-- A remainder is what is left beside any multiple.
pub mod_unique : (q m r x : ℕ) → r < m → x ≡ q * m + r → x % m ≡ r
mod_unique q m r x h e = ap (λ (t : ℕ). t % m) e ∙ mul-add-mod_self_right q m r ∙ mod-eq_of_lt h

mod_double : (m x : ℕ) → 0 < m → x % (m * 2) ≡ 2 * (x / 2 % m) + x % 2
mod_double m x h =
    mod_unique (x / 2 / m) (m * 2) (2 * (x / 2 % m) + x % 2) x
      (omega (arith, mod-lt (x / 2) {m = m} h)) (omega (arith, div-add-mod' (x / 2) m))

-- `digits` is what `bit_and` stands for: digit by digit, with a bound on the digits of `x`.
masked :
    (digits_left k x : ℕ)
    → x ≤ digits_left
    → digits (λ d. zero) min digits_left x (2 ^ k - 1) ≡ x % 2 ^ k
masked zero k zero le = sym (zero-mod (2 ^ k))
masked zero k (suc x) le = absurd (omega arith)
masked (suc left) k zero le = sym (zero-mod (2 ^ k))
masked (suc left) zero (suc x) le = omega (arith, masked left zero (suc x / 2) (omega arith))
masked (suc left) (suc k) (suc x) le =
    rw (pow-suc, mod_double (2 ^ k) (suc x) some_mask)
      (omega (
        arith,
        some_mask,
        masked left k (suc x / 2) (omega arith),
        ap (λ (m : ℕ). digits (λ d. zero) min left (suc x / 2) m) half,
      ))
  where
    some_mask : 0 < 2 ^ k
    some_mask = one-le-pow k 2 (omega arith)

    half : (2 ^ k * 2 - 1) / 2 ≡ 2 ^ k - 1
    half = omega (arith, one-le-pow k 2 (omega arith))

-- `x & ((1 << k) - 1)` is `x % 2 ^ k`.
pub bit_and_mask : (k x : ℕ) → bit_and x (2 ^ k - 1) ≡ x % 2 ^ k
bit_and_mask k x = bit_and-bitwise x (2 ^ k - 1) ∙ masked x k x (omega arith)
