-- ===== src/Base/Span.antt =====
-- A run of cells in a buffer that goes round, and how writes and moves of its ends change it.
use native.Mathlib.Nat.{mod-add-mod, mod-eq_of_lt, mod-eq-sub-mod, mod-lt}
use native.Mathlib.Decide.{dec_lt}
use Prim.Native.Nat.{ℕ, zero, suc, ◌+◌, ◌-◌, ◌%◌, ◌≤◌, ◌<◌}
use mathlib.Core.Path.{◌≡◌, refl, ap, ◌∙◌}
use mathlib.Core.Logic.{◌≢◌}
use mathlib.Core.List.{List, [], ◌∷◌, ◌++◌}
use native.Mathlib.Omega.{arith}
use morphic_os_dev.Base.Lists.{update, length, take, drop, length-append}

-- Fewer steps than the size do not come back to the same index.
pub step-ne : (s h i n : ℕ) → i < n → n < i + s → (h + i) % s ≢ (h + n) % s
step-ne s h i n lt near e = elim (dec_lt ((h + i) % s + (n - i)) s) [
  | yes small ↦ omega (arith, mod-eq_of_lt small, on, e)
  | no large ↦ omega (
    arith,
    mod-eq-sub-mod {n = (h + i) % s + (n - i)} {m = s} (omega arith),
    mod-eq_of_lt {n = (h + i) % s + (n - i) - s} {m = s} (omega (arith, inside)),
    inside,
    on,
    e,
  )
]
  where
    inside : (h + i) % s < s
    inside = mod-lt (h + i) {m = s} (omega arith)

    on : ((h + i) % s + (n - i)) % s ≡ (h + n) % s
    on = mod-add-mod (h + i) s (n - i) ∙ ap (λ (t : ℕ). t % s) (omega arith)

module _ {ℓ} {A : Type ℓ} where
  -- The `n` cells from position `h` on, in a buffer of `s` cells.
  unfoldable pub span : ℕ → (ℕ → A) → ℕ → ℕ → List A
  span s buffer h zero = []
  span s buffer h (suc n) = span s buffer h n ++ buffer ((h + n) % s) ∷ []

  pub length-span : (s : ℕ) (buffer : ℕ → A) (h n : ℕ) → length (span s buffer h n) ≡ n
  unfolding span
  length-span s buffer h zero = refl
  length-span s buffer h (suc n) = omega (
    arith,
    length-append (span s buffer h n) (buffer ((h + n) % s) ∷ []),
    length-span s buffer h n,
  )

  -- Only the index of the first cell counts.
  pub span-mod :
      (s : ℕ) (buffer : ℕ → A) (g h n : ℕ) → g % s ≡ h % s → span s buffer g n ≡ span s buffer h n
  unfolding span
  span-mod s buffer g h zero e = refl
  span-mod s buffer g h (suc n) e =
      rw (span-mod s buffer g h n e, ← mod-add-mod g s n, e, mod-add-mod h s n)

  -- The first cell, and then the others.
  pub span-suc :
      (s : ℕ) (buffer : ℕ → A) (h n : ℕ)
      → span s buffer h (suc n) ≡ buffer (h % s) ∷ span s buffer (h + 1) n
  unfolding span
  span-suc s buffer h zero = ap (λ (t : ℕ). buffer (t % s) ∷ []) (omega arith)
  span-suc s buffer h (suc n) = rw (span-suc s buffer h n) (
      ap (λ (t : ℕ). buffer (h % s) ∷ (span s buffer (h + 1) n ++ buffer (t % s) ∷ []))
        (omega arith))

  -- A write outside the span is not seen.
  pub span-update :
      (s : ℕ) (buffer : ℕ → A) (h n m : ℕ) (x : A)
      → n ≤ m
      → m < s
      → span s (update buffer ((h + m) % s) x) h n ≡ span s buffer h n
  unfolding span
  span-update s buffer h zero m x le lt = refl
  span-update s buffer h (suc n) m x le lt = ground (
    arith,
    span-update s buffer h n m x (omega arith) lt,
    step-ne s h n m (omega arith) (omega arith),
  )

  pub span-push :
      (s : ℕ) (buffer : ℕ → A) (h n : ℕ) (x : A)
      → n < s
      → span s (update buffer ((h + n) % s) x) h (suc n) ≡ span s buffer h n ++ x ∷ []
  unfolding span
  span-push s buffer h n x lt = ground (arith, span-update s buffer h n n x (omega arith) lt)

  pub take-span :
      (s : ℕ) (buffer : ℕ → A) (h n d : ℕ) → n ≤ d → take n (span s buffer h d) ≡ span s buffer h n
  unfolding span
  take-span s buffer h zero d le = refl
  take-span s buffer h (suc n) zero le = absurd (omega arith)
  take-span s buffer h (suc n) (suc d) le =
      rw
        (span-suc s buffer h d, span-suc s buffer h n, take-span s buffer (h + 1) n d (omega arith))

  pub span-at :
      (s : ℕ) (buffer : ℕ → A) (g h m n : ℕ) → g ≡ h → m ≡ n → span s buffer g m ≡ span s buffer h n
  span-at s buffer g h m n p q = cc

  pub drop-span :
      (s : ℕ) (buffer : ℕ → A) (h n d : ℕ)
      → n ≤ d
      → drop n (span s buffer h d) ≡ span s buffer (h + n) (d - n)
  drop-span s buffer h zero d le = span-at s buffer h (h + 0) d (d - 0) (omega arith) (omega arith)
  drop-span s buffer h (suc n) zero le = absurd (omega arith)
  drop-span s buffer h (suc n) (suc d) le =
      rw (span-suc s buffer h d, drop-span s buffer (h + 1) n d (omega arith))
        (span-at s buffer (h + 1 + n) (h + suc n) (d - n) (suc d - suc n) (omega arith)
          (omega arith))
