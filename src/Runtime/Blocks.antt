-- ===== src/Runtime/Blocks.antt =====
-- `kmemcpy` and `memmove` as one copy of the memory as it was.
use morphic_os_dev.Base.{
  ℕ, zero, suc, ◌+◌, ◌-◌, ◌≡◌, ◌≤◌, ◌∙◌, ◌&&◌, ◌||◌, arith, ◌==◌, ltb, leb, if◌then◌else◌, update,
  ◌⊎◌, inl, inr, Bool-cases,
}
use morphic_os_dev.Runtime.{Memory, copy_up, copy_down, kmemcpy, memmove}

-- The cells from `d` on, `n` of them, as those from `s` on were.
abbrev pub copied : Memory → ℕ → ℕ → ℕ → Memory
copied m d s n x = if leb d x && ltb x (d + n) then m (s + (x - d)) else m x

-- Upwards a copy is right unless it overwrites what it still has to read.
copy_up-copied :
    (n i : ℕ) (m : Memory) (d s x : ℕ)
    → (d ≤ s) ⊎ (s + i + n ≤ d + i)
    → copy_up n i m d s x ≡ (if leb (d + i) x && ltb x (d + i + n) then m (s + (x - d)) else m x)
unfolding copy_up
copy_up-copied zero i m d s x apart = ground arith
copy_up-copied (suc n) i m d s x apart = ground (
  arith,
  copy_up-copied n (i + 1) (update m (d + i) (m (s + i))) d s x
      (elim apart [ inl h ↦ inl h | inr h ↦ inr (omega arith) ]),
)

copy_down-copied : (n : ℕ) (m : Memory) (d s x : ℕ) → s ≤ d → copy_down n m d s x ≡ copied m d s n x
unfolding copy_down
copy_down-copied zero m d s x le = ground arith
copy_down-copied (suc n) m d s x le =
    ground (arith, copy_down-copied n (update m (d + n) (m (s + n))) d s x le)

-- `memmove` copies the cells as they were, also where the two blocks overlap, and changes no other
-- cell.
pub memmove-copied : (m : Memory) (d s n x : ℕ) → memmove m d s n x ≡ copied m d s n x
unfolding memmove
memmove-copied m d s n x = elim (Bool-cases (d == s || n == 0)) [
  | inl e ↦ rw e (ground (arith, e))
  | inr e ↦ elim (Bool-cases (ltb d s)) [
    | inl f ↦ rw (e, f) (copy_up-copied n 0 m d s x (inl (ground arith)) ∙ ground arith)
    | inr f ↦ rw (e, f) (copy_down-copied n m d s x (ground arith))
  ]
]

-- `kmemcpy` does so if the destination does not begin within the source.
pub kmemcpy-copied :
    (m : Memory) (d s n x : ℕ) → (d ≤ s) ⊎ (s + n ≤ d) → kmemcpy m d s n x ≡ copied m d s n x
unfolding kmemcpy
kmemcpy-copied m d s n x apart =
    copy_up-copied n 0 m d s x (elim apart [ inl h ↦ inl h | inr h ↦ inr (omega arith) ])
    ∙ ground arith
