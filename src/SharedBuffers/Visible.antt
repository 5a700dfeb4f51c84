-- ===== src/SharedBuffers/Visible.antt =====
-- What `GetVisibleBuffers` and `GetReadyBuffers` put in the array.
use mathlib.Core.Path.{subst}
use mathlib.Core.List.{Perm}
use morphic_os_dev.Base.{
  ℕ, suc, ◌+◌, ◌≤◌, ◌≡◌, sym, ap, ◌∙◌, inl, inr, Bool, List, [], ◌∷◌, ◌++◌, lt→ltb, if◌then◌else◌,
  update, length, arith, Bool-cases, append_assoc, append-nil,
}
use morphic_os_dev.SharedBuffers.{SharedBuffer, collect, get_where, z_at, sort_buffers_by_z}
use morphic_os_dev.SharedBuffers.Inserting.{cells, cells-suc, own, Ascending}
use morphic_os_dev.SharedBuffers.Sorting.{sort_buffers_by_z-Ascending}

-- The slots that pass the test, from the slot `i` on.
unfoldable pub slots_where : (SharedBuffer → Bool) → ℕ → List SharedBuffer → List ℕ
slots_where test i [] = []
slots_where test i (b ∷ bs) =
    let rest = slots_where test (i + 1) bs in if test b then i ∷ rest else rest

pushed_cells :
    (count i : ℕ) (out : ℕ → ℕ) → cells (count + 1) (update out count i) ≡ cells count out ++ i ∷ []
pushed_cells count i out =
    ap (λ n. cells n (update out count i)) {x = count + 1} {y = suc count} (omega arith)
    ∙ cells-suc count out (update out count i) (λ j lt. ground (arith, lt))
    ∙ ap (λ x. cells count out ++ x ∷ []) (own i count out)

collect-cells :
    (test : SharedBuffer → Bool) (max i : ℕ) (bs : List SharedBuffer) (count : ℕ) (out : ℕ → ℕ)
    → count + length bs ≤ max
    → cells (collect test max i bs count out).0 (collect test max i bs count out).1
      ≡ cells count out ++ slots_where test i bs
unfolding collect slots_where
collect-cells test max i [] count out le = sym (append-nil (cells count out))
collect-cells test max i (b ∷ bs) count out le = elim (Bool-cases (test b)) [
  | inr f ↦ rw (f) (collect-cells test max (i + 1) bs count out (omega (arith, le)))
  | inl t ↦
      rw (t, lt→ltb count max (omega (arith, le)))
        (collect-cells test max (i + 1) bs (count + 1) (update out count i) (omega (arith, le))
          ∙ ap (λ xs. xs ++ slots_where test (i + 1) bs) (pushed_cells count i out)
          ∙ append_assoc (cells count out) (i ∷ []) (slots_where test (i + 1) bs))
]

-- Exactly the slots that pass the test, from the lowest z to the highest, if the array has room.
pub get_where-Ascending :
    (test : SharedBuffer → Bool) (bs : List SharedBuffer) (out : ℕ → ℕ) (max : ℕ)
    → length bs ≤ max
    → Perm
        (cells (get_where test bs out max).0 (get_where test bs out max).1)
        (slots_where test 0 bs)
      × Ascending (z_at bs) (get_where test bs out max).0 (get_where test bs out max).1
unfolding get_where cells
get_where-Ascending test bs out max le =
    let (p, asc) =
      sort_buffers_by_z-Ascending (z_at bs) (collect test max 0 bs 0 out).0
        (collect test max 0 bs 0 out).1 in
    (
      subst
          (λ xs.
            Perm
              (cells (collect test max 0 bs 0 out).0 (
                sort_buffers_by_z (z_at bs) (collect test max 0 bs 0 out).0
                  (collect test max 0 bs 0 out).1))
              xs)
          (collect-cells test max 0 bs 0 out (omega (arith, le))) p,
      asc,
    )
