-- ===== src/Pmm/Contiguous.antt =====
-- `AllocContiguous`: the search with its jumps, and the pages that it takes.
use native.Mathlib.Nat.{mod-eq_of_lt}
use native.Mathlib.Decide.{dec_le}
use mathlib.Core.Path.{subst}
use morphic_os_dev.Base.{
  mul64, some-eq, Option-cases, leb→le, le→leb, ℕ, zero, suc, ◌+◌, ◌-◌, ◌*◌, ◌^◌, ◌≤◌, ◌<◌, ◌≡◌,
  refl, inl, inr, true, false, Option, none, some, arith, leb, Bool-cases,
}
use morphic_os_dev.Bitmap
use morphic_os_dev.Bitmap.{Bitmap}
use morphic_os_dev.Pmm.{
  Pmm, limit, page_size, first_used, take_bit, find_run, take_run, hint_after, start_search,
  last_start, alloc_contiguous,
}
use morphic_os_dev.Pmm.Spec.{
  IsFree, IsValid, Takes, Outcome, take_bit-Takes, Takes-hint, Takes-suc, allocated, refused,
}

data UsedSearch (m : Bitmap) (i n : ℕ) : Option ℕ → Type 0 where
  hit : (j : ℕ) → i ≤ j → j < i + n → Bitmap.get m j ≡ true → UsedSearch m i n (some j)
  clear : ((k : ℕ) → i ≤ k → k < i + n → Bitmap.get m k ≡ false) → UsedSearch m i n none

step_over :
    {m : Bitmap} {i n : ℕ} {r : Option ℕ}
    → Bitmap.get m i ≡ false
    → UsedSearch m (i + 1) n r
    → UsedSearch m i (suc n) r
step_over e (hit j lo hi used) = hit j (omega arith) (omega arith) used
step_over e (clear all) = clear (λ k l u. grind (arith, all))

first_used-UsedSearch : (n : ℕ) (m : Bitmap) (i : ℕ) → UsedSearch m i n (first_used n m i)
unfolding first_used
first_used-UsedSearch zero m i = clear (λ k l u. absurd (omega arith))
first_used-UsedSearch (suc n) m i = elim (Bool-cases (Bitmap.get m i)) [
  | inl e ↦ rw e (hit i (omega arith) (omega arith) e)
  | inr e ↦ rw e (step_over e (first_used-UsedSearch n m (i + 1)))
]

used_hit :
    {m : Bitmap} {i n j : ℕ} {r : Option ℕ}
    → UsedSearch m i n r
    → r ≡ some j
    → (i ≤ j) × (j < i + n) × (Bitmap.get m j ≡ true)
used_hit {m} (hit j lo hi used) e =
    let q = some-eq e in (omega arith, omega arith, subst (λ k. Bitmap.get m k ≡ true) q used)
used_hit (clear all) e = cc

used_clear :
    {m : Bitmap} {i n : ℕ} {r : Option ℕ}
    → UsedSearch m i n r
    → r ≡ none
    → (k : ℕ) → i ≤ k
    → k < i + n
    → Bitmap.get m k ≡ false
used_clear (hit j lo hi used) e = cc
used_clear (clear all) e = all

-- No run of `pages` free pages starts between `lo` and `bound`: each has a used page in it.
abbrev pub NoRun : Bitmap → ℕ → ℕ → ℕ → Type 0
NoRun m lo bound pages =
    (s : ℕ) → lo ≤ s → s ≤ bound → (k : ℕ) × (s ≤ k) × (k < s + pages) × (Bitmap.get m k ≡ true)

data RunSearch (m : Bitmap) (lo bound pages : ℕ) : Option ℕ → Type 0 where
  run :
      (s : ℕ)
      → lo ≤ s
      → s ≤ bound
      → ((k : ℕ) → s ≤ k → k < s + pages → Bitmap.get m k ≡ false)
      → RunSearch m lo bound pages (some s)
  no_run : NoRun m lo bound pages → RunSearch m lo bound pages none

jump :
    {m : Bitmap} {lo bound pages j : ℕ} {r : Option ℕ}
    → lo ≤ j
    → j < lo + pages
    → Bitmap.get m j ≡ true
    → RunSearch m (j + 1) bound pages r
    → RunSearch m lo bound pages r
jump a b e (run s l u free) = run s (omega arith) u free
jump {j = j} a b e (no_run f) =
    no_run (λ s l u. elim (dec_le s j) [
      | yes le ↦ (j, le, omega arith, e)
      | no gt ↦ f s (omega arith) u
    ])

-- The jump to the used page loses no run: each start that it skips has that page in its run.
find_run-RunSearch :
    (fuel : ℕ) (m : Bitmap) (lo bound pages : ℕ)
    → suc bound ≤ fuel + lo
    → RunSearch m lo bound pages (find_run fuel m lo bound pages)
unfolding find_run
find_run-RunSearch zero m lo bound pages h = no_run (λ s l u. absurd (omega arith))
find_run-RunSearch (suc fuel) m lo bound pages h = elim (Bool-cases (leb lo bound)) [
  | inl e ↦ elim (Option-cases (first_used pages m lo)) [
    | inl c ↦
        rw (e, c)
          (run lo (omega arith) (leb→le lo bound e)
            (used_clear (first_used-UsedSearch pages m lo) c))
    | inr (j, c) ↦
        let (l, u, used) = used_hit (first_used-UsedSearch pages m lo) c in
        rw (e, c) (jump l u used (find_run-RunSearch fuel m (j + 1) bound pages (omega arith)))
  ]
  | inr e ↦ rw e (no_run (λ s l u. absurd (ground arith)))
]

take_run-Takes :
    (n : ℕ) (p : Pmm) (i : ℕ)
    → IsValid p
    → i + n ≤ limit p
    → ((k : ℕ) → i ≤ k → k < i + n → IsFree p k)
    → Takes p (take_run n p i) i n
unfolding take_run
take_run-Takes zero p i v le free = record {
  valid = v;
  were_free = free;
  bits = λ j. ground arith;
  same_top = refl;
  same_total = refl;
  same_budget = refl;
}
take_run-Takes (suc n) p i v le free =
    let first = take_bit-Takes p i v (omega arith) (free i (omega arith) (omega arith)) in
    Takes-suc first
      (take_run-Takes n (take_bit p i) (i + 1) first.valid (omega (arith, first.same_top))
        (λ k l u. ground (arith, first.bits k, free k)))
      free

module _ (p : Pmm) (pages : ℕ) (v : IsValid p) (fits : pages ≤ limit p) where
  bound : last_start p pages ≡ limit p - pages
  bound = omega (arith, v.small)

  taken :
      (s : ℕ)
      → s + pages ≤ limit p
      → ((k : ℕ) → s ≤ k → k < s + pages → IsFree p k)
      → Outcome
          (NoRun p.bitmap (start_search p) (limit p - pages) pages)
          p
          pages
          (some (mul64 s page_size), hint_after (take_run pages p s) (s + pages))
  taken s le free =
      let small : s * 4096 < 2 ^ 64 = omega (arith, v.small) in
      let t = take_run-Takes pages p s v le free in
      rw (mod-eq_of_lt small)
        (allocated s _ le (Takes-hint _ t (ground (arith, t.same_top, t.valid.hint))))

  of_search :
      {r : Option ℕ}
      → RunSearch p.bitmap (start_search p) (last_start p pages) pages r
      → find_run
          (suc (last_start p pages) - start_search p)
          p.bitmap
          (start_search p)
          (last_start p pages)
          pages
        ≡ r
      → Outcome
          (NoRun p.bitmap (start_search p) (limit p - pages) pages)
          p
          pages
          (alloc_contiguous p pages)
  unfolding alloc_contiguous
  of_search (run s lo hi free) e = rw (e, alloc_contiguous) (taken s (omega (arith, bound)) free)
  of_search (no_run f) e =
      rw (e, alloc_contiguous) (refused (λ s lo hi. f s lo (omega (arith, bound))))

-- `AllocContiguous` of at most as many pages as there are takes a run of free pages below the limit,
-- or refuses, and then no run of free pages starts at or after the start of its search.
pub alloc_contiguous-Outcome :
    (p : Pmm) (pages : ℕ)
    → IsValid p
    → pages ≤ limit p
    → Outcome
        (NoRun p.bitmap (start_search p) (limit p - pages) pages)
        p
        pages
        (alloc_contiguous p pages)
alloc_contiguous-Outcome p pages v fits =
    of_search p pages v fits
      (find_run-RunSearch (suc (last_start p pages) - start_search p) p.bitmap (start_search p)
        (last_start p pages) pages (omega arith))
      refl

first_used-none :
    (n : ℕ) (m : Bitmap) (i : ℕ)
    → ((k : ℕ) → i ≤ k → k < i + n → Bitmap.get m k ≡ false)
    → first_used n m i ≡ none
unfolding first_used
first_used-none zero m i free = refl
first_used-none (suc n) m i free =
    rw (free i (omega arith) (omega arith))
      (first_used-none n m (i + 1) (λ k l u. free k (omega arith) (omega arith)))

find_run_at_once :
    (fuel : ℕ) (m : Bitmap) (lo bound pages : ℕ)
    → 0 < fuel
    → lo ≤ bound
    → ((k : ℕ) → lo ≤ k → k < lo + pages → Bitmap.get m k ≡ false)
    → find_run fuel m lo bound pages ≡ some lo
unfolding find_run
find_run_at_once zero m lo bound pages some_fuel le free = absurd (omega arith)
find_run_at_once (suc fuel) m lo bound pages some_fuel le free =
    rw (le→leb lo bound le, first_used-none pages m lo free)

-- Asked for more pages than there are, `limit - pages` wraps, and where the bits behind the bitmap
-- happen to be clear the request succeeds, with a block that ends above the highest address.
pub alloc_contiguous_overrun :
    (p : Pmm) (pages : ℕ)
    → IsValid p
    → limit p < pages
    → pages < 2 ^ 63
    → ((k : ℕ) → start_search p ≤ k → k < start_search p + pages → IsFree p k)
    → ((alloc_contiguous p pages).0 ≡ some (mul64 (start_search p) page_size))
      × (limit p < start_search p + pages)
unfolding alloc_contiguous
alloc_contiguous_overrun p pages v over small free =
    rw (at_once, alloc_contiguous) (refl, ground arith)
  where
    at_once :
        find_run
          (suc (last_start p pages) - start_search p)
          p.bitmap
          (start_search p)
          (last_start p pages)
          pages
        ≡ some (start_search p)
    at_once =
        find_run_at_once (suc (last_start p pages) - start_search p) p.bitmap (start_search p)
          (last_start p pages) pages (ground (arith, v.small, v.hint))
          (ground (arith, v.small, v.hint)) free
