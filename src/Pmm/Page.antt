-- ===== src/Pmm/Page.antt =====
-- `AllocPage` and `FreePage`.
use native.Mathlib.Nat.{mod-eq_of_lt}
use morphic_os_dev.Base.{
  mul64, ℕ, ◌+◌, ◌-◌, ◌*◌, ◌/◌, ◌^◌, ◌≤◌, ◌<◌, ◌≡◌, refl, inl, inr, false, Option, none, some,
  arith, ◌==◌, if◌then◌else◌, Bool-cases,
}
use morphic_os_dev.Bitmap
use morphic_os_dev.Bitmap.{Bitmap}
use morphic_os_dev.Bitmap.Byte.{put-IsBytes, get-put}
use morphic_os_dev.Pmm.{Pmm, limit, page_size, first_free, take_page, alloc_page, free_page}
use morphic_os_dev.Pmm.Spec.{
  IsUsed, IsFree, IsValid, FreeSearch, found, missing, first_free-FreeSearch, used_below-put-false,
  budget, Takes, Outcome, Outcome-some, take_bit-Takes, Takes-hint, allocated, refused,
}

take_page-Takes :
    (p : Pmm) (i : ℕ) → IsValid p → i < limit p → IsFree p i → Takes p (take_page p i) i 1
unfolding take_page
take_page-Takes p i v lt free =
    let t = take_bit-Takes p i v lt free in Takes-hint (i + 1) t (omega (arith, t.same_top))

-- No page below the limit is free.
abbrev pub AllUsed : Pmm → Type 0
AllUsed p = (k : ℕ) → k < limit p → IsUsed p k

module _ (p : Pmm) (v : IsValid p) where
  take_at :
      (i : ℕ)
      → i < limit p
      → IsFree p i
      → Outcome (AllUsed p) p 1 (some (mul64 i page_size), take_page p i)
  take_at i lt free =
      let small : i * 4096 < 2 ^ 64 = omega (arith, v.small) in
      rw (mod-eq_of_lt small)
        (allocated i (take_page p i) (omega arith) (take_page-Takes p i v lt free))

  from_start :
      {r : Option ℕ}
      → FreeSearch p.bitmap 0 p.last_free_index r
      → first_free (limit p - p.last_free_index) p.bitmap p.last_free_index ≡ none
      → first_free p.last_free_index p.bitmap 0 ≡ r
      → ((k : ℕ) → p.last_free_index ≤ k → k < limit p → IsUsed p k)
      → Outcome (AllUsed p) p 1 (alloc_page p)
  unfolding alloc_page
  from_start (found j lo hi free least) e e' above =
      rw (e, e', alloc_page) (take_at j (omega arith) free)
  from_start (missing below) e e' above =
      rw (e, e', alloc_page) (refused (λ k lt. grind (arith, above, below)))

  from_hint :
      {r : Option ℕ}
      → FreeSearch p.bitmap p.last_free_index (limit p - p.last_free_index) r
      → first_free (limit p - p.last_free_index) p.bitmap p.last_free_index ≡ r
      → Outcome (AllUsed p) p 1 (alloc_page p)
  unfolding alloc_page
  from_hint (found j lo hi free least) e = rw (e, alloc_page) (take_at j (omega arith) free)
  from_hint (missing above) e =
      from_start (first_free-FreeSearch p.last_free_index p.bitmap 0) e refl
        (λ k lo lt. above k lo (omega arith))

-- In a valid state `AllocPage` returns the address of a free page below the limit and takes exactly
-- that page, or returns null, and then every page below the limit is used.
pub alloc_page-Outcome : (p : Pmm) → IsValid p → Outcome (AllUsed p) p 1 (alloc_page p)
alloc_page-Outcome p v =
    from_hint p v (first_free-FreeSearch (limit p - p.last_free_index) p.bitmap p.last_free_index)
      refl

-- `q` is `p` with a page freed.
pub record Frees (p q : Pmm) (page : ℕ) : Type 0 where
  pub valid : IsValid q
  pub bits : (j : ℕ) → Bitmap.get q.bitmap j ≡ (if page == j then false else Bitmap.get p.bitmap j)
  pub same_top : q.highest_addr ≡ p.highest_addr
  pub same_budget : budget q ≡ budget p
  pub idle : IsFree p page → q ≡ p

-- In a valid state `FreePage` of an address in a page below the limit clears that page's bit and no
-- other, keeps the state valid and the RAM accounted for, and changes nothing if the page was free.
pub free_page-Frees :
    (p : Pmm) (address : ℕ)
    → IsValid p
    → address / 4096 < limit p
    → Frees p (free_page p address) (address / 4096)
unfolding free_page
free_page-Frees p address v lt = elim (Bool-cases (Bitmap.get p.bitmap (address / 4096))) [
  | inl e ↦ rw e (record {
    valid = record {
      bytes_ok = put-IsBytes p.bitmap (address / 4096) false v.bytes_ok;
      small = v.small;
      hint = v.hint;
      room = v.room;
    };
    bits = λ j. get-put p.bitmap (address / 4096) j false v.bytes_ok;
    same_top = refl;
    same_budget =
        omega (arith, used_below-put-false (limit p) p.bitmap (address / 4096) v.bytes_ok lt e);
    idle = λ e'. cc;
  })
  | inr e ↦ rw e (record {
    valid = v;
    bits = λ j. ground arith;
    same_top = refl;
    same_budget = refl;
    idle = λ e'. refl;
  })
]

-- A page that `AllocPage` hands out in a valid state and that is freed again leaves every bit as it
-- was before.
pub free_page-alloc_page :
    (p q : Pmm) (a : ℕ)
    → IsValid p
    → alloc_page p ≡ (some a, q)
    → (j : ℕ) → Bitmap.get (free_page q a).bitmap j ≡ Bitmap.get p.bitmap j
free_page-alloc_page p q a v e j =
    let (i, at, le, t) = Outcome-some (alloc_page-Outcome p v) e in
    let page : a / 4096 ≡ i = omega arith in
    let below : a / 4096 < limit q = omega (arith, t.same_top) in
    let f = free_page-Frees q a t.valid below in
    ground (arith, page, f.bits j, t.bits j, t.were_free j)
