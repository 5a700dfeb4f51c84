-- ===== src/MLock/Covering.antt =====
-- Which addresses are locked after `Lock`.
use mathlib.Core.Path.{subst}
use native.Mathlib.Nat.{mod-eq_of_lt}
use morphic_os_dev.Base.{
  ℕ, ◌+◌, ◌^◌, ◌*◌, ◌/◌, ◌%◌, ◌&&◌, ltb, ap, ◌≤◌, ◌≡◌, ◌<◌, refl, sym, ◌∙◌, ◌⊎◌, inl, inr, Bool,
  true, false, ◌||◌, none, some, List, leb, arith, leb→lt, Bool-cases, Option-cases, length, add64,
}
use morphic_os_dev.MLock.{
  LockedRegion, MLock, max_locked_regions, page_start, page_size_up, merge_first, add_first, lock,
  is_locked_in, is_locked,
}
use morphic_os_dev.MLock.Slots.{
  Fits, Result, active-le-length, active_count, add_first-full, add_first_lem, in_range,
  merge_first_lem,
}

-- All 16 slots are there, the count is that of the active ones, and no active region wraps.
pub record Valid (l : MLock) : Type 0 where
  pub slots : length l.regions ≡ max_locked_regions
  pub counted : l.count ≡ active_count l.regions
  pub fits : Fits l.regions

module _ (l : MLock) (addr size : ℕ) where
  lock_full : leb max_locked_regions l.count ≡ true → lock l addr size ≡ (false, l)
  unfolding lock
  lock_full e = rw e refl

  module _ (more : leb max_locked_regions l.count ≡ false) where
    lock_merged :
        (rs : List LockedRegion)
        → merge_first l.count (page_start addr) (page_size_up size) l.regions ≡ some rs
        → lock l addr size ≡ (true, record l { regions = rs })
    unfolding lock
    lock_merged rs e = rw (more, e, lock) refl

    lock_added :
        (rs : List LockedRegion)
        → merge_first l.count (page_start addr) (page_size_up size) l.regions ≡ none
        → add_first (page_start addr) (page_size_up size) l.regions ≡ some rs
        → lock l addr size ≡ (true, record { regions = rs; count = l.count + 1 })
    unfolding lock
    lock_added rs e f = rw (more, e, lock) (rw (f, lock) refl)

-- The rounded range is locked.
lock-in_range :
    (l : MLock) (addr size : ℕ)
    → Valid l
    → page_start addr + page_size_up size < 2 ^ 64
    → ((lock l addr size ≡ (false, l)) × (active_count l.regions ≡ 16))
      ⊎ (((lock l addr size).0 ≡ true)
          × Valid (lock l addr size).1
          × ((x : ℕ)
              → is_locked (lock l addr size).1 x
                ≡ (is_locked l x || in_range (page_start addr) (page_size_up size) x)))
unfolding is_locked
lock-in_range l addr size v room = elim (Bool-cases (leb max_locked_regions l.count)) [
  | inl full ↦ inl (
    lock_full l addr size full,
    ground (arith, full, v.counted, v.slots, active-le-length l.regions),
  )
  | inr more ↦ elim (Option-cases (merge_first l.count start_at aligned l.regions)) [
    | inr (rs, e) ↦
        let (w, f, a, n) =
          subst (Result start_at aligned room 0 l.regions) e
            (merge_first_lem start_at aligned room l.count l.regions v.fits) in
        inr (
          taken rs l.count (lock_merged l addr size more rs e) w f (omega (arith, a, v.counted))
            (n ∙ v.slots))
    | inl e ↦ elim (Option-cases (add_first start_at aligned l.regions)) [
      | inr (rs, g) ↦
          let (w, f, a, n) =
            subst (Result start_at aligned room 1 l.regions) g
              (add_first_lem start_at aligned room l.regions v.fits) in
          inr (
            taken rs (l.count + 1) (lock_added l addr size more rs e g) w f
              (omega (arith, a, v.counted)) (n ∙ v.slots))
      | inl g ↦ absurd (
          omega (
            arith,
            add_first-full start_at aligned room l.regions g,
            v.counted,
            v.slots,
            leb→lt max_locked_regions l.count more,
          ))
    ]
  ]
]
  where
    start_at : ℕ
    start_at = page_start addr

    aligned : ℕ
    aligned = page_size_up size

    taken :
        (rs : List LockedRegion) (count : ℕ)
        → lock l addr size ≡ (true, record { regions = rs; count = count })
        → ((x : ℕ) → is_locked_in x rs ≡ (is_locked_in x l.regions || in_range start_at aligned x))
        → Fits rs
        → count ≡ active_count rs
        → length rs ≡ max_locked_regions
        → ((lock l addr size).0 ≡ true)
          × Valid (lock l addr size).1
          × ((x : ℕ)
              → is_locked (lock l addr size).1 x ≡ (is_locked l x || in_range start_at aligned x))
    taken rs count e w f a n =
        subst
          (λ (r : Bool × MLock).
            (r.0 ≡ true)
            × Valid r.1
            × ((x : ℕ) → is_locked r.1 x ≡ (is_locked l x || in_range start_at aligned x)))
          (sym e) (refl, record { slots = n; counted = a; fits = f }, w)

-- Whether a byte from `addr` on, of `size` bytes, is in the page of an address.
abbrev pub in_page_of : ℕ → ℕ → ℕ → Bool
in_page_of addr size x = ltb (x / 4096 * 4096) (addr + size) && ltb addr (x / 4096 * 4096 + 4096)

page_range-fits :
    (addr size : ℕ)
    → addr % 4096 ≡ 0
    → addr + size + 4096 ≤ 2 ^ 64
    → page_start addr + page_size_up size < 2 ^ 64
page_range-fits addr size whole room =
    let up : add64 size 0xFFF ≡ size + 0xFFF = mod-eq_of_lt (omega (arith, room)) in
    omega (arith, whole, room, up)

rounded_range :
    (addr size x : ℕ)
    → addr % 4096 ≡ 0
    → addr + size + 4096 ≤ 2 ^ 64
    → in_range (page_start addr) (page_size_up size) x ≡ in_page_of addr size x
rounded_range addr size x whole room =
    let up : add64 size 0xFFF ≡ size + 0xFFF = mod-eq_of_lt (omega (arith, room)) in
    rw (up) (ground (arith, whole, room))

-- From a valid state, for a range that starts at a page and ends at least a page before 2 ^ 64: `Lock`
-- returns true, and then exactly the addresses that were locked before and those in the pages of the
-- bytes of the range are locked, and the state is valid again; or it returns false, changes nothing,
-- and 16 regions are active.
pub lock-Covers :
    (l : MLock) (addr size : ℕ)
    → Valid l
    → addr % 4096 ≡ 0
    → addr + size + 4096 ≤ 2 ^ 64
    → ((lock l addr size ≡ (false, l)) × (active_count l.regions ≡ 16))
      ⊎ (((lock l addr size).0 ≡ true)
          × Valid (lock l addr size).1
          × ((x : ℕ)
              → is_locked (lock l addr size).1 x ≡ (is_locked l x || in_page_of addr size x)))
lock-Covers l addr size v whole room =
    elim (lock-in_range l addr size v (page_range-fits addr size whole room)) [
      | inl full ↦ inl full
      | inr (ok, valid, covers) ↦ inr (
        ok,
        valid,
        (λ x.
            covers x
            ∙ ap (λ (b : Bool). is_locked l x || b) (rounded_range addr size x whole room)),
      )
    ]
