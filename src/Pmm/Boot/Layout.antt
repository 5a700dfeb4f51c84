-- ===== src/Pmm/Boot/Layout.antt =====
-- Which pages are free after `PMM::Init`.
use mathlib.Core.Path.{subst}
use morphic_os_dev.Base.{
  ℕ, ◌+◌, ◌*◌, ◌/◌, ◌^◌, ◌≤◌, ◌<◌, ◌≡◌, refl, ◌⊎◌, inl, inr, Bool, true, false, not, ◌&&◌, ◌||◌,
  some, List, [], ◌∷◌, ltb, leb, if◌then◌else◌, arith, none-ne-some, Bool-cases, some-eq,
  Option-cases,
}
use morphic_os_dev.Bitmap
use morphic_os_dev.Bitmap.{Bytes}
use morphic_os_dev.Bitmap.Byte.{IsBytes}
use morphic_os_dev.Bitmap.Range.{Overwrites, set_range-Overwrites, fill_bytes-Overwrites}
use morphic_os_dev.Pmm.{Pmm, page_size}
use morphic_os_dev.Pmm.Spec.{IsValid, IsUsed}
use morphic_os_dev.Pmm.Boot.{
  Descriptor, is_usable, find_high, find_any, region_end, top_of, highest_of, bitmap_size_of,
  find_buffer, free_region, mark_free, reserve, all_used, low_pages, kernel_start, kernel_pages,
  lay_out, init,
}

abbrev in_range : ℕ → ℕ → ℕ → Bool
in_range start n j = leb start j && ltb j (start + n)

-- The page lies in a usable region of the map.
unfoldable pub covered : List Descriptor → ℕ → Bool
covered [] j = false
covered (d ∷ ds) j =
    (is_usable d.kind && in_range (d.phys_addr / page_size) d.num_pages j) || covered ds j

-- No region passes the end of the address space.
abbrev pub NoWrap : List Descriptor → Type 0
NoWrap [] = Unit {0}
NoWrap (d ∷ ds) = (d.phys_addr + d.num_pages * page_size < 2 ^ 64) × NoWrap ds

-- `q` has other bits and other RAM counts than `p`, and is `p` otherwise.
record SameShape (p q : Pmm) : Type 0 where
  same_top : q.highest_addr ≡ p.highest_addr
  same_size : q.bitmap_size ≡ p.bitmap_size
  same_hint : q.last_free_index ≡ p.last_free_index

reserve-SameShape : (p : Pmm) (s n : ℕ) → SameShape p (reserve p s n)
unfolding reserve
reserve-SameShape p s n = record { same_top = refl; same_size = refl; same_hint = refl }

free_region-SameShape :
    (p : Pmm) (d : Descriptor) {q : Pmm} → SameShape (free_region p d) q → SameShape p q
unfolding free_region
free_region-SameShape p d s = record {
  same_top = s.same_top;
  same_size = s.same_size;
  same_hint = s.same_hint;
}

mark_free-SameShape : (p : Pmm) (ds : List Descriptor) → SameShape p (mark_free p ds)
unfolding mark_free
mark_free-SameShape p [] = record { same_top = refl; same_size = refl; same_hint = refl }
mark_free-SameShape p (d ∷ ds) = elim (Bool-cases (is_usable d.kind)) [
  | inl e ↦ rw e (free_region-SameShape p d (mark_free-SameShape (free_region p d) ds))
  | inr e ↦ rw e (mark_free-SameShape p ds)
]

reserve-Overwrites :
    (p : Pmm) (s n : ℕ)
    → IsBytes p.bitmap
    → s + n < 2 ^ 64
    → Overwrites p.bitmap (reserve p s n).bitmap s (s + n) true
unfolding reserve
reserve-Overwrites p s n h fits = set_range-Overwrites p.bitmap s n true h fits

free_region-Overwrites :
    (p : Pmm) (d : Descriptor)
    → IsBytes p.bitmap
    → d.phys_addr / page_size + d.num_pages < 2 ^ 64
    → Overwrites p.bitmap
        (free_region p d).bitmap
        (d.phys_addr / page_size)
        (d.phys_addr / page_size + d.num_pages)
        false
unfolding free_region
free_region-Overwrites p d h fits =
    set_range-Overwrites p.bitmap (d.phys_addr / page_size) d.num_pages false h fits

record Freed (p q : Pmm) (ds : List Descriptor) : Type 0 where
  bytes_ok : IsBytes q.bitmap
  reads : (j : ℕ) → Bitmap.get q.bitmap j ≡ (if covered ds j then false else Bitmap.get p.bitmap j)

mark_free-Freed :
    (p : Pmm) (ds : List Descriptor) → IsBytes p.bitmap → NoWrap ds → Freed p (mark_free p ds) ds
unfolding mark_free covered
mark_free-Freed p [] h w = record { bytes_ok = h; reads = λ j. refl }
mark_free-Freed p (d ∷ ds) h w = elim (Bool-cases (is_usable d.kind)) [
  | inl e ↦
      let o = free_region-Overwrites p d h (omega (arith, w.0)) in
      let r = mark_free-Freed (free_region p d) ds o.bytes_ok w.1 in
      rw e (record { bytes_ok = r.bytes_ok; reads = λ j. ground (arith, r.reads j, o.reads j) })
  | inr e ↦
      let r = mark_free-Freed p ds h w.1 in
      rw e (record { bytes_ok = r.bytes_ok; reads = λ j. ground (arith, r.reads j) })
]

all_used-Overwrites :
    (ram : Bytes) (ds : List Descriptor) (buffer : ℕ)
    → ((i : ℕ) → ram i < 256)
    → Overwrites
        (Bitmap.init ram buffer (bitmap_size_of ds))
        (all_used ram ds buffer).bitmap
        0
        (bitmap_size_of ds * 8)
        true
unfolding all_used Bitmap.init
all_used-Overwrites ram ds buffer h =
    fill_bytes-Overwrites (bitmap_size_of ds) _ 0 (bitmap_size_of ds) true (λ i. h (buffer + i))
      (omega arith)

-- The page is one of the bitmap's own, of the low zone or of the kernel.
unfoldable pub reserved : List Descriptor → ℕ → ℕ → Bool
reserved ds buffer j =
    in_range (buffer / page_size) ((bitmap_size_of ds + 4095) / page_size) j
    || in_range 0 low_pages j
    || in_range kernel_start kernel_pages j

-- The bitmap at `buffer` has its place in a usable region of the map.
abbrev pub Housed : ℕ → ℕ → List Descriptor → Type 0
Housed size buffer [] = ⊥
Housed size buffer (d ∷ ds) =
    ((is_usable d.kind ≡ true) × (buffer ≡ d.phys_addr) × (size ≤ d.num_pages * page_size))
    ⊎ Housed size buffer ds

find_high-Housed :
    (size a : ℕ) (ds : List Descriptor) → NoWrap ds → find_high size ds ≡ some a → Housed size a ds
unfolding find_high
find_high-Housed size a [] w e = absurd (none-ne-some e)
find_high-Housed size a (d ∷ ds) w e = ground (arith, find_high-Housed size a ds w.1)

find_any-Housed :
    (size a : ℕ) (ds : List Descriptor) → NoWrap ds → find_any size ds ≡ some a → Housed size a ds
unfolding find_any
find_any-Housed size a [] w e = absurd (none-ne-some e)
find_any-Housed size a (d ∷ ds) w e = ground (arith, find_any-Housed size a ds w.1)

find_buffer-Housed :
    (size a : ℕ) (ds : List Descriptor)
    → NoWrap ds
    → find_buffer size ds ≡ some a
    → Housed size a ds
unfolding find_buffer
find_buffer-Housed size a ds w e =
    ground (arith, find_high-Housed size a ds w, find_any-Housed size a ds w)

Housed-lt : (size a : ℕ) (ds : List Descriptor) → NoWrap ds → Housed size a ds → a < 2 ^ 64
Housed-lt size a [] w h = absurd h
Housed-lt size a (d ∷ ds) w (inl h) = omega (arith, w.0, h.1)
Housed-lt size a (d ∷ ds) w (inr h) = Housed-lt size a ds w.1 h

top_of-lt : (ds : List Descriptor) (h : ℕ) → h < 2 ^ 64 → top_of ds h < 2 ^ 64
unfolding top_of
top_of-lt [] h lt = lt
top_of-lt (d ∷ ds) h lt =
    top_of-lt ds (if ltb h (region_end d) then region_end d else h) (ground arith)

highest_of-lt : (ds : List Descriptor) → highest_of ds < 2 ^ 64
highest_of-lt ds = ground (arith, top_of-lt ds 0)

-- What `PMM::Init` leaves: a valid state with the bitmap in a usable region, and the pages of the
-- bitmap's reach used but for those of usable regions that are not reserved.
pub record LaidOut (ds : List Descriptor) (buffer : ℕ) (p : Pmm) : Type 0 where
  pub valid : IsValid p
  pub top : p.highest_addr ≡ highest_of ds
  pub size : p.bitmap_size ≡ bitmap_size_of ds
  pub kernel : (j : ℕ) → in_range kernel_start kernel_pages j ≡ true → IsUsed p j
  pub pages :
      (j : ℕ)
      → j < 8 * bitmap_size_of ds
      → Bitmap.get p.bitmap j ≡ (reserved ds buffer j || not (covered ds j))

module _ (ram : Bytes) (ds : List Descriptor) (buffer : ℕ) (bytes : (i : ℕ) → ram i < 256)
    (w : NoWrap ds) (at : buffer < 2 ^ 64) where
  abbrev freed : Pmm
  freed = mark_free (all_used ram ds buffer) ds

  abbrev without_bitmap : Pmm
  without_bitmap = reserve freed (buffer / page_size) ((bitmap_size_of ds + 4095) / page_size)

  abbrev without_low : Pmm
  without_low = reserve without_bitmap 0 low_pages

  full :
      Overwrites
        (Bitmap.init ram buffer (bitmap_size_of ds))
        (all_used ram ds buffer).bitmap
        0
        (bitmap_size_of ds * 8)
        true
  full = all_used-Overwrites ram ds buffer bytes

  step_free : Freed (all_used ram ds buffer) freed ds
  step_free = mark_free-Freed (all_used ram ds buffer) ds full.bytes_ok w

  step_bitmap :
      Overwrites freed.bitmap without_bitmap.bitmap
        (buffer / page_size)
        (buffer / page_size + (bitmap_size_of ds + 4095) / page_size)
        true
  step_bitmap =
      reserve-Overwrites freed (buffer / page_size) _ step_free.bytes_ok
        (omega (arith, highest_of-lt ds))

  step_low : Overwrites without_bitmap.bitmap without_low.bitmap 0 (0 + low_pages) true
  step_low = reserve-Overwrites without_bitmap 0 low_pages step_bitmap.bytes_ok (omega arith)

  step_kernel :
      Overwrites without_low.bitmap
        (lay_out ram ds buffer).bitmap
        kernel_start
        (kernel_start + kernel_pages)
        true
  unfolding lay_out
  step_kernel =
      reserve-Overwrites without_low kernel_start kernel_pages step_low.bytes_ok (omega arith)

  shape : SameShape (all_used ram ds buffer) (lay_out ram ds buffer)
  unfolding lay_out reserve
  shape =
      let s = mark_free-SameShape (all_used ram ds buffer) ds in
      record { same_top = s.same_top; same_size = s.same_size; same_hint = s.same_hint }

  layers :
      (j : ℕ)
      → j < 8 * bitmap_size_of ds
      → Bitmap.get (lay_out ram ds buffer).bitmap j ≡ (reserved ds buffer j || not (covered ds j))
  unfolding reserved
  layers j h = ground (
    arith,
    step_kernel.reads j,
    step_low.reads j,
    step_bitmap.reads j,
    step_free.reads j,
    full.reads j,
  )

  lay_out-LaidOut : LaidOut ds buffer (lay_out ram ds buffer)
  unfolding all_used
  lay_out-LaidOut = record {
    valid = record {
      bytes_ok = step_kernel.bytes_ok;
      small = omega (arith, shape.same_top, highest_of-lt ds);
      hint = omega (arith, shape.same_hint);
      room = omega (arith, shape.same_size, shape.same_top);
    };
    top = shape.same_top;
    size = shape.same_size;
    kernel = λ j h. ground (arith, step_kernel.reads j);
    pages = layers;
  }

-- When `PMM::Init` returns, the bitmap lies in a usable region that holds it, the state is valid, and
-- a page that the bitmap has a bit for is free exactly if it lies in a usable region and is not one of
-- the bitmap's own, of the low 256 MB or of the kernel's 16 MB.
pub init-LaidOut :
    (ram : Bytes) (ds : List Descriptor) (p : Pmm)
    → ((i : ℕ) → ram i < 256)
    → NoWrap ds
    → init ram ds ≡ some p
    → (buffer : ℕ) × Housed (bitmap_size_of ds) buffer ds × LaidOut ds buffer p
unfolding init
init-LaidOut ram ds p bytes w e = elim (Option-cases (find_buffer (bitmap_size_of ds) ds)) [
  | inl none_found ↦ absurd (none-ne-some (rw (none_found, init) at e))
  | inr (buffer, found) ↦
      let h = find_buffer-Housed (bitmap_size_of ds) buffer ds w found in
      let same : lay_out ram ds buffer ≡ p = some-eq (rw (found, init) at e) in
      (
        buffer,
        h,
        subst (LaidOut ds buffer) same
            (lay_out-LaidOut ram ds buffer bytes w (Housed-lt (bitmap_size_of ds) buffer ds w h)),
      )
]

-- `PMM::Init` reserves the kernel's pages at 1 GB also where the machine has less memory than that:
-- then the bitmap ends below their bits, and the bits it sets lie in memory that is not the bitmap's.
pub init_overrun :
    (ram : Bytes) (ds : List Descriptor) (p : Pmm)
    → ((i : ℕ) → ram i < 256)
    → NoWrap ds
    → highest_of ds < 0x40000000
    → init ram ds ≡ some p
    → (p.bitmap_size ≤ kernel_start / 8) × IsUsed p kernel_start
init_overrun ram ds p bytes w low e =
    let (buffer, h, l) = init-LaidOut ram ds p bytes w e in
    (omega (arith, l.size), l.kernel kernel_start refl)
