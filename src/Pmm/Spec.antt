-- ===== src/Pmm/Spec.antt =====
-- What the allocator's state must satisfy, what its searches find, and how many pages are used.
use mathlib.Core.Path.{subst}
use morphic_os_dev.Base.{
  none-ne-some, sym, ap, ◌∙◌, some-eq, ℕ, zero, suc, ◌+◌, ◌*◌, ◌%◌, ◌^◌, ◌≤◌, ◌<◌, ◌≡◌, refl, inl,
  inr, Bool, true, false, ◌&&◌, Option, none, some, arith, ltb, leb, ◌==◌, if◌then◌else◌,
  Bool-cases, ==→eq,
}
use morphic_os_dev.Bitmap
use morphic_os_dev.Bitmap.{Bitmap}
use morphic_os_dev.Bitmap.Byte.{IsBytes, put-IsBytes, get-put}
use morphic_os_dev.Pmm.{Pmm, limit, take_bit, first_free}

abbrev pub IsUsed : Pmm → ℕ → Type 0
IsUsed p i = Bitmap.get p.bitmap i ≡ true

abbrev pub IsFree : Pmm → ℕ → Type 0
IsFree p i = Bitmap.get p.bitmap i ≡ false

-- The bitmap holds a bit for each page below the limit, and the hint does not pass the limit.
pub record IsValid (p : Pmm) : Type 0 where
  pub bytes_ok : IsBytes p.bitmap
  pub small : p.highest_addr < 2 ^ 64
  pub hint : p.last_free_index ≤ limit p
  pub room : limit p ≤ 8 * p.bitmap_size

pub data FreeSearch (m : Bitmap) (i n : ℕ) : Option ℕ → Type 0 where
  found :
      (j : ℕ)
      → i ≤ j
      → j < i + n
      → Bitmap.get m j ≡ false
      → ((k : ℕ) → i ≤ k → k < j → Bitmap.get m k ≡ true)
      → FreeSearch m i n (some j)
  missing : ((k : ℕ) → i ≤ k → k < i + n → Bitmap.get m k ≡ true) → FreeSearch m i n none

extend :
    {m : Bitmap} {i n : ℕ} {r : Option ℕ}
    → Bitmap.get m i ≡ true
    → FreeSearch m (i + 1) n r
    → FreeSearch m i (suc n) r
extend {m} {i} {n} e (found j lo hi free least) =
    found j (omega arith) (omega arith) free (λ k l u. grind (arith, least))
extend {m} {i} {n} e (missing all) = missing (λ k l u. grind (arith, all))

-- The search from `i` finds the first free page, or there is none.
pub first_free-FreeSearch : (n : ℕ) (m : Bitmap) (i : ℕ) → FreeSearch m i n (first_free n m i)
unfolding first_free
first_free-FreeSearch zero m i = missing (λ k l u. absurd (omega arith))
first_free-FreeSearch (suc n) m i = elim (Bool-cases (Bitmap.get m i)) [
  | inl e ↦ rw e (extend e (first_free-FreeSearch n m (i + 1)))
  | inr e ↦ rw e (found i (omega arith) (omega arith) e (λ k l u. absurd (omega arith)))
]

-- The pages below `n` whose bit is set.
unfoldable pub used_below : ℕ → Bitmap → ℕ
used_below zero m = 0
used_below (suc n) m = used_below n m + (if Bitmap.get m n then 1 else 0)

used_below-put_above :
    (n : ℕ) (m : Bitmap) (i : ℕ) (v : Bool)
    → IsBytes m
    → n ≤ i
    → used_below n (Bitmap.put m i v) ≡ used_below n m
unfolding used_below
used_below-put_above zero m i v h le = refl
used_below-put_above (suc n) m i v h le =
    ground (arith, used_below-put_above n m i v h (omega arith), get-put m i n v h)

-- Setting a free page's bit makes one more used page.
pub used_below-put-true :
    (n : ℕ) (m : Bitmap) (i : ℕ)
    → IsBytes m
    → i < n
    → Bitmap.get m i ≡ false
    → used_below n (Bitmap.put m i true) ≡ used_below n m + 1
unfolding used_below
used_below-put-true zero m i h lt e = absurd (omega arith)
used_below-put-true (suc n) m i h lt e = elim (Bool-cases (i == n)) [
  | inl q ↦
      ground
        (arith, used_below-put_above n m i true h (ground arith), get-put m i n true h, ==→eq i n q)
  | inr q ↦ ground (arith, used_below-put-true n m i h (ground arith) e, get-put m i n true h)
]

-- Clearing it makes one less.
pub used_below-put-false :
    (n : ℕ) (m : Bitmap) (i : ℕ)
    → IsBytes m
    → i < n
    → Bitmap.get m i ≡ true
    → used_below n (Bitmap.put m i false) + 1 ≡ used_below n m
unfolding used_below
used_below-put-false zero m i h lt e = absurd (omega arith)
used_below-put-false (suc n) m i h lt e = elim (Bool-cases (i == n)) [
  | inl q ↦
      ground (
        arith,
        used_below-put_above n m i false h (ground arith),
        get-put m i n false h,
        ==→eq i n q,
      )
  | inr q ↦ ground (arith, used_below-put-false n m i h (ground arith) e, get-put m i n false h)
]

-- The free RAM that is left and the RAM of the used pages together, as `size_t` counts.
abbrev pub budget : Pmm → ℕ
budget p = (p.free_ram + 4096 * used_below (limit p) p.bitmap) % 2 ^ 64

-- `q` is `p` with the `n` free pages from `i` on taken.
pub record Takes (p q : Pmm) (i n : ℕ) : Type 0 where
  pub valid : IsValid q
  pub were_free : (k : ℕ) → i ≤ k → k < i + n → IsFree p k
  pub bits :
      (j : ℕ)
      → Bitmap.get q.bitmap j ≡ (if leb i j && ltb j (i + n) then true else Bitmap.get p.bitmap j)
  pub same_top : q.highest_addr ≡ p.highest_addr
  pub same_total : q.total_ram ≡ p.total_ram
  pub same_budget : budget q ≡ budget p

-- Taking the page `i`.
pub take_bit-Takes :
    (p : Pmm) (i : ℕ) → IsValid p → i < limit p → IsFree p i → Takes p (take_bit p i) i 1
unfolding take_bit
take_bit-Takes p i v lt free = record {
  valid = record {
    bytes_ok = put-IsBytes p.bitmap i true v.bytes_ok;
    small = v.small;
    hint = v.hint;
    room = v.room;
  };
  were_free = λ k lo hi. ground arith;
  bits = λ j. ground (arith, get-put p.bitmap i j true v.bytes_ok);
  same_top = refl;
  same_total = refl;
  same_budget = omega (arith, used_below-put-true (limit p) p.bitmap i v.bytes_ok lt free);
}

-- The hint may be moved anywhere below the limit.
pub Takes-hint :
    {p q : Pmm} {i n : ℕ} (h : ℕ)
    → Takes p q i n
    → h ≤ limit q
    → Takes p (record q { last_free_index = h }) i n
Takes-hint h t le = record {
  valid = record {
    bytes_ok = t.valid.bytes_ok;
    small = t.valid.small;
    hint = le;
    room = t.valid.room;
  };
  were_free = t.were_free;
  bits = t.bits;
  same_top = t.same_top;
  same_total = t.same_total;
  same_budget = t.same_budget;
}

-- A page and then the run behind it.
pub Takes-suc :
    {p q r : Pmm} {i n : ℕ}
    → Takes p q i 1
    → Takes q r (i + 1) n
    → ((k : ℕ) → i ≤ k → k < i + suc n → IsFree p k)
    → Takes p r i (suc n)
Takes-suc s t free = record {
  valid = t.valid;
  were_free = free;
  bits = λ j. ground (arith, s.bits j, t.bits j);
  same_top = t.same_top ∙ s.same_top;
  same_total = t.same_total ∙ s.same_total;
  same_budget = t.same_budget ∙ s.same_budget;
}

-- What a request for `n` pages comes to: free pages below the limit, or nothing and `Refused`.
pub data Outcome (Refused : Type 0) (p : Pmm) (n : ℕ) : Option ℕ × Pmm → Type 0 where
  allocated :
      (i : ℕ) (q : Pmm) → i + n ≤ limit p → Takes p q i n → Outcome Refused p n (some (i * 4096), q)
  refused : Refused → Outcome Refused p n (none, p)

-- The same for a result that is known by an equation.
pub Outcome-some :
    {Refused : Type 0} {p q : Pmm} {n a : ℕ} {r : Option ℕ × Pmm}
    → Outcome Refused p n r
    → r ≡ (some a, q)
    → (i : ℕ) × (a ≡ i * 4096) × (i + n ≤ limit p) × Takes p q i n
Outcome-some {p = p} {n = n} (allocated i q' le t) e = (
  i,
  some-eq (sym (ap (λ (x : Option ℕ × Pmm). x.0) e)),
  le,
  subst (λ q. Takes p q i n) (ap (λ (x : Option ℕ × Pmm). x.1) e) t,
)
Outcome-some (refused r) e = absurd (none-ne-some (ap (λ (x : Option ℕ × Pmm). x.0) e))

pub Outcome-none :
    {Refused : Type 0} {p q : Pmm} {n : ℕ} {r : Option ℕ × Pmm}
    → Outcome Refused p n r
    → r ≡ (none, q)
    → Refused × (q ≡ p)
Outcome-none (allocated i q' le t) e =
    absurd (none-ne-some (sym (ap (λ (x : Option ℕ × Pmm). x.0) e)))
Outcome-none (refused r) e = (r, sym (ap (λ (x : Option ℕ × Pmm). x.1) e))
