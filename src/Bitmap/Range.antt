-- ===== src/Bitmap/Range.antt =====
-- `SetRange` against a loop over single bits: its three loops overwrite exactly the bits of the range.
use native.Mathlib.Nat.{mod-eq_of_lt}
use mathlib.Core.Path.{subst}
use morphic_os_dev.Base.{
  ℕ, zero, suc, ◌+◌, ◌-◌, ◌*◌, ◌/◌, ◌%◌, ◌^◌, ◌≤◌, ◌<◌, ◌≡◌, refl, ◌⊎◌, inl, inr, Bool, true, false,
  not, ◌&&◌, arith, ltb, leb, ◌==◌, if◌then◌else◌, Bool-cases, update,
}
use morphic_os_dev.Base.Bits.{every, every-at}
use morphic_os_dev.Bitmap.{
  Bitmap, test_bit, get, put, set_to_byte, fill_bytes, set_each, set_from, set_range,
}
use morphic_os_dev.Bitmap.Byte.{IsBytes, put-IsBytes, get-put}

-- `m'` is `m` with the bits from `a` up to `b` set to `v`, and all others as they were.
pub record Overwrites (m m' : Bitmap) (a b : ℕ) (v : Bool) : Type 0 where
  pub bytes_ok : IsBytes m'
  pub reads : (j : ℕ) → get m' j ≡ (if leb a j && ltb j b then v else get m j)

Overwrites-none : (m : Bitmap) (a b : ℕ) (v : Bool) → IsBytes m → b ≤ a → Overwrites m m a b v
Overwrites-none m a b v h le = record { bytes_ok = h; reads = λ j. ground arith }

Overwrites-put : (m : Bitmap) (i : ℕ) (v : Bool) → IsBytes m → Overwrites m (put m i v) i (i + 1) v
Overwrites-put m i v h = record {
  bytes_ok = put-IsBytes m i v h;
  reads = λ j. ground (arith, get-put m i j v h);
}

Overwrites-trans :
    {m m' m'' : Bitmap} {a b c : ℕ} {v : Bool}
    → Overwrites m m' a b v
    → Overwrites m' m'' b c v
    → a ≤ b
    → b ≤ c
    → Overwrites m m'' a c v
Overwrites-trans p q h k = record {
  bytes_ok = q.bytes_ok;
  reads = λ j. ground (arith, p.reads j, q.reads j);
}

set_each-Overwrites :
    (n : ℕ) (m : Bitmap) (i end : ℕ) (v : Bool)
    → IsBytes m
    → end ≡ i + n
    → Overwrites m (set_each n m i v) i end v
unfolding set_each
set_each-Overwrites zero m i end v h e = Overwrites-none m i end v h (omega arith)
set_each-Overwrites (suc n) m i end v h e =
    Overwrites-trans (Overwrites-put m i v h)
      (set_each-Overwrites n (put m i v) (i + 1) end v (put-IsBytes m i v h) (omega arith))
      (omega arith) (omega arith)

abbrev fill_ok : Bool → ℕ → Bool
fill_ok v k = if v then test_bit 0xff k else not (test_bit 0 k)

fill_table : (v : Bool) → every (fill_ok v) 8 ≡ true
unfolding every
fill_table true = refl
fill_table false = refl

test_bit-fill : (v : Bool) (k : ℕ) → k < 8 → test_bit (if v then 0xff else 0) k ≡ v
test_bit-fill v k h = ground (arith, every-at (fill_ok v) 8 k h (fill_table v))

Overwrites-byte :
    (m : Bitmap) (i : ℕ) (v : Bool)
    → IsBytes m
    → Overwrites m
        (record m { bytes = update m.bytes i (if v then 0xff else 0) })
        (i * 8)
        ((i + 1) * 8)
        v
unfolding get
Overwrites-byte m i v h = record {
  bytes_ok = λ j. ground (arith, h j);
  reads = λ j. ground (arith, test_bit-fill v (j % 8) (omega arith));
}

pub fill_bytes-Overwrites :
    (n : ℕ) (m : Bitmap) (i end : ℕ) (v : Bool)
    → IsBytes m
    → end ≡ i + n
    → Overwrites m (fill_bytes n m i (if v then 0xff else 0)) (i * 8) (end * 8) v
unfolding fill_bytes
fill_bytes-Overwrites zero m i end v h e = Overwrites-none m (i * 8) (end * 8) v h (omega arith)
fill_bytes-Overwrites (suc n) m i end v h e =
    let first = Overwrites-byte m i v h in
    Overwrites-trans first (fill_bytes-Overwrites n _ (i + 1) end v first.bytes_ok (omega arith))
      (omega arith) (omega arith)

-- Where the first loop stops: at a byte boundary, or at the end of the range.
record Aligned (m : Bitmap) (i end : ℕ) (v : Bool) (out : Bitmap × ℕ) : Type 0 where
  wrote : Overwrites m out.0 i out.1 v
  forward : i ≤ out.1
  inside : out.1 ≤ end
  stop : (out.1 % 8 ≡ 0) ⊎ (out.1 ≡ end)

set_to_byte-Aligned :
    (fuel : ℕ) (m : Bitmap) (i end : ℕ) (v : Bool)
    → IsBytes m
    → i ≤ end
    → end ≤ i + fuel
    → Aligned m i end v (set_to_byte fuel m i end v)
unfolding set_to_byte
set_to_byte-Aligned zero m i end v h le enough = record {
  wrote = Overwrites-none m i i v h (omega arith);
  forward = omega arith;
  inside = le;
  stop = inr (omega arith);
}
set_to_byte-Aligned (suc fuel) m i end v h le enough =
    elim (Bool-cases (not (i % 8 == 0) && ltb i end)) [
      | inl e ↦ rw e (
          more (
            set_to_byte-Aligned fuel (put m i v) (i + 1) end v (put-IsBytes m i v h) (ground arith)
              (omega arith)))
      | inr e ↦ rw e (record {
        wrote = Overwrites-none m i i v h (omega arith);
        forward = omega arith;
        inside = le;
        stop = ground arith;
      })
    ]
  where
    more : {out : Bitmap × ℕ} → Aligned (put m i v) (i + 1) end v out → Aligned m i end v out
    more a = record {
      wrote = Overwrites-trans (Overwrites-put m i v h) a.wrote (omega arith) a.forward;
      forward = omega (arith, a.forward);
      inside = a.inside;
      stop = a.stop;
    }

set_from-Overwrites :
    (m : Bitmap) (i end : ℕ) (v : Bool)
    → IsBytes m
    → i ≤ end
    → (i % 8 ≡ 0) ⊎ (i ≡ end)
    → Overwrites m (set_from m i end v) i end v
unfolding set_from
set_from-Overwrites m i end v h le stop = elim (Bool-cases (ltb (i / 8) (end / 8))) [
  | inl e ↦ rw e (
      Overwrites-trans (whole e)
        (set_each-Overwrites (end - end / 8 * 8) _ (end / 8 * 8) end v (whole e).bytes_ok
          (omega arith))
        (ground arith) (omega arith))
  | inr e ↦ rw e (set_each-Overwrites (end - i) m i end v h (omega arith))
]
  where
    whole :
        ltb (i / 8) (end / 8) ≡ true
        → Overwrites m
            (fill_bytes (end / 8 - i / 8) m (i / 8) (if v then 0xff else 0))
            i
            (end / 8 * 8)
            v
    whole e =
        let start : i / 8 * 8 ≡ i = ground arith in
        subst
          (λ a.
            Overwrites m (fill_bytes (end / 8 - i / 8) m (i / 8) (if v then 0xff else 0)) a
              (end / 8 * 8) v)
          start (fill_bytes-Overwrites (end / 8 - i / 8) m (i / 8) (end / 8) v h (ground arith))

-- `SetRange` sets the bits from `index` up to `index + count` and no other, if that sum does not wrap.
pub set_range-Overwrites :
    (m : Bitmap) (index count : ℕ) (v : Bool)
    → IsBytes m
    → index + count < 2 ^ 64
    → Overwrites m (set_range m index count v) index (index + count) v
unfolding set_range
set_range-Overwrites m index count v h fits = elim (Bool-cases (count == 0)) [
  | inl e ↦ rw e (Overwrites-none m index (index + count) v h (ground arith))
  | inr e ↦
      rw (e, mod-eq_of_lt fits)
        (Overwrites-trans first.wrote
          (set_from-Overwrites _ _ _ v first.wrote.bytes_ok first.inside first.stop) first.forward
          first.inside)
]
  where
    first :
        Aligned m index
          (index + count)
          v
          (set_to_byte (index + count - index) m index (index + count) v)
    first = set_to_byte-Aligned _ m index (index + count) v h (omega arith) (omega arith)
