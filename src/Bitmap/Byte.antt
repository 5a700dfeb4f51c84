-- ===== src/Bitmap/Byte.antt =====
-- One byte and one index: a bit that is written is read back, and no other bit changes.
use morphic_os_dev.Base.{
  ℕ, ◌/◌, ◌%◌, ◌<◌, ◌≡◌, refl, Bool, true, false, not, ◌&&◌, arith, ltb, ltb→lt, ◌==◌, inl, inr,
  if◌then◌else◌, Bool-cases, ==→eq,
}
use morphic_os_dev.Base.Bits.{every, every-at}
use morphic_os_dev.Bitmap.{Bitmap, test_bit, write_bit, get, put}

-- Every cell of the memory behind the bitmap is a byte.
abbrev pub IsBytes : Bitmap → Type 0
IsBytes m = (i : ℕ) → m.bytes i < 256

abbrev same : Bool → Bool → Bool
same true b = b
same false b = not b

same→eq : (a b : Bool) → same a b ≡ true → a ≡ b
same→eq a b h = ground arith

abbrev byte_ok : Bool → ℕ → ℕ → ℕ → Bool
byte_ok v b k j =
    ltb (write_bit b k v) 256
    && same (test_bit (write_bit b k v) j) (if k == j then v else test_bit b j)

byte_table : (v : Bool) → every (λ b. every (λ k. every (byte_ok v b k) 8) 8) 256 ≡ true
unfolding every
byte_table true = refl
byte_table false = refl

and_left : (a b : Bool) → (a && b) ≡ true → a ≡ true
and_left a b h = ground arith

and_right : (a b : Bool) → (a && b) ≡ true → b ≡ true
and_right a b h = ground arith

byte_at : (v : Bool) (b k j : ℕ) → b < 256 → k < 8 → j < 8 → byte_ok v b k j ≡ true
byte_at v b k j hb hk hj = every-at (byte_ok v b k) 8 j hj (
    every-at (λ k. every (byte_ok v b k) 8) 8 k hk
      (every-at (λ b. every (λ k. every (byte_ok v b k) 8) 8) 256 b hb (byte_table v)))

pub write_bit-lt : (v : Bool) (b k : ℕ) → b < 256 → k < 8 → write_bit b k v < 256
write_bit-lt v b k hb hk = ltb→lt _ _ (and_left _ _ (byte_at v b k 0 hb hk (omega arith)))

pub test_bit-write_bit :
    (v : Bool) (b k j : ℕ)
    → b < 256
    → k < 8
    → j < 8
    → test_bit (write_bit b k v) j ≡ (if k == j then v else test_bit b j)
test_bit-write_bit v b k j hb hk hj = same→eq _ _ (and_right _ _ (byte_at v b k j hb hk hj))

pub put-IsBytes : (m : Bitmap) (i : ℕ) (v : Bool) → IsBytes m → IsBytes (put m i v)
unfolding put
put-IsBytes m i v h j = elim (Bool-cases (i / 8 == j)) [
  | inl e ↦ rw e (write_bit-lt v (m.bytes (i / 8)) (i % 8) (h (i / 8)) (omega arith))
  | inr e ↦ rw e (h j)
]

same_byte : (i j : ℕ) → i / 8 ≡ j / 8 → (i % 8 == j % 8) ≡ (i == j)
same_byte i j h = ground arith

other_byte : (i j : ℕ) → (i / 8 == j / 8) ≡ false → (i == j) ≡ false
other_byte i j h = ground arith

pub get-put :
    (m : Bitmap) (i j : ℕ) (v : Bool)
    → IsBytes m
    → get (put m i v) j ≡ (if i == j then v else get m j)
unfolding get put
get-put m i j v h = elim (Bool-cases (i / 8 == j / 8)) [
  | inl e ↦
      let q = ==→eq (i / 8) (j / 8) e in
      rw (e, ← q, ← same_byte i j q)
        (test_bit-write_bit v (m.bytes (i / 8)) (i % 8) (j % 8) (h (i / 8)) (omega arith)
          (omega arith))
  | inr e ↦ rw (e, other_byte i j e)
]
