-- ===== src/Bitmap.antt =====
-- kernel/utils/bitmap.h: a bit per index in a run of bytes. `data` is a raw pointer, here the address
-- `base`; no method compares an offset with `size`, so the memory behind the pointer is a function of
-- the offset, defined everywhere, and `size` only records how much of it belongs to the bitmap.
pub mod Byte
pub mod Range
mod Tests
use Prim.Native.Nat.{bit_and, bit_or}
use morphic_os_dev.Base.{
  ℕ, zero, suc, ◌+◌, ◌-◌, ◌*◌, ◌/◌, ◌%◌, ◌^◌, Bool, not, ◌&&◌, ltb, ◌==◌, if◌then◌else◌, update,
}

-- The bytes from `data` on.
abbrev pub Bytes : Type 0
Bytes = ℕ → ℕ

pub record Bitmap : Type 0 where
  pub base : ℕ
  pub bytes : Bytes
  pub size : ℕ

-- `ram` is the memory as a function of the address.
unfoldable pub init : Bytes → ℕ → ℕ → Bitmap
init ram buffer size_bytes = record {
  base = buffer;
  bytes = λ i. ram (buffer + i);
  size = size_bytes;
}

-- `b & (1 << k)` as a test.
abbrev pub test_bit : ℕ → ℕ → Bool
test_bit b k = not (bit_and b (2 ^ k) == 0)

-- `b |= (1 << k)` and `b &= ~(1 << k)`, stored back into a byte.
abbrev pub write_bit : ℕ → ℕ → Bool → ℕ
write_bit b k v = if v then bit_or b (2 ^ k) else bit_and b (255 - 2 ^ k)

unfoldable pub get : Bitmap → ℕ → Bool
get m index = test_bit (m.bytes (index / 8)) (index % 8)

unfoldable pub put : Bitmap → ℕ → Bool → Bitmap
put m index value = record m {
  bytes = update m.bytes (index / 8) (write_bit (m.bytes (index / 8)) (index % 8) value);
}

-- `while ((index % 8) != 0 && index < end) Set(index++, value)`: the bitmap and `index` after it.
pub set_to_byte : ℕ → Bitmap → ℕ → ℕ → Bool → Bitmap × ℕ
set_to_byte zero m index end value = (m, index)
set_to_byte (suc fuel) m index end value =
    let rest = set_to_byte fuel (put m index value) (index + 1) end value in
    if not (index % 8 == 0) && ltb index end then rest else (m, index)

-- `for (i = 0; i < bytes; i++) data[byteStart + i] = fill`, from byte `i` with `n` rounds left.
pub fill_bytes : ℕ → Bitmap → ℕ → ℕ → Bitmap
fill_bytes zero m i fill = m
fill_bytes (suc n) m i fill = fill_bytes n (record m { bytes = update m.bytes i fill }) (i + 1) fill

-- `while (index < end) Set(index++, value)` with `n` rounds left.
pub set_each : ℕ → Bitmap → ℕ → Bool → Bitmap
set_each zero m index value = m
set_each (suc n) m index value = set_each n (put m index value) (index + 1) value

-- The middle and the last loop of `SetRange`, from the index that the first one reached.
pub set_from : Bitmap → ℕ → ℕ → Bool → Bitmap
set_from m index end value =
    let byte_start = index / 8 in
    let byte_end = end / 8 in
    if ltb byte_start byte_end
    then set_each (end - byte_end * 8)
        (fill_bytes (byte_end - byte_start) m byte_start (if value then 0xff else 0)) (byte_end * 8)
        value
    else set_each (end - index) m index value

pub set_range : Bitmap → ℕ → ℕ → Bool → Bitmap
set_range m index count value =
    let end = (index + count) % 2 ^ 64 in
    let (m', index') = set_to_byte (end - index) m index end value in
    let done = set_from m' index' end value in if count == 0 then m else done
