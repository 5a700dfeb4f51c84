-- ===== src/AudioRing.antt =====
-- kernel/hal/audio/ring_buffer.h: the audio ring between the kernel and the DMA engine, for a
-- buffer of 2 ^ k bytes. Positions are free-running 32-bit counters; the array is a function of the
-- index, and every index is masked below its size.
pub mod Index
pub mod Fifo
pub mod Stream
mod Tests
use Prim.Native.Nat.{bit_and}
use morphic_os_dev.Base.{
  ℕ, zero, suc, ◌+◌, ◌-◌, ◌%◌, ◌^◌, Bool, List, [], ◌∷◌, ltb, ◌==◌, if◌then◌else◌, update, length,
  take,
}

pub record Ring : Type 0 where
  pub buffer : ℕ → ℕ
  pub write_pos : ℕ
  pub read_pos : ℕ

-- `Init` zeroes the SIZE cells that there are.
unfoldable pub init : Ring
init = record { buffer = λ i. 0; write_pos = 0; read_pos = 0 }

abbrev pub add32 : ℕ → ℕ → ℕ
add32 a b = (a + b) % 2 ^ 32

abbrev pub sub32 : ℕ → ℕ → ℕ
sub32 a b = (a + 2 ^ 32 - b) % 2 ^ 32

-- SIZE is 2 ^ k.
module _ (k : ℕ) where
  unfoldable pub mask : ℕ → ℕ
  mask x = bit_and x (2 ^ k - 1)

  unfoldable pub read_available : Ring → ℕ
  read_available r = mask (sub32 r.write_pos r.read_pos)

  unfoldable pub write_available : Ring → ℕ
  write_available r = 2 ^ k - 1 - mask (sub32 r.write_pos r.read_pos)

  -- `buffer[w] = data[i]; w = (w + 1) & (SIZE - 1);` for the bytes that are left.
  unfoldable pub copy_in : List ℕ → (ℕ → ℕ) → ℕ → ℕ → ℕ
  copy_in [] buffer w = buffer
  copy_in (x ∷ xs) buffer w = copy_in xs (update buffer w x) (mask (add32 w 1))

  -- The list holds the `len` bytes behind the pointer.
  unfoldable pub write : Ring → List ℕ → ℕ × Ring
  write r bytes =
      let available = write_available r in
      let len = if ltb available (length bytes) then available else length bytes in
      (
        len,
        record r {
          buffer = copy_in (take len bytes) r.buffer (mask r.write_pos);
          write_pos = add32 r.write_pos len;
        },
      )

  -- `out[i] = buffer[r]; r = (r + 1) & (SIZE - 1);` for `n` bytes.
  unfoldable pub copy_out : ℕ → (ℕ → ℕ) → ℕ → List ℕ
  copy_out zero buffer r = []
  copy_out (suc n) buffer r = buffer r ∷ copy_out n buffer (mask (add32 r 1))

  unfoldable pub read : Ring → ℕ → List ℕ × Ring
  read r wanted =
      let available = read_available r in
      let len = if ltb available wanted then available else wanted in
      (copy_out len r.buffer (mask r.read_pos), record r { read_pos = add32 r.read_pos len })

  unfoldable pub get_read_pos : Ring → ℕ
  get_read_pos r = mask r.read_pos

  unfoldable pub is_empty : Ring → Bool
  is_empty r = read_available r == 0

  unfoldable pub is_full : Ring → Bool
  is_full r = write_available r == 0

unfoldable pub advance_read : Ring → ℕ → Ring
advance_read r bytes = record r { read_pos = add32 r.read_pos bytes }

unfoldable pub clear : Ring → Ring
clear r = record r { write_pos = 0; read_pos = 0 }
