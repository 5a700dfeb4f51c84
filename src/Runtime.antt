-- ===== src/Runtime.antt =====
-- kernel/utils/std.cpp: C strings and blocks of memory. A string is the list of its bytes before the
-- terminating NUL, so no byte of it is 0; memory is a function of the address.
pub mod Strings
pub mod Blocks
pub mod Writing
pub mod Digits
mod Tests
use morphic_os_dev.Base.{
  ℕ, zero, suc, ◌+◌, ◌-◌, ◌*◌, ◌/◌, ◌%◌, ◌≤◌, ◌<◌, Bool, true, false, ◌&&◌, ◌||◌, Option, none,
  some, List, [], ◌∷◌, ◌++◌, ltb, leb, ◌==◌, if◌then◌else◌, update, length, get_elem?,
}
use morphic_os_dev.Base.Int.{ℤ, pos, negsuc, sub_ℕ}

abbrev pub Text : Type 0
Text = List ℕ

-- `*s`, which is the NUL at the end.
abbrev pub first : Text → ℕ
first [] = 0
first (a ∷ s) = a

unfoldable pub kstrlen : Text → ℕ
kstrlen [] = 0
kstrlen (a ∷ s) = suc (kstrlen s)

-- `while (*s1 && (*s1 == *s2))`.
unfoldable pub kstrcmp : Text → Text → ℤ
kstrcmp [] t = sub_ℕ 0 (first t)
kstrcmp (a ∷ s) [] = sub_ℕ a 0
kstrcmp (a ∷ s) (b ∷ t) = if a == b then kstrcmp s t else sub_ℕ a b

abbrev pub is_zero : ℤ → Bool
is_zero (pos n) = n == 0
is_zero (negsuc n) = false

-- `kstrcmp(s, t) == 0`.
abbrev pub same_text : Text → Text → Bool
same_text s t = is_zero (kstrcmp s t)

unfoldable pub kstrncmp : Text → Text → ℕ → ℤ
kstrncmp s t zero = pos 0
kstrncmp [] t (suc n) = sub_ℕ 0 (first t)
kstrncmp (a ∷ s) [] (suc n) = sub_ℕ a 0
kstrncmp (a ∷ s) (b ∷ t) (suc n) = if a == b then kstrncmp s t n else sub_ℕ a b

-- A `char` from 128 on is negative: `c - d` as signed numbers.
abbrev pub signed_diff : ℕ → ℕ → ℤ
signed_diff c d = sub_ℕ (c + (if ltb d 128 then 0 else 256)) (d + (if ltb c 128 then 0 else 256))

unfoldable pub lower : ℕ → ℕ
lower c = if leb b'A' c && leb c b'Z' then c - b'A' + b'a' else c

unfoldable pub kstricmp : Text → Text → ℤ
unfolding lower
kstricmp [] t = signed_diff 0 (lower (first t))
kstricmp (a ∷ s) [] = signed_diff (lower a) 0
kstricmp (a ∷ s) (b ∷ t) =
    if lower a == lower b then kstricmp s t else signed_diff (lower a) (lower b)

abbrev pub Memory : Type 0
Memory = ℕ → ℕ

-- `for (i = 0; i < n; i++)`, with the rounds left and `i`.
unfoldable pub compare_from : ℕ → ℕ → Memory → ℕ → ℕ → ℤ
compare_from zero i m p q = pos 0
compare_from (suc n) i m p q =
    if m (p + i) == m (q + i) then compare_from n (i + 1) m p q else sub_ℕ (m (p + i)) (m (q + i))

unfoldable pub kmemcmp : Memory → ℕ → ℕ → ℕ → ℤ
unfolding compare_from
kmemcmp m p q n = compare_from n 0 m p q

-- `for (i = 0; i < n; i++) d[i] = s[i];` with the rounds left and `i`.
unfoldable pub copy_up : ℕ → ℕ → Memory → ℕ → ℕ → Memory
copy_up zero i m d s = m
copy_up (suc n) i m d s = copy_up n (i + 1) (update m (d + i) (m (s + i))) d s

unfoldable pub kmemcpy : Memory → ℕ → ℕ → ℕ → Memory
unfolding copy_up
kmemcpy m d s n = copy_up n 0 m d s

unfoldable pub kmemset : ℕ → Memory → ℕ → ℕ → Memory
kmemset zero m p c = m
kmemset (suc n) m p c = kmemset n (update m p (c % 256)) (p + 1) c

-- `for (i = n; i > 0; i--) d[i - 1] = s[i - 1];`.
unfoldable pub copy_down : ℕ → Memory → ℕ → ℕ → Memory
copy_down zero m d s = m
copy_down (suc n) m d s = copy_down n (update m (d + n) (m (s + n))) d s

unfoldable pub memmove : Memory → ℕ → ℕ → ℕ → Memory
unfolding copy_up copy_down
memmove m d s n =
    if d == s || n == 0 then m else if ltb d s then copy_up n 0 m d s else copy_down n m d s

-- The digit table of `kitoa`.
unfoldable pub digit : ℕ → ℕ
digit d = if ltb d 10 then b'0' + d else b'A' + (d - 10)

-- `do … while (value)`: the digits are written from `p` on, the last one first; the end of them is
-- returned. The fuel is above the value.
unfoldable pub write_digits : ℕ → Memory → ℕ → ℕ → ℕ → Memory × ℕ
unfolding digit
write_digits zero m p value base = (m, p)
write_digits (suc fuel) m p value base =
    let m' : Memory = update m p (digit (value - value / base * base)) in
    let rest = write_digits fuel m' (p + 1) (value / base) base in
    if value / base == 0 then (m', p + 1) else rest

-- `while (ptr1 < ptr)`, with at least as many rounds as there are cells between the two.
unfoldable pub swap_between : ℕ → Memory → ℕ → ℕ → Memory
swap_between zero m p q = m
swap_between (suc fuel) m p q =
    let rest = swap_between fuel (update (update m q (m p)) p (m q)) (p + 1) (q - 1) in
    if ltb p q then rest else m

-- The digits of a value from `p` on, the terminating NUL, and the swaps.
unfoldable pub write_number : Memory → ℕ → ℕ → ℕ → Memory
unfolding write_digits swap_between
write_number m p value base =
    let (m', end) = write_digits (suc value) m p value base in
    swap_between (end - p) (update m' end 0) p (end - 1)

-- The text is written at `str`. For -2 ^ 31 the code's negation overflows.
unfoldable pub kitoa : Memory → ℤ → ℕ → ℕ → Memory
unfolding write_number
kitoa m value str base = if ltb base 2 || ltb 36 base then update m str 0 else elim value [
  | pos n ↦ write_number m str n base
  | negsuc n ↦
      if base == 10
      then write_number (update m str b'-') (str + 1) (suc n) base
      else write_number m str (suc n) base
]
