-- ===== src/Runtime/Tests.antt =====
-- Small inputs on which the properties of the runtime library are applied.
use morphic_os_dev.Base.{◌≡◌, refl, [], ◌∷◌, arith}
use morphic_os_dev.Base.Int.{pos, negsuc}
use morphic_os_dev.Runtime.{Text, Memory, kstrcmp, kstrncmp, kstricmp, kitoa}
use morphic_os_dev.Runtime.Digits.{Printed, kitoa-Printed}

abbrev list_word : Text
list_word = b'l' ∷ b's' ∷ []

abbrev long_word : Text
long_word = b'l' ∷ b's' ∷ b'x' ∷ []

shorter_first : kstrcmp list_word long_word ≡ negsuc 119
unfolding kstrcmp
shorter_first = refl

same_front : kstrncmp list_word long_word 2 ≡ pos 0
unfolding kstrncmp
same_front = refl

any_case : kstricmp list_word (b'L' ∷ b'S' ∷ []) ≡ pos 0
unfolding kstricmp
any_case = refl

abbrev counting : Memory
counting x = x

kitoa-Printed_example : Printed (kitoa counting (negsuc 41) 100 10) 100 10 (negsuc 41)
kitoa-Printed_example =
    kitoa-Printed counting (negsuc 41) 100 10 (omega arith) (omega arith) (omega arith)
