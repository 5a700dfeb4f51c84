-- ===== src/Bitmap/Tests.antt =====
-- The bitmap at concrete bytes.
use morphic_os_dev.Base.{◌≡◌, refl, true, arith}
use morphic_os_dev.Bitmap.{Bitmap, put, set_to_byte, fill_bytes, set_each, set_from, set_range}
use morphic_os_dev.Bitmap.Range.{Overwrites, set_range-Overwrites}

abbrev zeros : Bitmap
zeros = record { base = 0x100000; bytes = λ i. 0; size = 8 }

range_bytes :
    ((set_range zeros 5 14 true).bytes 0 ≡ 0xe0)
    × ((set_range zeros 5 14 true).bytes 1 ≡ 0xff)
    × ((set_range zeros 5 14 true).bytes 2 ≡ 0x07)
    × ((set_range zeros 5 14 true).bytes 3 ≡ 0)
unfolding set_range set_from set_to_byte fill_bytes set_each put
range_bytes = (refl, refl, refl, refl)

set_range-Overwrites_example : Overwrites zeros (set_range zeros 5 14 true) 5 19 true
set_range-Overwrites_example = set_range-Overwrites zeros 5 14 true (omega arith) (omega arith)
