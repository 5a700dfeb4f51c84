-- ===== src/Storage/Tests.antt =====
-- Runs on the RAM disk: what is read back from it through the cache.
use morphic_os_dev.Base.{◌+◌, ◌≡◌, refl, true, some, [], ◌∷◌, arith}
use morphic_os_dev.Base.Text.{bytes}
use morphic_os_dev.Runtime.{Memory, kstrcmp}
use morphic_os_dev.Runtime.Strings.{NoNul}
use morphic_os_dev.BufferCache.{init_cache}
use morphic_os_dev.BufferCache.History.{init_cache-CoherentCache}
use morphic_os_dev.Storage.{BlockDevice, read_sectors, write_sectors, get_device, register_device}
use morphic_os_dev.Storage.Reading.{Result, read_sectors-Result}
use morphic_os_dev.Storage.Writing.{read_sectors-write_sectors}
use morphic_os_dev.Storage.RamDisk.{
  read_blocks, write_blocks, init_ram_disk, ram_device, held, read_blocks-IsReader,
  read_blocks-Serves, write_blocks-IsWriter,
}

-- The disk at 4096, in a memory of ones.
abbrev blank : Memory
blank = (init_ram_disk (some 4096) (λ x. 1)).1

abbrev ram_disk : BlockDevice Memory
ram_disk = ram_device (init_ram_disk (some 4096) (λ x. 1)).0

no_nul : NoNul (bytes "rd0")
no_nul = (omega arith, (omega arith, (omega arith, tt)))

registered : register_device (some ram_disk) [] ≡ ram_disk ∷ []
unfolding register_device
registered = refl

read_sectors-Result_example :
    Result
      (held 4096)
      (held 4096 blank)
      (bytes "rd0")
      512
      (read_blocks (some 4096))
      3
      5
      0
      (λ j. 1)
      (read_sectors (bytes "rd0") 5 3 (λ j. 1) (ram_disk ∷ []) (init_cache true) blank)
unfolding get_device kstrcmp
read_sectors-Result_example =
    read_sectors-Result (held 4096) (held 4096 blank) (bytes "rd0") 512 (read_blocks (some 4096))
      (omega arith) no_nul (omega arith) (read_blocks-IsReader 4096) ram_disk (ram_disk ∷ []) 3 5
      (λ j. 1) (init_cache true) blank refl refl refl (omega arith)
      (init_cache-CoherentCache 512 true (held 4096 blank)) (λ m l i. refl)

-- Byte 2 of the second of two sectors.
read_sectors-write_sectors_example :
    (read_sectors
        (bytes "rd0")
        5
        2
        (λ j. 0)
        (ram_disk ∷ [])
        (write_sectors (bytes "rd0") 5 2 (λ j. j + 10) (ram_disk ∷ []) (init_cache true) blank).1
        (write_sectors (bytes "rd0") 5 2 (λ j. j + 10) (ram_disk ∷ []) (init_cache true) blank).2).1
      514
    ≡ 524
unfolding get_device kstrcmp write_sectors write_blocks
read_sectors-write_sectors_example =
    read_sectors-write_sectors (held 4096) (bytes "rd0") 512 (omega arith) no_nul
      (write_blocks (some 4096)) 5 2 (write_blocks-IsWriter 4096 5 2 (omega arith)) ram_disk
      (ram_disk ∷ []) refl refl (read_blocks (some 4096)) (λ j. j + 10) (λ j. 0) (init_cache true)
      blank (omega arith) (read_blocks-IsReader 4096) (read_blocks-Serves 4096 5 2 (omega arith))
      refl refl (omega arith) (init_cache-CoherentCache 512 true (held 4096 blank)) refl 1 2
      (omega arith) (omega arith)
