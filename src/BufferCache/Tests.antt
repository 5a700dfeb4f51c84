-- ===== src/BufferCache/Tests.antt =====
-- Runs of the cache of sectors, and instances of the theorems.
use morphic_os_dev.Base.{◌+◌, ◌≡◌, refl, true, false, List, [], ◌∷◌, arith}
use morphic_os_dev.Base.Text.{bytes}
use morphic_os_dev.Runtime.{kstrcmp}
use morphic_os_dev.Runtime.Strings.{NoNul}
use morphic_os_dev.BufferCache.{init_cache, get, put, find_in, find_lru, lru_from, change}
use morphic_os_dev.BufferCache.Coherence.{Disk}
use morphic_os_dev.BufferCache.History.{Operation, put_op, run, disk_run, get-disk_run}
use morphic_os_dev.BufferCache.Hits.{get-put}

abbrev no_disk : Disk
no_disk name lba i = 0

-- Sector 7 of "hd" is put twice, with the bytes j + 1 and j + 2.
abbrev two_puts : List Operation
two_puts = put_op (bytes "hd") 7 (λ j. j + 1) ∷ put_op (bytes "hd") 7 (λ j. j + 2) ∷ []

no_nul : NoNul (bytes "hd")
no_nul = (omega arith, (omega arith, tt))

read_back : (get (bytes "hd") 7 (λ j. 0) 512 (run 512 two_puts (init_cache true))).1 5 ≡ 7
unfolding get put find_in find_lru lru_from change kstrcmp
read_back = refl

-- A name of 16 characters is stored without its last one, and is not found.
long_name :
    (get
      (bytes "0123456789abcdef")
      7
      (λ j. 0)
      512
      (put (bytes "0123456789abcdef") 7 (λ j. 1) 512 (init_cache true))).0
    ≡ false
unfolding get put find_in find_lru lru_from change kstrcmp
long_name = refl

get-disk_run_example :
    (get (bytes "hd") 7 (λ j. 0) 512 (run 512 two_puts (init_cache true))).1 5
    ≡ disk_run two_puts no_disk (bytes "hd") 7 5
unfolding get put find_in find_lru lru_from change kstrcmp
get-disk_run_example =
    get-disk_run 512 true no_disk two_puts (bytes "hd") 7 (λ j. 0) 5 (omega arith)
      ((no_nul, omega arith), ((no_nul, omega arith), tt)) no_nul refl (omega arith)

get-put_example :
    ((get
        (bytes "hd")
        7
        (λ j. 0)
        512
        (put (bytes "hd") 7 (λ j. j + 3) 512 (run 512 two_puts (init_cache true)))).0
      ≡ true)
    × ((get
            (bytes "hd")
            7
            (λ j. 0)
            512
            (put (bytes "hd") 7 (λ j. j + 3) 512 (run 512 two_puts (init_cache true)))).1
          5
        ≡ 8)
get-put_example =
    get-put two_puts (bytes "hd") 7 (λ j. j + 3) (λ j. 0) 512 5 (omega arith) (omega arith) no_nul
      ((no_nul, omega arith), ((no_nul, omega arith), tt)) (omega arith)
