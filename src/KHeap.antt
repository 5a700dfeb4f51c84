-- ===== src/KHeap.antt =====
-- kernel/mm/heap.cpp: the kernel heap, a doubly linked list of segments, each behind its header. The
-- memory is a function from the addresses of headers to headers; a null pointer is 0.
pub mod Layout
pub mod Alloc
pub mod FirstFit
pub mod Combine
pub mod Free
pub mod Release
pub mod RoundTrip
pub mod Apart
pub mod Overrun
pub mod Count
mod Tests
use morphic_os_dev.Base.{
  ℕ, zero, suc, ◌+◌, ◌-◌, ◌*◌, ◌/◌, ◌%◌, ◌^◌, Bool, true, false, not, ◌&&◌, ◌||◌, Option, none,
  some, ltb, ◌==◌, if◌then◌else◌, update, add64, sub64,
}

pub record Header : Type 0 where
  pub length : ℕ
  pub next : ℕ
  pub prev : ℕ
  pub free : Bool
  pub magic : ℕ

abbrev pub Memory : Type 0
Memory = ℕ → Header

pub record KHeap : Type 0 where
  pub memory : Memory
  pub first_segment : ℕ
  pub heap_start : ℕ
  pub heap_size : ℕ

abbrev pub header_size : ℕ
header_size = 32

abbrev pub heap_magic : ℕ
heap_magic = 0xC0FFEE

-- `Init`, over the memory that is found.
unfoldable pub init : Memory → ℕ → ℕ → KHeap
init found start size = record {
  memory = update found start (record {
    length = sub64 size header_size;
    next = 0;
    prev = 0;
    free = true;
    magic = heap_magic;
  });
  first_segment = start;
  heap_start = start;
  heap_size = size;
}

-- `size = (size + 15) & ~15`.
unfoldable pub align : ℕ → ℕ
align size = add64 size 15 / 16 * 16

-- A free segment that is taken whole or split; `size + sizeof(HeapSegmentHeader)` may wrap.
abbrev pub takes : Header → ℕ → Bool
takes s size = s.free && (s.length == size || ltb (add64 size header_size) s.length)

-- `while (current)`, up to the segment that is taken.
unfoldable pub find_fit : ℕ → Memory → ℕ → ℕ → Option ℕ
find_fit zero m size current = none
find_fit (suc fuel) m size current =
    let rest = find_fit fuel m size ((m current).next) in
    if current == 0 then none else if takes (m current) size then some current else rest

-- The header that a split puts behind the first `size` bytes of a segment.
unfoldable pub remainder : Memory → ℕ → ℕ → Header
remainder m current size = record {
  length = sub64 (sub64 ((m current).length) size) header_size;
  next = (m current).next;
  prev = current;
  free = true;
  magic = heap_magic;
}

-- `if (current->next) current->next->prev = …;`
unfoldable pub set_prev : Memory → ℕ → ℕ → Memory
set_prev m next prev = if next == 0 then m else update m next (record (m next) { prev = prev })

unfoldable pub split : Memory → ℕ → ℕ → Memory
split m current size =
    let new = add64 (add64 current header_size) size in
    let made = update m new (remainder m current size) in
    let linked = set_prev made ((made current).next) new in
    update linked current (record (linked current) { length = size; next = new; free = false })

-- The segment is taken.
unfoldable pub place : Memory → ℕ → ℕ → Memory
place m current size =
    if (m current).length == size
    then update m current (record (m current) { free = false })
    else split m current size

-- Each segment has a header of its own, so the list has no more of them than this.
abbrev pub rounds : KHeap → ℕ
rounds h = h.heap_size / header_size

unfoldable pub allocate : KHeap → ℕ → Option ℕ × KHeap
allocate h asked =
    let size = align asked in
    if size == 0 then (none, h) else elim (find_fit (rounds h) h.memory size h.first_segment) [
      | none ↦ (none, h)
      | some current ↦
          (some (add64 current header_size), record h { memory = place h.memory current size })
    ]

-- `CombineFreeSegments`.
unfoldable pub combine : Memory → ℕ → ℕ → Memory
combine m a b =
    if not (a == 0) && not (b == 0) && (m a).free && (m b).free && (m a).next == b
    then (let grown = update m a (record (m a) {
      length = add64 ((m a).length) (add64 ((m b).length) header_size);
      next = (m b).next;
    }) in
        set_prev grown ((grown b).next) a)
    else m

-- `if (header->next && header->next->free)`.
unfoldable pub combine_right : Memory → ℕ → Memory
combine_right m header =
    if not ((m header).next == 0) && (m ((m header).next)).free
    then combine m header ((m header).next)
    else m

-- `if (header->prev && header->prev->free)`.
unfoldable pub combine_left : Memory → ℕ → Memory
combine_left m header =
    if not ((m header).prev == 0) && (m ((m header).prev)).free
    then combine m ((m header).prev) header
    else m

unfoldable pub release : Memory → ℕ → Memory
release m header =
    combine_left (combine_right (update m header (record (m header) { free = true })) header) header

unfoldable pub free_block : KHeap → ℕ → KHeap
free_block h ptr =
    let header = sub64 ptr header_size in
    if ptr == 0
    then h
    else if (h.memory header).magic == heap_magic
    then record h { memory = release h.memory header }
    else h

-- `while (current) { if (current->free) free += current->length; … }`.
unfoldable pub count_free : ℕ → Memory → ℕ → ℕ → ℕ
count_free zero m current free = free
count_free (suc fuel) m current free =
    let rest =
      count_free fuel m ((m current).next)
        (if (m current).free then add64 free ((m current).length) else free) in
    if current == 0 then free else rest

unfoldable pub get_free : KHeap → ℕ
get_free h = count_free (rounds h) h.memory h.first_segment 0

unfoldable pub get_used : KHeap → ℕ
get_used h = sub64 (sub64 h.heap_size (get_free h)) header_size
