-- ===== src/Lib.antt =====
-- The kernel of Morphic OS (a freestanding C++ kernel for x86_64), verified part by part.
--
-- Parts and files. Each module's first comment names the source file that it is about.
--   Base       Boolean tests, lists and masks that the parts share.
--   Bitmap     kernel/utils/bitmap.h: `Get` is `get`, `Set` is `put`, `SetRange` is `set_range`.
--   Pmm        kernel/mm/pmm.cpp, the physical page allocator over the bitmap: `AllocPage`,
--              `AllocContiguous` and `FreePage` are `alloc_page`, `alloc_contiguous` and `free_page`;
--              `Init` over the firmware's memory map is `Pmm.Boot.init`.
--   KHeap      kernel/mm/heap.cpp: the segment list in memory; `Allocate` and `Free` are `allocate` and
--              `free_block`, and `KHeap.Layout` says how a sequence of segments lies in memory.
--   AudioRing  kernel/hal/audio/ring_buffer.h, the ring between the mixer and the DMA engine.
--   Scheduler  kernel/process/scheduler.cpp: the circular list of tasks from the current one on, `Schedule`
--              as `schedule` (`choose`, then `reap_dead_tasks`), `Init`, `CreateTask`, `Sleep`, `Exit`, and the
--              event queues (`push_event_to_task`, `pop_event_from_current_task`).
--   RwLock     kernel/arch/common/spinlock.h, the read-write lock: each atomic access of `ReadLock`,
--              `ReadUnlock`, `WriteLock` and `WriteUnlock` is a step of one thread, and any number of
--              threads interleave.
--   MLock      kernel/mm/mlock.h: `Lock`, `Unlock`, `IsLocked`, `InitLocks` and `GetLockedSize` over 16 slots.
--   Runtime    kernel/utils/std.cpp: strings, blocks of memory and `kitoa`.
--   Mcl        kernel/mcl/mcl_parser.cpp: `Tokenize`, `Parse`, `Execute` up to the choice of the handler,
--              `GetSuggestions`, and the input line (`InputChar`, `ProcessInput`).
--   Vfs        kernel/fs/vfs.cpp: the tree of nodes at pointer level; `Open` is `open_path`, `CreateFile` is
--              `create_file`, and so on. What `kmalloc` returns is an argument.
--   BufferCache
--              kernel/hal/storage/buffer_cache.cpp: `Get`, `Put`, `Invalidate` and `FlushDevice` over 64 entries.
--   Mmu        kernel/hal/arch/x86_64/mmu.cpp: the page tables, over the allocator of `Pmm`. A table entry is a
--              record of its bits; memory that holds tables is a function of the table and the index.
--   Evdev      kernel/hal/input/evdev.cpp: the ring of input events, with the calls of the drivers.
--   Storage    kernel/hal/storage/storage_manager.cpp: `ReadSectors` and `WriteSectors` through the cache. What
--              a driver does is an argument, and what it promises is a hypothesis, which `Storage.RamDisk`,
--              the driver of kernel/drivers/ramdisk.cpp, meets.
--   Partition  kernel/hal/storage/partition.cpp: `ScanDevice` over the boot record.
--   SharedBuffers
--              kernel/hal/drm/buffer_manager.cpp: the slots of the buffers that applications draw in, and
--              `SortBuffersByZ`. `Focus` is kernel/hal/input/focus_manager.cpp on top of it.
--   DirtyRects kernel/hal/video/dirty_rects.h: `Mark` and `Clear` over 32 slots.
--
-- How the code is read. An object of static or member state is a record, and a method returns the new
-- record beside its result. Addresses are numbers and a null pointer is `none`. `size_t`, `uint64_t`
-- and `uint32_t` arithmetic is written with its wrap. A raw pointer that the code indexes with no
-- bound is a function of the offset, so a write past the end is a write, and is seen. Printing to the
-- early terminal is left out. Every call but those of the locks runs to its end
-- before the next one starts, as it does under the kernel's spinlocks or with interrupts disabled; the
-- keys that come while `ProcessInput` works are an argument of it. Interleaved calls of the parts that
-- take no lock (`AudioRing`, `Vfs`, `BufferCache`, `Storage`, `Partition`, `Mmu`, `Focus`, `MLock`,
-- `DirtyRects`) are not modelled.
--
-- Loops with a counter recur on the rounds left. The search of `AllocContiguous` has as fuel one round
-- for each start up to its bound, and each round moves the start on, so the fuel is never what ends it
-- (`Pmm.Contiguous`). The first loop of `SetRange` has the length of the range as fuel, and ends at
-- the next byte boundary. The walks over the heap's segments have one round for each 32 bytes of the
-- heap, and each segment has a header of 32 bytes. Reaping runs the 64 rounds of the code.
-- The walks over the children of a node have the number of rounds as an argument; one more than there
-- are children is enough (`Vfs.Creation`).
-- The loop of `MapRange` has a round for each page as fuel, and its theorem says that this is enough.
-- The digit loop of `kitoa` has one round more than the value, which each round divides by the base.
--
-- Not modelled: device drivers but that of the RAM disk, port and memory-mapped I/O, the registers and
-- the TLB, drawing, the system calls, boot code in assembly, the userspace programs, and the handlers of
-- the command language.
pub mod AudioRing
pub mod Base
pub mod Bitmap
pub mod BufferCache
pub mod DirtyRects
pub mod Evdev
pub mod Focus
pub mod KHeap
pub mod MLock
pub mod Mcl
pub mod Mmu
pub mod Partition
pub mod Pmm
pub mod Runtime
pub mod RwLock
pub mod Scheduler
pub mod SharedBuffers
pub mod Storage
pub mod Vfs
