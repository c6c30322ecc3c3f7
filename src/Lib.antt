-- ===== src/Lib.antt =====
-- swagOS, a small x86-64 kernel for several CPUs: a verification library for its core components.
--
-- The program. The kernel boots from a multiboot memory map, hands out physical memory in frames of
-- 2 MB (src/kernel/mem/pmm.c), maps them with page tables (the same file), carves a heap of 2 GB out
-- of them (src/kernel/mem/vmm.c), and runs kernel and user threads on all CPUs
-- (src/kernel/kernel/scheduler.c, src/kernel/kernel/proc.c) under spinlocks
-- (src/kernel/kernel/spinlock.c, src/kernel/kernel/cpu.c). A buffer cache over an IDE disk
-- (src/kernel/fs/buffered_io.c, src/kernel/drivers/ide.c) carries an ext2 file system that is only read
-- (src/kernel/fs/ext2.c). User programs reach files and their heap through system calls
-- (src/kernel/arch/x86_64/syscalls.c).
--
-- The files.
--   Base: numbers, lists that stand for C arrays, bits of machine words, and Outcome: a run returns,
--     ends in panic(), or waits for ever.
--   Pmm: the bitmap of 2 MB frames: physical_frame_request, physical_frame_free, physical_frame_checkout
--     and physical_frame_checkin, free_hugeframe_range and parse_multiboot_mmap_entries. The state is
--     the record FrameManager, after PhysicalMemoryManager. Pmm/View reads the bitmap as a set of
--     frames; Pmm/Updates, Request, Free, Range and Boot are proofs on the operations of their names.
--   SmallFrames: the chunks of 4 KB frames: check_available_chunked_frame, create_new_chunked_frame,
--     try_free_chunked_frame and physical_frame_request_4kb; SmallFrames/Serve is about the page that a
--     search hands out, SmallFrames/Return about its release.
--   KernelHeap: the tree of heap sections: kernel_heap_tree_init, find_heap_frame, kheap_request, kalloc
--     and kfree. KernelHeap/Invariant says when a tree is consistent; Find, Complete, Ranges, Init, Runs
--     and Alloc/Paths are about the search, its completeness, the address ranges, the initial tree, the
--     requests that follow it, and the ways through kalloc and kfree with the heap lock.
--   Spinlock: acquire_Spinlock and release_Spinlock with inc_cli and dec_cli, as functions on one CPU, and
--     in Spinlock/System as an interleaving of the CPUs at the grain of one memory access;
--     Spinlock/Exclusion has the theorems.
--   Paging: map_kernel_page, map_4kb_page_kernel, map_4kb_page_smp, uva_copy_kernel, virtual_to_physical,
--     is_frame_mapped_kernel, is_frame_mapped_thread and the unmap functions, on a memory of 64-bit
--     words; Paging/Mapping has map_4kb_page_user and map_huge_page_user. Paging/Entries and Paging/Walk
--     carry the arithmetic of entries and the walk; Kernel, Small, User and Copy are the theorems.
--   Scheduler: InvokeScheduler with SaveThreadContext, schedule, ScheduleIdleThread and HandleNoSchedule,
--     on a thread table and the current thread of every CPU; Scheduler/Sleep has ThreadSleep, Wakeup,
--     ExitThread and FindFreeThread, Scheduler/Create has CreateKernelThread and CreateIdleThread.
--     Scheduler/Exclusive, Switch and Steps keep each thread on one CPU, RoundRobin is about the order,
--     Wake about wake-ups.
--   LinkedList: the lists of src/kernel/data_structures/linked_list.c on a store of pointers, with room
--     for the aliasing of header and entry that the casts of the source make. LinkedList/Queue and
--     LinkedList/Fifo relate a list that is filled at the tail and emptied at the head to a sequence,
--     LinkedList/Front is about lists that are filled at the head.
--   BufferCache: bget and brelse of src/kernel/fs/buffered_io.c with the sleep lock of each buffer
--     (src/kernel/kernel/sleeplock.c); BufferCache/Disk has bread and bwrite with iderw, idestart and
--     ideintr of src/kernel/drivers/ide.c below them. BufferCache/Unique shows that users of a block
--     share a buffer, BufferCache/Reads that reading through the cache is reading the disk.
--   Ext2: src/kernel/fs/ext2.c, with its state as the record Ext2Driver: arithmetic, sectors, blocks and
--     inodes. Ext2/Directory has the search of directories and of paths, with strcmp and strsplit of
--     src/libc, Ext2/File sizes, files and directories, Ext2/Init the initialisation. Ext2/Blocks, Names,
--     Split, Paths, Content, Indirect and ReadFile are the theorems, Ext2/Sample a small file system.
--   UserHeap: SYSHANDLER_sbrk and SYSHANDLER_free with FreeHeapAllocEntry and FreeUserHeapBits of
--     src/kernel/kernel/proc.c. UserHeap/FirstFit is about the search for pages, UserHeap/Release about
--     the release of what sbrk gave.
--   Files: SYSHANDLER_open, SYSHANDLER_read and SYSHANDLER_close, the fetches from user memory and
--     WriteStruct; Files/Open and Files/Read are the theorems. Files/Stat has SYSHANDLER_fstat with
--     fill_statbuf of src/kernel/fs/vfs.c and its theorem.
--   Libc: memcpy, memmove, memset, memcmp and strlen of src/libc, on a memory of bytes; Libc/Copy and
--     Libc/Fill are the theorems. Libc/Numbers has utoa, itoa and reverse; its modules Digits, Turn and
--     Print are the theorems.
--   The module Tests of a component applies its theorems at concrete states.
--
-- How the parts meet. The Pmm theorems take the manager as the only holder of its lock, which Spinlock
-- justifies; the heap takes its lock with the functions of Spinlock. A step of the scheduler runs under
-- the lock of the process table, so that Scheduler takes steps as atomic; only the writes of ThreadSleep,
-- which are made without that lock, are steps of their own. Files stands on the functions of Ext2; Ext2
-- takes the data of a sector of the disk as a function, Calls.sector, and panics where bread is asked for
-- a sector at or behind FSSIZE; BufferCache/Reads shows that what bread gives is the disk's data. The list of allocations in UserHeap is a sequence; what happens to
-- it where an entry is removed follows LinkedList/Front.
--
-- Parameters. The result that fill_statbuf leaves undefined, and the gaps in the structure that it fills,
-- are arguments of sys_fstat. kalloc is a parameter of Ext2 (Calls.kalloc: whether a buffer of a size is
-- given), and the frames that physical_frame_request_4kb gives are a sequence in UserHeap, where the record
-- Kernel says for which pages map_4kb_page_user returns; Paging/Mapping has that function, which panics on
-- a page that is mapped already. What C leaves
-- undefined is a parameter too: a shift of an int by 32 or more, and 1 << bit for the bits of a 64-bit
-- word. The drive below BufferCache/Disk is a record of its sectors and of whether it answers.
--
-- Numbers. A uint64_t or uint32_t is a natural number with its wrap-around written out. Addresses are
-- numbers. The frame bitmap has 512 words and covers 64 GB.
--
-- Loops and fuel. find_heap_frame recurses on a fuel of 22, one level for each level of the tree, and a
-- theorem says that this is enough; the search of kfree for a section has the same fuel and waits for
-- ever where it runs out, as the source does. The loops of the scheduler count the threads that are left.
-- strlen, the other string functions and the walk over a directory read within a fuel; strlen returns once
-- this exceeds the length of the string, the walk once it exceeds the number of entries. utoa and itoa
-- divide within a fuel, which is enough once it exceeds the number. The loop of SYSHANDLER_read over
-- chunks has one round more than it has bytes to read. All other loops are structural on the number of
-- rounds that are left.
--
-- Left out. Log output; the effect of page table changes on the TLB; the registers that the scheduler's
-- assembly restores; the memory order of real CPUs, which Spinlock takes as sequentially consistent;
-- the freeing of the buffers of ext2.
-- Not modelled: kheap_init; the creation, fork, exec and release of user processes and the ELF loader;
-- the dispatch of system calls and the calls that are not named above; and the hardware side, that is
-- interrupts, the APIC, ACPI, the serial port and all drivers but the IDE disk.
pub mod Base
pub mod BufferCache
pub mod Ext2
pub mod Files
pub mod KernelHeap
pub mod Libc
pub mod LinkedList
pub mod Paging
pub mod Pmm
pub mod Scheduler
pub mod SmallFrames
pub mod Spinlock
pub mod UserHeap
