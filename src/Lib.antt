-- ===== src/Lib.antt =====
-- LaOS: models of the kernel's core and the theorems that make it correct.
--
-- Pmm models kernel/pmm.c, the allocator of physical pages: its state is the record Pmm (the bitmap
-- that pmm_bitmap points to as a function from byte index to byte, pmm_total_pages and the counters of
-- pinfo), its functions keep their C names, and Pmm.Init holds pmm_init_from_memmap with its phases.
-- Every public function runs under pinfo.pmm_lock, so it is one step of the model.
--
-- Heap models kernel/heap.c, the kernel heap, in the variant that kernel/heap.h selects
-- (HEAP_MALLOC_FROM_TAIL): Kheap is kheap_g, and the circular list of struct kheap_node is the list of
-- its blocks in list order. The heap asks for pages through the interface Backing, which stands for
-- pmm_alloc, pmm_free, vmm_is_mapped and vmm_map; the theorems hold for every implementation of it,
-- and those on the mapped pages for every one with the laws of Heap.Backed.
--
-- Vma models kernel/vma.c: the list t->vma_list as a list of regions in its order. That kmalloc has a
-- block for a new region is an argument of vma_alloc.
--
-- Lafs models kernel/lafs.c, the read-only file system: its record holds the static variables, the
-- sector buffer g_sec among them, and a pointer into the buffer is an offset, so that a later read
-- changes what an earlier pointer points to. The block device is a parameter, a function of the sector
-- number and the old buffer. Lafs.Dir holds dir_lookup and lafs_open.
--
-- Cpio models kernel/cpio.c, the reader of initrd archives: Reader is struct cpio_reader, an archive is
-- a function from the offset to the byte, and the pointers of an entry are offsets in it. cpio_find
-- has as many rounds as the archive has bytes and one more, and each entry takes at least its header.
--
-- ModuleAlloc models kernel/module_alloc.c, the bump allocator of the region for loaded modules. Its
-- record Region holds the static variables, and the calls of kernel/pmm.c and kernel/vmm.c go through
-- the interface Pages, whose laws ModuleAlloc.Rollback names.
--
-- BootPhase models kernel/boot_phase.c, where a call that is out of order panics, and BlockDevice models
-- kernel/block_device.c, whose reset requires a phase.
--
-- Mutex models kernel/mutex.c with the raw policy that kernel/config.h selects. A mutex is the record
-- Mutex, the wait queue the list of its threads; the functions that run under waiters.lock keep their
-- names, without the suffix _locked. Mutex.System is the step relation of any number of threads that
-- lock and unlock it, with mutex_lock_raw cut at its compare-and-exchanges and at waiters.lock.
-- Priority models the priorities of kernel/thread.c, which the mutex donates. One mutex is modelled,
-- and the threads take donations from it alone.
--
-- Sched models kernel/sched.c with the run queues of kernel/arch/x86_64/cpu.c, for one CPU: Cpu is
-- struct cpu_context, a run queue is a list of threads and a bit for each priority, and schedule is
-- __schedule up to the choice of the thread that it switches to. The bits are taken in ascending order,
-- so that the search has as many rounds as there are priorities.
--
-- Vmm models kernel/vmm.c for x86-64 with the flags of kernel/arch/x86_64/vmm_arch.h. An entry is a
-- page's number and the bits outside the address, memory is a function of a table's physical address
-- and the index, and the results of the next calls of pmm_alloc are a list. map_page is __vmm_map and
-- unmap_page is __vmm_unmap; the flags of a call have no bit of the address. Vmm.View reads the tables
-- as one function of the page, and Vmm.Tree says that each table is named by one entry, which is what
-- keeps a change of one page from showing at another.
--
-- Mmap models do_mmap and do_munmap of kernel/arch/x86_64/syscall.c over the regions of Vma. There the
-- page tables are the pages that they map, as Vmm shows them to behave, and lists say what the calls of
-- the allocators return and how many tables a mapping lacks. Those tables take pages of the same supply
-- and stay, and pmm_free panics at a page that is not out. Mmap.Orderly is what the calls keep; outside
-- the mapping area of kernel/vma.c it lets anything be mapped, as kernel/elf.c does.
--
-- Strings models kernel/string.c over a memory of bytes. Its loops over strings take a bound on their
-- rounds, for which one more than the characters is enough.
--
-- Numbers are unsigned words held as natural numbers: a 64-bit sum, difference or product is written
-- with its remainder by 2 ^ 64 where it can wrap. A call that ends in panic() has the value panic of
-- the type Outcome. Loops are recursions on the rounds that are left, and each such count is the
-- exact number of rounds of the C loop; the loops of Lafs and of Strings over strings have a bound on
-- their rounds and a result of their own for too few of them, which is shown not to occur.
--
-- Not modelled: log output, statistics and self tests; the locks themselves (a locked region is one
-- step); lafs_readdir; the set-up of the kernel's page tables, their copies for user processes and the
-- destruction of a tree; the switch to the next thread, sleeping and the wake-up by another CPU; the
-- handoff policy of the mutex, which is not compiled; and the other parts of the kernel, of which
-- read-copy update, the loaders and the text tools have logic of their own, while most of the rest
-- drives hardware.
pub mod BlockDevice
pub mod BootPhase
pub mod Common
pub mod Cpio
pub mod Heap
pub mod Lafs
pub mod Mmap
pub mod ModuleAlloc
pub mod Mutex
pub mod Pmm
pub mod Priority
pub mod Sched
pub mod Strings
pub mod Vma
pub mod Vmm
