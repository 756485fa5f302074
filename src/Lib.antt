-- ===== src/Lib.antt =====
-- The lkc kernel, a small multi-core RISC-V kernel with processes, signals, pipes and a FAT32 file
-- system: its core algorithms as definitions, and what they guarantee.
--
-- Parts and files. Base holds the helpers: Boolean tests and case splits (Base/Tests), lists
-- indexed by native numbers (Base/Lists), arrays as functions (Base/Arrays), the signed integers
-- of the kernel's counters (Base/Int), panics as `none` (Base/Panic), exclusive or with a power of
-- two (Base/Bits) and multiples of powers of two (Base/Powers).
-- Mm/Buddy is the physical page allocator of src/mm/buddy.c and include/memory/buddy.h. `struct
-- page *` is an index into the metadata of a pool, the free lists are lists of indices,
-- `buddy_get_pages`, `buddy_free_pages`, `init_buddy` and `get_free_mem` are the functions of the
-- same name, and a failed ASSERT or a null pointer that is followed is `none`. The proofs keep an
-- array `owner` that says at which page the block of each page starts (Layout, Invariant);
-- Splitting, SplitStep and SplitLoop are about `split_page`, Merging, MergeStep, Pairing, Mate and
-- MergeLoop about `merge_page`, Counting about the sums of the free lists, Pages about single
-- calls, Boot about `init_buddy`, Trace and Safety about any sequence of calls, FreeMem about
-- `get_free_mem`.
-- Mm/Vma is src/mm/vma.c and include/memory/vma.h: the table `vmas` with the list of one address
-- space. Areas has the lookup, the overlap test and the invariant `Valid` (areas that do not wrap
-- and are pairwise apart), Table the free entries, Mapping `vma_map_range`, Cutting, Views and
-- Split `split_vma`, Placing `find_mapping_space` with `walk` of src/mm/vm.c (Mm/Vm). A failed
-- ASSERT is `none`. Unmapping and copying of address spaces are not modelled.
-- Mm/Kalloc is src/mm/kalloc.c: the order for a size, and in Pages `kmalloc`, `kalloc`, `kfree`
-- and `share_page` over one pool for each processor, with the reference counts of the pages. Live
-- and Counts say which pages are counted, Free is about `kfree`, Life about any sequence of calls.
-- Atomic/Semaphore is src/atomic/semaphore.c with `cond_wait` and `cond_signal` of
-- src/atomic/cond.c. System interleaves any number of threads, with the wake-ups by signals and
-- the exits of killed threads of src/proc/tcb_life.c; Permits has the proofs.
-- Proc/Sched is src/lib/queue.c, src/atomic/cond.c and the threads of src/proc/sched.c: queues are
-- lists of threads, and each thread has a state, the queue of that state and perhaps a queue that
-- it waits in. Queued has the invariant, Steps and Requeueing the single operations, Life any
-- sequence of them, Returns what they return.
-- Atomic/Futex is src/atomic/futex.c on those threads and on the table of Klib/Hash: Waking has
-- `futex_wakeup`, Requeue has `futex_requeue`.
-- Ipc/Signal is src/ipc/signal.c and include/ipc/signal.h. A signal set is a function from the
-- bits of its word, the list of pending signals a list of records, the user's memory a function
-- from addresses. Sets has the structs and the sets of signals. Passes and Delivery are about
-- `signal_handle`, Frame about the frame on the user's stack, Masks about `do_sigprocmask` and
-- actions, Sending about `signal_send`, Pending about any sequence of sending and delivery.
-- Ipc/Pipe is src/ipc/pipe.c and include/ipc/pipe.h on that semaphore. A run of `pipe_write` or
-- `pipe_read` is the code between two waits, which the pipe's lock makes one step. Segments has
-- the unread bytes as a list, Writing, Reading and Closing single runs, Fifo any interleaving of
-- runs.
--
-- Klib is src/lib/string.c on a memory of bytes: Klib/Bytes the blocks (memset, memcmp, memmove),
-- with the children Moving and Comparing; Klib/Strings the terminated strings (strlen, strcmp,
-- strncmp, strncpy, safestrcpy, strchr, strstr, is_suffix, strcat, strnlen), with the children
-- Comparing, Copying, Searching and Joining.
-- Klib/Hash is src/lib/hash.c and include/lib/hash.h: a table is an array of chains. Chains reads
-- a chain as a map from words, Refines the table, Trace any sequence of calls.
-- Fs/Bio is src/fs/bio.c and include/fs/bio.h: a buffer is an index, the list of buffers a list of
-- indices, `disk_rw` of the driver a parameter with the laws Transfers; as in the code it gets no
-- device, so that the theorems are about the reads of one device. `bread` is `bget` up to its wait
-- and `bread_locked` after it, `brelse` is `brelse_unlock` up to its `sema_signal` and
-- `brelse_drop` under `bcache.lock`. Lookup is about the two loops of `bget`, Transfer about
-- `disk_rw_bio`, Coherence has the invariant, Touching and Setting steps on one buffer, Steps,
-- Getting, Filling and Leaving the single operations, Life any interleaving of them.
--
-- Bounds and fuel. Loops up to a NUL run on fuel, of which a string needs one more than its
-- length. The loop of `split_page` has the order of the page as fuel, which every round lowers;
-- `merge_page` has the largest order (13), which every call approaches; the other loops are
-- structural. The sums of `get_free_mem` are products of type int: pools have less than 2 ^ 31
-- bytes, the code's have 46 MB; the metadata of a pool end below START_MEM, with 80 bytes for a
-- `struct page`. Offsets and sums are taken modulo 2 ^ 64, the counters of a pipe modulo 2 ^ 32,
-- `hash_str` modulo 2 ^ 64 and the count of free pages modulo 2 ^ 32. A semaphore's value, the
-- counts of buffers and reference counts are unbounded. `cond_broadcast` has one more fuel than
-- threads wait.
--
-- Not modelled: spinlocks and interrupt depth (a lock makes its section one step), log output, the
-- page tables but for the look-up of an entry (the memory of a process is a record of mapped
-- addresses and bytes), the file objects of a pipe, the context switch, the timers and
-- `PCB_Q_changeState` of src/proc/sched.c, and the other components: file systems, drivers, system
-- calls and the page cache.
pub mod Base
pub mod Fs
pub mod Atomic
pub mod Ipc
pub mod Klib
pub mod Mm
pub mod Proc
