-- ===== src/Lib.antt =====
-- A verification library for the four course projects of this repository.
--
-- p2 (Worker): a library of user-level threads. Threads run one at a time; a call that gives up the
-- processor, the timer's signal and the end of a thread swap to the scheduler context, which chooses
-- the next thread. Worker.Tcb is the thread control block (`tcb`), Worker.ThreadList the linked list
-- with the operations of the run queue (`insert_by_usage`, `remove_from`,
-- `find_first_unblocked_thread`), Worker.Ring the circular list (`enqueue`, `dequeue`) with its nodes
-- in a store, and Worker.Queue the queue that it stores. Worker.World is the record of the library's
-- global variables. Worker.Threads has `worker_create`, `worker_yield`, `worker_exit`,
-- `worker_join`, the cleanup context and the timer's handler, Worker.Mutex the mutexes, and
-- Worker.Psjf and Worker.Mlfq one round of each scheduler (`sched_psjf`, `sched_mlfq`).
-- Worker.Library has `init_library`, `cleanup_library` and `schedule`, and Worker.Steps the use that
-- a program makes of the library under the shortest-job-first scheduler, as a step relation on the
-- global state: a step is a call of the running thread, the timer's signal or the thread's end, with
-- the scheduler's round that it leads to. What `malloc` is documented to do, the guards on the
-- numbers of threads and mutexes, and that the block of `mutexes` holds NULL at the start are
-- arguments of the steps and of the start. A call that keeps SIGPROF blocked throughout is one step;
-- `worker_join` and the `worker_mutex_destroy` of a held mutex, which unblock it halfway, are split
-- there. Taken whole are the accounting of `worker_yield`, the filling in of the tcb in
-- `worker_create`, and the removal of a mutex, so that two removals do not overlap. All are in
-- p2/code/thread-worker.c and .h. An operation is a function of the global state; what `malloc` and
-- `clock_gettime` return are arguments; a failed assertion is `none`. A call that swaps to the
-- scheduler has the outcome `yields`, one that does not has `returned`.
--
-- p3 (Vm): paged memory with a translation cache, in p3/code/my_vm.c and .h. Vm.Scheme has the
-- widths of the parts of an address, Vm.Address the parts, Vm.Bitmap the bitmaps of pages and
-- frames, Vm.Machine the global state with the simulated memory as bytes by address, Vm.Tlb the
-- cache and the walk of the page tables (`check_TLB`, `fetch_pte_from`), Vm.Setup
-- `set_physical_mem`, Vm.Paging `page_map` and `t_malloc`, Vm.Release `t_free`, Vm.Values
-- `put_value` and `get_value`, Vm.Matrix `mat_mult`, and Vm.Cleanup `clean_my_vm`. The library lock makes each call one
-- step. `unsigned long` and pointers have 32 bits. The recursion of `put_value_aux` and
-- `get_value_aux` is on fuel, one unit for a page.
--
-- p4 (Rufs): a file system, in p4/code/rufs.c and .h and p4/code/block.c. Rufs.Bitmap has the
-- bitmaps, Rufs.Layout the records on the disk, Rufs.Disk the block device (`bio_read`,
-- `bio_write`), Rufs.Inodes the global state with `get_avail_ino`, `get_avail_blkno`, `readi` and
-- `writei`, Rufs.Directory `dir_find` and `dir_add`, Rufs.Paths `get_node_by_path`, Rufs.Setup
-- `rufs_mkfs` and `rufs_init`, Rufs.Entries the FUSE operations on paths and directories
-- (Rufs.Entries.Unwritten those that only return 0) and
-- Rufs.Files `rufs_read` and `rufs_write`. Rufs.Format is the state of a formatted disk, on which
-- the theorems stand. A block holds data of one kind; reading it as another kind, and a call of
-- `exit`, are `none`. The disk tells which blocks fail, FUSE's `filler` is a parameter, and the
-- time an argument. A name is a list of bytes; copying one of more than 207 bytes into a directory
-- entry, which overflows the entry's field, is `none`.
--
-- p1: Bitops has p1/bitops.c, single bits in two orientations and the top bits of a word, and Counter
-- p1/threads.c, threads that add to a counter under the pthread library's mutex, as a step relation:
-- a thread takes the mutex only while nobody holds it, and reads and writes the counter, a word of 32
-- bits, in two steps.
--
-- Prelude is what the parts share: lists measured by native numbers, Boolean tests, chains of results,
-- bits of bytes (Prelude.Bytes, by a table of all bytes; Prelude.BitArray for arrays),
-- `|` without common bits (Prelude.Disjoint) and the loop that counts shifts (Prelude.Shifts, 64 or
-- 32 rounds, since a value of as many bits is 0 after them).
--
-- Not modelled: machine contexts, output, the floating-point averages, the
-- freeing of memory, p1/stack.c, sample code and benchmarks.
pub mod Prelude
pub mod Worker
pub mod Vm
pub mod Rufs
pub mod Bitops
pub mod Counter
