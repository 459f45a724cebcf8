-- ===== src/Lib.antt =====
-- Verification of the CS 537 group projects.
--
-- p6 is a key-value server behind a ring buffer in shared memory. Clients hand descriptors to
-- `ring_submit`; the threads of the server take them with `ring_get`, call `put` or `get` of a hash
-- table, and write each answer at the place that the descriptor names.
--
-- - Kv/Store.antt: p6/kv_store.c, the hash table, with `hash_function` of p6/common.h. Children:
--   Chain (one chain), Laws (the whole table), Free (the life of its blocks).
-- - Kv/Ring.antt: p6/ring_buffer.h and p6/ring_buffer.c. Ring/Threads.antt has `ring_submit` and
--   `ring_get` as the steps of a thread, a shared access at a time, and the interleavings of any
--   number of threads; Ring/Window.antt the descriptors in the ring; Ring/Invariant.antt the
--   invariant; Ring/Fifo.antt what the users rely on.
-- - Kv/Server.antt: `thread_function` of p6/kv_store.c, as one thread runs it; whether `malloc` gives
--   memory at each request is an argument. Server/Refine.antt compares it with a dictionary.
-- - Kv/Client.antt: a thread of p6/client.c, a round of its loops at a time, and the server's writes to
--   its status board in any order. Client/Slots, Window, Moves, Results and Progress are about it.
--   Client/Parts.antt: `start_threads`; Client/Input.antt: the workload file, whose lines are the tokens
--   that `strtok` finds, with Client/PastEnd about it.
--
-- p4 adds memory mappings to xv6: `wmap` and `wunmap` keep a list of mappings for each process, at
-- addresses between 0x60000000 and 0x80000000, and change its page table and its files' counts.
--
-- - Wmap/State.antt: the process, the page table and the file table, from p4/xv6-public/proc.h, mmu.h,
--   vm.c and file.c. Wmap/Map.antt: `sys_wmap`; Wmap/Unmap.antt: `sys_wunmap`; Wmap/Info.antt:
--   `sys_getwmapinfo`; Wmap/Remap.antt: `sys_wremap` up to the new size in place or the new address
--   (the copy of a moved mapping can fault and is not modelled); all of p4/xv6-public/sysproc.c. Wmap/Search.antt is about the search for an
--   address, whose fuel is a round for each mapping and one more; Disjoint and Tables are about the calls
--   that map, Failure about those that do not; Unlink and Unload about the list and the page table after
--   `sys_wunmap`. Wmap/Fault.antt: the case `T_PGFLT` of p4/xv6-public/trap.c, with `mappages` of vm.c for
--   one page; Fault/Loaded and Fault/Killed are about it. What `fileread` gives is an argument, and the
--   offset that it keeps in the open file is left out. Wmap/Exit.antt: the loop of `exit` of
--   p4/xv6-public/proc.c over the mappings, for the rounds that are left; Wmap/Fork.antt: the loop of `fork`
--   that copies them. A page for an entry comes from `kalloc`, an argument; `kfree` and `filewrite` are
--   entries of a log. An `int` is its bit pattern, and arithmetic on it wraps.
--
-- p7 is a file system on a disk image: a superblock, a bitmap of the inodes, one of the data
-- blocks, the inodes and the data blocks.
--
-- - Wfs/Disk.antt: the image's bytes and the `int`s in them; Wfs/Bits.antt: `^`, `&` and `~` read as
--   bits. Wfs/Bitmap.antt: `allocate_block` and `flip_bit_in_bitmap` of p7/wfs.c, whose loops run
--   for the rounds that are left; Bitmap/Search.antt and Bitmap/Flip.antt are about them.
--   Wfs/Format.antt: `main` of p7/mkfs.c, with Format/Layout.antt on the regions and
--   Format/Fresh.antt on the new image.
-- - Wfs/Inode.antt: the inodes and the entries of directories in the image. Wfs/Lookup.antt:
--   `find_dentry` and `find_inode_number_by_path`, where a path is the list of names that `strtok`
--   finds. Wfs/Create.antt: `wfs_mknod` and `wfs_mkdir`; Wfs/Remove.antt: `wfs_unlink` and `wfs_rmdir`;
--   Wfs/Read.antt: `wfs_read`, `wfs_getattr` and `wfs_readdir`; Wfs/Write.antt: `wfs_write`, whose loops
--   run at most once for each address of a block. Their children and Wfs/Outside.antt have what holds
--   of them. What `time` and the user's numbers are is an argument; the copy of a path into 50 bytes is
--   left out.
--
-- p5 gives xv6's processes nice values and mutexes. The scheduler runs a process of least elevated
-- nice; the holder of a mutex is raised to the nice of who waits for it.
--
-- - Sched/Table.antt: the process table, with `findminnice`, the choice of `scheduler`, `wakeup1`,
--   `sleep_proc_notify` and `kill` of p5/xv6-public/proc.c, and `sys_nice` of p5/xv6-public/sysproc.c.
--   Sched/Mutex.antt: `sys_macquire` a round of its loop at a time, and `sys_mrelease`, of sysproc.c,
--   and `minit` of p5/xv6-public/mutex.c. Nice, Priority, Choice, Wakeup, Kill and Inherit are about them.
--   The table's lock is held throughout each operation.
-- - Procs/Calls.antt: `fork`, `clone`, `exit` and `wait` of p5/xv6-public/proc.c, the end of `exec` of exec.c,
--   and the counts of the users of a page directory with `freevm` of vm.c. Procs/Users, Shared, Leave,
--   Release, Room, Fresh and Share are about the counts; Keeps, Alloc, Start, Exit and End about each call;
--   Tree, Family and Orphans about the parents; Procs/Run.antt has the runs, in which each call runs to its end or to its sleep before the next. The pages
--   of a directory that is given back are one entry of a log; open files, stacks, names and trap
--   frames are left out.
--
-- Both xv6 trees keep the file system behind a log of the blocks that a commit writes, and have the
-- same pipes.
--
-- - Xv6/Blocks.antt: the disk and what `bread` and `bwrite` of p5/xv6-public/bio.c read and write, with
--   the loss of power after any number of writes. Xv6/Log.antt: p5/xv6-public/log.c. Log/Installed.antt,
--   Crash, Recovery, Copied, Commit and Atomic are about a commit that is cut off; Log/Reserve.antt and
--   Log/Safe.antt about the calls in any order, where a call logs at most `MAXOPBLOCKS` blocks and the
--   log has any size that `initlog` reads.
--   Xv6/Pipe.antt: p5/xv6-public/pipe.c without `pipealloc`; Pipe/Window.antt has the ring as a list, and
--   Pipe/Fifo.antt the operations on it. Xv6/Strings.antt: `memmove` and `safestrcpy` of
--   p5/xv6-public/string.c and `memmove` of ulib.c, with Strings/Moves and Strings/Ended about them.
--
-- A C `int` that the code keeps non-negative, and an unsigned number, is a native number. Code
-- outside the repository is a parameter or is given by its documented behaviour: `malloc`, the
-- pthread mutexes and semaphores. Not modelled: `main` of the programs,
-- argument parsing and mmap; the report of
-- p6/client.c and its fork of the server; of the xv6
-- trees the process table of p4, the rest of virtual memory, the file system above the log, the
-- drivers, and the user programs.
pub mod Base
pub mod Kv
pub mod Wmap
pub mod Wfs
pub mod Sched
pub mod Xv6
pub mod Procs
