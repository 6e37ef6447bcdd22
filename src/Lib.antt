-- ===== src/Lib.antt =====
-- JackOS, a 32-bit kernel with threads, a file system and a shell: a model of its core, and theorems.
--
-- The kernel is layered. lib/ has what every part calls: string functions, bitmaps and linked lists.
-- thread/ has the scheduler, semaphores and mutexes, over those lists. device/ioqueue.c has the queue
-- between an interrupt handler and the threads that read, and kernel/memory.c the page pools, over
-- bitmaps, the page tables and the blocks that sys_malloc hands out. fs/ keeps inodes, bitmaps, files
-- and directories in sectors of a partition; shell/pipe.c puts a queue of bytes behind a file
-- descriptor.
--
-- Which file models which part (a function keeps its name, and a struct its fields):
--   Base, Base/*       what all modules share: tests, lists, families indexed by an address
--   CString, CString/* lib/string.c over a flat memory: a byte at each address
--   Stdio, Stdio/*     lib/stdio.c: itoa and vsprintf over the same memory
--   Bitmap, Bitmap/*   lib/kernel/bitmap.c over the same memory
--   Interrupt          the interrupt flag of kernel/interrupt.c
--   KernelList, KernelList/*  lib/kernel/list.c over a heap with the two fields at each address
--   Thread, Thread/*   the scheduler of thread/thread.c and the timer's handler of device/timer.c
--   Sync, Sync/*       thread/sync.c, and threads that share a mutex as a relation of steps
--   IoQueue, IoQueue/* device/ioqueue.c, and the ring buffer of device/ioqueue.h as a sequence of bytes
--   Memory, Memory/*   kernel/memory.c: the pools of pages, the page tables, the blocks of an arena
--   Memory/Virtual     virtual addresses and whole pages: malloc_page and mfree_page of kernel/memory.c
--   Memory/Heap, Memory/Heap/*  sys_malloc and sys_free of kernel/memory.c
--   PidPool, PidPool/* the process ids of thread/thread.c, over a bitmap
--   Keyboard, Keyboard/* the interrupt handler of device/keyboard.c, over the queue of bytes
--   Fs                 what the file system shares: the disk, the kernel's memory, the tables
--   Fs/Bytes           words as bytes of the disk or of memory
--   Fs/Inodes, Fs/Inodes/*  fs/inode.c: the place of an inode, inode_sync, inode_open, inode_close
--   Fs/Blocks, Fs/Blocks/*  the bitmaps of inodes and blocks of fs/file.c, and inode_release
--   Fs/Files, Fs/Files/*    open files: the rest of fs/file.c, and sys_close and sys_lseek of fs/fs.c
--   Fs/Dirs, Fs/Dirs/*      fs/dir.c
--   Fs/Paths, Fs/Paths/*    the strings of fs/fs.c: path_parse, path_depth_cnt, the names of sys_getcwd
--   Fs/Layout, Fs/Layout/*  partition_format and mount_partition of fs/fs.c
--   Fs/Calls, Fs/Calls/*    search_file and the system calls on paths of fs/fs.c
--   Fs/Pipes, Fs/Pipes/*    shell/pipe.c
--   Ide, Ide/*         reads and writes of sectors in device/ide.c, over a parameter for the controller
--   Shell, Shell/*     the cleaning of a path in shell/builtin_cmd.c, over path_parse of fs/fs.c
--
-- The scheduler and the semaphores use lists of threads, for which Thread and Sync take sequences, as
-- KernelList's refinement allows: the list of a thread's tag is the sequence of the threads. In
-- Thread a function runs to the point where the CPU changes hands. Sync/System lets the timer preempt
-- a thread between any two pieces of the calls. A piece is taken as run without interruption, those
-- of mutex_acquire and mutex_release too, which are a few statements with interrupts on.
--
-- Conventions. A function that changes memory takes it and returns the new one. `none` is a panic: an
-- ASSERT, `assert` or PANIC that was met, after which the machine spins. It is also what
-- path_depth_cnt, search_file and wash_path have for a name that is longer than their array, and
-- make_clear_abs_path for a path that is. Where a C loop has no bound of its own, the function takes
-- fuel, a bound on its rounds, and `none` says also that it ran out; each theorem that such a
-- function returns states how much is enough, one more than the length walked over. A number of 32
-- bits takes 32 rounds of itoa at most. An address is a number, not wrapped at 2^32; a `uint32_t`
-- that is computed is wrapped.
--
-- The page tables are words at the virtual addresses at which the page directory shows itself, so
-- that an entry is read and written as the code does it; that a page table's page holds no other data
-- is not modelled, nor the processor's cache of translations. The memory of the heap is addressed by
-- virtual addresses, and the bitmaps stand in it too. The arena at the start of a page is a record,
-- and a list of free blocks the sequence of their addresses.
--
-- In Fs the disk is a byte at each place, 512 to a sector, and ide_read and ide_write copy sectors
-- between it and a buffer in the kernel's memory. Ide/Sectors takes this up for device/ide.c and one
-- sector, where the in and out instructions of kernel/io.h are a parameter, and what they do to a
-- controller is a hypothesis: the commands of ATA for one sector, since the code does not wait for
-- each of several. Inodes, directories and the two tables of open files are records at an address or
-- an index. sys_malloc is an interface in Fs: a field of the state chooses the address, NULL
-- included, and a list has the addresses in use. The states of Fs and of Memory/Heap are not joined.
-- Interrupts off around an update, and what is printed, are left out. The fuel: one more than the
-- bytes for the loops of file_write and file_read, two more than the length of the path for
-- path_depth_cnt, one more than the length of the names for the loop that turns them round in
-- sys_getcwd, one more than the length of the path for the loop of wash_path, one more than the
-- sectors for the loops of ide_read and ide_write. The climb to the root, which a broken chain of
-- directories never ends, has its fuel as an argument.
--
-- Not modelled: the assembly files, the set-up of the drivers and their input and output of bytes
-- other than the disk's, the scan of a disk for partitions, what only prints, sys_read and sys_write,
-- which pass a descriptor on to a file, a pipe or the console, the walk over the disks in
-- filesys_init, the processes of userprog/ and the rest of the shell.
pub mod Base
pub mod CString
pub mod Stdio
pub mod Bitmap
pub mod Interrupt
pub mod KernelList
pub mod Thread
pub mod Sync
pub mod IoQueue
pub mod Memory
pub mod PidPool
pub mod Keyboard
pub mod Fs
pub mod Shell
pub mod Ide
