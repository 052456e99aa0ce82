-- ===== src/Lib.antt =====
-- A verification library for the kernel of a Unix-like teaching operating system for RISC-V.
--
-- The kernel's C sources are in src/modified/sys, with supplied files in src/provided/sys. A thread
-- manager runs kernel threads that yield, wait on conditions and hold recursive locks; the memory
-- manager hands out physical pages and keeps Sv39 page tables; endpoints with reference counts,
-- among them pipes, carry input and output; mount points name the file systems; a block cache stands
-- between a file system and its device; alarms wake threads from the timer interrupt.
--
-- What models what:
--   Base      shared names: Boolean tests, lists over native numbers, results with error codes.
--   Cache     src/modified/sys/cache.c. A cache is the device, the list of blocks from the least to
--             the most recently used and the counter; get_block, release_block, flush are
--             cache_get_block, cache_release_block and cache_flush. The device is a parameter, the
--             record Storage: within its capacity it transfers whole blocks or fails, what it has
--             stored whole is read back, and a store touches no other position.
--   Pipe      the pipes of src/modified/sys/uio.c: pipe_read, pipe_write and the two closes on the
--             ring, Pipe.Ring and Pipe.Queue against a queue of bytes, Pipe.Stream on whole runs.
--   Uio       the endpoints of src/modified/sys/uio.c: reference counts and dispatch.
--   Memory    src/modified/sys/memory.c: Memory.Pages is the allocator of physical pages, in page
--             numbers; Memory.Table the page tables, as a function from a page and an index to an
--             entry, with the tests of a user range and, in Memory.Table.Text, of a string.
--   Thread    src/modified/sys/thread.c: Thread.Queue the linked thread lists, Thread.Sched the
--             scheduler and the conditions, on lists that Thread.Queue.Fifo justifies, Thread.Lock
--             the locks, Thread.Table the thread table with spawn and join.
--   Timer     src/modified/sys/timer.c: the sleep list and the timer interrupt. Each reading of the
--             clock is an argument.
--   Ktfs      src/modified/sys/ktfs.c, where a disk is what cache_get_block gives at each position:
--             Ktfs.Disk the layout, Ktfs.Fetch reading a file, Ktfs.Open opening, closing and the
--             listing, Ktfs the searches of the bitmaps and Ktfs.Status the marking of their bits.
--             The open files are a list.
--   Ramdisk   src/modified/sys/dev/ramdisk.c, with storage_fetch and storage_store of
--             src/provided/sys/device.c in front.
--   Filesys   src/modified/sys/filesys.c: mount points, paths and the listing. A file system is a
--             record of functions that may be null.
--   Process   src/modified/sys/process.c: the table of processes with their tables of endpoints,
--             exec, fork and exit, and Process.Stack the arguments on a new program's stack.
--   Syscall   src/modified/sys/syscall.c: the descriptors of the running process, and the table of
--             calls. Syscall.Balance compares the reference counts with the tables.
--   Elf       src/modified/sys/elf.c: the checks of the header and the loading of the segments. The
--             file and the memory space are arguments.
--   Uart      src/modified/sys/dev/uart.c: the ring buffers, the interrupt handler, and receiving and
--             sending, with the interrupts in between as a list.
--   Strings   src/provided/sys/string.c, and strncasecmp of src/provided/usr/string.c.
--   Bytes and Ints of Base are little-endian words and the signed numbers.
--
-- A machine integer is a native number with its wrap-around written out. An address is a number;
-- a null pointer is `none`. A failed call is `err` with the error's name; a panic, a failed assertion
-- or a null pointer that is followed is `none`. The kernel is not preempted: the timer interrupt does
-- not switch threads, so each call that holds a lock, or disables interrupts, is one step. A call that
-- waits is a step that changes nothing of its own and is made again. Fuel stands in four
-- places: the loop of validate_vptr, where two rounds more than the range has pages are enough;
-- the one of validate_vstr, where the pages up to 2 ^ 38 and one more are;
-- repeated reads of the RAM disk, where one more than it has bytes is; and the digits of a number,
-- where one more than the number is.
--
-- Not modelled: in KTFS, the allocation of blocks, store, create, delete and the control calls; the
-- memory space and the trap frame of a process; cloning and discarding memory spaces; the stacks and
-- contexts of threads; the virtqueues of the virtio devices and the interrupt controller. Out of
-- reach: assembly, the supplied heap, console, format strings and device manager, and user programs.
pub mod Base
pub mod Cache
pub mod Elf
pub mod Filesys
pub mod Ktfs
pub mod Memory
pub mod Pipe
pub mod Process
pub mod Ramdisk
pub mod Strings
pub mod Syscall
pub mod Thread
pub mod Timer
pub mod Uart
pub mod Uio
