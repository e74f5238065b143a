-- ===== src/Lib.antt =====
-- A verification library for yuios, a small 32-bit operating system kernel in C.
--
-- The parts and the code they model (paths from the repository's root):
--   Bitmap     src/lib/bitmap.c: bits over caller-provided bytes; `scan` is `bitmap_scan`, and so on
--   Fifo       src/lib/fifo.c: the byte ring of the drivers and of pipes
--   Linked     src/lib/list.c: the doubly linked lists that tasks wait on, over a store of links
--   Keyboard   src/kernel/keyboard.c: the interrupt handler, which puts characters into a Fifo
--   Time       src/kernel/time.c and the decimal conversions of src/lib/stdlib.c
--   Memory     src/kernel/memory.c: physical pages (`get_page`, `put_page`), kernel pages, which are
--              bits of a Bitmap, the choice of the memory region, and `sys_brk`
--   Bytes      src/lib/string.c: strings and blocks of bytes; `atoi` of src/lib/stdlib.c
--   Console    src/kernel/console.c: the text screen and `console_write`
--   Files      src/fs/file.c: open files, their counts, and the descriptors of a task
--   Mutex      src/kernel/mutex.c: locks, as steps of tasks that interleave
--   Scheduler  src/kernel/task.c: `task_search`, `schedule`, blocking and sleeping
--   Family     src/kernel/task.c: `task_fork`, `task_exit` and `task_waitpid` on the table of tasks
--   Paging     src/kernel/memory.c: `link_page` and `unlink_page` over page tables, with the frames
--              of Memory
--   Devices    src/kernel/device.c: the table of devices, and the order of their requests
--   Print      src/lib/vsprintf.c: `vsprintf`, by its numbers and by its directives (Print.Format)
--   Buffers    src/kernel/buffer.c: the cache of disk blocks, from `getblk` to `brelse`
--   FreeMaps   src/fs/bmap.c: free blocks and inodes, by bitmaps of Bitmap in the super block
--   FileBlocks src/fs/bmap.c: `bmap`, which calls `balloc` of FreeMaps
--   Inode      src/fs/inode.c: `inode_read`, which calls `bmap` of FileBlocks
--   Names      src/fs/namei.c: `permission` and `match_name`
--   Pipe       src/fs/pipe.c: a reader and a writer that take turns on a Fifo
--
-- A C function is a function of the state it reads to the state it leaves. A failed `assert` and a call
-- of `panic` are the values `halt assertion` and `halt panic` of `Outcome` (Common.Halting); undefined
-- behaviour, such as an access outside an array, is `halt fault`. Words of 32 bits are natural numbers
-- with the wrap-around written out (`add32`, `sub32`, `mul32`); a signed `int` is its bit pattern, and
-- `int_order` its place in the signed order.
--
-- Fuel: the loops of Linked and those of Bytes that look for the end of a string run on fuel that their
-- caller gives; the theorems ask for more than the string has bytes before its end, or more than the
-- list has nodes. `digits_from` of Print has 32 rounds, each of which halves a number of 32 bits, and the
-- loop of `vsprintf` one round more than the format has bytes; `read_from` of Inode has a round for
-- each byte that is left, `serve` of Devices one for each request in the list, and `match_name` of Names
-- one more than the name has bytes. `make_room` of Fifo has two rounds, which are enough for a valid
-- ring. Every other loop is a recursion on the number of rounds that the source counts.
--
-- Not modelled: the processor, ports and assembly; interrupts within a function that runs with
-- interrupts off; the switch of stacks, so that a step of the scheduler is its change of state. The
-- wake-up by the keyboard is a record of the task that was woken. Buffers, FreeMaps, FileBlocks and
-- Inode see a call of another as one step: the lock of a buffer is free, and the buffers that `bmap` and
-- `inode_read` hold while they read are not counted.
pub mod Common
pub mod Bitmap
pub mod Buffers
pub mod Bytes
pub mod Console
pub mod Devices
pub mod Family
pub mod Fifo
pub mod FileBlocks
pub mod Files
pub mod FreeMaps
pub mod Inode
pub mod Keyboard
pub mod Linked
pub mod Memory
pub mod Mutex
pub mod Names
pub mod Paging
pub mod Pipe
pub mod Print
pub mod Scheduler
pub mod Time
