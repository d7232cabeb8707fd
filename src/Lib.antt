-- ===== src/Lib.antt =====
-- OSAssignment3 is xv6 for the x86 with demand paging: a process has at most 32 pages, of which 16 may
-- be in memory, and the others lie in a swap file of the process. This library models parts of its C
-- code and proves what they do. A definition keeps the name of the C function, in snake_case.
--
-- The parts of the program and where they are:
--   Prelude: the Boolean tests, lists, results, bits and integers that all parts share. An `Outcome` is
--     `ok`, a kernel `panic`, or a `fault`: an access outside an array or through a null pointer, or a
--     loop that has used up its fuel.
--   Kalloc: the allocator of physical pages, kalloc.c. The list through the free pages is a list of
--     addresses; the bytes of each page stand beside it.
--   Paging/Queue: `struct page`, `struct page_queue` of proc.h and `enqueue`, `dequeue`,
--     `free_from_queue` of vm.c.
--   Paging/Meta: `struct p_meta` and the functions of vm.c that keep it: `add_new_page`, `page_in_meta`,
--     `page_out_meta`, `getFreePageOffset`, the counting loops. Paging/Meta/Slots says when it is valid.
--   Paging/Table: page tables, `walkpgdir`, `mappages` and the flag functions of vm.c.
--   Paging/Swap: `pageOut`, `pageIn`, `safe_page_in` of vm.c, which use the parts above and the swap
--     file. The file is a parameter with laws (Paging/Swap/File), and a write to it may panic. Fs/Io/Pages
--     gives the file of fs.c, with the number of free blocks that a page needs.
--   Paging/Select: `select_page_to_back` for each value of SELECTION, and `age_process_pages`.
--   Paging/Space: `allocuvm`, `deallocuvm`, `copyout` of vm.c and `growproc` of proc.c.
--   Pipe: the ring buffer of pipe.c. Pipe/Fifo describes a call, Pipe/Stream any order of calls.
--   Log: log.c. Every write to the disk may be the last before a failure of power. Log/Atomic is about
--     `commit`, Log/Recovery about `recover_from_log`, Log/Ops about `begin_op`, `end_op`, `log_write`.
--   Proc: the process table of proc.c: `allocproc`, `exit`, `wait`, `sleep`, `wakeup1`, `kill` and the
--     scheduler's round, each one step under `ptable.lock`; Proc/Steps is about any order of steps.
--   Locks: `pushcli` and `popcli` of spinlock.c, and the sleep locks of sleeplock.c.
--   Files: the reference counts of the file table, file.c.
--   Text: `memmove`, `safestrcpy`, `strncpy` of string.c, `atoi` of ulib.c, `printint` of printf.c; the
--     comparing functions of both libraries are in Text/Compare.
--   Fs: the file system, fs.c. A disk is the bytes of its blocks, as the operation in progress sees them
--     through the buffer cache and the log. Fs/Blocks is the bitmap (`balloc`, `bfree`) and the layout that
--     mkfs.c makes, Fs/Inode has `bmap`, `itrunc`, `iput`, `ilock` and `iupdate`, with the blocks of a file
--     in Fs/Inode/Slots and the bytes of an inode in Fs/Inode/OnDisk, and Fs/Data has `readi` and
--     `writei`. The functions of `devsw` are an argument. Fs/Cache is the inode cache with the sleep
--     locks of the process, Fs/Dir has `dirlookup` and `dirlink`, and Fs/Path
--     `skipelem`, `namex` and the paths of the swap files. Fs/Io has `fileread` and `filewrite` of file.c and
--     `writeToSwapFile` and `readFromSwapFile`, whose laws are those that Paging/Swap/File asks for.
--   Console: the input of console.c, a ring of characters, against a line editor.
--   Syscall: the fetching of arguments, syscall.c, and the loop of `sys_sleep`.
--   Shell: the lexer of the shell, sh.c, and its parser in Shell/Parser. A function of the parser that calls
--     `parseline` has it as an argument.
--   Bcache: the buffer cache of bio.c, its list in the order of use and the counts of its buffers.
--   Grep: the matcher of grep.c.
--
-- Numbers. Addresses and table entries are natural numbers below 2 ^ 32, and additions of the code that
-- may wrap have their `% 2 ^ 32`. `lastIndex` is an integer. Bit operations are those of the numbers.
--
-- Fuel. `mappages`, `allocuvm` and `deallocuvm` have a round for each of the 2 ^ 20 pages. `scfifo` takes
-- its fuel as an argument; more than the number of accessed pages is enough. `freerange` has a round for
-- each page below its end, `copyout` one for each byte, `printint` one for each character of its buffer.
-- The loops over the process table have 64 rounds, those of `readi` and `writei` one for each byte, which is
-- enough because a round copies at least one, and `balloc` one for each block of the bitmap; the parser of the
-- shell has one more than there are characters, for a round takes one. All other loops are structural.
--
-- Not modelled: device drivers, boot code and assembly, locks as instructions (each function under a lock
-- is one step), the cache of translations, and the parts of the system that PROJECT.json names as such.
pub mod Prelude
pub mod Bcache
pub mod Console
pub mod Files
pub mod Fs
pub mod Grep
pub mod Kalloc
pub mod Locks
pub mod Log
pub mod Paging
pub mod Pipe
pub mod Proc
pub mod Shell
pub mod Syscall
pub mod Text
