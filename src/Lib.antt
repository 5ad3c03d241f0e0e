-- ===== src/Lib.antt =====
-- The core of morelibc, a POSIX-like C library for FreeRTOS on the RP2040 and the RP2350: what its
-- byte rings, paths, mounts, file descriptors, event flags, pipes, event counters, block cache,
-- loop devices, device directory and PIO assembler promise.
--
-- The parts and their files:
-- - Base: words, bit operations, lists, byte blocks and error results that the parts share.
-- - Ring: morelib/ring.c and morelib/include/morelib/ring.h. A ring is a record of `buffer`, `size`
--   and the two free-running 32-bit indices; `ring_write`, `ring_read` and `ring_chr` are the
--   functions of these names. Ring/Contents says which list of bytes a ring holds, Ring/Invariant what
--   a valid ring is, Ring/Write, Ring/Read and Ring/Chr are about the three functions, and Ring/Stall
--   about indices at the end of their range.
-- - Vfs/Path: `vfs_compare_path`, whose decision Vfs/Path/Prefix describes, and `vfs_expand_path` of
--   morelib/vfs.c. The path buffer is a list of
--   254 bytes, what stands behind `begin`, and it may hold anything before a call.
-- - Vfs/Mounts: the mount table of morelib/vfs.c. `vfs_table` is a list; a mount is known by a number,
--   its address; reference counts are a function, and what is freed is logged. The functions of
--   file systems and `malloc` are parameters. Vfs/Mounts/Table says when a table is in order and which
--   mount a path has, Vfs/Mounts/Refine is about `mount` and `umount`, Vfs/Mounts/Longest about lookup.
-- - Vfs/Files: the descriptor table, the controlling terminal and the files of morelib/vfs.c, with `dup`
--   and `dup2` of morelib/unistd.c. Vfs/Files/History has runs of all these calls.
-- - Poll: event flags and waiters of morelib/poll.c. A waiter counts the calls of its callback.
-- - Pipe: morelib/pipe.c, over Ring and Poll; Pipe/Run has runs of reads and writes.
-- - Crc: morelib/crc.c; Crc/Reference is the definition of CRC-32, bit by bit, Crc/Table and Crc/Residue
--   compare the code with it.
-- - Dev: morelib/dev.c and morelib/include/morelib/dev.h. The functions of drivers are parameters.
-- - Mem: the memory devices of morelib/mem.c, over a function from addresses to bytes.
-- - Random: rp2/random.c and `getentropy` of morelib/unistd.c.
-- - Eventfd: the event counters of morelib/eventfd.c, over Poll; Eventfd/Steps and Eventfd/Run have
--   runs of them.
-- - Vfs/Operations: morelib/vfs_file.c, the dispatch to the functions of a file's driver, and the calls of
--   morelib/unistd.c and morelib/stat.c that pass a descriptor's file on to it. A driver is a record of
--   functions on a state, `none` where the pointer is NULL, as in morelib/vfs_file.c. A function of a
--   driver does not change the descriptor table in this model.
-- - Devfs: the file system of devices, morelib/devfs.c, over the table of entries, a parameter, and over
--   Dev, whose opendev it calls. Devfs/Children says which entries stand in a directory, and
--   Devfs/Listing reads one to its end.
-- - Loop: the loop devices, morelib/loop.c. A call through the NULL pointer, before LOOP_SET_FD, is `none`.
--   Loop/Counts has runs of calls on one device.
-- - Mtdblk: the block devices over flash, morelib/mtdblk.c and morelib/include/morelib/mtdblk.h, its
--   functions under their names without `mtdblk_`: the page cache in Mtdblk, reads and writes in
--   Mtdblk/Transfer, the other operations in Mtdblk/Device. The MTD file below, `malloc` and the clock are
--   parameters, the record `Below`; the `Healthy` of Mtdblk/View says what a device without faults does.
--   Mtdblk/View has the bytes that a file shows, Mtdblk/Flat the file without cache and blocks, which
--   Mtdblk/Runs compares it with. The parts of this are Page, Fill and Fetch (the cache), Position and Reads,
--   Stores, Ready, Rounds and Writes, Flush, Discard, and Refine and Answers (one call); Eviction and Lost are
--   about ticks and failed erases.
-- - Pioasm: the PIO assembler of rp2/pioasm. Pioasm/Token and Pioasm/Lexer are pioasm_lexer.c: the source
--   is the list of its bytes, and a union in a token is its 16 bytes. Pioasm/State has the parser's state,
--   `pioasm_parser_t`, and the actions on it: a function of pioasm_parser.c takes the state and gives an
--   outcome with the next state, which an error keeps. Pioasm/Symbols, Expr, Operands, Instructions,
--   Directives and Assemble are the functions of pioasm_parser.c and pioasm.c, each under its name. The
--   encoders and the configuration calls of the SDK and float arithmetic are parameters, in Pioasm/Target.
--   Pioasm/Invariant has the bounds of the state and one rule for each function, Pioasm/Symbols/Table and
--   Pioasm/Symbols/Resolve are about names and forward references, Pioasm/Lexer/Skip and
--   Pioasm/Lexer/Progress about the lexer, Pioasm/Widths about the bits of delay and side-set,
--   Pioasm/Ends about the fuel of expressions, Pioasm/Hang about the newline loops at an error of the
--   lexer, and Pioasm/Placeholder about a label that is used twice.
--
-- Mount paths come from Vfs/Path; a file that a descriptor of Vfs/Files stands for may be a pipe end or
-- a counter, whose waiters and flags are those of Poll.
--
-- How the code is modelled: numbers are natural numbers with the wrap-around of their width written
-- out; `errno` and a return value of -1 are the `err` of a result; the lock or the critical section of
-- a function makes it one step. The loops of `ring_write` and `ring_read` run on fuel: each round moves
-- a byte at least, so that as many rounds as there are bytes to move are enough. The loop of `ring_chr`
-- and that of `vfs_expand_path` have the number of bytes left as fuel. The blocking reads and
-- writes of pipes and counters repeat one round after each wake-up; the round is the modelled step, and
-- runs put the rounds of all tasks in any order.
--
-- The loops over bytes of the block devices have fuel too, as many rounds as bytes: a round of a device
-- without faults moves a byte at least. A device that reads 0 bytes in its range would keep
-- `mtdblk_rread` in its loop.
--
-- The assembler's loops and its recursion take fuel, a number of rounds, and have the outcome
-- `out_of_fuel` where it is used up; Pioasm/Ends counts the rounds by the bytes that are left. The
-- lexer's own loops are recursions on what is left of the source, and the loop over blanks and comments
-- has its length as fuel.
--
-- Not modelled: the headers of the pico SDK below rp2/pioasm/host; FreeRTOS and its task
-- notifications, `poll` and `select`, the timers of morelib/eventfd.c, `open`, `fcntl`, mappings and
-- directories behind descriptors, the flash heap, the loader, epoll (which is not built), drivers and
-- network; they call hardware or libraries that are not in the repository, or are
-- independent of the parts above.
pub mod Base
pub mod Crc
pub mod Dev
pub mod Devfs
pub mod Eventfd
pub mod Loop
pub mod Mem
pub mod Mtdblk
pub mod Pioasm
pub mod Pipe
pub mod Poll
pub mod Random
pub mod Ring
pub mod Vfs
