-- ===== src/Lib.antt =====
-- A model of Jix, a small Unix-like kernel for the PC, and the theorems that make its parts correct.
--
-- Jix is a kernel (kernel/) with three tasks beside it: the memory manager (mm/), the file system
-- (fs/) and the system task (sys/). Programs and tasks talk by messages: a system call of lib/ fills
-- a message and hands it to `sys_msg`, the kernel copies it to the task, the task's loop runs the
-- `do_` function for it and sends the answer back. A call that cannot go on returns -2; its answer
-- has the type BESLEEP, on which the kernel puts the caller to sleep until `wake_up`.
--
-- The files, by part:
--   Kernel/State     include/proc.h, include/msg.h, kernel/global.c: the state of the kernel
--   Kernel/Proc      kernel/proc.c: allocproc, sleep_on, wake_up, schedule; the timer of kernel/trap.c
--   Kernel/Pick, Kernel/Schedule             what schedule picks
--   Kernel/Msg       kernel/msg.c: sendmsg, recvmsg
--   Kernel/SendRecv  kernel/msg.c: sendrecv, mcopyin, mcopyout;  Kernel/Copies
--   Kernel/MsgType   include/msg.h: the types of messages
--   Kernel/WaitGraph, DeadLock, RecvDeadLock, Rendezvous   who waits for whom, the panics, the
--                    delivery
--   Mm/Pages         mm/vm.c: kfree, kalloc, kallocinit;  Mm/FreeList  the free list
--   Mm/Vm            mm/vm.c: walkpgdir, mappages, setupkvm, enter_alloc
--   Mm/Uvm           freevm of mm/vm.c, allocuvm of mm/exec.c, copyuvm of mm/proc.c
--   Mm/Space         what a directory means, and below it Walk, Map, Loop, Range, MapPages
--                    (mappages), Kernel, Entries, SetUp (setupkvm), Place, Grow (allocuvm),
--                    Child, Copy (copyuvm), Free, FreeAll (freevm)
--   Mm/Load, ArgBlock, Exec   mm/exec.c: loaduvm, do_exec;  Mm/Bytes, ExecArgs  the bytes of pages and
--                    the stack of a program
--   Mm/Serve         mm/main.c: the loop of the memory manager
--   Mm/Life          mm/proc.c: do_fork, do_exit, do_wait, do_sbrk;  Mm/Exit, Wait
--   Fs/Pipe          fs/pipe.c: pipewrite, piperead, pipeclose
--   Fs/PipeFifo, PipeWrite, PipeRead, PipeStream   the pipe as a queue of bytes
--   Fs/Tty           fs/tty.c and the calls of fs/do_fs.c on it;  Fs/TtyScreen, TtyInput, TtyRead
--   Fs/Cache         fs/cache.c;  Fs/CacheRing, CacheUse, CacheGet, CacheInit
--                    the ring of buffers as a list
--   Fs/Ide           fs/ide.c;  Fs/IdeQueue  the queue of requests as a list
--   Fs/Block         include/fs.h, and balloc and bfree of fs/inode.c: the disk and its bitmap
--   Fs/Bits, Bitmap, Balloc                  the blocks in use
--   Fs/Inode         fs/inode.c: iget, ialloc, iupdate, idup;  Fs/Iget, Words, Dinode
--   Fs/InodeData     fs/inode.c: bmap, itrunc, iput, readi, writei;  Fs/ReadBounds, ReadBytes
--   Fs/Dir           fs/inode.c: dirlookup, dirlink
--   Fs/Namei         fs/inode.c: skipelem, namex, icreate;  Fs/PathNames
--   Fs/Link          do_link and do_unlink of fs/do_fs.c
--   Fs/Keeps, Unique, UniqueData, UniquePath, Calls
--                    invariants of the actions on inodes, and the table of inodes
--   Fs/Store         fs/inode.c as the open files call it
--   Fs/KeyMap, Keyboard   include/kbd.h and fs/kbd.c;  Fs/KeyFlags
--   Fs/File          fs/file.c, and pipealloc of fs/pipe.c
--   Fs/Fd, FdProc    fs/do_fs.c;  Fs/Refs, RefsKept, RefsClose, RefsFork
--                    the reference counts
--   Fs/Serve         fs/main.c: the loop of the file system
--   Clib/Mem, Str    lib/string.c;  Clib/Move, StrCopy, StrCompare
--   User/FsCall, Transfer   lib/fs.c;  User/WriteChunks, ReadChunks, ServedMoves,
--                    CallServed, Served
--   User/MmCall      lib/mm.c;  User/MmServed, PackedString, ExecPack
--   User/Stdio, StdioInput   lib/stdio.c;  User/StdioSent, StdioPuts, StdioGets
--   User/Grep        bin/grep.c: kmp_pp, kmp_match;  User/GrepSearch  the search
--   Base             names, tests, lists, tables and loops that all parts share
--   Tests            runs of the theorems at concrete inputs
--
-- How state is modelled: a struct is a record, an array a function of its index, a pointer into
-- `ptable`, `files` or `inodes` an index; other pointers are addresses. An operation takes the state
-- and returns the new one. `none` is a panic, a failed assertion, the use of a bad pointer, or fuel
-- that ran out, as the comment of each definition says. A `u32` is a number below 2^32 with the
-- wrap written out where it can happen; an `int` is an integer `ℤ`. A call ends where it calls
-- `sched`: what it returns afterwards is read from the process (`resumed`).
--
-- Fuel: the walks of `sendmsg` and `recvmsg` along the waiting processes take fuel, and the
-- theorems give an amount that is enough, for `recvmsg` where it panics. `schedule` has two rounds, and `kallocinit` one for each
-- page below the top of memory and one more. `strlen`, `strcmp`, `strcpy` and the loops of `read`,
-- `write`, `wait` and `exec` take fuel from their caller. In fs/inode.c `balloc` has a round for each
-- block of the bitmap, `namex` one for each byte of the path and one more, `readi` and `writei` one
-- for each byte, and the loops over a directory one for each entry and two more. `bget` has
-- a round for each buffer and one more; `mappages`, `allocuvm` and `loaduvm` have one for each page of
-- the address space and one more; the walk of `iderw` takes fuel from its caller,
-- and so does `kmp_match`, for which twice the length of the string and one are proved enough.
--
-- The interfaces: `FsOps` and `MmOps` are the `do_` functions that the two loops call, `InodeOps`
-- the functions of fs/inode.c that the open files use, which Fs/Store fills, `VmOps` the page tables
-- that the life of a process uses, which `vm_ops` fills, `Files` the calls that `do_exec` makes of the
-- file system, `Sys` the system calls and the allocator below lib/stdio.c, and `sys_msg` an argument of the system calls, which the theorems
-- on them fill with a round of the loop.
--
-- The operations of fs/inode.c are actions on a state of inodes and disk, in `do` blocks. There a
-- buffer of fs/cache.c stands for its block from `bread` to `brelse`, and what is stored in it is on
-- the disk at once. So the model of fs/inode.c leaves out that `bget` may take a buffer that is held
-- for another block; the model of fs/cache.c has it.
--
-- Page tables are words of pages named by their kernel addresses, and a `pte_t *` is a page and an
-- index. The link in the first word of a free page is kept apart from the words. Memory is bytes
-- in the models of lib/string.c and of the copies of kernel/msg.c.
--
-- Not modelled: the ports of the disk (fs/ide.c), formatted output (lib/vsprintf.c, from Linux), the
-- allocator of programs (lib/malloc.c, of Kernighan and Ritchie), boot, interrupts, the system task
-- (sys/main.c), the programs in bin/ but for the search of grep, and the tool in tool/. The trap frame
-- of a process and the port writes of the cursor are left out.
pub mod Base
pub mod Mm
pub mod Clib
pub mod Kernel
pub mod Fs
pub mod User
mod Tests
