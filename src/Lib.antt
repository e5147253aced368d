-- ===== src/Lib.antt =====
-- xv6 with zero-copy ring buffers between processes.
--
-- A ring buffer is 16 physical pages that every process which has it maps twice in a row, so that
-- any 64 KB of it are contiguous, and a book page with two counters. The kernel keeps a table of ten
-- rings and does the mapping; a library in the process finds addresses and moves the counters.
--
-- Parts, and the code that each follows:
--   UserRing      user/ringbuf.c and user/ringbuf.h. `Process` is the table user_ring_bufs and the
--                 process's 64-bit words by address; start_read, finish_read, start_write,
--                 finish_write, ringbuf_open and ringbuf_close are the functions ringbuf_*. The
--                 system call is a parameter of the last two. UserRing/Counters and Contents carry
--                 the arithmetic of the counters and of the double mapping, Stream states the calls
--                 on a sequence of bytes, Interleaving splits the finish functions into their atomic
--                 loads and stores, Table is about the table.
--   Kstring       kernel/string.c: strncmp, strncpy, strlen, safestrcpy, memcmp over strings by index,
--                 memset and memmove over a byte memory.
--   Words         the 64-bit words of the byte memory.
--   Kalloc        kernel/kalloc.c over a byte memory. `Kmem` is the memory and kmem. Kalloc/FreeList
--                 reads the free list that is threaded through the pages; Kalloc/Init is about kinit.
--   Vm            kernel/vm.c, and proc_mapstacks of kernel/proc.c: walk, walkaddr, mappages and
--                 uvmunmap in Vm, the making, growing, copying and freeing of tables in Vm/Space,
--                 copyin, copyout and copyinstr in Vm/Copy. Vm/Walk, Lookup, Tables, Link, Linked and
--                 Translate read the tree of tables and say which writes change it; Vm/Valid, Grow,
--                 Map and Mappages follow kalloc, walk and mappages through it.
--   Pipe          kernel/pipe.c. A call holds the pipe's lock but while it sleeps; it is cut there, and
--                 write_from and piperead are one segment each. Pipe/Queue reads the bytes in a pipe
--                 as a list, Pipe/Stream is about a segment, Pipe/History about any sequence of them.
--   File          kernel/file.c: filealloc, filedup, fileclose, and pipealloc. File/Counted compares
--                 the reference counts with the references that are held.
--   Paging        what kernel/ringbuf.c calls of Kalloc and Vm, as a record of commands on a state of any
--                 type; Paging/Laws states what is relied on, and Vm/Interface fills both.
--   Ringbufs      kernel/ringbuf.h and kernel/ringbuf.c. `Kernel` is ringbuf_lock, the table
--                 ringbufs, the process's page table and the memory. Ringbufs/Pages has the functions
--                 that choose and map pages, from find_contiguous_pages to copyout_user_addr;
--                 Ringbufs/Calls has create_ringbuf, append_ringbuf, unmap_ringbuf and the system
--                 call ringbuf. They use Kstring for names and Paging for memory.
--   Spinlock      kernel/spinlock.c: push_off and pop_off on a CPU's state, and the atomic steps of
--                 acquire and release by any number of CPUs on a lock. Ringbufs has its own, coarser
--                 acquire and release of ringbuf_lock, with the system call as one step.
--   Proc          kernel/proc.c: sleep, wakeup, kill and yield on the table of processes. Proc/Rouse
--                 says what wakeup and kill do to each process.
--   Sleeplock     kernel/sleeplock.c over Proc, as steps of processes and scheduler on one lock.
--                 Sleeplock/Waiting has the invariant, Sleeplock/Progress what follows for a process
--                 that waits. Pipe says only when a call sleeps, and not whom wakeup wakes.
--   Paths         skipelem of kernel/fs.c, and the names that namex gets from it. Paths/Elements reads a
--                 path back that is put together of its elements.
--   Bio           kernel/bio.c: the buffers and the links of their list. Bio/Linked is about doubly linked
--                 lists, Bio/Order about the order of use, Bio/Get about the loops of bget, Bio/Cached
--                 about any sequence of calls. Log has its own, coarser view of the cache.
--   Log           kernel/log.c over what the buffer cache shows of each block. `Fs` is the disk with all
--                 that it has held before, the buffers and the log. Log/Pending says what a disk holds
--                 by its log, Log/Install, Crash and Commit follow a commit write by write, Log/Recovery
--                 the start of the machine; Log/Ops has begin_op, log_write and end_op, which
--                 Log/Reservation, Entering and Steps run in any order.
--   Blocks        bzero, balloc and bfree of kernel/fs.c over what bread shows of each block. Blocks/Bits is
--                 about single bits, Blocks/Used reads the map as a set, Blocks/Alloc has the results.
--   Bmap          bmap of kernel/fs.c, over Blocks. Bmap/Words has the uint entries of a block, Bmap/Slots the row of
--                 an inode's addresses and entries, Bmap/Filled and Entry the two steps that fill a slot,
--                 Bmap/Files the results.
--   Itrunc        itrunc and iupdate of kernel/fs.c, over Blocks and Bmap. Itrunc/Freed is about freeing a row of
--                 blocks, Itrunc/Loops about the two loops, Itrunc/Dropped about both on an inode's slots,
--                 Itrunc/Emptied has the result.
--   Common        Boolean tests, lists, machine integers, and outcomes: a command returns, panics,
--                 exits the process, or faults by an access that the code does not check.
--
-- Bounds. `ringbuf` reads the length of its name within the 4096 bytes of a kernel stack; a name
-- with no end in them is a fault. find_contiguous_pages is a recursion on the number of pages
-- above KERNBASE, 66584573 of them at the start, which is each page that the loop visits. A copy
-- between kernel and process has at most a round for each byte. freewalk is given 4096 nested
-- calls, more than a kernel stack of 4096 bytes holds. The loops of bget are
-- given 31 links to follow, one more than there are buffers. The loop of namex ends within a round more
-- than there are elements. All other loops are recursions on their number of rounds. Counters and
-- addresses wrap at 2 ^ 64.
--
-- A local struct ringbuf starts with unknown contents: they are the parameter `junk`. What printf
-- prints is left out. The linker's symbols end, etext and trampoline are parameters; kvminit and
-- kvminithart, which set a global and a register, are left out. Not modelled: the rest of the
-- kernel (fork, exit, wait and the other processes' state, traps, the rest of the file system and
-- the calls of kernel/file.c that go to it, devices, the order of memory accesses), its
-- user programs, and lengths below 0 of strncpy and safestrcpy.
pub mod Common
pub mod UserRing
pub mod Kstring
pub mod Words
pub mod Kalloc
pub mod Vm
pub mod Pipe
pub mod File
pub mod Spinlock
pub mod Proc
pub mod Sleeplock
pub mod Paths
pub mod Bio
pub mod Log
pub mod Blocks
pub mod Bmap
pub mod Itrunc
pub mod Paging
pub mod Ringbufs
