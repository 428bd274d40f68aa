-- ===== src/Lib.antt =====
-- BingOS, a 32-bit x86 kernel with its C library: a verification library beside the code.
--
-- The program. The kernel runs processes on one processor. The timer interrupt (kernel/timer.c)
-- advances the clock, wakes the sleepers that are due and gives the processor to the next ready
-- process (kernel/sched.c and kernel/process.c, on the lists of common/list.c). Interrupts reach
-- their handlers through hal/irq.c, whose critical sections nest. Processes exchange bytes through
-- pipes (fs/pipe.c), which put them to sleep and wake them; a pipe is a file like any other, opened
-- by its path through the tree of mount points (fs/fs.c on common/tree.c) and used by its descriptor
-- (fs/open.c, fs/read_write.c). File systems register in a table (common/hashmap.c). Physical memory
-- is given out in frames (kernel/frame.c) and mapped by page tables (kernel/mmu.c); the kernel takes
-- its own objects from a heap (kernel/kmalloc.c). The address space of a process is given out in areas
-- and by its break (kernel/mmap.c), and the C library hands the memory up to the break out in blocks
-- (libc/malloc.c). The network task writes its packets itself (net/net.c). Modules add a file system (modules/ext2.c)
-- and the keyboard (modules/kbd.c), which writes its characters into a pipe.
--
-- The modules, and the code each is about. A definition has the name of the function it models.
--   Common             tests, lists, bits of words and strings that the other modules share
--                      (Common/Names: strcmp of libc/string.c)
--   LinkedList         common/list.c: the operations as programs on an explicit heap of nodes
--   Sched              kernel/sched.c, and of kernel/process.c: switch_to_next, context_switch,
--                      process_exit, sys_waitpid, process_wakeup_sleepers, sleep_on, wakeup_from
--                      (Sched/Wait: the wait queues, which Pipe uses)
--   Timer              kernel/timer.c on Sched, and sys_gettimeofday of drivers/cmos.c
--   Pipe               fs/pipe.c on Sched/Wait
--   Frame              kernel/frame.c
--   Paging             kernel/mmu.c on Frame (Paging/Processor: the page directory as the processor
--                      reads it)
--   Kmalloc            kernel/kmalloc.c
--   Mmap               kernel/mmap.c
--   Malloc             libc/malloc.c on sbrk of libc/syscall.c
--   Vfs                fs/fs.c and common/tree.c
--   Descriptors        fs/open.c and fs/read_write.c
--   Devfs              fs/devfs.c
--   Initrd             fs/initrd.c
--   Hashmap            common/hashmap.c
--   OrderedArray       common/ordered_array.c
--   Irq                hal/irq.c
--   Tables             hal/descriptor.c
--   Net                net/net.c and the byte order of include/net/ipv4.h, with atoi of
--                      libc/stdlib.c
--   Calendar           gmtime_r and mktime of libc/time.c
--   Cmos               read_cmos of drivers/cmos.c, against Calendar
--   Strings            strspn, strpbrk, strtok_r, strncpy and strncat of libc/string.c
--   Ext2               modules/ext2.c, an ext2 file system on the bytes of a block device
--                      (Ext2/Layout: the records of a directory as the format lays them out)
--   Keyboard           modules/kbd.c
-- The file of a module declares its state and operations, its children what is proved about them,
-- and Tests runs the operations on small inputs.
--
-- State and errors. The static variables of a file, or the structure its functions get, are a
-- record, and an operation maps the record to the next one. A pointer is an address or the name of
-- an object, with NULL as none or 0 as the file's comment says. A panic, a failed assertion, a NULL
-- pointer that is followed, an access behind an array and a loop that does not end are the result
-- none, so that a theorem that a call gives some result says that none of these happens.
--
-- Numbers. Words are natural numbers below 2 ^ 32, and the arithmetic of the source wraps around
-- where it is written with % 2 ^ 32. A theorem that needs a sum not to wrap says so in its
-- hypotheses.
--
-- Loops. A loop over a list, a string or a counted range is a recursion over it. The loops over the
-- bitmap, the descriptors and the buckets count the rounds that are left, which are the bounds of
-- the source (max_frames, 32 bits of a word, NR_OPEN, the size of the table, 12 months). The loop over
-- the years of gmtime_r has the number of days for fuel, of which each round takes 365 at least, and
-- that of mktime over the months one more than the days. The search of an ext2 directory has fuel
-- that its theorem bounds by the size of the directory, where no record has length 0. The
-- search of an ordered array has its size for fuel, behind which the array is 0; the calls of
-- strtok_r have more than the length of the string; kmalloc has its three tries. The inner loops of
-- pipes recur on the bytes that are asked for or left. The outer loops of read_pipe and write_pipe
-- and the loop of sys_waitpid sleep or give up the processor in each round: one round is a step, and
-- the theorems are about any sequence of steps.
--
-- Interleaving. A round of a system call is one step, and a sequence of rounds in any order is an
-- interleaving of the processes. Interrupts inside a round are not modelled. A round that sleeps ends
-- with sleep_on, whose context_switch gives the processor away only where another process is ready.
--
-- Not modelled: assembly and port input and output, the registers, stacks and page directories of a
-- process (process creation and sys_fork), a kmalloc that fails (the other modules take it to give
-- memory), the file systems behind a node (what finddir, readdir, read and write answer is an
-- argument), fs/ext2.c (the version of modules/ext2.c that the kernel is built with), the other
-- drivers and modules, graphics, formatted output, the ELF and module loaders, and the user
-- programs. frame.c's alloc_frames indexes its bitmap by a shifted int that can be negative, and the
-- loops of the network task call the driver: they are left out as well.
pub mod Common
pub mod LinkedList
pub mod Sched
pub mod Strings
pub mod Tables
pub mod Timer
pub mod Pipe
pub mod Frame
pub mod Vfs
pub mod Net
pub mod Hashmap
pub mod Initrd
pub mod Malloc
pub mod Mmap
pub mod Descriptors
pub mod Devfs
pub mod Irq
pub mod Calendar
pub mod Cmos
pub mod OrderedArray
pub mod Ext2
pub mod Keyboard
pub mod Paging
pub mod Kmalloc
