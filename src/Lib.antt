-- ===== src/Lib.antt =====
-- The kernel of FOS, an educational operating system: its linked lists, timer, scheduler, table of
-- environments, string library, user and kernel heap, physical frames, working sets, page file and
-- console input.
--
-- Paths are given from the repository's root, below FOS_PROJECT_2022_Term2_Template/.
--
-- The parts and how they meet:
-- * Queue models the LIST macros of inc/queue.h. Every queue of the kernel (frames, environments)
--   is such a list. The link fields of all elements are a store from addresses to addresses; an
--   operation takes the store and the head and gives both back. Queue/Chain says when store and head
--   stand for a sequence.
-- * KClock models the count that kclock_set_quantum of kern/kclock.c programs into the timer.
-- * Sched models kern/sched.c: the NEW, ready and EXIT queues as sequences, the round-robin and
--   the multilevel choice, and the commands that run, exit and kill environments. It calls KClock to
--   set the quantum. A function that may not return gives a Run: it returns, or it stops in an
--   environment, in the command prompt, in a panic or by a fault. Sched/Queues has the moves between
--   queues, Sched/Select fos_scheduler, Sched/Admin the init, run and exit commands, Sched/Kill the
--   kill commands; Sched/Refine relates the sequences to the lists in memory; the other children are
--   about single commands.
-- * Str models lib/string.c on a memory from addresses to bytes, so that overlapping blocks and
--   strings behave as in the source. Str/Scan has the routines that read, Str/Copy those that copy,
--   Str/Number the conversions and strsplit.
-- * PrintFmt models printnum of lib/printfmt.c, by the characters that it puts.
-- * UserHeap models malloc and free of lib/uheap.c: the tables, the next-fit search and the calls
--   of the kernel. UserHeap/Inv says when the tables are sound, UserHeap/Round and UserHeap/NextFit
--   are about the search.
-- * WorkingSet models the entries of an environment's working set (kern/memory_manager.c), where
--   placement of kern/trap.c puts a page, and in WorkingSet/Clock the loops of page_fault_handler
--   that choose the page to replace; WorkingSet/Sweep is about one sweep, WorkingSet/Victim about
--   the choice.
-- * Frames models the physical frames of kern/memory_manager.c: the free list, the reference
--   counts and the page tables of all environments, in memory. Frames/Entries counts the entries
--   that hold a frame, Frames/Counts relates them to the reference counts; Frames/Boot has
--   initialize_paging. Page tables of user addresses are found through kheap_virtual_address, which
--   looks below startAdd only: the state says for which tables it gives 0.
-- * KernelHeap models kern/kheap.c over Frames: kmalloc, kfree and the translation of addresses.
--   KernelHeap/Rounds and KernelHeap/Search are about the loop of nextFitAlgo, KernelHeap/Alloc
--   about how kmalloc ends, KernelHeap/Endless about where it does not, KernelHeap/Fill about the
--   pages that it maps, KernelHeap/Serve about kmalloc as a whole, KernelHeap/Release about kfree,
--   KernelHeap/Translate about the addresses.
-- * PageFile models kern/file_manager.c: the free disk frames, the bytes on disk and each
--   environment's directories of disk pages and tables. The state has what the kernel heap answers
--   to it: the outcomes of the calls of kmalloc to come, and the tables that kheap_virtual_address
--   does not find. PageFile/Free has pf_free_env and the functions on tables. PageFile/Inv says when
--   a page file is sound: no disk frame is held twice or both held and free.
-- * UserPages models allocateMem and freeMem of kern/memory_manager.c, which the system calls of
--   the user heap end in: they work on PageFile, WorkingSet and Frames together. UserPages/Residents
--   is about the working set, UserPages/Gone and UserPages/Tables about the page tables.
-- * EnvTable models the table of environments of kern/user_environment.c and envid2env of
--   kern/helpers.c. EnvTable/Init has the boot and the creation of an environment, EnvTable/Ids the
--   ids.
-- * Segments models the functions of kern/user_environment.c that go through the segments of a
--   program; the program is an ELF header with its table of program headers.
-- * Console models the input buffer of kern/console.c (Console/Ring) and readline of
--   lib/readline.c (Console/Line).
-- * Prelude has the shared names, Boolean tests and lists over the native numbers.
--
-- Bounds and fuel: printnum runs to a depth of 65, one more than its number has bits. A uint32
-- size wraps at 2 ^ 32. mlfq_loop runs on 256 rounds, more than its uint8 counter can take below a
-- bound of at most 254 queues. A string routine runs on fuel that exceeds the length of the
-- string. The search of the user heap runs on one round more than the heap has pages; so does that
-- of the kernel heap, with one round more, and kfree on one round more than the block has pages.
-- allocateMem and freeMem run as many rounds as their sizes have pages. The loops over program
-- headers run on more rounds than there are headers. getchar and readline run on the list of what
-- the devices give; the index of readline is a word of 32 bits. The clock runs on two turns of two
-- sweeps each, and a sweep on as many rounds as the working set has entries.
--
-- Not modelled: port I/O and what the hardware counts (kclock_resume writes the time that is left
-- on the counter), the output on the console, the switch of page directories, the time stamps of
-- the working set, pf_update_env_page, env_create, which loads a program's segments, the page
-- fault handler but for the choice of its victim, the system calls and the command prompt.
pub mod Console
pub mod EnvTable
pub mod Frames
pub mod KClock
pub mod KernelHeap
pub mod PageFile
pub mod Prelude
pub mod PrintFmt
pub mod Queue
pub mod Sched
pub mod Segments
pub mod Str
pub mod UserHeap
pub mod UserPages
pub mod WorkingSet
