-- ===== src/Lib.antt =====
-- Verification library for the course projects of this repository: a heap manager, a pager for a
-- forth interpreter and its C interface, a lock-free queue, two barriers for threads, and a small
-- kernel with its boot loader. They share no state; within the kernel, traps call the system
-- calls, and both print through the console.
--
-- Dmm models HeapManagerSimulation/dmm.c and dmm.h. Dmm/Defs has dmalloc and dmalloc_init and
-- Dmm/Free has dfree, as functions on a memory of headers and the two globals; pointers and sizes
-- are numbers below 2^64 with the wrap-around written out, and each field write of the source is a
-- write. The loop of dmalloc is walk, on fuel: one unit for each block and one more are enough.
-- Dmm/Layout says what it means that memory holds a list of blocks (IsHeap), Dmm/Allocate and
-- Dmm/Dfree have the operations on lists (first_fit, release), and Dmm/Walk, Dmm/Dmalloc,
-- Dmm/Merge and Dmm/Release show that the code is these. Dmm/Contract, Dmm/Coalesced, Dmm/Client
-- and Dmm/RoundTrip say what a client relies on, and Dmm/Overflow what happens at the end of the
-- address space. Dmm/Programs has the states that a program of dmalloc and dfree reaches from
-- dmalloc_init on, with what it holds in each; Dmm/Holding, Dmm/Programs/Requests and
-- Dmm/Programs/Reached relate that to the blocks in use, for fuel above the size of the slab. The
-- bytes of the payload are not modelled, and neither is print_freelist, which only prints. mmap's
-- result is an argument.
--
-- Pager models the fault handler and the bookkeeping of VirtualMemoryAllocator/paged_forth_lib.c,
-- in Pager/Handler: the arrays are functions from indices, and whether a system call succeeds is a
-- parameter. Pager/Fifo is the queue of resident pages that the handler keeps; Pager/Filling,
-- Pager/Slots, Pager/Residents and Pager/Refines show that it does, and Pager/Bounds where its
-- indices go out of range. Pager/Contents keeps the system calls that the handler makes, in their
-- order, over a kernel whose pages share the bytes of their files, which is a parameter with its
-- laws, and runs a program, as a list of accesses, on the region: an access is tried again after a
-- fault, on two units of fuel. Pager/Contents/Calls, Served, Flat, Accesses and Paged compare it
-- with the same program on flat memory. The installation of the signal handler and the interpreter
-- itself are not modelled, and the counts of faults are taken to stay below 2^31.
--
-- Forth models VirtualMemoryAllocator/forth/forth_embed.c and jf_intepret.c, over an interpreter
-- that is a parameter: fcontinue is the assembly of forth/myjf.S, which is not modelled, and no
-- law is asked of it. Forth has the data and f_run, Forth/Starter the loop that loads a file,
-- given its lines as fgets reads them, Forth/Contract how the interpreter takes one line, and
-- Forth/Loading what the loop does with a file. The loop is on fuel, one unit for each call of the
-- interpreter and one for the return. Forth/Session is executeForth, whose files are lists of
-- lines, Forth/Session/Events what a session meets, and Forth/Session/Lines that the code follows
-- it. The test program paged_forth.c is not modelled.
--
-- Queue models AtomicInstructions/queue.c, in Queue/Ops: the counted pointers, cas, and the four
-- operations, as one thread runs them with no other in between. Their loops are on fuel, and two
-- turns are enough, since a lagging tail is moved by the first. Queue/Fifo is the queue as a list
-- of values, which Queue/Linked, Queue/Enqueue, Queue/Dequeue and Queue/Destroy relate to the
-- code. Queue/Threads has enqueue and dequeue as the steps of any number of threads: a step is one
-- read of a shared pointer, one read of a node, or one cas. Queue/Threads/Ghost numbers the nodes
-- in the order in which they were linked and says what each thread knows of them;
-- Queue/Threads/Stable, Swings, Links, Turns, Appending, Taking, Cases and Calls show that every
-- step keeps that, Queue/Threads/Linear puts the steps together, and Queue/Threads/Alone is about
-- a thread that runs with no other in between. There the read of a pointer with its counter is one
-- step, malloc succeeds and returns no address twice, and a freed node keeps its fields.
-- Queue/Threads/Raised and Queue/Threads/Counters let malloc return any address, also a freed one,
-- and say what the counters are for: a swap with a stale pointer fails.
--
-- Barrier models AtomicInstructions/barrier_condition.c: Barrier/Threads has the calls of
-- wait_at_barrier as the steps of any number of threads, where what a thread does with the mutex
-- held is one step, and a waiter wakes behind a broadcast or early, Barrier/Safety the invariant,
-- and Barrier/Reachable what holds in every state that the threads reach. Barrier/Futex is
-- AtomicInstructions/barrier_futex.c, where each atomic operation is a step, futex_wait returns at
-- any time and futex_wake changes no variable. Barrier/Futex/Places and Barrier/Futex/First are
-- about the first round, and Barrier/Futex/Opens about the one in which it opens twice. The counts
-- of both are taken to stay below 2^31.
--
-- Jos models parts of JOSSimulation. Jos/PageTable is kern/entrypgdir.c with the macros of
-- inc/mmu.h and the hardware's walk over the tables; Jos/Traps is kern/trap.c and the new frame of
-- kern/env.c, with the descriptor table in Jos/Traps/Gates; Jos/Syscalls is kern/syscall.c;
-- Jos/Console is kern/console.c, with the input ring, the keyboard and the screen, and in
-- Jos/Console/Devices the polls of the serial port and the keyboard, over ports that are a
-- parameter, the keys in Jos/Console/Strokes and the set-up of the devices in Jos/Console/Setup;
-- Jos/Boot is boot/main.c, over the controller of Jos/Ide, with the read of a sector in
-- Jos/Boot/Readsect, the reads of segments in Jos/Boot/Segments and Jos/Boot/Kernel and the whole
-- of bootmain in Jos/Boot/Entering; its loops are on fuel, one unit for each sector of a segment,
-- or for each header, and one more. Jos/Elf reads the fields of inc/elf.h from memory. Jos/Ide is
-- kern/ide.c over a controller that is a parameter, with what the driver relies on in
-- Jos/Ide/Protocol and, for a disk that keeps what is written, in Jos/Ide/Drive; a wait for the
-- disk is a number of polls. Jos/Loader is load_code of kern/init.c, with memset and memcpy as
-- parameters, Jos/Loader/Starting the start of the program and Jos/Loader/Init the whole of
-- i386_init; its loop is on fuel, one unit for each header and one more, and page faults while it
-- copies are not modelled. Jos/Descriptors is the descriptor table of kern/env.c, as the processor
-- reads it. Jos/Printf is kern/printf.c, with panic and warn of kern/init.c up to the shutdown,
-- over a formatter that is a parameter since it is not in the repository, and i386_init prints
-- through it; Jos/Printf/Wire and Jos/Printf/Printed follow the characters. Elsewhere Jos/Printing
-- keeps a call of cprintf as its format and arguments. Jos/Syscalls/Access says what memory
-- sys_cputs lets the kernel print from. The waits of the console for its devices, the loading of
-- processor registers and the assembly files are not modelled; neither are the user programs.
--
-- Common holds the shared names: tests on numbers, arrays as lists, memory as a function updated
-- at one address, and machine words. Each part has a module Tests with runs and with its theorems
-- at concrete inputs.
pub mod Barrier
pub mod Common
pub mod Dmm
pub mod Forth
pub mod Jos
pub mod Pager
pub mod Queue
