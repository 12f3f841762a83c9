-- ===== src/Lib.antt =====
-- A verification library for the kernel of Pintos (KAIST edition) in pintos-kaist-master: a small
-- x86-64 teaching kernel with threads, synchronisation, a page allocator, file system, user
-- programs and virtual memory. What is modelled here is the kernel's core: the scheduler with its
-- interrupts, the synchronisation primitives on it, the page allocator, and the libraries they
-- stand on: bitmaps, linked lists, hash tables, strings, sorting, random numbers and division.
--
-- How the parts interact: the timer's interrupt enters intr_handler, which counts a tick and asks
-- for a yield when the time slice is over. The scheduler moves threads between the running
-- thread, the ready list and the blocked state. Semaphores block and unblock threads; locks and
-- condition variables are built of semaphores. The page allocator finds free pages by a search in
-- a bitmap.
--
-- Files, with the source they model (paths from the repository's root):
-- * Common has shared helpers: the Boolean tests on numbers, lists over the native numbers
--   (length, get_or, set), the bits of a number, and Outcome, the result of code that may fail an
--   ASSERT.
-- * Bitmap (pintos-kaist-master/lib/kernel/bitmap.c): a bitmap is its size in bits and its array
--   of 64-bit elements. Every function has its C name. Bitmap/Bit, Range, Scan and Create prove
--   what single bits, ranges, searches and creation do.
-- * Palloc (pintos-kaist-master/threads/palloc.c): the two pools, each a bitmap and a base
--   address, and memory as a function from addresses to bytes. Palloc/Pools has the invariant,
--   Get and Free the proofs on palloc_get_multiple and palloc_free_multiple, Back on the one
--   after the other.
-- * Threads (pintos-kaist-master/threads/thread.c, threads/interrupt.c and the ticks of
--   devices/timer.c): Threads/State has the struct thread and the static variables as the record
--   Kernel, Interrupts the interrupt level, Schedule the functions of the scheduler, Interrupt
--   the dispatch of intr_handler. Invariant states what a sane scheduler is; Leave, Wake, Switch
--   and Reap prove the steps keep it; Ops, Yield and Fair prove the calls. Sleep has timer_sleep
--   and what a thread asks about itself; Create has thread_create, on the page allocator of
--   Palloc and the locks of Synch, Locked and Newborn its parts, and Birth its proof. A call that
--   has to wait for a lock runs up to the switch.
-- * Synch (pintos-kaist-master/threads/synch.c): Semaphore, and Machine for a kernel with its
--   semaphores, lock holders and condition variables. Synch/Sema proves the semaphores,
--   Synch/Inversion what a returned result says of a call, Synch/Mutex the step relation of a
--   lock with its invariant, and Synch/Exclusion that steps keep it; Synch/Condition is about
--   waking the waiters of a condition variable.
-- * Lists (pintos-kaist-master/lib/kernel/list.c): the doubly linked list, on a heap of links.
--   Lists/Chain says when the links lead through a sequence of elements and back, Links and
--   Members what a change of the links does to it, Edit proves list_insert and list_remove, Ends
--   pushing and popping, Size the loop of list_size.
-- * Intq (pintos-kaist-master/devices/intq.c): the ring buffer between threads and interrupt
--   handlers. Intq/Ring has its contents as a list, Intq/Queue proves the two operations on it.
-- * Random (pintos-kaist-master/lib/random.c): the RC4 generator; Random/Permutes is about its
--   array, Random/Stream about the bytes it gives.
-- * Arithmetic (pintos-kaist-master/lib/arithmetic.c): 64-bit division; Arithmetic/Small is about
--   divisors of 32 bits and about remainders.
-- * Strings (pintos-kaist-master/lib/string.c): the functions on blocks and strings in a memory
--   of bytes. Strings/Text has strings as lists and what is looked for in them; Copy, Compare,
--   Search and Spans prove the functions against that; Bounded has strlcpy and strlcat, Tokens
--   strtok_r.
-- * Hash (pintos-kaist-master/lib/kernel/hash.c): the chained hash table, with the callbacks hash
--   and less. Hash/Keys says what the callbacks promise, Buckets and Place where the elements
--   stand, Remove what a table is; Rehash and Install prove that rehash keeps the elements, Table
--   and Change the calls, Visits and Iterator the walks over all elements, Values the hash
--   functions.
-- * Lists/Ordered (pintos-kaist-master/lib/kernel/list.c): the functions of the linked list that
--   reverse it or compare its elements; Insert proves list_insert_ordered, Extreme list_max and
--   list_min.
-- * Threads/Vectors (pintos-kaist-master/threads/interrupt.c): the registration of interrupt
--   handlers.
-- * Stdlib (pintos-kaist-master/lib/stdlib.c): heap sort, binary search and atoi. Stdlib/Permuted
--   has rearranged arrays, Heap and Heapify the heap, Sort the proof that sort sorts; Search is
--   about binary_search; Atoi has atoi, with isspace and isdigit of include/lib/ctype.h.
-- * Tests has runs on concrete inputs, and the theorems at inputs that meet their hypotheses.
--
-- Conventions: a pointer is a number, 0 is null. A function that may fail an ASSERT, PANIC or
-- reach NOT_REACHED has a result in Outcome, where panic is the failure. A function that may
-- switch to another thread runs in the model from its call to its return or to the switch, in
-- which the running thread of the Kernel changes; what follows the switch in the source belongs
-- to the moment the thread runs again. The kernel is the one built without USERPROG and VM, and
-- with assertions. The lists of the scheduler and of the semaphores are sequences there; Lists
-- models the links of a list by themselves.
--
-- Bounds: `unsigned`, `size_t` and `uint64_t` values wrap where a function computes with them and
-- the wrap can be reached (the value of a semaphore and the ticks of a time slice mod 2^32,
-- elements of a bitmap mod 2^64). The other counters of ticks are `long long` and are counted
-- without bound; a next tid past 2^31 - 1, undefined in C, is a panic. The loops of the source
-- are structural recursions here: on the rest of a range or of a list, with no fuel that could
-- run out. The exceptions run on fuel: the loops of the linked list, where more fuel than
-- elements is enough, the loops that look for the end of a string, where more fuel than bytes is
-- enough, the loop of rehash, which is given its starting number, and heapify and binary_search,
-- which are given the number of elements.
--
-- Not modelled: the stack and registers of a thread, the assembly of the switch, the interrupt
-- descriptor table and the PIC (hardware), the lock of a pool inside palloc_get_multiple itself
-- (Palloc has what the call does with and after the lock; Threads/Create puts the lock around it
-- for thread_create), the return of a dead thread's page to the pools (do_schedule records the
-- page in the field freed of the kernel), the release of memory by free, output, the device
-- drivers, the file system, user programs and virtual memory.
pub mod Common
pub mod Lists
pub mod Bitmap
pub mod Palloc
pub mod Threads
pub mod Synch
pub mod Intq
pub mod Random
pub mod Strings
pub mod Hash
pub mod Stdlib
pub mod Arithmetic
pub mod Tests
