-- ===== src/Lib.antt =====
-- Verification of the lock-free queues of this repository: the bounded single-producer
-- single-consumer queues (include/spsc.h, include/spsc_1.h to include/spsc_5.h, include/spsc_final.h,
-- include/spsc_test.h), the queues of many producers and consumers with sequence numbers
-- (include/mpmc_seq.h, include/mpmc_seq_split.h) or slot states (include/mpmc_1.h), the
-- work-stealing deque (include/work_steal_deque.h), and of the benchmarks the arena (bench/memory.h,
-- bench/memory.cpp), the barrier (bench/sync.h), the throughput measurement
-- (bench/queue_measure.h), and the command line and the placement of threads
-- (bench/mpmc_bench.cpp).
--
-- The program. Each class is a ring of SIZE slots (a power of two) in an array that has PADDING
-- unused elements before and behind it. In the single-producer single-consumer queues one thread
-- pushes (emplace, try_emplace, enqueue) and one pops (pop, try_pop, front, dequeue, try_dequeue);
-- they share the array and two indices. The later classes add a private copy of the other side's
-- index, refreshed only when the ring looks full or empty (spsc_1.h), and counters that run freely
-- modulo 2^64 with published copies (spsc_4.h). spsc_final.h has the last protocol over raw storage
-- as well, where values are constructed and destroyed, and spsc_test.h has a flag in each slot in
-- place of shared indices. In mpmc_seq.h a thread takes a ticket, with fetch_add or with a compare
-- and swap after a test, and the number in its slot says when it is its turn; mpmc_seq_split.h keeps
-- the values in an array of their own, at places that remap_index spreads over cache lines, and in
-- mpmc_1.h a slot has a state, which a thread claims by a compare and swap, in place of a number. In the
-- deque one owner pushes and pops at the bottom, single values or batches, and any number of thieves
-- steal at the top; a compare and swap on the top decides who gets the last value. The benchmarks
-- create the queues in an arena that gives out blocks from the front of one mapped region, start
-- their threads at a barrier, and send numbers through a queue whose sum the consumer compares.
--
-- The files.
--   Prelude            names passed on, tests on numbers, lists, size_t arithmetic modulo 2^64
--   Fifo               the specification: a bounded FIFO list with try_push and try_pop, and what it
--                      means that an implementation refines it call by call
--   Spsc/Cells         the slots that hold a run of values
--   Spsc/Layout        PADDING, NSLOTS and the slot of a counter
--   Spsc/Ring          what each kind of step does to a ring that stands for a list of values
--   Spsc/Protocol      the interface: test, store, publish and test, read, discard, with the laws
--                      that an implementation fills
--   Spsc/Calls         try_push and try_pop from the parts of a protocol, and their refinement
--   Spsc/Machine       one producer and one consumer, interleaved step by step
--   Spsc/Order         the invariant of that machine and what it says of the values
--   Spsc/Progress      when a call in progress passes its test
--   Spsc/Schedule      a schedule run on the machine, for concrete runs
--   Spsc/Class         the public calls of one class
--   Spsc/Plain         LockFreeQueue (include/spsc.h)
--   Spsc/Cached        LockFreeQueue1 (include/spsc_1.h), LockFreeQueueStage2 (include/spsc_2.h)
--                      and LockFreeQueueStage3 (include/spsc_3.h), which have the same calls with
--                      other pauses and field order
--   Spsc/Counted       LockFreeQueueStage4 (include/spsc_4.h), LockFreeQueueStage5
--                      (include/spsc_5.h) and the direct-slot class of include/spsc_final.h
--   Spsc/Owned         the object-slot class of include/spsc_final.h, with its destructor
--   Spsc/Flagged       LockFreeQueueTest (include/spsc_test.h)
-- Below each of the last five, Rep says which queues stand for which values, Laws or Steps treat the
-- steps, Order is about runs, Observers about single calls, and Tests holds concrete runs.
-- Counted/Bounds is about the elements of the array that the calls touch.
--   Mpmc/Ring          the interface of a class with sequence numbers: load and store of a slot's
--                      number and value, with the laws that a class fills
--   Mpmc/Machine       push, pop, try_emplace and try_pop of any number of threads over such a class,
--                      interleaved step by step; Inv has the invariant, Frames, Apart, Moves, Steps,
--                      Tickets and Turns treat the steps, Order is about runs, Refuse about a
--                      try_emplace that gives up
--   Mpmc/Calls         the calls that do not wait, run alone; Mpmc/Alone has what they answer
--   Mpmc/Seq           the slots of LockFreeQueueMpmcSeq (include/mpmc_seq.h)
--   Mpmc/Split         the slots of LockFreeQueueMpmcSeqSplit (include/mpmc_seq_split.h)
--   Mpmc/Remap         remap_index (include/mpmc_seq_split.h, include/mpmc_1.h), and Remap/Twice what it does
-- Below Seq and Split, Laws fills the interface, Order is about runs, Tests holds concrete runs.
--   Mpmc/States        LockFreeQueueMpmc1 (include/mpmc_1.h); Rep says which queues hold which values
--                      between calls, Alone what the calls answer when run alone; Machine has any
--                      number of threads interleaved, Inv the invariant, Moves, Steps, Stores and
--                      Turns treat the steps, Order is about runs
--   Deque              WorkStealDeque (include/work_steal_deque.h), every call
--   Deque/Spec         the specification: a list pushed and popped at its end and stolen from its front
--   Deque/Rep          which deques stand for which values, and Deque/Parts the parts of a call
--   Deque/Calls        sequences of calls; Deque/Bulk treats batches
--   Deque/Machine      the owner and any number of thieves, interleaved step by step; Inv has the
--                      invariant, Steps, Own and Thieves treat the steps, Order and Once are about
--                      runs, Ends about the end of a call; Tests holds concrete runs
--   Bench/Memory       HugePages (bench/memory.h, bench/memory.cpp) with make_benchmark_pages and
--                      check_huge_pages_leaks (bench/queue_measure.cpp); Construct is about the
--                      constructor, Blocks about objects destroyed in any order, Nest about scopes
--   Bench/Barrier      Barrier (bench/sync.h); Count counts who has come, Order is about runs
--   Bench/Measure      queue_push, queue_pop, throughput_producer and throughput_consumer
--                      (bench/queue_measure.h) over Spsc/Machine; Triangle treats the numbers sent,
--                      Sum has the invariant, Order is about the queue of bench/queue_measure.cpp
--   Bench/Config       parse_config (bench/mpmc_bench.cpp); Checks is about what it returns, Print
--                      about the command line that asks for a configuration
--   Bench/Placement    the threads that benchmark_throughput starts (bench/mpmc_bench.cpp)
--
-- The correspondence. A class is the record Queue of its fields; the array is a function from
-- positions to values, with the raw contents of a new array as a parameter. A function keeps its
-- name and returns the new record; an out parameter with a Boolean is an Option, a pointer to a
-- slot is its position. A call's parts (has_room, store_value, publish_write; has_value,
-- load_value, discard) are the source's statements up to an access of shared memory that the other
-- thread can see, and one step of the interleaving is one part.
--
-- Parameters and bounds. SIZE is 2^k with k ≤ 63, as the static_assert and size_t allow, elem
-- is sizeof(T), CACHE_LINE_SIZE is 64. The spinning calls run on fuel, a round a unit: with
-- nobody else at work two rounds are enough where the call can end at all (one where no index
-- is cached), since the first refreshes the cached index and the second tests an exact one. In
-- the interleavings a spinning call is a thread that tests again. The runs of the classes with
-- sequence numbers are those in which fewer than 2^64 - SIZE calls of each kind have taken a
-- ticket, so that no ticket wraps, and SIZE is at least two: with one slot the turn of a pop
-- is also that of the next push. try_emplace compares signed numbers, and what it says when it
-- gives up is for runs that stay below 2^63. In the runs of the deque fewer than 2^64 - SIZE -
-- 1 values are pushed, so that no index wraps; bulk_push_bottom needs a round for each value
-- at most. The runs of the queue with slot states need fewer than 2^64 pushes and no bound on the
-- pops; its signed counts are exact where SIZE is below 2^63, and -PTRDIFF_MIN wraps. The constructor of the arena needs three rounds, one for each kind of pages. A message count
-- is an unsigned of 32 bits, and so is the counter of the barrier.
--
-- Not modelled. Memory is sequentially consistent: memory orders, torn reads and the cost of
-- cache traffic are outside. Copying a value into or out of a slot is one step; so are the
-- destruction of a value and the publication behind it. Constructors do not throw. A barrier is used once. mmap is a
-- parameter, of which is assumed that the regions it returns lie above 0 and below 2^64, and so is strtoul, of which
-- the round trip of a command line assumes that it reads a printed number back. Spin
-- statistics, thread pinning and the CPU topology, the other benchmarks, clocks, printing and the
-- copies of other projects' queues are not modelled. An event of the deque's log stands in the step
-- where the call takes effect, which for a pop that finds nothing is its last step.
pub mod Prelude
pub mod Fifo
pub mod Spsc
pub mod Mpmc
pub mod Bench
pub mod Deque
