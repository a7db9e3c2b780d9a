-- ===== src/Lib.antt =====
-- mulle-fifo: bounded FIFOs of `void *` for one producer thread and one consumer thread.
--
-- The program. A FIFO is a struct with an atomic counter `n`, a write index that only the producer
-- uses, a read index that only the consumer uses, and an array of atomic pointers. `write` refuses
-- NULL and a full FIFO, else it stores the pointer, moves the write index on and increments the
-- counter; `read` refuses an empty FIFO, else it loads the pointer, moves the read index on and
-- decrements the counter. There are two implementations: src/mulle-pointerfifo.h, whose size is
-- chosen at run time and whose storage comes from an allocator, and the headers
-- src/mulle--pointerfifo4.h to src/mulle--pointerfifo8192.h, which bin/create-fifo-sources makes
-- from src/mulle--pointerfifo64.h by replacing the size. src/mulle-fifo.h and src/mulle-fifo.c have
-- the version of the library, and src/reflect/_mulle-fifo-versioncheck.h refuses other versions of
-- its dependencies.
--
-- The files.
--   Common       native numbers, tests, lists, outcomes (`Result`), positions of a ring;
--                Common/Fair is about schedules of threads that take turns
--   Platform     what is not in the repository: the widths of the C types, the atomic pointers of
--                mulle-thread, the allocators of mulle-allocator; Platform/Cells has the counter and
--                the slots over them
--   Queue        the promise: a bounded queue with the return codes of `write`; Queue/Trace says
--                when a queue explains a trace of completed calls, Queue/Replies what it replies to
--                calls, Queue/Promises what a count lets a thread conclude, Queue/Excuses what
--                traces are with calls that fail without need
--   Ring         the interface between both implementations and the proofs: the statements of `read`
--                and `write`, and their laws; Ring/Contents says which queue a ring holds,
--                Ring/Sequential and Ring/Calls treat whole calls, and Ring/Tagged adds to the laws
--                what no statement changes
--   Spsc         the two threads, interleaved between any two statements; the invariant and its
--                steps are in Spsc/Invariant, Spsc/ProducerSteps and Spsc/ConsumerSteps, the results
--                in Spsc/Linearizable, Spsc/WaitFree, Spsc/Whole and Spsc/Promises; Spsc/Crowd lets
--                a second producer or consumer in, and in Spsc/Orders a thread may see an older
--                value than the newest; Fixed/Orders and Pointerfifo/Orders apply that
--   Fixed        src/mulle--pointerfifo64.h with the size as an argument: `init`, `done`,
--                `get_count`, `read` and `write` are the functions `_mulle__pointerfifo64_...`;
--                Fixed/Sizes has the twelve headers
--   Pointerfifo  src/mulle-pointerfifo.h: `init`, `done`, `get_count`, `read` and `write` are the
--                functions `_mulle_pointerfifo_...`, and those of Pointerfifo/Tolerant the wrappers
--                without the underscore; Pointerfifo/Lifecycle is about memory, Pointerfifo/Refusals
--                about an `init` that aborts, Pointerfifo/Owned about whose memory it is,
--                Pointerfifo/WholeLife about all calls from `init` to `done`, Pointerfifo/Release
--                about builds without asserts; Pointerfifo/AsFixed compares the implementations,
--                Pointerfifo/Abstract and Pointerfifo/View say what calls can tell apart,
--                Pointerfifo/Swap and Pointerfifo/Interleaving which statements may change places,
--                and Pointerfifo/Misuse what a second producer or consumer breaks
--   Client       the loops of test/20-multithreaded/publication.c and stress.c, a producer and a
--                consumer on one FIFO; what they do with an item is a `Workload`, Client/Items has
--                that of publication.c; Client/Shape says what a turn in a call does,
--                Client/Invariant what holds between turns and Client/Progress what is left to do;
--                Client/Writes and Client/Reads are about single turns, Client/Sound and
--                Client/Finishes about schedules, Client/Races about the items, Client/OnDynamic
--                about the FIFO from `init` to `done`; Client/Main has `main` of publication.c
--   Stress       test/20-multithreaded/stress.c: Stress/Payloads has what its statements do with a
--                payload, Stress/Schedules its two tests, Stress/Correct `main`
--   Threads      test/20-multithreaded/threads.c and threads-64.c, which write and print numbers:
--                Threads/Invariant, Threads/Sends, Threads/Receives and Threads/Closes are about
--                turns, Threads/Outcome about schedules, Threads/Correct has both programs
--   Singlethread test/10-singlethread/contract.c, contract-64.c, simple.c and simple-64.c as lists
--                of statements: Singlethread/Plays, Singlethread/Contract and Singlethread/Prints
--                say what they find on a queue, Singlethread/Runs carries that over to a FIFO,
--                Singlethread/Correct has the four programs
--   Version      src/mulle-fifo.h, src/mulle-fifo.c, src/reflect/_mulle-fifo-versioncheck.h
--   Tests        a concrete platform and allocator; Tests/Runs has runs like those of test/,
--                the other modules of Tests the theorems at concrete inputs
--
-- The model. A `void *` is a number, its address, and NULL is 0; the FIFO never touches the
-- pointed-to memory, which Client has, as a function of the address. The widths of `unsigned int`,
-- `uintptr_t` and `size_t` are numbers of the platform, and every wrap and cast is written out. An
-- access outside of the storage, through a NULL storage or a remainder by 0 is the fault
-- `undefined`, and a failed `assert` or allocation the fault `aborted`, so a theorem that a call
-- returns `ok` says that neither happens. A statement of `write` or `read` makes one access of
-- shared memory at most, and the statements of the two threads are interleaved in every order:
-- dox/API_POINTERFIFO.md promises sequentially consistent atomic operations, for which this is the
-- meaning; in Spsc/Orders a thread may see an older value of the counter or of a slot, as release
-- and acquire or relaxed operations allow, and each read-modify-write works on the newest value. No
-- function of the library has a loop; only `finish_write` and `finish_read`, which run one call to
-- its end, count turns, and five and four are enough. The loops of Client, Stress and Threads are
-- turns of a schedule; a fair schedule is one in rounds, and Client/Finishes and Threads/Outcome
-- count the rounds that are enough. The loops of Singlethread are over lists. What `rand` returns
-- in Threads is part of the schedule.
--
-- Not modelled: the block `_read_barrier` of the fixed headers, which `#if 0` removes; what memory
-- orders other than those of Spsc/Orders allow; the fixed texts that the test programs print,
-- messages on stderr and sleeping; a wrap of the counters of the test programs, which count to
-- 1000000 at most, and the cast to int of the number of corrupt payloads in stress.c; the build
-- files, the generated include headers and the shell scripts, but for what bin/create-fifo-sources
-- replaces.
pub mod Common
pub mod Platform
pub mod Queue
pub mod Ring
pub mod Fixed
pub mod Spsc
pub mod Pointerfifo
pub mod Version
pub mod Client
pub mod Threads
pub mod Singlethread
pub mod Stress
pub mod Tests
