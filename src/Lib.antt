-- ===== src/Lib.antt =====
-- net_lib: a C++ library of coroutines for network programs on Linux (src/, the library copnet).
--
-- A processor is a thread that runs coroutines. `co_go` hands a coroutine to the processor that the
-- selector picks; the processor's loop takes it from a double queue, resumes it until it yields or
-- ends, and gives the ended ones back to an object pool. A coroutine that waits for a descriptor is
-- resumed when epoll reports it, one that sleeps when the timer's queue has it due. A socket's
-- operations wait that way; the read-write lock parks coroutines and hands them back to `goCo`.
--
-- Which file models which part:
--   Selector        src/processor_selector.h, src/processor_selector.cc: the choice of a processor.
--   Scheduler       src/scheduler.h, src/scheduler.cc, src/copnet.cc: the one scheduler, and `co_go`.
--   Copnet          src/copnet.cc, src/copnet_api.h: the calls of a program, the processors that they
--                   reach (Targets), and what printCoNums writes (Numbers).
--   Processor       src/processor.h, src/processor.cc: the queues, the switches, the removal. Queues
--                   and Fifo follow the double queue, Ended the coroutines that end;
--                   Batch compares goCoBatch with goCo, Create has the object pool of the coroutines.
--   Worker          src/processor.cc: the processor's thread with its Timer and its Epoller, `wait` and
--                   `waitEvent` among the rest. Steps has the order of the steps, Places where a
--                   coroutine waits, Frame to Ready what a step changes, Safety what follows, and
--                   Faults what it does with the deleted ones.
--   Lifecycle       src/processor.cc, src/scheduler.cc: the start, the stop, the join and the
--                   destruction of the threads. Startup has the descriptors of a processor.
--   Processors      src/processor.cc, src/mutex.cc, src/scheduler.cc: several processors, whose
--                   coroutines use one read-write lock. Invariant has where they stand, Handing,
--                   Moves, LockMoves and Unlocks what the steps do to it, Safety what follows.
--   Coroutine       src/coroutine.h, src/coroutine.cc: the status of a coroutine. Object is the
--                   whole object with its context, Life its stack from the first slice on.
--   Context         src/context.h, src/context.cc: the stack of a coroutine.
--   RwMutex         src/mutex.h, src/mutex.cc: the lock. System has the steps of coroutines that use
--                   one lock, Invariant and Safety what holds in every state that they reach;
--                   Spec is the lock seen from outside, and Refine relates the two.
--   Spinlock        src/spinlock.h, src/spinlock_guard.h: threads that spin on one atomic number.
--   Socket          src/socket.h, src/socket.cc: sends and reads. Refs is the shared count, Address
--                   has bind, accept_raw and connect, Accept the whole of accept on the store;
--                   Options has the modes and the options of a descriptor, Info the text of a
--                   connection.
--   MemPool         src/mempool.h: blocks linked through a memory. Layout and Carve describe the
--                   lists in it, Invariant the pool, Alloc and Client the operations. World has
--                   every order of the calls, Spec the allocator seen from outside, and Served
--                   and Refine relate the two.
--   MemPool/ObjPool src/objpool.h: objects in the blocks of a pool.
--   Timer           src/timer.h, src/timer.cc: the sleepers and the timer descriptor. Spec is the timer
--                   seen from outside, as sleepers without an order; Refine relates the two.
--   Epoller         src/epoller.h, src/epoller.cc: the epoll descriptor.
--   Clock           src/mstime.h, src/mstime.cc: clocks, intervals and comparisons.
--   LocalTime       src/mstime.cc: `Time::toLocalTime`, against the Gregorian calendar.
--   Server          server/server.cc: the demo server's connections and its number of them.
--   Client          client/client.cc: the demo client's connections, and when its main thread goes on.
--   Prelude         shared names, Boolean tests, lists, integers, bits, and families by number.
-- A definition carries the name of the function it models, in lower case: `run_at` is
-- `Timer::runAt`, `try_rlock` the critical section of `RWMutex::rlock`, `alloc_block`
-- `MemPool::AllocAMemBlock`. An object is a record of its fields, and an operation takes it and
-- returns it with the result. What a system call, `malloc` or the clock gives is an argument, in the
-- order of the calls; no assumption is made of it but those that a statement names.
--
-- Conventions. An index out of range, an access to memory that was deleted and a write through a
-- null pointer are values of their own (`out_of_range`, none, `faults` of a processor), not errors that
-- the model rules out. Loops with a bound that is not evident count their rounds: `LocalTime.rounds`
-- is 4, as the loop runs over the years of one group of four; the destructor of MemPool counts as many as there were
-- calls of `malloc`; `decimal` writes ten digits at most for 32 bits and twenty for 64, which hold
-- every such number (Socket/Info/Decimal). Loops over the results of system calls run over the list
-- of those results, and none says that they ran out, which is a call that has not come back.
-- Threads and coroutines mix in any order of steps (RwMutex/System, Worker/Steps, Processors,
-- MemPool/World, Spinlock, Scheduler, Server, Client, the events of Processor/Fifo), with atomics
-- that are sequentially consistent. In Lifecycle the steps of a thread during a call are counted,
-- and each statement names the counts that it is for. Addresses are numbers without a top, times are
-- milliseconds that are not negative, and a coroutine's number is not used again for a later
-- object, but in Processor/Create, where it is the address.
--
-- Not modelled: the switch of contexts and the kernel's side of epoll, timerfd and sockets, whose
-- results are arguments; in Worker the start of the thread, which begins behind the inits, and in
-- Lifecycle what a round of the loop does; listen and shutdownWrite, which only pass on a system
-- call; what the demo programs print; webbench/, which is a program of its own.
mod Prelude
pub mod Selector
pub mod RwMutex
pub mod Socket
pub mod MemPool
pub mod LocalTime
pub mod Clock
pub mod Timer
pub mod Coroutine
pub mod Processor
pub mod Spinlock
pub mod Epoller
pub mod Context
pub mod Scheduler
pub mod Worker
pub mod Lifecycle
pub mod Server
pub mod Client
pub mod Processors
pub mod Copnet
