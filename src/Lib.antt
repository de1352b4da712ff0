-- ===== src/Lib.antt =====
-- Verification library of the user-level thread library (pthreads/) and of the server that runs on
-- it (server/).
--
-- pthreads/mypthread.c multiplexes user threads over kernel threads. Its globals, its semaphores,
-- the structs of its callers and the heap of list nodes are the record `Machine` (Machine.antt);
-- its functions are state transformers with failure, under their C names. Code that reads through
-- a NULL or freed pointer is `fault`, `sem_wait` on a semaphore at 0 is `blocked`, and a call that
-- gives the processor away ends in an `Outcome`: it returned, the kernel thread now runs a thread
-- from a context, or it sleeps in the scheduler's loop. What the system answers (`gettid`, `clone`,
-- the counts of cores) is an argument.
--
-- - Memory.antt: nodes, heaps, pointers and the outcomes of code; Memory/Chain.antt: the doubly
--   linked chains that stand for lists, and what keeps them.
-- - Thread.antt: the types of pthreads/mypthread.h.
-- - Queue.antt: pthreads/queue_util.c. Its children take its parts one by one; Queue/Spec.antt is the
--   abstract queue, without nodes.
-- - Machine.antt: the state of pthreads/mypthread.c; Machine/Ops.antt: the semaphores and the list
--   operations on the globals; Machine/Inv.antt: well-formed states; Machine/Gives.antt: assertions on
--   what an operation leaves, from those on its parts.
-- - Scheduler.antt: `mythread_scheduler`, one round of its loop at a time.
-- - Lifecycle.antt: set-up, create, exit, yield, join, self and equal.
-- - Sync.antt: mutexes and condition variables; Sync/Exclusion.antt: sequences of calls, by any threads,
--   with the threads that hold each mutex.
-- - Samples.antt: the programs pthreads/mypthread_sample1.c to mypthread_sample5.c and
--   pthreads/mypthread_performance.c. Samples/Bounded.antt is about their loop that creates threads;
--   Samples/Counter/Drive.antt runs the fourth one on one kernel
--   thread, whose place in the program is the context that an `Outcome` names.
-- - Sort.antt: pthreads/mtsort.c; Sort/Inversions.antt and Sort/Sweeps.antt: its exchanges in any order of
--   the threads. Cores.antt: pthreads/utilities.c.
-- - Server.antt: server/server.c for one request; Server/Io.antt: `correct_read` and
--   `correct_write` of server/common.c; Server/Munge.antt: `process_request`.
--   Server/Respond.antt follows a request to its answer, Server/Client.antt is server/client.c,
--   Server/Accept.antt the start and the accept loop, and Server/Files.antt server/server_io.c.
-- - Pool.antt: server/threadpool.c on the thread library; Links.antt: the singly linked nodes of its
--   tasks. Pool/System.antt: server/threadpool_pthread.c on the system's threads;
--   Pool/System/Service.antt: its dispatcher and its workers in any order, where what is done with the
--   mutex held is one step. Pool/Trial.antt:
--   server/threadpool_test.c and server/threadpool_test_pthread.c.
-- - Pingpong.antt: server/example_thread.c, whose two threads take their steps in any order, each read and
--   each write of `threads_left` by itself.
-- - Homework.antt: hw1/mypthread.c, whose ring hw1/mypthread_queue.c has too;
--   Homework/Cpuinfo.antt: hw1/kernelthreadcount.c.
-- - Common.antt: shared names; Tests.antt: runs at concrete states.
--
-- Bounds and fuel. Loops along `next` run on fuel one more than the addresses that malloc has given
-- out; a list has at most that many nodes, so the fuel is enough. `int` counters wrap at 2 ^ 32.
-- The loops over a line of /proc/cpuinfo run on one more than its characters, and each token takes one.
-- `drive` takes one unit of fuel for each turn of the kernel thread. `halt` waits on fuel too: the
-- source does not bound how often a thread of mypthread_sample5.c is woken for nothing.
-- The 500000 rounds of `process_request` are a structural recursion that no proof unrolls.
--
-- Not modelled: machine contexts beyond what `ctx` holds, the stacks, signals, `sleep`, and the
-- interleaving of kernel threads inside a call; pthreads/pthread_sample4.c and
-- pthreads/pthread_sample5.c, which repeat samples on the system's threads; the socket set-up inside SocketLibrary,
-- and what the `main` programs print and measure. malloc succeeds and does not reuse an address.
pub mod Common
pub mod Cores
pub mod Homework
pub mod Lifecycle
pub mod Links
pub mod Machine
pub mod Memory
pub mod Pingpong
pub mod Pool
pub mod Queue
pub mod Scheduler
pub mod Samples
pub mod Server
pub mod Sort
pub mod Sync
mod Tests
pub mod Thread
