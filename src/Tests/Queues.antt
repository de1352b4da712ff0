-- ===== src/Tests/Queues.antt =====
-- Runs of pthreads/queue_util.c.
use operating_system_linux_t.Common.{ℕ, ◌==◌, if◌then◌else◌, ◌≡◌}
use operating_system_linux_t.Memory.{ok, Ptr, Heap, Ends}
use operating_system_linux_t.Thread.{Threads, ps_active, ps_waiting}
use operating_system_linux_t.Queue
use operating_system_linux_t.Queue.Dequeue.{Dequeued, dequeue_total}
use operating_system_linux_t.Tests.Setup.{heap, ends, queued, threads, heap-IsList}

dequeue_total_example :
    (r : Ptr × Heap ℕ × Ends) × (Queue.mypthread_dequeue_first_active heap ends threads ≡ ok r)
    × Dequeued heap ends threads queued r
dequeue_total_example = dequeue_total heap ends threads queued heap-IsList

-- Thread 11 is active in place of thread 10.
abbrev last_active : Threads
last_active t = record (threads t) { state = if t == 11 then ps_active else ps_waiting }
