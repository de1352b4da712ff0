-- ===== src/Tests/Runs.antt =====
-- Longer runs of pthreads/queue_util.c and pthreads/mypthread.c.
use operating_system_linux_t.Common.{
  ℕ, ◌≡◌, ◌≤◌, refl, Bool-cases, inl, inr, true, none, some, List, [], ◌∷◌, ◌++◌, ◌==◌, length,
  if◌then◌else◌,
}
use operating_system_linux_t.Memory.{ok, fault, Ptr, Heap, Ends}
use operating_system_linux_t.Thread.{Threads, ps_active}
use operating_system_linux_t.Machine.{Machine, set_mutex}
use operating_system_linux_t.Scheduler.{returned, sleeping, set_mode}
use operating_system_linux_t.Lifecycle
use operating_system_linux_t.Lifecycle.First.{First, mypthread_create-First}
use operating_system_linux_t.Lifecycle.Idle.{join_idle-fault}
use operating_system_linux_t.Sync.Locking.{lock_free}
use operating_system_linux_t.Sync.Exclusion.{Holders, Step, Steps, done, more}
use operating_system_linux_t.Sync.Exclusion.Invariant.{Exclusive, Steps-exclusion}
use operating_system_linux_t.Queue.Spec.{Op, add, dequeue, view_run, queue_run}
use operating_system_linux_t.Queue.Spec.Refine.{Fit, Agrees, queue_run-view_run}
use operating_system_linux_t.Queue.Spec.Fifo.{view, added, answered, queue_run-fifo}
use operating_system_linux_t.Tests.Setup.{
  heap, ends, queued, threads, resting, kernel, machine, heap-IsList, kheap-IsList,
  machine-Unlocked, unused, unused-Lists,
}

queued-Fit : Fit (view (10 ∷ 11 ∷ [])) heap ends
queued-Fit = record { cells = queued; list = heap-IsList; same = refl; tail = refl }

-- Thread 12 is added, thread 10 taken out, and thread 13 added.
abbrev mixed : List Op
mixed = add 12 ∷ dequeue threads ∷ add 13 ∷ []

queue_run-view_run_example :
    Agrees (view_run mixed (view (10 ∷ 11 ∷ []))) (queue_run mixed heap ends)
queue_run-view_run_example = queue_run-view_run mixed (view (10 ∷ 11 ∷ [])) heap ends queued-Fit

abbrev awake : Threads
awake t = record (threads t) { state = ps_active }

abbrev eager : List Op
eager = dequeue awake ∷ add 12 ∷ dequeue awake ∷ dequeue awake ∷ []

queue_run-fifo_example :
    (ps : List Ptr) × (ys : List ℕ) × (h' : Heap ℕ) × (e' : Ends) × (queue_run eager heap ends
      ≡ ok (ps, h', e'))
    × Fit (view ys) h' e'
    × (answered ps ++ ys ≡ (10 ∷ 11 ∷ []) ++ added eager)
queue_run-fifo_example =
    queue_run-fifo eager (10 ∷ 11 ∷ []) heap ends queued-Fit
      ((refl, (refl, tt)), ((refl, (refl, tt)), ((refl, tt), tt)))

-- Thread 12 holds mutex 0, and takes mutex 1 and gives it back.
abbrev one_holder : Holders
one_holder a = if a == 0 then 12 ∷ [] else []

one_holder-Exclusive : Exclusive machine one_holder
one_holder-Exclusive a = elim (Bool-cases (a == 0)) [ inl e ↦ rw e refl | inr e ↦ rw e refl ]

abbrev locked : Machine
locked = set_mutex 1 (record (machine.mutexes 1) { lock = true }) machine

abbrev two_mutexes : Holders
two_mutexes a = if 1 == a then 12 ∷ [] else one_holder a

locking : Steps machine one_holder locked two_mutexes
locking =
    more (Step.lock 100 12 1 (returned 0) (lock_free 100 1 machine machine-Unlocked refl) refl) done

Steps-exclusion_example : ((a : ℕ) → length (two_mutexes a) ≤ 1) × Exclusive locked two_mutexes
Steps-exclusion_example =
    Steps-exclusion machine locked one_holder two_mutexes locking one_holder-Exclusive

mypthread_create-First_example : First 100 (some 101) 13 5 6 unused
mypthread_create-First_example =
    mypthread_create-First 100 (some 101) 13 5 6 unused refl unused-Lists

abbrev resting_machine : Machine
resting_machine = record machine { threads = resting }

join_idle-fault_example :
    (m' : Machine) × (Lifecycle.schedule_kthread 101 resting_machine
      ≡ ok (sleeping 8 none set_mode, m'))
    × (Lifecycle.mypthread_join 100 9 m' ≡ fault)
join_idle-fault_example =
    join_idle-fault 101 100 9 resting_machine queued kernel
      (record { mypthread = refl; mutex = refl; kthread = refl; cond = refl })
      (record { queue = heap-IsList; tail = refl; kernel = kheap-IsList; ktail = refl })
      (refl, (refl, tt)) refl refl ((12, refl), tt) refl refl
