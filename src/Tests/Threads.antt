-- ===== src/Tests/Threads.antt =====
-- Runs of the scheduler and of the calls on threads of pthreads/mypthread.c.
use operating_system_linux_t.Common.{ℕ, true, false, ◌⊎◌, some, [], ◌∷◌, ◌≡◌, refl}
use operating_system_linux_t.Memory.{ok, fault}
use operating_system_linux_t.Thread.{saved, in_yield}
use operating_system_linux_t.Queue.Lookup.{any_item, runs}
use operating_system_linux_t.Machine.{Machine}
use operating_system_linux_t.Machine.Ops.{mypthread_enqueue}
use operating_system_linux_t.Machine.Inv.{Unlocked, Lists, Current}
use operating_system_linux_t.Scheduler.{set_mode, running, returned}
use operating_system_linux_t.Scheduler.Round.{Turn, scheduler_round-Turn}
use operating_system_linux_t.Lifecycle
use operating_system_linux_t.Lifecycle.Yield.{Yields, mypthread_yield-Yields}
use operating_system_linux_t.Lifecycle.Starve.{yield_alone-fault}
use operating_system_linux_t.Lifecycle.Exit.{Exits, mypthread_exit-Exits}
use operating_system_linux_t.Lifecycle.Join.{Joins, join_queued-Joins, join_absent-cases}
use operating_system_linux_t.Lifecycle.Create.{Creates, mypthread_create-Creates}
use operating_system_linux_t.Tests.Setup.{
  queued, threads, resting, kernel, kthreads, machine, heap-IsList, kheap-IsList, machine-Unlocked,
  machine-Lists, machine-Current,
}

scheduler_round-Turn_example : Turn 7 (some 12) set_mode machine queued
scheduler_round-Turn_example =
    scheduler_round-Turn 7 (some 12) set_mode machine queued machine-Unlocked heap-IsList

mypthread_yield-Yields_example : Yields 100 7 12 machine queued
mypthread_yield-Yields_example =
    mypthread_yield-Yields 100 7 12 machine queued kernel machine-Unlocked machine-Lists
      machine-Current refl refl (refl, (refl, tt))

abbrev idle_machine : Machine
idle_machine = record machine { threads = resting }

idle-Unlocked : Unlocked idle_machine
idle-Unlocked = record { mypthread = refl; mutex = refl; kthread = refl; cond = refl }

idle-Lists : Lists idle_machine queued kernel
idle-Lists = record { queue = heap-IsList; tail = refl; kernel = kheap-IsList; ktail = refl }

idle-Current : Current idle_machine kernel 100 7 12
idle-Current = record { found = refl; runs = refl }

yield_alone-fault_example :
    (m' : Machine) × (Lifecycle.mypthread_yield 100 idle_machine
      ≡ ok (running 12 (saved in_yield), m'))
    × ((x : ℕ) → mypthread_enqueue x m' ≡ fault)
yield_alone-fault_example =
    yield_alone-fault 100 7 12 1 10 idle_machine ((2, 11) ∷ []) kernel idle-Unlocked idle-Lists
      idle-Current refl refl (refl, (refl, tt)) (refl, (refl, tt))

mypthread_exit-Exits_example : Exits 100 7 12 machine queued
mypthread_exit-Exits_example =
    mypthread_exit-Exits 100 7 12 machine queued kernel machine-Unlocked machine-Lists
      machine-Current refl

join_queued-Joins_example : Joins 100 7 12 2 machine queued
join_queued-Joins_example =
    join_queued-Joins 100 7 12 2 machine queued kernel machine-Unlocked machine-Lists
      machine-Current 11 refl refl

join_absent-cases_example :
    ((any_item (runs kthreads threads 9) kernel ≡ true) × Joins 100 7 12 9 machine queued)
    ⊎ ((any_item (runs kthreads threads 9) kernel ≡ false)
        × (Lifecycle.mypthread_join 100 9 machine ≡ ok (returned 0, machine)))
join_absent-cases_example =
    join_absent-cases 100 7 12 9 machine queued kernel machine-Unlocked machine-Lists
      machine-Current refl ((12, refl), tt)

mypthread_create-Creates_example : Creates 100 (some 101) 13 5 6 machine queued
mypthread_create-Creates_example =
    mypthread_create-Creates 100 (some 101) 13 5 6 machine queued kernel machine-Unlocked
      machine-Lists refl
