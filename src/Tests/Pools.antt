-- ===== src/Tests/Pools.antt =====
-- Runs of the thread pools of server/ and of hw1/mypthread.c.
use operating_system_linux_t.Common.{
  ℕ, ◌≡◌, refl, false, none, some, [], ◌∷◌, ◌++◌, ◌==◌, if◌then◌else◌, arith,
}
use operating_system_linux_t.Memory.{ok}
use operating_system_linux_t.Links.{Links, link}
use operating_system_linux_t.Pool
use operating_system_linux_t.Pool.{Task, Pool}
use operating_system_linux_t.Pool.Fifo.{Queued}
use operating_system_linux_t.Pool.Dispatch.{dispatch-yield}
use operating_system_linux_t.Memory.Chain.{IsList}
use operating_system_linux_t.Machine.{Machine, pure, ◌>>=◌}
use operating_system_linux_t.Machine.Inv.{Unlocked}
use operating_system_linux_t.Lifecycle
use operating_system_linux_t.Tests.Setup.{machine, machine-Unlocked, heap-IsList, queued}
use operating_system_linux_t.Pool.System
use operating_system_linux_t.Homework
use operating_system_linux_t.Homework.{Queue, Library}
use operating_system_linux_t.Homework.Ring.{IsRing, push_thread-IsRing, pop_thread-IsRing}
use operating_system_linux_t.Homework.Ids.{mypthread_create-ids}

abbrev job : ℕ → Task
job n = record { func = some 40; arg = n }

-- Tasks 1 and 2 are queued; 3 is new.
abbrev tasks : Links Task
tasks = record {
  cells = λ x.
      if x == 1
      then some (link (job 7) (some 2))
      else (if x == 2
          then some (link (job 8) none)
          else (if x == 3 then some (link (job 9) (some 50)) else none));
  fresh = 4;
}

abbrev pool : Pool
pool = record {
  no_of_threads = 4;
  no_of_tasks_in_q = 2;
  no_of_running_threads = 2;
  mutex = 0;
  cond = 0;
  threads = 60;
  task_q_front = some 1;
  task_q_rear = some 2;
}

-- A pool on the free mutex 1 and on condition 1, that no thread waits for.
abbrev calm : Pool
calm = record pool { mutex = 1; cond = 1 }

calm-Queued : Queued tasks calm ((1, job 7) ∷ (2, job 8) ∷ [])
calm-Queued = record {
  front = refl;
  rear = refl;
  chained = (refl, refl, (refl, refl, tt));
  count = refl;
  few = omega arith;
}

dispatch-yield_example :
    (r : Links Task × Pool) × (m' : Machine) × (Pool.dispatch 100 tasks calm
        (some 50)
        (some 40)
        9
        machine
      ≡ (Lifecycle.mypthread_yield 100 >>= λ o. pure (o, r.0, r.1)) m')
    × Queued r.0 r.1 (((1, job 7) ∷ (2, job 8) ∷ []) ++ (4, job 9) ∷ [])
    × ((m'.mutexes 1).lock ≡ false)
    × ((t : ℕ) → m'.threads t ≡ machine.threads t)
    × IsList m'.nodes m'.mypthread_q.head queued
    × Unlocked m'
dispatch-yield_example =
    dispatch-yield 100 tasks calm (some 50) (some 40) 9 ((1, job 7) ∷ (2, job 8) ∷ []) machine
      queued machine-Unlocked heap-IsList refl refl refl calm-Queued refl (omega arith)

abbrev drained : Pool
drained = record pool { no_of_tasks_in_q = 0; task_q_front = none; task_q_rear = none }

drained-Queued : Queued tasks drained []
drained-Queued = record { front = refl; rear = refl; chained = tt; count = refl; few = omega arith }

-- A ring of threads 10 and 11.
abbrev two : Links ℕ
two = record {
  cells = λ x.
      if x == 1
      then some (link 10 (some 2))
      else (if x == 2 then some (link 11 (some 1)) else none);
  fresh = 3;
}

abbrev two_ends : Queue
two_ends = record { front = some 1; rear = some 2 }

two-IsRing : IsRing two two_ends 1 10 ((2, 11) ∷ [])
two-IsRing = record {
  front = refl;
  rear = refl;
  loop = (refl, refl, (refl, refl, tt));
  below = (omega arith, (omega arith, tt));
}

pop_thread-IsRing_example :
    (r : Links ℕ × Queue) × (Homework.pop_thread two two_ends 99 ≡ ok (10, r.0, r.1))
    × IsRing r.0 r.1 2 11 []
pop_thread-IsRing_example = pop_thread-IsRing two two_ends 1 10 2 11 [] 99 two-IsRing

abbrev single : Links ℕ
single = record { cells = λ x. if x == 1 then some (link 10 (some 1)) else none; fresh = 2 }

abbrev single_ends : Queue
single_ends = record { front = some 1; rear = some 1 }

single-IsRing : IsRing single single_ends 1 10 []
single-IsRing = record {
  front = refl;
  rear = refl;
  loop = (refl, refl, tt);
  below = (omega arith, tt);
}

abbrev library : Library
library = record {
  policy_defined = 0;
  no_of_kt = 0;
  thread_count = 0;
  nodes = record { cells = λ x. none; fresh = 1 };
  queue = record { front = none; rear = none };
  ids = λ x. 0;
  active = λ x. false;
  routines = λ x. none;
  next_struct = 70;
  started = [];
}

mypthread_create-ids_example :
    (l' : Library) × (Homework.mypthread_create 4 8 none 20 40 7 library ≡ ok l')
    × (l'.ids 20 ≡ 1)
    × (l'.ids 70 ≡ 1)
mypthread_create-ids_example = mypthread_create-ids 4 8 20 40 7 none library refl refl refl refl

push_thread-IsRing_example :
    (r : Links ℕ × Queue) × (Homework.push_thread two two_ends 12 ≡ ok r)
    × IsRing r.0 r.1 1 10 ((2, 11) ∷ (two.fresh, 12) ∷ [])
push_thread-IsRing_example = push_thread-IsRing two two_ends 1 10 ((2, 11) ∷ []) 12 two-IsRing
