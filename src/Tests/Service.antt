-- ===== src/Tests/Service.antt =====
-- The pool of server/threadpool_pthread.c with two tasks queued and one called.
use operating_system_linux_t.Common.{none, some, List, [], ◌∷◌, ◌==◌, if◌then◌else◌, ℕ}
use operating_system_linux_t.Links.{link}
use operating_system_linux_t.Pool.{Task}
use operating_system_linux_t.Pool.Fifo.{Tasks}
use operating_system_linux_t.Pool.System.Service.{Event, dispatches, rounds, returns, Server}

abbrev job : ℕ → Task
job n = record { func = some 40; arg = n }

abbrev waiting : Tasks
waiting = (1, job 7) ∷ (2, job 8) ∷ []

abbrev busy_server : Server
busy_server = record {
  heap = record {
    cells = λ x.
        if x == 1
        then some (link (job 7) (some 2))
        else (if x == 2
            then some (link (job 8) none)
            else (if x == 3 then some (link (job 9) none) else none));
    fresh = 4;
  };
  pool = record {
    no_of_threads = 4;
    no_of_tasks_in_q = 2;
    no_of_running_threads = 2;
    mutex = 0;
    cond = 0;
    threads = 60;
    task_q_front = some 1;
    task_q_rear = some 2;
  };
  busy = (3, job 9) ∷ [];
  called = job 9 ∷ [];
}

-- A worker takes the first task while another one returns, and a task is dispatched in between.
abbrev mixed : List Event
mixed = rounds ∷ returns 1 ∷ dispatches none (some 40) 6 ∷ rounds ∷ rounds ∷ returns 0 ∷ []
