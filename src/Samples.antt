-- ===== src/Samples.antt =====
-- The programs of pthreads/ that use the thread library, as what each of their threads does. `tid`
-- is the kernel thread that runs, `threads` and `args` are the addresses of the threads' structs
-- and the values of their arguments, `pids` the answers of `clone`. Printing is left out.
pub mod Hello
pub mod Messages
pub mod Bounded
pub mod Counter
pub mod Halting
use operating_system_linux_t.Common.{ℕ, zero, suc, true, false, Option, ◌==◌}
use operating_system_linux_t.Memory.{exited}
use operating_system_linux_t.Machine.{M, pure, ◌>>=◌, ◌>>◌, get}
use operating_system_linux_t.Scheduler.{Outcome, returned, running, sleeping, and_then}
use operating_system_linux_t.Lifecycle.{mypthread_create, mypthread_join}

-- The loops that create threads and stop the program where one cannot be created: `n` are left,
-- from thread `i` on.
unfoldable pub create_or_exit :
    (n tid i routine : ℕ) → (threads args : ℕ → ℕ) → (ℕ → Option ℕ) → M (Unit {0})
create_or_exit zero tid i routine threads args pids = pure tt
create_or_exit (suc n) tid i routine threads args pids = do
  rc ← mypthread_create tid (pids i) (threads i) routine (args i)
  elim (rc == 0) [
    | true ↦ create_or_exit n tid (suc i) routine threads args pids
    | false ↦ (λ m. exited)
  ]

-- The loop that creates threads whatever the calls answer.
unfoldable pub create_all :
    (n tid i routine : ℕ) → (threads args : ℕ → ℕ) → (ℕ → Option ℕ) → M (Unit {0})
create_all zero tid i routine threads args pids = pure tt
create_all (suc n) tid i routine threads args pids = do
  _ ← mypthread_create tid (pids i) (threads i) routine (args i)
  create_all n tid (suc i) routine threads args pids

-- A join of the thread whose struct is at the address.
unfoldable pub join_at : (tid thread : ℕ) → M Outcome
join_at tid thread = do m ← get; mypthread_join tid (m.threads thread).th_id

-- The loops that join threads: `n` are left, from thread `i` on.
unfoldable pub join_all : (n tid i : ℕ) → (threads : ℕ → ℕ) → M Outcome
unfolding join_at
join_all zero tid i threads = pure (returned 0)
join_all (suc n) tid i threads = and_then (join_at tid (threads i)) (join_all n tid (suc i) threads)
