-- ===== src/Samples/Counter/Drive.antt =====
-- pthreads/mypthread_sample4.c as one kernel thread runs it: `main`, which goes on behind the join that
-- it waits in, and the counting threads, in the order in which the scheduler picks them.
use operating_system_linux_t.Common.{ℕ, zero, suc, Option}
use operating_system_linux_t.Memory.{fault, out_of_fuel}
use operating_system_linux_t.Thread.{
  uninit, entry, lock_entry, saved, freed, in_yield, in_join, in_cond_wait,
}
use operating_system_linux_t.Machine.{M, pure, ◌>>=◌, ◌>>◌, modify}
use operating_system_linux_t.Scheduler.{Outcome, returned, running, sleeping, scheduler_round}
use operating_system_linux_t.Lifecycle.{mypthread_init, mypthread_exit}
use operating_system_linux_t.Sync.{mypthread_mutex_init}
use operating_system_linux_t.Samples.{create_all, join_at}
use operating_system_linux_t.Samples.Counter.{thread_function}

-- `main` from a join on: `left` threads are left to join, from thread `j` on. The result is how `main`
-- leaves its kernel thread, and what is left behind the join that it waits in.
unfoldable pub main_from : (left tid j : ℕ) → (threads : ℕ → ℕ) → M (Outcome × ℕ × ℕ)
unfolding join_at
main_from zero tid j threads = do o ← mypthread_exit tid; pure (o, 0, j)
main_from (suc left) tid j threads = do
  o ← join_at tid (threads j)
  elim o [
    | returned _ ↦ main_from left tid (suc j) threads
    | running t c ↦ pure (running t c, left, suc j)
    | sleeping k l w ↦ pure (sleeping k l w, left, suc j)
  ]

-- The kernel thread behind a call that ended in the outcome, on fuel: the counter when no thread is left.
-- A context that the program never leaves behind is a fault.
unfoldable pub drive :
    (fuel tid mutex1 : ℕ) → (threads : ℕ → ℕ) → (left j counter : ℕ) → Outcome → M ℕ
unfolding main_from
drive zero tid mutex1 threads left j counter o = λ m. out_of_fuel
drive (suc fuel) tid mutex1 threads left j counter (returned v) = pure counter
drive (suc fuel) tid mutex1 threads left j counter (running t (entry routine arg)) = do
  (o, counter') ← thread_function tid mutex1 counter
  drive fuel tid mutex1 threads left j counter' o
drive (suc fuel) tid mutex1 threads left j counter (running t (saved in_join)) = do
  (o, left', j') ← main_from left tid j threads
  drive fuel tid mutex1 threads left' j' counter o
drive (suc fuel) tid mutex1 threads left j counter (running t (saved in_yield)) = λ m. fault
drive (suc fuel) tid mutex1 threads left j counter (running t (saved (in_cond_wait a))) = λ m. fault
drive (suc fuel) tid mutex1 threads left j counter (running t uninit) = λ m. fault
drive (suc fuel) tid mutex1 threads left j counter (running t (lock_entry a)) = λ m. fault
drive (suc fuel) tid mutex1 threads left j counter (running t freed) = λ m. fault
drive (suc fuel) tid mutex1 threads left j counter (sleeping k l w) = do
  o ← scheduler_round k l w
  drive fuel tid mutex1 threads left j counter o

-- The program from its joins on, with the counter at 0.
unfoldable pub count_threads : (fuel n tid mutex1 : ℕ) → (threads : ℕ → ℕ) → M ℕ
unfolding drive
count_threads fuel n tid mutex1 threads = do
  (o, left, j) ← main_from n tid 0 threads
  drive fuel tid mutex1 threads left j 0 o

-- The whole program, with the threads created first.
unfoldable pub run_many :
    (fuel n policy cores hyper tid routine mutex1 : ℕ) → (threads : ℕ → ℕ) → (ℕ → Option ℕ) → M ℕ
unfolding count_threads
run_many fuel n policy cores hyper tid routine mutex1 threads pids = do
  modify (mypthread_init policy cores hyper)
  _ ← mypthread_mutex_init mutex1
  create_all n tid 0 routine threads (λ i. 0) pids
  count_threads fuel n tid mutex1 threads
