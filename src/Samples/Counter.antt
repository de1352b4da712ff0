-- ===== src/Samples/Counter.antt =====
-- pthreads/mypthread_sample3.c and pthreads/mypthread_sample4.c: threads that count under a mutex.
pub mod Creates
pub mod Drive
pub mod Main
pub mod Program
pub mod Step
pub mod Total
pub mod Wait
pub mod Worker
pub mod Workers
use operating_system_linux_t.Common.{ℕ, Option}
use operating_system_linux_t.Machine.{M, pure, ◌>>=◌, ◌>>◌, modify, inc}
use operating_system_linux_t.Scheduler.{Outcome, returned, running, sleeping, and_then}
use operating_system_linux_t.Lifecycle.{mypthread_init, mypthread_create, mypthread_exit}
use operating_system_linux_t.Sync.{
  mypthread_mutex_init, mypthread_mutex_lock, mypthread_mutex_unlock,
}
use operating_system_linux_t.Samples.{create_all, join_at, join_all}

-- `functionC`: how the thread leaves its kernel thread, and the counter.
unfoldable pub function_c : (tid mutex1 counter : ℕ) → M (Outcome × ℕ)
function_c tid mutex1 counter = do
  o ← mypthread_mutex_lock tid mutex1
  elim o [
    | returned _ ↦ do
      let counter' = inc counter
      _ ← mypthread_mutex_unlock mutex1
      o' ← mypthread_exit tid
      pure (o', counter')
    | running t x ↦ pure (running t x, counter)
    | sleeping k l w ↦ pure (sleeping k l w, counter)
  ]

-- `thread_function` of the other sample.
unfoldable pub thread_function : (tid mutex1 counter : ℕ) → M (Outcome × ℕ)
thread_function tid mutex1 counter = do
  o ← mypthread_mutex_lock tid mutex1
  elim o [
    | returned _ ↦ do
      let counter' = inc counter
      _ ← mypthread_mutex_unlock mutex1
      o' ← mypthread_exit tid
      pure (o', counter')
    | running t x ↦ pure (running t x, counter)
    | sleeping k l w ↦ pure (sleeping k l w, counter)
  ]

-- `main` with two threads.
unfoldable pub main_two :
    (policy cores hyper tid routine mutex1 thread1 thread2 : ℕ) → (pid1 pid2 : Option ℕ) → M Outcome
unfolding join_at
main_two policy cores hyper tid routine mutex1 thread1 thread2 pid1 pid2 = do
  modify (mypthread_init policy cores hyper)
  _ ← mypthread_mutex_init mutex1
  _ ← mypthread_create tid pid1 thread1 routine 0
  _ ← mypthread_create tid pid2 thread2 routine 0
  and_then (join_at tid thread1) (and_then (join_at tid thread2) (mypthread_exit tid))

abbrev pub nthreads : ℕ
nthreads = 10

-- `main` with NTHREADS threads, up to its exit.
unfoldable pub main_many :
    (n policy cores hyper tid routine mutex1 : ℕ) → (threads : ℕ → ℕ) → (ℕ → Option ℕ) → M Outcome
main_many n policy cores hyper tid routine mutex1 threads pids = do
  modify (mypthread_init policy cores hyper)
  _ ← mypthread_mutex_init mutex1
  create_all n tid 0 routine threads (λ i. 0) pids
  and_then (join_all n tid 0 threads) (mypthread_exit tid)
