-- ===== src/Samples/Hello.antt =====
-- pthreads/mypthread_sample1.c, and pthreads/mypthread_performance.c, which joins its threads.
use operating_system_linux_t.Common.{ℕ, Option}
use operating_system_linux_t.Machine.{M, ◌>>◌, modify}
use operating_system_linux_t.Scheduler.{Outcome, and_then}
use operating_system_linux_t.Lifecycle.{mypthread_init, mypthread_exit}
use operating_system_linux_t.Samples.{create_or_exit, join_all}

-- `PrintHello`
unfoldable pub print_hello : (tid : ℕ) → M Outcome
print_hello tid = mypthread_exit tid

abbrev pub num_threads : ℕ
num_threads = 5

-- `main` of the sample, for the policy of its argument and the counts of cores.
unfoldable pub main :
    (policy cores hyper tid routine : ℕ) → (threads args : ℕ → ℕ) → (ℕ → Option ℕ) → M Outcome
main policy cores hyper tid routine threads args pids = do
  modify (mypthread_init policy cores hyper)
  create_or_exit num_threads tid 0 routine threads args pids
  mypthread_exit tid

-- `main` of the measurement, for the number of threads of its second argument.
unfoldable pub measure :
    (n policy cores hyper tid routine : ℕ) → (threads args : ℕ → ℕ) → (ℕ → Option ℕ) → M Outcome
measure n policy cores hyper tid routine threads args pids = do
  modify (mypthread_init policy cores hyper)
  create_or_exit n tid 0 routine threads args pids
  and_then (join_all n tid 0 threads) (mypthread_exit tid)
