-- ===== src/Pool/System/Counts.antt =====
-- What `create_threadpool` of server/threadpool_pthread.c counts.
use operating_system_linux_t.Common.{
  ℕ, zero, suc, ◌+◌, ◌^◌, ◌%◌, ◌≤◌, ◌<◌, ◌≡◌, refl, false, ◌||◌, not, none, some, arith,
}
use operating_system_linux_t.Machine.{inc, int_lt}
use operating_system_linux_t.Pool.{Pool, maxt_in_pool}
use operating_system_linux_t.Pool.System.{start_workers, create_threadpool}

-- Every call of `pthread_create` succeeds.
abbrev pub Succeeds : (ℕ → ℕ) → Type 0
Succeeds answer = (t : ℕ) → answer t ≡ 0

start_workers-counts :
    (n : ℕ) (answer : ℕ → ℕ) (thread routine arg : ℕ) (pool : Pool)
    → Succeeds answer
    → pool.no_of_threads + n < 2 ^ 32
    → (p : Pool) × ((start_workers n answer thread routine arg pool).1 ≡ some p)
      × (p.no_of_threads ≡ pool.no_of_threads + n)
      × (p.no_of_running_threads % 2 ^ 32 ≡ (pool.no_of_running_threads + n) % 2 ^ 32)
unfolding start_workers
start_workers-counts zero answer thread routine arg pool s small =
    (pool, refl, omega arith, omega arith)
start_workers-counts (suc n) answer thread routine arg pool s small =
    let pool₁ = record pool {
      no_of_threads = inc pool.no_of_threads;
      no_of_running_threads = inc pool.no_of_running_threads;
    } in
    let (p, run, count, running) =
      start_workers-counts n answer (suc thread) routine arg pool₁ s (omega (arith, small)) in
    (p, rw (s thread) run, omega (arith, count, small), omega (arith, running))

asked : (n : ℕ) → 0 < n → n ≤ maxt_in_pool → not (int_lt 0 n) || int_lt maxt_in_pool n ≡ false
asked n p le = ground (arith, p, le)

-- A pool of `n` workers, with no more than MAXT_IN_POOL asked for and every call answered by 0,
-- counts 2 * n threads, and its count of running threads is `n` above what malloc left there.
pub create_threadpool-counts :
    (answer : ℕ → ℕ) (routine arg : ℕ) (junk : Pool) (n : ℕ)
    → Succeeds answer
    → 0 < n
    → n ≤ maxt_in_pool
    → (p : Pool) × ((create_threadpool 0 0 answer routine arg junk n).1 ≡ some p)
      × (p.no_of_threads ≡ n + n)
      × (p.no_of_running_threads % 2 ^ 32 ≡ (junk.no_of_running_threads + n) % 2 ^ 32)
unfolding create_threadpool
create_threadpool-counts answer routine arg junk n s pos' le =
    let pool = record junk {
      no_of_threads = n;
      no_of_tasks_in_q = 0;
      task_q_front = none;
      task_q_rear = none;
    } in
    let (p, run, count, running) =
      start_workers-counts n answer pool.threads routine arg pool s (omega (arith, le)) in
    (p, rw (asked n pos' le) run, count, running)
