-- ===== src/Pool/System.antt =====
-- The thread pool on the system's threads, server/threadpool_pthread.c: the queue of Pool, and the
-- calls of pthread.h that each function makes, in their order. What these calls answer is an
-- argument.
pub mod Counts
pub mod Calls
pub mod Service
use operating_system_linux_t.Common.{
  ℕ, zero, suc, ◌+◌, Bool, true, false, ◌||◌, not, Option, none, some, List, [], ◌∷◌, ◌++◌, ◌==◌,
  if◌then◌else◌,
}
use operating_system_linux_t.Memory.{Run, ok, Ptr, ◌>>=◌}
use operating_system_linux_t.Links.{Link, Links, new_link, load_link, free_link}
use operating_system_linux_t.Machine.{inc, int_lt}
use operating_system_linux_t.Pool.{Task, Pool, maxt_in_pool, push_task, take_task}

-- The calls of pthread.h, with the addresses of their structs.
pub data Call : Type 0 where
  mutex_lock mutex_unlock mutex_init mutex_destroy : (mutex : ℕ) → Call
  cond_wait : (cond mutex : ℕ) → Call
  cond_signal cond_init cond_destroy : (cond : ℕ) → Call
  create : (thread routine arg : ℕ) → Call

-- `threadpool_scheduler` from the test of the inner loop, up to a wait or to the call of a task.
unfoldable pub await_task : Links Task → Pool → Run (List Call × Option (Ptr × Task) × Pool)
await_task h pool = elim (pool.no_of_tasks_in_q == 0) [
  | true ↦ ok (mutex_unlock pool.mutex ∷ cond_wait pool.cond pool.mutex ∷ [], none, pool)
  | false ↦ do
    (cur, p) ← take_task h pool
    n ← load_link h cur
    ok (
      (if p.no_of_tasks_in_q == 0 then cond_signal p.cond ∷ [] else [])
          ++ mutex_unlock p.mutex ∷ [],
      some (cur, n.item),
      p,
    )
]

-- A round of the outer loop.
unfoldable pub threadpool_scheduler :
    Links Task → Pool → Run (List Call × Option (Ptr × Task) × Pool)
threadpool_scheduler h pool = do
  (calls, next, p) ← await_task h pool
  ok (mutex_lock pool.mutex ∷ calls, next, p)

-- The loop that starts the workers: `n` are left, the next one's struct is at `thread`, and
-- `answer` is what `pthread_create` answers for it.
unfoldable pub start_workers :
    ℕ → (ℕ → ℕ) → (thread routine arg : ℕ) → Pool → List Call × Option Pool
start_workers zero answer thread routine arg pool = ([], some pool)
start_workers (suc n) answer thread routine arg pool =
    let rest = start_workers n answer (suc thread) routine arg (record pool {
      no_of_threads = inc pool.no_of_threads;
      no_of_running_threads = inc pool.no_of_running_threads;
    }) in
    if answer thread == 0
    then (create thread routine arg ∷ rest.0, rest.1)
    else (create thread routine arg ∷ [], none)

-- `create_threadpool` for a pool at address `arg` that malloc has filled with `junk`; `made` and
-- `ready` are the answers of `pthread_mutex_init` and `pthread_cond_init`.
unfoldable pub create_threadpool :
    (made ready : ℕ) → (ℕ → ℕ) → (routine arg : ℕ) → Pool → ℕ → List Call × Option Pool
unfolding start_workers
create_threadpool made ready answer routine arg junk n =
    let pool = record junk {
      no_of_threads = n;
      no_of_tasks_in_q = 0;
      task_q_front = none;
      task_q_rear = none;
    } in
    let rest = start_workers n answer pool.threads routine arg pool in
    if not (int_lt 0 n) || int_lt maxt_in_pool n
    then ([], none)
    else (if not (made == 0)
        then (mutex_init pool.mutex ∷ [], none)
        else (if not (ready == 0)
            then (mutex_init pool.mutex ∷ cond_init pool.cond ∷ [], none)
            else (mutex_init pool.mutex ∷ cond_init pool.cond ∷ rest.0, rest.1)))

-- `dispatch` at a pool that is not NULL; its guard compares addresses and never holds. `junk` is
-- what malloc leaves in the task's `next`.
unfoldable pub dispatch :
    Links Task
    → Pool
    → (junk : Ptr) → (func : Ptr) → (arg : ℕ) → Run (List Call × Links Task × Pool)
dispatch h pool junk func arg =
    let made = new_link h (record { func = func; arg = arg }) junk in
    push_task made.1 pool made.0 >>= λ r. ok (
      mutex_lock pool.mutex
          ∷ cond_signal r.1.cond
          ∷ cond_signal r.1.cond
          ∷ mutex_unlock r.1.mutex
          ∷ [],
      r.0,
      r.1,
    )

-- `destroy_threadpool`
unfoldable pub destroy_threadpool : Pool → List Call
destroy_threadpool pool = mutex_destroy pool.mutex ∷ cond_destroy pool.cond ∷ []
