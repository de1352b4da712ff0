-- ===== src/Pool.antt =====
-- The thread pool of server/threadpool.c: its queue of tasks, its workers, and `dispatch`. The pool
-- is the struct and the heap of its tasks; the calls of the thread library act on the `Machine`.
pub mod Dispatch
pub mod Fifo
pub mod System
pub mod Trial
use operating_system_linux_t.Common.{
  ℕ, zero, suc, ◌+◌, ◌%◌, Bool, true, false, ◌||◌, not, Option, none, some, ◌==◌, if◌then◌else◌,
}
use operating_system_linux_t.Memory.{Run, ok, fault, Ptr}
use operating_system_linux_t.Memory as Mem
use operating_system_linux_t.Links.{Link, Links, new_link, load_link, set_link, free_link}
use operating_system_linux_t.Machine.{
  Machine, M, pure, ◌>>=◌, ◌>>◌, get, modify, lift, inc, dec, int_lt,
}
use operating_system_linux_t.Scheduler.{Outcome, returned, running, sleeping}
use operating_system_linux_t.Lifecycle.{
  mypthread_init, mypthread_create, mypthread_exit, mypthread_yield,
}
use operating_system_linux_t.Sync.{
  mypthread_mutex_init, mypthread_mutex_destroy, mypthread_mutex_lock, mypthread_mutex_unlock,
  mypthread_cond_init, mypthread_cond_destroy, mypthread_cond_signal, mypthread_cond_wait,
}

-- `struct task` without its `next`: the function's address and its argument.
pub record Task : Type 0 where
  pub func : Ptr
  pub arg : ℕ

-- `struct _threadpool_st`; `mutex`, `cond` and `threads` are addresses.
pub record Pool : Type 0 where
  pub no_of_threads : ℕ
  pub no_of_tasks_in_q : ℕ
  pub no_of_running_threads : ℕ
  pub mutex : ℕ
  pub cond : ℕ
  pub threads : ℕ
  pub task_q_front : Ptr
  pub task_q_rear : Ptr

-- MAXT_IN_POOL
abbrev pub maxt_in_pool : ℕ
maxt_in_pool = 200

unfoldable pub push_task : Links Task → Pool → ℕ → Run (Links Task × Pool)
push_task h pool mytask =
    if pool.no_of_tasks_in_q == 0
    then Mem.◌>>=◌ (set_link h (some mytask) none) (λ h₁. ok (
      h₁,
      record pool {
        task_q_front = some mytask;
        task_q_rear = some mytask;
        no_of_tasks_in_q = inc pool.no_of_tasks_in_q;
      },
    ))
    else Mem.◌>>=◌ (set_link h pool.task_q_rear (some mytask)) (λ h₁.
      Mem.◌>>=◌ (set_link h₁ (some mytask) none) (λ h₂. ok (
        h₂,
        record pool { task_q_rear = some mytask; no_of_tasks_in_q = inc pool.no_of_tasks_in_q },
      )))

-- The part of `threadpool_scheduler` that takes `cur` off the queue.
unfoldable pub take_task : Links Task → Pool → Run (Ptr × Pool)
take_task h pool =
    let cur = pool.task_q_front in
    let count = dec pool.no_of_tasks_in_q in
    let p = record pool { no_of_tasks_in_q = count } in
    if count == 0
    then ok (cur, record p { task_q_front = none; task_q_rear = none })
    else Mem.◌>>=◌ (load_link h cur) (λ n. ok (cur, record p { task_q_front = n.next }))

-- The signal after a task has been taken.
unfoldable pub signal_drained : Pool → M ℕ
signal_drained pool = if pool.no_of_tasks_in_q == 0 then mypthread_cond_signal pool.cond else pure 0

-- A worker's step ends outside the pool's code, or at the call of a task's function.
pub data Step : Type 0 where
  left : Outcome → Step
  calls : (cur : Ptr) → Task → Step

-- `threadpool_scheduler` from the test of the inner loop to the call of the task. The worker comes
-- back to this test when `mypthread_cond_wait` has returned.
unfoldable pub await_task : ℕ → Links Task → Pool → M (Step × Pool)
await_task tid h pool = elim (pool.no_of_tasks_in_q == 0) [
  | true ↦ do o ← mypthread_cond_wait tid pool.cond pool.mutex; pure (left o, pool)
  | false ↦ do
    (cur, p) ← lift (take_task h pool)
    _ ← signal_drained p
    _ ← mypthread_mutex_unlock p.mutex
    n ← lift (load_link h cur)
    pure (calls cur n.item, p)
]

-- One round of the outer loop of `threadpool_scheduler`, up to the call of the task.
unfoldable pub threadpool_scheduler : ℕ → Links Task → Pool → M (Step × Pool)
threadpool_scheduler tid h pool = do
  o ← mypthread_mutex_lock tid pool.mutex
  elim o [
    | returned _ ↦ await_task tid h pool
    | running t x ↦ pure (left (running t x), pool)
    | sleeping k l w ↦ pure (left (sleeping k l w), pool)
  ]

-- `free(cur)`, behind the call.
unfoldable pub finish_task : Links Task → Ptr → Run (Links Task)
finish_task h cur = free_link h cur

-- The loop that starts the workers: `n` are left, the next one's struct is at `thread`. `pids` are
-- the answers of `clone`.
unfoldable pub start_workers :
    ℕ → ℕ → (ℕ → Option ℕ) → (thread routine arg : ℕ) → Pool → M (Option Pool)
start_workers zero tid pids thread routine arg pool = pure (some pool)
start_workers (suc n) tid pids thread routine arg pool = do
  r ← mypthread_create tid (pids thread) thread routine arg
  elim (r == 0) [
    | false ↦ pure none
    | true ↦ start_workers n tid pids (suc thread) routine arg (record pool {
      no_of_threads = inc pool.no_of_threads;
      no_of_running_threads = inc pool.no_of_running_threads;
    })
  ]

-- `create_threadpool` for a pool at address `arg` that malloc has filled with `junk`; `routine` is
-- the address of `threadpool_scheduler`.
unfoldable pub create_threadpool :
    (tid mode cores hyper : ℕ) → (ℕ → Option ℕ) → (routine arg : ℕ) → Pool → ℕ → M (Option Pool)
create_threadpool tid mode cores hyper pids routine arg junk n = do
  modify (mypthread_init mode cores hyper)
  elim (not (int_lt 0 n) || int_lt maxt_in_pool n) [
    | true ↦ pure none
    | false ↦ do
      let pool = record junk {
        no_of_threads = n;
        no_of_tasks_in_q = 0;
        task_q_front = none;
        task_q_rear = none;
      }
      r ← mypthread_mutex_init pool.mutex
      q ← mypthread_cond_init pool.cond
      elim (not (r == 0) || not (q == 0)) [
        | true ↦ pure none
        | false ↦ start_workers n tid pids pool.threads routine arg pool
      ]
  ]

-- The part of `dispatch` behind the lock. The guard compares the addresses of two fields of one
-- struct, which are never equal.
unfoldable pub enter_task : ℕ → Links Task → Pool → ℕ → M (Outcome × Links Task × Pool)
enter_task tid h pool mytask = do
  (h₁, p) ← lift (push_task h pool mytask)
  _ ← mypthread_cond_signal p.cond
  _ ← mypthread_cond_signal p.cond
  _ ← mypthread_mutex_unlock p.mutex
  o ← mypthread_yield tid
  pure (o, h₁, p)

-- `dispatch` at a pool that is not NULL. malloc leaves the task's `next` undefined: it is `junk`.
unfoldable pub dispatch :
    ℕ → Links Task → Pool → Ptr → (func : Ptr) → (arg : ℕ) → M (Outcome × Links Task × Pool)
dispatch tid h pool junk func arg =
    let (mytask, h₁) = new_link h (record { func = func; arg = arg }) junk in
    mypthread_mutex_lock tid pool.mutex >>= λ o. elim o [
      | returned _ ↦ enter_task tid h₁ pool mytask
      | running t x ↦ pure (running t x, h₁, pool)
      | sleeping k l w ↦ pure (sleeping k l w, h₁, pool)
    ]

-- `destroy_threadpool`, which also ends its caller. `free(pool->threads)` has no further use.
unfoldable pub destroy_threadpool : ℕ → Pool → M Outcome
destroy_threadpool tid pool = do
  _ ← mypthread_mutex_destroy pool.mutex
  _ ← mypthread_cond_destroy pool.cond
  mypthread_exit tid
