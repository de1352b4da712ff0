-- ===== src/Server/Accept.antt =====
-- `main` in server/server.c: it makes the pool and the listening socket, and then dispatches each
-- accepted connection to the pool.
use operating_system_linux_t.Common.{ℕ, Option, none, some}
use operating_system_linux_t.Memory.{exited, Ptr}
use operating_system_linux_t.Links.{Links}
use operating_system_linux_t.Machine.{M, pure, ◌>>=◌, inc}
use operating_system_linux_t.Scheduler.{Outcome}
use operating_system_linux_t.Pool.{Task, Pool, create_threadpool, dispatch}

-- What the loop keeps: the pool, its tasks and `count_dispatches`.
pub record Serving : Type 0 where
  pub pool : Pool
  pub tasks : Links Task
  pub count_dispatches : ℕ

-- One round for the answer of `saccept`, `none` for an error. `routine` is `request_client`.
unfoldable pub accept_round : ℕ → Ptr → (junk : Ptr) → Option ℕ → Serving → M (Outcome × Serving)
accept_round tid routine junk none s = λ m. exited
accept_round tid routine junk (some socket_talk) s = do
  (o, h, p) ← dispatch tid s.tasks s.pool junk routine socket_talk
  pure (o, record { pool = p; tasks = h; count_dispatches = inc s.count_dispatches })

-- POOL_SIZE
abbrev pub pool_size : ℕ
pool_size = 20

-- `setup_listen` for the answer of `slisten`, `none` for an error.
unfoldable pub setup_listen : Option ℕ → M ℕ
setup_listen none = λ m. exited
setup_listen (some socket_listen) = pure socket_listen

-- What `main` does before its loop; the policy is NULL. The pool is none where it could not be made.
unfoldable pub start_server :
    (tid cores hyper : ℕ)
    → (ℕ → Option ℕ)
    → (routine arg : ℕ) → Pool
    → (listening : Option ℕ) → M (Option Pool × ℕ)
unfolding setup_listen
start_server tid cores hyper pids routine arg junk listening = do
  pool ← create_threadpool tid 0 cores hyper pids routine arg junk pool_size
  socket_listen ← setup_listen listening
  pure (pool, socket_listen)
