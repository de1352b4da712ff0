-- ===== src/Pool/System/Service.antt =====
-- The dispatcher and the workers of server/threadpool_pthread.c at work on one pool, in any order: what
-- each does with the mutex held is one step, and a worker frees its task after the call. A step whose
-- calls of pthread.h are out of order, or do not begin with a lock of the pool's mutex, is a fault.
pub mod Busy
pub mod Kept
pub mod Order
pub mod Steps
use operating_system_linux_t.Common.{
  ℕ, zero, suc, true, false, ◌+◌, ◌-◌, ◌≤◌, Option, none, some, List, [], ◌∷◌, ◌++◌, ◌==◌,
  if◌then◌else◌,
}
use operating_system_linux_t.Memory.{Run, ok, fault, Ptr, ◌>>=◌}
use operating_system_linux_t.Links.{Links, free_link}
use operating_system_linux_t.Pool.{Task, Pool}
use operating_system_linux_t.Pool.Fifo.{Tasks}
use operating_system_linux_t.Pool.System.Calls.{follow}
use operating_system_linux_t.Pool.System.{Call, mutex_lock, threadpool_scheduler, dispatch}

-- A call of `dispatch`, a round of a worker up to its wait or the call of a task, and the return of the
-- task of a busy worker.
pub data Event : Type 0 where
  dispatches : (junk func : Ptr) → (arg : ℕ) → Event
  rounds : Event
  returns : (worker : ℕ) → Event

-- The tasks that the workers are in, and all tasks that were called, in their order.
pub record Server : Type 0 where
  pub heap : Links Task
  pub pool : Pool
  pub busy : Tasks
  pub called : List Task

abbrev pub busy_at : ℕ → Tasks → Ptr
busy_at i [] = none
busy_at zero ((a, t) ∷ xs) = some a
busy_at (suc i) (x ∷ xs) = busy_at i xs

abbrev pub without : ℕ → Tasks → Tasks
without i [] = []
without zero (x ∷ xs) = xs
without (suc i) (x ∷ xs) = x ∷ without i xs

-- What the worker goes on with.
abbrev pub taken : Option (Ptr × Task) → Server → Server
taken none s = s
taken (some (none, t)) s = s
taken (some (some a, t)) s = record s { busy = (a, t) ∷ s.busy; called = s.called ++ t ∷ [] }

-- The mutex that the first call locks, if it locks one.
abbrev pub first_lock : List Call → Ptr
first_lock [] = none
first_lock (mutex_lock mutex ∷ more) = some mutex
first_lock (call ∷ more) = none

abbrev pub locks : ℕ → Ptr → Run (Unit {0})
locks mutex none = fault
locks mutex (some a) = if a == mutex then ok tt else fault

-- `calls` begin with the lock of the mutex, are in order for a thread that holds none, and leave it
-- without one.
abbrev pub ordered : ℕ → List Call → Run (Unit {0})
ordered mutex calls = elim (follow false calls) [
  | some false ↦ locks mutex (first_lock calls)
  | some true ↦ fault
  | none ↦ fault
]

-- `free(cur)` of the system's pool is the one of the other pool.
unfoldable pub step : Event → Server → Run Server
step (dispatches junk func arg) s = do
  (calls, h, p) ← dispatch s.heap s.pool junk func arg
  u ← ordered s.pool.mutex calls
  ok (record s { heap = h; pool = p })
step rounds s = do
  (calls, next, p) ← threadpool_scheduler s.heap s.pool
  u ← ordered s.pool.mutex calls
  ok (taken next (record s { pool = p }))
step (returns worker) s = do
  h ← free_link s.heap (busy_at worker s.busy)
  ok (record s { heap = h; busy = without worker s.busy })

unfoldable pub serve : List Event → Server → Run Server
unfolding step
serve [] s = ok s
serve (e ∷ es) s = do s' ← step e s; serve es s'

-- The tasks that the events dispatch.
abbrev pub dispatched : List Event → List Task
dispatched [] = []
dispatched (dispatches junk func arg ∷ es) = record { func = func; arg = arg } ∷ dispatched es
dispatched (rounds ∷ es) = dispatched es
dispatched (returns worker ∷ es) = dispatched es

-- With so many tasks queued, no worker goes round while the queue is empty.
abbrev pub Fed : ℕ → List Event → Type 0
Fed n [] = Unit
Fed n (dispatches junk func arg ∷ es) = Fed (n + 1) es
Fed n (rounds ∷ es) = (1 ≤ n) × Fed (n - 1) es
Fed n (returns worker ∷ es) = Fed n es
