-- ===== src/Pool/Trial.antt =====
-- The trials of the pool, server/threadpool_test.c and server/threadpool_test_pthread.c: a pool of two
-- workers that gets two batches of three tasks. Printing and sleeping are left out.
use operating_system_linux_t.Common.{ℕ, Option, none, some, List, [], ◌∷◌, ◌++◌}
use operating_system_linux_t.Memory.{Run, ok, fault, Ptr, ◌>>=◌}
use operating_system_linux_t.Links.{Links}
use operating_system_linux_t.Machine.{M, pure}
use operating_system_linux_t.Machine as Machine
use operating_system_linux_t.Scheduler.{Outcome, returned, running, sleeping}
use operating_system_linux_t.Pool.{Task, Pool, create_threadpool, dispatch, destroy_threadpool}
use operating_system_linux_t.Pool.System
use operating_system_linux_t.Pool.System.{Call}

-- The arguments of a batch.
abbrev pub batch : List ℕ
batch = 3 ∷ 6 ∷ 7 ∷ []

-- The calls of `dispatch` in a row, for these arguments. One that gives up the processor leaves the
-- others for later.
unfoldable pub dispatch_all :
    (tid : ℕ) → (routine : Ptr) → List ℕ → Links Task → Pool → M (Outcome × Links Task × Pool)
dispatch_all tid routine [] h pool = pure (returned 0, h, pool)
dispatch_all tid routine (seconds ∷ args) h pool =
    Machine.◌>>=◌ (dispatch tid h pool none routine seconds) (λ (o, h', pool'). elim o [
      | returned _ ↦ dispatch_all tid routine args h' pool'
      | running t x ↦ pure (running t x, h', pool')
      | sleeping k l w ↦ pure (sleeping k l w, h', pool')
    ])

-- `main` with the thread library; a pool that could not be made is a NULL that `dispatch` reads.
unfoldable pub main :
    (tid mode cores hyper : ℕ)
    → (ℕ → Option ℕ)
    → (scheduler : ℕ) → (arg : ℕ) → (routine : Ptr) → Links Task
    → Pool
    → M (Outcome × Links Task × Pool)
unfolding dispatch_all
main tid mode cores hyper pids scheduler arg routine h junk =
    Machine.◌>>=◌ (create_threadpool tid mode cores hyper pids scheduler arg junk 2) (λ made.
      elim made [
        | none ↦ (λ m. fault)
        | some pool ↦
            Machine.◌>>=◌ (dispatch_all tid routine (batch ++ batch) h pool) (λ (o, h', pool').
              elim o [
                | returned _ ↦
                    Machine.◌>>=◌ (destroy_threadpool tid pool') (λ o'. pure (o', h', pool'))
                | running t x ↦ pure (running t x, h', pool')
                | sleeping k l w ↦ pure (sleeping k l w, h', pool')
              ])
      ])

-- The same calls on the system's threads, with the calls of pthread.h that they make.
unfoldable pub dispatch_each :
    (routine : Ptr) → List ℕ → Links Task → Pool → Run (List Call × Links Task × Pool)
dispatch_each routine [] h pool = ok ([], h, pool)
dispatch_each routine (seconds ∷ args) h pool = do
  (calls, h', pool') ← System.dispatch h pool none routine seconds
  (more, h'', pool'') ← dispatch_each routine args h' pool'
  ok (calls ++ more, h'', pool'')

-- `main` on the system's threads: it ends without destroying the pool.
unfoldable pub system_main :
    (made ready : ℕ)
    → (ℕ → ℕ)
    → (scheduler arg : ℕ) → (routine : Ptr) → Links Task
    → Pool
    → Run (List Call × Links Task × Pool)
unfolding dispatch_each
system_main made ready answer scheduler arg routine h junk =
    let (calls, pool) = System.create_threadpool made ready answer scheduler arg junk 2 in
    elim pool [
      | none ↦ fault
      | some p ↦ do
        (more, h', p') ← dispatch_each routine (batch ++ batch) h p
        ok (calls ++ more, h', p')
    ]
