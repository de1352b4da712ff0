-- ===== src/Pool/System/Calls.antt =====
-- The calls that server/threadpool_pthread.c makes, against what pthread.h asks of their order.
use operating_system_linux_t.Common.{
  ℕ, suc, ◌^◌, ◌<◌, ◌≡◌, refl, Bool, true, false, Option, none, some, List, [], ◌∷◌, ◌++◌, ◌==◌,
  ==_self, Bool-cases, inl, inr, if◌then◌else◌, length, arith,
}
use operating_system_linux_t.Memory.{ok, Ptr}
use operating_system_linux_t.Links.{Links, link, new_link}
use operating_system_linux_t.Pool.{Task, Pool, push_task, take_task}
use operating_system_linux_t.Pool.Fifo.{
  Tasks, holds, Queued, Chained-put, push_task-Queued, take_task-Queued,
}
use operating_system_linux_t.Pool.System.{
  Call, mutex_lock, mutex_unlock, cond_wait, cond_signal, await_task, threadpool_scheduler,
  dispatch,
}

-- Follows whether the caller holds the mutex: a lock needs it free, an unlock and a wait need it
-- held, and a wait comes back with it held. `none` where a call is out of order.
abbrev pub follow : Bool → List Call → Option Bool
follow held [] = some held
follow held (mutex_lock _ ∷ more) = if held then none else follow true more
follow held (mutex_unlock _ ∷ more) = if held then follow false more else none
follow held (cond_wait _ _ ∷ more) = if held then follow true more else none
follow held (_ ∷ more) = follow held more

-- A worker that finds no task waits for the condition without the mutex.
pub threadpool_scheduler-idle :
    (h : Links Task) (pool : Pool)
    → Queued h pool []
    → (calls : List Call) × (threadpool_scheduler h pool ≡ ok (calls, none, pool))
      × (follow false calls ≡ none)
unfolding threadpool_scheduler await_task
threadpool_scheduler-idle h pool k = (
  mutex_lock pool.mutex ∷ mutex_unlock pool.mutex ∷ cond_wait pool.cond pool.mutex ∷ [],
  rw k.count refl,
  refl,
)

-- The calls of a worker that takes a task.
abbrev taking : Pool → Pool → List Call
taking pool p =
    mutex_lock pool.mutex
    ∷ ((if p.no_of_tasks_in_q == 0 then cond_signal p.cond ∷ [] else [])
        ++ mutex_unlock p.mutex ∷ [])

in_order : (pool p : Pool) → follow false (taking pool p) ≡ some false
in_order pool p = elim (Bool-cases (p.no_of_tasks_in_q == 0)) [
  | inl z ↦ rw z refl
  | inr nz ↦ rw nz refl
]

some_left : (c n : ℕ) → c ≡ suc n → (c == 0) ≡ false
some_left c n e = ground (arith, e)

await_run :
    (h : Links Task) (pool p : Pool) (a : ℕ) (t : Task) {q : Ptr}
    → (pool.no_of_tasks_in_q == 0) ≡ false
    → take_task h pool ≡ ok (some a, p)
    → h.cells a ≡ some (link t q)
    → await_task h pool
      ≡ ok (
        (if p.no_of_tasks_in_q == 0 then cond_signal p.cond ∷ [] else [])
            ++ mutex_unlock p.mutex ∷ [],
        some (some a, t),
        p,
      )
unfolding await_task
await_run h pool p a t ne run live = ground (arith, ne, run, live)

takes_run :
    (h : Links Task) (pool p : Pool) (a : ℕ) (t : Task) {q : Ptr}
    → (pool.no_of_tasks_in_q == 0) ≡ false
    → take_task h pool ≡ ok (some a, p)
    → h.cells a ≡ some (link t q)
    → threadpool_scheduler h pool ≡ ok (taking pool p, some (some a, t), p)
unfolding threadpool_scheduler
takes_run h pool p a t ne run live = rw (await_run h pool p a t ne run live) refl

pub threadpool_scheduler-takes :
    (h : Links Task) (pool : Pool) (a : ℕ) (t : Task) (xs : Tasks)
    → Queued h pool ((a, t) ∷ xs)
    → (calls : List Call) × (p : Pool) × (threadpool_scheduler h pool
        ≡ ok (calls, some (some a, t), p))
      × (follow false calls ≡ some false)
      × Queued h p xs
threadpool_scheduler-takes h pool a t xs k =
    let (p, run, rest) = take_task-Queued h pool a t xs k in
    (
      taking pool p,
      p,
      takes_run h pool p a t (some_left pool.no_of_tasks_in_q (length xs) k.count) run k.chained.0,
      in_order pool p,
      rest,
    )

dispatch_run :
    (h : Links Task) (pool : Pool) (junk func : Ptr) (arg : ℕ) (r : Links Task × Pool)
    → push_task (new_link h (record { func = func; arg = arg }) junk).1 pool h.fresh ≡ ok r
    → dispatch h pool junk func arg
      ≡ ok (
        mutex_lock pool.mutex
            ∷ cond_signal r.1.cond
            ∷ cond_signal r.1.cond
            ∷ mutex_unlock r.1.mutex
            ∷ [],
        r.0,
        r.1,
      )
unfolding dispatch
dispatch_run h pool junk func arg r run = rw run refl

pub dispatch-Queued :
    (h : Links Task) (pool : Pool) (junk func : Ptr) (arg : ℕ) (xs : Tasks)
    → Queued h pool xs
    → holds h.fresh xs ≡ false
    → suc (length xs) < 2 ^ 31
    → (calls : List Call) × (r : Links Task × Pool) × (dispatch h pool junk func arg
        ≡ ok (calls, r.0, r.1))
      × (follow false calls ≡ some false)
      × Queued r.0 r.1 (xs ++ (h.fresh, record { func = func; arg = arg }) ∷ [])
dispatch-Queued h pool junk func arg xs k out small =
    let task : Task = record { func = func; arg = arg } in
    let h₁ = (new_link h task junk).1 in
    let k₁ : Queued h₁ pool xs = record {
      front = k.front;
      rear = k.rear;
      chained = Chained-put h.cells h.fresh (some (link task junk)) xs out k.chained;
      count = k.count;
      few = k.few;
    } in
    let (r, run, queued, _, _) =
      push_task-Queued h₁ pool xs h.fresh task junk k₁ (rw (==_self h.fresh) refl) out small in
    (
      mutex_lock pool.mutex
          ∷ cond_signal r.1.cond
          ∷ cond_signal r.1.cond
          ∷ mutex_unlock r.1.mutex
          ∷ [],
      r,
      dispatch_run h pool junk func arg r run,
      refl,
      queued,
    )
