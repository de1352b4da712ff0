-- ===== src/Pool/Dispatch.antt =====
-- `dispatch` of server/threadpool.c when no worker waits, up to its yield.
use operating_system_linux_t.Common.{
  ℕ, suc, ◌^◌, ◌<◌, ◌≡◌, refl, ◌∙◌, true, false, none, some, [], ◌∷◌, ◌++◌, ==_self, length, arith,
}
use operating_system_linux_t.Memory.{Run, ok, Ptr}
use operating_system_linux_t.Memory.Chain.{Cells, IsList}
use operating_system_linux_t.Links.{Links, link, new_link}
use operating_system_linux_t.Machine.{Machine, pure, lift, ◌>>=◌, after, set_mutex}
use operating_system_linux_t.Machine.Inv.{Unlocked}
use operating_system_linux_t.Lifecycle.{mypthread_yield}
use operating_system_linux_t.Sync.{mypthread_cond_signal, mypthread_mutex_unlock}
use operating_system_linux_t.Sync.Locking.{Waiters, lock_free}
use operating_system_linux_t.Sync.Unlocking.{unlock-Unlocks}
use operating_system_linux_t.Sync.Waking.{signal_none}
use operating_system_linux_t.Pool.{Task, Pool, push_task, enter_task, dispatch}
use operating_system_linux_t.Pool.Fifo.{Tasks, holds, Queued, Chained-put, push_task-Queued}

lift-ok : {A : Type 0} (c : Run A) (a : A) (m : Machine) → c ≡ ok a → lift c m ≡ ok (a, m)
lift-ok c a m e = rw e refl

-- The pool's mutex taken.
abbrev entered : ℕ → Machine → Machine
entered mutex m = set_mutex mutex (record (m.mutexes mutex) { lock = true }) m

enter_task-yield :
    (tid t : ℕ) (h : Links Task) (pool : Pool) (r : Links Task × Pool) (m m' : Machine)
    → push_task h pool t ≡ ok r
    → mypthread_cond_signal r.1.cond m ≡ ok (0, m)
    → mypthread_mutex_unlock r.1.mutex m ≡ ok (0, m')
    → enter_task tid h pool t m ≡ (mypthread_yield tid >>= λ o. pure (o, r.0, r.1)) m'
unfolding enter_task
enter_task-yield tid t h pool r m m' push signal unlock =
    after _ _ (lift-ok (push_task h pool t) r m push)
      (after _ _ signal (after _ _ signal (after _ _ unlock refl)))

dispatch-enter :
    (tid : ℕ) (h : Links Task) (pool : Pool) (junk func : Ptr) (arg : ℕ) (m : Machine)
    → Unlocked m
    → (m.mutexes pool.mutex).lock ≡ false
    → dispatch tid h pool junk func arg m
      ≡ enter_task tid
          (new_link h (record { func = func; arg = arg }) junk).1
          pool
          h.fresh
          (entered pool.mutex m)
unfolding dispatch
dispatch-enter tid h pool junk func arg m u free =
    after _ _ (lock_free tid pool.mutex m u free) refl

-- With the pool's mutex free, no thread waiting for the pool, so no idle worker, and a well-
-- formed queue below 2 ^ 31 - 1 tasks, dispatch does not block: it gets to its yield with the
-- task behind the others, the mutex and every semaphore free, no thread changed and the run
-- queue kept.
pub dispatch-yield :
    (tid : ℕ) (h : Links Task) (pool : Pool) (junk func : Ptr) (arg : ℕ) (xs : Tasks) (m : Machine)
    (qs : Cells)
    → Unlocked m
    → IsList m.nodes m.mypthread_q.head qs
    → (m.mutexes pool.mutex).lock ≡ false
    → (m.mutexes pool.mutex).blocked_q.head ≡ none
    → (m.conds pool.cond).cond_q.head ≡ none
    → Queued h pool xs
    → holds h.fresh xs ≡ false
    → suc (length xs) < 2 ^ 31
    → (r : Links Task × Pool) × (m' : Machine) × (dispatch tid h pool junk func arg m
        ≡ (mypthread_yield tid >>= λ o. pure (o, r.0, r.1)) m')
      × Queued r.0 r.1 (xs ++ (h.fresh, record { func = func; arg = arg }) ∷ [])
      × ((m'.mutexes pool.mutex).lock ≡ false)
      × ((t : ℕ) → m'.threads t ≡ m.threads t)
      × IsList m'.nodes m'.mypthread_q.head qs
      × Unlocked m'
dispatch-yield tid h pool junk func arg xs m qs u is free nb nc k out small =
    let task : Task = record { func = func; arg = arg } in
    let h₁ = (new_link h task junk).1 in
    let k₁ : Queued h₁ pool xs = record {
      front = k.front;
      rear = k.rear;
      chained = Chained-put h.cells h.fresh (some (link task junk)) xs out k.chained;
      count = k.count;
      few = k.few;
    } in
    let (r, push, queued, same_mutex, same_cond) =
      push_task-Queued h₁ pool xs h.fresh task junk k₁ (rw (==_self h.fresh) refl) out small in
    let m₁ = entered pool.mutex m in
    let u₁ : Unlocked m₁ = record {
      mypthread = u.mypthread;
      mutex = u.mutex;
      kthread = u.kthread;
      cond = u.cond;
    } in
    let w : Waiters m₁ pool.mutex none qs [] = record {
      list = record {
        starts = rw (==_self pool.mutex) nb;
        chain = tt;
        below = tt;
        few = omega arith;
      };
      tail = tt;
      lead = λ e. refl;
      apart = λ x i. refl;
    } in
    let (m', unlock, k') = unlock-Unlocks pool.mutex none m₁ qs [] u₁ is w in
    (
      r,
      m',
      dispatch-enter tid h pool junk func arg m u free
          ∙ enter_task-yield tid h.fresh h₁ pool r m₁ m' push
              (rw same_cond (signal_none pool.cond m₁ u₁ nc)) (rw same_mutex unlock),
      queued,
      k'.unlocked,
      k'.woken,
      k'.queue,
      k'.free,
    )
