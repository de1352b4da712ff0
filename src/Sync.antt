-- ===== src/Sync.antt =====
-- Mutexes and condition variables of pthreads/mypthread.c, and what a resumed thread does first.
-- `mutex` and `cond` are addresses of the caller's structs.
pub mod Exclusion
pub mod Locking
pub mod Trylock
pub mod Unlocking
pub mod Waiting
pub mod Waking
use operating_system_linux_t.Common.{ℕ, Bool, true, false, none, some}
use operating_system_linux_t.Memory.{
  Run, ok, fault, Sem, mypthread_sem, mutex_sem, cond_sem, Ptr, Heap, Ends, no_ends,
}
use operating_system_linux_t.Thread.{
  Thread, Mutex, Cond, Context, Resume, uninit, entry, lock_entry, saved, freed, in_yield, in_join,
  in_cond_wait, State, ps_blocked,
}
use operating_system_linux_t.Queue
use operating_system_linux_t.Machine.{
  Machine, M, pure, ◌>>=◌, ◌>>◌, get, modify, lift, deref, set_ctx, set_status, set_mutex, set_cond,
}
use operating_system_linux_t.Machine.Ops.{sem_wait, sem_post, mypthread_enqueue, get_kthread}
use operating_system_linux_t.Scheduler.{
  Mode, set_mode, swap_mode, Outcome, returned, running, sleeping, mythread_scheduler, and_return,
}
use operating_system_linux_t.Lifecycle.{current_thread}

unfoldable pub mypthread_mutex_init : ℕ → M ℕ
mypthread_mutex_init mutex = do
  modify (set_mutex mutex (record { lock = false; blocked_q = no_ends }))
  pure 0

unfoldable pub mypthread_mutex_destroy : ℕ → M ℕ
mypthread_mutex_destroy mutex = do
  sem_wait mutex_sem
  _ ← mypthread_mutex_init mutex
  sem_post mutex_sem
  pure 0

-- `ll_add` on the mutex's list of blocked threads.
unfoldable pub block_on_mutex : ℕ → ℕ → M (Unit {0})
block_on_mutex mutex t = do
  m ← get
  (h, e) ← lift (Queue.ll_add t m.nodes (m.mutexes mutex).blocked_q)
  modify (λ n. record n { nodes = h })
  modify (set_mutex mutex (record (m.mutexes mutex) { blocked_q = e }))

unfoldable pub mypthread_mutex_lock : ℕ → ℕ → M Outcome
mypthread_mutex_lock tid mutex = do
  sem_wait mutex_sem
  m ← get
  elim (m.mutexes mutex).lock [
    | false ↦ do
      modify (set_mutex mutex (record (m.mutexes mutex) { lock = true }))
      sem_post mutex_sem
      pure (returned 0)
    | true ↦ do
      kp ← get_kthread tid
      t ← current_thread kp
      modify (set_status t ps_blocked)
      block_on_mutex mutex t
      modify (set_ctx t (lock_entry mutex))
      sem_wait mypthread_sem
      mypthread_enqueue t
      sem_post mypthread_sem
      sem_post mutex_sem
      k ← deref kp
      and_return (mythread_scheduler k set_mode) 0
  ]

-- EBUSY of errno.h
abbrev pub ebusy : ℕ
ebusy = 16

unfoldable pub mypthread_mutex_trylock : ℕ → M ℕ
mypthread_mutex_trylock mutex = do
  sem_wait mutex_sem
  m ← get
  elim (m.mutexes mutex).lock [
    | false ↦ do
      modify (set_mutex mutex (record (m.mutexes mutex) { lock = true }))
      sem_post mutex_sem
      pure 0
    | true ↦ pure ebusy
  ]

-- `ll_free` on the mutex's list of blocked threads.
unfoldable pub release_blocked : ℕ → M (Unit {0})
release_blocked mutex = do
  m ← get
  (h, e, ts) ← lift (Queue.ll_free m.nodes (m.mutexes mutex).blocked_q m.threads)
  modify (λ n. record n { nodes = h; threads = ts })
  modify (set_mutex mutex (record (m.mutexes mutex) { blocked_q = e }))

unfoldable pub mypthread_mutex_unlock : ℕ → M ℕ
mypthread_mutex_unlock mutex = do
  sem_wait mutex_sem
  m ← get
  modify (set_mutex mutex (record (m.mutexes mutex) { lock = false }))
  release_blocked mutex
  sem_post mutex_sem
  pure 0

unfoldable pub mypthread_cond_init : ℕ → M ℕ
mypthread_cond_init cond = do modify (set_cond cond (record { cond_q = no_ends })); pure 0

unfoldable pub mypthread_cond_destroy : ℕ → M ℕ
mypthread_cond_destroy cond = do
  sem_wait cond_sem
  _ ← mypthread_cond_init cond
  sem_post cond_sem
  pure 0

-- `ll_free` on the threads that wait for the condition.
unfoldable pub release_waiting : ℕ → M (Unit {0})
release_waiting cond = do
  m ← get
  (h, e, ts) ← lift (Queue.ll_free m.nodes (m.conds cond).cond_q m.threads)
  modify (λ n. record n { nodes = h; threads = ts })
  modify (set_cond cond (record { cond_q = e }))

unfoldable pub mypthread_cond_broadcast : ℕ → M ℕ
mypthread_cond_broadcast cond = do
  sem_wait cond_sem
  sem_wait mypthread_sem
  release_waiting cond
  sem_post mypthread_sem
  sem_post cond_sem
  pure 0

-- `ll_free_one` on the threads that wait for the condition: the tail is not passed.
unfoldable pub release_one : ℕ → M (Unit {0})
release_one cond = do
  m ← get
  (h, p, ts) ← lift (Queue.ll_free_one m.nodes (m.conds cond).cond_q.head m.threads)
  modify (λ n. record n { nodes = h; threads = ts })
  modify (set_cond cond (record { cond_q = record ((m.conds cond).cond_q) { head = p } }))

unfoldable pub mypthread_cond_signal : ℕ → M ℕ
mypthread_cond_signal cond = do
  sem_wait cond_sem
  sem_wait mypthread_sem
  release_one cond
  sem_post mypthread_sem
  sem_post cond_sem
  pure 0

-- `ll_add` on the threads that wait for the condition.
unfoldable pub wait_on_cond : ℕ → ℕ → M (Unit {0})
wait_on_cond cond t = do
  m ← get
  (h, e) ← lift (Queue.ll_add t m.nodes (m.conds cond).cond_q)
  modify (λ n. record n { nodes = h })
  modify (set_cond cond (record { cond_q = e }))

-- `mypthread_cond_wait` up to the call of the scheduler.
unfoldable pub cond_sleep : ℕ → ℕ → ℕ → M ℕ
cond_sleep tid cond mutex = do
  sem_wait cond_sem
  _ ← mypthread_mutex_unlock mutex
  kp ← get_kthread tid
  t ← current_thread kp
  modify (set_status t ps_blocked)
  wait_on_cond cond t
  sem_wait mypthread_sem
  mypthread_enqueue t
  sem_post mypthread_sem
  sem_post cond_sem
  deref kp

unfoldable pub mypthread_cond_wait : ℕ → ℕ → ℕ → M Outcome
mypthread_cond_wait tid cond mutex = do
  k ← cond_sleep tid cond mutex
  o ← mythread_scheduler k (swap_mode (in_cond_wait mutex))
  elim o [
    | returned _ ↦ and_return (mypthread_mutex_lock tid mutex) 0
    | running t x ↦ pure (running t x)
    | sleeping j l w ↦ pure (sleeping j l w)
  ]

-- What kernel thread `tid` does first when it runs thread `t` from a context: the thread's start
-- routine, which stays as it is, a call of `mypthread_mutex_lock`, which has no caller to return to,
-- or the rest of the library call that swapped the thread out.
unfoldable pub resume : ℕ → ℕ → Context → M Outcome
resume tid t uninit = λ m. fault
resume tid t (entry routine arg) = pure (running t (entry routine arg))
resume tid t (lock_entry mutex) = mypthread_mutex_lock tid mutex
resume tid t (saved in_yield) = pure (returned 0)
resume tid t (saved in_join) = pure (returned 0)
resume tid t (saved (in_cond_wait mutex)) = and_return (mypthread_mutex_lock tid mutex) 0
resume tid t freed = λ m. fault
