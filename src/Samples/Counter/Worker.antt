-- ===== src/Samples/Counter/Worker.antt =====
-- One thread of pthreads/mypthread_sample4.c on the only kernel thread, from its start to the switch
-- to the next thread.
use operating_system_linux_t.Common.{
  ℕ, suc, ◌<◌, ◌^◌, ◌≡◌, refl, inl, inr, true, false, ◌&&◌, ◌⊎◌, none, [], ◌∷◌, ◌==◌, length, arith,
}
use operating_system_linux_t.Memory.{ok, mutex_sem, update}
use operating_system_linux_t.Memory.Chain.{Cells}
use operating_system_linux_t.Thread.{Threads, Mutex, is_active, ps_dead}
use operating_system_linux_t.Queue.{ll_free}
use operating_system_linux_t.Queue.Lookup.{any_item}
use operating_system_linux_t.Queue.Wake.{Woken}
use operating_system_linux_t.Machine.{Machine, ◌>>=◌, after, inc, set_status, set_mutex}
use operating_system_linux_t.Machine.Ops.{sem_wait-one, sem_post_lem}
use operating_system_linux_t.Machine.Inv.{Unlocked, Lists, Current}
use operating_system_linux_t.Scheduler.{Outcome}
use operating_system_linux_t.Lifecycle.{mypthread_exit}
use operating_system_linux_t.Lifecycle.Exit.{exited_state}
use operating_system_linux_t.Sync.{mypthread_mutex_unlock, release_blocked}
use operating_system_linux_t.Sync.Locking.{lock_free}
use operating_system_linux_t.Samples.Counter.{thread_function}

-- The only kernel thread `k` runs thread `t`, `qs` are queued, and the mutex is free.
pub record Going (mutex tid x k t : ℕ) (m : Machine) (qs : Cells) : Type 0 where
  pub free : Unlocked m
  pub lists : Lists m qs ((x, k) ∷ [])
  pub current : Current m ((x, k) ∷ []) tid k t
  pub lock : (m.mutexes mutex).lock ≡ false
  pub waiters : (m.mutexes mutex).blocked_q.head ≡ none
  pub count : m.mypthread_count ≡ suc (length qs)
  pub small : length qs < 2 ^ 31

-- Every queued thread is active, or waits for the thread with the id.
abbrev pub Ready : Threads → ℕ → Cells → Type 0
Ready ts id [] = Unit
Ready ts id ((a, u) ∷ xs) =
    ((is_active (ts u).state ≡ true) ⊎ (((ts u).dependent_th == id) ≡ true)) × Ready ts id xs

abbrev pub Active : Threads → Cells → Type 0
Active ts [] = Unit
Active ts ((a, u) ∷ xs) = (is_active (ts u).state ≡ true) × Active ts xs

-- Ids are kept, and the contexts of all threads but `t`.
abbrev pub Kept : ℕ → Threads → Threads → Type 0
Kept t ts ts' =
    (u : ℕ) → ((ts' u).th_id ≡ (ts u).th_id) × ((t == u) ≡ false → (ts' u).ctx ≡ (ts u).ctx)

release_empty :
    (a : ℕ) (m : Machine)
    → (m.mutexes a).blocked_q.head ≡ none
    → release_blocked a m ≡ ok (tt, set_mutex a (m.mutexes a) m)
unfolding release_blocked ll_free ◌>>=◌
release_empty a m empty = rw empty refl

-- The table of mutexes after a lock and an unlock.
abbrev pub unlocked : ℕ → Machine → ℕ → Mutex
unlocked a m =
    let ms = update m.mutexes a (record (m.mutexes a) { lock = false }) in update ms a (ms a)

-- An unlock of a mutex without waiting threads.
unlock_empty :
    (a : ℕ) (m : Machine)
    → m.mutex_sem ≡ 1
    → (m.mutexes a).blocked_q.head ≡ none
    → mypthread_mutex_unlock a m ≡ ok (0, record m { mutexes = unlocked a m })
unfolding mypthread_mutex_unlock
unlock_empty a m one empty = after _ _ (sem_wait-one mutex_sem m one) (
    after _ _ refl (
      after _ _ refl (
        after _ _ (release_empty a _ (ground (arith, empty)))
          (after _ _ (sem_post_lem mutex_sem _) (rw one refl)))))

pub unlocked-free :
    (a : ℕ) (m : Machine)
    → (m.mutexes a).blocked_q.head ≡ none
    → ((unlocked a m a).lock ≡ false) × ((unlocked a m a).blocked_q.head ≡ none)
unlocked-free a m empty = (ground arith, ground (arith, empty))

-- `thread_function` with a free mutex that no thread waits for, up to its exit.
pub function-exit :
    (tid a c : ℕ) (m : Machine) {o : Outcome} {m' : Machine}
    → Unlocked m
    → (m.mutexes a).lock ≡ false
    → (m.mutexes a).blocked_q.head ≡ none
    → (let l = set_mutex a (record (m.mutexes a) { lock = true }) m in
        mypthread_exit tid (record m { mutexes = unlocked a l }) ≡ ok (o, m'))
    → thread_function tid a c m ≡ ok ((o, inc c), m')
unfolding thread_function
function-exit tid a c m u free empty run =
    after _ _ (lock_free tid a m u free)
      (after _ _ (unlock_empty a _ u.mutex (ground (arith, empty))) (after _ _ run refl))

-- The threads that an exit of `t` leaves, with the threads woken that wait for it.
module _ (t : ℕ) (m : Machine) (qs : Cells) (ts : Threads)
    (woken : Woken
      (λ x.
        any_item (λ u. u == x) qs
        && (((set_status t ps_dead m).threads x).dependent_th == (m.threads t).th_id))
      (set_status t ps_dead m).threads
      ts) where
  pub exit-Kept : Kept t m.threads (exited_state t ts m).threads
  exit-Kept u = (ground (arith, woken u), λ ne. ground (arith, woken u, ne))

  exit_one-Active :
      (u : ℕ)
      → (t == u) ≡ false
      → any_item (λ v. v == u) qs ≡ true
      → (is_active (m.threads u).state ≡ true)
        ⊎ (((m.threads u).dependent_th == (m.threads t).th_id) ≡ true)
      → is_active ((exited_state t ts m).threads u).state ≡ true
  exit_one-Active u ne in' (inl on) = ground (arith, woken u, ne, in', on)
  exit_one-Active u ne in' (inr dep) = ground (arith, woken u, ne, in', dep)

  pub exit-Active :
      (xs : Cells)
      → ((u : ℕ) → any_item (λ v. v == u) xs ≡ true → any_item (λ v. v == u) qs ≡ true)
      → any_item (λ u. u == t) xs ≡ false
      → Ready m.threads (m.threads t).th_id xs
      → Active (exited_state t ts m).threads xs
  exit-Active [] sub out ready = tt
  exit-Active ((a, u) ∷ xs) sub out ready = (
    exit_one-Active u (ground (arith, out)) (sub u (ground arith)) ready.0,
    exit-Active xs (λ v h. sub v (ground (arith, h))) (ground (arith, out)) ready.1,
  )
