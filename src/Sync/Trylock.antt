-- ===== src/Sync/Trylock.antt =====
-- `mypthread_mutex_trylock` of pthreads/mypthread.c, and the calls that follow it.
use operating_system_linux_t.Common.{ℕ, ◌≡◌, refl, true, false}
use operating_system_linux_t.Memory.{ok, blocked, mutex_sem, cond_sem}
use operating_system_linux_t.Machine.{Machine, after, stop-blocked, set_mutex}
use operating_system_linux_t.Machine.Ops.{sem_wait-one, sem_wait-blocked, sem_post_lem}
use operating_system_linux_t.Machine.Inv.{Unlocked}
use operating_system_linux_t.Sync.{
  mypthread_mutex_lock, mypthread_mutex_trylock, mypthread_mutex_unlock, mypthread_mutex_destroy,
  mypthread_cond_wait, cond_sleep, ebusy,
}

-- A free mutex is taken, and every semaphore is free again.
pub trylock_free :
    (mutex : ℕ) (m : Machine)
    → Unlocked m
    → (m.mutexes mutex).lock ≡ false
    → mypthread_mutex_trylock mutex m
      ≡ ok (0, set_mutex mutex (record (m.mutexes mutex) { lock = true }) m)
unfolding mypthread_mutex_trylock
trylock_free mutex m u l =
    after _ _ (sem_wait-one mutex_sem m u.mutex)
      (after _ _ refl (rw l (after _ _ refl (after _ _ (sem_post_lem mutex_sem _) (rw u.mutex)))))

-- A taken mutex is left alone, but the semaphore `mutex_sem` is not posted.
pub trylock_busy :
    (mutex : ℕ) (m : Machine)
    → Unlocked m
    → (m.mutexes mutex).lock ≡ true
    → mypthread_mutex_trylock mutex m ≡ ok (ebusy, record m { mutex_sem = 0 })
unfolding mypthread_mutex_trylock
trylock_busy mutex m u l = after _ _ (sem_wait-one mutex_sem m u.mutex) (after _ _ refl (rw l))

-- The calls that a kernel thread can make on mutexes and on waits for a condition.
pub record MutexCallsBlock (m : Machine) : Type 0 where
  pub lock : (tid mutex : ℕ) → mypthread_mutex_lock tid mutex m ≡ blocked mutex_sem
  pub trylock : (mutex : ℕ) → mypthread_mutex_trylock mutex m ≡ blocked mutex_sem
  pub unlock : (mutex : ℕ) → mypthread_mutex_unlock mutex m ≡ blocked mutex_sem
  pub destroy : (mutex : ℕ) → mypthread_mutex_destroy mutex m ≡ blocked mutex_sem
  pub wait : (tid cond mutex : ℕ) → mypthread_cond_wait tid cond mutex m ≡ blocked mutex_sem

blocks-lock :
    (m : Machine) (tid mutex : ℕ)
    → m.mutex_sem ≡ 0
    → mypthread_mutex_lock tid mutex m ≡ blocked mutex_sem
unfolding mypthread_mutex_lock
blocks-lock m tid mutex z = stop-blocked _ _ (sem_wait-blocked mutex_sem m z)

blocks-trylock :
    (m : Machine) (mutex : ℕ)
    → m.mutex_sem ≡ 0
    → mypthread_mutex_trylock mutex m ≡ blocked mutex_sem
unfolding mypthread_mutex_trylock
blocks-trylock m mutex z = stop-blocked _ _ (sem_wait-blocked mutex_sem m z)

pub blocks-unlock :
    (m : Machine) (mutex : ℕ) → m.mutex_sem ≡ 0 → mypthread_mutex_unlock mutex m ≡ blocked mutex_sem
unfolding mypthread_mutex_unlock
blocks-unlock m mutex z = stop-blocked _ _ (sem_wait-blocked mutex_sem m z)

blocks-destroy :
    (m : Machine) (mutex : ℕ)
    → m.mutex_sem ≡ 0
    → mypthread_mutex_destroy mutex m ≡ blocked mutex_sem
unfolding mypthread_mutex_destroy
blocks-destroy m mutex z = stop-blocked _ _ (sem_wait-blocked mutex_sem m z)

blocks-wait :
    (m : Machine) (tid cond mutex : ℕ)
    → m.mutex_sem ≡ 0
    → m.cond_sem ≡ 1
    → mypthread_cond_wait tid cond mutex m ≡ blocked mutex_sem
unfolding mypthread_cond_wait cond_sleep
blocks-wait m tid cond mutex z o =
    stop-blocked _ _
      (after _ _ (sem_wait-one cond_sem m o) (stop-blocked _ _ (blocks-unlock _ mutex z)))

-- With every semaphore free, a trylock of a taken mutex answers EBUSY with mutex_sem still
-- taken, and in that state every lock, trylock, unlock and destroy of any mutex and every wait
-- for a condition blocks on it.
pub trylock_busy-MutexCallsBlock :
    (mutex : ℕ) (m : Machine)
    → Unlocked m
    → (m.mutexes mutex).lock ≡ true
    → (m' : Machine) × (mypthread_mutex_trylock mutex m ≡ ok (ebusy, m')) × MutexCallsBlock m'
trylock_busy-MutexCallsBlock mutex m u l =
    let m' = record m { mutex_sem = 0 } in
    (
      m',
      trylock_busy mutex m u l,
      record {
        lock = λ tid x. blocks-lock m' tid x refl;
        trylock = λ x. blocks-trylock m' x refl;
        unlock = λ x. blocks-unlock m' x refl;
        destroy = λ x. blocks-destroy m' x refl;
        wait = λ tid c x. blocks-wait m' tid c x refl u.cond;
      },
    )
