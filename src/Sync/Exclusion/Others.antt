-- ===== src/Sync/Exclusion/Others.antt =====
-- The `lock` fields in the rest of the calls on mutexes and condition variables of
-- pthreads/mypthread.c.
use operating_system_linux_t.Common.{
  ℕ, ◌≡◌, refl, ap, ◌∙◌, sym, Bool, true, false, ◌==◌, if◌then◌else◌, arith,
}
use operating_system_linux_t.Memory.{mypthread_sem, mutex_sem, cond_sem}
use operating_system_linux_t.Thread.{in_cond_wait}
use operating_system_linux_t.Queue
use operating_system_linux_t.Machine.{Machine, M, pure, ◌>>=◌, ◌>>◌, modify, set_mutex}
use operating_system_linux_t.Machine.Ops.{sem_post}
use operating_system_linux_t.Machine.Gives.{
  Gives, Gives-bind, Gives-mono, Gives-get, Gives-lift, Gives-modify, SameLocks, Keeps, Keeps-bind,
  Keeps-deref,
}
use operating_system_linux_t.Machine.Gives.Ops.{
  sem_wait-Keeps, sem_post-Keeps, pure-Keeps, mypthread_enqueue-Keeps, get_kthread-Keeps,
}
use operating_system_linux_t.Scheduler.{Outcome, returned, running, sleeping, swap_mode, and_return}
use operating_system_linux_t.Scheduler.Keeps.{mythread_scheduler-Keeps}
use operating_system_linux_t.Scheduler.Leaves.{is_returned, and_return-Gives}
use operating_system_linux_t.Lifecycle.Keeps.{current_thread-Keeps}
use operating_system_linux_t.Sync.{
  mypthread_mutex_init, mypthread_mutex_destroy, mypthread_mutex_lock, ebusy,
  mypthread_mutex_trylock, mypthread_mutex_unlock, mypthread_cond_init, mypthread_cond_destroy,
  release_waiting, release_one, wait_on_cond, mypthread_cond_broadcast, mypthread_cond_signal,
  cond_sleep, mypthread_cond_wait,
}
use operating_system_linux_t.Sync.Exclusion.Calls.{
  SetLock, update-lock, SetLock-after, SetLock-before, unlock-SetLock, LockEnds, took, left,
  Locking, lock-LockEnds,
}

pub init-SetLock :
    (a : ℕ) (m : Machine) → Gives (λ _ m'. SetLock a false m m') (mypthread_mutex_init a m)
unfolding mypthread_mutex_init ◌>>=◌
init-SetLock a m = λ x. update-lock m.mutexes a x _

pub destroy-SetLock :
    (a : ℕ) (m : Machine) → Gives (λ _ m'. SetLock a false m m') (mypthread_mutex_destroy a m)
unfolding mypthread_mutex_destroy
destroy-SetLock a = SetLock-after a false _ _ (sem_wait-Keeps mutex_sem) (λ _.
    SetLock-before a false (mypthread_mutex_init a) _ (init-SetLock a)
      (λ _. Keeps-bind _ _ (sem_post-Keeps mutex_sem) (λ _. pure-Keeps {A = ℕ} 0)))

-- How a `mypthread_mutex_trylock` ends.
pub data TryEnds (a : ℕ) (m : Machine) (v : ℕ) (m' : Machine) : Type 0 where
  taken : v ≡ 0 → (m.mutexes a).lock ≡ false → SetLock a true m m' → TryEnds a m v m'
  busy : v ≡ ebusy → SameLocks m m' → TryEnds a m v m'

trylock-cases :
    (a : ℕ) (m : Machine) (b : Bool)
    → (m.mutexes a).lock ≡ b
    → (let go : M ℕ = elim b [
      | false ↦ do
        modify (set_mutex a (record (m.mutexes a) { lock = true }))
        sem_post mutex_sem
        pure 0
      | true ↦ pure ebusy
    ] in
        Gives (TryEnds a m) (go m))
unfolding ◌>>=◌ sem_post
trylock-cases a m false free = taken refl free (λ x. update-lock m.mutexes a x _)
trylock-cases a m true held = busy refl (λ x. refl)

TryEnds-before :
    {a : ℕ} {m n : Machine} {v : ℕ} {m' : Machine}
    → SameLocks m n
    → TryEnds a n v m'
    → TryEnds a m v m'
TryEnds-before {a} s (taken e free set) =
    taken e (sym (s a) ∙ free) (λ x. set x ∙ ap (λ l. if a == x then true else l) (s x))
TryEnds-before s (busy e same) = busy e (λ x. same x ∙ s x)

pub trylock-TryEnds : (a : ℕ) (m : Machine) → Gives (TryEnds a m) (mypthread_mutex_trylock a m)
unfolding mypthread_mutex_trylock
trylock-TryEnds a m =
    Gives-bind (λ _ n. SameLocks m n) (TryEnds a m) _ _ m (sem_wait-Keeps mutex_sem m)
      (λ _ n s.
        Gives-mono (TryEnds a n) (TryEnds a m) _
          (Gives-get (TryEnds a n) _ n (trylock-cases a n (n.mutexes a).lock refl))
          (λ v m' e. TryEnds-before s e))

pub cond_init-Keeps : (c : ℕ) → Keeps (mypthread_cond_init c)
unfolding mypthread_cond_init
cond_init-Keeps c = Keeps-bind _ _ (λ n x. refl) (λ _. pure-Keeps {A = ℕ} 0)

pub cond_destroy-Keeps : (c : ℕ) → Keeps (mypthread_cond_destroy c)
unfolding mypthread_cond_destroy
cond_destroy-Keeps c = Keeps-bind _ _ (sem_wait-Keeps cond_sem) (λ _.
    Keeps-bind _ _ (cond_init-Keeps c)
      (λ _. Keeps-bind _ _ (sem_post-Keeps cond_sem) (λ _. pure-Keeps {A = ℕ} 0)))

release_waiting-Keeps : (c : ℕ) → Keeps (release_waiting c)
unfolding release_waiting
release_waiting-Keeps c m =
    let Q : Unit {0} → Machine → Type 0 = λ _ m'. SameLocks m m' in
    Gives-get Q _ m (
      Gives-lift Q (Queue.ll_free m.nodes (m.conds c).cond_q m.threads) _ m
        (λ r. Gives-modify Q _ _ m (λ x. refl)))

release_one-Keeps : (c : ℕ) → Keeps (release_one c)
unfolding release_one
release_one-Keeps c m =
    let Q : Unit {0} → Machine → Type 0 = λ _ m'. SameLocks m m' in
    Gives-get Q _ m (
      Gives-lift Q (Queue.ll_free_one m.nodes (m.conds c).cond_q.head m.threads) _ m
        (λ r. Gives-modify Q _ _ m (λ x. refl)))

wait_on_cond-Keeps : (c t : ℕ) → Keeps (wait_on_cond c t)
unfolding wait_on_cond
wait_on_cond-Keeps c t m =
    let Q : Unit {0} → Machine → Type 0 = λ _ m'. SameLocks m m' in
    Gives-get Q _ m (
      Gives-lift Q (Queue.ll_add t m.nodes (m.conds c).cond_q) _ m
        (λ r. Gives-modify Q _ _ m (λ x. refl)))

pub broadcast-Keeps : (c : ℕ) → Keeps (mypthread_cond_broadcast c)
unfolding mypthread_cond_broadcast
broadcast-Keeps c = Keeps-bind _ _ (sem_wait-Keeps cond_sem) (λ _.
    Keeps-bind _ _ (sem_wait-Keeps mypthread_sem) (λ _.
      Keeps-bind _ _ (release_waiting-Keeps c) (λ _.
        Keeps-bind _ _ (sem_post-Keeps mypthread_sem)
          (λ _. Keeps-bind _ _ (sem_post-Keeps cond_sem) (λ _. pure-Keeps {A = ℕ} 0)))))

pub signal-Keeps : (c : ℕ) → Keeps (mypthread_cond_signal c)
unfolding mypthread_cond_signal
signal-Keeps c = Keeps-bind _ _ (sem_wait-Keeps cond_sem) (λ _.
    Keeps-bind _ _ (sem_wait-Keeps mypthread_sem) (λ _. Keeps-bind _ _ (release_one-Keeps c) (λ _.
      Keeps-bind _ _ (sem_post-Keeps mypthread_sem)
        (λ _. Keeps-bind _ _ (sem_post-Keeps cond_sem) (λ _. pure-Keeps {A = ℕ} 0)))))

cond_sleep-SetLock :
    (tid c a : ℕ) (m : Machine) → Gives (λ _ m'. SetLock a false m m') (cond_sleep tid c a m)
unfolding cond_sleep
cond_sleep-SetLock tid c a = SetLock-after a false _ _ (sem_wait-Keeps cond_sem) (λ _.
    SetLock-before a false (mypthread_mutex_unlock a) _ (unlock-SetLock a) (λ _.
      Keeps-bind _ _ (get_kthread-Keeps tid) (λ kp. Keeps-bind _ _ (current_thread-Keeps kp) (λ t.
        Keeps-bind _ _ (λ n x. refl)
          (λ _. Keeps-bind _ _ (wait_on_cond-Keeps c t) (λ _.
            Keeps-bind _ _ (sem_wait-Keeps mypthread_sem) (λ _.
              Keeps-bind _ _ (mypthread_enqueue-Keeps t) (λ _.
                Keeps-bind _ _ (sem_post-Keeps mypthread_sem)
                  (λ _. Keeps-bind _ _ (sem_post-Keeps cond_sem) (λ _. Keeps-deref kp))))))))))

SetLock-left :
    (a : ℕ) (m n : Machine) {b : Bool} {m' : Machine}
    → SetLock a false m n
    → LockEnds a n b m'
    → b ≡ false
    → SetLock a false m m'
SetLock-left a m n s (took e free set) stays = absurd (ground (arith, e, stays))
SetLock-left a m n s (left same back) stays = λ x. same x ∙ s x

wait-cases :
    (tid a : ℕ) (m n : Machine) (o : Outcome)
    → SetLock a false m n
    → (let go : M Outcome = elim o [
      | returned _ ↦ and_return (mypthread_mutex_lock tid a) 0
      | running t x ↦ pure (running t x)
      | sleeping j l w ↦ pure (sleeping j l w)
    ] in
        Gives (λ o' m'. is_returned o' ≡ false → SetLock a false m m') (go n))
wait-cases tid a m n (returned v) s =
    and_return-Gives (λ b m'. b ≡ false → SetLock a false m m') (mypthread_mutex_lock tid a) 0 n
      (Gives-mono (Locking a n) (λ o m'. is_returned o ≡ false → SetLock a false m m') _
        (lock-LockEnds tid a n) (λ o m' e stays. SetLock-left a m n s e stays))
wait-cases tid a m n (running t x) s = λ _. s
wait-cases tid a m n (sleeping j l w) s = λ _. s

-- A wait that gives up the processor has freed the mutex.
pub wait-SetLock :
    (tid c a : ℕ) (m : Machine)
    → Gives (λ o m'. is_returned o ≡ false → SetLock a false m m') (mypthread_cond_wait tid c a m)
unfolding mypthread_cond_wait
wait-SetLock tid c a m =
    let Q : Outcome → Machine → Type 0 = λ o m'. is_returned o ≡ false → SetLock a false m m' in
    Gives-bind (λ _ n. SetLock a false m n) Q _ _ m (cond_sleep-SetLock tid c a m)
      (λ k n s.
        Gives-bind (λ _ n'. SameLocks n n') Q _ _ n
          (mythread_scheduler-Keeps k (swap_mode (in_cond_wait a)) n)
          (λ o n' t. wait-cases tid a m n' o (λ x. t x ∙ s x)))
