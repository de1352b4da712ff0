-- ===== src/Sync/Exclusion/Calls.antt =====
-- What the mutex calls of pthreads/mypthread.c do to the `lock` fields, whatever way they end.
use operating_system_linux_t.Common.{
  ℕ, ◌≡◌, refl, ap, ◌∙◌, sym, subst, Bool, Bool-cases, true, false, inl, inr, ◌==◌, ==_iff,
  if◌then◌else◌,
}
use operating_system_linux_t.Memory.{mypthread_sem, mutex_sem, update}
use operating_system_linux_t.Thread.{Mutex, ps_blocked, lock_entry}
use operating_system_linux_t.Queue
use operating_system_linux_t.Machine.{
  Machine, M, pure, ◌>>=◌, ◌>>◌, modify, deref, set_mutex, set_status, set_ctx,
}
use operating_system_linux_t.Machine.Ops.{sem_wait, sem_post, mypthread_enqueue, get_kthread}
use operating_system_linux_t.Machine.Gives.{
  Gives, Gives-bind, Gives-mono, Gives-both, Gives-get, Gives-lift, Gives-modify, SameLocks, Keeps,
  Keeps-bind, Keeps-deref,
}
use operating_system_linux_t.Machine.Gives.Ops.{
  sem_wait-Keeps, sem_post-Keeps, pure-Keeps, mypthread_enqueue-Keeps, get_kthread-Keeps,
}
use operating_system_linux_t.Scheduler.{Outcome, returned, set_mode, mythread_scheduler, and_return}
use operating_system_linux_t.Scheduler.Keeps.{mythread_scheduler-Keeps}
use operating_system_linux_t.Scheduler.Leaves.{
  is_returned, mythread_scheduler-returned, and_return-Gives,
}
use operating_system_linux_t.Lifecycle.{current_thread}
use operating_system_linux_t.Lifecycle.Keeps.{current_thread-Keeps}
use operating_system_linux_t.Sync.{
  block_on_mutex, mypthread_mutex_lock, release_blocked, mypthread_mutex_unlock,
}

-- Mutex `a` is now locked or free as `v` says, and the others are as they were.
abbrev pub SetLock : ℕ → Bool → Machine → Machine → Type 0
SetLock a v m m' = (x : ℕ) → (m'.mutexes x).lock ≡ (if a == x then v else (m.mutexes x).lock)

pub update-lock :
    (f : ℕ → Mutex) (a x : ℕ) (v : Mutex)
    → (update f a v x).lock ≡ (if a == x then v.lock else (f x).lock)
update-lock f a x v = elim (Bool-cases (a == x)) [ inl e ↦ rw e refl | inr e ↦ rw e refl ]

update-same :
    (f : ℕ → Mutex) (a x : ℕ) (v : Mutex) → v.lock ≡ (f a).lock → (update f a v x).lock ≡ (f x).lock
update-same f a x v same = elim (Bool-cases (a == x)) [
  | inl e ↦ rw e (subst (λ y. v.lock ≡ (f y).lock) ((==_iff a x).0 e) same)
  | inr e ↦ rw e refl
]

block_on_mutex-Keeps : (a t : ℕ) → Keeps (block_on_mutex a t)
unfolding block_on_mutex
block_on_mutex-Keeps a t m =
    let Q : Unit {0} → Machine → Type 0 = λ _ m'. SameLocks m m' in
    Gives-get Q _ m (
      Gives-lift Q (Queue.ll_add t m.nodes (m.mutexes a).blocked_q) _ m
        (λ r. Gives-modify Q _ _ m (λ x. update-same m.mutexes a x _ refl)))

release_blocked-Keeps : (a : ℕ) → Keeps (release_blocked a)
unfolding release_blocked
release_blocked-Keeps a m =
    let Q : Unit {0} → Machine → Type 0 = λ _ m'. SameLocks m m' in
    Gives-get Q _ m (
      Gives-lift Q (Queue.ll_free m.nodes (m.mutexes a).blocked_q m.threads) _ m
        (λ r. Gives-modify Q _ _ m (λ x. update-same m.mutexes a x _ refl)))

-- A step that touches no mutex before or after one that does.
pub SetLock-after :
    {A B : Type 0} (a : ℕ) (v : Bool) (c : M A) (f : A → M B)
    → Keeps c
    → ((x : A) (m : Machine) → Gives (λ _ m'. SetLock a v m m') (f x m))
    → (m : Machine) → Gives (λ _ m'. SetLock a v m m') ((c >>= f) m)
SetLock-after a v c f k g m =
    Gives-bind (λ _ m'. SameLocks m m') (λ _ m'. SetLock a v m m') c f m (k m)
      (λ x n s.
        Gives-mono (λ _ m'. SetLock a v n m') (λ _ m'. SetLock a v m m') (f x n) (g x n)
          (λ _ m' t y. t y ∙ ap (λ l. if a == y then v else l) (s y)))

pub SetLock-before :
    {A B : Type 0} (a : ℕ) (v : Bool) (c : M A) (f : A → M B)
    → ((m : Machine) → Gives (λ _ m'. SetLock a v m m') (c m))
    → ((x : A) → Keeps (f x))
    → (m : Machine) → Gives (λ _ m'. SetLock a v m m') ((c >>= f) m)
SetLock-before a v c f g k m =
    Gives-bind (λ _ m'. SetLock a v m m') (λ _ m'. SetLock a v m m') c f m (g m)
      (λ x n s.
        Gives-mono (λ _ m'. SameLocks n m') (λ _ m'. SetLock a v m m') (f x n) (k x n)
          (λ _ m' t y. t y ∙ s y))

pub unlock-SetLock :
    (a : ℕ) (m : Machine) → Gives (λ _ m'. SetLock a false m m') (mypthread_mutex_unlock a m)
unfolding mypthread_mutex_unlock
unlock-SetLock a = SetLock-after a false _ _ (sem_wait-Keeps mutex_sem) (λ _ m.
    Gives-get (λ _ m'. SetLock a false m m') _ m
      (SetLock-before a false (modify (set_mutex a (record (m.mutexes a) { lock = false }))) _
        (λ n x. update-lock n.mutexes a x _)
        (λ _.
          Keeps-bind _ _ (release_blocked-Keeps a)
            (λ _. Keeps-bind _ _ (sem_post-Keeps mutex_sem) (λ _. pure-Keeps {A = ℕ} 0)))
        m))

-- How a `mypthread_mutex_lock` ends: it has taken the free mutex, or it has changed no mutex and
-- comes back only where no thread is counted any more.
pub data LockEnds (a : ℕ) (m : Machine) (back : Bool) (m' : Machine) : Type 0 where
  took : back ≡ true → (m.mutexes a).lock ≡ false → SetLock a true m m' → LockEnds a m back m'
  left : SameLocks m m' → (back ≡ true → m'.mypthread_count ≡ 0) → LockEnds a m back m'

abbrev pub Locking : ℕ → Machine → Outcome → Machine → Type 0
Locking a m o m' = LockEnds a m (is_returned o) m'

LockEnds-before :
    {a : ℕ} {m n : Machine} {b : Bool} {m' : Machine}
    → SameLocks m n
    → LockEnds a n b m'
    → LockEnds a m b m'
LockEnds-before {a} s (took e free set) =
    took e (sym (s a) ∙ free) (λ x. set x ∙ ap (λ l. if a == x then true else l) (s x))
LockEnds-before s (left same back) = left (λ x. same x ∙ s x) back

-- Code that touches no mutex and then locks one, or calls the scheduler.
LockEnds-after :
    {A : Type 0} (a : ℕ) (c : M A) (f : A → M Outcome)
    → Keeps c
    → ((x : A) (m : Machine) → Gives (Locking a m) (f x m))
    → (m : Machine) → Gives (Locking a m) ((c >>= f) m)
LockEnds-after a c f k g m =
    Gives-bind (λ _ n. SameLocks m n) (Locking a m) c f m (k m)
      (λ x n s.
        Gives-mono (Locking a n) (Locking a m) (f x n) (g x n) (λ o m' e. LockEnds-before s e))

scheduler-LockEnds :
    (a k : ℕ) (m : Machine) → Gives (Locking a m) (and_return (mythread_scheduler k set_mode) 0 m)
scheduler-LockEnds a k m = and_return-Gives (LockEnds a m) (mythread_scheduler k set_mode) 0 m (
    Gives-mono (λ o m'. SameLocks m m' × (is_returned o ≡ true → m'.mypthread_count ≡ 0))
      (Locking a m) _
      (Gives-both (λ _ m'. SameLocks m m') (λ o m'. is_returned o ≡ true → m'.mypthread_count ≡ 0) _
        (mythread_scheduler-Keeps k set_mode m) (mythread_scheduler-returned k set_mode m))
      (λ o m' e. left e.0 e.1))

lock-free :
    (a : ℕ) (m : Machine)
    → (m.mutexes a).lock ≡ false
    → (let go : M Outcome = do
      modify (set_mutex a (record (m.mutexes a) { lock = true }))
      sem_post mutex_sem
      pure (returned 0)
      in Gives (Locking a m) (go m))
unfolding ◌>>=◌ sem_post
lock-free a m free = took refl free (λ x. update-lock m.mutexes a x _)

lock-cases :
    (tid a : ℕ) (m : Machine) (b : Bool)
    → (m.mutexes a).lock ≡ b
    → (let go : M Outcome = elim b [
      | false ↦ do
        modify (set_mutex a (record (m.mutexes a) { lock = true }))
        sem_post mutex_sem
        pure (returned 0)
      | true ↦ do
        kp ← get_kthread tid
        t ← current_thread kp
        modify (set_status t ps_blocked)
        block_on_mutex a t
        modify (set_ctx t (lock_entry a))
        sem_wait mypthread_sem
        mypthread_enqueue t
        sem_post mypthread_sem
        sem_post mutex_sem
        k ← deref kp
        and_return (mythread_scheduler k set_mode) 0
    ] in
        Gives (Locking a m) (go m))
lock-cases tid a m false free = lock-free a m free
lock-cases tid a m true taken =
    LockEnds-after a _ _ (get_kthread-Keeps tid)
      (λ kp. LockEnds-after a _ _ (current_thread-Keeps kp) (λ t.
        LockEnds-after a _ _ (λ n x. refl)
          (λ _. LockEnds-after a _ _ (block_on_mutex-Keeps a t) (λ _.
            LockEnds-after a _ _ (λ n x. refl)
              (λ _. LockEnds-after a _ _ (sem_wait-Keeps mypthread_sem) (λ _.
                LockEnds-after a _ _ (mypthread_enqueue-Keeps t) (λ _.
                  LockEnds-after a _ _ (sem_post-Keeps mypthread_sem) (λ _.
                    LockEnds-after a _ _ (sem_post-Keeps mutex_sem) (λ _.
                      LockEnds-after a _ _ (Keeps-deref kp) (λ k. scheduler-LockEnds a k))))))))))
      m

pub lock-LockEnds : (tid a : ℕ) (m : Machine) → Gives (Locking a m) (mypthread_mutex_lock tid a m)
unfolding mypthread_mutex_lock
lock-LockEnds tid a =
    LockEnds-after a _ _ (sem_wait-Keeps mutex_sem)
      (λ _ n. Gives-get (Locking a n) _ n (lock-cases tid a n (n.mutexes a).lock refl))
