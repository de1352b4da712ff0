-- ===== src/Machine/Gives/Ops.antt =====
-- The semaphores and the list operations of pthreads/mypthread.c touch no mutex.
use operating_system_linux_t.Common.{ℕ, refl, Bool-cases, inl, inr, ◌==◌}
use operating_system_linux_t.Memory.{Sem, mypthread_sem, mutex_sem, kthread_sem, cond_sem}
use operating_system_linux_t.Machine.{Machine, pure, get}
use operating_system_linux_t.Machine.Ops.{
  value, set_value, sem_wait, sem_post, mypthread_enqueue, dequeue_active, get_thread,
  update_waiting, add_kthread, get_kthread, is_running,
}
use operating_system_linux_t.Machine.Gives.{SameLocks, Keeps, Keeps-bind, Keeps-lift}
use operating_system_linux_t.Queue

set_value-SameLocks : (s : Sem) (n : ℕ) (m : Machine) → SameLocks m (set_value s n m)
set_value-SameLocks mypthread_sem n m x = refl
set_value-SameLocks mutex_sem n m x = refl
set_value-SameLocks kthread_sem n m x = refl
set_value-SameLocks cond_sem n m x = refl

pub sem_wait-Keeps : (s : Sem) → Keeps (sem_wait s)
unfolding sem_wait
sem_wait-Keeps s m = elim (Bool-cases (value s m == 0)) [
  | inl z ↦ rw z tt
  | inr p ↦ rw p (set_value-SameLocks s _ m)
]

pub sem_post-Keeps : (s : Sem) → Keeps (sem_post s)
unfolding sem_post
sem_post-Keeps s m = set_value-SameLocks s _ m

pub pure-Keeps : {A : Type 0} (a : A) → Keeps (pure a)
pure-Keeps a m x = refl

pub get-Keeps : Keeps get
get-Keeps m x = refl

pub mypthread_enqueue-Keeps : (t : ℕ) → Keeps (mypthread_enqueue t)
unfolding mypthread_enqueue
mypthread_enqueue-Keeps t =
    Keeps-bind _ _ get-Keeps
      (λ m. Keeps-bind _ _ (Keeps-lift (Queue.ll_add t m.nodes m.mypthread_q)) (λ r n x. refl))

pub dequeue_active-Keeps : Keeps dequeue_active
unfolding dequeue_active
dequeue_active-Keeps = Keeps-bind _ _ get-Keeps (λ m.
    Keeps-bind _ _
      (Keeps-lift (Queue.mypthread_dequeue_first_active m.nodes m.mypthread_q m.threads))
      (λ r. Keeps-bind _ _ (λ n x. refl) (λ _. pure-Keeps r.0)))

pub get_thread-Keeps : (id : ℕ) → Keeps (get_thread id)
unfolding get_thread
get_thread-Keeps id =
    Keeps-bind _ _ get-Keeps
      (λ m. Keeps-lift (Queue.mypthread_get m.nodes m.mypthread_q m.threads id))

pub get_kthread-Keeps : (id : ℕ) → Keeps (get_kthread id)
unfolding get_kthread
get_kthread-Keeps id =
    Keeps-bind _ _ get-Keeps
      (λ m. Keeps-lift (Queue.mykthread_get m.knodes m.mykthread_ll m.kthreads id))

pub is_running-Keeps : (id : ℕ) → Keeps (is_running id)
unfolding is_running
is_running-Keeps id =
    Keeps-bind _ _ get-Keeps
      (λ m. Keeps-lift (Queue.mykthread_is_running m.knodes m.mykthread_ll m.kthreads m.threads id))

pub update_waiting-Keeps : (id : ℕ) → Keeps (update_waiting id)
unfolding update_waiting
update_waiting-Keeps id = Keeps-bind _ _ get-Keeps (λ m.
    Keeps-bind _ _
      (Keeps-lift (Queue.mypthread_update_waiting_threads m.nodes m.mypthread_q m.threads id))
      (λ r n x. refl))

pub add_kthread-Keeps : (k : ℕ) → Keeps (add_kthread k)
unfolding add_kthread
add_kthread-Keeps k = Keeps-bind _ _ get-Keeps (λ m.
    Keeps-bind _ _ (Keeps-lift (Queue.mykthread_add k m.knodes m.mykthread_ll)) (λ r n x. refl))
