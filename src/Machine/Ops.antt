-- ===== src/Machine/Ops.antt =====
-- Semaphores, and the list operations of pthreads/queue_util.c on the globals.
use operating_system_linux_t.Common.{ℕ, ◌+◌, ◌-◌, ◌≡◌, refl, Bool, ◌==◌, if◌then◌else◌}
use operating_system_linux_t.Memory.{
  ok, blocked, Sem, mypthread_sem, mutex_sem, kthread_sem, cond_sem, Ptr,
}
use operating_system_linux_t.Queue
use operating_system_linux_t.Machine.{Machine, M, pure, ◌>>=◌, ◌>>◌, get, modify, lift}

abbrev pub value : Sem → Machine → ℕ
value mypthread_sem m = m.mypthread_sem
value mutex_sem m = m.mutex_sem
value kthread_sem m = m.kthread_sem
value cond_sem m = m.cond_sem

abbrev pub set_value : Sem → ℕ → Machine → Machine
set_value mypthread_sem n m = record m { mypthread_sem = n }
set_value mutex_sem n m = record m { mutex_sem = n }
set_value kthread_sem n m = record m { kthread_sem = n }
set_value cond_sem n m = record m { cond_sem = n }

-- `sem_wait` and `sem_post`
unfoldable pub sem_wait : Sem → M (Unit {0})
sem_wait s m = if value s m == 0 then blocked s else ok (tt, set_value s (value s m - 1) m)

unfoldable pub sem_post : Sem → M (Unit {0})
sem_post s m = ok (tt, set_value s (value s m + 1) m)

pub sem_wait-one : (s : Sem) (m : Machine) → value s m ≡ 1 → sem_wait s m ≡ ok (tt, set_value s 0 m)
unfolding sem_wait
sem_wait-one s m e = rw e

pub sem_wait-blocked : (s : Sem) (m : Machine) → value s m ≡ 0 → sem_wait s m ≡ blocked s
unfolding sem_wait
sem_wait-blocked s m e = rw e

pub sem_post_lem : (s : Sem) (m : Machine) → sem_post s m ≡ ok (tt, set_value s (value s m + 1) m)
unfolding sem_post
sem_post_lem s m = refl

unfoldable pub mypthread_enqueue : ℕ → M (Unit {0})
mypthread_enqueue t = do
  m ← get
  (h, e) ← lift (Queue.ll_add t m.nodes m.mypthread_q)
  modify (λ n. record n { nodes = h; mypthread_q = e })

unfoldable pub dequeue_active : M Ptr
dequeue_active = do
  m ← get
  (t, h, e) ← lift (Queue.mypthread_dequeue_first_active m.nodes m.mypthread_q m.threads)
  modify (λ n. record n { nodes = h; mypthread_q = e })
  pure t

unfoldable pub get_thread : ℕ → M Ptr
get_thread id = do m ← get; lift (Queue.mypthread_get m.nodes m.mypthread_q m.threads id)

unfoldable pub update_waiting : ℕ → M (Unit {0})
update_waiting id = do
  m ← get
  ts ← lift (Queue.mypthread_update_waiting_threads m.nodes m.mypthread_q m.threads id)
  modify (λ n. record n { threads = ts })

unfoldable pub add_kthread : ℕ → M (Unit {0})
add_kthread k = do
  m ← get
  (h, e) ← lift (Queue.mykthread_add k m.knodes m.mykthread_ll)
  modify (λ n. record n { knodes = h; mykthread_ll = e })

unfoldable pub get_kthread : ℕ → M Ptr
get_kthread id = do m ← get; lift (Queue.mykthread_get m.knodes m.mykthread_ll m.kthreads id)

unfoldable pub is_running : ℕ → M Bool
is_running id = do
  m ← get
  lift (Queue.mykthread_is_running m.knodes m.mykthread_ll m.kthreads m.threads id)
