-- ===== src/Machine/Inv.antt =====
-- A well-formed state, with the lists that its two queues stand for, and the list operations on it.
use operating_system_linux_t.Common.{ℕ, ◌≡◌, refl, subst, none, some, ◌==◌}
use operating_system_linux_t.Memory.{Run, ok, mypthread_sem, Ptr, Heap, Ends}
use operating_system_linux_t.Memory.Chain.{Cells, IsList, TailIs}
use operating_system_linux_t.Queue.Add
use operating_system_linux_t.Queue.Add.{Added}
use operating_system_linux_t.Queue.Dequeue
use operating_system_linux_t.Queue.Dequeue.{Dequeued}
use operating_system_linux_t.Queue.Lookup
use operating_system_linux_t.Queue.Lookup.{find_item}
use operating_system_linux_t.Machine.{Machine, M, lift, ◌>>=◌, ◌>>◌, after}
use operating_system_linux_t.Machine.Ops.{
  mypthread_enqueue, dequeue_active, get_thread, get_kthread, sem_wait, sem_post, sem_wait-one,
  sem_post_lem,
}

-- No semaphore is taken.
pub record Unlocked (m : Machine) : Type 0 where
  pub mypthread : m.mypthread_sem ≡ 1
  pub mutex : m.mutex_sem ≡ 1
  pub kthread : m.kthread_sem ≡ 1
  pub cond : m.cond_sem ≡ 1

-- The run queue stands for `qs` and the list of kernel threads for `ks`.
pub record Lists (m : Machine) (qs ks : Cells) : Type 0 where
  pub queue : IsList m.nodes m.mypthread_q.head qs
  pub tail : TailIs m.mypthread_q.tail qs
  pub kernel : IsList m.knodes m.mykthread_ll.head ks
  pub ktail : TailIs m.mykthread_ll.tail ks

-- Kernel thread `tid` is the `mykthread_t` at `k`, and runs the user thread at `t`.
pub record Current (m : Machine) (ks : Cells) (tid k t : ℕ) : Type 0 where
  pub found : find_item (λ j. (m.kthreads j).kth_id == tid) ks ≡ some k
  pub runs : (m.kthreads k).th ≡ some t

-- The state with other nodes and ends of the run queue.
abbrev pub with_queue : Heap ℕ → Ends → Machine → Machine
with_queue h e m = record m { nodes = h; mypthread_q = e }

pub enqueue-Added :
    (t : ℕ) (m : Machine) (qs : Cells)
    → IsList m.nodes m.mypthread_q.head qs
    → TailIs m.mypthread_q.tail qs
    → (r : Heap ℕ × Ends) × (mypthread_enqueue t m ≡ ok (tt, with_queue r.0 r.1 m))
      × Added none m.nodes qs t r
unfolding mypthread_enqueue ◌>>=◌
enqueue-Added t m qs is tl =
    let (r, run, added) = Add.ll_add-append t none m.nodes m.mypthread_q qs (λ _. refl) is tl in
    (r, rw (run, lift), added)

pub dequeue-Dequeued :
    (m : Machine) (qs : Cells)
    → IsList m.nodes m.mypthread_q.head qs
    → (r : Ptr × Heap ℕ × Ends) × (dequeue_active m ≡ ok (r.0, with_queue r.1 r.2 m))
      × Dequeued m.nodes m.mypthread_q m.threads qs r
unfolding dequeue_active ◌>>=◌
dequeue-Dequeued m qs is =
    let (r, run, d) = Dequeue.dequeue_total m.nodes m.mypthread_q m.threads qs is in
    (r, rw (run, lift), d)

pub get_thread-find_item :
    (id : ℕ) (m : Machine) (qs : Cells)
    → IsList m.nodes m.mypthread_q.head qs
    → get_thread id m ≡ ok (find_item (λ t. (m.threads t).th_id == id) qs, m)
unfolding get_thread ◌>>=◌
get_thread-find_item id m qs is =
    rw (Lookup.mypthread_get-find_item m.nodes m.mypthread_q m.threads id qs is)

pub get_kthread-find_item :
    (id : ℕ) (m : Machine) (ks : Cells)
    → IsList m.knodes m.mykthread_ll.head ks
    → get_kthread id m ≡ ok (find_item (λ k. (m.kthreads k).kth_id == id) ks, m)
unfolding get_kthread ◌>>=◌
get_kthread-find_item id m ks is =
    rw (Lookup.mykthread_get-find_item m.knodes m.mykthread_ll m.kthreads id ks is)

-- `mypthread_enqueue` between the wait and the post of its semaphore.
pub locked_enqueue :
    {A : Type 0} (t : ℕ) (m : Machine) (h : Heap ℕ) (e : Ends) (f : M A) {r : Run (A × Machine)}
    → m.mypthread_sem ≡ 1
    → mypthread_enqueue t (record m { mypthread_sem = 0 })
      ≡ ok (tt, with_queue h e (record m { mypthread_sem = 0 }))
    → f (with_queue h e m) ≡ r
    → (sem_wait mypthread_sem >> (mypthread_enqueue t >> (sem_post mypthread_sem >> f))) m ≡ r
locked_enqueue t m h e f {r} one run rest = after _ _ (sem_wait-one mypthread_sem m one) (
    after _ _ run (
      after _ _ (sem_post_lem mypthread_sem _)
        (subst (λ n. f (record (with_queue h e m) { mypthread_sem = n }) ≡ r) one rest)))
