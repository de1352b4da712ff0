-- ===== src/Scheduler/Round.antt =====
-- One round of the loop of `mythread_scheduler` of pthreads/mypthread.c.
use operating_system_linux_t.Common.{ℕ, false, subst, ◌≡◌, refl, none, some, ◌==◌}
use operating_system_linux_t.Memory.{mypthread_sem, kthread_sem, ok, Ptr, Heap, Ends}
use operating_system_linux_t.Memory.Chain.{Cells, IsList}
use operating_system_linux_t.Queue.Dequeue.{Inactive, Split, Removed, Dequeued, idle, took}
use operating_system_linux_t.Machine.{Machine, after, set_kthread}
use operating_system_linux_t.Machine.Ops.{dequeue_active, sem_wait-one, sem_post_lem}
use operating_system_linux_t.Machine.Inv.{Unlocked, with_queue, dequeue-Dequeued}
use operating_system_linux_t.Scheduler.{
  Mode, sleeping, returned, switch, scheduler_round, mythread_scheduler,
}

-- The semaphore of the queue taken.
abbrev held : Machine → Machine
held m = record m { mypthread_sem = 0 }

-- Kernel thread `k` runs `t`, which has left the queue.
abbrev pub hand_over : ℕ → ℕ → Heap ℕ → Ends → Machine → Machine
hand_over k t h e m = with_queue h e (set_kthread k (record (m.kthreads k) { th = some t }) m)

round-sleeping :
    (k : ℕ) (last : Ptr) (mode : Mode) (m : Machine) (h : Heap ℕ) (e : Ends)
    → Unlocked m
    → dequeue_active (held m) ≡ ok (none, with_queue h e (held m))
    → scheduler_round k last mode m ≡ ok (sleeping k last mode, with_queue h e m)
unfolding scheduler_round
round-sleeping k last mode m h e u run =
    after _ _ (sem_wait-one mypthread_sem m u.mypthread)
      (after _ _ run (after _ _ (sem_post_lem mypthread_sem _) (rw u.mypthread)))

round-switch :
    (k : ℕ) (last : Ptr) (mode : Mode) (m : Machine) (t : ℕ) (h : Heap ℕ) (e : Ends)
    → Unlocked m
    → dequeue_active (held m) ≡ ok (some t, with_queue h e (held m))
    → scheduler_round k last mode m ≡ switch last mode t (hand_over k t h e m)
unfolding scheduler_round
round-switch k last mode m t h e u run = after _ _ (sem_wait-one mypthread_sem m u.mypthread) (
    after _ _ run (
      after _ _ (sem_post_lem mypthread_sem _) (
        after _ _ (sem_wait-one kthread_sem _ u.kthread) (
          after _ _ refl (
            after _ _ refl
              (after _ _ (sem_post_lem kthread_sem _) (rw (u.mypthread, u.kthread))))))))

-- What a round of the scheduler does to a queue that holds `qs`.
pub data Turn (k : ℕ) (last : Ptr) (mode : Mode) (m : Machine) (qs : Cells) : Type 0 where
  sleeps :
      Inactive m.threads qs
      → scheduler_round k last mode m ≡ ok (sleeping k last mode, m)
      → Turn k last mode m qs
  switches :
      (s : Split m.threads qs) (h : Heap ℕ) (e : Ends)
      → Removed m.nodes m.mypthread_q s.addr s.thread s.front s.back (some s.thread, h, e)
      → scheduler_round k last mode m ≡ switch last mode s.thread (hand_over k s.thread h e m)
      → Turn k last mode m qs

Turn-of_Dequeued :
    (k : ℕ) (last : Ptr) (mode : Mode) (m : Machine) (qs : Cells) (p : Ptr) (h : Heap ℕ) (e : Ends)
    → Unlocked m
    → dequeue_active (held m) ≡ ok (p, with_queue h e (held m))
    → Dequeued m.nodes m.mypthread_q m.threads qs (p, h, e)
    → Turn k last mode m qs
Turn-of_Dequeued k last mode m qs p h e u run (idle ina same) = sleeps ina (
    round-sleeping k last mode m m.nodes m.mypthread_q u
      (subst (λ r. dequeue_active (held m) ≡ ok (r.0, with_queue r.1 r.2 (held m))) same run))
Turn-of_Dequeued k last mode m qs p h e u run (took s rem) =
    switches s h e (rw rem.got at rem)
      (round-switch k last mode m s.thread h e u (rw rem.got at run))

-- Every round sleeps with nothing changed, or takes the first active thread out of the queue and
-- runs it.
pub scheduler_round-Turn :
    (k : ℕ) (last : Ptr) (mode : Mode) (m : Machine) (qs : Cells)
    → Unlocked m
    → IsList m.nodes m.mypthread_q.head qs
    → Turn k last mode m qs
scheduler_round-Turn k last mode m qs u is =
    let (r, run, d) = dequeue-Dequeued (held m) qs is in
    Turn-of_Dequeued k last mode m qs r.0 r.1 r.2 u run d

-- The scheduler comes back at once when no thread is left.
pub scheduler-returned :
    (k : ℕ) (mode : Mode) (m : Machine)
    → Unlocked m
    → m.mypthread_count ≡ 0
    → mythread_scheduler k mode m ≡ ok (returned 0, m)
unfolding mythread_scheduler
scheduler-returned k mode m u z =
    after _ _ (sem_wait-one mypthread_sem m u.mypthread)
      (after _ _ refl (rw z (after _ _ (sem_post_lem mypthread_sem _) (rw u.mypthread))))

pub scheduler-round :
    (k : ℕ) (mode : Mode) (m : Machine)
    → Unlocked m
    → (m.mypthread_count == 0) ≡ false
    → mythread_scheduler k mode m ≡ scheduler_round k (m.kthreads k).th mode m
unfolding mythread_scheduler
scheduler-round k mode m u nz = after _ _ (sem_wait-one mypthread_sem m u.mypthread) (
    after _ _ refl
      (rw nz (after _ _ (sem_post_lem mypthread_sem _) (after _ _ refl (rw u.mypthread)))))
