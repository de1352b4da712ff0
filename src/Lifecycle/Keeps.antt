-- ===== src/Lifecycle/Keeps.antt =====
-- The mutexes in the thread calls of pthreads/mypthread.c.
use operating_system_linux_t.Common.{
  ℕ, refl, Bool, true, false, ◌||◌, if◌then◌else◌, Option, none, some, ◌==◌,
}
use operating_system_linux_t.Memory.{Run, ok, fault, mypthread_sem, kthread_sem, Ptr}
use operating_system_linux_t.Thread.{
  Context, uninit, freed, entry, lock_entry, saved, in_yield, in_join, is_dead,
}
use operating_system_linux_t.Machine.{Machine, modify, inc, int_lt, set_ctx}
use operating_system_linux_t.Machine.Gives.{
  Gives, SameLocks, Keeps, Keeps-bind, Keeps-if, Keeps-deref, Keeps-option,
}
use operating_system_linux_t.Machine.Gives.Ops.{
  sem_wait-Keeps, sem_post-Keeps, pure-Keeps, get-Keeps, mypthread_enqueue-Keeps, get_thread-Keeps,
  update_waiting-Keeps, add_kthread-Keeps, get_kthread-Keeps, is_running-Keeps,
}
use operating_system_linux_t.Scheduler.{returned, set_mode, swap_mode}
use operating_system_linux_t.Scheduler.Keeps.{mythread_scheduler-Keeps, and_return-Keeps}
use operating_system_linux_t.Lifecycle.{
  klmatchcores, klmatchhyper, klalways, init_locks, create_kthread, new_kthread, schedule_kthread,
  main_thread, create_main, create_by_policy, set_up, mypthread_create, free_ctx, current_thread,
  mypthread_exit, mypthread_yield, wait_for, mypthread_join,
}

create_kthread-Keeps : (pid : Option ℕ) → Keeps (create_kthread pid)
unfolding create_kthread
create_kthread-Keeps none m = tt
create_kthread-Keeps (some p) m = λ x. refl

new_kthread-Keeps : (tid : ℕ) (th : Ptr) → Keeps (new_kthread tid th)
unfolding new_kthread
new_kthread-Keeps tid th m = λ x. refl

pub schedule_kthread-Keeps : (tid : ℕ) → Keeps (schedule_kthread tid)
unfolding schedule_kthread
schedule_kthread-Keeps tid = Keeps-bind _ _ (new_kthread-Keeps tid none) (λ k.
    Keeps-bind _ _ (add_kthread-Keeps k)
      (λ _. and_return-Keeps _ 0 (mythread_scheduler-Keeps k set_mode)))

create_main-Keeps : (tid : ℕ) → Keeps (create_main tid)
unfolding create_main init_locks
create_main-Keeps tid =
    Keeps-bind _ _ (λ m x. refl)
      (λ _. Keeps-bind _ _ get-Keeps (λ m.
        Keeps-bind _ _ (λ n x. refl)
          (λ _.
            Keeps-bind _ _ (λ n x. refl)
              (λ _. Keeps-bind _ _ (new_kthread-Keeps tid (some main_thread)) (λ k.
                Keeps-bind _ _ (sem_wait-Keeps kthread_sem) (λ _.
                  Keeps-bind _ _ (λ n x. refl)
                    (λ _.
                      Keeps-bind _ _ (add_kthread-Keeps k) (λ _. sem_post-Keeps kthread_sem))))))))

counting-Keeps :
    (flag : Bool)
    → Keeps (
        modify (λ o.
          if flag then record o { current_kthread_count = inc o.current_kthread_count } else o))
counting-Keeps true m x = refl
counting-Keeps false m x = refl

create_by_policy-Keeps : (pid : Option ℕ) → Keeps (create_by_policy pid)
unfolding create_by_policy
create_by_policy-Keeps pid = Keeps-bind _ _ get-Keeps (λ m.
    Keeps-if (m.mypthread_policy == klmatchcores || m.mypthread_policy == klmatchhyper) _ _
      (Keeps-bind _ _ (sem_wait-Keeps kthread_sem) (λ _. Keeps-bind _ _ get-Keeps (λ n.
        Keeps-bind _ _ (counting-Keeps (int_lt n.current_kthread_count n.max_kthread_count)) (λ _.
          Keeps-bind _ _ (sem_post-Keeps kthread_sem) (λ _.
            Keeps-if (int_lt n.current_kthread_count n.max_kthread_count) _ _
              (create_kthread-Keeps pid) (pure-Keeps tt))))))
      (Keeps-if (m.mypthread_policy == klalways) _ _
        (Keeps-bind _ _ (sem_wait-Keeps kthread_sem) (λ _.
          Keeps-bind _ _ (λ n x. refl)
            (λ _. Keeps-bind _ _ (sem_post-Keeps kthread_sem) (λ _. create_kthread-Keeps pid))))
        (pure-Keeps tt)))

set_up-Keeps : (tid : ℕ) → Keeps (set_up tid)
unfolding set_up
set_up-Keeps tid =
    Keeps-bind _ _ get-Keeps
      (λ m. Keeps-if (m.mypthread_count == 0) _ _ (create_main-Keeps tid) (pure-Keeps tt))

pub mypthread_create-Keeps :
    (tid : ℕ) (pid : Option ℕ) (thread routine arg : ℕ)
    → Keeps (mypthread_create tid pid thread routine arg)
unfolding mypthread_create
mypthread_create-Keeps tid pid thread routine arg = Keeps-bind _ _ (set_up-Keeps tid) (λ _.
    Keeps-bind _ _ get-Keeps (λ n.
      Keeps-bind _ _ (λ n x. refl)
        (λ _. Keeps-bind _ _ (sem_wait-Keeps mypthread_sem) (λ _. Keeps-bind _ _ get-Keeps (λ o.
          Keeps-bind _ _ (λ n x. refl)
            (λ _.
              Keeps-bind _ _ (λ n x. refl)
                (λ _. Keeps-bind _ _ (mypthread_enqueue-Keeps thread) (λ _.
                  Keeps-bind _ _ (sem_post-Keeps mypthread_sem) (λ _.
                    Keeps-bind _ _ (create_by_policy-Keeps pid) (λ _. pure-Keeps {A = ℕ} 0))))))))))

free_ctx-cases :
    (t : ℕ) (c : Context) (m : Machine)
    → (let r : Run (Unit {0} × Machine) = elim c [
      | freed ↦ fault
      | _ ↦ ok (tt, set_ctx t freed m)
    ] in
        Gives (λ _ m'. SameLocks m m') r)
free_ctx-cases t freed m = tt
free_ctx-cases t uninit m = λ x. refl
free_ctx-cases t (entry r a) m = λ x. refl
free_ctx-cases t (lock_entry a) m = λ x. refl
free_ctx-cases t (saved r) m = λ x. refl

free_ctx-Keeps : (t : ℕ) → Keeps (free_ctx t)
unfolding free_ctx
free_ctx-Keeps t m = free_ctx-cases t (m.threads t).ctx m

pub current_thread-Keeps : (kp : Ptr) → Keeps (current_thread kp)
unfolding current_thread
current_thread-Keeps kp =
    Keeps-bind _ _ (Keeps-deref kp)
      (λ k. Keeps-bind _ _ get-Keeps (λ m. Keeps-deref (m.kthreads k).th))

pub mypthread_exit-Keeps : (tid : ℕ) → Keeps (mypthread_exit tid)
unfolding mypthread_exit
mypthread_exit-Keeps tid = Keeps-bind _ _ (get_kthread-Keeps tid) (λ kp.
    Keeps-bind _ _ (sem_wait-Keeps mypthread_sem) (λ _.
      Keeps-bind _ _ (λ n x. refl)
        (λ _. Keeps-bind _ _ (current_thread-Keeps kp) (λ t.
          Keeps-bind _ _ (λ n x. refl)
            (λ _. Keeps-bind _ _ get-Keeps (λ m.
              Keeps-bind _ _ (update_waiting-Keeps (m.threads t).th_id) (λ _.
                Keeps-bind _ _ (sem_post-Keeps mypthread_sem) (λ _.
                  Keeps-bind _ _ (free_ctx-Keeps t) (λ _.
                    Keeps-bind _ _ (Keeps-deref kp)
                      (λ k. and_return-Keeps _ 0 (mythread_scheduler-Keeps k set_mode)))))))))))

pub mypthread_yield-Keeps : (tid : ℕ) → Keeps (mypthread_yield tid)
unfolding mypthread_yield
mypthread_yield-Keeps tid = Keeps-bind _ _ (get_kthread-Keeps tid) (λ kp.
    Keeps-bind _ _ (current_thread-Keeps kp) (λ t.
      Keeps-bind _ _ (λ n x. refl)
        (λ _. Keeps-bind _ _ (sem_wait-Keeps mypthread_sem) (λ _.
          Keeps-bind _ _ (mypthread_enqueue-Keeps t) (λ _.
            Keeps-bind _ _ (sem_post-Keeps mypthread_sem) (λ _.
              Keeps-bind _ _ (Keeps-deref kp)
                (λ k. and_return-Keeps _ 0 (mythread_scheduler-Keeps k (swap_mode in_yield)))))))))

wait_for-Keeps : (kp : Ptr) (id : ℕ) → Keeps (wait_for kp id)
unfolding wait_for
wait_for-Keeps kp id = Keeps-bind _ _ (current_thread-Keeps kp) (λ t. Keeps-bind _ _ get-Keeps (λ m.
    Keeps-bind _ _ (λ n x. refl)
      (λ _. Keeps-bind _ _ (sem_wait-Keeps mypthread_sem) (λ _.
        Keeps-bind _ _ (mypthread_enqueue-Keeps t) (λ _.
          Keeps-bind _ _ (sem_post-Keeps mypthread_sem) (λ _.
            Keeps-bind _ _ (Keeps-deref kp)
              (λ k. and_return-Keeps _ 0 (mythread_scheduler-Keeps k (swap_mode in_join)))))))))

pub mypthread_join-Keeps : (tid id : ℕ) → Keeps (mypthread_join tid id)
unfolding mypthread_join
mypthread_join-Keeps tid id = Keeps-bind _ _ (sem_wait-Keeps mypthread_sem) (λ _.
    Keeps-bind _ _ (get_thread-Keeps id) (λ target.
      Keeps-bind _ _ (sem_wait-Keeps kthread_sem) (λ _.
        Keeps-bind _ _ (get_kthread-Keeps tid) (λ kp.
          Keeps-bind _ _ (sem_post-Keeps kthread_sem) (λ _.
            Keeps-bind _ _ (sem_post-Keeps mypthread_sem) (λ _.
              Keeps-option target _ _
                (Keeps-bind _ _ (is_running-Keeps id)
                  (λ busy. Keeps-if busy _ _ (wait_for-Keeps kp id) (pure-Keeps (returned 0))))
                (λ t. Keeps-bind _ _ get-Keeps (λ m.
                  Keeps-if (is_dead (m.threads t).state) _ _ (pure-Keeps (returned 0))
                    (wait_for-Keeps kp id)))))))))
