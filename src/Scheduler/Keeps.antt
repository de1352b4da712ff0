-- ===== src/Scheduler/Keeps.antt =====
-- The mutexes in the scheduler of pthreads/mypthread.c.
use operating_system_linux_t.Common.{ℕ, refl, ◌==◌}
use operating_system_linux_t.Memory.{Run, ok, fault, mypthread_sem, kthread_sem, Ptr}
use operating_system_linux_t.Thread.{Context, uninit, freed, entry, lock_entry, saved, Resume}
use operating_system_linux_t.Machine.{Machine, M, ◌>>◌, modify, set_ctx}
use operating_system_linux_t.Machine.Gives.{
  Gives, SameLocks, Keeps, Keeps-bind, Keeps-if, Keeps-deref, Keeps-option,
}
use operating_system_linux_t.Machine.Gives.Ops.{
  sem_wait-Keeps, sem_post-Keeps, pure-Keeps, get-Keeps, dequeue_active-Keeps,
}
use operating_system_linux_t.Scheduler.{
  Mode, set_mode, swap_mode, Outcome, returned, running, sleeping, set_context, switch,
  scheduler_round, mythread_scheduler, and_return,
}

set_context-cases :
    (t : ℕ) (c : Context) (m : Machine)
    → (let r : Run (Outcome × Machine) = elim c [
      | uninit ↦ fault
      | freed ↦ fault
      | c' ↦ ok (running t c', m)
    ] in
        Gives (λ _ m'. SameLocks m m') r)
set_context-cases t uninit m = tt
set_context-cases t freed m = tt
set_context-cases t (entry r a) m = λ x. refl
set_context-cases t (lock_entry a) m = λ x. refl
set_context-cases t (saved r) m = λ x. refl

set_context-Keeps : (t : ℕ) → Keeps (set_context t)
set_context-Keeps t m = set_context-cases t (m.threads t).ctx m

save-cases :
    (l : ℕ) (r : Resume) (t : ℕ) (c : Context)
    → (let go : M Outcome = elim c [
      | freed ↦ (λ n. fault)
      | _ ↦ do modify (set_ctx l (saved r)); set_context t
    ] in
        Keeps go)
save-cases l r t freed = λ m. tt
save-cases l r t uninit = Keeps-bind _ _ (λ n x. refl) (λ _. set_context-Keeps t)
save-cases l r t (entry _ _) = Keeps-bind _ _ (λ n x. refl) (λ _. set_context-Keeps t)
save-cases l r t (lock_entry _) = Keeps-bind _ _ (λ n x. refl) (λ _. set_context-Keeps t)
save-cases l r t (saved _) = Keeps-bind _ _ (λ n x. refl) (λ _. set_context-Keeps t)

switch-Keeps : (last : Ptr) (mode : Mode) (t : ℕ) → Keeps (switch last mode t)
switch-Keeps last set_mode t = set_context-Keeps t
switch-Keeps last (swap_mode r) t =
    Keeps-bind _ _ (Keeps-deref last)
      (λ l. Keeps-bind _ _ get-Keeps (λ m. save-cases l r t (m.threads l).ctx))

pub scheduler_round-Keeps : (k : ℕ) (last : Ptr) (mode : Mode) → Keeps (scheduler_round k last mode)
unfolding scheduler_round
scheduler_round-Keeps k last mode = Keeps-bind _ _ (sem_wait-Keeps mypthread_sem) (λ _.
    Keeps-bind _ _ dequeue_active-Keeps (λ next. Keeps-bind _ _ (sem_post-Keeps mypthread_sem) (λ _.
      Keeps-option next _ _ (pure-Keeps (sleeping k last mode)) (λ t.
        Keeps-bind _ _ (sem_wait-Keeps kthread_sem) (λ _. Keeps-bind _ _ get-Keeps (λ m.
          Keeps-bind _ _ (λ n x. refl)
            (λ _. Keeps-bind _ _ (sem_post-Keeps kthread_sem) (λ _. switch-Keeps last mode t))))))))

pub mythread_scheduler-Keeps : (k : ℕ) (mode : Mode) → Keeps (mythread_scheduler k mode)
unfolding mythread_scheduler
mythread_scheduler-Keeps k mode = Keeps-bind _ _ (sem_wait-Keeps mypthread_sem) (λ _.
    Keeps-bind _ _ get-Keeps (λ m.
      Keeps-if (m.mypthread_count == 0) _ _
        (Keeps-bind _ _ (sem_post-Keeps mypthread_sem) (λ _. pure-Keeps (returned 0)))
        (Keeps-bind _ _ (sem_post-Keeps mypthread_sem)
          (λ _. Keeps-bind _ _ get-Keeps (λ n. scheduler_round-Keeps k (n.kthreads k).th mode)))))

-- The three ways in which a call leaves its kernel thread.
pub Keeps-outcome :
    (o : Outcome) (f : ℕ → M Outcome) (g : ℕ → Context → M Outcome) (h : ℕ → Ptr → Mode → M Outcome)
    → ((v : ℕ) → Keeps (f v))
    → ((t : ℕ) (x : Context) → Keeps (g t x))
    → ((k : ℕ) (l : Ptr) (w : Mode) → Keeps (h k l w))
    → Keeps (elim o [ returned v ↦ f v | running t x ↦ g t x | sleeping k l w ↦ h k l w ])
Keeps-outcome (returned v) f g h a b c = a v
Keeps-outcome (running t x) f g h a b c = b t x
Keeps-outcome (sleeping k l w) f g h a b c = c k l w

pub and_return-Keeps : (c : M Outcome) (v : ℕ) → Keeps c → Keeps (and_return c v)
and_return-Keeps c v k = Keeps-bind _ _ k (λ o.
    Keeps-outcome o _ _ _ (λ _. pure-Keeps (returned v)) (λ t x. pure-Keeps (running t x))
      (λ j l w. pure-Keeps (sleeping j l w)))
