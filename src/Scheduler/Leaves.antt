-- ===== src/Scheduler/Leaves.antt =====
-- Where the scheduler of pthreads/mypthread.c comes back to its caller.
use operating_system_linux_t.Common.{
  ℕ, ◌+◌, ◌≡◌, refl, Bool, true, false, none, some, ◌==◌, ==_iff, arith,
}
use operating_system_linux_t.Memory.{Run, ok, fault, mypthread_sem, kthread_sem, Ptr}
use operating_system_linux_t.Thread.{Context, uninit, freed, entry, lock_entry, saved, Resume}
use operating_system_linux_t.Machine.{
  Machine, M, pure, ◌>>=◌, ◌>>◌, get, modify, set_kthread, set_ctx,
}
use operating_system_linux_t.Machine.Ops.{value, set_value, sem_wait, sem_post}
use operating_system_linux_t.Machine.Gives.{Gives, Gives-any, Gives-bind, Gives-get, Gives-mono}
use operating_system_linux_t.Scheduler.{
  Mode, set_mode, swap_mode, Outcome, returned, running, sleeping, set_context, switch,
  scheduler_round, mythread_scheduler, and_return,
}

abbrev pub is_returned : Outcome → Bool
is_returned (returned v) = true
is_returned (running t x) = false
is_returned (sleeping k l w) = false

-- Code that never comes back to its caller.
abbrev Leaves : M Outcome → Type 0
Leaves c = (m : Machine) → Gives (λ o _. is_returned o ≡ false) (c m)

Leaves-bind :
    {A : Type 0} (c : M A) (f : A → M Outcome) → ((a : A) → Leaves (f a)) → Leaves (c >>= f)
Leaves-bind c f l m =
    Gives-bind (λ _ _. Unit {0}) (λ o _. is_returned o ≡ false) c f m (Gives-any (c m))
      (λ a m' _. l a m')

set_context-Leaves :
    (t : ℕ) (c : Context) (m : Machine)
    → (let r : Run (Outcome × Machine) = elim c [
      | uninit ↦ fault
      | freed ↦ fault
      | c' ↦ ok (running t c', m)
    ] in
        Gives (λ o _. is_returned o ≡ false) r)
set_context-Leaves t uninit m = tt
set_context-Leaves t freed m = tt
set_context-Leaves t (entry r a) m = refl
set_context-Leaves t (lock_entry a) m = refl
set_context-Leaves t (saved r) m = refl

save-Leaves :
    (l : ℕ) (r : Resume) (t : ℕ) (c : Context)
    → (let go : M Outcome = elim c [
      | freed ↦ (λ n. fault)
      | _ ↦ do modify (set_ctx l (saved r)); set_context t
    ] in
        Leaves go)
save-Leaves l r t freed = λ m. tt
save-Leaves l r t uninit = Leaves-bind _ _ (λ _ m. set_context-Leaves t (m.threads t).ctx m)
save-Leaves l r t (entry _ _) = Leaves-bind _ _ (λ _ m. set_context-Leaves t (m.threads t).ctx m)
save-Leaves l r t (lock_entry _) = Leaves-bind _ _ (λ _ m. set_context-Leaves t (m.threads t).ctx m)
save-Leaves l r t (saved _) = Leaves-bind _ _ (λ _ m. set_context-Leaves t (m.threads t).ctx m)

switch-Leaves : (last : Ptr) (mode : Mode) (t : ℕ) → Leaves (switch last mode t)
switch-Leaves last set_mode t = λ m. set_context-Leaves t (m.threads t).ctx m
switch-Leaves last (swap_mode r) t =
    Leaves-bind _ _ (λ l. Leaves-bind _ _ (λ m. save-Leaves l r t (m.threads l).ctx))

next-Leaves :
    (k : ℕ) (last : Ptr) (mode : Mode) (next : Ptr)
    → Leaves (elim next [
      | some t ↦ do
        sem_wait kthread_sem
        m ← get
        modify (set_kthread k (record (m.kthreads k) { th = some t }))
        sem_post kthread_sem
        switch last mode t
      | none ↦ pure (sleeping k last mode)
    ])
next-Leaves k last mode none = λ m. refl
next-Leaves k last mode (some t) = Leaves-bind _ _ (λ _.
    Leaves-bind _ _ (λ m. Leaves-bind _ _ (λ _. Leaves-bind _ _ (λ _. switch-Leaves last mode t))))

pub scheduler_round-Leaves :
    (k : ℕ) (last : Ptr) (mode : Mode) → Leaves (scheduler_round k last mode)
unfolding scheduler_round
scheduler_round-Leaves k last mode =
    Leaves-bind _ _
      (λ _. Leaves-bind _ _ (λ next. Leaves-bind _ _ (λ _. next-Leaves k last mode next)))

counted-Leaves :
    (k : ℕ) (mode : Mode) (m : Machine) (b : Bool)
    → (m.mypthread_count == 0) ≡ b
    → (let go : M Outcome = elim b [
      | true ↦ do sem_post mypthread_sem; pure (returned 0)
      | false ↦ do sem_post mypthread_sem; n ← get; scheduler_round k (n.kthreads k).th mode
    ] in
        Gives (λ o m'. is_returned o ≡ true → m'.mypthread_count ≡ 0) (go m))
unfolding ◌>>=◌ sem_post
counted-Leaves k mode m true e = λ _. (==_iff m.mypthread_count 0).0 e
counted-Leaves k mode m false e =
    Gives-mono (λ o _. is_returned o ≡ false)
      (λ o m'. is_returned o ≡ true → m'.mypthread_count ≡ 0)
      (scheduler_round k (m.kthreads k).th mode
        (set_value mypthread_sem (value mypthread_sem m + 1) m))
      (scheduler_round-Leaves k (m.kthreads k).th mode _)
      (λ o m' no yes. absurd (ground (arith, no, yes)))

-- The scheduler comes back to its caller only where no thread is counted any more.
pub mythread_scheduler-returned :
    (k : ℕ) (mode : Mode) (m : Machine)
    → Gives (λ o m'. is_returned o ≡ true → m'.mypthread_count ≡ 0) (mythread_scheduler k mode m)
unfolding mythread_scheduler
mythread_scheduler-returned k mode m =
    let Q : Outcome → Machine → Type 0 = λ o m'. is_returned o ≡ true → m'.mypthread_count ≡ 0 in
    Gives-bind (λ _ _. Unit {0}) Q _ _ m (Gives-any (sem_wait mypthread_sem m))
      (λ _ n _. Gives-get Q _ n (counted-Leaves k mode n (n.mypthread_count == 0) refl))

and_return-cases :
    (P : Bool → Machine → Type 0) (v : ℕ) (o : Outcome) (m : Machine)
    → P (is_returned o) m
    → (let go : M Outcome = elim o [
      | returned _ ↦ pure (returned v)
      | running t x ↦ pure (running t x)
      | sleeping k l w ↦ pure (sleeping k l w)
    ] in
        Gives (λ o' m'. P (is_returned o') m') (go m))
and_return-cases P v (returned w) m p = p
and_return-cases P v (running t x) m p = p
and_return-cases P v (sleeping k l w) m p = p

-- What is known of whether a call comes back stays known behind it.
pub and_return-Gives :
    (P : Bool → Machine → Type 0) (c : M Outcome) (v : ℕ) (m : Machine)
    → Gives (λ o m'. P (is_returned o) m') (c m)
    → Gives (λ o m'. P (is_returned o) m') (and_return c v m)
and_return-Gives P c v m g =
    Gives-bind (λ o m'. P (is_returned o) m') (λ o m'. P (is_returned o) m') c _ m g
      (λ o n p. and_return-cases P v o n p)
