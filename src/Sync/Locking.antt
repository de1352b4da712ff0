-- ===== src/Sync/Locking.antt =====
-- `mypthread_mutex_lock` of pthreads/mypthread.c, at a free mutex and at a taken one.
use operating_system_linux_t.Common.{
  ℕ, ◌+◌, ◌≡◌, refl, ◌∙◌, ap, true, false, none, some, [], ◌∷◌, ◌++◌, ◌==◌, ==_self, arith, subst,
}
use operating_system_linux_t.Memory.{ok, mutex_sem, Ptr, Heap, Ends}
use operating_system_linux_t.Memory.Chain.{
  Cells, IsList, Linked, TailIs, SameAt, Disjoint, Linked-frame, Disjoint-snoc, Disjoint-sym,
}
use operating_system_linux_t.Thread.{lock_entry, ps_blocked}
use operating_system_linux_t.Queue.Add
use operating_system_linux_t.Queue.Add.{Added}
use operating_system_linux_t.Machine.{Machine, lift, ◌>>=◌, after, set_ctx, set_status, set_mutex}
use operating_system_linux_t.Machine.Ops.{
  sem_wait-one, sem_post_lem, get_kthread, mypthread_enqueue,
}
use operating_system_linux_t.Machine.Inv.{
  Unlocked, Lists, Current, with_queue, locked_enqueue, enqueue-Added, get_kthread-find_item,
}
use operating_system_linux_t.Scheduler.{set_mode, returned, and_return, mythread_scheduler}
use operating_system_linux_t.Lifecycle.Yield.{current_thread_lem}
use operating_system_linux_t.Sync.{mypthread_mutex_lock, block_on_mutex}

-- A free mutex is taken at once: nothing else changes.
pub lock_free :
    (tid mutex : ℕ) (m : Machine)
    → Unlocked m
    → (m.mutexes mutex).lock ≡ false
    → mypthread_mutex_lock tid mutex m
      ≡ ok (returned 0, set_mutex mutex (record (m.mutexes mutex) { lock = true }) m)
unfolding mypthread_mutex_lock
lock_free tid mutex m u l =
    after _ _ (sem_wait-one mutex_sem m u.mutex)
      (after _ _ refl (rw l (after _ _ refl (after _ _ (sem_post_lem mutex_sem _) (rw u.mutex)))))

-- The mutex's list of blocked threads stands for `bs`, and shares no node with the run queue.
pub record Waiters (m : Machine) (mutex : ℕ) (p : Ptr) (qs bs : Cells) : Type 0 where
  pub list : Linked p m.nodes (m.mutexes mutex).blocked_q.head bs
  pub tail : TailIs (m.mutexes mutex).blocked_q.tail bs
  pub lead : bs ≡ [] → p ≡ none
  pub apart : Disjoint qs bs

-- The state with other nodes and another list of blocked threads.
abbrev pub with_blocked : ℕ → Heap ℕ → Ends → Machine → Machine
with_blocked mutex h e m =
    set_mutex mutex (record (m.mutexes mutex) { blocked_q = e }) (record m { nodes = h })

block-Added :
    (mutex t : ℕ) (p : Ptr) (m : Machine) (qs bs : Cells)
    → Waiters m mutex p qs bs
    → (r : Heap ℕ × Ends) × (block_on_mutex mutex t m ≡ ok (tt, with_blocked mutex r.0 r.1 m))
      × Added p m.nodes bs t r
unfolding block_on_mutex ◌>>=◌
block-Added mutex t p m qs bs w =
    let (r, run, added) =
      Add.ll_add-append t p m.nodes (m.mutexes mutex).blocked_q bs w.lead w.list w.tail in
    (r, rw (run, lift), added)

-- The thread `t` made to wait for the mutex: blocked, and set to call the lock again.
abbrev pub blocked_state : ℕ → ℕ → Heap ℕ → Ends → Machine → Machine
blocked_state mutex t h e m =
    set_ctx t (lock_entry mutex) (with_blocked mutex h e (set_status t ps_blocked m))

lock-scheduler :
    (tid mutex k t : ℕ) (m : Machine) (h₁ : Heap ℕ) (e₁ : Ends) (h₂ : Heap ℕ) (e₂ : Ends)
    → Unlocked m
    → (m.mutexes mutex).lock ≡ true
    → get_kthread tid (record m { mutex_sem = 0 }) ≡ ok (some k, record m { mutex_sem = 0 })
    → (m.kthreads k).th ≡ some t
    → block_on_mutex mutex t (set_status t ps_blocked (record m { mutex_sem = 0 }))
      ≡ ok (tt, with_blocked mutex h₁ e₁ (set_status t ps_blocked (record m { mutex_sem = 0 })))
    → mypthread_enqueue t
        (record (blocked_state mutex t h₁ e₁ m) { mutex_sem = 0; mypthread_sem = 0 })
      ≡ ok (
        tt,
        with_queue h₂ e₂
            (record (blocked_state mutex t h₁ e₁ m) { mutex_sem = 0; mypthread_sem = 0 }),
      )
    → mypthread_mutex_lock tid mutex m
      ≡ and_return
          (mythread_scheduler k set_mode)
          0
          (with_queue h₂ e₂ (blocked_state mutex t h₁ e₁ m))
unfolding mypthread_mutex_lock
lock-scheduler tid mutex k t m h₁ e₁ h₂ e₂ u l g c b q =
    after _ _ (sem_wait-one mutex_sem m u.mutex) (
      after _ _ refl (
        rw l (
          after _ _ g (
            after _ _ (current_thread_lem _ k t c) (
              after _ _ refl (
                after _ _ b (
                  after _ _ refl (
                    locked_enqueue t (record (blocked_state mutex t h₁ e₁ m) { mutex_sem = 0 }) h₂
                      e₂ _ u.mypthread q
                      (after _ _ (sem_post_lem mutex_sem _)
                        (after _ _ refl (rw (l, u.mutex))))))))))))

snoc-ne-nil : (xs : Cells) (x : ℕ × ℕ) → xs ++ x ∷ [] ≡ [] → ⊥
snoc-ne-nil [] x e = cc
snoc-ne-nil (y ∷ xs) x e = cc

-- What a lock of a taken mutex did up to the scheduler.
pub record Contended (tid mutex k t : ℕ) (m : Machine) (p : Ptr) (qs bs : Cells) : Type 0 where
  pub mid : Machine
  pub enters : mypthread_mutex_lock tid mutex m ≡ and_return (mythread_scheduler k set_mode) 0 mid
  pub status : (mid.threads t).state ≡ ps_blocked
  pub context : (mid.threads t).ctx ≡ lock_entry mutex
  pub others : (x : ℕ) → (t == x) ≡ false → mid.threads x ≡ m.threads x
  pub taken : (mid.mutexes mutex).lock ≡ true
  pub queue : IsList mid.nodes mid.mypthread_q.head (qs ++ (m.nodes.fresh + 1, t) ∷ [])
  pub qtail : TailIs mid.mypthread_q.tail (qs ++ (m.nodes.fresh + 1, t) ∷ [])
  pub waiters :
      Waiters mid mutex p (qs ++ (m.nodes.fresh + 1, t) ∷ []) (bs ++ (m.nodes.fresh, t) ∷ [])
  pub free : Unlocked mid

-- A lock of a taken mutex blocks the caller: it is appended to the mutex's list and, as a blocked
-- thread, to the run queue, and its context is replaced by a new call of `mypthread_mutex_lock`, so
-- the place that it was called from is lost. Then the scheduler picks another thread.
pub lock-Contended :
    (tid mutex k t : ℕ) (m : Machine) (p : Ptr) (qs ks bs : Cells)
    → Unlocked m
    → Lists m qs ks
    → Current m ks tid k t
    → Waiters m mutex p qs bs
    → (m.mutexes mutex).lock ≡ true
    → Contended tid mutex k t m p qs bs
lock-Contended tid mutex k t m p qs ks bs u l c w taken =
    let n = m.nodes.fresh in
    let m₀ = record m { mutex_sem = 0 } in
    let (r₁, b, a₁) =
      block-Added mutex t p (set_status t ps_blocked m₀) qs bs
        (record { list = w.list; tail = w.tail; lead = w.lead; apart = w.apart }) in
    let m₁ = blocked_state mutex t r₁.0 r₁.1 m in
    let same : SameAt qs m.nodes.cells r₁.0.cells =
      λ x i. a₁.same x (Disjoint-snoc n t qs bs w.apart l.queue.below (omega arith) x i) in
    let queue : IsList r₁.0 m.mypthread_q.head qs =
      Linked-frame none m.nodes r₁.0 m.mypthread_q.head qs l.queue same (omega (arith, a₁.fresh)) in
    let (r₂, q, a₂) =
      enqueue-Added t (record m₁ { mutex_sem = 0; mypthread_sem = 0 }) qs queue l.tail in
    let qs' = qs ++ (n + 1, t) ∷ [] in
    let bs' = bs ++ (n, t) ∷ [] in
    let away : Disjoint bs' qs =
      Disjoint-sym qs bs' (Disjoint-snoc n t qs bs w.apart l.queue.below (omega arith)) in
    let kept : SameAt bs' r₁.0.cells r₂.0.cells =
      λ x i. a₂.same x (Disjoint-snoc r₁.0.fresh t bs' qs away a₁.list.below (omega arith) x i) in
    let apart : Disjoint bs' qs' =
      Disjoint-snoc (n + 1) t bs' qs away a₁.list.below (omega (arith, a₁.fresh)) in
    record {
      mid = with_queue r₂.0 r₂.1 m₁;
      enters =
          lock-scheduler tid mutex k t m r₁.0 r₁.1 r₂.0 r₂.1 u taken
            (get_kthread-find_item tid m₀ ks l.kernel ∙ ap (λ j. ok (j, m₀)) c.found) c.runs b q;
      status = ground arith;
      context = ground arith;
      others = λ x ne. ground arith;
      taken = ground arith;
      queue = subst (λ f. IsList r₂.0 r₂.1.head (qs ++ (f, t) ∷ [])) a₁.fresh a₂.list;
      qtail = subst (λ f. TailIs r₂.1.tail (qs ++ (f, t) ∷ [])) a₁.fresh a₂.ends;
      waiters = record {
        list =
            rw (==_self mutex)
              (Linked-frame p r₁.0 r₂.0 r₁.1.head bs' a₁.list kept (omega (arith, a₂.fresh)));
        tail = rw (==_self mutex) a₁.ends;
        lead = λ e. absurd (snoc-ne-nil bs (n, t) e);
        apart = Disjoint-sym bs' qs' apart;
      };
      free = omega arith;
    }
