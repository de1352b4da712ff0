-- ===== src/Sync/Waiting.antt =====
-- `mypthread_cond_wait` of pthreads/mypthread.c up to the scheduler.
use operating_system_linux_t.Common.{
  ℕ, ◌+◌, ◌≡◌, refl, ◌∙◌, ap, false, none, some, [], ◌∷◌, ◌++◌, ◌==◌, ==_self, arith, if◌then◌else◌,
  subst,
}
use operating_system_linux_t.Memory.{ok, cond_sem, Ptr, Heap, Ends}
use operating_system_linux_t.Memory.Chain.{
  Cells, IsList, TailIs, SameAt, Disjoint, Linked-frame, Disjoint-snoc, Disjoint-sym,
}
use operating_system_linux_t.Thread.{Threads, ps_active, ps_blocked}
use operating_system_linux_t.Queue
use operating_system_linux_t.Queue.Add
use operating_system_linux_t.Queue.Add.{Added}
use operating_system_linux_t.Queue.Lookup.{any_item}
use operating_system_linux_t.Machine.{Machine, lift, ◌>>=◌, after, set_status, set_mutex, set_cond}
use operating_system_linux_t.Machine.Ops.{
  sem_wait-one, sem_post_lem, get_kthread, mypthread_enqueue,
}
use operating_system_linux_t.Machine.Inv.{
  Unlocked, Lists, Current, with_queue, locked_enqueue, enqueue-Added, get_kthread-find_item,
}
use operating_system_linux_t.Lifecycle.Yield.{current_thread_lem}
use operating_system_linux_t.Sync.{cond_sleep, wait_on_cond, release_blocked}
use operating_system_linux_t.Sync.Locking.{Waiters}
use operating_system_linux_t.Sync.Unlocking.{
  with_released, release-Released, unlock-released, FreedOnly-keeps,
}
use operating_system_linux_t.Sync.Waking.{Sleepers}

-- The state with other nodes and another list of threads that wait for the condition.
abbrev pub with_sleeping : ℕ → Heap ℕ → Ends → Machine → Machine
with_sleeping cond h e m = set_cond cond (record { cond_q = e }) (record m { nodes = h })

wait_on_cond-run :
    (cond t : ℕ) (m : Machine) (r : Heap ℕ × Ends)
    → Queue.ll_add t m.nodes (m.conds cond).cond_q ≡ ok r
    → wait_on_cond cond t m ≡ ok (tt, with_sleeping cond r.0 r.1 m)
unfolding wait_on_cond ◌>>=◌
wait_on_cond-run cond t m r run = rw (run, lift)

-- The mutex released.
abbrev pub unlocked_state : ℕ → Heap ℕ → Ends → Threads → Machine → Machine
unlocked_state mutex h e ts m =
    with_released mutex h e ts (set_mutex mutex (record (m.mutexes mutex) { lock = false }) m)

-- The thread `t` made to wait for the condition.
abbrev pub sleeping_state : (cond t : ℕ) → Heap ℕ → Ends → Machine → Machine
sleeping_state cond t h e m = with_sleeping cond h e (set_status t ps_blocked m)

cond_sleep-run :
    (tid cond mutex k t : ℕ) (m : Machine) (h : Heap ℕ) (e : Ends) (ts : Threads) (h₁ : Heap ℕ)
    (e₁ : Ends) (h₂ : Heap ℕ) (e₂ : Ends)
    → Unlocked m
    → release_blocked mutex (
        set_mutex mutex
          (record (m.mutexes mutex) { lock = false })
          (record m { cond_sem = 0; mutex_sem = 0 }))
      ≡ ok (tt, unlocked_state mutex h e ts (record m { cond_sem = 0; mutex_sem = 0 }))
    → get_kthread tid (unlocked_state mutex h e ts (record m { cond_sem = 0 }))
      ≡ ok (some k, unlocked_state mutex h e ts (record m { cond_sem = 0 }))
    → (m.kthreads k).th ≡ some t
    → wait_on_cond cond t
        (set_status t ps_blocked (unlocked_state mutex h e ts (record m { cond_sem = 0 })))
      ≡ ok (
        tt,
        sleeping_state cond t h₁ e₁ (unlocked_state mutex h e ts (record m { cond_sem = 0 })),
      )
    → mypthread_enqueue t (record (sleeping_state cond t h₁ e₁ (unlocked_state mutex h e ts m)) {
      cond_sem = 0;
      mypthread_sem = 0;
    })
      ≡ ok (
        tt,
        with_queue h₂ e₂ (record (sleeping_state cond t h₁ e₁ (unlocked_state mutex h e ts m)) {
          cond_sem = 0;
          mypthread_sem = 0;
        }),
      )
    → cond_sleep tid cond mutex m
      ≡ ok (k, with_queue h₂ e₂ (sleeping_state cond t h₁ e₁ (unlocked_state mutex h e ts m)))
unfolding cond_sleep
cond_sleep-run tid cond mutex k t m h e ts h₁ e₁ h₂ e₂ u rel g c w q =
    after _ _ (sem_wait-one cond_sem m u.cond) (
      after _ _ (unlock-released mutex (record m { cond_sem = 0 }) h e ts u.mutex rel) (
        after _ _ g (
          after _ _ (current_thread_lem _ k t c) (
            after _ _ refl (
              after _ _ w (
                locked_enqueue t
                  (record (sleeping_state cond t h₁ e₁ (unlocked_state mutex h e ts m)) {
                    cond_sem = 0;
                  })
                  h₂ e₂ _ u.mypthread q (after _ _ (sem_post_lem cond_sem _) (rw u.cond))))))))

-- What `mypthread_cond_wait` did up to the scheduler.
pub record CondSleeps (tid cond mutex k t : ℕ) (m : Machine) (p : Ptr) (qs bs cs : Cells)
    : Type 0 where
  pub mid : Machine
  pub sleeps : cond_sleep tid cond mutex m ≡ ok (k, mid)
  pub status : (mid.threads t).state ≡ ps_blocked
  pub unlocked : (mid.mutexes mutex).lock ≡ false
  pub empty : (mid.mutexes mutex).blocked_q.head ≡ none
  pub woken :
      (x : ℕ)
      → (t == x) ≡ false
      → mid.threads x ≡ (
          if any_item (λ u. u == x) bs
          then record (m.threads x) { state = ps_active }
          else m.threads x)
  pub queue : IsList mid.nodes mid.mypthread_q.head (qs ++ (m.nodes.fresh + 1, t) ∷ [])
  pub qtail : TailIs mid.mypthread_q.tail (qs ++ (m.nodes.fresh + 1, t) ∷ [])
  pub sleepers :
      Sleepers mid cond p (qs ++ (m.nodes.fresh + 1, t) ∷ []) (cs ++ (m.nodes.fresh, t) ∷ [])
  pub free : Unlocked mid

-- The run queue, the threads blocked on the mutex and those that wait for the condition share no
-- node. Then `mypthread_cond_wait`, up to the scheduler, frees the mutex, makes exactly its waiters
-- active, blocks the caller, and appends it to the waiting threads and to the run queue.
pub cond_sleep-CondSleeps :
    (tid cond mutex k t : ℕ) (m : Machine) (pb p : Ptr) (qs ks bs cs : Cells)
    → Unlocked m
    → Lists m qs ks
    → Current m ks tid k t
    → Waiters m mutex pb qs bs
    → Sleepers m cond p qs cs
    → (cs ≡ [] → p ≡ none)
    → Disjoint cs bs
    → CondSleeps tid cond mutex k t m p qs bs cs
cond_sleep-CondSleeps tid cond mutex k t m pb p qs ks bs cs u l c w s lead apart =
    let n = m.nodes.fresh in
    let m₀ =
      set_mutex mutex (record (m.mutexes mutex) { lock = false })
        (record m { cond_sem = 0; mutex_sem = 0 }) in
    let (r, rel_run, rel) = release-Released mutex pb m₀ bs (rw (==_self mutex) w.list) in
    let queue₀ =
      FreedOnly-keeps none m.nodes r.0 m.mypthread_q.head qs bs l.queue w.apart rel.freed
        rel.fresh in
    let wait₀ =
      FreedOnly-keeps p m.nodes r.0 (m.conds cond).cond_q.head cs bs s.list apart rel.freed
        rel.fresh in
    let (r₁, add, a₁) = Add.ll_add-append t p r.0 (m.conds cond).cond_q cs lead wait₀ s.tail in
    let same₁ : SameAt qs r.0.cells r₁.0.cells =
      λ x i. a₁.same x (Disjoint-snoc r.0.fresh t qs cs s.apart queue₀.below (omega arith) x i) in
    let queue₁ : IsList r₁.0 m.mypthread_q.head qs =
      Linked-frame none r.0 r₁.0 m.mypthread_q.head qs queue₀ same₁ (omega (arith, a₁.fresh)) in
    let m₁ = unlocked_state mutex r.0 r.1 r.2 m in
    let m₂ = sleeping_state cond t r₁.0 r₁.1 m₁ in
    let (r₂, q, a₂) =
      enqueue-Added t (record m₂ { cond_sem = 0; mypthread_sem = 0 }) qs queue₁ l.tail in
    let cs' = cs ++ (r.0.fresh, t) ∷ [] in
    let qs' = qs ++ (r₁.0.fresh, t) ∷ [] in
    let away : Disjoint cs' qs =
      Disjoint-sym qs cs' (Disjoint-snoc r.0.fresh t qs cs s.apart queue₀.below (omega arith)) in
    let kept : SameAt cs' r₁.0.cells r₂.0.cells =
      λ x i. a₂.same x (Disjoint-snoc r₁.0.fresh t cs' qs away a₁.list.below (omega arith) x i) in
    let apart' : Disjoint cs' qs' =
      Disjoint-snoc r₁.0.fresh t cs' qs away a₁.list.below (omega arith) in
    let mid = with_queue r₂.0 r₂.1 m₂ in
    let fresh₁ : r₁.0.fresh ≡ n + 1 = omega (arith, a₁.fresh, rel.fresh) in
    record {
      mid = mid;
      sleeps =
          cond_sleep-run tid cond mutex k t m r.0 r.1 r.2 r₁.0 r₁.1 r₂.0 r₂.1 u rel_run
            (get_kthread-find_item tid
                (unlocked_state mutex r.0 r.1 r.2 (record m { cond_sem = 0 })) ks l.kernel
              ∙ ap (λ j. ok (j, unlocked_state mutex r.0 r.1 r.2 (record m { cond_sem = 0 })))
                  c.found)
            c.runs
            (wait_on_cond-run cond t
              (set_status t ps_blocked
                (unlocked_state mutex r.0 r.1 r.2 (record m { cond_sem = 0 })))
              r₁ add)
            q;
      status = rw (==_self t) refl;
      unlocked = rw (==_self mutex) refl;
      empty = rw (==_self mutex) rel.empty;
      woken = λ x ne. rw ne (rel.woken x);
      queue = subst (λ f. IsList r₂.0 r₂.1.head (qs ++ (f, t) ∷ [])) fresh₁ a₂.list;
      qtail = subst (λ f. TailIs r₂.1.tail (qs ++ (f, t) ∷ [])) fresh₁ a₂.ends;
      sleepers =
          subst (λ f. Sleepers mid cond p (qs ++ (f, t) ∷ []) (cs ++ (n, t) ∷ [])) fresh₁
            (subst (λ f. Sleepers mid cond p qs' (cs ++ (f, t) ∷ [])) rel.fresh
              (record {
                list =
                    rw (==_self cond) (
                      Linked-frame p r₁.0 r₂.0 r₁.1.head cs' a₁.list kept
                        (omega (arith, a₂.fresh)));
                tail = rw (==_self cond) a₁.ends;
                apart = Disjoint-sym cs' qs' apart';
              }));
      free = omega arith;
    }
