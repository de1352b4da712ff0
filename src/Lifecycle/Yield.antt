-- ===== src/Lifecycle/Yield.antt =====
-- `mypthread_yield` of pthreads/mypthread.c, through one round of the scheduler.
use operating_system_linux_t.Common.{
  ℕ, ◌≡◌, refl, ◌∙◌, ap, true, false, none, some, [], ◌∷◌, ◌++◌, ◌==◌, arith,
}
use operating_system_linux_t.Memory.{ok, Heap, Ends}
use operating_system_linux_t.Memory.Chain.{Cells}
use operating_system_linux_t.Thread.{Threads, saved, in_yield, ps_active, is_active}
use operating_system_linux_t.Queue.Add.{Added}
use operating_system_linux_t.Queue.Dequeue.{Inactive, Split, Removed}
use operating_system_linux_t.Machine.{Machine, after, set_ctx, set_status}
use operating_system_linux_t.Machine.Ops.{get_kthread, mypthread_enqueue}
use operating_system_linux_t.Machine.Inv.{
  Unlocked, Lists, Current, with_queue, locked_enqueue, enqueue-Added, get_kthread-find_item,
}
use operating_system_linux_t.Scheduler.{
  swap_mode, running, and_return, mythread_scheduler, scheduler_round,
}
use operating_system_linux_t.Scheduler.Round.{
  hand_over, Turn, sleeps, switches, scheduler_round-Turn, scheduler-round,
}
use operating_system_linux_t.Scheduler.Switch.{
  can_save, AllRun, AllRun-at, AllRun-append, AllRun-mono, swap_context-running, and_return-running,
  and_return-eq,
}
use operating_system_linux_t.Lifecycle.{current_thread, mypthread_yield}

pub current_thread_lem :
    (m : Machine) (k t : ℕ) → (m.kthreads k).th ≡ some t → current_thread (some k) m ≡ ok (t, m)
unfolding current_thread
current_thread_lem m k t e = after _ _ refl (after _ _ refl (rw e))

-- Up to the scheduler.
yield-scheduler :
    (tid k t : ℕ) (m : Machine) (h : Heap ℕ) (e : Ends)
    → Unlocked m
    → get_kthread tid m ≡ ok (some k, m)
    → (m.kthreads k).th ≡ some t
    → mypthread_enqueue t (record (set_status t ps_active m) { mypthread_sem = 0 })
      ≡ ok (tt, with_queue h e (record (set_status t ps_active m) { mypthread_sem = 0 }))
    → mypthread_yield tid m
      ≡ and_return
          (mythread_scheduler k (swap_mode in_yield))
          0
          (with_queue h e (set_status t ps_active m))
unfolding mypthread_yield
yield-scheduler tid k t m h e u g c run = after _ _ g (
    after _ _ (current_thread_lem m k t c) (
      after _ _ refl
        (locked_enqueue t (set_status t ps_active m) h e _ u.mypthread run (after _ _ refl refl))))

-- An active thread at the end of the queue is found, if no other.
not-Inactive :
    (ts : Threads) (xs : Cells) (a t : ℕ)
    → is_active (ts t).state ≡ true
    → ¬ Inactive ts (xs ++ (a, t) ∷ [])
not-Inactive ts [] a t on ina = cc
not-Inactive ts ((b, v) ∷ xs) a t on ina = not-Inactive ts xs a t on ina.1

-- The state in which `mypthread_yield` lets thread `s` run.
abbrev pub yielded : (k t s : ℕ) → Heap ℕ → Ends → Machine → Machine
yielded k t s h e m = set_ctx t (saved in_yield) (hand_over k s h e (set_status t ps_active m))

-- What `mypthread_yield` did: the caller `t` was appended, and the first active thread taken out
-- runs from its context.
pub record Yields (tid k t : ℕ) (m : Machine) (qs : Cells) : Type 0 where
  pub mid : Heap ℕ × Ends
  pub added : Added none m.nodes qs t mid
  pub next : Split (set_status t ps_active m).threads (qs ++ (m.nodes.fresh, t) ∷ [])
  pub nodes : Heap ℕ
  pub ends : Ends
  pub taken :
      Removed mid.0 mid.1 next.addr next.thread next.front next.back (some next.thread, nodes, ends)
  pub runs :
      mypthread_yield tid m
      ≡ ok (
        running next.thread ((yielded k t next.thread nodes ends m).threads next.thread).ctx,
        yielded k t next.thread nodes ends m,
      )

Yields-of_Turn :
    (tid k t : ℕ) (m : Machine) (qs : Cells) (mid : Heap ℕ × Ends)
    → Added none m.nodes qs t mid
    → (m.kthreads k).th ≡ some t
    → can_save (m.threads t).ctx ≡ true
    → AllRun m.threads qs
    → mypthread_yield tid m
      ≡ and_return
          (scheduler_round k (some t) (swap_mode in_yield))
          0
          (with_queue mid.0 mid.1 (set_status t ps_active m))
    → Turn k
        (some t)
        (swap_mode in_yield)
        (with_queue mid.0 mid.1 (set_status t ps_active m))
        (qs ++ (m.nodes.fresh, t) ∷ [])
    → Yields tid k t m qs
Yields-of_Turn tid k t m qs mid added c sv ar run (sleeps ina stay) =
    absurd (not-Inactive (set_status t ps_active m).threads qs m.nodes.fresh t (ground arith) ina)
Yields-of_Turn tid k t m qs mid added c sv ar run (switches s h e rem sw) =
    let m₂ = hand_over k s.thread h e (with_queue mid.0 mid.1 (set_status t ps_active m)) in
    let saved_threads = (set_ctx t (saved in_yield) m₂).threads in
    let ready = AllRun-at saved_threads s.front s.addr s.thread s.back (
      rw s.whole at (
        AllRun-append saved_threads qs ((m.nodes.fresh, t) ∷ [])
          (AllRun-mono m.threads saved_threads qs (λ x l. ground arith) ar) (ground arith, tt))) in
    record {
      mid = mid;
      added = added;
      next = s;
      nodes = h;
      ends = e;
      taken = rem;
      runs =
          run
          ∙ and_return-running _ 0 (
              sw
              ∙ swap_context-running t in_yield s.thread
                  (hand_over k s.thread h e (with_queue mid.0 mid.1 (set_status t ps_active m)))
                  (ground arith) ready);
    }

-- With every semaphore free and every queued thread's context ready, `mypthread_yield` returns to
-- no one: the caller is appended to the queue as an active thread, its place saved, and the first
-- active thread of the queue runs, which is the caller only if no other is active.
pub mypthread_yield-Yields :
    (tid k t : ℕ) (m : Machine) (qs ks : Cells)
    → Unlocked m
    → Lists m qs ks
    → Current m ks tid k t
    → (m.mypthread_count == 0) ≡ false
    → can_save (m.threads t).ctx ≡ true
    → AllRun m.threads qs
    → Yields tid k t m qs
mypthread_yield-Yields tid k t m qs ks u l c nz sv ar =
    let m₁ = set_status t ps_active m in
    let (mid, run, added) = enqueue-Added t (record m₁ { mypthread_sem = 0 }) qs l.queue l.tail in
    let m₂ = with_queue mid.0 mid.1 m₁ in
    let free : Unlocked m₂ = omega arith in
    Yields-of_Turn tid k t m qs mid added c.runs sv ar
      (yield-scheduler tid k t m mid.0 mid.1 u
          (get_kthread-find_item tid m ks l.kernel ∙ ap (λ p. ok (p, m)) c.found) c.runs run
        ∙ and_return-eq _ _ 0 m₂ m₂ (
            scheduler-round k (swap_mode in_yield) m₂ free nz
            ∙ ap (λ p. scheduler_round k p (swap_mode in_yield) m₂) c.runs))
      (scheduler_round-Turn k (some t) (swap_mode in_yield) m₂ (qs ++ (m.nodes.fresh, t) ∷ []) free
        added.list)
