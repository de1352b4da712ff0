-- ===== src/Lifecycle/Join.antt =====
-- `mypthread_join` of pthreads/mypthread.c up to the scheduler.
use operating_system_linux_t.Common.{
  ℕ, ◌≡◌, refl, ◌∙◌, ap, Bool, true, false, ◌⊎◌, inl, inr, Bool-cases, none, some, ◌==◌,
  if◌then◌else◌,
}
use operating_system_linux_t.Memory.{ok, mypthread_sem, kthread_sem, Heap, Ends}
use operating_system_linux_t.Memory.Chain.{Cells, IsList}
use operating_system_linux_t.Thread.{in_join, ps_waiting, is_dead}
use operating_system_linux_t.Queue.Add.{Added}
use operating_system_linux_t.Queue.Lookup
use operating_system_linux_t.Queue.Lookup.{any_item, find_item, runs, AllBusy}
use operating_system_linux_t.Machine.{Machine, lift, ◌>>=◌, after, set_thread}
use operating_system_linux_t.Machine.Ops.{
  sem_wait-one, sem_post_lem, get_kthread, get_thread, is_running, mypthread_enqueue,
}
use operating_system_linux_t.Machine.Inv.{
  Unlocked, Lists, Current, with_queue, enqueue-Added, locked_enqueue, get_kthread-find_item,
  get_thread-find_item,
}
use operating_system_linux_t.Scheduler.{swap_mode, returned, and_return, mythread_scheduler}
use operating_system_linux_t.Lifecycle.{mypthread_join, wait_for}
use operating_system_linux_t.Lifecycle.Yield.{current_thread_lem}

is_running-any_item :
    (id : ℕ) (m : Machine) (ks : Cells)
    → IsList m.knodes m.mykthread_ll.head ks
    → AllBusy m.kthreads ks
    → is_running id m ≡ ok (any_item (runs m.kthreads m.threads id) ks, m)
unfolding is_running ◌>>=◌
is_running-any_item id m ks is busy = rw (
  Lookup.mykthread_is_running-any_item m.knodes m.mykthread_ll m.kthreads m.threads id ks is busy,
  lift,
)

-- The caller `t` made to wait for thread `id`.
abbrev pub waiting : ℕ → ℕ → Machine → Machine
waiting t id m = set_thread t (record (m.threads t) { state = ps_waiting; dependent_th = id }) m

wait_for-scheduler :
    (k t id : ℕ) (m : Machine) (h : Heap ℕ) (e : Ends)
    → Unlocked m
    → (m.kthreads k).th ≡ some t
    → mypthread_enqueue t (record (waiting t id m) { mypthread_sem = 0 })
      ≡ ok (tt, with_queue h e (record (waiting t id m) { mypthread_sem = 0 }))
    → wait_for (some k) id m
      ≡ and_return (mythread_scheduler k (swap_mode in_join)) 0 (with_queue h e (waiting t id m))
unfolding wait_for
wait_for-scheduler k t id m h e u c run = after _ _ (current_thread_lem m k t c) (
    after _ _ refl (
      after _ _ refl
        (locked_enqueue t (waiting t id m) h e _ u.mypthread run (after _ _ refl refl))))

-- Up to the searches of `mypthread_join`, whose semaphores are free again.
join-queued :
    (tid k id target : ℕ) (m : Machine)
    → Unlocked m
    → get_thread id (record m { mypthread_sem = 0 })
      ≡ ok (some target, record m { mypthread_sem = 0 })
    → get_kthread tid (record m { mypthread_sem = 0; kthread_sem = 0 })
      ≡ ok (some k, record m { mypthread_sem = 0; kthread_sem = 0 })
    → is_dead (m.threads target).state ≡ false
    → mypthread_join tid id m ≡ wait_for (some k) id m
unfolding mypthread_join
join-queued tid k id target m u g g' alive = after _ _ (sem_wait-one mypthread_sem m u.mypthread) (
    after _ _ g (
      after _ _ (sem_wait-one kthread_sem _ u.kthread) (
        after _ _ g' (
          after _ _ (sem_post_lem kthread_sem _) (
            after _ _ (sem_post_lem mypthread_sem _)
              (after _ _ refl (rw alive (rw (u.kthread, u.mypthread)))))))))

join-absent :
    (tid k id : ℕ) (busy : Bool) (m : Machine)
    → Unlocked m
    → get_thread id (record m { mypthread_sem = 0 }) ≡ ok (none, record m { mypthread_sem = 0 })
    → get_kthread tid (record m { mypthread_sem = 0; kthread_sem = 0 })
      ≡ ok (some k, record m { mypthread_sem = 0; kthread_sem = 0 })
    → is_running id (record m { mypthread_sem = 1; kthread_sem = 1 })
      ≡ ok (busy, record m { mypthread_sem = 1; kthread_sem = 1 })
    → mypthread_join tid id m ≡ (if busy then wait_for (some k) id m else ok (returned 0, m))
unfolding mypthread_join
join-absent tid k id true m u g g' run = after _ _ (sem_wait-one mypthread_sem m u.mypthread) (
    after _ _ g (
      after _ _ (sem_wait-one kthread_sem _ u.kthread) (
        after _ _ g' (
          after _ _ (sem_post_lem kthread_sem _) (
            after _ _ (sem_post_lem mypthread_sem _)
              (after _ _ run (rw (u.kthread, u.mypthread))))))))
join-absent tid k id false m u g g' run = after _ _ (sem_wait-one mypthread_sem m u.mypthread) (
    after _ _ g (
      after _ _ (sem_wait-one kthread_sem _ u.kthread) (
        after _ _ g' (
          after _ _ (sem_post_lem kthread_sem _) (
            after _ _ (sem_post_lem mypthread_sem _)
              (after _ _ run (rw (u.kthread, u.mypthread))))))))

-- What a `mypthread_join` that waits did up to the scheduler.
pub record Joins (tid k t id : ℕ) (m : Machine) (qs : Cells) : Type 0 where
  pub mid : Heap ℕ × Ends
  pub added : Added none m.nodes qs t mid
  pub enters :
      mypthread_join tid id m
      ≡ and_return
          (mythread_scheduler k (swap_mode in_join))
          0
          (with_queue mid.0 mid.1 (waiting t id m))

Joins-of_wait_for :
    (tid k t id : ℕ) (m : Machine) (qs ks : Cells)
    → Unlocked m
    → Lists m qs ks
    → (m.kthreads k).th ≡ some t
    → mypthread_join tid id m ≡ wait_for (some k) id m
    → Joins tid k t id m qs
Joins-of_wait_for tid k t id m qs ks u l c enters =
    let (r, run, added) =
      enqueue-Added t (record (waiting t id m) { mypthread_sem = 0 }) qs l.queue l.tail in
    record { mid = r; added = added; enters = enters ∙ wait_for-scheduler k t id m r.0 r.1 u c run }

module _ (tid k t id : ℕ) (m : Machine) (qs ks : Cells) (u : Unlocked m) (l : Lists m qs ks)
    (c : Current m ks tid k t) where
  kthread_found :
      get_kthread tid (record m { mypthread_sem = 0; kthread_sem = 0 })
      ≡ ok (some k, record m { mypthread_sem = 0; kthread_sem = 0 })
  kthread_found =
      get_kthread-find_item tid (record m { mypthread_sem = 0; kthread_sem = 0 }) ks l.kernel
      ∙ ap (λ j. ok (j, record m { mypthread_sem = 0; kthread_sem = 0 })) c.found

  -- A join of a queued thread that is not dead waits.
  pub join_queued-Joins :
      (target : ℕ)
      → find_item (λ x. (m.threads x).th_id == id) qs ≡ some target
      → is_dead (m.threads target).state ≡ false
      → Joins tid k t id m qs
  join_queued-Joins target f alive = Joins-of_wait_for tid k t id m qs ks u l c.runs (
      join-queued tid k id target m u
        (get_thread-find_item id (record m { mypthread_sem = 0 }) qs l.queue
          ∙ ap (λ j. ok (j, record m { mypthread_sem = 0 })) f)
        kthread_found alive)

  -- Where every kernel thread runs a user thread, a join of a thread that is not queued waits if a
  -- kernel thread runs it, and returns at once with nothing changed if none does.
  pub join_absent-cases :
      find_item (λ x. (m.threads x).th_id == id) qs ≡ none
      → AllBusy m.kthreads ks
      → ((any_item (runs m.kthreads m.threads id) ks ≡ true) × Joins tid k t id m qs)
        ⊎ ((any_item (runs m.kthreads m.threads id) ks ≡ false)
            × (mypthread_join tid id m ≡ ok (returned 0, m)))
  join_absent-cases f busy =
      let enters =
        join-absent tid k id (any_item (runs m.kthreads m.threads id) ks) m u
          (get_thread-find_item id (record m { mypthread_sem = 0 }) qs l.queue
            ∙ ap (λ j. ok (j, record m { mypthread_sem = 0 })) f)
          kthread_found
          (is_running-any_item id (record m { mypthread_sem = 1; kthread_sem = 1 }) ks l.kernel
            busy) in
      elim (Bool-cases (any_item (runs m.kthreads m.threads id) ks)) [
        | inl on ↦ inl (on, Joins-of_wait_for tid k t id m qs ks u l c.runs (enters ∙ rw on))
        | inr off ↦ inr (off, enters ∙ rw off)
      ]
