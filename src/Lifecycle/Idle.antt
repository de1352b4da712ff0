-- ===== src/Lifecycle/Idle.antt =====
-- `schedule_kthread` of pthreads/mypthread.c when no queued thread is active, and a join after it.
mod Null
use operating_system_linux_t.Common.{
  ℕ, zero, suc, ◌+◌, ◌<◌, ◌≡◌, refl, ap, subst, ◌∙◌, false, ◌||◌, none, some, [], ◌∷◌, ◌++◌, ◌==◌,
  length, length-append, ==_self, arith,
}
use operating_system_linux_t.Memory.{ok, fault, mypthread_sem, kthread_sem, Ptr, Heap, Ends, update}
use operating_system_linux_t.Memory.Chain.{Cells, first, Chain, IsList, TailIs}
use operating_system_linux_t.Thread.{Threads, Kthread, Kthreads, is_active}
use operating_system_linux_t.Queue.{ll_add, mykthread_add, any_running, mykthread_is_running}
use operating_system_linux_t.Queue.Add.{Added, ll_add-append}
use operating_system_linux_t.Queue.Dequeue.{Inactive}
use operating_system_linux_t.Queue.Lookup.{any_item, find_item, runs, AllBusy}
use operating_system_linux_t.Machine.{Machine, ◌>>=◌, after, stop-fault, lift, set_kthread}
use operating_system_linux_t.Machine.Ops.{
  add_kthread, sem_wait-one, sem_post_lem, get_thread, get_kthread, is_running,
}
use operating_system_linux_t.Machine.Inv.{
  Unlocked, Lists, get_thread-find_item, get_kthread-find_item,
}
use operating_system_linux_t.Scheduler.{
  Mode, sleeping, set_mode, mythread_scheduler, scheduler_round,
}
use operating_system_linux_t.Scheduler.Round.{
  Turn, sleeps, switches, scheduler_round-Turn, scheduler-round,
}
use operating_system_linux_t.Lifecycle.Idle.Null.{
  AllBusy-idle, any_item-idle, update_self, is_running-null,
}
use operating_system_linux_t.Lifecycle.{new_kthread, schedule_kthread, mypthread_join}

mykthread_add-ll_add : (k : ℕ) (h : Heap ℕ) (e : Ends) → mykthread_add k h e ≡ ll_add k h e
unfolding mykthread_add ll_add
mykthread_add-ll_add k h e = refl

pub add_kthread-Added :
    (k : ℕ) (m : Machine) (ks : Cells)
    → IsList m.knodes m.mykthread_ll.head ks
    → TailIs m.mykthread_ll.tail ks
    → (r : Heap ℕ × Ends) × (add_kthread k m
        ≡ ok (tt, record m { knodes = r.0; mykthread_ll = r.1 }))
      × Added none m.knodes ks k r
unfolding add_kthread ◌>>=◌
add_kthread-Added k m ks is tl =
    let (r, run, added) = ll_add-append k none m.knodes m.mykthread_ll ks (λ _. refl) is tl in
    (r, rw (mykthread_add-ll_add k m.knodes m.mykthread_ll, run, lift), added)

-- The state with a new kernel thread that runs nothing.
abbrev pub with_idle : ℕ → Heap ℕ → Ends → Machine → Machine
with_idle tid h e m = record (set_kthread m.next_kthread (record { kth_id = tid; th = none }) m) {
  next_kthread = m.next_kthread + 1;
  knodes = h;
  mykthread_ll = e;
}

Inactive-middle :
    (ts : Threads) (ys : Cells) (a t : ℕ) (zs : Cells)
    → Inactive ts (ys ++ (a, t) ∷ zs)
    → is_active (ts t).state ≡ false
Inactive-middle ts [] a t zs ina = ina.0
Inactive-middle ts ((b, v) ∷ ys) a t zs ina = Inactive-middle ts ys a t zs ina.1

-- With no active thread in the queue a round sleeps.
Turn-sleeps :
    (k : ℕ) (last : Ptr) (mode : Mode) (m : Machine) (qs : Cells)
    → Inactive m.threads qs
    → Turn k last mode m qs
    → scheduler_round k last mode m ≡ ok (sleeping k last mode, m)
Turn-sleeps k last mode m qs ina (sleeps ina' run) = run
Turn-sleeps k last mode m qs ina (switches s h e rem run) = absurd (
    ground (
      arith,
      s.active,
      Inactive-middle m.threads s.front s.addr s.thread s.back
          (subst (Inactive m.threads) s.whole ina),
    ))

-- The scheduler of the new kernel thread finds nothing to run.
idle_scheduler :
    (tid : ℕ) (h : Heap ℕ) (e : Ends) (m : Machine) (qs ks : Cells)
    → Unlocked m
    → Lists m qs ks
    → Inactive m.threads qs
    → (m.mypthread_count == 0) ≡ false
    → mythread_scheduler m.next_kthread set_mode (with_idle tid h e m)
      ≡ ok (sleeping m.next_kthread none set_mode, with_idle tid h e m)
idle_scheduler tid h e m qs ks u l ina nz =
    let w = with_idle tid h e m in
    let k = m.next_kthread in
    let uw : Unlocked w = record {
      mypthread = u.mypthread;
      mutex = u.mutex;
      kthread = u.kthread;
      cond = u.cond;
    } in
    let null : (w.kthreads k).th ≡ none = ground arith in
    scheduler-round k set_mode w uw nz
    ∙ ap (λ p. scheduler_round k p set_mode w) null
    ∙ Turn-sleeps k none set_mode w qs ina (scheduler_round-Turn k none set_mode w qs uw l.queue)

-- What a `schedule_kthread` that finds nothing to run leaves: a new kernel thread at the end of the
-- list, with no user thread.
pub record Idles (tid : ℕ) (m : Machine) (ks : Cells) : Type 0 where
  pub mid : Heap ℕ × Ends
  pub added : Added none m.knodes ks m.next_kthread mid
  pub sleeps :
      schedule_kthread tid m
      ≡ ok (sleeping m.next_kthread none set_mode, with_idle tid mid.0 mid.1 m)

schedule_kthread-idle :
    (tid : ℕ) (h : Heap ℕ) (e : Ends) (m : Machine)
    → add_kthread m.next_kthread (with_idle tid m.knodes m.mykthread_ll m)
      ≡ ok (tt, with_idle tid h e m)
    → mythread_scheduler m.next_kthread set_mode (with_idle tid h e m)
      ≡ ok (sleeping m.next_kthread none set_mode, with_idle tid h e m)
    → schedule_kthread tid m ≡ ok (sleeping m.next_kthread none set_mode, with_idle tid h e m)
unfolding schedule_kthread new_kthread
schedule_kthread-idle tid h e m add run = after _ _ refl (after _ _ add (after _ _ run refl))

pub schedule_kthread-Idles :
    (tid : ℕ) (m : Machine) (qs ks : Cells)
    → Unlocked m
    → Lists m qs ks
    → Inactive m.threads qs
    → (m.mypthread_count == 0) ≡ false
    → Idles tid m ks
schedule_kthread-Idles tid m qs ks u l ina nz =
    let (r, run, added) =
      add_kthread-Added m.next_kthread (with_idle tid m.knodes m.mykthread_ll m) ks l.kernel
        l.ktail in
    record {
      mid = r;
      added = added;
      sleeps =
          schedule_kthread-idle tid r.0 r.1 m run (idle_scheduler tid r.0 r.1 m qs ks u l ina nz);
    }

is_running-fault :
    (id : ℕ) (m : Machine)
    → mykthread_is_running m.knodes m.mykthread_ll m.kthreads m.threads id ≡ fault
    → is_running id m ≡ fault
unfolding is_running ◌>>=◌
is_running-fault id m e = rw (e, lift)

join-fault :
    (tid id : ℕ) (kp : Ptr) (m : Machine)
    → Unlocked m
    → get_thread id (record m { mypthread_sem = 0 }) ≡ ok (none, record m { mypthread_sem = 0 })
    → get_kthread tid (record m { mypthread_sem = 0; kthread_sem = 0 })
      ≡ ok (kp, record m { mypthread_sem = 0; kthread_sem = 0 })
    → is_running id (record m { mypthread_sem = 1; kthread_sem = 1 }) ≡ fault
    → mypthread_join tid id m ≡ fault
unfolding mypthread_join
join-fault tid id kp m u g g' run = after _ _ (sem_wait-one mypthread_sem m u.mypthread) (
    after _ _ g (
      after _ _ (sem_wait-one kthread_sem _ u.kthread) (
        after _ _ g' (
          after _ _ (sem_post_lem kthread_sem _)
            (after _ _ (sem_post_lem mypthread_sem _) (stop-fault _ _ run))))))

-- When no queued thread is active, a new kernel thread sleeps in its scheduler with no user thread,
-- and a join, by any thread, of one that is neither queued nor run by a kernel thread then reads
-- the missing user thread of the new kernel thread: a fault.
pub join_idle-fault :
    (tid tid' id : ℕ) (m : Machine) (qs ks : Cells)
    → Unlocked m
    → Lists m qs ks
    → Inactive m.threads qs
    → (m.mypthread_count == 0) ≡ false
    → any_item (λ k. m.next_kthread == k) ks ≡ false
    → AllBusy m.kthreads ks
    → any_item (runs m.kthreads m.threads id) ks ≡ false
    → find_item (λ x. (m.threads x).th_id == id) qs ≡ none
    → (m' : Machine) × (schedule_kthread tid m ≡ ok (sleeping m.next_kthread none set_mode, m'))
      × (mypthread_join tid' id m' ≡ fault)
join_idle-fault tid tid' id m qs ks u l ina nz new busy off gone =
    let i = schedule_kthread-Idles tid m qs ks u l ina nz in
    let w = with_idle tid i.mid.0 i.mid.1 m in
    let all = ks ++ (m.knodes.fresh, m.next_kthread) ∷ [] in
    (
      w,
      i.sleeps,
      join-fault tid' id _ w
          (record { mypthread = u.mypthread; mutex = u.mutex; kthread = u.kthread; cond = u.cond })
          (get_thread-find_item id (record w { mypthread_sem = 0 }) qs l.queue
            ∙ ap (λ j. ok (j, record w { mypthread_sem = 0 })) gone)
          (get_kthread-find_item tid' (record w { mypthread_sem = 0; kthread_sem = 0 }) all
            i.added.list)
          (is_running-fault id (record w { mypthread_sem = 1; kthread_sem = 1 })
            (is_running-null m.threads w.kthreads id i.mid.0 i.mid.1 ks m.knodes.fresh
              m.next_kthread i.added.list (AllBusy-idle m.kthreads m.next_kthread tid ks new busy)
              (any_item-idle m.kthreads m.threads id m.next_kthread tid ks new ∙ off)
              (ap (λ v. v.th) (update_self m.kthreads m.next_kthread _)))),
    )
