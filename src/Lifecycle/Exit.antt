-- ===== src/Lifecycle/Exit.antt =====
-- `mypthread_exit` of pthreads/mypthread.c up to the scheduler.
use operating_system_linux_t.Common.{
  ℕ, ◌≡◌, refl, ◌∙◌, ap, true, ◌&&◌, some, ◌==◌, ==_self, arith, subst,
}
use operating_system_linux_t.Memory.{ok, mypthread_sem}
use operating_system_linux_t.Memory.Chain.{Cells, IsList}
use operating_system_linux_t.Thread.{Threads, freed, ps_dead}
use operating_system_linux_t.Queue.Lookup.{any_item}
use operating_system_linux_t.Queue.Wake
use operating_system_linux_t.Queue.Wake.{Woken}
use operating_system_linux_t.Machine.{Machine, lift, ◌>>=◌, after, dec, set_ctx, set_status}
use operating_system_linux_t.Machine.Ops.{sem_wait-one, sem_post_lem, update_waiting, get_kthread}
use operating_system_linux_t.Machine.Inv.{Unlocked, Lists, Current, get_kthread-find_item}
use operating_system_linux_t.Scheduler.{set_mode, and_return, mythread_scheduler}
use operating_system_linux_t.Scheduler.Switch.{can_save}
use operating_system_linux_t.Lifecycle.{mypthread_exit, free_ctx}
use operating_system_linux_t.Lifecycle.Yield.{current_thread_lem}

update_waiting-Woken :
    (id : ℕ) (m : Machine) (qs : Cells)
    → IsList m.nodes m.mypthread_q.head qs
    → (ts : Threads) × (update_waiting id m ≡ ok (tt, record m { threads = ts }))
      × Woken (λ x. any_item (λ u. u == x) qs && ((m.threads x).dependent_th == id)) m.threads ts
unfolding update_waiting ◌>>=◌
update_waiting-Woken id m qs is =
    let (ts, run, woken) =
      Wake.mypthread_update_waiting_threads-Woken m.nodes m.mypthread_q m.threads id qs is in
    (ts, rw (run, lift), woken)

free_ctx-freed :
    (t : ℕ) (m : Machine)
    → can_save (m.threads t).ctx ≡ true
    → free_ctx t m ≡ ok (tt, set_ctx t freed m)
unfolding free_ctx
free_ctx-freed t m s = ground arith

-- The state in which `mypthread_exit` calls the scheduler.
abbrev pub exited_state : ℕ → Threads → Machine → Machine
exited_state t ts m =
    set_ctx t freed (record m { mypthread_count = dec m.mypthread_count; threads = ts })

exit-scheduler :
    (tid k t : ℕ) (m : Machine) (ts : Threads)
    → Unlocked m
    → get_kthread tid m ≡ ok (some k, m)
    → (m.kthreads k).th ≡ some t
    → can_save (ts t).ctx ≡ true
    → update_waiting ((set_status t ps_dead m).threads t).th_id (
        set_status t ps_dead
          (record m { mypthread_count = dec m.mypthread_count; mypthread_sem = 0 }))
      ≡ ok (
        tt,
        record m { mypthread_count = dec m.mypthread_count; mypthread_sem = 0; threads = ts },
      )
    → mypthread_exit tid m ≡ and_return (mythread_scheduler k set_mode) 0 (exited_state t ts m)
unfolding mypthread_exit
exit-scheduler tid k t m ts u g c s w = after _ _ g (
    after _ _ (sem_wait-one mypthread_sem m u.mypthread) (
      after _ _ refl (
        after _ _ (current_thread_lem _ k t c) (
          after _ _ refl (
            after _ _ refl (
              after _ _ w (
                after _ _ (sem_post_lem mypthread_sem _)
                  (after _ _ (free_ctx-freed t _ s) (after _ _ refl (rw u.mypthread))))))))))

-- What `mypthread_exit` did up to the scheduler.
pub record Exits (tid k t : ℕ) (m : Machine) (qs : Cells) : Type 0 where
  pub threads : Threads
  pub enters :
      mypthread_exit tid m ≡ and_return (mythread_scheduler k set_mode) 0 (exited_state t threads m)
  pub woken :
      Woken
        (λ x.
          any_item (λ u. u == x) qs
          && (((set_status t ps_dead m).threads x).dependent_th == (m.threads t).th_id))
        (set_status t ps_dead m).threads
        threads

-- `mypthread_exit` counts the thread out, marks it dead, frees its context, and makes exactly those
-- queued threads active that wait for its id; then the scheduler picks another thread.
pub mypthread_exit-Exits :
    (tid k t : ℕ) (m : Machine) (qs ks : Cells)
    → Unlocked m
    → Lists m qs ks
    → Current m ks tid k t
    → can_save (m.threads t).ctx ≡ true
    → Exits tid k t m qs
mypthread_exit-Exits tid k t m qs ks u l c s =
    let m₀ =
      set_status t ps_dead
        (record m { mypthread_count = dec m.mypthread_count; mypthread_sem = 0 }) in
    let (ts, run, woken) =
      update_waiting-Woken ((set_status t ps_dead m).threads t).th_id m₀ qs l.queue in
    record {
      threads = ts;
      enters =
          exit-scheduler tid k t m ts u
            (get_kthread-find_item tid m ks l.kernel ∙ ap (λ j. ok (j, m)) c.found) c.runs
            (ground (arith, woken t)) run;
      woken =
          subst
            (λ i.
              Woken
                (λ x.
                  any_item (λ u. u == x) qs
                  && (((set_status t ps_dead m).threads x).dependent_th == i))
                (set_status t ps_dead m).threads ts)
            (rw (==_self t)) woken;
    }
