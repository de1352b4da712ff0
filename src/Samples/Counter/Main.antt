-- ===== src/Samples/Counter/Main.antt =====
-- `main` of pthreads/mypthread_sample4.c on the only kernel thread: its joins and its exit, once
-- the counting threads have ended.
use operating_system_linux_t.Common.{
  ℕ, zero, suc, ◌+◌, ◌≤◌, ◌<◌, ◌≡◌, refl, ap, ◌∙◌, true, false, ◌||◌, inl, inr, none, some, [], ◌∷◌,
  ◌==◌, arith,
}
use operating_system_linux_t.Memory.{ok}
use operating_system_linux_t.Thread.{Kthread, Threads}
use operating_system_linux_t.Queue.Lookup.{any_item, runs}
use operating_system_linux_t.Machine.{Machine, after}
use operating_system_linux_t.Machine.Inv.{Unlocked}
use operating_system_linux_t.Scheduler.{returned, set_mode}
use operating_system_linux_t.Scheduler.Round.{scheduler-returned}
use operating_system_linux_t.Scheduler.Switch.{can_save}
use operating_system_linux_t.Lifecycle.{mypthread_join}
use operating_system_linux_t.Lifecycle.Exit.{exited_state, mypthread_exit-Exits}
use operating_system_linux_t.Lifecycle.Join.{join_absent-cases}
use operating_system_linux_t.Samples.{join_at}
use operating_system_linux_t.Samples.Counter.Worker.{Going}
use operating_system_linux_t.Samples.Counter.Drive.{main_from}

no_other :
    (kts : ℕ → Kthread) (ts : Threads) (id x k main : ℕ)
    → (kts k).th ≡ some main
    → ((ts main).th_id == id) ≡ false
    → any_item (runs kts ts id) ((x, k) ∷ []) ≡ false
no_other kts ts id x k main run other =
    ap (λ p. elim p [ none ↦ false | some t ↦ (ts t).th_id == id ] || false) run ∙ rw other refl

-- A join of a thread that has left the queue, with an id that is not `main`'s, changes nothing.
join-gone :
    (mutex tid x k main id : ℕ) (m : Machine)
    → Going mutex tid x k main m []
    → ((m.threads main).th_id == id) ≡ false
    → mypthread_join tid id m ≡ ok (returned 0, m)
join-gone mutex tid x k main id m g other =
    let off = no_other m.kthreads m.threads id x k main g.current.runs other in
    elim (join_absent-cases tid k main id m [] ((x, k) ∷ []) g.free g.lists g.current refl
      ((main, g.current.runs), tt)) [
        | inl (on, joins) ↦ absurd (ground (arith, on, off))
        | inr (off', run) ↦ run
      ]

-- `main` when no other thread is left: its joins come back, its exit counts it out, and the scheduler
-- finds no thread to count on.
pub main_from-ends :
    (mutex tid x k main left j : ℕ) (threads : ℕ → ℕ) (m : Machine)
    → Going mutex tid x k main m []
    → can_save (m.threads main).ctx ≡ true
    → ((i : ℕ)
        → j ≤ i
        → i < j + left
        → ((m.threads main).th_id == (m.threads (threads i)).th_id) ≡ false)
    → (m' : Machine) × (j' : ℕ) × (main_from left tid j threads m ≡ ok ((returned 0, 0, j'), m'))
unfolding main_from join_at
main_from-ends mutex tid x k main zero j threads m g save ids =
    let e = mypthread_exit-Exits tid k main m [] ((x, k) ∷ []) g.free g.lists g.current save in
    let w = exited_state main e.threads m in
    let uw : Unlocked w = record {
      mypthread = g.free.mypthread;
      mutex = g.free.mutex;
      kthread = g.free.kthread;
      cond = g.free.cond;
    } in
    let none' : w.mypthread_count ≡ 0 = rw g.count refl in
    (w, j, after _ _ (e.enters ∙ after _ _ (scheduler-returned k set_mode w uw none') refl) refl)
main_from-ends mutex tid x k main (suc left) j threads m g save ids =
    let (m', j', run) =
      main_from-ends mutex tid x k main left (suc j) threads m g save
        (λ i le lt. ids i (omega (arith, le)) (omega (arith, lt))) in
    (
      m',
      j',
      after _ _
          (after _ _ refl (
            join-gone mutex tid x k main (m.threads (threads j)).th_id m g
              (ids j (omega arith) (omega arith))))
          run,
    )
