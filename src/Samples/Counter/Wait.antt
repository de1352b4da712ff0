-- ===== src/Samples/Counter/Wait.antt =====
-- The first join of `main` in pthreads/mypthread_sample4.c, which waits for the first counting thread.
use operating_system_linux_t.Common.{
  ℕ, suc, ◌<◌, ◌^◌, ◌≡◌, refl, ap, ◌∙◌, true, false, inl, inr, [], ◌∷◌, ◌++◌, ◌==◌, ==_self, length,
  length-append, arith,
}
use operating_system_linux_t.Memory.{ok}
use operating_system_linux_t.Memory.Chain.{Cells}
use operating_system_linux_t.Thread.{Threads, State, Context, saved, in_join, is_active, is_dead}
use operating_system_linux_t.Queue.Lookup.{any_item}
use operating_system_linux_t.Machine.{Machine, after, set_ctx}
use operating_system_linux_t.Machine.Inv.{Unlocked, with_queue}
use operating_system_linux_t.Scheduler.{running, swap_mode, switch}
use operating_system_linux_t.Scheduler.Round.{hand_over, scheduler-round}
use operating_system_linux_t.Scheduler.Head.{scheduler_round-Hands}
use operating_system_linux_t.Scheduler.Switch.{
  can_run, can_save, swap_context-running, and_return-running,
}
use operating_system_linux_t.Lifecycle.{mypthread_join}
use operating_system_linux_t.Lifecycle.Join.{join_queued-Joins, waiting}
use operating_system_linux_t.Samples.{join_at}
use operating_system_linux_t.Samples.Counter.Worker.{Going, Ready, Active, Kept}
use operating_system_linux_t.Samples.Counter.Drive.{main_from}

alive : (s : State) → is_active s ≡ true → is_dead s ≡ false
alive s act = ground arith

-- The threads in which `main` waits for the thread with the id, its place saved.
abbrev pub parked : (main id : ℕ) → Machine → Threads
parked main id m = (set_ctx main (saved in_join) (waiting main id m)).threads

pub parked-Kept : (main id : ℕ) (m : Machine) → Kept main m.threads (parked main id m)
parked-Kept main id m u = (ground arith, λ ne. ground (arith, ne))

pub parked-Ready :
    (main id b : ℕ) (m : Machine) (ws : Cells)
    → Active m.threads ws
    → any_item (λ u. u == main) ws ≡ false
    → Ready (parked main id m) id (ws ++ (b, main) ∷ [])
parked-Ready main id b m [] act out = (inr (ground arith), tt)
parked-Ready main id b m ((a, u) ∷ ws) act out =
    (inl (ground (arith, act.0, out)), parked-Ready main id b m ws act.1 (ground (arith, out)))

-- What the first join leaves: the first counting thread runs, the others are queued before `main`.
pub record Parks (mutex tid x k main t left j : ℕ) (threads : ℕ → ℕ) (m : Machine) (ws : Cells)
    : Type 0 where
  pub state : Machine
  pub runs :
      main_from (suc left) tid j threads m ≡ ok ((running t (m.threads t).ctx, left, suc j), state)
  pub going : Going mutex tid x k t state (ws ++ (m.nodes.fresh, main) ∷ [])
  pub threads' : state.threads ≡ parked main (m.threads t).th_id m

main_from-join :
    (left tid j : ℕ) (threads : ℕ → ℕ) (m : Machine) {t : ℕ} {c : Context} {m' : Machine}
    → mypthread_join tid (m.threads (threads j)).th_id m ≡ ok (running t c, m')
    → main_from (suc left) tid j threads m ≡ ok ((running t c, left, suc j), m')
unfolding main_from join_at
main_from-join left tid j threads m run = after _ _ (after _ _ refl run) refl

pub main_from-Parks :
    (mutex tid x k main a t left j : ℕ) (threads : ℕ → ℕ) (m : Machine) (ws : Cells)
    → Going mutex tid x k main m ((a, t) ∷ ws)
    → threads j ≡ t
    → can_save (m.threads main).ctx ≡ true
    → can_run (m.threads t).ctx ≡ true
    → Active m.threads ((a, t) ∷ ws)
    → any_item (λ u. u == main) ((a, t) ∷ ws) ≡ false
    → suc (length ws) < 2 ^ 31
    → Parks mutex tid x k main t left j threads m ws
main_from-Parks mutex tid x k main a t left j threads m ws g at save run act out small =
    let id = (m.threads t).th_id in
    let js =
      join_queued-Joins tid k main id m ((a, t) ∷ ws) ((x, k) ∷ []) g.free g.lists g.current t
        (ground (arith, ==_self id)) (alive (m.threads t).state act.0) in
    let w = with_queue js.mid.0 js.mid.1 (waiting main id m) in
    let uw : Unlocked w = record {
      mypthread = g.free.mypthread;
      mutex = g.free.mutex;
      kthread = g.free.kthread;
      cond = g.free.cond;
    } in
    let nz : (w.mypthread_count == 0) ≡ false = ground (arith, g.count) in
    let h =
      scheduler_round-Hands k (w.kthreads k).th (swap_mode in_join) w a t
        (ws ++ (m.nodes.fresh, main) ∷ []) uw js.added.list js.added.ends
        (ground (arith, act.0, out)) in
    let v = hand_over k t h.nodes h.ends w in
    let m' = set_ctx main (saved in_join) v in
    let same : (m'.threads t).ctx ≡ (m.threads t).ctx = ground (arith, out) in
    record {
      state = m';
      runs = main_from-join left tid j threads m (
          ap (λ i. mypthread_join tid (m.threads i).th_id m) at
          ∙ js.enters
          ∙ and_return-running _ 0 (
              scheduler-round k (swap_mode in_join) w uw nz
              ∙ h.runs
              ∙ ap (λ l. switch l (swap_mode in_join) t v) g.current.runs
              ∙ swap_context-running main in_join t v (ground (arith, save))
                  (ground (arith, same, run)))
          ∙ ap (λ y. ok (running t y, m')) same);
      going = record {
        free = record {
          mypthread = g.free.mypthread;
          mutex = g.free.mutex;
          kthread = g.free.kthread;
          cond = g.free.cond;
        };
        lists = record {
          queue = h.list;
          tail = h.tail;
          kernel = g.lists.kernel;
          ktail = g.lists.ktail;
        };
        current = record { found = ground (arith, g.current.found); runs = ground arith };
        lock = g.lock;
        waiters = g.waiters;
        count = g.count ∙ omega (arith, length-append ws ((m.nodes.fresh, main) ∷ []));
        small = omega (arith, small, length-append ws ((m.nodes.fresh, main) ∷ []));
      };
      threads' = refl;
    }
