-- ===== src/Samples/Counter/Step.antt =====
-- From the exit of one thread of pthreads/mypthread_sample4.c to the next thread of the queue.
use operating_system_linux_t.Common.{
  ℕ, suc, ◌<◌, ◌^◌, ◌≡◌, ap, ◌∙◌, true, false, [], ◌∷◌, ◌==◌, length, arith,
}
use operating_system_linux_t.Memory.{ok}
use operating_system_linux_t.Memory.Chain.{Cells}
use operating_system_linux_t.Queue.Lookup.{any_item}
use operating_system_linux_t.Machine.{Machine, inc, dec, set_mutex}
use operating_system_linux_t.Machine.Inv.{Unlocked}
use operating_system_linux_t.Scheduler.{running, set_mode}
use operating_system_linux_t.Scheduler.Round.{hand_over, scheduler-round}
use operating_system_linux_t.Scheduler.Head.{scheduler_round-Hands}
use operating_system_linux_t.Scheduler.Switch.{
  can_run, can_save, set_context-running, and_return-running,
}
use operating_system_linux_t.Lifecycle.{mypthread_exit}
use operating_system_linux_t.Lifecycle.Exit.{exited_state, mypthread_exit-Exits}
use operating_system_linux_t.Samples.Counter.{thread_function}
use operating_system_linux_t.Samples.Counter.Worker.{
  Going, Ready, Active, Kept, unlocked, unlocked-free, function-exit, exit-Kept, exit-Active,
}

-- What a thread that ends leaves: the next thread of the queue runs, and the others are active.
pub record Next (mutex tid x k t s : ℕ) (m : Machine) (rest : Cells) (m' : Machine) : Type 0 where
  pub going : Going mutex tid x k s m' rest
  pub kept : Kept t m.threads m'.threads
  pub active : Active m'.threads rest

exit_count : (n c : ℕ) → c ≡ suc (suc n) → suc n < 2 ^ 31 → (dec c ≡ suc n) × ((dec c == 0) ≡ false)
exit_count n c e h = ground (arith, e, h)

exit-Next :
    (mutex tid x k t : ℕ) (m : Machine) (a s : ℕ) (rest : Cells)
    → Going mutex tid x k t m ((a, s) ∷ rest)
    → can_save (m.threads t).ctx ≡ true
    → any_item (λ u. u == t) ((a, s) ∷ rest) ≡ false
    → Ready m.threads (m.threads t).th_id ((a, s) ∷ rest)
    → can_run (m.threads s).ctx ≡ true
    → (m' : Machine) × (mypthread_exit tid m ≡ ok (running s (m.threads s).ctx, m'))
      × Next mutex tid x k t s m rest m'
exit-Next mutex tid x k t m a s rest g save out ready run =
    let qs = (a, s) ∷ rest in
    let e = mypthread_exit-Exits tid k t m qs ((x, k) ∷ []) g.free g.lists g.current save in
    let w = exited_state t e.threads m in
    let kept : Kept t m.threads w.threads = exit-Kept t m qs e.threads e.woken in
    let act : Active w.threads qs = exit-Active t m qs e.threads e.woken qs (λ u h. h) out ready in
    let (count, nz) = exit_count (length rest) m.mypthread_count g.count g.small in
    let uw : Unlocked w = record {
      mypthread = g.free.mypthread;
      mutex = g.free.mutex;
      kthread = g.free.kthread;
      cond = g.free.cond;
    } in
    let h =
      scheduler_round-Hands k (w.kthreads k).th set_mode w a s rest uw g.lists.queue g.lists.tail
        act.0 in
    let m' = hand_over k s h.nodes h.ends w in
    let same : (w.threads s).ctx ≡ (m.threads s).ctx = (kept s).1 (ground (arith, out)) in
    let runs : can_run (m'.threads s).ctx ≡ true = ap can_run same ∙ run in
    (
      m',
      e.enters
          ∙ and_return-running _ 0
              (scheduler-round k set_mode w uw nz ∙ h.runs ∙ set_context-running s m' runs)
          ∙ ap (λ c. ok (running s c, m')) same,
      record {
        going = record {
          free = record {
            mypthread = g.free.mypthread;
            mutex = g.free.mutex;
            kthread = g.free.kthread;
            cond = g.free.cond;
          };
          lists = record {
            queue = h.list;
            tail = h.tail;
            kernel = g.lists.kernel;
            ktail = g.lists.ktail;
          };
          current = record { found = ground (arith, g.current.found); runs = ground arith };
          lock = g.lock;
          waiters = g.waiters;
          count = count;
          small = omega (arith, g.small);
        };
        kept = kept;
        active = act.1;
      },
    )

-- A thread that finds the mutex free counts, gives the mutex back and ends; the next thread runs.
pub function-Next :
    (mutex tid x k t c : ℕ) (m : Machine) (a s : ℕ) (rest : Cells)
    → Going mutex tid x k t m ((a, s) ∷ rest)
    → can_save (m.threads t).ctx ≡ true
    → any_item (λ u. u == t) ((a, s) ∷ rest) ≡ false
    → Ready m.threads (m.threads t).th_id ((a, s) ∷ rest)
    → can_run (m.threads s).ctx ≡ true
    → (m' : Machine) × (thread_function tid mutex c m
        ≡ ok ((running s (m.threads s).ctx, inc c), m'))
      × Next mutex tid x k t s m rest m'
function-Next mutex tid x k t c m a s rest g save out ready run =
    let l = set_mutex mutex (record (m.mutexes mutex) { lock = true }) m in
    let n = record m { mutexes = unlocked mutex l } in
    let (free, empty) = unlocked-free mutex l (ground (arith, g.waiters)) in
    let going : Going mutex tid x k t n ((a, s) ∷ rest) = record {
      free = record {
        mypthread = g.free.mypthread;
        mutex = g.free.mutex;
        kthread = g.free.kthread;
        cond = g.free.cond;
      };
      lists = record {
        queue = g.lists.queue;
        tail = g.lists.tail;
        kernel = g.lists.kernel;
        ktail = g.lists.ktail;
      };
      current = record { found = g.current.found; runs = g.current.runs };
      lock = free;
      waiters = empty;
      count = g.count;
      small = g.small;
    } in
    let (m', ends, next) = exit-Next mutex tid x k t n a s rest going save out ready run in
    (
      m',
      function-exit tid mutex c m g.free g.lock g.waiters ends,
      record { going = next.going; kept = next.kept; active = next.active },
    )
