-- ===== src/Pool/System/Service/Steps.antt =====
-- The events of a pool of server/threadpool_pthread.c, one by one.
use operating_system_linux_t.Common.{
  ℕ, suc, ◌+◌, ◌≤◌, List, ◌<◌, ◌^◌, ◌≡◌, refl, ==_self, false, some, Option, sym, ap, subst, ◌∙◌,
  [], ◌∷◌, ◌++◌, length, length-append, arith,
}
use mathlib.Core.List.{append_assoc, append-nil}
use operating_system_linux_t.Memory.{ok, Ptr}
use operating_system_linux_t.Links.{Links}
use operating_system_linux_t.Pool.{Task, Pool}
use operating_system_linux_t.Pool.Fifo.{Tasks}
use operating_system_linux_t.Pool.System.{Call, threadpool_scheduler, dispatch}
use operating_system_linux_t.Pool.System.Calls.{follow, threadpool_scheduler-takes, dispatch-Queued}
use operating_system_linux_t.Pool.System.Service.{
  Event, dispatches, rounds, returns, Server, without, step, dispatched, Fed, ordered, first_lock,
  taken,
}
use operating_system_linux_t.Pool.System.Service.Kept.{
  is_live, dispatch-first_lock, scheduler-first_lock, dispatch-Grown, Below, holds-fresh,
  Below-grow, Below-snoc, Called-dispatch, Called-take, taken-not,
}
use operating_system_linux_t.Pool.System.Service.Busy.{
  items, items-append, Serving, frees, queued-not, Chained-same,
}

-- One event, with the queue that it leaves and the tasks that it dispatches.
pub record Steps (s : Server) (xs : Tasks) (e : Event) : Type 0 where
  pub next : Server
  pub queue : Tasks
  pub runs : step e s ≡ ok next
  pub serving : Serving next queue
  pub order : next.called ++ items queue ≡ (s.called ++ items xs) ++ dispatched (e ∷ [])
  pub fed : (es : List Event) → Fed (length xs) (e ∷ es) → Fed (length queue) es
  pub short : length queue < suc (length xs + length (dispatched (e ∷ [])))

ordered_lem :
    (mutex : ℕ) (calls : List Call)
    → follow false calls ≡ some false
    → first_lock calls ≡ some mutex
    → ordered mutex calls ≡ ok tt
ordered_lem mutex calls e f = rw (e, f, ordered, ==_self mutex) refl

dispatch-step :
    (s : Server) (junk func : Ptr) (arg : ℕ) (calls : List Call) (h : Links Task) (p : Pool)
    → dispatch s.heap s.pool junk func arg ≡ ok (calls, h, p)
    → follow false calls ≡ some false
    → step (dispatches junk func arg) s ≡ ok (record s { heap = h; pool = p })
unfolding step
dispatch-step s junk func arg calls h p go order =
    let first = dispatch-first_lock s.heap s.pool junk func arg calls (h, p) go in
    rw go (rw (ordered_lem s.pool.mutex calls order first) refl)

round-step :
    (s : Server) (calls : List Call) (next : Option (Ptr × Task)) (p : Pool)
    → threadpool_scheduler s.heap s.pool ≡ ok (calls, next, p)
    → follow false calls ≡ some false
    → step rounds s ≡ ok (taken next (record s { pool = p }))
unfolding step
round-step s calls next p go order =
    let first = scheduler-first_lock s.heap s.pool calls next p go in
    rw go (rw (ordered_lem s.pool.mutex calls order first) refl)

dispatch-Steps :
    (s : Server) (xs : Tasks) (junk func : Ptr) (arg : ℕ)
    → Serving s xs
    → suc (length xs) < 2 ^ 31
    → Steps s xs (dispatches junk func arg)
unfolding step
dispatch-Steps s xs junk func arg k small =
    let (calls, r, go, order, queued) =
      dispatch-Queued s.heap s.pool junk func arg xs k.queued (holds-fresh s.heap.fresh xs k.below)
        small in
    let (fresh, live) = dispatch-Grown s.heap s.pool junk func arg calls r go in
    let t : Task = record { func = func; arg = arg } in
    record {
      next = record s { heap = r.0; pool = r.1 };
      queue = xs ++ (s.heap.fresh, t) ∷ [];
      runs = dispatch-step s junk func arg calls r.0 r.1 go order;
      serving = record {
        queued = queued;
        called =
            Called-dispatch s.heap.cells r.0.cells s.heap.fresh t xs s.busy live k.below_busy
              k.called;
        below =
            Below-snoc r.0.fresh s.heap.fresh t xs
              (Below-grow s.heap.fresh r.0.fresh xs fresh k.below) (omega (arith, fresh));
        below_busy = Below-grow s.heap.fresh r.0.fresh s.busy fresh k.below_busy;
      };
      order =
          ap (λ l. s.called ++ l) (items-append xs s.heap.fresh t)
          ∙ sym (append_assoc s.called (items xs) (t ∷ []));
      fed = λ es f. subst (λ n. Fed n es) (sym (length-append xs ((s.heap.fresh, t) ∷ []))) f;
      short = omega (arith, length-append xs ((s.heap.fresh, t) ∷ []));
    }

round-Steps : (s : Server) (xs : Tasks) → Serving s xs → 1 ≤ length xs → Steps s xs rounds
unfolding step
round-Steps s [] k some_left = absurd (omega (arith, some_left))
round-Steps s ((a, t) ∷ xs) k some_left =
    let (calls, p, go, order, queued) = threadpool_scheduler-takes s.heap s.pool a t xs k.queued in
    record {
      next = record s { pool = p; busy = (a, t) ∷ s.busy; called = s.called ++ t ∷ [] };
      queue = xs;
      runs = round-step s calls (some (some a, t)) p go order;
      serving = record {
        queued = queued;
        called = (
          ap is_live k.queued.chained.0,
          k.queued.chained.1,
          taken-not s.heap.cells a t xs s.busy k.called,
          Called-take s.heap.cells a t xs s.busy k.called,
        );
        below = k.below.1;
        below_busy = (k.below.0, k.below_busy);
      };
      order =
          append_assoc s.called (t ∷ []) (items xs) ∙ sym (append-nil (s.called ++ t ∷ items xs));
      fed = λ es f. subst (λ n. Fed n es) (omega arith) f.1;
      short = omega arith;
    }

return-Steps : (s : Server) (xs : Tasks) (i : ℕ) → Serving s xs → Steps s xs (returns i)
unfolding step
return-Steps s xs i k =
    let f = frees s.heap xs s.busy i k.called in
    record {
      next = record s { heap = f.heap; busy = without i s.busy };
      queue = xs;
      runs = rw f.runs refl;
      serving = record {
        queued = record {
          front = k.queued.front;
          rear = k.queued.rear;
          chained =
              Chained-same s.heap.cells f.heap.cells xs
                (λ a on. f.kept a (queued-not s.heap.cells xs s.busy a k.called on))
                k.queued.chained;
          count = k.queued.count;
          few = k.queued.few;
        };
        called = f.called;
        below = subst (λ n. Below n xs) (sym f.fresh) k.below;
        below_busy = f.below k.below_busy;
      };
      order = sym (append-nil (s.called ++ items xs));
      fed = λ es f. f;
      short = omega arith;
    }

pub event-Steps :
    (e : Event) (es : List Event) (s : Server) (xs : Tasks)
    → Serving s xs
    → Fed (length xs) (e ∷ es)
    → suc (length xs) < 2 ^ 31
    → Steps s xs e
event-Steps (dispatches junk func arg) es s xs k fed small =
    dispatch-Steps s xs junk func arg k small
event-Steps rounds es s xs k fed small = round-Steps s xs k fed.0
event-Steps (returns i) es s xs k fed small = return-Steps s xs i k
