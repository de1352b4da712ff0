-- ===== src/Pool/System/Service/Kept.antt =====
-- The nodes of the tasks that are called, while server/threadpool_pthread.c queues and frees others.
use operating_system_linux_t.Common.{
  ℕ, ◌+◌, ◌<◌, ◌≡◌, refl, ==_sym_false, subst, Bool, true, false, Option, none, some, List, [], ◌∷◌,
  ◌++◌, arith,
}
use operating_system_linux_t.Memory.{Run, ok, Ptr}
use operating_system_linux_t.Links.{Link, Links, new_link}
use operating_system_linux_t.Pool.{Task, Pool, push_task}
use operating_system_linux_t.Pool.Fifo.{Tasks, TaskTable, holds}
use operating_system_linux_t.Pool.System.{Call, await_task, threadpool_scheduler, dispatch}
use operating_system_linux_t.Pool.System.Service.{first_lock}

abbrev pub is_live : Option (Link Task) → Bool
is_live none = false
is_live (some n) = true

-- The heap has grown: no address is given out anew, and no node is freed.
pub record Grown (h h' : Links Task) : Type 0 where
  pub fresh : h'.fresh ≡ h.fresh
  pub live : (a : ℕ) → is_live (h.cells a) ≡ true → is_live (h'.cells a) ≡ true

push_task-Grown :
    (h : Links Task) (pool : Pool) (t : ℕ) (r : Links Task × Pool)
    → push_task h pool t ≡ ok r
    → Grown h r.0
unfolding push_task
push_task-Grown h pool t r e = record {
  fresh = ground (arith, e);
  live = λ a l. ground (arith, e, l);
}

dispatch_of-Grown :
    (h : Links Task) (pool : Pool) (junk func : Ptr) (arg : ℕ) (o : Run (Links Task × Pool))
    (calls : List Call) (r : Links Task × Pool)
    → (let made = new_link h (record { func = func; arg = arg }) junk in
        push_task made.1 pool made.0 ≡ o)
    → dispatch h pool junk func arg ≡ ok (calls, r.0, r.1)
    → (let made = new_link h (record { func = func; arg = arg }) junk in Grown made.1 r.0)
unfolding dispatch
dispatch_of-Grown h pool junk func arg (ok r') calls r e run =
    let made = new_link h (record { func = func; arg = arg }) junk in
    let g = push_task-Grown made.1 pool made.0 r' e in
    let same : r'.0 ≡ r.0 = ground (arith, rw e at run) in subst (Grown made.1) same g
dispatch_of-Grown h pool junk func arg o calls r e run = absurd (ground (arith, e, run))

-- A new task takes the next address, and leaves the nodes of the others.
pub dispatch-Grown :
    (h : Links Task) (pool : Pool) (junk func : Ptr) (arg : ℕ) (calls : List Call)
    (r : Links Task × Pool)
    → dispatch h pool junk func arg ≡ ok (calls, r.0, r.1)
    → (r.0.fresh ≡ h.fresh + 1)
      × ((a : ℕ) → is_live (h.cells a) ≡ true → is_live (r.0.cells a) ≡ true)
dispatch-Grown h pool junk func arg calls r run =
    let made = new_link h (record { func = func; arg = arg }) junk in
    let g =
      dispatch_of-Grown h pool junk func arg (push_task made.1 pool made.0) calls r refl run in
    (g.fresh, λ a l. g.live a (ground (arith, l)))

-- The called tasks stand at live nodes that are neither queued nor called twice.
abbrev pub Called : TaskTable → Tasks → Tasks → Type 0
Called c xs [] = Unit
Called c xs ((a, t) ∷ bs) =
    (is_live (c a) ≡ true) × (holds a xs ≡ false) × (holds a bs ≡ false) × Called c xs bs

abbrev pub Below : ℕ → Tasks → Type 0
Below n [] = Unit
Below n ((a, t) ∷ xs) = (a < n) × Below n xs

pub holds-fresh : (n : ℕ) (xs : Tasks) → Below n xs → holds n xs ≡ false
holds-fresh n [] below = refl
holds-fresh n ((a, t) ∷ xs) below = ground (arith, below.0, holds-fresh n xs below.1)

pub Below-grow : (n n' : ℕ) (xs : Tasks) → n' ≡ n + 1 → Below n xs → Below n' xs
Below-grow n n' [] e below = tt
Below-grow n n' ((a, t) ∷ xs) e below = (omega (arith, below.0, e), Below-grow n n' xs e below.1)

pub Below-snoc :
    (n a : ℕ) (t : Task) (xs : Tasks) → Below n xs → a < n → Below n (xs ++ (a, t) ∷ [])
Below-snoc n a t [] below lt = (lt, tt)
Below-snoc n a t ((b, v) ∷ xs) below lt = (below.0, Below-snoc n a t xs below.1 lt)

holds_snoc-ne :
    (x a : ℕ) (t : Task) (xs : Tasks)
    → holds x xs ≡ false
    → x < a
    → holds x (xs ++ (a, t) ∷ []) ≡ false
holds_snoc-ne x a t [] out lt = ground arith
holds_snoc-ne x a t ((b, v) ∷ xs) out lt =
    ground (arith, holds_snoc-ne x a t xs (ground (arith, out)) lt)

pub Called-dispatch :
    (c c' : TaskTable) (n : ℕ) (t : Task) (xs bs : Tasks)
    → ((a : ℕ) → is_live (c a) ≡ true → is_live (c' a) ≡ true)
    → Below n bs
    → Called c xs bs
    → Called c' (xs ++ (n, t) ∷ []) bs
Called-dispatch c c' n t xs [] live below called = tt
Called-dispatch c c' n t xs ((a, u) ∷ bs) live below called = (
  live a called.0,
  holds_snoc-ne a n t xs called.1 below.0,
  called.2,
  Called-dispatch c c' n t xs bs live below.1 called.3,
)

-- The first queued task is called.
pub Called-take :
    (c : TaskTable) (a : ℕ) (t : Task) (xs bs : Tasks) → Called c ((a, t) ∷ xs) bs → Called c xs bs
Called-take c a t xs [] called = tt
Called-take c a t xs ((b, u) ∷ bs) called =
    (called.0, ground (arith, called.1), called.2, Called-take c a t xs bs called.3)

pub taken-not :
    (c : TaskTable) (a : ℕ) (t : Task) (xs bs : Tasks)
    → Called c ((a, t) ∷ xs) bs
    → holds a bs ≡ false
taken-not c a t xs [] called = refl
taken-not c a t xs ((b, u) ∷ bs) called =
    ground (arith, ==_sym_false b a, called.1, taken-not c a t xs bs called.3)

dispatch_of-first_lock :
    (h : Links Task) (pool : Pool) (junk func : Ptr) (arg : ℕ) (o : Run (Links Task × Pool))
    (calls : List Call) (r : Links Task × Pool)
    → (let made = new_link h (record { func = func; arg = arg }) junk in
        push_task made.1 pool made.0 ≡ o)
    → dispatch h pool junk func arg ≡ ok (calls, r.0, r.1)
    → first_lock calls ≡ some pool.mutex
unfolding dispatch
dispatch_of-first_lock h pool junk func arg (ok r') calls r e run = ground (arith, rw e at run)
dispatch_of-first_lock h pool junk func arg o calls r e run = absurd (ground (arith, e, run))

pub dispatch-first_lock :
    (h : Links Task) (pool : Pool) (junk func : Ptr) (arg : ℕ) (calls : List Call)
    (r : Links Task × Pool)
    → dispatch h pool junk func arg ≡ ok (calls, r.0, r.1)
    → first_lock calls ≡ some pool.mutex
dispatch-first_lock h pool junk func arg calls r run =
    let made = new_link h (record { func = func; arg = arg }) junk in
    dispatch_of-first_lock h pool junk func arg (push_task made.1 pool made.0) calls r refl run

scheduler_of-first_lock :
    (h : Links Task) (pool : Pool) (o : Run (List Call × Option (Ptr × Task) × Pool))
    (calls : List Call) (next : Option (Ptr × Task)) (p : Pool)
    → await_task h pool ≡ o
    → threadpool_scheduler h pool ≡ ok (calls, next, p)
    → first_lock calls ≡ some pool.mutex
unfolding threadpool_scheduler
scheduler_of-first_lock h pool (ok r') calls next p e run = ground (arith, rw e at run)
scheduler_of-first_lock h pool o calls next p e run = absurd (ground (arith, e, run))

pub scheduler-first_lock :
    (h : Links Task) (pool : Pool) (calls : List Call) (next : Option (Ptr × Task)) (p : Pool)
    → threadpool_scheduler h pool ≡ ok (calls, next, p)
    → first_lock calls ≡ some pool.mutex
scheduler-first_lock h pool calls next p run =
    scheduler_of-first_lock h pool (await_task h pool) calls next p refl run
