-- ===== src/Pool/Fifo.antt =====
-- `push_task` and the taking of a task in server/threadpool.c, on the list of queued tasks.
use operating_system_linux_t.Common.{
  ℕ, suc, ◌^◌, ◌<◌, ◌≡◌, refl, sym, ◌∙◌, ap, Bool, false, ◌||◌, Option, none, some, List, [], ◌∷◌,
  ◌++◌, ◌==◌, ==_self, ==_sym_false, if◌then◌else◌, length, length-append, arith,
}
use operating_system_linux_t.Memory.{ok, Ptr}
use operating_system_linux_t.Links.{Link, Links, link, put_link, set_link}
use operating_system_linux_t.Machine.{inc, dec}
use operating_system_linux_t.Pool.{Task, Pool, push_task, take_task}

-- The queued tasks, first to last, with their addresses.
abbrev pub Tasks : Type 0
Tasks = List (ℕ × Task)

abbrev pub TaskTable : Type 0
TaskTable = ℕ → Option (Link Task)

abbrev pub holds : ℕ → Tasks → Bool
holds x [] = false
holds x ((a, t) ∷ xs) = (a == x) || holds x xs

abbrev pub front_of : Tasks → Ptr
front_of [] = none
front_of ((a, t) ∷ xs) = some a

abbrev pub last_of : ℕ → Tasks → ℕ
last_of a [] = a
last_of a ((b, t) ∷ xs) = last_of b xs

abbrev pub rear_of : Tasks → Ptr
rear_of [] = none
rear_of ((a, t) ∷ xs) = some (last_of a xs)

-- Distinct nodes, linked in order, the last one's `next` NULL.
abbrev pub Chained : TaskTable → Tasks → Type 0
Chained c [] = Unit
Chained c ((a, t) ∷ xs) = (c a ≡ some (link t (front_of xs))) × (holds a xs ≡ false) × Chained c xs

-- The pool's queue stands for `xs`.
pub record Queued (h : Links Task) (pool : Pool) (xs : Tasks) : Type 0 where
  pub front : pool.task_q_front ≡ front_of xs
  pub rear : pool.task_q_rear ≡ rear_of xs
  pub chained : Chained h.cells xs
  pub count : pool.no_of_tasks_in_q ≡ length xs
  pub few : length xs < 2 ^ 31

abbrev behind : TaskTable → (t : ℕ) → Task → (z : ℕ) → Task → TaskTable
behind c t task z u x =
    if t == x then some (link task none) else (if z == x then some (link u (some t)) else c x)

last-not :
    (x a : ℕ) (t : Task) (ys : Tasks) → holds x ((a, t) ∷ ys) ≡ false → (last_of a ys == x) ≡ false
last-not x a t [] h = ground arith
last-not x a t ((b, v) ∷ ys) h = last-not x b v ys (ground arith)

holds-snoc :
    (x n : ℕ) (d : Task) (xs : Tasks)
    → holds x xs ≡ false
    → (n == x) ≡ false
    → holds x (xs ++ (n, d) ∷ []) ≡ false
holds-snoc x n d [] h k = ground arith
holds-snoc x n d ((b, v) ∷ xs) h k = ground (arith, holds-snoc x n d xs (ground arith) k)

Chained-last :
    (c : TaskTable) (a : ℕ) (t : Task) (ys : Tasks)
    → Chained c ((a, t) ∷ ys)
    → (u : Task) × (c (last_of a ys) ≡ some (link u none))
Chained-last c a t [] ch = (t, ch.0)
Chained-last c a t ((b, v) ∷ ys) ch = Chained-last c b v ys ch.2

last_of-snoc : (a t : ℕ) (d : Task) (ys : Tasks) → last_of a (ys ++ (t, d) ∷ []) ≡ t
last_of-snoc a t d [] = refl
last_of-snoc a t d ((b, v) ∷ ys) = last_of-snoc b t d ys

behind-Chained :
    (c : TaskTable) (a : ℕ) (v : Task) (ys : Tasks) (t : ℕ) (task u : Task)
    → Chained c ((a, v) ∷ ys)
    → holds t ((a, v) ∷ ys) ≡ false
    → c (last_of a ys) ≡ some (link u none)
    → Chained (behind c t task (last_of a ys) u) (((a, v) ∷ ys) ++ (t, task) ∷ [])
behind-Chained c a v [] t task u ch out e = (ground arith, ground arith, (ground arith, refl, tt))
behind-Chained c a v ((b, w) ∷ ys) t task u ch out e = (
  ground (arith, ch.0, last-not a b w ys ch.1, ==_sym_false a t (ground arith)),
  holds-snoc a t task ((b, w) ∷ ys) ch.1 (ground arith),
  behind-Chained c b w ys t task u ch.2 (ground arith) e,
)

inc-small : (n : ℕ) → suc n < 2 ^ 31 → inc n ≡ suc n
inc-small n h = omega (arith, h)

dec-suc : (n : ℕ) → suc n < 2 ^ 31 → dec (suc n) ≡ n
dec-suc n h = omega (arith, h)

some_left : (n : ℕ) → (suc n == 0) ≡ false
some_left n = ground arith

push_first :
    (h : Links Task) (pool : Pool) (t : ℕ) (task : Task) (q : Ptr)
    → pool.no_of_tasks_in_q ≡ 0
    → h.cells t ≡ some (link task q)
    → push_task h pool t
      ≡ ok (
        put_link h t (some (link task none)),
        record pool { task_q_front = some t; task_q_rear = some t; no_of_tasks_in_q = 1 },
      )
unfolding push_task
push_first h pool t task q z live = rw (z, live, set_link) refl

push_later :
    (h : Links Task) (pool : Pool) (t : ℕ) (task : Task) (q : Ptr) (n z : ℕ) (u : Task)
    → pool.no_of_tasks_in_q ≡ suc n
    → pool.task_q_rear ≡ some z
    → h.cells t ≡ some (link task q)
    → h.cells z ≡ some (link u none)
    → (z == t) ≡ false
    → push_task h pool t
      ≡ ok (
        record h { cells = behind h.cells t task z u },
        record pool { task_q_rear = some t; no_of_tasks_in_q = inc (suc n) },
      )
unfolding push_task
push_later h pool t task q n z u c r live last ne = ground arith

-- On a well-formed queue of fewer than 2 ^ 31 - 1 tasks, `push_task` of a new task returns, puts it
-- behind the others, and leaves the pool's mutex and condition as they were.
pub push_task-Queued :
    (h : Links Task) (pool : Pool) (xs : Tasks) (t : ℕ) (task : Task) (q : Ptr)
    → Queued h pool xs
    → h.cells t ≡ some (link task q)
    → holds t xs ≡ false
    → suc (length xs) < 2 ^ 31
    → (r : Links Task × Pool) × (push_task h pool t ≡ ok r)
      × Queued r.0 r.1 (xs ++ (t, task) ∷ [])
      × (r.1.mutex ≡ pool.mutex)
      × (r.1.cond ≡ pool.cond)
unfolding push_task
push_task-Queued h pool [] t task q k live out small = (
  (
    put_link h t (some (link task none)),
    record pool { task_q_front = some t; task_q_rear = some t; no_of_tasks_in_q = 1 },
  ),
  push_first h pool t task q k.count live,
  record {
    front = refl;
    rear = refl;
    chained = (rw (==_self t) refl, refl, tt);
    count = refl;
    few = small;
  },
  refl,
  refl,
)
push_task-Queued h pool ((a, v) ∷ ys) t task q k live out small =
    let (u, last) = Chained-last h.cells a v ys k.chained in
    let z = last_of a ys in
    (
      (
        record h { cells = behind h.cells t task z u },
        record pool { task_q_rear = some t; no_of_tasks_in_q = inc (suc (length ys)) },
      ),
      push_later h pool t task q (length ys) z u k.count k.rear live last (last-not t a v ys out),
      record {
        front = k.front;
        rear = ap some (sym (last_of-snoc a t task ys));
        chained = behind-Chained h.cells a v ys t task u k.chained out last;
        count =
            inc-small (suc (length ys)) small ∙ omega (arith, length-append ys ((t, task) ∷ []));
        few = omega (arith, length-append ys ((t, task) ∷ []));
      },
      refl,
      refl,
    )

-- `take_task` takes the first task, and leaves the others in their order.
pub take_task-Queued :
    (h : Links Task) (pool : Pool) (a : ℕ) (t : Task) (xs : Tasks)
    → Queued h pool ((a, t) ∷ xs)
    → (p : Pool) × (take_task h pool ≡ ok (some a, p)) × Queued h p xs
unfolding take_task
take_task-Queued h pool a t [] k = (
  record pool { no_of_tasks_in_q = 0; task_q_front = none; task_q_rear = none },
  rw (k.count, k.front) refl,
  record { front = refl; rear = refl; chained = tt; count = refl; few = omega arith },
)
take_task-Queued h pool a t ((b, v) ∷ xs) k = (
  record pool { no_of_tasks_in_q = suc (length xs); task_q_front = some b },
  rw (k.count, dec-suc (suc (length xs)) k.few, k.front)
      (rw (k.chained.0, some_left (length xs)) refl),
  record {
    front = refl;
    rear = k.rear;
    chained = k.chained.2;
    count = refl;
    few = omega (arith, k.few);
  },
)

-- A queue is kept when another node is made.
pub Chained-put :
    (c : TaskTable) (n : ℕ) (l : Option (Link Task)) (xs : Tasks)
    → holds n xs ≡ false
    → Chained c xs
    → Chained (λ x. if n == x then l else c x) xs
Chained-put c n l [] out ch = tt
Chained-put c n l ((a, t) ∷ xs) out ch =
    (ground (arith, ch.0, ==_sym_false a n), ch.1, Chained-put c n l xs (ground arith) ch.2)
