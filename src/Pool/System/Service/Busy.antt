-- ===== src/Pool/System/Service/Busy.antt =====
-- A pool of server/threadpool_pthread.c with workers that are in a task, and the `free` behind a task.
use operating_system_linux_t.Common.{
  ℕ, zero, suc, ◌<◌, ◌≡◌, refl, sym, ap, subst, ◌∙◌, true, false, none, some, List, [], ◌∷◌, ◌++◌,
  ◌==◌, if◌then◌else◌, Bool-cases, inl, inr, ==_sym_false, arith,
}
use operating_system_linux_t.Memory.{ok}
use operating_system_linux_t.Links.{Links, put_link, free_link}
use operating_system_linux_t.Pool.{Task}
use operating_system_linux_t.Pool.Fifo.{Tasks, TaskTable, holds, Queued, Chained}
use operating_system_linux_t.Pool.System.Service.{Server, busy_at, without}
use operating_system_linux_t.Pool.System.Service.Kept.{is_live, Called, Below}

abbrev pub items : Tasks → List Task
items [] = []
items ((a, t) ∷ xs) = t ∷ items xs

pub items-append : (xs : Tasks) (a : ℕ) (t : Task) → items (xs ++ (a, t) ∷ []) ≡ items xs ++ t ∷ []
items-append [] a t = refl
items-append ((b, u) ∷ xs) a t = ap {B = List Task} (λ r. u ∷ r) (items-append xs a t)

-- The queue stands for `xs`, and every task that a worker is in stands at a node of its own.
pub record Serving (s : Server) (xs : Tasks) : Type 0 where
  pub queued : Queued s.heap s.pool xs
  pub called : Called s.heap.cells xs s.busy
  pub below : Below s.heap.fresh xs
  pub below_busy : Below s.heap.fresh s.busy

free-live :
    (h : Links Task) (a : ℕ)
    → is_live (h.cells a) ≡ true
    → free_link h (some a) ≡ ok (put_link h a none)
free-live h a live = ground (arith, live)

-- A node is freed that no other called task stands at.
Called-free :
    (c : TaskTable) (a : ℕ) (xs bs : Tasks)
    → holds a bs ≡ false
    → Called c xs bs
    → Called (λ x. if a == x then none else c x) xs bs
Called-free c a xs [] out called = tt
Called-free c a xs ((b, u) ∷ bs) out called = (
  ground (arith, called.0, ==_sym_false b a, out),
  called.1,
  called.2,
  Called-free c a xs bs (ground (arith, out)) called.3,
)

-- The node of the called task, and the others.
pub record Frees (h : Links Task) (xs bs : Tasks) (i : ℕ) : Type 0 where
  pub heap : Links Task
  pub runs : free_link h (busy_at i bs) ≡ ok heap
  pub fresh : heap.fresh ≡ h.fresh
  pub kept : (a : ℕ) → holds a bs ≡ false → heap.cells a ≡ h.cells a
  pub called : Called heap.cells xs (without i bs)
  pub out : (a : ℕ) → holds a bs ≡ false → holds a (without i bs) ≡ false
  pub below : Below h.fresh bs → Below heap.fresh (without i bs)

pub frees : (h : Links Task) (xs bs : Tasks) (i : ℕ) → Called h.cells xs bs → Frees h xs bs i
frees h xs [] i called = record {
  heap = h;
  runs = refl;
  fresh = refl;
  kept = λ a out. refl;
  called = tt;
  out = λ a out. refl;
  below = λ b. tt;
}
frees h xs ((a, t) ∷ bs) zero called = record {
  heap = put_link h a none;
  runs = free-live h a called.0;
  fresh = refl;
  kept = λ x out. ground (arith, out);
  called = Called-free h.cells a xs bs called.2 called.3;
  out = λ x out. ground (arith, out);
  below = λ b. b.1;
}
frees h xs ((a, t) ∷ bs) (suc i) called =
    let f = frees h xs bs i called.3 in
    record {
      heap = f.heap;
      runs = f.runs;
      fresh = f.fresh;
      kept = λ x out. f.kept x (ground (arith, out));
      called = (ap is_live (f.kept a called.2) ∙ called.0, called.1, f.out a called.2, f.called);
      out = λ x out. ground (arith, f.out x (ground (arith, out)), out);
      below = λ b. (subst (λ n. a < n) (sym f.fresh) b.0, f.below b.1);
    }

pub queued-not :
    (c : TaskTable) (xs bs : Tasks) (a : ℕ)
    → Called c xs bs
    → holds a xs ≡ true
    → holds a bs ≡ false
queued-not c xs [] a called on = refl
queued-not c xs ((b, u) ∷ bs) a called on = elim (Bool-cases (b == a)) [
  | inl e ↦
      let same : b ≡ a = ground (arith, e) in
      absurd (ground (arith, subst (λ x. holds x xs ≡ false) same called.1, on))
  | inr ne ↦ ground (arith, ne, queued-not c xs bs a called.3 on)
]

pub Chained-same :
    (c c' : TaskTable) (xs : Tasks)
    → ((a : ℕ) → holds a xs ≡ true → c' a ≡ c a)
    → Chained c xs
    → Chained c' xs
Chained-same c c' [] same ch = tt
Chained-same c c' ((a, t) ∷ xs) same ch = (
  same a (ground arith) ∙ ch.0,
  ch.1,
  Chained-same c c' xs (λ x on. same x (ground (arith, on))) ch.2,
)
