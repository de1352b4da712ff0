-- ===== src/Queue/Spec/Fifo.antt =====
-- Sequences of operations on the run queue of pthreads/queue_util.c in which every queued thread is
-- active when a dequeue looks at it.
use operating_system_linux_t.Common.{
  ℕ, ◌≡◌, refl, sym, ap, subst, ◌∙◌, true, false, none, some, List, [], ◌∷◌, ◌++◌,
}
use mathlib.Core.List.{append_assoc, append-nil}
use operating_system_linux_t.Memory.{Run, ok, Ptr, Heap, Ends}
use operating_system_linux_t.Thread.{Threads}
use operating_system_linux_t.Queue.Spec.{
  View, Op, add, dequeue, active, view_add, view_dequeue, view_run, queue_run,
}
use operating_system_linux_t.Queue.Spec.Refine.{Fit, Agrees, both_end, queue_run-view_run}

-- Every thread of the list is active.
abbrev pub Awake : Threads → List ℕ → Type 0
Awake ts [] = Unit
Awake ts (x ∷ xs) = (active ts x ≡ true) × Awake ts xs

abbrev pub rest : List ℕ → List ℕ
rest [] = []
rest (x ∷ xs) = xs

-- With these threads queued, those that are queued at a dequeue are active at it.
abbrev pub AllActive : List Op → List ℕ → Type 0
AllActive [] xs = Unit
AllActive (add t ∷ ops) xs = AllActive ops (xs ++ t ∷ [])
AllActive (dequeue ts ∷ ops) xs = Awake ts xs × AllActive ops (rest xs)

-- The threads that the operations add, and those that the answers hold.
abbrev pub added : List Op → List ℕ
added [] = []
added (add t ∷ ops) = t ∷ added ops
added (dequeue ts ∷ ops) = added ops

abbrev pub answered : List Ptr → List ℕ
answered [] = []
answered (none ∷ ps) = answered ps
answered (some t ∷ ps) = t ∷ answered ps

-- A view of a queue whose tail pointer is good.
abbrev pub view : List ℕ → View
view xs = record { waiting = xs; stale = false }

view_dequeue-nil : (ts : Threads) → view_dequeue ts (view []) ≡ (none, view [])
unfolding view_dequeue
view_dequeue-nil ts = refl

view_dequeue-cons :
    (ts : Threads) (x : ℕ) (xs : List ℕ)
    → active ts x ≡ true
    → view_dequeue ts (view (x ∷ xs)) ≡ (some x, view xs)
unfolding view_dequeue
view_dequeue-cons ts x [] on = rw on
view_dequeue-cons ts x (y ∷ xs) on = rw on

view_run-dequeue :
    (ts : Threads) (ops : List Op) (v : View) {p : Ptr} {w u : View} {ps : List Ptr}
    → view_dequeue ts v ≡ (p, w)
    → view_run ops w ≡ some (ps, u)
    → view_run (dequeue ts ∷ ops) v ≡ some (p ∷ ps, u)
unfolding view_run
view_run-dequeue ts ops v e run = rw (ap (λ q. q.1) e, run, ap (λ q. q.0) e)

-- The view keeps the order: what was answered, then what still waits.
view_run-order :
    (ops : List Op) (xs : List ℕ)
    → AllActive ops xs
    → (ps : List Ptr) × (ys : List ℕ) × (view_run ops (view xs) ≡ some (ps, view ys))
      × (answered ps ++ ys ≡ xs ++ added ops)
unfolding view_run view_add
view_run-order [] xs all = ([], xs, refl, sym (append-nil xs))
view_run-order (add t ∷ ops) xs all =
    let (ps, ys, run, order) = view_run-order ops (xs ++ t ∷ []) all in
    (ps, ys, run, order ∙ append_assoc xs (t ∷ []) (added ops))
view_run-order (dequeue ts ∷ ops) [] all =
    let (ps, ys, run, order) = view_run-order ops [] all.1 in
    (none ∷ ps, ys, view_run-dequeue ts ops (view []) (view_dequeue-nil ts) run, order)
view_run-order (dequeue ts ∷ ops) (x ∷ xs) all =
    let (ps, ys, run, order) = view_run-order ops xs all.1 in
    (
      some x ∷ ps,
      ys,
      view_run-dequeue ts ops (view (x ∷ xs)) (view_dequeue-cons ts x xs all.0.0) run,
      ap (λ l. x ∷ l) order,
    )

Agrees-some :
    {ps : List Ptr} {v : View} {r : Run (List Ptr × Heap ℕ × Ends)}
    → Agrees (some (ps, v)) r
    → (h : Heap ℕ) × (e : Ends) × (r ≡ ok (ps, h, e)) × Fit v h e
Agrees-some (both_end a v h e fit) = (h, e, refl, fit)

-- While every queued thread is active at each dequeue, any sequence of operations on a queue with a
-- good tail pointer succeeds and ends in one, and the threads that the dequeues answer, followed by
-- those still queued, are the threads queued at first, followed by the added ones, in their order.
pub queue_run-fifo :
    (ops : List Op) (xs : List ℕ) (h : Heap ℕ) (e : Ends)
    → Fit (view xs) h e
    → AllActive ops xs
    → (ps : List Ptr) × (ys : List ℕ) × (h' : Heap ℕ) × (e' : Ends) × (queue_run ops h e
        ≡ ok (ps, h', e'))
      × Fit (view ys) h' e'
      × (answered ps ++ ys ≡ xs ++ added ops)
queue_run-fifo ops xs h e fit all =
    let (ps, ys, run, order) = view_run-order ops xs all in
    let (h', e', run', fit') =
      Agrees-some (
        subst (λ o. Agrees o (queue_run ops h e)) run (queue_run-view_run ops (view xs) h e fit)) in
    (ps, ys, h', e', run', fit', order)
