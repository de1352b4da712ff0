-- ===== src/Queue/Spec.antt =====
-- The run queue of pthreads/queue_util.c as its callers see it: threads in their order, and whether
-- the tail pointer is still good. A sequence of `ll_add` and `mypthread_dequeue_first_active`, with
-- the states of the threads at each dequeue, runs on the nodes and on this view.
pub mod Answers
pub mod Fifo
pub mod Refine
use operating_system_linux_t.Common.{
  ℕ, Bool, true, false, not, Option, none, some, List, [], ◌∷◌, ◌++◌, if◌then◌else◌,
}
use operating_system_linux_t.Memory.{Run, ok, ◌>>=◌, Ptr, Heap, Ends}
use operating_system_linux_t.Thread.{Threads, is_active}
use operating_system_linux_t.Queue.{ll_add, mypthread_dequeue_first_active}

pub record View : Type 0 where
  pub waiting : List ℕ
  pub stale : Bool

pub data Op : Type 0 where
  add : (thread : ℕ) → Op
  dequeue : Threads → Op

abbrev pub null : List ℕ → Bool
null [] = true
null (x ∷ xs) = false

-- The first element that passes the test, the list without it, and whether it is the last one.
abbrev pub first_such : (ℕ → Bool) → List ℕ → Ptr
first_such p [] = none
first_such p (x ∷ xs) = if p x then some x else first_such p xs

abbrev pub without_such : (ℕ → Bool) → List ℕ → List ℕ
without_such p [] = []
without_such p (x ∷ xs) = if p x then xs else x ∷ without_such p xs

abbrev pub such_is_last : (ℕ → Bool) → List ℕ → Bool
such_is_last p [] = false
such_is_last p (x ∷ xs) = if p x then null xs else such_is_last p xs

abbrev pub active : Threads → ℕ → Bool
active ts t = is_active (ts t).state

-- A view before any operation.
abbrev pub empty : View
empty = record { waiting = []; stale = false }

-- The view after a thread is added; none where the tail pointer is bad.
unfoldable pub view_add : ℕ → View → Option View
view_add t v =
    if v.stale then none else some (record { waiting = v.waiting ++ t ∷ []; stale = false })

-- The tail pointer goes bad with the last of several threads, and an empty queue does not use it.
unfoldable pub view_dequeue : Threads → View → Ptr × View
view_dequeue ts v =
    let rest = without_such (active ts) v.waiting in
    (
      first_such (active ts) v.waiting,
      record {
        waiting = rest;
        stale =
            if null rest
            then false
            else (if such_is_last (active ts) v.waiting then true else v.stale);
      },
    )

-- The answers of the dequeues, and the view at the end; none where an operation fails.
unfoldable pub view_run : List Op → View → Option (List Ptr × View)
view_run [] v = some ([], v)
view_run (add t ∷ ops) v = elim (view_add t v) [ none ↦ none | some w ↦ view_run ops w ]
view_run (dequeue ts ∷ ops) v =
    let (p, w) = view_dequeue ts v in
    elim (view_run ops w) [ none ↦ none | some (ps, u) ↦ some (p ∷ ps, u) ]

-- The same operations on the nodes.
unfoldable pub queue_run : List Op → Heap ℕ → Ends → Run (List Ptr × Heap ℕ × Ends)
queue_run [] h e = ok ([], h, e)
queue_run (add t ∷ ops) h e = ll_add t h e >>= λ (h', e'). queue_run ops h' e'
queue_run (dequeue ts ∷ ops) h e = mypthread_dequeue_first_active h e ts >>= λ (p, h', e').
    queue_run ops h' e' >>= λ (ps, h₂, e₂). ok (p ∷ ps, h₂, e₂)
