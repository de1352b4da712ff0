-- ===== src/Queue/Wake.antt =====
-- The functions of pthreads/queue_util.c that make waiting threads active.
use operating_system_linux_t.Common.{
  ℕ, zero, suc, ◌<◌, ◌≡◌, refl, Bool, ◌||◌, ◌&&◌, none, some, [], ◌∷◌, ◌==◌, ◌∙◌, length, arith,
  if◌then◌else◌,
}
use operating_system_linux_t.Memory.{ok, Ptr, node, Heap, Ends, write, load, free, no_ends}
use operating_system_linux_t.Memory.Chain.{
  Cells, has, first, Chain, IsList, Linked, Chain-frame, ne_of_has, SameAt, Table,
}
use operating_system_linux_t.Thread.{Threads, ps_active}
use operating_system_linux_t.Queue.{
  set_state, wake_dependents, mypthread_update_waiting_threads, free_all, ll_free, ll_free_one,
}
use operating_system_linux_t.Queue.Lookup.{any_item}

-- `ts'` is `ts` with the threads that pass the test made active.
abbrev pub Woken : (ℕ → Bool) → Threads → Threads → Type 0
Woken p ts ts' = (t : ℕ) → ts' t ≡ (if p t then record (ts t) { state = ps_active } else ts t)

wake_dependents-none :
    (k : ℕ) (h : Heap ℕ) (ts : Threads) (id : ℕ) → wake_dependents (suc k) h ts id none ≡ ok ts
unfolding wake_dependents
wake_dependents-none k h ts id = refl

wake_dependents-step :
    (k : ℕ) (h : Heap ℕ) (ts : Threads) (id a : ℕ) (q : Ptr) (v : ℕ) (r : Ptr)
    → h.cells a ≡ some (node q v r)
    → wake_dependents (suc k) h ts id (some a)
      ≡ wake_dependents k h
          (if (ts v).dependent_th == id then set_state ts v ps_active else ts)
          id
          r
unfolding wake_dependents
wake_dependents-step k h ts id a q v r live = rw (live, load)

Woken-step :
    (ts : Threads) (id v t : ℕ) (b : Bool)
    → (let ts₁ : Threads = if (ts v).dependent_th == id then set_state ts v ps_active else ts in
        (if b && ((ts₁ t).dependent_th == id) then record (ts₁ t) { state = ps_active } else ts₁ t))
      ≡ (if ((v == t) || b) && ((ts t).dependent_th == id)
          then record (ts t) { state = ps_active }
          else ts t)
Woken-step ts id v t b = ground arith

wake_dependents-Woken :
    (k : ℕ) (h : Heap ℕ) (ts : Threads) (id : ℕ) (p : Ptr) (xs : Cells)
    → Chain h.cells p xs
    → length xs < k
    → (ts' : Threads) × (wake_dependents k h ts id (first xs) ≡ ok ts')
      × Woken (λ t. any_item (λ u. u == t) xs && ((ts t).dependent_th == id)) ts ts'
wake_dependents-Woken zero h ts id p xs ch fuel = absurd (omega arith)
wake_dependents-Woken (suc k) h ts id p [] ch fuel = (ts, wake_dependents-none k h ts id, λ t. refl)
wake_dependents-Woken (suc k) h ts id p ((a, v) ∷ xs) ch fuel =
    let ts₁ : Threads = if (ts v).dependent_th == id then set_state ts v ps_active else ts in
    let (ts', run, woken) = wake_dependents-Woken k h ts₁ id (some a) xs ch.2 (omega arith) in
    (
      ts',
      wake_dependents-step k h ts id a p v (first xs) ch.0 ∙ run,
      λ t. woken t ∙ Woken-step ts id v t (any_item (λ u. u == t) xs),
    )

-- `mypthread_update_waiting_threads` makes exactly those queued threads active that depend on the
-- thread, and changes nothing else of any thread.
pub mypthread_update_waiting_threads-Woken :
    (h : Heap ℕ) (e : Ends) (ts : Threads) (id : ℕ) (xs : Cells)
    → IsList h e.head xs
    → (ts' : Threads) × (mypthread_update_waiting_threads h e ts id ≡ ok ts')
      × Woken (λ t. any_item (λ u. u == t) xs && ((ts t).dependent_th == id)) ts ts'
unfolding mypthread_update_waiting_threads
mypthread_update_waiting_threads-Woken h e ts id xs is =
    rw is.starts
      (wake_dependents-Woken (suc h.fresh) h ts id none xs is.chain (omega (arith, is.few)))

-- The nodes of `xs` are freed, and no other.
abbrev pub FreedOnly : Cells → Table → Table → Type 0
FreedOnly xs c d = (x : ℕ) → d x ≡ (if has x xs then none else c x)

free_all-step :
    (k : ℕ) (h : Heap ℕ) (ts : Threads) (a : ℕ) (q : Ptr) (v : ℕ) (r : Ptr)
    → h.cells a ≡ some (node q v r)
    → free_all (suc k) h ts (some a) ≡ free_all k (write h a none) (set_state ts v ps_active) r
unfolding free_all
free_all-step k h ts a q v r live = rw (live, load) (rw (live, free))

free_all-none : (k : ℕ) (h : Heap ℕ) (ts : Threads) → free_all (suc k) h ts none ≡ ok (h, ts)
unfolding free_all
free_all-none k h ts = refl

Woken-cons :
    (ts : Threads) (v t : ℕ) (b : Bool)
    → (let ts₁ : Threads = set_state ts v ps_active in
        (if b then record (ts₁ t) { state = ps_active } else ts₁ t))
      ≡ (if (v == t) || b then record (ts t) { state = ps_active } else ts t)
Woken-cons ts v t b = ground arith

FreedOnly-cons :
    (c : Table) (a x : ℕ) (xs : Cells)
    → (if has x xs then none else (if a == x then none else c x))
      ≡ (if (a == x) || has x xs then none else c x)
FreedOnly-cons c a x xs = ground arith

free_all-Woken :
    (k : ℕ) (h : Heap ℕ) (ts : Threads) (p : Ptr) (xs : Cells)
    → Chain h.cells p xs
    → length xs < k
    → (h' : Heap ℕ) × (ts' : Threads) × (free_all k h ts (first xs) ≡ ok (h', ts'))
      × (h'.fresh ≡ h.fresh)
      × FreedOnly xs h.cells h'.cells
      × Woken (λ t. any_item (λ u. u == t) xs) ts ts'
free_all-Woken zero h ts p xs ch fuel = absurd (omega arith)
free_all-Woken (suc k) h ts p [] ch fuel =
    (h, ts, free_all-none k h ts, refl, (λ x. refl), λ t. refl)
free_all-Woken (suc k) h ts p ((a, v) ∷ xs) ch fuel =
    let spared : SameAt xs h.cells (write h a none).cells = λ x i. rw (ne_of_has x a xs i ch.1) in
    let (h', ts', run, fr, freed, woken) =
      free_all-Woken k (write h a none) (set_state ts v ps_active) (some a) xs
        (Chain-frame (some a) xs spared ch.2) (omega arith) in
    (
      h',
      ts',
      free_all-step k h ts a p v (first xs) ch.0 ∙ run,
      fr,
      (λ x. freed x ∙ FreedOnly-cons h.cells a x xs),
      λ t. woken t ∙ Woken-cons ts v t (any_item (λ u. u == t) xs),
    )

-- The list is empty, its nodes are freed and no others, and its threads are active.
pub record Released (h : Heap ℕ) (ts : Threads) (xs : Cells) (r : Heap ℕ × Ends × Threads)
    : Type 0 where
  pub empty : r.1.head ≡ none
  pub fresh : r.0.fresh ≡ h.fresh
  pub freed : FreedOnly xs h.cells r.0.cells
  pub woken : Woken (λ t. any_item (λ u. u == t) xs) ts r.2

-- `ll_free` on a well-formed list frees exactly its nodes, makes exactly its threads active and
-- leaves it empty.
pub ll_free-Released :
    (p : Ptr) (h : Heap ℕ) (e : Ends) (ts : Threads) (xs : Cells)
    → Linked p h e.head xs
    → (r : Heap ℕ × Ends × Threads) × (ll_free h e ts ≡ ok r) × Released h ts xs r
unfolding ll_free
ll_free-Released p h e ts [] is = (
  (h, e, ts),
  rw is.starts,
  record { empty = is.starts; fresh = refl; freed = λ x. refl; woken = λ t. refl },
)
ll_free-Released p h e ts ((a, v) ∷ xs) is =
    let (h', ts', run, fr, freed, woken) =
      free_all-Woken (suc h.fresh) h ts p ((a, v) ∷ xs) is.chain (omega (arith, is.few)) in
    (
      (h', no_ends, ts'),
      rw (is.starts, run) refl,
      record { empty = refl; fresh = fr; freed = freed; woken = woken },
    )

-- The first node is off and freed, its thread is active, and the rest of the list is as it was.
pub record ReleasedOne (h : Heap ℕ) (ts : Threads) (a v : ℕ) (xs : Cells)
    (r : Heap ℕ × Ptr × Threads) : Type 0 where
  pub list : Linked (some a) r.0 r.1 xs
  pub fresh : r.0.fresh ≡ h.fresh
  pub freed : FreedOnly ((a, v) ∷ []) h.cells r.0.cells
  pub woken : Woken (λ t. v == t) ts r.2

-- `ll_free_one` on a list that is not empty takes the first node off and frees it, makes its thread
-- active and no other, and leaves the rest of the list as it was.
pub ll_free_one-ReleasedOne :
    (p : Ptr) (h : Heap ℕ) (head : Ptr) (ts : Threads) (a v : ℕ) (xs : Cells)
    → Linked p h head ((a, v) ∷ xs)
    → (r : Heap ℕ × Ptr × Threads) × (ll_free_one h head ts ≡ ok r) × ReleasedOne h ts a v xs r
unfolding ll_free_one
ll_free_one-ReleasedOne p h head ts a v xs is =
    let spared : SameAt xs h.cells (write h a none).cells =
      λ x i. rw (ne_of_has x a xs i is.chain.1) in
    (
      (write h a none, first xs, set_state ts v ps_active),
      ground (arith, is.starts, is.chain.0),
      record {
        list = record {
          starts = refl;
          chain = Chain-frame (some a) xs spared is.chain.2;
          below = is.below.1;
          few = omega (arith, is.few);
        };
        fresh = refl;
        freed = λ x. ground arith;
        woken = λ t. ground arith;
      },
    )

-- On an empty list it does nothing.
pub ll_free_one-none : (h : Heap ℕ) (ts : Threads) → ll_free_one h none ts ≡ ok (h, none, ts)
unfolding ll_free_one
ll_free_one-none h ts = refl
