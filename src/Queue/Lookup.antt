-- ===== src/Queue/Lookup.antt =====
-- The searches of pthreads/queue_util.c against their answer on the list that the nodes stand for.
use operating_system_linux_t.Common.{
  ℕ, zero, suc, ◌<◌, ◌≡◌, refl, Bool, false, ◌||◌, none, some, [], ◌∷◌, ◌==◌, length, arith,
  if◌then◌else◌,
}
use operating_system_linux_t.Memory.{ok, Ptr, Heap, Ends}
use operating_system_linux_t.Memory.Chain.{Cells, first, Chain, IsList}
use operating_system_linux_t.Thread.{Threads, Kthreads}
use operating_system_linux_t.Queue.{
  find_thread, mypthread_get, find_kthread, mykthread_get, any_running, mykthread_is_running,
}

-- The item of the first node that passes the test.
abbrev pub find_item : (ℕ → Bool) → Cells → Ptr
find_item p [] = none
find_item p ((a, t) ∷ xs) = if p t then some t else find_item p xs

-- Some item passes the test.
abbrev pub any_item : (ℕ → Bool) → Cells → Bool
any_item p [] = false
any_item p ((a, t) ∷ xs) = p t || any_item p xs

find_thread-find_item :
    (k : ℕ) (h : Heap ℕ) (ts : Threads) (id : ℕ) (p : Ptr) (xs : Cells)
    → Chain h.cells p xs
    → length xs < k
    → find_thread k h ts id (first xs) ≡ ok (find_item (λ t. (ts t).th_id == id) xs)
unfolding find_thread
find_thread-find_item zero h ts id p xs ch fuel = absurd (omega arith)
find_thread-find_item (suc k) h ts id p [] ch fuel = refl
find_thread-find_item (suc k) h ts id p ((a, t) ∷ xs) ch fuel =
    ground (arith, find_thread-find_item k h ts id (some a) xs ch.2)

find_kthread-find_item :
    (k : ℕ) (h : Heap ℕ) (ks : Kthreads) (id : ℕ) (p : Ptr) (xs : Cells)
    → Chain h.cells p xs
    → length xs < k
    → find_kthread k h ks id (first xs) ≡ ok (find_item (λ t. (ks t).kth_id == id) xs)
unfolding find_kthread
find_kthread-find_item zero h ks id p xs ch fuel = absurd (omega arith)
find_kthread-find_item (suc k) h ks id p [] ch fuel = refl
find_kthread-find_item (suc k) h ks id p ((a, t) ∷ xs) ch fuel =
    ground (arith, find_kthread-find_item k h ks id (some a) xs ch.2)

-- `mypthread_get` returns the first queued thread with the id, or NULL.
pub mypthread_get-find_item :
    (h : Heap ℕ) (e : Ends) (ts : Threads) (id : ℕ) (xs : Cells)
    → IsList h e.head xs
    → mypthread_get h e ts id ≡ ok (find_item (λ t. (ts t).th_id == id) xs)
unfolding mypthread_get
mypthread_get-find_item h e ts id xs is =
    rw is.starts
      (find_thread-find_item (suc h.fresh) h ts id none xs is.chain (omega (arith, is.few)))

-- `mykthread_get` returns the first kernel thread with the id, or NULL.
pub mykthread_get-find_item :
    (h : Heap ℕ) (e : Ends) (ks : Kthreads) (id : ℕ) (xs : Cells)
    → IsList h e.head xs
    → mykthread_get h e ks id ≡ ok (find_item (λ t. (ks t).kth_id == id) xs)
unfolding mykthread_get
mykthread_get-find_item h e ks id xs is =
    rw is.starts
      (find_kthread-find_item (suc h.fresh) h ks id none xs is.chain (omega (arith, is.few)))

-- Every kernel thread of the list has been given a user thread.
abbrev pub AllBusy : Kthreads → Cells → Type 0
AllBusy ks [] = Unit
AllBusy ks ((a, k) ∷ xs) = ((t : ℕ) × ((ks k).th ≡ some t)) × AllBusy ks xs

-- The kernel thread runs the user thread with the id.
abbrev pub runs : Kthreads → Threads → ℕ → ℕ → Bool
runs ks ts id k = elim (ks k).th [ none ↦ false | some t ↦ (ts t).th_id == id ]

any_running-any_item :
    (k : ℕ) (h : Heap ℕ) (ks : Kthreads) (ts : Threads) (id : ℕ) (p : Ptr) (xs : Cells)
    → Chain h.cells p xs
    → AllBusy ks xs
    → length xs < k
    → any_running k h ks ts id (first xs) ≡ ok (any_item (runs ks ts id) xs)
unfolding any_running
any_running-any_item zero h ks ts id p xs ch busy fuel = absurd (omega arith)
any_running-any_item (suc k) h ks ts id p [] ch busy fuel = refl
any_running-any_item (suc k) h ks ts id p ((a, t) ∷ xs) ch busy fuel =
    let (u, e) = busy.0 in ground (arith, any_running-any_item k h ks ts id (some a) xs ch.2 busy.1)

-- `mykthread_is_running` says whether some kernel thread runs the thread.
pub mykthread_is_running-any_item :
    (h : Heap ℕ) (e : Ends) (ks : Kthreads) (ts : Threads) (id : ℕ) (xs : Cells)
    → IsList h e.head xs
    → AllBusy ks xs
    → mykthread_is_running h e ks ts id ≡ ok (any_item (runs ks ts id) xs)
unfolding mykthread_is_running
mykthread_is_running-any_item h e ks ts id xs is busy =
    rw is.starts
      (any_running-any_item (suc h.fresh) h ks ts id none xs is.chain busy (omega (arith, is.few)))
