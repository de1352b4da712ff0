-- ===== src/Queue.antt =====
-- The list operations of pthreads/queue_util.c. A function that takes the addresses of a head and
-- a tail returns their new values. Loops along `next` run on fuel.
pub mod Add
pub mod Dequeue
pub mod Lookup
pub mod Spec
pub mod Tail
pub mod Wake
use operating_system_linux_t.Common.{
  ℕ, zero, suc, ◌+◌, Bool, true, false, none, some, ◌==◌, if◌then◌else◌,
}
use operating_system_linux_t.Memory.{
  Run, ok, fault, out_of_fuel, ◌>>=◌, Ptr, is_null, ptr_eq, node, Heap, Ends, write, load, set_next,
  set_prev, free, update,
}
use operating_system_linux_t.Thread.{
  Thread, Threads, Kthread, Kthreads, State, ps_active, is_active,
}

-- `create_mypthread_queue_node` and `create_mykthread_ll_node`: the new node's address.
unfoldable pub create_node {ℓ} : {A : Type ℓ} → A → Heap A → ℕ × Heap A
create_node data' h =
    (h.fresh, record (write h h.fresh (some (node none data' none))) { fresh = h.fresh + 1 })

-- `ll_add`
unfoldable pub ll_add {ℓ} : {A : Type ℓ} → A → Heap A → Ends → Run (Heap A × Ends)
unfolding create_node
ll_add data' h e =
    let (temp, h₁) = create_node data' h in
    if is_null e.head then ok (h₁, record { head = some temp; tail = some temp }) else do
      h₂ ← set_next h₁ e.tail (some temp)
      h₃ ← set_prev h₂ (some temp) e.tail
      ok (h₃, record e { tail = some temp })

-- The loop of `mypthread_dequeue_first_active`, from `del` on.
unfoldable pub find_active : ℕ → Heap ℕ → Threads → Ptr → Run Ptr
find_active zero h ts del = out_of_fuel
find_active (suc k) h ts none = ok none
find_active (suc k) h ts (some a) = do
  n ← load h (some a)
  elim (is_active (ts n.item).state) [ true ↦ ok (some a) | false ↦ find_active k h ts n.next ]

-- The part behind the loop: the thread of `del`, with `del` unlinked and freed.
unfoldable pub unlink : Heap ℕ → Ends → ℕ → Run (Ptr × Heap ℕ × Ends)
unlink h e del = do
  n ← load h (some del)
  let e₁ = if ptr_eq e.head (some del) then record e { head = n.next } else e
  h₁ ← if is_null n.next then ok h else set_prev h n.next n.prev
  h₂ ← if is_null n.prev then ok h₁ else set_next h₁ n.prev n.next
  h₃ ← free h₂ (some del)
  ok (some n.item, h₃, e₁)

-- `mypthread_dequeue_first_active`. The queue holds at most `h.fresh` nodes.
unfoldable pub mypthread_dequeue_first_active : Heap ℕ → Ends → Threads → Run (Ptr × Heap ℕ × Ends)
mypthread_dequeue_first_active h e ts = do
  del ← find_active (suc h.fresh) h ts e.head
  elim del [ none ↦ ok (none, h, e) | some d ↦ unlink h e d ]

-- The loop of `mypthread_get`.
unfoldable pub find_thread : ℕ → Heap ℕ → Threads → ℕ → Ptr → Run Ptr
find_thread zero h ts thread_id temp = out_of_fuel
find_thread (suc k) h ts thread_id none = ok none
find_thread (suc k) h ts thread_id (some a) = do
  n ← load h (some a)
  elim ((ts n.item).th_id == thread_id) [
    | true ↦ ok (some n.item)
    | false ↦ find_thread k h ts thread_id n.next
  ]

-- `mypthread_get`
unfoldable pub mypthread_get : Heap ℕ → Ends → Threads → ℕ → Run Ptr
mypthread_get h e ts thread_id = find_thread (suc h.fresh) h ts thread_id e.head

abbrev pub set_state : Threads → ℕ → State → Threads
set_state ts t s = update ts t (record (ts t) { state = s })

-- The loop of `mypthread_update_waiting_threads`.
unfoldable pub wake_dependents : ℕ → Heap ℕ → Threads → ℕ → Ptr → Run Threads
wake_dependents zero h ts thread_id temp = out_of_fuel
wake_dependents (suc k) h ts thread_id none = ok ts
wake_dependents (suc k) h ts thread_id (some a) = do
  n ← load h (some a)
  let ts' = if (ts n.item).dependent_th == thread_id then set_state ts n.item ps_active else ts
  wake_dependents k h ts' thread_id n.next

-- `mypthread_update_waiting_threads`
unfoldable pub mypthread_update_waiting_threads : Heap ℕ → Ends → Threads → ℕ → Run Threads
mypthread_update_waiting_threads h e ts thread_id =
    wake_dependents (suc h.fresh) h ts thread_id e.head

-- The loop of `ll_free`.
unfoldable pub free_all : ℕ → Heap ℕ → Threads → Ptr → Run (Heap ℕ × Threads)
free_all zero h ts temp = out_of_fuel
free_all (suc k) h ts none = ok (h, ts)
free_all (suc k) h ts (some del) = do
  n ← load h (some del)
  h' ← free h (some del)
  free_all k h' (set_state ts n.item ps_active) n.next

-- `ll_free`
unfoldable pub ll_free : Heap ℕ → Ends → Threads → Run (Heap ℕ × Ends × Threads)
ll_free h e ts = if is_null e.head then ok (h, e, ts) else do
  (h', ts') ← free_all (suc h.fresh) h ts e.head
  ok (h', record { head = none; tail = none }, ts')

-- `ll_free_one`, which is given the head only.
unfoldable pub ll_free_one : Heap ℕ → Ptr → Threads → Run (Heap ℕ × Ptr × Threads)
ll_free_one h none ts = ok (h, none, ts)
ll_free_one h (some del) ts = do
  n ← load h (some del)
  h' ← free h (some del)
  ok (h', n.next, set_state ts n.item ps_active)

-- `mykthread_add`
unfoldable pub mykthread_add : ℕ → Heap ℕ → Ends → Run (Heap ℕ × Ends)
unfolding create_node
mykthread_add data' h e =
    let (temp, h₁) = create_node data' h in
    if is_null e.head then ok (h₁, record { head = some temp; tail = some temp }) else do
      h₂ ← set_next h₁ e.tail (some temp)
      h₃ ← set_prev h₂ (some temp) e.tail
      ok (h₃, record { head = e.head; tail = some temp })

-- The loop of `mykthread_is_running`; `temp->kth->th` may be NULL.
unfoldable pub any_running : ℕ → Heap ℕ → Kthreads → Threads → ℕ → Ptr → Run Bool
any_running zero h ks ts thread_id temp = out_of_fuel
any_running (suc k) h ks ts thread_id none = ok false
any_running (suc k) h ks ts thread_id (some a) = do
  n ← load h (some a)
  elim (ks n.item).th [
    | none ↦ fault
    | some t ↦ elim ((ts t).th_id == thread_id) [
      | true ↦ ok true
      | false ↦ any_running k h ks ts thread_id n.next
    ]
  ]

-- `mykthread_is_running`
unfoldable pub mykthread_is_running : Heap ℕ → Ends → Kthreads → Threads → ℕ → Run Bool
mykthread_is_running h e ks ts thread_id = any_running (suc h.fresh) h ks ts thread_id e.head

-- The loop of `mykthread_get`.
unfoldable pub find_kthread : ℕ → Heap ℕ → Kthreads → ℕ → Ptr → Run Ptr
find_kthread zero h ks kthread_id temp = out_of_fuel
find_kthread (suc k) h ks kthread_id none = ok none
find_kthread (suc k) h ks kthread_id (some a) = do
  n ← load h (some a)
  elim ((ks n.item).kth_id == kthread_id) [
    | true ↦ ok (some n.item)
    | false ↦ find_kthread k h ks kthread_id n.next
  ]

-- `mykthread_get`
unfoldable pub mykthread_get : Heap ℕ → Ends → Kthreads → ℕ → Run Ptr
mykthread_get h e ks kthread_id = find_kthread (suc h.fresh) h ks kthread_id e.head
