-- ===== src/Queue/Tail.antt =====
-- The tail pointer of the run queue of pthreads/queue_util.c, from a dequeue to the next `ll_add`.
use operating_system_linux_t.Common.{
  ℕ, ◌<◌, ◌≡◌, refl, true, none, some, [], ◌∷◌, ◌++◌, arith, ◌∙◌, ap,
}
use operating_system_linux_t.Thread.{Threads, is_active}
use operating_system_linux_t.Memory.{ok, fault, Ptr, Heap, Ends}
use operating_system_linux_t.Memory.Chain.{Cells, last, TailIs, IsList, Below, last-append}
use operating_system_linux_t.Queue.{ll_add, mypthread_dequeue_first_active}
use operating_system_linux_t.Queue.Dequeue.{Removed, Inactive, dequeue-first_active}

last-behind :
    (b v : ℕ) (ys : Cells) (a t c u : ℕ) (zs : Cells)
    → last b (ys ++ (a, t) ∷ (c, u) ∷ zs) ≡ last b (ys ++ (c, u) ∷ zs)
last-behind b v [] a t c u zs = refl
last-behind b v ((d, w) ∷ ys) a t c u zs = last-behind d w ys a t c u zs

pub Removed-TailIs :
    {h : Heap ℕ} {e : Ends} {a t : ℕ} {ys : Cells} {c u : ℕ} {zs : Cells} {r : Ptr × Heap ℕ × Ends}
    → Removed h e a t ys ((c, u) ∷ zs) r
    → TailIs e.tail (ys ++ (a, t) ∷ (c, u) ∷ zs)
    → TailIs r.2.tail (ys ++ (c, u) ∷ zs)
Removed-TailIs {ys = []} rem tl = rem.tail ∙ tl
Removed-TailIs {a = a} {t = t} {ys = (b, v) ∷ ys} {c = c} {u = u} {zs = zs} rem tl =
    rem.tail ∙ tl ∙ ap some (last-behind b v ys a t c u zs)

pub ll_add-fault :
    (d : ℕ) (h : Heap ℕ) (e : Ends) (b a : ℕ)
    → e.head ≡ some b
    → e.tail ≡ some a
    → h.cells a ≡ none
    → a < h.fresh
    → ll_add d h e ≡ fault
unfolding ll_add
ll_add-fault d h e b a eh et dead lt = ground arith

pub Below-at : (n : ℕ) (ys : Cells) (a t : ℕ) (zs : Cells) → Below n (ys ++ (a, t) ∷ zs) → a < n
Below-at n [] a t zs b = b.0
Below-at n ((c, v) ∷ ys) a t zs b = Below-at n ys a t zs b.1

pub Removed-fault :
    {h : Heap ℕ} {e : Ends} {b v : ℕ} {ys : Cells} {a t : ℕ} {r : Ptr × Heap ℕ × Ends} (d : ℕ)
    → Below h.fresh (((b, v) ∷ ys) ++ (a, t) ∷ [])
    → Removed h e a t ((b, v) ∷ ys) [] r
    → TailIs e.tail (((b, v) ∷ ys) ++ (a, t) ∷ [])
    → ll_add d r.1 r.2 ≡ fault
Removed-fault {h} {b} {v} {ys} {a} {t} {r} d bel rem tl =
    ll_add-fault d r.1 r.2 b a rem.list.starts (rem.tail ∙ tl ∙ ap some (last-append b a t ys))
      rem.freed (rw rem.fresh (Below-at h.fresh ((b, v) ∷ ys) a t [] bel))

-- On a well-formed queue with a right tail pointer, whose first active thread is not the last one,
-- the dequeue returns and leaves a well-formed queue with a right tail pointer.
pub dequeue-TailIs :
    (h : Heap ℕ) (e : Ends) (ts : Threads) (ys : Cells) (a t c u : ℕ) (zs : Cells)
    → IsList h e.head (ys ++ (a, t) ∷ (c, u) ∷ zs)
    → TailIs e.tail (ys ++ (a, t) ∷ (c, u) ∷ zs)
    → Inactive ts ys
    → is_active (ts t).state ≡ true
    → (r : Ptr × Heap ℕ × Ends) × (mypthread_dequeue_first_active h e ts ≡ ok r)
      × IsList r.1 r.2.head (ys ++ (c, u) ∷ zs)
      × TailIs r.2.tail (ys ++ (c, u) ∷ zs)
dequeue-TailIs h e ts ys a t c u zs is tl ina act =
    let (r, run, rem) = dequeue-first_active h e ts ys a t ((c, u) ∷ zs) is ina act in
    (r, run, rem.list, Removed-TailIs {ys = ys} rem tl)

-- On a well-formed queue of several nodes with a right tail pointer, in which the last thread alone
-- is active, the dequeue returns and leaves the tail pointer on the freed node: whatever is added
-- next is a write to freed memory.
pub ll_add_after_last-fault :
    (h : Heap ℕ) (e : Ends) (ts : Threads) (b v : ℕ) (ys : Cells) (a t : ℕ)
    → IsList h e.head (((b, v) ∷ ys) ++ (a, t) ∷ [])
    → TailIs e.tail (((b, v) ∷ ys) ++ (a, t) ∷ [])
    → Inactive ts ((b, v) ∷ ys)
    → is_active (ts t).state ≡ true
    → (r : Ptr × Heap ℕ × Ends) × (mypthread_dequeue_first_active h e ts ≡ ok r)
      × ((d : ℕ) → ll_add d r.1 r.2 ≡ fault)
ll_add_after_last-fault h e ts b v ys a t is tl ina act =
    let (r, run, rem) = dequeue-first_active h e ts ((b, v) ∷ ys) a t [] is ina act in
    (r, run, λ d. Removed-fault {e = e} d is.below rem tl)
