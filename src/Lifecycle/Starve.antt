-- ===== src/Lifecycle/Starve.antt =====
-- `mypthread_yield` of pthreads/mypthread.c when no other queued thread is active.
use operating_system_linux_t.Common.{ℕ, ◌≡◌, ◌∙◌, true, false, [], ◌∷◌, ◌++◌, ◌==◌, arith}
use operating_system_linux_t.Memory.{Run, ok, fault, Ptr, Heap, Ends}
use operating_system_linux_t.Memory.Chain.{Cells}
use operating_system_linux_t.Thread.{Threads, Context, saved, in_yield, ps_active, is_active}
use operating_system_linux_t.Queue.{ll_add}
use operating_system_linux_t.Queue.Dequeue.{Inactive, Removed}
use operating_system_linux_t.Queue.Tail.{Removed-fault}
use operating_system_linux_t.Machine.{Machine, lift, ◌>>=◌, set_status}
use operating_system_linux_t.Machine.Ops.{mypthread_enqueue}
use operating_system_linux_t.Machine.Inv.{Unlocked, Lists, Current}
use operating_system_linux_t.Scheduler.{Outcome, running}
use operating_system_linux_t.Scheduler.Switch.{can_save, AllRun}
use operating_system_linux_t.Lifecycle.{mypthread_yield}
use operating_system_linux_t.Lifecycle.Yield.{yielded, mypthread_yield-Yields}

-- The first active thread of a list whose last thread alone is active.
split_last :
    (ts : Threads) (xs : Cells) (a t : ℕ) (ys : Cells) (b u : ℕ) (zs : Cells)
    → Inactive ts xs
    → Inactive ts ys
    → is_active (ts t).state ≡ true
    → is_active (ts u).state ≡ true
    → xs ++ (a, t) ∷ [] ≡ ys ++ (b, u) ∷ zs
    → (ys ≡ xs) × (b ≡ a) × (u ≡ t) × (zs ≡ [])
split_last ts [] a t [] b u zs i j act act' e = ground arith
split_last ts [] a t (y ∷ []) b u zs i j act act' e = cc
split_last ts [] a t (y ∷ z ∷ ys) b u zs i j act act' e = cc
split_last ts ((c, v) ∷ xs) a t [] b u zs i j act act' e = ground arith
split_last ts ((c, v) ∷ xs) a t ((d, w) ∷ ys) b u zs i j act act' e =
    ground (arith, split_last ts xs a t ys b u zs i.1 j.1 act act')

enqueue-fault :
    (x : ℕ) (m : Machine) → ll_add x m.nodes m.mypthread_q ≡ fault → mypthread_enqueue x m ≡ fault
unfolding mypthread_enqueue ◌>>=◌
enqueue-fault x m e = rw (e, lift)

Removed-last :
    (h : Heap ℕ) (e : Ends) (a t b u : ℕ) (xs ys zs : Cells) (r : Ptr × Heap ℕ × Ends)
    → ys ≡ xs
    → b ≡ a
    → u ≡ t
    → zs ≡ []
    → Removed h e b u ys zs r
    → Removed h e a t xs [] r
Removed-last h e a t b u xs ys zs r p q s z rem = rw (p, q, s, z) at rem

ctx-yielded :
    (k t s : ℕ) (h : Heap ℕ) (e : Ends) (m : Machine)
    → s ≡ t
    → ((yielded k t s h e m).threads s).ctx ≡ saved in_yield
ctx-yielded k t s h e m p = ground arith

running-eq :
    (s t : ℕ) (c d : Context) (n : Machine)
    → s ≡ t
    → c ≡ d
    → ◌≡◌ {A = Run (Outcome × Machine)} (ok (running s c, n)) (ok (running t d, n))
running-eq s t c d n p q = cc

-- When no queued thread is active and the queue is not empty, the yielding thread runs on, and
-- an enqueue that comes next, of any thread, is a write to freed memory.
pub yield_alone-fault :
    (tid k t b v : ℕ) (m : Machine) (qs ks : Cells)
    → Unlocked m
    → Lists m ((b, v) ∷ qs) ks
    → Current m ks tid k t
    → (m.mypthread_count == 0) ≡ false
    → can_save (m.threads t).ctx ≡ true
    → AllRun m.threads ((b, v) ∷ qs)
    → Inactive (set_status t ps_active m).threads ((b, v) ∷ qs)
    → (m' : Machine) × (mypthread_yield tid m ≡ ok (running t (saved in_yield), m'))
      × ((x : ℕ) → mypthread_enqueue x m' ≡ fault)
yield_alone-fault tid k t b v m qs ks u l c nz sv ar ina =
    let y = mypthread_yield-Yields tid k t m ((b, v) ∷ qs) ks u l c nz sv ar in
    let s = y.next in
    let (front, addr, thread, back) =
      split_last (set_status t ps_active m).threads ((b, v) ∷ qs) m.nodes.fresh t s.front s.addr
        s.thread s.back ina s.passed (ground arith) s.active s.whole in
    let rem =
      Removed-last y.mid.0 y.mid.1 m.nodes.fresh t s.addr s.thread ((b, v) ∷ qs) s.front s.back _
        front addr thread back y.taken in
    (
      yielded k t s.thread y.nodes y.ends m,
      y.runs
          ∙ running-eq s.thread t _ _ _ thread (ctx-yielded k t s.thread y.nodes y.ends m thread),
      λ x. enqueue-fault x _ (Removed-fault {e = y.mid.1} x y.added.list.below rem y.added.ends),
    )
