-- ===== src/Lifecycle/Idle/Null.antt =====
-- `mykthread_is_running` of pthreads/queue_util.c when a kernel thread without a user thread is the last one.
use operating_system_linux_t.Common.{
  ℕ, zero, suc, ◌<◌, ◌≡◌, refl, ap, ◌∙◌, false, ◌||◌, none, some, [], ◌∷◌, ◌++◌, ◌==◌, length,
  length-append, ==_self, arith,
}
use operating_system_linux_t.Memory.{fault, Ptr, Heap, Ends, update}
use operating_system_linux_t.Memory.Chain.{Cells, first, Chain, IsList}
use operating_system_linux_t.Thread.{Threads, Kthread, Kthreads}
use operating_system_linux_t.Queue.{any_running, mykthread_is_running}
use operating_system_linux_t.Queue.Lookup.{any_item, runs, AllBusy}

any_running-null :
    (k : ℕ) (h : Heap ℕ) (ks : Kthreads) (ts : Threads) (id : ℕ) (p : Ptr) (xs : Cells) (a n : ℕ)
    → Chain h.cells p (xs ++ (a, n) ∷ [])
    → AllBusy ks xs
    → any_item (runs ks ts id) xs ≡ false
    → (ks n).th ≡ none
    → length xs < k
    → any_running k h ks ts id (first (xs ++ (a, n) ∷ [])) ≡ fault
unfolding any_running
any_running-null zero h ks ts id p xs a n ch busy off null fuel = absurd (omega arith)
any_running-null (suc k) h ks ts id p [] a n ch busy off null fuel = ground arith
any_running-null (suc k) h ks ts id p ((b, v) ∷ xs) a n ch busy off null fuel =
    let (u, e) = busy.0 in
    ground (arith, any_running-null k h ks ts id (some b) xs a n ch.2 busy.1 (ground arith) null)

-- The new kernel thread is no other one, so the others run what they ran.
pub AllBusy-idle :
    (kts : Kthreads) (n tid : ℕ) (xs : Cells)
    → any_item (λ k. n == k) xs ≡ false
    → AllBusy kts xs
    → AllBusy (update kts n (record { kth_id = tid; th = none })) xs
AllBusy-idle kts n tid [] new busy = tt
AllBusy-idle kts n tid ((a, k) ∷ xs) new busy =
    let other : (n == k) ≡ false = ground arith in
    (rw other (busy.0), AllBusy-idle kts n tid xs (ground arith) busy.1)

update-other :
    (kts : Kthreads) (n k : ℕ) (v : Kthread) → (n == k) ≡ false → update kts n v k ≡ kts k
update-other kts n k v other = rw other refl

runs-idle :
    (kts : Kthreads) (ts : Threads) (id n tid k : ℕ)
    → (n == k) ≡ false
    → runs (update kts n (record { kth_id = tid; th = none })) ts id k ≡ runs kts ts id k
runs-idle kts ts id n tid k other =
    ap (λ (v : Kthread). elim v.th [ none ↦ false | some t ↦ (ts t).th_id == id ])
      (update-other kts n k (record { kth_id = tid; th = none }) other)

pub any_item-idle :
    (kts : Kthreads) (ts : Threads) (id n tid : ℕ) (xs : Cells)
    → any_item (λ k. n == k) xs ≡ false
    → any_item (runs (update kts n (record { kth_id = tid; th = none })) ts id) xs
      ≡ any_item (runs kts ts id) xs
any_item-idle kts ts id n tid [] new = refl
any_item-idle kts ts id n tid ((a, k) ∷ xs) new =
    ap (λ b. b || any_item (runs (update kts n (record { kth_id = tid; th = none })) ts id) xs)
      (runs-idle kts ts id n tid k (ground arith))
    ∙ ap (λ b. runs kts ts id k || b) (any_item-idle kts ts id n tid xs (ground arith))

pub update_self : (kts : Kthreads) (n : ℕ) (v : Kthread) → update kts n v n ≡ v
update_self kts n v = rw (==_self n) refl

pub is_running-null :
    (ts : Threads) (kts : Kthreads) (id : ℕ) (h : Heap ℕ) (e : Ends) (ks : Cells) (a n : ℕ)
    → IsList h e.head (ks ++ (a, n) ∷ [])
    → AllBusy kts ks
    → any_item (runs kts ts id) ks ≡ false
    → (kts n).th ≡ none
    → mykthread_is_running h e kts ts id ≡ fault
unfolding mykthread_is_running
is_running-null ts kts id h e ks a n is busy off null = rw is.starts (
    any_running-null (suc h.fresh) h kts ts id none ks a n is.chain busy off null
      (omega (arith, is.few, length-append ks ((a, n) ∷ []))))
