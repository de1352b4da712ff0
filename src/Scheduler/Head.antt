-- ===== src/Scheduler/Head.antt =====
-- A round of the scheduler of pthreads/mypthread.c when the first thread of the queue is active.
use operating_system_linux_t.Common.{ℕ, ◌≡◌, true, some, [], ◌∷◌, ◌++◌, arith}
use operating_system_linux_t.Memory.{Ptr, Heap, Ends}
use operating_system_linux_t.Memory.Chain.{Cells, IsList, TailIs}
use operating_system_linux_t.Thread.{Threads, is_active}
use operating_system_linux_t.Queue.Dequeue.{Inactive, Removed}
use operating_system_linux_t.Queue.Tail.{Removed-TailIs}
use operating_system_linux_t.Machine.{Machine}
use operating_system_linux_t.Machine.Inv.{Unlocked}
use operating_system_linux_t.Scheduler.{Mode, switch, scheduler_round}
use operating_system_linux_t.Scheduler.Round.{hand_over, sleeps, switches, scheduler_round-Turn}

first_active :
    (ts : Threads) (a x : ℕ) (xs ys : Cells) (b y : ℕ) (zs : Cells)
    → is_active (ts x).state ≡ true
    → Inactive ts ys
    → (a, x) ∷ xs ≡ ys ++ (b, y) ∷ zs
    → (ys ≡ []) × (b ≡ a) × (y ≡ x) × (zs ≡ xs)
first_active ts a x xs [] b y zs act ina e = ground arith
first_active ts a x xs ((c, v) ∷ ys) b y zs act ina e = absurd (ground arith)

TailIs-rest :
    {h : Heap ℕ} {e : Ends} {a x : ℕ} (xs : Cells) {r : Ptr × Heap ℕ × Ends}
    → Removed h e a x [] xs r
    → TailIs e.tail ((a, x) ∷ xs)
    → TailIs r.2.tail xs
TailIs-rest [] rem tl = tt
TailIs-rest ((c, u) ∷ zs) rem tl = Removed-TailIs {ys = []} rem tl

-- The round hands the kernel thread over to the first thread and leaves the others.
pub record Hands (k : ℕ) (last : Ptr) (mode : Mode) (m : Machine) (x : ℕ) (xs : Cells)
    : Type 0 where
  pub nodes : Heap ℕ
  pub ends : Ends
  pub runs : scheduler_round k last mode m ≡ switch last mode x (hand_over k x nodes ends m)
  pub list : IsList nodes ends.head xs
  pub tail : TailIs ends.tail xs

Hands-of_Removed :
    (k : ℕ) (last : Ptr) (mode : Mode) (m : Machine) (a x : ℕ) (xs ys : Cells) (b y : ℕ)
    (zs : Cells) (h : Heap ℕ) (e : Ends)
    → ys ≡ []
    → b ≡ a
    → y ≡ x
    → zs ≡ xs
    → Removed m.nodes m.mypthread_q b y ys zs (some y, h, e)
    → scheduler_round k last mode m ≡ switch last mode y (hand_over k y h e m)
    → TailIs m.mypthread_q.tail ((a, x) ∷ xs)
    → Hands k last mode m x xs
Hands-of_Removed k last mode m a x xs ys b y zs h e p q r s rem run tl =
    let rem' = rw (p, q, r, s) at rem in
    record {
      nodes = h;
      ends = e;
      runs = rw r at run;
      list = rem'.list;
      tail = TailIs-rest xs rem' tl;
    }

pub scheduler_round-Hands :
    (k : ℕ) (last : Ptr) (mode : Mode) (m : Machine) (a x : ℕ) (xs : Cells)
    → Unlocked m
    → IsList m.nodes m.mypthread_q.head ((a, x) ∷ xs)
    → TailIs m.mypthread_q.tail ((a, x) ∷ xs)
    → is_active (m.threads x).state ≡ true
    → Hands k last mode m x xs
scheduler_round-Hands k last mode m a x xs u is tl act =
    elim (scheduler_round-Turn k last mode m ((a, x) ∷ xs) u is) [
      | sleeps ina run ↦ absurd (ground (arith, ina.0, act))
      | switches s h e rem run ↦
          let (p, q, r, z) =
            first_active m.threads a x xs s.front s.addr s.thread s.back act s.passed s.whole in
          Hands-of_Removed k last mode m a x xs s.front s.addr s.thread s.back h e p q r z rem run
            tl
    ]
