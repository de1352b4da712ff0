-- ===== src/Sync/Waking.antt =====
-- `mypthread_cond_signal` and `mypthread_cond_broadcast` of pthreads/mypthread.c.
use operating_system_linux_t.Common.{
  ℕ, ◌≡◌, refl, ◌∙◌, ap, Bool, false, none, some, [], ◌∷◌, ◌==◌, ==_self, arith,
}
use mathlib.Core.Path.{fun_ext}
use operating_system_linux_t.Memory.{ok, mypthread_sem, cond_sem, Ptr, Heap, Ends, update}
use operating_system_linux_t.Memory.Chain.{Cells, IsList, Linked, TailIs, Disjoint}
use operating_system_linux_t.Thread.{Threads, Cond}
use operating_system_linux_t.Queue
use operating_system_linux_t.Queue.Lookup.{any_item}
use operating_system_linux_t.Queue.Wake
use operating_system_linux_t.Queue.Wake.{Released, ReleasedOne, Woken, FreedOnly}
use operating_system_linux_t.Machine.{Machine, lift, ◌>>=◌, after, set_cond}
use operating_system_linux_t.Machine.Ops.{sem_wait-one, sem_post_lem}
use operating_system_linux_t.Machine.Inv.{Unlocked}
use operating_system_linux_t.Sync.{
  mypthread_cond_signal, mypthread_cond_broadcast, release_one, release_waiting,
}
use operating_system_linux_t.Sync.Unlocking.{FreedOnly-keeps}

-- The condition's list of waiting threads stands for `cs`, and shares no node with the run queue.
pub record Sleepers (m : Machine) (cond : ℕ) (p : Ptr) (qs cs : Cells) : Type 0 where
  pub list : Linked p m.nodes (m.conds cond).cond_q.head cs
  pub tail : TailIs (m.conds cond).cond_q.tail cs
  pub apart : Disjoint qs cs

-- The state with other nodes and thread states, and another list of waiting threads.
abbrev pub with_woken : ℕ → Heap ℕ → Ends → Threads → Machine → Machine
with_woken cond h e ts m =
    set_cond cond (record { cond_q = e }) (record m { nodes = h; threads = ts })

-- Both semaphores that a wake-up takes.
abbrev both_held : Machine → Machine
both_held m = record m { cond_sem = 0; mypthread_sem = 0 }

release_one-run :
    (cond : ℕ) (m : Machine) (r : Heap ℕ × Ptr × Threads)
    → Queue.ll_free_one m.nodes (m.conds cond).cond_q.head m.threads ≡ ok r
    → release_one cond m
      ≡ ok (tt, with_woken cond r.0 (record ((m.conds cond).cond_q) { head = r.1 }) r.2 m)
unfolding release_one ◌>>=◌
release_one-run cond m r run = rw (run, lift)

release_waiting-run :
    (cond : ℕ) (m : Machine) (r : Heap ℕ × Ends × Threads)
    → Queue.ll_free m.nodes (m.conds cond).cond_q m.threads ≡ ok r
    → release_waiting cond m ≡ ok (tt, with_woken cond r.0 r.1 r.2 m)
unfolding release_waiting ◌>>=◌
release_waiting-run cond m r run = rw (run, lift)

signal-run :
    (cond : ℕ) (m : Machine) (h : Heap ℕ) (e : Ends) (ts : Threads)
    → Unlocked m
    → release_one cond (both_held m) ≡ ok (tt, with_woken cond h e ts (both_held m))
    → mypthread_cond_signal cond m ≡ ok (0, with_woken cond h e ts m)
unfolding mypthread_cond_signal
signal-run cond m h e ts u run = after _ _ (sem_wait-one cond_sem m u.cond) (
    after _ _ (sem_wait-one mypthread_sem _ u.mypthread) (
      after _ _ run (
        after _ _ (sem_post_lem mypthread_sem _)
          (after _ _ (sem_post_lem cond_sem _) (rw (u.cond, u.mypthread))))))

broadcast-run :
    (cond : ℕ) (m : Machine) (h : Heap ℕ) (e : Ends) (ts : Threads)
    → Unlocked m
    → release_waiting cond (both_held m) ≡ ok (tt, with_woken cond h e ts (both_held m))
    → mypthread_cond_broadcast cond m ≡ ok (0, with_woken cond h e ts m)
unfolding mypthread_cond_broadcast
broadcast-run cond m h e ts u run = after _ _ (sem_wait-one cond_sem m u.cond) (
    after _ _ (sem_wait-one mypthread_sem _ u.mypthread) (
      after _ _ run (
        after _ _ (sem_post_lem mypthread_sem _)
          (after _ _ (sem_post_lem cond_sem _) (rw (u.cond, u.mypthread))))))

-- A wake-up of the threads that pass the test, with the threads `left` still waiting.
pub record Wakes (cond : ℕ) (p : Ptr) (m : Machine) (qs gone left : Cells) (test : ℕ → Bool)
    (m' : Machine) : Type 0 where
  pub list : Linked p m'.nodes (m'.conds cond).cond_q.head left
  pub woken : Woken test m.threads m'.threads
  pub queue : IsList m'.nodes m'.mypthread_q.head qs
  pub qends : m'.mypthread_q ≡ m.mypthread_q
  pub freed : FreedOnly gone m.nodes.cells m'.nodes.cells
  pub others : (x : ℕ) → (cond == x) ≡ false → m'.conds x ≡ m.conds x
  pub free : Unlocked m'

-- A broadcast makes exactly the waiting threads active and leaves none waiting; the run queue,
-- where these threads stand too, is kept.
pub broadcast-Wakes :
    (cond : ℕ) (p : Ptr) (m : Machine) (qs cs : Cells)
    → Unlocked m
    → IsList m.nodes m.mypthread_q.head qs
    → Sleepers m cond p qs cs
    → (m' : Machine) × (mypthread_cond_broadcast cond m ≡ ok (0, m'))
      × Wakes cond none m qs cs [] (λ t. any_item (λ u. u == t) cs) m'
broadcast-Wakes cond p m qs cs u l w =
    let (r, run, rel) = Wake.ll_free-Released p m.nodes (m.conds cond).cond_q m.threads cs w.list in
    (
      with_woken cond r.0 r.1 r.2 m,
      broadcast-run cond m r.0 r.1 r.2 u (release_waiting-run cond (both_held m) r run),
      record {
        list = record {
          starts = rw (==_self cond) rel.empty;
          chain = tt;
          below = tt;
          few = omega arith;
        };
        woken = rel.woken;
        queue =
            FreedOnly-keeps none m.nodes r.0 m.mypthread_q.head qs cs l w.apart rel.freed rel.fresh;
        qends = refl;
        freed = rel.freed;
        others = λ x ne. ground arith;
        free = omega arith;
      },
    )

-- A signal makes the thread that has waited longest active and no other, and leaves the rest
-- waiting in their order.
pub signal-Wakes :
    (cond : ℕ) (p : Ptr) (m : Machine) (qs : Cells) (a v : ℕ) (cs : Cells)
    → Unlocked m
    → IsList m.nodes m.mypthread_q.head qs
    → Sleepers m cond p qs ((a, v) ∷ cs)
    → (m' : Machine) × (mypthread_cond_signal cond m ≡ ok (0, m'))
      × Wakes cond (some a) m qs ((a, v) ∷ []) cs (λ t. v == t) m'
signal-Wakes cond p m qs a v cs u l w =
    let (r, run, rel) =
      Wake.ll_free_one-ReleasedOne p m.nodes (m.conds cond).cond_q.head m.threads a v cs w.list in
    let e = record ((m.conds cond).cond_q) { head = r.1 } in
    (
      with_woken cond r.0 e r.2 m,
      signal-run cond m r.0 e r.2 u (release_one-run cond (both_held m) r run),
      record {
        list = rw (==_self cond) rel.list;
        woken = rel.woken;
        queue =
            FreedOnly-keeps none m.nodes r.0 m.mypthread_q.head qs ((a, v) ∷ []) l
              (λ x i. ground (arith, w.apart x i)) rel.freed rel.fresh;
        qends = refl;
        freed = rel.freed;
        others = λ x ne. ground arith;
        free = omega arith;
      },
    )

conds-same :
    (cond : ℕ) (m : Machine)
    → (m.conds cond).cond_q.head ≡ none
    → update m.conds cond (record { cond_q = record ((m.conds cond).cond_q) { head = none } })
      ≡ m.conds
conds-same cond m e = fun_ext λ x. ground arith

-- A signal that no thread waits for changes nothing.
pub signal_none :
    (cond : ℕ) (m : Machine)
    → Unlocked m
    → (m.conds cond).cond_q.head ≡ none
    → mypthread_cond_signal cond m ≡ ok (0, m)
signal_none cond m u e =
    signal-run cond m m.nodes (record ((m.conds cond).cond_q) { head = none }) m.threads u
      (release_one-run cond (both_held m) (m.nodes, none, m.threads)
        (rw e (Wake.ll_free_one-none m.nodes m.threads)))
    ∙ ap (λ (c : ℕ → Cond). ok (0, record m { conds = c })) (conds-same cond m e)
