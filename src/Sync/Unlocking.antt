-- ===== src/Sync/Unlocking.antt =====
-- `mypthread_mutex_unlock` of pthreads/mypthread.c, on the lists that nodes stand for.
use operating_system_linux_t.Common.{ℕ, ◌≡◌, refl, ◌∙◌, false, none, ◌==◌, ==_self, arith}
use operating_system_linux_t.Memory.{ok, mutex_sem, Ptr, Heap, Ends}
use operating_system_linux_t.Memory.Chain.{Cells, IsList, Linked, Disjoint, Linked-frame}
use operating_system_linux_t.Thread.{Threads}
use operating_system_linux_t.Queue.Lookup.{any_item}
use operating_system_linux_t.Queue.Wake
use operating_system_linux_t.Queue.Wake.{Released, Woken, FreedOnly}
use operating_system_linux_t.Machine.{Machine, lift, ◌>>=◌, after, set_mutex}
use operating_system_linux_t.Machine.Ops.{sem_wait-one, sem_post_lem}
use operating_system_linux_t.Machine.Inv.{Unlocked}
use operating_system_linux_t.Sync.{mypthread_mutex_unlock, release_blocked}
use operating_system_linux_t.Sync.Locking.{Waiters}

-- The state with other nodes and thread states, and another list of blocked threads.
abbrev pub with_released : ℕ → Heap ℕ → Ends → Threads → Machine → Machine
with_released mutex h e ts m =
    set_mutex mutex (record (m.mutexes mutex) { blocked_q = e })
      (record m { nodes = h; threads = ts })

pub release-Released :
    (mutex : ℕ) (p : Ptr) (m : Machine) (bs : Cells)
    → Linked p m.nodes (m.mutexes mutex).blocked_q.head bs
    → (r : Heap ℕ × Ends × Threads) × (release_blocked mutex m
        ≡ ok (tt, with_released mutex r.0 r.1 r.2 m))
      × Released m.nodes m.threads bs r
unfolding release_blocked ◌>>=◌
release-Released mutex p m bs l =
    let (r, run, rel) =
      Wake.ll_free-Released p m.nodes (m.mutexes mutex).blocked_q m.threads bs l in
    (r, rw (run, lift), rel)

-- A list is kept when the nodes of another one are freed.
pub FreedOnly-keeps :
    (p : Ptr) (h h' : Heap ℕ) (head : Ptr) (qs bs : Cells)
    → Linked p h head qs
    → Disjoint qs bs
    → FreedOnly bs h.cells h'.cells
    → h'.fresh ≡ h.fresh
    → Linked p h' head qs
FreedOnly-keeps p h h' head qs bs l apart freed fr =
    Linked-frame p h h' head qs l (λ x i. freed x ∙ rw (apart x i)) (omega arith)

pub record Unlocks (mutex : ℕ) (m : Machine) (qs bs : Cells) (m' : Machine) : Type 0 where
  pub unlocked : (m'.mutexes mutex).lock ≡ false
  pub empty : (m'.mutexes mutex).blocked_q.head ≡ none
  pub woken : Woken (λ t. any_item (λ u. u == t) bs) m.threads m'.threads
  pub queue : IsList m'.nodes m'.mypthread_q.head qs
  pub qtail : m'.mypthread_q ≡ m.mypthread_q
  pub freed : FreedOnly bs m.nodes.cells m'.nodes.cells
  pub others : (x : ℕ) → (mutex == x) ≡ false → m'.mutexes x ≡ m.mutexes x
  pub free : Unlocked m'

pub unlock-released :
    (mutex : ℕ) (m : Machine) (h : Heap ℕ) (e : Ends) (ts : Threads)
    → m.mutex_sem ≡ 1
    → release_blocked mutex
        (set_mutex mutex (record (m.mutexes mutex) { lock = false }) (record m { mutex_sem = 0 }))
      ≡ ok (
        tt,
        with_released mutex h e ts (
            set_mutex mutex
              (record (m.mutexes mutex) { lock = false })
              (record m { mutex_sem = 0 })),
      )
    → mypthread_mutex_unlock mutex m
      ≡ ok (
        0,
        with_released mutex h e ts (set_mutex mutex (record (m.mutexes mutex) { lock = false }) m),
      )
unfolding mypthread_mutex_unlock
unlock-released mutex m h e ts one run = after _ _ (sem_wait-one mutex_sem m one) (
    after _ _ refl (after _ _ refl (after _ _ run (after _ _ (sem_post_lem mutex_sem _) (rw one)))))

-- `mypthread_mutex_unlock` frees the mutex, empties its list of blocked threads, and makes exactly
-- the threads of that list active; the run queue, where these threads stand too, is kept.
pub unlock-Unlocks :
    (mutex : ℕ) (p : Ptr) (m : Machine) (qs bs : Cells)
    → Unlocked m
    → IsList m.nodes m.mypthread_q.head qs
    → Waiters m mutex p qs bs
    → (m' : Machine) × (mypthread_mutex_unlock mutex m ≡ ok (0, m')) × Unlocks mutex m qs bs m'
unlock-Unlocks mutex p m qs bs u l w =
    let m₀ =
      set_mutex mutex (record (m.mutexes mutex) { lock = false }) (record m { mutex_sem = 0 }) in
    let (r, run, rel) = release-Released mutex p m₀ bs (rw (==_self mutex) w.list) in
    (
      with_released mutex r.0 r.1 r.2
          (set_mutex mutex (record (m.mutexes mutex) { lock = false }) m),
      unlock-released mutex m r.0 r.1 r.2 u.mutex run,
      record {
        unlocked = ground arith;
        empty = rw (==_self mutex) rel.empty;
        woken = rel.woken;
        queue =
            FreedOnly-keeps none m.nodes r.0 m.mypthread_q.head qs bs l w.apart rel.freed rel.fresh;
        qtail = refl;
        freed = rel.freed;
        others = λ x ne. ground arith;
        free = omega arith;
      },
    )
