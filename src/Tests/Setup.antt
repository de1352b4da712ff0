-- ===== src/Tests/Setup.antt =====
-- A state of pthreads/mypthread.c in the middle of a program: thread 12 runs on kernel thread 7,
-- threads 10 (active) and 11 (blocked) are queued, 11 waits for mutex 0 and 10 for condition 0.
use operating_system_linux_t.Common.{
  ℕ, Option, none, some, [], ◌∷◌, ◌==◌, if◌then◌else◌, refl, arith,
}
use operating_system_linux_t.Memory.{Node, node, Heap, Ends, no_ends}
use operating_system_linux_t.Memory.Chain.{Cells, IsList, TailIs}
use operating_system_linux_t.Thread.{
  Thread, Threads, Kthreads, State, ps_active, ps_running, ps_waiting, ps_blocked, Context, uninit,
  entry, lock_entry, saved, in_yield,
}
use operating_system_linux_t.Machine.{Machine}
use operating_system_linux_t.Machine.Inv.{Unlocked, Lists, Current}

-- Nodes 1 and 2 are the run queue, 3 waits for the mutex, 4 for the condition.
abbrev pub table : ℕ → Option (Node ℕ)
table x =
    if x == 1
    then some (node none 10 (some 2))
    else (if x == 2
        then some (node (some 1) 11 none)
        else (if x == 3
            then some (node none 11 none)
            else (if x == 4 then some (node none 10 none) else none)))

abbrev pub heap : Heap ℕ
heap = record { cells = table; fresh = 5 }

abbrev pub ends : Ends
ends = record { head = some 1; tail = some 2 }

abbrev pub queued : Cells
queued = (1, 10) ∷ (2, 11) ∷ []

abbrev pub thread : ℕ → Context → State → ℕ → Thread
thread id c s d = record { th_id = id; ctx = c; state = s; dependent_th = d }

abbrev pub threads : Threads
threads t =
    if t == 10
    then thread 1 (saved in_yield) ps_active 3
    else (if t == 11
        then thread 2 (lock_entry 0) ps_blocked 0
        else (if t == 12 then thread 3 (entry 5 6) ps_running 0 else thread 0 uninit ps_active 0))

-- No queued thread is active.
abbrev pub resting : Threads
resting t = record (threads t) { state = ps_waiting }

abbrev pub kheap : Heap ℕ
kheap = record { cells = λ x. if x == 1 then some (node none 7 none) else none; fresh = 2 }

abbrev pub kends : Ends
kends = record { head = some 1; tail = some 1 }

abbrev pub kernel : Cells
kernel = (1, 7) ∷ []

abbrev pub kthreads : Kthreads
kthreads k = record { kth_id = 100; th = some 12 }

abbrev pub machine : Machine
machine = record {
  mypthread_policy = 1;
  mypthread_count = 3;
  mypthread_th_gen = 3;
  cpu_cores = 2;
  thread_per_core = 2;
  max_kthread_count = 2;
  current_kthread_count = 1;
  mypthread_sem = 1;
  mutex_sem = 1;
  kthread_sem = 1;
  cond_sem = 1;
  threads = threads;
  kthreads = kthreads;
  next_kthread = 8;
  nodes = heap;
  mypthread_q = ends;
  knodes = kheap;
  mykthread_ll = kends;
  mutexes = λ x. record {
    lock = x == 0;
    blocked_q = if x == 0 then record { head = some 3; tail = some 3 } else no_ends;
  };
  conds =
      λ x. record { cond_q = if x == 0 then record { head = some 4; tail = some 4 } else no_ends };
  started = [];
}

pub heap-IsList : IsList heap (some 1) queued
heap-IsList = record {
  starts = refl;
  chain = (refl, refl, (refl, refl, tt));
  below = (omega arith, (omega arith, tt));
  few = omega arith;
}

pub ends-TailIs : TailIs (some 2) queued
ends-TailIs = refl

pub kheap-IsList : IsList kheap (some 1) kernel
kheap-IsList = record {
  starts = refl;
  chain = (refl, refl, tt);
  below = (omega arith, tt);
  few = omega arith;
}

pub machine-Unlocked : Unlocked machine
machine-Unlocked = record { mypthread = refl; mutex = refl; kthread = refl; cond = refl }

pub machine-Lists : Lists machine queued kernel
machine-Lists = record { queue = heap-IsList; tail = refl; kernel = kheap-IsList; ktail = refl }

pub machine-Current : Current machine kernel 100 7 12
machine-Current = record { found = refl; runs = refl }

-- A program that has not called the library yet.
abbrev pub unused : Machine
unused = record machine {
  mypthread_count = 0;
  mypthread_th_gen = 0;
  mypthread_sem = 0;
  mutex_sem = 0;
  kthread_sem = 0;
  cond_sem = 0;
  mypthread_q = no_ends;
  mykthread_ll = no_ends;
}

pub unused-Lists : Lists unused [] []
unused-Lists = record {
  queue = record { starts = refl; chain = tt; below = tt; few = omega arith };
  tail = tt;
  kernel = record { starts = refl; chain = tt; below = tt; few = omega arith };
  ktail = tt;
}
