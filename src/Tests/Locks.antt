-- ===== src/Tests/Locks.antt =====
-- Runs of the calls on mutexes and condition variables of pthreads/mypthread.c.
use operating_system_linux_t.Common.{none, some, [], ◌∷◌, ◌==◌, ◌≡◌, refl, arith}
use operating_system_linux_t.Memory.{ok}
use operating_system_linux_t.Queue.Lookup.{any_item}
use operating_system_linux_t.Machine.{Machine}
use operating_system_linux_t.Memory.Chain.{Disjoint}
use operating_system_linux_t.Sync
use operating_system_linux_t.Sync.Waiting.{CondSleeps, cond_sleep-CondSleeps}
use operating_system_linux_t.Sync.Locking.{Waiters, Contended, lock-Contended}
use operating_system_linux_t.Sync.Trylock.{MutexCallsBlock, trylock_busy-MutexCallsBlock}
use operating_system_linux_t.Sync.Unlocking.{Unlocks, unlock-Unlocks}
use operating_system_linux_t.Sync.Waking.{Sleepers, Wakes, broadcast-Wakes, signal-Wakes}
use operating_system_linux_t.Tests.Setup.{
  queued, kernel, machine, heap-IsList, machine-Unlocked, machine-Lists, machine-Current,
}

machine-Waiters : Waiters machine 0 none queued ((3, 11) ∷ [])
machine-Waiters = record {
  list = record {
    starts = refl;
    chain = (refl, refl, tt);
    below = (omega arith, tt);
    few = omega arith;
  };
  tail = refl;
  lead = λ e. refl;
  apart = λ x h. ground arith;
}

-- The two lists of waiting threads share no node.
apart : Disjoint ((4, 10) ∷ []) ((3, 11) ∷ [])
apart = λ x h. ground arith

machine-Sleepers : Sleepers machine 0 none queued ((4, 10) ∷ [])
machine-Sleepers = record {
  list = record {
    starts = refl;
    chain = (refl, refl, tt);
    below = (omega arith, tt);
    few = omega arith;
  };
  tail = refl;
  apart = λ x h. ground arith;
}

lock-Contended_example : Contended 100 0 7 12 machine none queued ((3, 11) ∷ [])
lock-Contended_example =
    lock-Contended 100 0 7 12 machine none queued kernel ((3, 11) ∷ []) machine-Unlocked
      machine-Lists machine-Current machine-Waiters refl

trylock_busy-MutexCallsBlock_example :
    (m' : Machine) × (Sync.mypthread_mutex_trylock 0 machine ≡ ok (Sync.ebusy, m'))
    × MutexCallsBlock m'
trylock_busy-MutexCallsBlock_example = trylock_busy-MutexCallsBlock 0 machine machine-Unlocked refl

unlock-Unlocks_example :
    (m' : Machine) × (Sync.mypthread_mutex_unlock 0 machine ≡ ok (0, m'))
    × Unlocks 0 machine queued ((3, 11) ∷ []) m'
unlock-Unlocks_example =
    unlock-Unlocks 0 none machine queued ((3, 11) ∷ []) machine-Unlocked heap-IsList machine-Waiters

broadcast-Wakes_example :
    (m' : Machine) × (Sync.mypthread_cond_broadcast 0 machine ≡ ok (0, m'))
    × Wakes 0 none machine queued ((4, 10) ∷ []) [] (λ t. any_item (λ u. u == t) ((4, 10) ∷ [])) m'
broadcast-Wakes_example =
    broadcast-Wakes 0 none machine queued ((4, 10) ∷ []) machine-Unlocked heap-IsList
      machine-Sleepers

signal-Wakes_example :
    (m' : Machine) × (Sync.mypthread_cond_signal 0 machine ≡ ok (0, m'))
    × Wakes 0 (some 4) machine queued ((4, 10) ∷ []) [] (λ t. 10 == t) m'
signal-Wakes_example =
    signal-Wakes 0 none machine queued 4 10 [] machine-Unlocked heap-IsList machine-Sleepers

cond_sleep-CondSleeps_example :
    CondSleeps 100 0 0 7 12 machine none queued ((3, 11) ∷ []) ((4, 10) ∷ [])
cond_sleep-CondSleeps_example =
    cond_sleep-CondSleeps 100 0 0 7 12 machine none none queued kernel ((3, 11) ∷ []) ((4, 10) ∷ [])
      machine-Unlocked machine-Lists machine-Current machine-Waiters machine-Sleepers (λ e. refl)
      apart
