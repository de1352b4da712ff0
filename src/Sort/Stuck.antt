-- ===== src/Sort/Stuck.antt =====
-- `fnsort` when the thread of the next element holds its mutex.
use operating_system_linux_t.Common.{ℕ, suc, ◌≡◌, refl, true, false, List, arith}
use operating_system_linux_t.Memory.{blocked, mutex_sem}
use operating_system_linux_t.Machine.{Machine, after, stop-blocked, set_mutex}
use operating_system_linux_t.Machine.Inv.{Unlocked}
use operating_system_linux_t.Sync.Locking.{lock_free}
use operating_system_linux_t.Sync.Trylock.{trylock_busy, blocks-unlock}
use operating_system_linux_t.Sort.{fnsort, sort_locked}

-- The sorting thread holds its own mutex.
abbrev holding : ℕ → Machine → Machine
holding i m = set_mutex i (record (m.mutexes i) { lock = true }) m

sort_locked-blocked :
    (tid i : ℕ) (num : List ℕ) (m : Machine)
    → Unlocked m
    → (m.mutexes (suc i)).lock ≡ true
    → sort_locked tid i num m ≡ blocked mutex_sem
unfolding sort_locked
sort_locked-blocked tid i num m u taken =
    after _ _ (trylock_busy (suc i) m u taken) (stop-blocked _ _ (blocks-unlock _ i refl))

-- A round of `fnsort` whose own mutex is free while the next element's is taken never ends: its
-- failed trylock keeps `mutex_sem`, and its unlock waits for it.
pub fnsort-blocked :
    (tid i : ℕ) (num : List ℕ) (m : Machine)
    → Unlocked m
    → (m.mutexes i).lock ≡ false
    → (m.mutexes (suc i)).lock ≡ true
    → fnsort tid false i num m ≡ blocked mutex_sem
unfolding fnsort
fnsort-blocked tid i num m u free taken = after _ _ (lock_free tid i m u free) (
    sort_locked-blocked tid i num (holding i m)
      (record { mypthread = u.mypthread; mutex = u.mutex; kthread = u.kthread; cond = u.cond })
      (ground arith))
