-- ===== src/Samples/Bounded.antt =====
-- The loop that creates threads, in the programs of pthreads/, under a policy that bounds the kernel
-- threads.
use operating_system_linux_t.Common.{ℕ, suc, ◌+◌, ◌≡◌, true, ltb, if◌then◌else◌, length}
use operating_system_linux_t.Memory.Chain.{Cells}
use operating_system_linux_t.Machine.{Machine}
use operating_system_linux_t.Machine.Inv.{Unlocked, Lists}
use operating_system_linux_t.Lifecycle.Create.{is_bounded}

-- The kernel threads beside `n` created threads, with the bound `b`.
abbrev pub up_to : (b n : ℕ) → ℕ
up_to b n = if ltb (suc n) b then suc n else b

module _ (tid routine b before : ℕ) (ks : Cells) (threads args : ℕ → ℕ) (answers : ℕ → ℕ) where
  -- The state before the create of thread `i`.
  record Grown (i : ℕ) (m : Machine) (qs : Cells) : Type 0 where
    free : Unlocked m
    lists : Lists m qs ks
    policy : is_bounded m.mypthread_policy ≡ true
    count : m.mypthread_count ≡ suc i
    max : m.max_kthread_count ≡ b
    current : m.current_kthread_count ≡ up_to b i
    started : length m.started + 1 ≡ before + up_to b i
