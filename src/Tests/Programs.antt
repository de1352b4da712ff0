-- ===== src/Tests/Programs.antt =====
-- Runs of pthreads/mtsort.c, pthreads/utilities.c and server/client.c.
use operating_system_linux_t.Common.{
  ℕ, zero, suc, ◌≡◌, ◌≤◌, ◌<◌, refl, false, some, List, [], ◌∷◌, ◌==◌, arith,
}
use operating_system_linux_t.Memory.{blocked, mutex_sem}
use operating_system_linux_t.Machine.{Machine}
use operating_system_linux_t.Machine.Inv.{Unlocked}
use operating_system_linux_t.Lifecycle
use operating_system_linux_t.Sort
use operating_system_linux_t.Sort.Stuck.{fnsort-blocked}
use operating_system_linux_t.Cores
use operating_system_linux_t.Cores.{mypthread_init-get_cpu_cores}
use operating_system_linux_t.Server.Io
use operating_system_linux_t.Server.Io.{Answer, got, Sent, took}
use operating_system_linux_t.Server.Client
use operating_system_linux_t.Tests.Setup.{machine}

still : (i : ℕ) → i < 1 → Sort.compare_swap i (1 ∷ 3 ∷ []) ≡ 1 ∷ 3 ∷ []
unfolding Sort.compare_swap
still zero h = refl
still (suc i) h = absurd (omega (arith, h))

-- Mutex 0 is free and mutex 1 is taken.
abbrev neighbours : Machine
neighbours = record machine { mutexes = λ x. record (machine.mutexes x) { lock = x == 1 } }

neighbours-Unlocked : Unlocked neighbours
neighbours-Unlocked = record { mypthread = refl; mutex = refl; kthread = refl; cond = refl }

fnsort-blocked_example : Sort.fnsort 100 false 0 (2 ∷ 1 ∷ []) neighbours ≡ blocked mutex_sem
fnsort-blocked_example = fnsort-blocked 100 0 (2 ∷ 1 ∷ []) neighbours neighbours-Unlocked refl refl

mypthread_init-get_cpu_cores_example :
    (let n =
        Lifecycle.mypthread_init Lifecycle.klmatchcores
          (Cores.get_cpu_cores 0 (some (49 ∷ 54 ∷ 10 ∷ [])))
          2
          machine in
      ◌≡◌ {A = ℕ} n.max_kthread_count 1 × (n.max_kthread_count ≤ 9))
mypthread_init-get_cpu_cores_example = mypthread_init-get_cpu_cores 0 2 49 (54 ∷ 10 ∷ []) machine

abbrev whole : List ℕ → List Answer
whole bytes = got bytes ∷ []

abbrev all_ten : List Sent
all_ten = took 10 ∷ []
