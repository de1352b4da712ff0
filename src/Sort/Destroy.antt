-- ===== src/Sort/Destroy.antt =====
-- The end of `main` in pthreads/mtsort.c: the loop that destroys the mutexes.
use operating_system_linux_t.Common.{
  ℕ, zero, suc, ◌+◌, ◌≤◌, ◌<◌, ◌≡◌, refl, ◌∙◌, Bool-cases, inl, inr, false, ◌==◌, arith,
}
use operating_system_linux_t.Memory.{ok, mutex_sem, no_ends}
use operating_system_linux_t.Thread.{Mutex}
use operating_system_linux_t.Machine.{Machine, after, set_mutex}
use operating_system_linux_t.Machine.Ops.{sem_wait-one, sem_post_lem}
use operating_system_linux_t.Sync.{mypthread_mutex_init, mypthread_mutex_destroy}
use operating_system_linux_t.Sort.{destroy_all}

-- A mutex that no thread holds or waits for.
abbrev pub fresh_mutex : Mutex
fresh_mutex = record { lock = false; blocked_q = no_ends }

destroy_run :
    (a : ℕ) (m : Machine)
    → m.mutex_sem ≡ 1
    → mypthread_mutex_destroy a m ≡ ok (0, set_mutex a fresh_mutex m)
unfolding mypthread_mutex_destroy mypthread_mutex_init
destroy_run a m one =
    after _ _ (sem_wait-one mutex_sem m one)
      (after _ _ (after _ _ refl refl) (after _ _ (sem_post_lem mutex_sem _) (rw one refl)))

-- Whatever the mutexes were, the loop ends with each of them free and without waiting threads, and
-- with every other mutex as it was.
pub destroy_all-fresh :
    (n i : ℕ) (m : Machine)
    → m.mutex_sem ≡ 1
    → (m' : Machine) × (destroy_all n i m ≡ ok (0, m'))
      × ((a : ℕ) → i ≤ a → a < i + n → m'.mutexes a ≡ fresh_mutex)
      × ((a : ℕ) → a < i → m'.mutexes a ≡ m.mutexes a)
unfolding destroy_all
destroy_all-fresh zero i m one =
    (m, refl, (λ a le lt. absurd (omega (arith, le, lt))), (λ a lt. refl))
destroy_all-fresh (suc n) i m one =
    let (m', run, done, kept) = destroy_all-fresh n (suc i) (set_mutex i fresh_mutex m) one in
    (
      m',
      after _ _ (destroy_run i m one) run,
      (λ a le lt. elim (Bool-cases (i == a)) [
        | inl e ↦ kept a (ground (arith, e)) ∙ rw e refl
        | inr e ↦ done a (ground (arith, e, le)) (omega (arith, lt))
      ]),
      (λ a lt.
          let other : (i == a) ≡ false = ground (arith, lt) in
          kept a (omega (arith, lt)) ∙ rw other refl),
    )
