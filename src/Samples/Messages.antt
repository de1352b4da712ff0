-- ===== src/Samples/Messages.antt =====
-- pthreads/mypthread_sample2.c: two threads, each with a message to print.
use operating_system_linux_t.Common.{ℕ, true, false, Option, ◌==◌}
use operating_system_linux_t.Memory.{exited}
use operating_system_linux_t.Machine.{M, ◌>>=◌, ◌>>◌, modify}
use operating_system_linux_t.Scheduler.{Outcome, and_then}
use operating_system_linux_t.Lifecycle.{mypthread_init, mypthread_create, mypthread_exit}
use operating_system_linux_t.Samples.{join_at}

unfoldable pub print_message_function : (tid : ℕ) → M Outcome
print_message_function tid = mypthread_exit tid

unfoldable pub main :
    (policy cores hyper tid routine thread1 thread2 message1 message2 : ℕ)
    → (pid1 pid2 : Option ℕ) → M Outcome
unfolding join_at
main policy cores hyper tid routine thread1 thread2 message1 message2 pid1 pid2 = do
  modify (mypthread_init policy cores hyper)
  iret1 ← mypthread_create tid pid1 thread1 routine message1
  elim (iret1 == 0) [
    | false ↦ (λ m. exited)
    | true ↦ do
      iret2 ← mypthread_create tid pid2 thread2 routine message2
      elim (iret2 == 0) [
        | false ↦ (λ m. exited)
        | true ↦
            and_then (join_at tid thread1) (and_then (join_at tid thread2) (mypthread_exit tid))
      ]
  ]
