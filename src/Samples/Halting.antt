-- ===== src/Samples/Halting.antt =====
-- pthreads/mypthread_sample5.c: two threads that count, one of which halts on a condition. A round of
-- a thread's loop gives how it leaves its kernel thread, and the count.
use operating_system_linux_t.Common.{ℕ, zero, suc, ◌||◌, ◌&&◌, not, Bool, true, false, Option}
use operating_system_linux_t.Memory.{out_of_fuel}
use operating_system_linux_t.Machine.{M, pure, ◌>>=◌, ◌>>◌, modify, inc, int_lt}
use operating_system_linux_t.Scheduler.{Outcome, returned, running, sleeping, and_then}
use operating_system_linux_t.Lifecycle.{mypthread_init, mypthread_create, mypthread_exit}
use operating_system_linux_t.Sync.{
  mypthread_mutex_init, mypthread_mutex_lock, mypthread_mutex_unlock, mypthread_cond_init,
  mypthread_cond_wait, mypthread_cond_signal,
}
use operating_system_linux_t.Samples.{join_at}

abbrev pub count_done : ℕ
count_done = 10

abbrev pub count_halt1 : ℕ
count_halt1 = 3

abbrev pub count_halt2 : ℕ
count_halt2 = 6

-- `a >= b` on `int`
abbrev pub int_ge : ℕ → ℕ → Bool
int_ge a b = not (int_lt a b)

-- The addresses of the two mutexes and the condition variable.
pub record Globals : Type 0 where
  pub count_mutex : ℕ
  pub condition_mutex : ℕ
  pub condition_cond : ℕ

-- The second half of a round of either thread, from the lock of `count_mutex` on.
unfoldable pub count_round : (tid : ℕ) → Globals → (count : ℕ) → M (Outcome × ℕ)
count_round tid g count = do
  o ← mypthread_mutex_lock tid g.count_mutex
  elim o [
    | returned _ ↦ do
      let count' = inc count
      _ ← mypthread_mutex_unlock g.count_mutex
      elim (int_ge count' count_done) [
        | true ↦ do o' ← mypthread_exit tid; pure (o', count')
        | false ↦ pure (returned 0, count')
      ]
    | running t x ↦ pure (running t x, count)
    | sleeping k l w ↦ pure (sleeping k l w, count)
  ]

-- The inner loop of `functionCount1`, on fuel. A wait that gives up the processor leaves it, and the
-- thread comes back to it when it is resumed.
unfoldable pub halt : (fuel tid : ℕ) → Globals → (count : ℕ) → M Outcome
halt zero tid g count = λ m. out_of_fuel
halt (suc fuel) tid g count = elim (int_ge count count_halt1 && int_ge count_halt2 count) [
  | true ↦
      and_then (mypthread_cond_wait tid g.condition_cond g.condition_mutex) (halt fuel tid g count)
  | false ↦ pure (returned 0)
]

-- `functionCount1` from its inner loop on, where the thread also goes on when it is resumed from its
-- wait.
unfoldable pub function_count1_from : (fuel tid : ℕ) → Globals → (count : ℕ) → M (Outcome × ℕ)
unfolding count_round halt
function_count1_from fuel tid g count = do
  o ← halt fuel tid g count
  elim o [
    | returned _ ↦ do _ ← mypthread_mutex_unlock g.condition_mutex; count_round tid g count
    | running t x ↦ pure (running t x, count)
    | sleeping k l w ↦ pure (sleeping k l w, count)
  ]

-- `functionCount1`, a round.
unfoldable pub function_count1 : (fuel tid : ℕ) → Globals → (count : ℕ) → M (Outcome × ℕ)
unfolding function_count1_from
function_count1 fuel tid g count = do
  o ← mypthread_mutex_lock tid g.condition_mutex
  elim o [
    | returned _ ↦ function_count1_from fuel tid g count
    | running t x ↦ pure (running t x, count)
    | sleeping k l w ↦ pure (sleeping k l w, count)
  ]

-- The test of `functionCount2` with its signal.
unfoldable pub wake : Globals → (count : ℕ) → M ℕ
wake g count = elim (int_lt count count_halt1 || int_lt count_halt2 count) [
  | true ↦ mypthread_cond_signal g.condition_cond
  | false ↦ pure 0
]

-- `functionCount2`, a round.
unfoldable pub function_count2 : (tid : ℕ) → Globals → (count : ℕ) → M (Outcome × ℕ)
unfolding count_round wake
function_count2 tid g count = do
  o ← mypthread_mutex_lock tid g.condition_mutex
  elim o [
    | returned _ ↦ do
      _ ← wake g count
      _ ← mypthread_mutex_unlock g.condition_mutex
      count_round tid g count
    | running t x ↦ pure (running t x, count)
    | sleeping k l w ↦ pure (sleeping k l w, count)
  ]

unfoldable pub main :
    (policy cores hyper tid routine1 routine2 thread1 thread2 : ℕ)
    → Globals
    → (pid1 pid2 : Option ℕ) → M Outcome
unfolding join_at
main policy cores hyper tid routine1 routine2 thread1 thread2 g pid1 pid2 = do
  modify (mypthread_init policy cores hyper)
  _ ← mypthread_mutex_init g.count_mutex
  _ ← mypthread_mutex_init g.condition_mutex
  _ ← mypthread_cond_init g.condition_cond
  _ ← mypthread_create tid pid1 thread1 routine1 0
  _ ← mypthread_create tid pid2 thread2 routine2 0
  and_then (join_at tid thread1) (and_then (join_at tid thread2) (mypthread_exit tid))
