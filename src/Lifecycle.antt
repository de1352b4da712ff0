-- ===== src/Lifecycle.antt =====
-- The functions of pthreads/mypthread.c that set the library up, and create, end, join and compare
-- threads. `tid` is the answer of `gettid()`.
pub mod Create
pub mod Exit
pub mod First
pub mod Idle
pub mod Join
pub mod Keeps
pub mod Starve
pub mod Update
pub mod Yield
use operating_system_linux_t.Common.{
  ℕ, ◌+◌, ◌*◌, ◌%◌, Bool, true, false, ◌||◌, Option, none, some, ◌∷◌, ◌==◌, if◌then◌else◌,
}
use operating_system_linux_t.Memory.{Run, ok, fault, exited, Sem, mypthread_sem, kthread_sem, Ptr}
use operating_system_linux_t.Thread.{
  Thread, Kthread, Context, Resume, uninit, entry, freed, in_yield, in_join, State, ps_active,
  ps_running, ps_waiting, ps_dead, is_dead,
}
use operating_system_linux_t.Machine.{
  Machine, M, pure, ◌>>=◌, ◌>>◌, get, modify, lift, deref, inc, dec, int_lt, int_mod, set_ctx,
  set_thread, set_status, set_kthread,
}
use operating_system_linux_t.Machine.Ops.{
  sem_wait, sem_post, mypthread_enqueue, get_thread, update_waiting, add_kthread, get_kthread,
  is_running,
}
use operating_system_linux_t.Scheduler.{
  Mode, set_mode, swap_mode, Outcome, returned, mythread_scheduler, and_return,
}

-- The policies of pthreads/mypthread.h.
abbrev pub ulonly : ℕ
ulonly = 0

abbrev pub klmatchcores : ℕ
klmatchcores = 1

abbrev pub klmatchhyper : ℕ
klmatchhyper = 2

abbrev pub klalways : ℕ
klalways = 3

unfoldable pub init_locks : Machine → Machine
init_locks m = record m { mypthread_sem = 1; mutex_sem = 1; cond_sem = 1; kthread_sem = 1 }

-- `cores` and `hyper` are the answers of `get_cpu_cores` and `get_hyperthreads`.
unfoldable pub init_kthread_info : ℕ → ℕ → Machine → Machine
init_kthread_info cores hyper m =
    let n = record m { cpu_cores = cores; thread_per_core = hyper } in
    if m.mypthread_policy == ulonly
    then record n { max_kthread_count = 1 }
    else (if m.mypthread_policy == klmatchcores
        then record n { max_kthread_count = cores }
        else (if m.mypthread_policy == klmatchhyper
            then record n { max_kthread_count = (cores * hyper) % int_mod }
            else n))

unfoldable pub mypthread_init : ℕ → ℕ → ℕ → Machine → Machine
unfolding init_kthread_info
mypthread_init kt cores hyper m = init_kthread_info cores hyper (record m { mypthread_policy = kt })

-- `pid` is the answer of `clone`, `none` for -1. The new kernel thread runs `schedule_kthread`.
unfoldable pub create_kthread : Option ℕ → M (Unit {0})
create_kthread none m = exited
create_kthread (some pid) m = ok (tt, record m { started = pid ∷ m.started })

-- A `mykthread_t` for kernel thread `tid` that runs `th`.
unfoldable pub new_kthread : ℕ → Ptr → M ℕ
new_kthread tid th m = ok (
  m.next_kthread,
  record (set_kthread m.next_kthread (record { kth_id = tid; th = th }) m) {
    next_kthread = m.next_kthread + 1;
  },
)

unfoldable pub schedule_kthread : ℕ → M Outcome
schedule_kthread tid = do
  k ← new_kthread tid none
  add_kthread k
  and_return (mythread_scheduler k set_mode) 0

-- The global `main_thread` stands at address 0.
abbrev pub main_thread : ℕ
main_thread = 0

-- The first call of `mypthread_create`: locks, and a thread for the caller.
unfoldable pub create_main : ℕ → M (Unit {0})
create_main tid = do
  modify init_locks
  m ← get
  modify (
      set_thread main_thread (record (m.threads main_thread) {
        th_id = inc m.mypthread_th_gen;
        ctx = uninit;
        state = ps_running;
      }))
  modify (λ n. record n {
    mypthread_th_gen = inc m.mypthread_th_gen;
    mypthread_count = inc m.mypthread_count;
  })
  k ← new_kthread tid (some main_thread)
  sem_wait kthread_sem
  modify (λ n. record n { current_kthread_count = 1 })
  add_kthread k
  sem_post kthread_sem

-- The end of `mypthread_create`: a kernel thread as the policy says.
unfoldable pub create_by_policy : Option ℕ → M (Unit {0})
create_by_policy pid = do
  m ← get
  elim (m.mypthread_policy == klmatchcores || m.mypthread_policy == klmatchhyper) [
    | true ↦ do
      sem_wait kthread_sem
      n ← get
      let flag = int_lt n.current_kthread_count n.max_kthread_count
      modify (λ o.
          if flag then record o { current_kthread_count = inc o.current_kthread_count } else o)
      sem_post kthread_sem
      elim flag [ true ↦ create_kthread pid | false ↦ pure tt ]
    | false ↦ elim (m.mypthread_policy == klalways) [
      | true ↦ do
        sem_wait kthread_sem
        modify (λ o. record o { current_kthread_count = inc o.current_kthread_count })
        sem_post kthread_sem
        create_kthread pid
      | false ↦ pure tt
    ]
  ]

-- The first call finds the library not set up.
unfoldable pub set_up : ℕ → M (Unit {0})
set_up tid = do m ← get; elim (m.mypthread_count == 0) [ true ↦ create_main tid | false ↦ pure tt ]

-- `thread` is the address of the caller's struct.
unfoldable pub mypthread_create : ℕ → Option ℕ → (thread routine arg : ℕ) → M ℕ
mypthread_create tid pid thread routine arg = do
  set_up tid
  n ← get
  modify
      (set_thread thread (record (n.threads thread) { ctx = entry routine arg; state = ps_active }))
  sem_wait mypthread_sem
  o ← get
  modify (set_thread thread (record (o.threads thread) { th_id = inc o.mypthread_th_gen }))
  modify (λ p. record p {
    mypthread_th_gen = inc p.mypthread_th_gen;
    mypthread_count = inc p.mypthread_count;
  })
  mypthread_enqueue thread
  sem_post mypthread_sem
  create_by_policy pid
  pure 0

-- `free(ctx)`
unfoldable pub free_ctx : ℕ → M (Unit {0})
free_ctx t m = elim (m.threads t).ctx [ freed ↦ fault | _ ↦ ok (tt, set_ctx t freed m) ]

-- `current_kthread->th`, for the pointer that `mykthread_get(gettid())` answers.
unfoldable pub current_thread : Ptr → M ℕ
current_thread kp = do k ← deref kp; m ← get; deref (m.kthreads k).th

unfoldable pub mypthread_exit : ℕ → M Outcome
mypthread_exit tid = do
  kp ← get_kthread tid
  sem_wait mypthread_sem
  modify (λ m. record m { mypthread_count = dec m.mypthread_count })
  t ← current_thread kp
  modify (set_status t ps_dead)
  m ← get
  update_waiting (m.threads t).th_id
  sem_post mypthread_sem
  free_ctx t
  k ← deref kp
  and_return (mythread_scheduler k set_mode) 0

unfoldable pub mypthread_yield : ℕ → M Outcome
mypthread_yield tid = do
  kp ← get_kthread tid
  t ← current_thread kp
  modify (set_status t ps_active)
  sem_wait mypthread_sem
  mypthread_enqueue t
  sem_post mypthread_sem
  k ← deref kp
  and_return (mythread_scheduler k (swap_mode in_yield)) 0

-- The current thread waits for thread `id`, and the next active one runs.
unfoldable pub wait_for : Ptr → ℕ → M Outcome
wait_for kp id = do
  t ← current_thread kp
  m ← get
  modify (set_thread t (record (m.threads t) { state = ps_waiting; dependent_th = id }))
  sem_wait mypthread_sem
  mypthread_enqueue t
  sem_post mypthread_sem
  k ← deref kp
  and_return (mythread_scheduler k (swap_mode in_join)) 0

-- `id` is the `th_id` of the argument, the only field that the code reads.
unfoldable pub mypthread_join : ℕ → ℕ → M Outcome
mypthread_join tid id = do
  sem_wait mypthread_sem
  target ← get_thread id
  sem_wait kthread_sem
  kp ← get_kthread tid
  sem_post kthread_sem
  sem_post mypthread_sem
  elim target [
    | none ↦ do
      busy ← is_running id
      elim busy [ true ↦ wait_for kp id | false ↦ pure (returned 0) ]
    | some target_thread ↦ do
      m ← get
      elim (is_dead (m.threads target_thread).state) [
        | false ↦ wait_for kp id
        | true ↦ pure (returned 0)
      ]
  ]

unfoldable pub mypthread_self : ℕ → M Thread
mypthread_self tid = do
  sem_wait kthread_sem
  kp ← get_kthread tid
  sem_post kthread_sem
  t ← current_thread kp
  m ← get
  pure (m.threads t)

unfoldable pub mypthread_equal : Thread → Thread → ℕ
mypthread_equal t1 t2 = if t1.th_id == t2.th_id then 1 else 0
