-- ===== src/Scheduler.antt =====
-- `mythread_scheduler` of pthreads/mypthread.c.
pub mod Head
pub mod Keeps
pub mod Leaves
pub mod Round
pub mod Switch
use operating_system_linux_t.Common.{ℕ, Bool, true, false, Option, none, some, ◌==◌, if◌then◌else◌}
use operating_system_linux_t.Memory.{Run, ok, fault, Sem, mypthread_sem, kthread_sem, Ptr}
use operating_system_linux_t.Thread.{Thread, Kthread, Context, Resume, uninit, freed, saved}
use operating_system_linux_t.Machine.{
  Machine, M, pure, ◌>>=◌, ◌>>◌, get, put, modify, lift, deref, set_ctx, set_kthread,
}
use operating_system_linux_t.Machine.Ops.{sem_wait, sem_post, dequeue_active}

-- `mode`: 0 sets the context of the next thread, 1 swaps. A swap saves where the caller is.
pub data Mode : Type 0 where
  set_mode : Mode
  swap_mode : Resume → Mode

-- How a library call leaves its kernel thread: it returns, the kernel thread now runs a thread from
-- a context, or it sleeps in the loop of the scheduler and will try again.
pub data Outcome : Type 0 where
  returned : ℕ → Outcome
  running : (thread : ℕ) → Context → Outcome
  sleeping : (kthread : ℕ) (last : Ptr) → Mode → Outcome

-- `setcontext`: a fault where the context holds nothing.
abbrev pub set_context : ℕ → M Outcome
set_context t m = elim (m.threads t).ctx [
  | uninit ↦ fault
  | freed ↦ fault
  | c ↦ ok (running t c, m)
]

-- `swapcontext`, with a fault at a NULL or freed place to save to.
abbrev pub swap_context : Ptr → Resume → ℕ → M Outcome
swap_context last r t = do
  l ← deref last
  m ← get
  elim (m.threads l).ctx [
    | freed ↦ (λ n. fault)
    | _ ↦ do modify (set_ctx l (saved r)); set_context t
  ]

abbrev pub switch : Ptr → Mode → ℕ → M Outcome
switch last set_mode t = set_context t
switch last (swap_mode r) t = swap_context last r t

-- The body of the loop.
unfoldable pub scheduler_round : ℕ → Ptr → Mode → M Outcome
scheduler_round k last mode = do
  sem_wait mypthread_sem
  next ← dequeue_active
  sem_post mypthread_sem
  elim next [
    | some t ↦ do
      sem_wait kthread_sem
      m ← get
      modify (set_kthread k (record (m.kthreads k) { th = some t }))
      sem_post kthread_sem
      switch last mode t
    | none ↦ pure (sleeping k last mode)
  ]

unfoldable pub mythread_scheduler : ℕ → Mode → M Outcome
mythread_scheduler k mode = do
  sem_wait mypthread_sem
  m ← get
  elim (m.mypthread_count == 0) [
    | true ↦ do sem_post mypthread_sem; pure (returned 0)
    | false ↦ do sem_post mypthread_sem; n ← get; scheduler_round k (n.kthreads k).th mode
  ]

-- The rest of a call behind a scheduler that came back.
abbrev pub and_return : M Outcome → ℕ → M Outcome
and_return c v = do
  o ← c
  elim o [
    | returned _ ↦ pure (returned v)
    | running t x ↦ pure (running t x)
    | sleeping k l w ↦ pure (sleeping k l w)
  ]

-- The rest of a program behind a call, which runs where the call comes back.
abbrev pub and_then : M Outcome → M Outcome → M Outcome
and_then c rest = do
  o ← c
  elim o [
    | returned _ ↦ rest
    | running t x ↦ pure (running t x)
    | sleeping k l w ↦ pure (sleeping k l w)
  ]
