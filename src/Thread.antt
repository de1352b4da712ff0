-- ===== src/Thread.antt =====
-- The types of pthreads/mypthread.h: user threads, kernel threads, mutexes, condition variables.
use operating_system_linux_t.Common.{ℕ, Bool, true, false}
use operating_system_linux_t.Memory.{Ptr, Ends}

-- `enum mypthread_state`
pub data State : Type 0 where
  ps_active ps_running ps_waiting ps_blocked ps_dead : State

abbrev pub is_active : State → Bool
is_active State.ps_active = true
is_active _ = false

abbrev pub is_dead : State → Bool
is_dead State.ps_dead = true
is_dead _ = false

-- Where `swapcontext` left a thread: inside the library call that gave up the processor. The
-- rest of that call runs when the thread is resumed.
pub data Resume : Type 0 where
  in_yield in_join : Resume
  in_cond_wait : (mutex : ℕ) → Resume

-- What `ctx` points to: memory never filled in, a start routine set by `makecontext`, a call of
-- `mypthread_mutex_lock` set by `makecontext`, a place saved by `swapcontext`, or freed memory.
pub data Context : Type 0 where
  uninit : Context
  entry : (routine arg : ℕ) → Context
  lock_entry : (mutex : ℕ) → Context
  saved : Resume → Context
  freed : Context

-- `mypthread_t`. The caller owns the struct, and the library keeps its address.
pub record Thread : Type 0 where
  pub th_id : ℕ
  pub ctx : Context
  pub state : State
  pub dependent_th : ℕ

-- `mykthread_t`
pub record Kthread : Type 0 where
  pub kth_id : ℕ
  pub th : Ptr

-- `mypthread_mutex_t` and `mypthread_cond_t`
pub record Mutex : Type 0 where
  pub lock : Bool
  pub blocked_q : Ends

pub record Cond : Type 0 where
  pub cond_q : Ends

-- Addresses of structs, and what they hold.
abbrev pub Threads : Type 0
Threads = ℕ → Thread

abbrev pub Kthreads : Type 0
Kthreads = ℕ → Kthread
