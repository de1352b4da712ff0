-- ===== src/Pingpong.antt =====
-- server/example_thread.c: two threads that hand control to each other over a condition variable of the
-- system, and `main`, which looks at `threads_left`. The system's mutex and condition variable are as
-- pthread.h documents them, without errors: a signal wakes one waiting thread or is lost. Nothing else wakes
-- a thread. `threads_left++` and `threads_left--`, outside the mutex, are a read and a write. Printing and `sleep` are left out.
pub mod Runs
use operating_system_linux_t.Common.{
  ℕ, zero, suc, ◌+◌, ◌≤◌, ◌≡◌, refl, Bool, true, false, ◌||◌, ◌&&◌, not, Option, none, some, List,
  [], ◌∷◌, ◌==◌, ltb, if◌then◌else◌, arith,
}
use operating_system_linux_t.Machine.{inc, dec}

-- Where a thread of `do_pingpong` is: before the step that is named, with `count`.
pub data Pc : Type 0 where
  born : Pc
  count_in : (read : ℕ) → Pc
  mutex_lock : Pc
  loop_test : (count : ℕ) → Pc
  cond_signal : (count : ℕ) → Pc
  cond_wait : (count : ℕ) → Pc
  waiting : (count : ℕ) → Pc
  woken : (count : ℕ) → Pc
  mutex_unlock : Pc
  leave : Pc
  count_out : (read : ℕ) → Pc
  last_signal : Pc
  dead : Pc

-- The two threads, whether the mutex is taken, and `threads_left`.
pub record State : Type 0 where
  pub t1 : Pc
  pub t2 : Pc
  pub mutex : Bool
  pub threads_left : ℕ

-- `main` has created both threads.
abbrev pub created : State
created = record { t1 = born; t2 = born; mutex = false; threads_left = 0 }

-- A signal on the condition variable, for the other thread.
unfoldable pub wake : Pc → Pc
wake (waiting count) = woken count
wake p = p

-- The next step of a thread beside the other one, if it is not blocked.
unfoldable pub do_pingpong :
    (me other : Pc) → (mutex : Bool) → (left : ℕ) → Option (Pc × Pc × Bool × ℕ)
unfolding wake
do_pingpong born other mutex left = some (count_in left, other, mutex, left)
do_pingpong (count_in read) other mutex left = some (mutex_lock, other, mutex, inc read)
do_pingpong mutex_lock other true left = none
do_pingpong mutex_lock other false left = some (loop_test 0, other, true, left)
do_pingpong (loop_test count) other mutex left =
    if ltb count 5
    then some (cond_signal (inc count), other, mutex, left)
    else some (mutex_unlock, other, mutex, left)
do_pingpong (cond_signal count) other mutex left = some (cond_wait count, wake other, mutex, left)
do_pingpong (cond_wait count) other mutex left = some (waiting count, other, false, left)
do_pingpong (waiting count) other mutex left = none
do_pingpong (woken count) other true left = none
do_pingpong (woken count) other false left = some (loop_test count, other, true, left)
do_pingpong mutex_unlock other mutex left = some (leave, other, false, left)
do_pingpong leave other mutex left = some (count_out left, other, mutex, left)
do_pingpong (count_out read) other mutex left = some (last_signal, other, mutex, dec read)
do_pingpong last_signal other mutex left = some (dead, wake other, mutex, left)
do_pingpong dead other mutex left = none

-- A step of the first thread, or of the second one.
unfoldable pub step : Bool → State → Option State
unfolding do_pingpong
step true s = elim (do_pingpong s.t1 s.t2 s.mutex s.threads_left) [
  | none ↦ none
  | some (me, other, mutex, left) ↦
      some (record { t1 = me; t2 = other; mutex = mutex; threads_left = left })
]
step false s = elim (do_pingpong s.t2 s.t1 s.mutex s.threads_left) [
  | none ↦ none
  | some (me, other, mutex, left) ↦
      some (record { t1 = other; t2 = me; mutex = mutex; threads_left = left })
]

-- Whether `main` ends the program when it looks.
unfoldable pub main_exits : State → Bool
main_exits s = s.threads_left == 0

-- The system tries the threads in the order of the list; a blocked thread stays where it is. The state,
-- and how many steps were made.
unfoldable pub run : List Bool → State → State × ℕ
unfolding step
run [] s = (s, 0)
run (w ∷ ws) s = elim (step w s) [ none ↦ run ws s | some s' ↦ let r = run ws s' in (r.0, suc r.1) ]
