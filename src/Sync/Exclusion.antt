-- ===== src/Sync/Exclusion.antt =====
-- The threads of a program that uses pthreads/mypthread.c, with the mutexes that each of them holds:
-- every library call that ends is a step, whatever the other threads do in between. A thread holds
-- a mutex from the return of a lock to its unlock or to its wait for a condition, and only a
-- thread that holds a mutex unlocks it or waits with it.
pub mod Calls
pub mod Others
pub mod Invariant
use operating_system_linux_t.Common.{
  ℕ, ◌≡◌, Bool, true, false, ◌||◌, Option, none, some, List, [], ◌∷◌, ◌==◌, if◌then◌else◌,
}
use operating_system_linux_t.Memory.{ok, Ptr, update}
use operating_system_linux_t.Thread.{
  Context, uninit, entry, lock_entry, saved, freed, in_yield, in_join, in_cond_wait,
}
use operating_system_linux_t.Machine.{Machine}
use operating_system_linux_t.Scheduler.{Mode, Outcome, scheduler_round}
use operating_system_linux_t.Scheduler.Leaves.{is_returned}
use operating_system_linux_t.Lifecycle.{
  schedule_kthread, mypthread_create, mypthread_exit, mypthread_yield, mypthread_join,
}
use operating_system_linux_t.Sync.{
  mypthread_mutex_init, mypthread_mutex_destroy, mypthread_mutex_lock, mypthread_mutex_trylock,
  mypthread_mutex_unlock, mypthread_cond_init, mypthread_cond_destroy, mypthread_cond_broadcast,
  mypthread_cond_signal, mypthread_cond_wait, resume,
}

-- The threads that hold each mutex.
abbrev pub Holders : Type 0
Holders = ℕ → List ℕ

abbrev pub holds : ℕ → List ℕ → Bool
holds t [] = false
holds t (u ∷ us) = (u == t) || holds t us

abbrev pub dropped : ℕ → List ℕ → List ℕ
dropped t [] = []
dropped t (u ∷ us) = if u == t then us else u ∷ dropped t us

-- Thread `t` comes to hold mutex `a`, and gives it up.
abbrev pub acquire : ℕ → ℕ → Holders → Holders
acquire t a hs = update hs a (t ∷ hs a)

abbrev pub release : ℕ → ℕ → Holders → Holders
release t a hs = update hs a (dropped t (hs a))

-- The mutex that a resumed thread locks first.
abbrev pub wanted : Context → Ptr
wanted uninit = none
wanted (entry routine arg) = none
wanted (lock_entry mutex) = some mutex
wanted (saved in_yield) = none
wanted (saved in_join) = none
wanted (saved (in_cond_wait mutex)) = some mutex
wanted freed = none

-- The holders after a lock of the mutex, if there is one, that comes back or not.
abbrev pub after_lock : ℕ → Ptr → Bool → Holders → Holders
after_lock t none back hs = hs
after_lock t (some a) back hs = if back then acquire t a hs else hs

-- A call of thread `t` on kernel thread `tid`. A lock that comes back is one of a thread that the
-- library still counts.
pub data Step : Machine → Holders → Machine → Holders → Type 0 where
  lock :
      {m m' : Machine} {hs : Holders} (tid t a : ℕ) (o : Outcome)
      → mypthread_mutex_lock tid a m ≡ ok (o, m')
      → (m'.mypthread_count == 0) ≡ false
      → Step m hs m' (after_lock t (some a) (is_returned o) hs)
  trylock :
      {m m' : Machine} {hs : Holders} (t a v : ℕ)
      → mypthread_mutex_trylock a m ≡ ok (v, m')
      → Step m hs m' (after_lock t (some a) (v == 0) hs)
  unlock :
      {m m' : Machine} {hs : Holders} (t a v : ℕ)
      → holds t (hs a) ≡ true
      → mypthread_mutex_unlock a m ≡ ok (v, m')
      → Step m hs m' (release t a hs)
  cond_wait :
      {m m' : Machine} {hs : Holders} (tid t c a : ℕ) (o : Outcome)
      → holds t (hs a) ≡ true
      → mypthread_cond_wait tid c a m ≡ ok (o, m')
      → is_returned o ≡ false
      → Step m hs m' (release t a hs)
  resumed :
      {m m' : Machine} {hs : Holders} (tid t : ℕ) (c : Context) (o : Outcome)
      → resume tid t c m ≡ ok (o, m')
      → (m'.mypthread_count == 0) ≡ false
      → Step m hs m' (after_lock t (wanted c) (is_returned o) hs)
  mutex_init :
      {m m' : Machine} {hs : Holders} (a v : ℕ)
      → hs a ≡ []
      → mypthread_mutex_init a m ≡ ok (v, m')
      → Step m hs m' hs
  mutex_destroy :
      {m m' : Machine} {hs : Holders} (a v : ℕ)
      → hs a ≡ []
      → mypthread_mutex_destroy a m ≡ ok (v, m')
      → Step m hs m' hs
  create :
      {m m' : Machine} {hs : Holders} (tid : ℕ) (pid : Ptr) (thread routine arg v : ℕ)
      → mypthread_create tid pid thread routine arg m ≡ ok (v, m')
      → Step m hs m' hs
  exit :
      {m m' : Machine} {hs : Holders} (tid : ℕ) (o : Outcome)
      → mypthread_exit tid m ≡ ok (o, m')
      → Step m hs m' hs
  yield :
      {m m' : Machine} {hs : Holders} (tid : ℕ) (o : Outcome)
      → mypthread_yield tid m ≡ ok (o, m')
      → Step m hs m' hs
  join :
      {m m' : Machine} {hs : Holders} (tid id : ℕ) (o : Outcome)
      → mypthread_join tid id m ≡ ok (o, m')
      → Step m hs m' hs
  new_kthread :
      {m m' : Machine} {hs : Holders} (tid : ℕ) (o : Outcome)
      → schedule_kthread tid m ≡ ok (o, m')
      → Step m hs m' hs
  next_round :
      {m m' : Machine} {hs : Holders} (k : ℕ) (last : Ptr) (mode : Mode) (o : Outcome)
      → scheduler_round k last mode m ≡ ok (o, m')
      → Step m hs m' hs
  signal :
      {m m' : Machine} {hs : Holders} (c v : ℕ)
      → mypthread_cond_signal c m ≡ ok (v, m')
      → Step m hs m' hs
  broadcast :
      {m m' : Machine} {hs : Holders} (c v : ℕ)
      → mypthread_cond_broadcast c m ≡ ok (v, m')
      → Step m hs m' hs
  cond_init :
      {m m' : Machine} {hs : Holders} (c v : ℕ)
      → mypthread_cond_init c m ≡ ok (v, m')
      → Step m hs m' hs
  cond_destroy :
      {m m' : Machine} {hs : Holders} (c v : ℕ)
      → mypthread_cond_destroy c m ≡ ok (v, m')
      → Step m hs m' hs

-- Any number of steps.
pub data Steps : Machine → Holders → Machine → Holders → Type 0 where
  done : {m : Machine} {hs : Holders} → Steps m hs m hs
  more :
      {m m' m'' : Machine} {hs hs' hs'' : Holders}
      → Step m hs m' hs'
      → Steps m' hs' m'' hs''
      → Steps m hs m'' hs''
