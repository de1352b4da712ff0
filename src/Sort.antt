-- ===== src/Sort.antt =====
-- pthreads/mtsort.c: threads that sort neighbours, and one that checks. Mutex `i` guards element `i`.
-- The numbers are the array that the threads share, which `main` fills with positive numbers.
pub mod Sweeps
pub mod Swap
pub mod Destroy
pub mod Inversions
pub mod Stuck
use operating_system_linux_t.Common.{
  ℕ, zero, suc, ◌+◌, ◌-◌, Bool, true, false, Option, none, some, List, [], ◌∷◌, ◌==◌, if◌then◌else◌,
  ltb, set, get_or,
}
use operating_system_linux_t.Memory.{Run, ok, exited}
use operating_system_linux_t.Machine.{Machine, M, pure, ◌>>=◌, ◌>>◌, int_lt}
use operating_system_linux_t.Scheduler.{Outcome, returned, running, sleeping, and_then}
use operating_system_linux_t.Lifecycle.{mypthread_create, mypthread_exit, mypthread_yield}
use operating_system_linux_t.Samples.{join_at, join_all}
use operating_system_linux_t.Sync.{
  mypthread_mutex_init, mypthread_mutex_lock, mypthread_mutex_trylock, mypthread_mutex_unlock,
  mypthread_mutex_destroy,
}

-- The exchange of `fnsort` at its element and the next one.
unfoldable pub compare_swap : ℕ → List ℕ → List ℕ
compare_swap i num =
    if ltb (get_or num (suc i) 0) (get_or num i 0)
    then set (set num i (get_or num (suc i) 0)) (suc i) (get_or num i 0)
    else num

-- A round of the loop of `fnsort` behind its first lock.
unfoldable pub sort_locked : ℕ → ℕ → List ℕ → M (Outcome × List ℕ)
sort_locked tid i num = do
  r ← mypthread_mutex_trylock (suc i)
  elim (r == 0) [
    | false ↦ do _ ← mypthread_mutex_unlock i; o ← mypthread_yield tid; pure (o, num)
    | true ↦ do
      let num' = compare_swap i num
      _ ← mypthread_mutex_unlock i
      _ ← mypthread_mutex_unlock (suc i)
      o ← mypthread_yield tid
      pure (o, num')
  ]

-- A round of `fnsort` for element `i`, with its test of `quitting`.
unfoldable pub fnsort : ℕ → Bool → ℕ → List ℕ → M (Outcome × List ℕ)
fnsort tid true i num = do o ← mypthread_exit tid; pure (o, num)
fnsort tid false i num = do
  o ← mypthread_mutex_lock tid i
  elim o [
    | returned _ ↦ sort_locked tid i num
    | running t x ↦ pure (running t x, num)
    | sleeping k l w ↦ pure (sleeping k l w, num)
  ]

-- The loop of `fncheck` over the elements: `n` pairs are left, from element `i` on.
unfoldable pub check_from : (n i : ℕ) → List ℕ → Bool
check_from zero i num = true
check_from (suc n) i num =
    let rest = check_from n (suc i) num in
    if ltb (get_or num (suc i) 0) (get_or num i 0) then false else rest

-- The loops over all mutexes: `n` are left, from mutex `i` on.
unfoldable pub lock_all : (n tid i : ℕ) → M Outcome
lock_all zero tid i = pure (returned 0)
lock_all (suc n) tid i = do
  o ← mypthread_mutex_lock tid i
  elim o [
    | returned _ ↦ lock_all n tid (suc i)
    | running t x ↦ pure (running t x)
    | sleeping k l w ↦ pure (sleeping k l w)
  ]

unfoldable pub unlock_all : (n i : ℕ) → M ℕ
unlock_all zero i = pure 0
unlock_all (suc n) i = do _ ← mypthread_mutex_unlock i; unlock_all n (suc i)

-- A round of `fncheck` over `size` elements, with its test of `quitting`, whose new value it gives.
unfoldable pub fncheck : ℕ → Bool → ℕ → List ℕ → M (Outcome × Bool)
fncheck tid true size num = do o ← mypthread_exit tid; pure (o, true)
fncheck tid false size num = do
  o ← lock_all size tid 0
  elim o [
    | returned _ ↦ do
      let check = check_from (size - 1) 0 num
      _ ← unlock_all size 0
      o' ← mypthread_yield tid
      pure (o', check)
    | running t x ↦ pure (running t x, false)
    | sleeping k l w ↦ pure (sleeping k l w, false)
  ]

-- LISTSIZE, and `nListSize` for the second argument of the program, if there is one.
abbrev pub listsize : ℕ
listsize = 32

unfoldable pub list_size : Option ℕ → ℕ
list_size none = listsize
list_size (some n) = if int_lt 0 n then n else listsize

-- The array that `main` fills: `n` elements are left of `size`.
unfoldable pub initial : (n size : ℕ) → List ℕ
initial zero size = []
initial (suc n) size = (size - (size - suc n)) ∷ initial n size

-- The loop of `main` that starts the sorting threads: `n` are left, from element `i` on. `threads`
-- and `args` are the addresses of thread `i` and of its argument, `routine` is `fnsort`. The result
-- is false where a thread could not be created.
unfoldable pub start_sorters :
    (n tid i routine : ℕ) → (threads args : ℕ → ℕ) → (ℕ → Option ℕ) → M Bool
start_sorters zero tid i routine threads args pids = pure true
start_sorters (suc n) tid i routine threads args pids = do
  _ ← mypthread_mutex_init (suc i)
  r ← mypthread_create tid (pids i) (threads i) routine (args i)
  elim (r == 0) [
    | true ↦ start_sorters n tid (suc i) routine threads args pids
    | false ↦ pure false
  ]

-- The loop of `main` that destroys the mutexes: `n` are left, from mutex `i` on.
unfoldable pub destroy_all : (n i : ℕ) → M ℕ
destroy_all zero i = pure 0
destroy_all (suc n) i = do _ ← mypthread_mutex_destroy i; destroy_all n (suc i)

-- `main` behind the creation of its threads: it joins the sorting threads and the checking one, whose
-- struct is at `thrcheck`, and destroys the mutexes.
unfoldable pub finish : (size tid thrcheck : ℕ) → (ℕ → ℕ) → M Outcome
unfolding destroy_all
finish size tid thrcheck threads =
    and_then (join_all (size - 1) tid 0 threads)
      (and_then (join_at tid thrcheck) (do _ ← destroy_all size 0; pure (returned 0)))

-- `main` from the array on, up to the place where a join gives up the processor. `check` and `arg`
-- are `fncheck` and its argument.
unfoldable pub main :
    (size tid routine check thrcheck arg : ℕ) → (threads args : ℕ → ℕ) → (ℕ → Option ℕ) → M Outcome
unfolding finish
main size tid routine check thrcheck arg threads args pids = do
  _ ← mypthread_mutex_init 0
  started ← start_sorters (size - 1) tid 0 routine threads args pids
  elim started [
    | false ↦ (λ m. exited)
    | true ↦ do
      r ← mypthread_create tid (pids size) thrcheck check arg
      elim (r == 0) [ false ↦ (λ m. exited) | true ↦ finish size tid thrcheck threads ]
  ]
