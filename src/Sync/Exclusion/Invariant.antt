-- ===== src/Sync/Exclusion/Invariant.antt =====
-- The `lock` fields of pthreads/mypthread.c against the threads that hold the mutexes.
use operating_system_linux_t.Common.{
  ℕ, ◌≤◌, ◌≡◌, refl, ap, ◌∙◌, sym, subst, Bool, Bool-cases, inl, inr, true, false, some, List, [],
  ◌∷◌, ◌==◌, ==_iff, length, if◌then◌else◌, arith,
}
use operating_system_linux_t.Memory.{ok}
use operating_system_linux_t.Thread.{
  Context, uninit, entry, lock_entry, saved, freed, in_yield, in_join, in_cond_wait,
}
use operating_system_linux_t.Machine.{Machine}
use operating_system_linux_t.Machine.Gives.{Gives-ok, SameLocks}
use operating_system_linux_t.Scheduler.{Outcome}
use operating_system_linux_t.Scheduler.Keeps.{scheduler_round-Keeps}
use operating_system_linux_t.Scheduler.Leaves.{is_returned, and_return-Gives}
use operating_system_linux_t.Lifecycle.Keeps.{
  schedule_kthread-Keeps, mypthread_create-Keeps, mypthread_exit-Keeps, mypthread_yield-Keeps,
  mypthread_join-Keeps,
}
use operating_system_linux_t.Sync.{mypthread_mutex_lock, resume}
use operating_system_linux_t.Sync.Exclusion.{
  Holders, holds, dropped, acquire, release, wanted, after_lock, Step, Steps, done, more,
}
use operating_system_linux_t.Sync.Exclusion.Calls.{
  SetLock, unlock-SetLock, LockEnds, took, left, Locking, lock-LockEnds,
}
use operating_system_linux_t.Sync.Exclusion.Others.{
  init-SetLock, destroy-SetLock, TryEnds, taken, busy, trylock-TryEnds, cond_init-Keeps,
  cond_destroy-Keeps, broadcast-Keeps, signal-Keeps, wait-SetLock,
}

-- Every mutex has one holder or none, as its `lock` says.
abbrev pub Exclusive : Machine → Holders → Type 0
Exclusive m hs = (a : ℕ) → length (hs a) ≡ (if (m.mutexes a).lock then 1 else 0)

at_most : (b : Bool) → (if b then 1 else 0) ≤ 1
at_most b = ground arith

same-Exclusive : (m m' : Machine) (hs : Holders) → SameLocks m m' → Exclusive m hs → Exclusive m' hs
same-Exclusive m m' hs s x a = x a ∙ ap (λ l. if l then 1 else 0) (sym (s a))

took-Exclusive :
    (t a : ℕ) (m m' : Machine) (hs : Holders)
    → (m.mutexes a).lock ≡ false
    → SetLock a true m m'
    → Exclusive m hs
    → Exclusive m' (acquire t a hs)
took-Exclusive t a m m' hs free set x b = elim (Bool-cases (a == b)) [
  | inl e ↦ rw (set b, e) (omega (arith, x a ∙ ap (λ l. if l then 1 else 0) free))
  | inr e ↦ rw (set b, e) (x b)
]

-- A holder of a mutex that has one holder is that one.
dropped-one : (t : ℕ) (us : List ℕ) → length us ≤ 1 → holds t us ≡ true → length (dropped t us) ≡ 0
dropped-one t [] le h = refl
dropped-one t (u ∷ []) le h = ground arith
dropped-one t (u ∷ v ∷ us) le h = absurd (omega (arith, le))

freed-Exclusive :
    (t a : ℕ) (m m' : Machine) (hs : Holders)
    → holds t (hs a) ≡ true
    → SetLock a false m m'
    → Exclusive m hs
    → Exclusive m' (release t a hs)
freed-Exclusive t a m m' hs h set x b = elim (Bool-cases (a == b)) [
  | inl e ↦
      rw (set b, e)
        (dropped-one t (hs a) (subst (λ n. n ≤ 1) (sym (x a)) (at_most (m.mutexes a).lock)) h)
  | inr e ↦ rw (set b, e) (x b)
]

-- A mutex that no thread holds may be set up again.
init-Exclusive :
    (a : ℕ) (m m' : Machine) (hs : Holders)
    → hs a ≡ []
    → SetLock a false m m'
    → Exclusive m hs
    → Exclusive m' hs
init-Exclusive a m m' hs none' set x b = elim (Bool-cases (a == b)) [
  | inl e ↦ rw (set b, e) (ap length (subst (λ y. hs y ≡ []) ((==_iff a b).0 e) none'))
  | inr e ↦ rw (set b, e) (x b)
]

lock-Exclusive :
    (t a : ℕ) (m m' : Machine) (hs : Holders) (b : Bool)
    → LockEnds a m b m'
    → (m'.mypthread_count == 0) ≡ false
    → Exclusive m hs
    → Exclusive m' (after_lock t (some a) b hs)
lock-Exclusive t a m m' hs true (took e free set) live x = took-Exclusive t a m m' hs free set x
lock-Exclusive t a m m' hs false (took e free set) live x = absurd (ground arith)
lock-Exclusive t a m m' hs true (left same back) live x = absurd (ground (arith, back refl, live))
lock-Exclusive t a m m' hs false (left same back) live x = same-Exclusive m m' hs same x

trylock-Exclusive :
    (t a v : ℕ) (m m' : Machine) (hs : Holders)
    → TryEnds a m v m'
    → Exclusive m hs
    → Exclusive m' (after_lock t (some a) (v == 0) hs)
trylock-Exclusive t a v m m' hs (taken e free set) x = rw e (took-Exclusive t a m m' hs free set x)
trylock-Exclusive t a v m m' hs (busy e same) x = rw e (same-Exclusive m m' hs same x)

resumed-Exclusive :
    (tid t : ℕ) (c : Context) (o : Outcome) (m m' : Machine) (hs : Holders)
    → resume tid t c m ≡ ok (o, m')
    → (m'.mypthread_count == 0) ≡ false
    → Exclusive m hs
    → Exclusive m' (after_lock t (wanted c) (is_returned o) hs)
unfolding resume
resumed-Exclusive tid t uninit o m m' hs run live x = absurd (ground arith)
resumed-Exclusive tid t (entry routine arg) o m m' hs run live x =
    same-Exclusive m m' hs (Gives-ok (λ _ n. SameLocks m n) run (λ _. refl)) x
resumed-Exclusive tid t (lock_entry a) o m m' hs run live x =
    lock-Exclusive t a m m' hs (is_returned o) (Gives-ok (Locking a m) run (lock-LockEnds tid a m))
      live x
resumed-Exclusive tid t (saved in_yield) o m m' hs run live x =
    same-Exclusive m m' hs (Gives-ok (λ _ n. SameLocks m n) run (λ _. refl)) x
resumed-Exclusive tid t (saved in_join) o m m' hs run live x =
    same-Exclusive m m' hs (Gives-ok (λ _ n. SameLocks m n) run (λ _. refl)) x
resumed-Exclusive tid t (saved (in_cond_wait a)) o m m' hs run live x =
    lock-Exclusive t a m m' hs (is_returned o)
      (Gives-ok (Locking a m) run
        (and_return-Gives (LockEnds a m) (mypthread_mutex_lock tid a) 0 m (lock-LockEnds tid a m)))
      live x
resumed-Exclusive tid t freed o m m' hs run live x = absurd (ground arith)

-- Every step keeps at most one holder of every mutex.
pub Step-Exclusive :
    (m m' : Machine) (hs hs' : Holders) → Step m hs m' hs' → Exclusive m hs → Exclusive m' hs'
Step-Exclusive m m' hs _ (Step.lock tid t a o run live) x =
    lock-Exclusive t a m m' hs (is_returned o) (Gives-ok (Locking a m) run (lock-LockEnds tid a m))
      live x
Step-Exclusive m m' hs _ (Step.trylock t a v run) x =
    trylock-Exclusive t a v m m' hs (Gives-ok (TryEnds a m) run (trylock-TryEnds a m)) x
Step-Exclusive m m' hs _ (Step.unlock t a v h run) x =
    freed-Exclusive t a m m' hs h (Gives-ok (λ _ n. SetLock a false m n) run (unlock-SetLock a m)) x
Step-Exclusive m m' hs _ (Step.cond_wait tid t c a o h run stays) x =
    freed-Exclusive t a m m' hs h
      (Gives-ok (λ o' n. is_returned o' ≡ false → SetLock a false m n) run (wait-SetLock tid c a m)
        stays)
      x
Step-Exclusive m m' hs _ (Step.resumed tid t c o run live) x =
    resumed-Exclusive tid t c o m m' hs run live x
Step-Exclusive m m' hs _ (Step.mutex_init a v none' run) x =
    init-Exclusive a m m' hs none' (Gives-ok (λ _ n. SetLock a false m n) run (init-SetLock a m)) x
Step-Exclusive m m' hs _ (Step.mutex_destroy a v none' run) x =
    init-Exclusive a m m' hs none' (Gives-ok (λ _ n. SetLock a false m n) run (destroy-SetLock a m))
      x
Step-Exclusive m m' hs _ (Step.create tid pid thread routine arg v run) x =
    same-Exclusive m m' hs
      (Gives-ok (λ _ n. SameLocks m n) run (mypthread_create-Keeps tid pid thread routine arg m)) x
Step-Exclusive m m' hs _ (Step.exit tid o run) x =
    same-Exclusive m m' hs (Gives-ok (λ _ n. SameLocks m n) run (mypthread_exit-Keeps tid m)) x
Step-Exclusive m m' hs _ (Step.yield tid o run) x =
    same-Exclusive m m' hs (Gives-ok (λ _ n. SameLocks m n) run (mypthread_yield-Keeps tid m)) x
Step-Exclusive m m' hs _ (Step.join tid id o run) x =
    same-Exclusive m m' hs (Gives-ok (λ _ n. SameLocks m n) run (mypthread_join-Keeps tid id m)) x
Step-Exclusive m m' hs _ (Step.new_kthread tid o run) x =
    same-Exclusive m m' hs (Gives-ok (λ _ n. SameLocks m n) run (schedule_kthread-Keeps tid m)) x
Step-Exclusive m m' hs _ (Step.next_round k last mode o run) x =
    same-Exclusive m m' hs
      (Gives-ok (λ _ n. SameLocks m n) run (scheduler_round-Keeps k last mode m)) x
Step-Exclusive m m' hs _ (Step.signal c v run) x =
    same-Exclusive m m' hs (Gives-ok (λ _ n. SameLocks m n) run (signal-Keeps c m)) x
Step-Exclusive m m' hs _ (Step.broadcast c v run) x =
    same-Exclusive m m' hs (Gives-ok (λ _ n. SameLocks m n) run (broadcast-Keeps c m)) x
Step-Exclusive m m' hs _ (Step.cond_init c v run) x =
    same-Exclusive m m' hs (Gives-ok (λ _ n. SameLocks m n) run (cond_init-Keeps c m)) x
Step-Exclusive m m' hs _ (Step.cond_destroy c v run) x =
    same-Exclusive m m' hs (Gives-ok (λ _ n. SameLocks m n) run (cond_destroy-Keeps c m)) x

-- With each call of the library taken whole, from a state in which every mutex has one holder or
-- none, as its lock field says: as long as only a holder unlocks a mutex or waits with it, each
-- such wait gives the processor away, a mutex is initialised or destroyed only while nobody
-- holds it, and the library still counts a thread where a lock or a resumption comes back, no
-- sequence of calls, rounds of the scheduler and resumptions of any threads, in any order, gives
-- a mutex two holders, and its lock field still says whether it has one.
pub Steps-exclusion :
    (m m' : Machine) (hs hs' : Holders)
    → Steps m hs m' hs'
    → Exclusive m hs
    → ((a : ℕ) → length (hs' a) ≤ 1) × Exclusive m' hs'
Steps-exclusion m m' hs hs' done x =
    ((λ a. subst (λ n. n ≤ 1) (sym (x a)) (at_most (m.mutexes a).lock)), x)
Steps-exclusion m m' hs hs' (more step rest) x =
    Steps-exclusion _ m' _ hs' rest (Step-Exclusive m _ hs _ step x)
