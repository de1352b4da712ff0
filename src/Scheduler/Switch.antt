-- ===== src/Scheduler/Switch.antt =====
-- The switch to the thread that the scheduler took, when its context can be run.
use operating_system_linux_t.Common.{ℕ, ◌≡◌, refl, Bool, true, false, some, [], ◌∷◌, ◌++◌, arith}
use operating_system_linux_t.Memory.{ok}
use operating_system_linux_t.Memory.Chain.{Cells}
use operating_system_linux_t.Thread.{Threads, Context, Resume, uninit, saved, freed}
use operating_system_linux_t.Machine.{Machine, M, ◌>>=◌, after, set_ctx}
use operating_system_linux_t.Scheduler.{Outcome, running, and_return, set_context, swap_context}

-- The context can be run, and can be saved to.
abbrev pub can_run : Context → Bool
can_run uninit = false
can_run freed = false
can_run _ = true

abbrev pub can_save : Context → Bool
can_save freed = false
can_save _ = true

-- Every thread of the list has a context that can be run.
abbrev pub AllRun : Threads → Cells → Type 0
AllRun ts [] = Unit
AllRun ts ((a, t) ∷ xs) = (can_run (ts t).ctx ≡ true) × AllRun ts xs

pub AllRun-at :
    (ts : Threads) (ys : Cells) (a t : ℕ) (zs : Cells)
    → AllRun ts (ys ++ (a, t) ∷ zs)
    → can_run (ts t).ctx ≡ true
AllRun-at ts [] a t zs l = l.0
AllRun-at ts ((b, v) ∷ ys) a t zs l = AllRun-at ts ys a t zs l.1

pub AllRun-append :
    (ts : Threads) (xs ys : Cells) → AllRun ts xs → AllRun ts ys → AllRun ts (xs ++ ys)
AllRun-append ts [] ys l k = k
AllRun-append ts ((b, v) ∷ xs) ys l k = (l.0, AllRun-append ts xs ys l.1 k)

pub set_context-running :
    (t : ℕ) (m : Machine)
    → can_run (m.threads t).ctx ≡ true
    → set_context t m ≡ ok (running t (m.threads t).ctx, m)
set_context-running t m l = ground arith

-- A swap saves where the caller is, and then runs the thread, which may be the caller itself.
pub swap_context-running :
    (l : ℕ) (r : Resume) (t : ℕ) (m : Machine)
    → can_save (m.threads l).ctx ≡ true
    → can_run ((set_ctx l (saved r) m).threads t).ctx ≡ true
    → swap_context (some l) r t m
      ≡ ok (running t ((set_ctx l (saved r) m).threads t).ctx, set_ctx l (saved r) m)
unfolding ◌>>=◌
swap_context-running l r t m sl rt =
    ground (arith, set_context-running t (set_ctx l (saved r) m) rt)

pub AllRun-mono :
    (ts ts' : Threads) (xs : Cells)
    → ((x : ℕ) → can_run (ts x).ctx ≡ true → can_run (ts' x).ctx ≡ true)
    → AllRun ts xs
    → AllRun ts' xs
AllRun-mono ts ts' [] keep ar = tt
AllRun-mono ts ts' ((b, v) ∷ xs) keep ar = (keep v ar.0, AllRun-mono ts ts' xs keep ar.1)

pub and_return-running :
    (c : M Outcome) (v : ℕ) {m : Machine} {t : ℕ} {x : Context} {m' : Machine}
    → c m ≡ ok (running t x, m')
    → and_return c v m ≡ ok (running t x, m')
and_return-running c v e = after _ _ e refl

pub and_return-eq :
    (c d : M Outcome) (v : ℕ) (m n : Machine) → c m ≡ d n → and_return c v m ≡ and_return d v n
unfolding ◌>>=◌
and_return-eq c d v m n e = rw (e, ◌>>=◌)
