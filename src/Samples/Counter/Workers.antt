-- ===== src/Samples/Counter/Workers.antt =====
-- The counting threads of pthreads/mypthread_sample4.c one behind the other, up to the return to `main`.
use operating_system_linux_t.Common.{
  ℕ, suc, ◌+◌, ◌<◌, ◌^◌, ◌≡◌, refl, ap, ◌∙◌, true, false, inl, [], ◌∷◌, ◌++◌, ◌==◌, length, arith,
}
use operating_system_linux_t.Memory.{Run, ok}
use operating_system_linux_t.Memory.Chain.{Cells}
use operating_system_linux_t.Thread.{Threads, Context, entry, saved, in_join}
use operating_system_linux_t.Queue.Lookup.{any_item}
use operating_system_linux_t.Machine.{Machine, after, inc}
use operating_system_linux_t.Scheduler.{running}
use operating_system_linux_t.Scheduler.Switch.{can_run, can_save}
use operating_system_linux_t.Samples.Counter.{thread_function}
use operating_system_linux_t.Samples.Counter.Worker.{Going, Ready, Active, Kept}
use operating_system_linux_t.Samples.Counter.Step.{function-Next}
use operating_system_linux_t.Samples.Counter.Drive.{drive}

-- No thread stands twice in the queue.
abbrev pub Distinct : Cells → Type 0
Distinct [] = Unit
Distinct ((a, u) ∷ xs) = (any_item (λ v. v == u) xs ≡ false) × Distinct xs

-- Every thread of the list starts at a routine.
abbrev pub AllEntry : Threads → Cells → Type 0
AllEntry ts [] = Unit
AllEntry ts ((a, u) ∷ xs) = ((routine arg : ℕ) × ((ts u).ctx ≡ entry routine arg)) × AllEntry ts xs

Active-Ready : (ts : Threads) (id : ℕ) (xs : Cells) → Active ts xs → Ready ts id xs
Active-Ready ts id [] act = tt
Active-Ready ts id ((a, u) ∷ xs) act = (inl act.0, Active-Ready ts id xs act.1)

pub AllEntry-Kept :
    (t : ℕ) (ts ts' : Threads) (xs ys : Cells)
    → Kept t ts ts'
    → any_item (λ u. u == t) (xs ++ ys) ≡ false
    → AllEntry ts xs
    → AllEntry ts' xs
AllEntry-Kept t ts ts' [] ys kept out all = tt
AllEntry-Kept t ts ts' ((a, u) ∷ xs) ys kept out ((r, g, e), all) = (
  (r, g, (kept u).1 (ground (arith, out)) ∙ e),
  AllEntry-Kept t ts ts' xs ys kept (ground (arith, out)) all,
)

out_last :
    (t : ℕ) (xs : Cells) (b u : ℕ)
    → any_item (λ v. v == t) (xs ++ (b, u) ∷ []) ≡ false
    → (t == u) ≡ false
out_last t [] b u out = ground (arith, out)
out_last t ((a, v) ∷ xs) b u out = out_last t xs b u (ground (arith, out))

inc_small : (c : ℕ) → suc c < 2 ^ 32 → inc c ≡ suc c
inc_small c h = ground (arith, h)

can_run-entry : (c : Context) (r g : ℕ) → c ≡ entry r g → can_run c ≡ true
can_run-entry c r g e = rw e refl

-- The fuel and the counter after a thread for every node of the list, and one more.
abbrev pub more : Cells → ℕ → ℕ
more [] fuel = fuel
more (w ∷ ws) fuel = suc (more ws fuel)

abbrev pub total : ℕ → Cells → ℕ
total c [] = suc c
total c (w ∷ ws) = total (suc c) ws

pub total-length : (c : ℕ) (ws : Cells) → total c ws ≡ c + suc (length ws)
total-length c [] = omega arith
total-length c (w ∷ ws) = omega (arith, total-length (suc c) ws)

module _ (mutex tid x k b main left j : ℕ) (threads : ℕ → ℕ) where
  drive-next :
      (fuel t r g c s : ℕ) (m : Machine) {y z : Context} {m' : Machine} {v : Run (ℕ × Machine)}
      → thread_function tid mutex c m ≡ ok ((running s y, inc c), m')
      → y ≡ z
      → suc c < 2 ^ 32
      → drive fuel tid mutex threads left j (suc c) (running s z) m' ≡ v
      → drive (suc fuel) tid mutex threads left j c (running t (entry r g)) m ≡ v
  unfolding drive
  drive-next fuel t r g c s m {y = y} {m' = m'} run e small rest = after _ _ run (
      ap (λ n. drive fuel tid mutex threads left j n (running s y) m') (inc_small c small)
      ∙ ap (λ q. drive fuel tid mutex threads left j (suc c) (running s q) m') e
      ∙ rest)

  -- What the threads leave: `main` runs behind its join, with no thread queued.
  pub record Counted (fuel t r g c : ℕ) (m : Machine) (ws : Cells) : Type 0 where
    pub state : Machine
    pub runs :
        drive (suc (more ws fuel)) tid mutex threads left j c (running t (entry r g)) m
        ≡ drive fuel tid mutex threads left j (total c ws) (running main (saved in_join)) state
    pub going : Going mutex tid x k main state []
    pub ids : (u : ℕ) → (state.threads u).th_id ≡ (m.threads u).th_id
    pub place : (state.threads main).ctx ≡ saved in_join

  -- Each thread counts once, and hands the kernel thread to the next one, the last one to `main`.
  pub workers-Counted :
      (ws : Cells) (fuel t r g c : ℕ) (m : Machine)
      → Going mutex tid x k t m (ws ++ (b, main) ∷ [])
      → can_save (m.threads t).ctx ≡ true
      → any_item (λ u. u == t) (ws ++ (b, main) ∷ []) ≡ false
      → Distinct (ws ++ (b, main) ∷ [])
      → Ready m.threads (m.threads t).th_id (ws ++ (b, main) ∷ [])
      → AllEntry m.threads ws
      → (m.threads main).ctx ≡ saved in_join
      → c + suc (length ws) < 2 ^ 32
      → Counted fuel t r g c m ws
  workers-Counted [] fuel t r g c m going save out dist ready all place small =
      let (m', run, next) =
        function-Next mutex tid x k t c m b main [] going save out ready (ap can_run place) in
      let kept = next.kept in
      record {
        state = m';
        runs = drive-next fuel t r g c main m run place (omega (arith, small)) refl;
        going = next.going;
        ids = λ u. (kept u).0;
        place = (kept main).1 (out_last t [] b main out) ∙ place;
      }
  workers-Counted ((a, s) ∷ ws) fuel t r g c m going save out dist ready ((r', g', e), all) place
        small =
      let (m', run, next) =
        function-Next mutex tid x k t c m a s (ws ++ (b, main) ∷ []) going save out ready
          (can_run-entry (m.threads s).ctx r' g' e) in
      let e' = (next.kept s).1 (ground (arith, out)) in
      let rest =
        workers-Counted ws fuel s r' g' (suc c) m' next.going (ap can_save (e' ∙ e) ∙ refl) dist.0
          dist.1 (Active-Ready m'.threads (m'.threads s).th_id (ws ++ (b, main) ∷ []) next.active)
          (AllEntry-Kept t m.threads m'.threads ws ((b, main) ∷ []) next.kept (ground (arith, out))
            all)
          ((next.kept main).1 (out_last t ((a, s) ∷ ws) b main out) ∙ place)
          (omega (arith, small)) in
      record {
        state = rest.state;
        runs = drive-next (suc (more ws fuel)) t r g c s m run e (omega (arith, small)) rest.runs;
        going = rest.going;
        ids = λ u. rest.ids u ∙ (next.kept u).0;
        place = rest.place;
      }
