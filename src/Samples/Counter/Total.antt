-- ===== src/Samples/Counter/Total.antt =====
-- pthreads/mypthread_sample4.c from the joins of `main` on: what the counter is at the end.
use operating_system_linux_t.Common.{
  ℕ, suc, ◌+◌, ◌≤◌, ◌<◌, ◌^◌, ◌≡◌, refl, ap, sym, ◌∙◌, subst, true, false, [], ◌∷◌, ◌++◌, ◌==◌,
  length, arith,
}
use mathlib.Core.List.{append-nil}
use operating_system_linux_t.Memory.{Run, ok}
use operating_system_linux_t.Memory.Chain.{Cells}
use operating_system_linux_t.Thread.{Context, entry, saved, in_join}
use operating_system_linux_t.Queue.Lookup.{any_item}
use operating_system_linux_t.Machine.{Machine, after}
use operating_system_linux_t.Scheduler.{returned, running}
use operating_system_linux_t.Scheduler.Switch.{can_run, can_save}
use operating_system_linux_t.Samples.Counter.Worker.{Going, Ready, Active, Kept}
use operating_system_linux_t.Samples.Counter.Workers.{
  Distinct, AllEntry, AllEntry-Kept, more, total, total-length, Counted, workers-Counted,
}
use operating_system_linux_t.Samples.Counter.Drive.{main_from, drive, count_threads}
use operating_system_linux_t.Samples.Counter.Main.{main_from-ends}
use operating_system_linux_t.Samples.Counter.Wait.{
  Parks, parked-Kept, parked-Ready, main_from-Parks,
}

out_of_last :
    (u b main : ℕ) (ws : Cells)
    → any_item (λ v. v == u) ws ≡ false
    → (u == main) ≡ false
    → any_item (λ v. v == u) (ws ++ (b, main) ∷ []) ≡ false
out_of_last u b main [] out ne = ground (arith, ne)
out_of_last u b main ((a, v) ∷ ws) out ne =
    ground (arith, out_of_last u b main ws (ground (arith, out)) ne, out)

Distinct-last :
    (b main : ℕ) (ws : Cells)
    → Distinct ws
    → any_item (λ u. u == main) ws ≡ false
    → Distinct (ws ++ (b, main) ∷ [])
Distinct-last b main [] dist out = (refl, tt)
Distinct-last b main ((a, u) ∷ ws) dist out = (
  out_of_last u b main ws dist.0 (ground (arith, out)),
  Distinct-last b main ws dist.1 (ground (arith, out)),
)

more-length : (ws : Cells) (fuel : ℕ) → more ws fuel ≡ length ws + fuel
more-length [] fuel = omega arith
more-length (w ∷ ws) fuel = omega (arith, more-length ws fuel)

-- The program behind the last counting thread.
drive-ends :
    (fuel tid mutex left j c t j' : ℕ) (threads : ℕ → ℕ) (m : Machine) {m' : Machine}
    → main_from left tid j threads m ≡ ok ((returned 0, 0, j'), m')
    → drive (suc (suc fuel)) tid mutex threads left j c (running t (saved in_join)) m ≡ ok (c, m')
unfolding drive
drive-ends fuel tid mutex left j c t j' threads m run = after _ _ run refl

count_threads-from :
    (fuel n tid mutex left j : ℕ) (threads : ℕ → ℕ) (m : Machine) {t : ℕ} {y z : Context}
    {m' : Machine} {v : Run (ℕ × Machine)}
    → main_from n tid 0 threads m ≡ ok ((running t y, left, j), m')
    → y ≡ z
    → drive fuel tid mutex threads left j 0 (running t z) m' ≡ v
    → count_threads fuel n tid mutex threads m ≡ v
unfolding count_threads
count_threads-from fuel n tid mutex left j threads m {t = t} {m' = m'} run e rest =
    after _ _ run (ap (λ q. drive fuel tid mutex threads left j 0 (running t q) m') e ∙ rest)

module _ (mutex tid x k main a t : ℕ) (threads : ℕ → ℕ) (m : Machine) (ws : Cells) where
  parked-id :
      (p : Parks mutex tid x k main t (length ws) 0 threads m ws) (u : ℕ)
      → (p.state.threads u).th_id ≡ (m.threads u).th_id
  parked-id p u =
      (subst (λ ts. Kept main m.threads ts) (sym p.threads')
        (parked-Kept main (m.threads t).th_id m) u).0

  -- The counting threads behind the first join.
  parked-Counted :
      (fuel r g : ℕ)
      → (p : Parks mutex tid x k main t (length ws) 0 threads m ws) → (m.threads t).ctx ≡ entry r g
      → Active m.threads ws
      → Distinct ((a, t) ∷ ws)
      → AllEntry m.threads ws
      → any_item (λ u. u == main) ((a, t) ∷ ws) ≡ false
      → suc (length ws) < 2 ^ 31
      → Counted mutex tid x k m.nodes.fresh main (length ws) 1 threads fuel t r g 0 p.state ws
  parked-Counted fuel r g p e act dist all out small =
      let kept =
        subst (λ ts. Kept main m.threads ts) (sym p.threads')
          (parked-Kept main (m.threads t).th_id m) in
      let e' = (kept t).1 (ground (arith, out)) ∙ e in
      workers-Counted mutex tid x k m.nodes.fresh main (length ws) 1 threads ws fuel t r g 0 p.state
        p.going (ap can_save e') (out_of_last t m.nodes.fresh main ws dist.0 (ground (arith, out)))
        (Distinct-last m.nodes.fresh main ws dist.1 (ground (arith, out)))
        (subst (λ i. Ready p.state.threads i (ws ++ (m.nodes.fresh, main) ∷ [])) (sym (kept t).0)
          (subst (λ ts. Ready ts (m.threads t).th_id (ws ++ (m.nodes.fresh, main) ∷ []))
            (sym p.threads')
            (parked-Ready main (m.threads t).th_id m.nodes.fresh m ws act (ground (arith, out)))))
        (AllEntry-Kept main m.threads p.state.threads ws [] kept
          (subst (λ xs. any_item (λ u. u == main) xs ≡ false) (sym (append-nil ws))
            (ground (arith, out)))
          all)
        (subst (λ ts. (ts main).ctx ≡ saved in_join) (sym p.threads') (ground arith))
        (omega (arith, small))

  -- When the only kernel thread runs main, whose context can be saved, before its joins, n
  -- distinct counting threads other than main are queued, active and not yet started, the first
  -- join is of the first of them and no later one of main's own id, and the mutex is free with
  -- nobody waiting for it, then for n below 2 ^ 31 the run to the exit of main ends, on n + 2
  -- turns of the kernel thread as fuel or more, and the counter is n.
  pub count_threads-total :
      (fuel : ℕ)
      → Going mutex tid x k main m ((a, t) ∷ ws)
      → threads 0 ≡ t
      → ((i : ℕ)
          → 1 ≤ i
          → i < suc (length ws)
          → ((m.threads main).th_id == (m.threads (threads i)).th_id) ≡ false)
      → can_save (m.threads main).ctx ≡ true
      → Active m.threads ((a, t) ∷ ws)
      → Distinct ((a, t) ∷ ws)
      → AllEntry m.threads ((a, t) ∷ ws)
      → any_item (λ u. u == main) ((a, t) ∷ ws) ≡ false
      → suc (length ws) < 2 ^ 31
      → (m' : Machine) × (count_threads
            (suc (length ws + suc (suc fuel)))
            (suc (length ws))
            tid
            mutex
            threads
            m
          ≡ ok (suc (length ws), m'))
  count_threads-total fuel going at ids save act dist ((r, g, e), all) out small =
      let p =
        main_from-Parks mutex tid x k main a t (length ws) 0 threads m ws going at save
          (ap can_run e) act out small in
      let c = parked-Counted (suc (suc fuel)) r g p e act.1 dist all out small in
      let kept = parked-id p in
      let (m', j', run) =
        main_from-ends mutex tid x k main (length ws) 1 threads c.state c.going
          (ap can_save c.place)
          (λ i le lt.
            rw (c.ids main, c.ids (threads i), kept main, kept (threads i))
              (ids i (omega (arith, le)) (omega (arith, lt)))) in
      (
        m',
        count_threads-from (suc (length ws + suc (suc fuel))) (suc (length ws)) tid mutex
            (length ws) 1 threads m p.runs e
            (ap
                (λ f.
                  drive (suc f) tid mutex threads (length ws) 1 0 (running t (entry r g)) p.state)
                (sym (more-length ws (suc (suc fuel))))
              ∙ c.runs
              ∙ drive-ends fuel tid mutex (length ws) 1 (total 0 ws) main j' threads c.state run
              ∙ ap (λ n. ok (n, m')) (total-length 0 ws ∙ omega arith)),
      )
