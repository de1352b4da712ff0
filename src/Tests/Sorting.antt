-- ===== src/Tests/Sorting.antt =====
-- Runs of the exchanges of pthreads/mtsort.c.
use operating_system_linux_t.Common.{
  ℕ, zero, suc, ◌≡◌, ◌≤◌, ◌<◌, ◌-◌, ◌↔◌, refl, true, List, [], ◌∷◌, length, arith,
}
use operating_system_linux_t.Sort
use operating_system_linux_t.Sort.Swap.{occurrences, Ascending}
use operating_system_linux_t.Sort.Inversions.{
  pairs, inversions, run_swaps, moves, run_swaps-occurrences,
}
use operating_system_linux_t.Sort.Sweeps.{Sweep, elem, run_sweeps, Sweeps-sorted, moves-initial}

-- Three elements: the second thread gets through before the first, then the first twice.
abbrev numbers : List ℕ
numbers = 5 ∷ 3 ∷ 1 ∷ []

abbrev sweep : List ℕ
sweep = 1 ∷ 0 ∷ 0 ∷ []

sweep-covers : (i : ℕ) → suc i < 3 → elem i sweep ≡ true
sweep-covers zero h = refl
sweep-covers (suc zero) h = refl
sweep-covers (suc (suc i)) h = absurd (omega (arith, h))

sweep-Sweep : Sweep 3 sweep
sweep-Sweep = ((omega arith, (omega arith, (omega arith, tt))), sweep-covers)

abbrev three_sweeps : List (List ℕ)
three_sweeps = sweep ∷ sweep ∷ sweep ∷ []

Sweeps-sorted_example :
    Ascending (run_sweeps three_sweeps numbers)
    × (Sort.check_from (length numbers - 1) 0 (run_sweeps three_sweeps numbers) ≡ true)
Sweeps-sorted_example =
    Sweeps-sorted three_sweeps numbers (sweep-Sweep, (sweep-Sweep, (sweep-Sweep, tt))) (omega arith)

run_swaps-occurrences_example : occurrences 3 (run_swaps sweep numbers) ≡ occurrences 3 numbers
run_swaps-occurrences_example =
    run_swaps-occurrences 3 sweep numbers (omega arith, (omega arith, (omega arith, tt)))

moves-initial_example :
    (moves sweep (Sort.initial 3 3) ≤ pairs 3)
    × ((inversions (run_swaps sweep (Sort.initial 3 3)) ≡ 0)
        ↔ (moves sweep (Sort.initial 3 3) ≡ pairs 3))
moves-initial_example = moves-initial sweep 3 (omega arith, (omega arith, (omega arith, tt)))
