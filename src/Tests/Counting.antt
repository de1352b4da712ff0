-- ===== src/Tests/Counting.antt =====
-- pthreads/mypthread_sample4.c with its ten threads, five threads under KLMATCHCORES, and a run of server/example_thread.c.
use operating_system_linux_t.Common.{
  ℕ, List, Bool, true, ◌≤◌, ◌+◌, none, ◌≡◌, refl, false, [], ◌∷◌, arith,
}
use operating_system_linux_t.Memory.{ok}
use operating_system_linux_t.Machine.{Machine}
use operating_system_linux_t.Samples.Counter.Creates.{Handles}
use operating_system_linux_t.Samples.Counter.Drive.{run_many}
use operating_system_linux_t.Samples.Counter.Program.{run_many-total}
use operating_system_linux_t.Pingpong.{created, run}
use operating_system_linux_t.Pingpong.Runs.{goes_on, exits_well, run-goes_on}
use operating_system_linux_t.Tests.Setup.{unused, unused-Lists}

abbrev handles : ℕ → ℕ
handles i = i + 10

handles-Handles : Handles 10 handles
handles-Handles = record {
  apart = λ i j lt small. ground (arith, lt);
  others = λ j small. ground arith;
}

run_many-total_example :
    (m' : Machine) × (run_many 12 10 0 4 2 100 5 1 handles (λ i. none) unused ≡ ok (10, m'))
run_many-total_example =
    run_many-total 1 100 5 10 handles 0 4 2 (λ i. none) unused (omega arith) (omega arith)
      handles-Handles refl refl unused-Lists

-- The second thread starts while the first one holds the mutex.
abbrev turns : List Bool
turns = true ∷ true ∷ false ∷ true ∷ false ∷ true ∷ true ∷ false ∷ []

run-goes_on_example :
    (goes_on (run turns created).0 ≡ true)
    × (exits_well (run turns created).0 ≡ true)
    × ((run turns created).1 ≤ 56)
run-goes_on_example = run-goes_on turns
