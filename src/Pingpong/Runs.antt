-- ===== src/Pingpong/Runs.antt =====
-- The runs of server/example_thread.c, whatever the order in which the system picks the threads.
use operating_system_linux_t.Common.{
  ℕ, zero, suc, ◌+◌, ◌≤◌, ◌≡◌, refl, Bool, true, false, ◌||◌, ◌&&◌, Option, none, some, List, [],
  ◌∷◌, if◌then◌else◌, arith,
}
use operating_system_linux_t.Pingpong.{
  Pc, born, count_in, last_signal, dead, State, created, step, main_exits, run,
}

-- The thread has ended.
abbrev is_dead : Pc → Bool
is_dead dead = true
is_dead _ = false

-- The thread has not counted itself in.
abbrev is_born : Pc → Bool
is_born born = true
is_born (count_in read) = true
is_born _ = false

-- The thread has counted itself out.
abbrev has_left : Pc → Bool
has_left dead = true
has_left last_signal = true
has_left _ = false

abbrev is_some : Option State → Bool
is_some none = false
is_some (some s) = true

-- Both threads have ended, or one of them can go on.
abbrev pub goes_on : State → Bool
goes_on s = (is_dead s.t1 && is_dead s.t2) || (is_some (step true s) || is_some (step false s))

-- If `main` ends the program, then neither thread has counted itself in, or one has counted itself out.
abbrev pub exits_well : State → Bool
exits_well s =
    if main_exits s
    then (is_born s.t1 && is_born s.t2) || (has_left s.t1 || has_left s.t2)
    else true

-- Every run from the state makes fewer steps than the fuel, through good states only.
safe : ℕ → State → Bool
unfolding step main_exits
safe zero s = false
safe (suc n) s =
    (goes_on s && exits_well s)
    && (elim (step true s) [ none ↦ true | some s' ↦ safe n s' ]
        && elim (step false s) [ none ↦ true | some s' ↦ safe n s' ])

created-safe : safe 57 created ≡ true
unfolding safe step main_exits
created-safe = refl

safe-good : (n : ℕ) (s : State) → safe n s ≡ true → (goes_on s ≡ true) × (exits_well s ≡ true)
unfolding safe
safe-good zero s h = absurd (ground (arith, h))
safe-good (suc n) s h = (ground (arith, h), ground (arith, h))

both_next : (a b c : Bool) → (a && (b && c)) ≡ true → (b ≡ true) × (c ≡ true)
both_next a b c h = (ground (arith, h), ground (arith, h))

safe-step :
    (n : ℕ) (w : Bool) (s s' : State)
    → step w s ≡ some s'
    → safe (suc n) s ≡ true
    → safe n s' ≡ true
unfolding safe
safe-step n true s s' e h =
    let g =
      both_next (goes_on s && exits_well s)
        (elim (step true s) [ none ↦ true | some s'' ↦ safe n s'' ])
        (elim (step false s) [ none ↦ true | some s'' ↦ safe n s'' ]) h in
    rw e at g.0
safe-step n false s s' e h =
    let g =
      both_next (goes_on s && exits_well s)
        (elim (step true s) [ none ↦ true | some s'' ↦ safe n s'' ])
        (elim (step false s) [ none ↦ true | some s'' ↦ safe n s'' ]) h in
    rw e at g.1

-- What a run leaves: a good state, from which the runs are as much shorter as it has made steps.
abbrev Leaves : List Bool → Type 0
Leaves ws =
    (n : ℕ) (s : State)
    → safe n s ≡ true
    → (k : ℕ) × (safe k (run ws s).0 ≡ true) × ((run ws s).1 + k ≤ n)

step-Leaves :
    (w : Bool) (ws : List Bool) (n : ℕ) (s : State) (o : Option State)
    → Leaves ws
    → step w s ≡ o
    → safe n s ≡ true
    → (k : ℕ) × (safe k (run (w ∷ ws) s).0 ≡ true) × ((run (w ∷ ws) s).1 + k ≤ n)
unfolding safe run
step-Leaves w ws n s none rest e h = rw (e, run) (rest n s h)
step-Leaves w ws zero s (some s') rest e h = absurd (ground (arith, h))
step-Leaves w ws (suc n) s (some s') rest e h =
    let (k, good, le) = rest n s' (safe-step n w s s' e h) in
    (k, rw (e, run) good, rw (e, run) (omega (arith, le)))

run-Leaves : (ws : List Bool) → Leaves ws
unfolding run
run-Leaves [] n s h = (n, h, omega arith)
run-Leaves (w ∷ ws) n s h = step-Leaves w ws n s (step w s) (run-Leaves ws) refl h

safe-positive : (k : ℕ) (s : State) → safe k s ≡ true → 1 ≤ k
unfolding safe
safe-positive zero s h = absurd (ground (arith, h))
safe-positive (suc k) s h = omega arith

-- Whatever the order in which the system picks the two threads, also between the read and the
-- write of threads_left, and as long as nothing but a signal wakes a thread, they make at most
-- 56 steps; in every state on the way both have ended or one can go on; and main would end the
-- program only where neither has counted itself in yet or one has counted itself out.
pub run-goes_on :
    (ws : List Bool)
    → (goes_on (run ws created).0 ≡ true)
      × (exits_well (run ws created).0 ≡ true)
      × ((run ws created).1 ≤ 56)
run-goes_on ws =
    let (k, good, le) = run-Leaves ws 57 created created-safe in
    let (on, well) = safe-good k (run ws created).0 good in
    (on, well, omega (arith, le, safe-positive k (run ws created).0 good))
