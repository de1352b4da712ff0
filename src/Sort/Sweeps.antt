-- ===== src/Sort/Sweeps.antt =====
-- Sweeps of the threads of pthreads/mtsort.c: a stretch of the run in which every sorting thread gets
-- through its exchange at least once, in any order.
use operating_system_linux_t.Common.{
  ℕ, zero, suc, ◌-◌, ◌≤◌, ◌<◌, ◌≡◌, refl, sym, ap, subst, ◌∙◌, Bool, true, false, inl, inr, List,
  [], ◌∷◌, ◌==◌, ==_iff, ◌||◌, ◌⊎◌, ◌↔◌, length, Bool-cases, arith,
}
use operating_system_linux_t.Sort.{compare_swap, check_from, initial}
use operating_system_linux_t.Sort.Swap.{Ascending, compare_swap-Ascending, check_from-Ascending}
use operating_system_linux_t.Sort.Inversions.{
  pairs, smaller, inversions, effective, run_swaps, moves, Inside, inversions-pairs,
  length-compare_swap, inversions-run_swaps,
}

abbrev pub elem : ℕ → List ℕ → Bool
elem i [] = false
elem i (j ∷ js) = (j == i) || elem i js

-- A sweep over an array of `n` elements.
abbrev pub Sweep : ℕ → List ℕ → Type 0
Sweep n is = Inside n is × ((i : ℕ) → suc i < n → elem i is ≡ true)

abbrev pub Sweeps : ℕ → List (List ℕ) → Type 0
Sweeps n [] = Unit
Sweeps n (is ∷ ss) = Sweep n is × Sweeps n ss

abbrev pub run_sweeps : List (List ℕ) → List ℕ → List ℕ
run_sweeps [] num = num
run_sweeps (is ∷ ss) num = run_sweeps ss (run_swaps is num)

idle_swap : (i : ℕ) (num : List ℕ) → effective i num ≡ false → compare_swap i num ≡ num
unfolding compare_swap
idle_swap i num h = rw h

-- Exchanges that change nothing.
moves-idle :
    (is num : List ℕ)
    → moves is num ≡ 0
    → (run_swaps is num ≡ num) × ((i : ℕ) → elem i is ≡ true → compare_swap i num ≡ num)
moves-idle [] num h = (refl, λ i e. absurd (ground arith))
moves-idle (j ∷ is) num h =
    let off : effective j num ≡ false = ground arith in
    let still = idle_swap j num off in
    let (run, all) = moves-idle is num (subst (λ l. moves is l ≡ 0) still (omega (arith, h))) in
    (
      rw still run,
      λ i e. elim (Bool-cases (j == i)) [
        | inl same ↦ subst (λ n. compare_swap n num ≡ num) ((==_iff j i).0 same) still
        | inr other ↦ all i (ground arith)
      ],
    )

length-run_swaps : (is num : List ℕ) → length (run_swaps is num) ≡ length num
length-run_swaps [] num = refl
length-run_swaps (i ∷ is) num = length-run_swaps is (compare_swap i num) ∙ length-compare_swap i num

smaller-none : (x : ℕ) (xs : List ℕ) → Ascending (x ∷ xs) → (v : ℕ) → v ≤ x → smaller v xs ≡ 0
smaller-none x [] asc v le = refl
smaller-none x (y ∷ xs) asc v le =
    ground (arith, smaller-none y xs asc.1 v (omega (arith, le, asc.0)))

inversions-Ascending : (x : ℕ) (xs : List ℕ) → Ascending (x ∷ xs) → inversions (x ∷ xs) ≡ 0
inversions-Ascending x [] asc = omega arith
inversions-Ascending x (y ∷ xs) asc =
    omega (arith, smaller-none x (y ∷ xs) asc x (omega arith), inversions-Ascending y xs asc.1)

sorted-no_inversions : (x : ℕ) (xs : List ℕ) → inversions (x ∷ xs) ≡ 0 → Ascending (x ∷ xs)
sorted-no_inversions x [] h = tt
sorted-no_inversions x (y ∷ xs) h = (ground arith, sorted-no_inversions y xs (omega (arith, h)))

-- A sweep takes an inversion away, or there is none and it changes nothing.
Sweep-cases :
    (is num : List ℕ)
    → Sweep (length num) is
    → (inversions (run_swaps is num) < inversions num)
      ⊎ ((inversions num ≡ 0) × (run_swaps is num ≡ num))
Sweep-cases [] [] sw = inr (refl, refl)
Sweep-cases (i ∷ is) [] sw = absurd (omega (arith, sw.0.0))
Sweep-cases is (x ∷ xs) (inside, all) =
    let count = inversions-run_swaps is (x ∷ xs) inside in
    elim (Bool-cases (moves is (x ∷ xs) == 0)) [
      | inl zero' ↦
          let (same, still) = moves-idle is (x ∷ xs) ((==_iff (moves is (x ∷ xs)) 0).0 zero') in
          inr (
            inversions-Ascending x xs
                (compare_swap-Ascending x xs (λ i h. still i (all i (omega (arith, h))))),
            same,
          )
      | inr some' ↦ inl (ground (arith, count))
    ]

length-initial : (n size : ℕ) → length (initial n size) ≡ n
unfolding initial
length-initial zero size = refl
length-initial (suc n) size = omega (arith, length-initial n size)

smaller-initial : (n size v : ℕ) → n ≤ size → n < v → smaller v (initial n size) ≡ n
unfolding initial
smaller-initial zero size v le lt = refl
smaller-initial (suc n) size v le lt =
    ground (arith, smaller-initial n size v (omega arith) (omega arith))

inversions-initial : (n size : ℕ) → n ≤ size → inversions (initial n size) ≡ pairs n
unfolding initial
inversions-initial zero size le = refl
inversions-initial (suc n) size le = omega (
  arith,
  smaller-initial n size (size - (size - suc n)) (omega arith) (omega arith),
  inversions-initial n size (omega arith),
)

no_inversions-check :
    (num : List ℕ) → inversions num ≡ 0 → Ascending num × (check_from (length num - 1) 0 num ≡ true)
unfolding check_from
no_inversions-check [] h = (tt, refl)
no_inversions-check (x ∷ xs) h =
    let asc = sorted-no_inversions x xs h in
    (
      asc,
      subst (λ n. check_from n 0 (x ∷ xs) ≡ true) (omega arith) ((check_from-Ascending x xs).1 asc),
    )

-- Enough sweeps leave no inversion.
Sweeps-none :
    (ss : List (List ℕ)) (num : List ℕ)
    → Sweeps (length num) ss
    → inversions num ≤ length ss
    → (inversions (run_sweeps ss num) ≡ 0) × (length (run_sweeps ss num) ≡ length num)
Sweeps-none [] num sw h = (omega (arith, h), refl)
Sweeps-none (is ∷ ss) num sw h =
    let len = length-run_swaps is num in
    let sw' : Sweeps (length (run_swaps is num)) ss = subst (λ n. Sweeps n ss) (sym len) sw.1 in
    elim (Sweep-cases is num sw.0) [
      | inl less ↦
          let (done, len') = Sweeps-none ss (run_swaps is num) sw' (omega (arith, less, h)) in
          (done, len' ∙ len)
      | inr (sorted, same) ↦
          let (done, len') =
            Sweeps-none ss (run_swaps is num) sw' (omega (arith, sorted, h, ap inversions same)) in
          (done, len' ∙ len)
    ]

-- Whatever the array of n elements, after n (n - 1) / 2 sweeps one behind the other, in each of
-- which every sorting thread gets through its exchange at least once, in any order, the array
-- ascends, and the check of fncheck passes.
pub Sweeps-sorted :
    (ss : List (List ℕ)) (num : List ℕ)
    → Sweeps (length num) ss
    → pairs (length num) ≤ length ss
    → Ascending (run_sweeps ss num) × (check_from (length num - 1) 0 (run_sweeps ss num) ≡ true)
Sweeps-sorted ss num sw h =
    let (done, len) = Sweeps-none ss num sw (omega (arith, inversions-pairs num, h)) in
    let (asc, check) = no_inversions-check (run_sweeps ss num) done in
    (asc, subst (λ n. check_from (n - 1) 0 (run_sweeps ss num) ≡ true) len check)

-- The threads change the array that `main` fills at most `n (n - 1) / 2` times, in any order, and
-- exactly that many times when it ends up without an inversion.
pub moves-initial :
    (is : List ℕ) (n : ℕ)
    → Inside n is
    → (moves is (initial n n) ≤ pairs n)
      × ((inversions (run_swaps is (initial n n)) ≡ 0) ↔ (moves is (initial n n) ≡ pairs n))
moves-initial is n inside =
    let count =
      inversions-run_swaps is (initial n n)
        (subst (λ k. Inside k is) (sym (length-initial n n)) inside) in
    let all = inversions-initial n n (omega arith) in
    (
      omega (arith, count, all),
      ((λ h. omega (arith, count, all, h)), (λ h. omega (arith, count, all, h))),
    )
