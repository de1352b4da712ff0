-- ===== src/Sort/Inversions.antt =====
-- The exchanges of `fnsort` in pthreads/mtsort.c, in any order in which its threads make them, and
-- the pairs of the array that stand in the wrong order.
use operating_system_linux_t.Common.{
  ℕ, zero, suc, ◌+◌, ◌≤◌, ◌<◌, ◌≡◌, refl, ◌∙◌, Bool, inl, inr, List, [], ◌∷◌, if◌then◌else◌, ltb,
  length, length-set, set, get_or, Bool-cases, arith,
}
use operating_system_linux_t.Sort.{compare_swap}
use operating_system_linux_t.Sort.Swap.{swap_behind, occurrences, compare_swap-occurrences}

-- How many numbers of the list are below `v`.
abbrev pub smaller : ℕ → List ℕ → ℕ
smaller v [] = 0
smaller v (x ∷ xs) = (if ltb x v then 1 else 0) + smaller v xs

-- The pairs that stand in the wrong order.
abbrev pub inversions : List ℕ → ℕ
inversions [] = 0
inversions (x ∷ xs) = smaller x xs + inversions xs

-- The exchange at the element has something to do.
abbrev pub effective : ℕ → List ℕ → Bool
effective i num = ltb (get_or num (suc i) 0) (get_or num i 0)

-- The array after exchanges at these elements, and how many of them changed it.
abbrev pub run_swaps : List ℕ → List ℕ → List ℕ
run_swaps [] num = num
run_swaps (i ∷ is) num = run_swaps is (compare_swap i num)

abbrev pub moves : List ℕ → List ℕ → ℕ
moves [] num = 0
moves (i ∷ is) num = (if effective i num then 1 else 0) + moves is (compare_swap i num)

-- Every exchange is at an element that has a right neighbour in an array of `n` elements.
abbrev pub Inside : ℕ → List ℕ → Type 0
Inside n [] = Unit
Inside n (i ∷ is) = (suc i < n) × Inside n is

smaller-swap :
    (v i : ℕ) (num : List ℕ) → suc i < length num → smaller v (compare_swap i num) ≡ smaller v num
unfolding compare_swap
smaller-swap v i [] h = absurd (omega (arith, h))
smaller-swap v i (x ∷ []) h = absurd (omega (arith, h))
smaller-swap v zero (x ∷ y ∷ xs) h = ground arith
smaller-swap v (suc i) (x ∷ y ∷ xs) h =
    rw (swap_behind i x (y ∷ xs), smaller-swap v i (y ∷ xs) (omega (arith, h))) refl

-- An exchange that changes the array takes one inversion away.
inversions-swap :
    (i : ℕ) (num : List ℕ)
    → suc i < length num
    → inversions num ≡ (if effective i num then 1 else 0) + inversions (compare_swap i num)
unfolding compare_swap
inversions-swap i [] h = absurd (omega (arith, h))
inversions-swap i (x ∷ []) h = absurd (omega (arith, h))
inversions-swap zero (x ∷ y ∷ xs) h = ground arith
inversions-swap (suc i) (x ∷ y ∷ xs) h =
    let inside : suc i < length (y ∷ xs) = omega (arith, h) in
    rw (swap_behind i x (y ∷ xs))
      (omega (arith, smaller-swap x i (y ∷ xs) inside, inversions-swap i (y ∷ xs) inside))

pub length-compare_swap : (i : ℕ) (num : List ℕ) → length (compare_swap i num) ≡ length num
unfolding compare_swap
length-compare_swap i num = elim (Bool-cases (ltb (get_or num (suc i) 0) (get_or num i 0))) [
  | inl lt ↦ rw lt (
      length-set (set num i (get_or num (suc i) 0)) (suc i) (get_or num i 0)
      ∙ length-set num i (get_or num (suc i) 0))
  | inr ge ↦ rw ge refl
]

-- Exchanges in any order take away exactly one inversion for each change they make.
pub inversions-run_swaps :
    (is num : List ℕ)
    → Inside (length num) is
    → inversions num ≡ moves is num + inversions (run_swaps is num)
inversions-run_swaps [] num h = omega arith
inversions-run_swaps (i ∷ is) num h = omega (
  arith,
  inversions-swap i num h.0,
  inversions-run_swaps is (compare_swap i num) (rw (length-compare_swap i num) h.1),
)

-- `n * (n - 1) / 2`
abbrev pub pairs : ℕ → ℕ
pairs zero = 0
pairs (suc n) = n + pairs n

smaller-length : (v : ℕ) (xs : List ℕ) → smaller v xs ≤ length xs
smaller-length v [] = omega arith
smaller-length v (x ∷ xs) = ground (arith, smaller-length v xs)

pub inversions-pairs : (xs : List ℕ) → inversions xs ≤ pairs (length xs)
inversions-pairs [] = omega arith
inversions-pairs (x ∷ xs) = omega (arith, smaller-length x xs, inversions-pairs xs)

-- In any order, exchanges inside an array of `n` elements change it at most `n (n - 1) / 2` times.
pub moves-pairs : (is num : List ℕ) → Inside (length num) is → moves is num ≤ pairs (length num)
moves-pairs is num h = omega (arith, inversions-run_swaps is num h, inversions-pairs num)

-- Exchanges inside the array, at any elements in any order, keep every number as often as it was.
pub run_swaps-occurrences :
    (v : ℕ) (is num : List ℕ)
    → Inside (length num) is
    → occurrences v (run_swaps is num) ≡ occurrences v num
run_swaps-occurrences v [] num h = refl
run_swaps-occurrences v (i ∷ is) num h =
    run_swaps-occurrences v is (compare_swap i num) (rw (length-compare_swap i num) h.1)
    ∙ compare_swap-occurrences v i num h.0
