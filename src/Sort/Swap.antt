-- ===== src/Sort/Swap.antt =====
-- The exchange of `fnsort` and the check of `fncheck` in pthreads/mtsort.c, on the array.
use operating_system_linux_t.Common.{
  ℕ, zero, suc, ◌+◌, ◌≤◌, ◌<◌, ◌≡◌, refl, sym, ◌∙◌, Bool, true, false, ◌↔◌, List, [], ◌∷◌, ◌==◌,
  if◌then◌else◌, ltb, length, get_or, Bool-cases, inl, inr, arith,
}
use operating_system_linux_t.Sort.{compare_swap, check_from}

-- How often `v` stands in the list.
abbrev pub occurrences : ℕ → List ℕ → ℕ
occurrences v [] = 0
occurrences v (x ∷ xs) = (if x == v then 1 else 0) + occurrences v xs

-- Every element is at most its right neighbour.
abbrev pub Ascending : List ℕ → Type 0
Ascending [] = Unit
Ascending (x ∷ []) = Unit
Ascending (x ∷ y ∷ xs) = (x ≤ y) × Ascending (y ∷ xs)

swap_here :
    (v x y : ℕ) (xs : List ℕ)
    → occurrences v (compare_swap 0 (x ∷ y ∷ xs)) ≡ occurrences v (x ∷ y ∷ xs)
unfolding compare_swap
swap_here v x y xs = ground arith

pub swap_behind : (i x : ℕ) (xs : List ℕ) → compare_swap (suc i) (x ∷ xs) ≡ x ∷ compare_swap i xs
unfolding compare_swap
swap_behind i x xs = elim (Bool-cases (ltb (get_or xs (suc i) 0) (get_or xs i 0))) [
  | inl lt ↦ rw lt refl
  | inr ge ↦ rw ge refl
]

-- An exchange inside the array keeps every number as often as it was.
pub compare_swap-occurrences :
    (v i : ℕ) (num : List ℕ)
    → suc i < length num
    → occurrences v (compare_swap i num) ≡ occurrences v num
compare_swap-occurrences v i [] h = absurd (omega (arith, h))
compare_swap-occurrences v i (x ∷ []) h = absurd (omega (arith, h))
compare_swap-occurrences v zero (x ∷ y ∷ xs) h = swap_here v x y xs
compare_swap-occurrences v (suc i) (x ∷ y ∷ xs) h =
    rw (swap_behind i x (y ∷ xs), compare_swap-occurrences v i (y ∷ xs) (omega (arith, h))) refl

check-behind : (n i x : ℕ) (xs : List ℕ) → check_from n (suc i) (x ∷ xs) ≡ check_from n i xs
unfolding check_from
check-behind zero i x xs = refl
check-behind (suc n) i x xs = rw (check-behind n (suc i) x xs) refl

check_suc :
    (n x y : ℕ) (xs : List ℕ)
    → check_from (suc n) 0 (x ∷ y ∷ xs) ≡ (if ltb y x then false else check_from n 0 (y ∷ xs))
unfolding check_from
check_suc n x y xs = rw (check-behind n 0 x (y ∷ xs)) refl

-- The two tests that a check passes.
both_pass : (x y : ℕ) (c : Bool) → (if ltb y x then false else c) ≡ true → (x ≤ y) × (c ≡ true)
both_pass x y c h = ground arith

pass_both : (x y : ℕ) (c : Bool) → x ≤ y → c ≡ true → (if ltb y x then false else c) ≡ true
pass_both x y c le h = ground arith

-- The check of `fncheck` over the whole array says whether it ascends.
pub check_from-Ascending :
    (x : ℕ) (xs : List ℕ) → (check_from (length xs) 0 (x ∷ xs) ≡ true) ↔ Ascending (x ∷ xs)
unfolding check_from
check_from-Ascending x [] = ((λ h. tt), (λ h. refl))
check_from-Ascending x (y ∷ xs) =
    let rest = check_from-Ascending y xs in
    (
      (λ h.
          let (le, more) =
            both_pass x y (check_from (length xs) 0 (y ∷ xs))
              (sym (check_suc (length xs) x y xs) ∙ h) in
          (le, rest.0 more)),
      (λ h.
          check_suc (length xs) x y xs
          ∙ pass_both x y (check_from (length xs) 0 (y ∷ xs)) h.0 (rest.1 h.1)),
    )

still_head : (x y : ℕ) (xs : List ℕ) → compare_swap 0 (x ∷ y ∷ xs) ≡ x ∷ y ∷ xs → x ≤ y
unfolding compare_swap
still_head x y xs h = ground arith

same_tail : (x : ℕ) (xs ys : List ℕ) → x ∷ xs ≡ x ∷ ys → xs ≡ ys
same_tail x xs ys e = cc

-- When no exchange inside the array changes it any more, it ascends.
pub compare_swap-Ascending :
    (x : ℕ) (xs : List ℕ)
    → ((i : ℕ) → i < length xs → compare_swap i (x ∷ xs) ≡ x ∷ xs)
    → Ascending (x ∷ xs)
compare_swap-Ascending x [] still = tt
compare_swap-Ascending x (y ∷ xs) still = (
  still_head x y xs (still 0 (omega arith)),
  compare_swap-Ascending y xs (λ i h.
      same_tail x (compare_swap i (y ∷ xs)) (y ∷ xs)
        (sym (swap_behind i x (y ∷ xs)) ∙ still (suc i) (omega (arith, h)))),
)
