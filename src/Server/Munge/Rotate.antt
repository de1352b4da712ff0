-- ===== src/Server/Munge/Rotate.antt =====
-- What the loops of `process_request` do to the bytes.
use operating_system_linux_t.Common.{
  ℕ, zero, suc, ◌+◌, ◌*◌, ◌≡◌, refl, ◌∙◌, ap, subst, List, [], ◌∷◌, arith,
}
use operating_system_linux_t.Server.Munge.{
  response_size, num_loops, fill, swap_at, pass, passes, process_request_from,
}

zero_plus : (n : ℕ) → 0 + n ≡ n
zero_plus n = omega arith

suc_plus : (m n : ℕ) → suc m + n ≡ suc (m + n)
suc_plus m n = omega arith

suc_times : (k : ℕ) → suc k * 9 ≡ 9 + k * 9
suc_times k = omega arith

abbrev pub ten : (a b c d e f g h i j : ℕ) → List ℕ
ten a b c d e f g h i j = a ∷ b ∷ c ∷ d ∷ e ∷ f ∷ g ∷ h ∷ i ∷ j ∷ []

pass-ten :
    (a b c d e f g h i j : ℕ)
    → pass response_size (ten a b c d e f g h i j) ≡ ten a c d e f g h i j b
unfolding pass swap_at
pass-ten a b c d e f g h i j = refl

fill-ten :
    (p q r s t u v w x y a b c d e f g h i j : ℕ)
    → fill response_size (ten a b c d e f g h i j) (ten p q r s t u v w x y)
      ≡ ten a b c d e f g h i j
unfolding fill
fill-ten p q r s t u v w x y a b c d e f g h i j = refl

passes-add : (m n : ℕ) (response : List ℕ) → passes (m + n) response ≡ passes n (passes m response)
unfolding passes
passes-add zero n response = rw (zero_plus n) refl
passes-add (suc m) n response = rw (suc_plus m n) (passes-add m n (pass response_size response))

-- Nine rounds bring every byte back.
passes-nine :
    (a b c d e f g h i j : ℕ) → passes 9 (ten a b c d e f g h i j) ≡ ten a b c d e f g h i j
unfolding passes pass swap_at
passes-nine a b c d e f g h i j = refl

passes-nines :
    (k : ℕ) (a b c d e f g h i j : ℕ)
    → passes (k * 9) (ten a b c d e f g h i j) ≡ ten a b c d e f g h i j
unfolding passes
passes-nines zero a b c d e f g h i j = refl
passes-nines (suc k) a b c d e f g h i j = rw (suc_times k) (
    passes-add 9 (k * 9) (ten a b c d e f g h i j)
    ∙ ap (passes (k * 9)) (passes-nine a b c d e f g h i j)
    ∙ passes-nines k a b c d e f g h i j)

passes-rest :
    (a b c d e f g h i j : ℕ) → passes 5 (ten a b c d e f g h i j) ≡ ten a g h i j b c d e f
unfolding passes pass swap_at
passes-rest a b c d e f g h i j = refl

passes-num_loops :
    (n k : ℕ) (a b c d e f g h i j : ℕ)
    → k * 9 + 5 ≡ n
    → passes n (ten a b c d e f g h i j) ≡ ten a g h i j b c d e f
passes-num_loops n k a b c d e f g h i j eq =
    subst (λ n. passes n (ten a b c d e f g h i j) ≡ ten a g h i j b c d e f) eq
      (passes-add (k * 9) 5 (ten a b c d e f g h i j)
        ∙ ap (passes 5) (passes-nines k a b c d e f g h i j)
        ∙ passes-rest a b c d e f g h i j)

-- Whatever the response buffer of ten bytes held, the answer to a request of ten bytes has the
-- request's first byte first, then its last four, then the five between.
pub process_request-rotation :
    (p q r s t u v w x y a b c d e f g h i j : ℕ)
    → process_request_from (ten p q r s t u v w x y) (ten a b c d e f g h i j)
      ≡ ten a g h i j b c d e f
unfolding process_request_from
process_request-rotation p q r s t u v w x y a b c d e f g h i j =
    ap (passes num_loops) (fill-ten p q r s t u v w x y a b c d e f g h i j)
    ∙ passes-num_loops num_loops 55555 a b c d e f g h i j refl
