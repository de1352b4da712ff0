-- ===== src/Queue/Spec/Answers.antt =====
-- What a dequeue of pthreads/queue_util.c takes, on the list of threads alone.
use operating_system_linux_t.Common.{ℕ, ◌≡◌, refl, ap, true, false, none, some, List, [], ◌∷◌, ◌++◌}
use operating_system_linux_t.Memory.Chain.{Cells}
use operating_system_linux_t.Thread.{Threads, is_active}
use operating_system_linux_t.Queue.Dequeue.{Inactive}
use operating_system_linux_t.Queue.Spec.{active, null, first_such, without_such, such_is_last}

-- The threads of a list of nodes.
abbrev pub items : Cells → List ℕ
items [] = []
items ((a, t) ∷ xs) = t ∷ items xs

pub items-append : (xs ys : Cells) → items (xs ++ ys) ≡ items xs ++ items ys
items-append [] ys = refl
items-append ((a, t) ∷ xs) ys = ap (λ l. t ∷ l) (items-append xs ys)

-- The answers where no thread is active.
pub none_such :
    (ts : Threads) (xs : Cells)
    → Inactive ts xs
    → (first_such (active ts) (items xs) ≡ none)
      × (without_such (active ts) (items xs) ≡ items xs)
      × (such_is_last (active ts) (items xs) ≡ false)
none_such ts [] ina = (refl, refl, refl)
none_such ts ((a, t) ∷ xs) ina =
    let (f, w, l) = none_such ts xs ina.1 in (rw (ina.0, f), rw (ina.0, w), rw (ina.0, l))

-- The answers where the first active thread is `t`.
pub middle_such :
    (ts : Threads) (ys : Cells) (a t : ℕ) (zs : Cells)
    → Inactive ts ys
    → is_active (ts t).state ≡ true
    → (first_such (active ts) (items (ys ++ (a, t) ∷ zs)) ≡ some t)
      × (without_such (active ts) (items (ys ++ (a, t) ∷ zs)) ≡ items (ys ++ zs))
      × (such_is_last (active ts) (items (ys ++ (a, t) ∷ zs)) ≡ null (items zs))
middle_such ts [] a t zs ina act = (rw act, rw act, rw act)
middle_such ts ((b, v) ∷ ys) a t zs ina act =
    let (f, w, l) = middle_such ts ys a t zs ina.1 act in
    (rw (ina.0, f), rw (ina.0, w), rw (ina.0, l))
