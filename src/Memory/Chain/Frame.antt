-- ===== src/Memory/Chain/Frame.antt =====
-- Chains under changes elsewhere, and the facts that membership and the bound give.
use operating_system_linux_t.Common.{
  ℕ, ◌≤◌, ◌≡◌, refl, true, false, ◌||◌, none, some, [], ◌∷◌, ◌++◌, ◌==◌, ◌∙◌, arith, ==_self,
  Bool-cases, inl, inr,
}
use operating_system_linux_t.Memory.{Ptr, node, Heap}
use operating_system_linux_t.Memory.Chain.Defs.{
  Cells, Table, has, last, Chain, Below, SameAt, Linked,
}

pub Chain-frame : {c d : Table} (p : Ptr) (xs : Cells) → SameAt xs c d → Chain c p xs → Chain d p xs
Chain-frame p [] same ch = tt
Chain-frame p ((a, t) ∷ xs) same ch = (
  ground (arith, same a, ==_self a),
  ch.1,
  Chain-frame (some a) xs (λ x i. ground (arith, same x)) ch.2,
)

-- An address that malloc has not given is not in the list.
pub not-has_of_Below : {n : ℕ} (x : ℕ) (xs : Cells) → Below n xs → n ≤ x → has x xs ≡ false
not-has_of_Below x [] b h = refl
not-has_of_Below x ((a, t) ∷ xs) b h = ground (arith, not-has_of_Below x xs b.1 h)

pub Below-mono : {n m : ℕ} (xs : Cells) → Below n xs → n ≤ m → Below m xs
Below-mono [] b h = tt
Below-mono ((a, t) ∷ xs) b h = (omega arith, Below-mono xs b.1 h)

pub has-append : (x : ℕ) (xs ys : Cells) → has x (xs ++ ys) ≡ (has x xs || has x ys)
has-append x [] ys = refl
has-append x ((a, t) ∷ xs) ys = ground (arith, has-append x xs ys)

pub Below-append : (n : ℕ) (xs ys : Cells) → Below n xs → Below n ys → Below n (xs ++ ys)
Below-append n [] ys b b' = b'
Below-append n ((a, t) ∷ xs) ys b b' = (b.0, Below-append n xs ys b.1 b')

-- An appended node is met last.
pub has-snoc : (x n d : ℕ) (xs : Cells) → has x (xs ++ (n, d) ∷ []) ≡ (has x xs || (n == x))
has-snoc x n d [] = ground arith
has-snoc x n d ((a, t) ∷ xs) = ground (arith, has-snoc x n d xs)

pub not-has-snoc :
    (x n d : ℕ) (xs : Cells)
    → has x xs ≡ false
    → (n == x) ≡ false
    → has x (xs ++ (n, d) ∷ []) ≡ false
not-has-snoc x n d xs o ne = has-snoc x n d xs ∙ ground arith

pub has_parts-snoc :
    (x n d : ℕ) (xs : Cells)
    → has x (xs ++ (n, d) ∷ []) ≡ false
    → (has x xs ≡ false) × ((n == x) ≡ false)
has_parts-snoc x n d [] o = ground arith
has_parts-snoc x n d ((a, t) ∷ xs) o = ground (arith, has_parts-snoc x n d xs)

-- What is not in a list is not its last address.
pub last-ne : (x a t : ℕ) (xs : Cells) → has x ((a, t) ∷ xs) ≡ false → (last a xs == x) ≡ false
last-ne x a t [] o = ground arith
last-ne x a t ((b, u) ∷ xs) o = last-ne x b u xs (ground arith)

pub last-append : (a b u : ℕ) (xs : Cells) → last a (xs ++ (b, u) ∷ []) ≡ b
last-append a b u [] = refl
last-append a b u ((c, v) ∷ xs) = last-append c b u xs

-- The last node of a chain is live, and its `next` is NULL.
pub Chain-last :
    (c : Table) (p : Ptr) (a t : ℕ) (xs : Cells)
    → Chain c p ((a, t) ∷ xs)
    → (q : Ptr) × (u : ℕ) × (c (last a xs) ≡ some (node q u none))
Chain-last c p a t [] ch = (p, t, ch.0)
Chain-last c p a t ((b, u) ∷ xs) ch = Chain-last c (some a) b u xs ch.2

-- Two addresses differ if one is in a list and the other is not.
pub ne_of_has : (x y : ℕ) (xs : Cells) → has x xs ≡ true → has y xs ≡ false → (y == x) ≡ false
ne_of_has x y [] h k = cc
ne_of_has x y ((a, t) ∷ xs) h k = ground (arith, ne_of_has x y xs)

pub Linked-frame :
    (p : Ptr) (h h' : Heap ℕ) (head : Ptr) (xs : Cells)
    → Linked p h head xs
    → SameAt xs h.cells h'.cells
    → h.fresh ≤ h'.fresh
    → Linked p h' head xs
Linked-frame p h h' head xs l same le = record {
  starts = l.starts;
  chain = Chain-frame p xs same l.chain;
  below = Below-mono xs l.below le;
  few = omega (arith, l.few);
}

-- Two lists share no node.
abbrev pub Disjoint : Cells → Cells → Type 0
Disjoint xs ys = (x : ℕ) → has x xs ≡ true → has x ys ≡ false

-- An address in a list that lies below a bound is not the bound, nor above it.
pub ne_of_Below :
    {n : ℕ} (x m : ℕ) (xs : Cells) → Below n xs → n ≤ m → has x xs ≡ true → (m == x) ≡ false
ne_of_Below x m xs b le i = ne_of_has x m xs i (not-has_of_Below m xs b le)

-- A list stays apart from another one that gets a new node.
pub Disjoint-snoc :
    {n : ℕ} (m d : ℕ) (xs ys : Cells)
    → Disjoint xs ys
    → Below n xs
    → n ≤ m
    → Disjoint xs (ys ++ (m, d) ∷ [])
Disjoint-snoc m d xs ys apart b le x i =
    not-has-snoc x m d ys (apart x i) (ne_of_Below x m xs b le i)

pub Disjoint-sym : (xs ys : Cells) → Disjoint xs ys → Disjoint ys xs
Disjoint-sym xs ys apart x i = elim (Bool-cases (has x xs)) [
  | inl old ↦ cc (apart x old)
  | inr new ↦ new
]
