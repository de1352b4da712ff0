-- ===== src/Memory/Chain/Defs.antt =====
-- Chains of nodes that are linked both ways, as lists of addresses and items.
use operating_system_linux_t.Common.{
  ℕ, ◌≤◌, ◌<◌, ◌≡◌, Bool, true, false, ◌||◌, Option, none, some, List, [], ◌∷◌, ◌==◌, length,
}
use operating_system_linux_t.Memory.{Ptr, Node, node, Heap}

-- The nodes of a list, first to last: address and item.
abbrev pub Cells : Type 0
Cells = List (ℕ × ℕ)

abbrev pub Table : Type 0
Table = ℕ → Option (Node ℕ)

abbrev pub has : ℕ → Cells → Bool
has x [] = false
has x ((a, t) ∷ xs) = (a == x) || has x xs

abbrev pub first : Cells → Ptr
first [] = none
first ((a, t) ∷ xs) = some a

-- The address of the last node of `(a, t) ∷ xs`.
abbrev pub last : ℕ → Cells → ℕ
last a [] = a
last a ((b, t) ∷ xs) = last b xs

-- Distinct live nodes, linked both ways; the first one's `prev` is `p`, the last one's `next` is
-- NULL.
abbrev pub Chain : Table → Ptr → Cells → Type 0
Chain c p [] = Unit
Chain c p ((a, t) ∷ xs) =
    (c a ≡ some (node p t (first xs))) × (has a xs ≡ false) × Chain c (some a) xs

abbrev pub Below : ℕ → Cells → Type 0
Below n [] = Unit
Below n ((a, t) ∷ xs) = (a < n) × Below n xs

-- The tail pointer is right. It means nothing for an empty list.
abbrev pub TailIs : Ptr → Cells → Type 0
TailIs q [] = Unit
TailIs q ((a, t) ∷ xs) = q ≡ some (last a xs)

-- The nodes from the head on are `xs`, at addresses that malloc has given.
-- The first node's `prev` is `p`.
pub record Linked (p : Ptr) (h : Heap ℕ) (head : Ptr) (xs : Cells) : Type 0 where
  pub starts : head ≡ first xs
  pub chain : Chain h.cells p xs
  pub below : Below h.fresh xs
  pub few : length xs ≤ h.fresh

-- A list whose first node has no node before it.
abbrev pub IsList : Heap ℕ → Ptr → Cells → Type 0
IsList = Linked none

-- Two tables of nodes agree on the nodes of `xs`.
abbrev pub SameAt : Cells → Table → Table → Type 0
SameAt xs c d = (x : ℕ) → has x xs ≡ true → d x ≡ c x

-- Two tables of nodes agree outside the nodes of `xs`.
abbrev pub SameOutside : Cells → Table → Table → Type 0
SameOutside xs c d = (x : ℕ) → has x xs ≡ false → d x ≡ c x
