-- ===== src/Queue/Dequeue/Search.antt =====
-- The loop of the dequeue, and what a chain says about the node that it stops at.
use operating_system_linux_t.Common.{
  ℕ, zero, suc, ◌<◌, ◌≡◌, refl, true, false, none, some, [], ◌∷◌, ◌++◌, ◌==◌, ◌∙◌, length, arith,
}
use operating_system_linux_t.Memory.{ok, Ptr, Node, node, Heap}
use operating_system_linux_t.Memory.Chain.{Cells, Table, has, first, last, Chain}
use operating_system_linux_t.Thread.{Threads, is_active}
use operating_system_linux_t.Queue.{find_active}
use operating_system_linux_t.Queue.Dequeue.Cut.{before, Holds, not-has-middle}

-- No thread of the list is active.
abbrev pub Inactive : Threads → Cells → Type 0
Inactive ts [] = Unit
Inactive ts ((a, t) ∷ xs) = (is_active (ts t).state ≡ false) × Inactive ts xs

find_active-miss :
    (k : ℕ) (h : Heap ℕ) (ts : Threads) (a : ℕ) (q : Ptr) (t : ℕ) (r : Ptr)
    → h.cells a ≡ some (node q t r)
    → is_active (ts t).state ≡ false
    → find_active (suc k) h ts (some a) ≡ find_active k h ts r
unfolding find_active
find_active-miss k h ts a q t r live off = ground arith

pub find_active-found :
    (k : ℕ) (h : Heap ℕ) (ts : Threads) (p : Ptr) (ys : Cells) (a t : ℕ) (zs : Cells)
    → Chain h.cells p (ys ++ (a, t) ∷ zs)
    → Inactive ts ys
    → is_active (ts t).state ≡ true
    → length ys < k
    → find_active k h ts (first (ys ++ (a, t) ∷ zs)) ≡ ok (some a)
unfolding find_active
find_active-found zero h ts p ys a t zs ch ina act fuel = absurd (omega arith)
find_active-found (suc k) h ts p [] a t zs ch ina act fuel = ground arith
find_active-found (suc k) h ts p ((b, v) ∷ ys) a t zs ch ina act fuel =
    find_active-miss k h ts b p v _ ch.0 ina.0
    ∙ find_active-found k h ts (some b) ys a t zs ch.2 ina.1 act (omega arith)

pub find_active-none :
    (k : ℕ) (h : Heap ℕ) (ts : Threads) (p : Ptr) (xs : Cells)
    → Chain h.cells p xs
    → Inactive ts xs
    → length xs < k
    → find_active k h ts (first xs) ≡ ok none
unfolding find_active
find_active-none zero h ts p xs ch ina fuel = absurd (omega arith)
find_active-none (suc k) h ts p [] ch ina fuel = refl
find_active-none (suc k) h ts p ((b, v) ∷ xs) ch ina fuel =
    find_active-miss k h ts b p v _ ch.0 ina.0
    ∙ find_active-none k h ts (some b) xs ch.2 ina.1 (omega arith)

pub middle-node :
    (c : Table) (p : Ptr) (ys : Cells) (a t : ℕ) (zs : Cells)
    → Chain c p (ys ++ (a, t) ∷ zs)
    → c a ≡ some (node (before p ys) t (first zs))
middle-node c p [] a t zs ch = ch.0
middle-node c p ((b, v) ∷ []) a t zs ch = ch.2.0
middle-node c p ((b, v) ∷ (d, w) ∷ ys) a t zs ch = middle-node c (some b) ((d, w) ∷ ys) a t zs ch.2

pub left-node :
    (c : Table) (p : Ptr) (ys xs : Cells)
    → Chain c p (ys ++ xs)
    → (n : Node ℕ) × Holds c (before none ys) n
left-node c p [] xs ch = (node none 0 none, tt)
left-node c p ((b, v) ∷ []) xs ch = (node p v (first xs), ch.0)
left-node c p ((b, v) ∷ (d, w) ∷ ys) xs ch = left-node c (some b) ((d, w) ∷ ys) xs ch.2

pub right-node :
    (c : Table) (p : Ptr) (xs : Cells) → Chain c p xs → (n : Node ℕ) × Holds c (first xs) n
right-node c p [] ch = (node none 0 none, tt)
right-node c p ((b, v) ∷ xs) ch = (node p v (first xs), ch.0)

-- The part behind a node is a chain without that node.
pub Chain-behind :
    (c : Table) (p : Ptr) (ys : Cells) (a t : ℕ) (zs : Cells)
    → Chain c p (ys ++ (a, t) ∷ zs)
    → (has a zs ≡ false) × Chain c (some a) zs
Chain-behind c p [] a t zs ch = (ch.1, ch.2)
Chain-behind c p ((b, v) ∷ ys) a t zs ch = Chain-behind c (some b) ys a t zs ch.2

-- The node before is neither the node itself nor behind it.
pub last-not-behind :
    (c : Table) (p : Ptr) (b v : ℕ) (ys : Cells) (a t : ℕ) (zs : Cells)
    → Chain c p (((b, v) ∷ ys) ++ (a, t) ∷ zs)
    → ((last b ys == a) ≡ false) × (has (last b ys) zs ≡ false)
last-not-behind c p b v [] a t zs ch = ground (arith, not-has-middle b a t [] zs ch.1)
last-not-behind c p b v ((d, w) ∷ ys) a t zs ch = last-not-behind c (some b) d w ys a t zs ch.2
