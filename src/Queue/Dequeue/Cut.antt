-- ===== src/Queue/Dequeue/Cut.antt =====
-- Taking one node out of a chain: the pointer writes behind the loop of the dequeue.
use operating_system_linux_t.Common.{
  ℕ, ◌≡◌, refl, true, false, none, some, [], ◌∷◌, ◌++◌, ◌==◌, ◌∙◌, arith, ==_self, ==_sym_false,
  if◌then◌else◌,
}
use operating_system_linux_t.Memory.{ok, Ptr, ptr_eq, Node, node, Heap, Ends}
use operating_system_linux_t.Memory.Chain.{
  Cells, Table, has, first, last, Chain, Chain-frame, last-ne, ne_of_has,
}
use operating_system_linux_t.Queue.{unlink}

-- The table with `a` freed, its left neighbour `q` and its right neighbour `r` joined. `nq` and
-- `nr` are the neighbours' nodes.
abbrev pub cut : Table → ℕ → Ptr → Ptr → Node ℕ → Node ℕ → Table
cut c a q r nq nr x =
    if a == x
    then none
    else (if ptr_eq q (some x)
        then some (record nq { next = r })
        else (if ptr_eq r (some x) then some (record nr { prev = q }) else c x))

abbrev pub Holds : Table → Ptr → Node ℕ → Type 0
Holds c none n = Unit
Holds c (some a) n = c a ≡ some n

abbrev pub NotIn : Ptr → Cells → Type 0
NotIn none xs = Unit
NotIn (some a) xs = has a xs ≡ false

abbrev pub Apart : Ptr → Ptr → Type 0
Apart none q = Unit
Apart (some a) q = ptr_eq (some a) q ≡ false

pub unlink-cut :
    (h : Heap ℕ) (e : Ends) (a t : ℕ) (q r : Ptr) (nq nr : Node ℕ)
    → h.cells a ≡ some (node q t r)
    → Holds h.cells q nq
    → Holds h.cells r nr
    → Apart q (some a)
    → Apart r (some a)
    → Apart q r
    → unlink h e a
      ≡ ok (
        some t,
        record h { cells = cut h.cells a q r nq nr },
        (if ptr_eq e.head (some a) then record e { head = r } else e),
      )
unfolding unlink
unlink-cut h e a t none none nq nr live hq hr aq ar qr = ground arith
unlink-cut h e a t none (some b) nq nr live hq hr aq ar qr = ground arith
unlink-cut h e a t (some p) none nq nr live hq hr aq ar qr = ground arith
unlink-cut h e a t (some p) (some b) nq nr live hq hr aq ar qr = ground arith

pub cut-other :
    (c : Table) (a : ℕ) (q r : Ptr) (nq nr : Node ℕ) (x : ℕ)
    → (a == x) ≡ false
    → ptr_eq q (some x) ≡ false
    → ptr_eq r (some x) ≡ false
    → cut c a q r nq nr x ≡ c x
cut-other c a q r nq nr x ha hq hr = rw (ha, hq, hr)

-- The pointer to the node before what follows `ys`.
abbrev pub before : Ptr → Cells → Ptr
before p [] = p
before p ((c, v) ∷ ys) = some (last c ys)

ptr-ne_of_has :
    (p : Ptr) (x : ℕ) (xs : Cells) → NotIn p xs → has x xs ≡ true → ptr_eq p (some x) ≡ false
ptr-ne_of_has none x xs o h = refl
ptr-ne_of_has (some y) x xs o h = ne_of_has x y xs h o

NotIn-tail : (p : Ptr) (b u : ℕ) (zs : Cells) → NotIn p ((b, u) ∷ zs) → NotIn p zs
NotIn-tail none b u zs o = tt
NotIn-tail (some y) b u zs o = ground arith

NotIn-head : (p : Ptr) (b u : ℕ) (zs : Cells) → NotIn p ((b, u) ∷ zs) → ptr_eq p (some b) ≡ false
NotIn-head none b u zs o = refl
NotIn-head (some y) b u zs o = ground arith

cut-right :
    (c : Table) (a : ℕ) (q : Ptr) (nq nr n : Node ℕ) (b : ℕ)
    → c b ≡ some nr
    → c b ≡ some n
    → (a == b) ≡ false
    → ptr_eq q (some b) ≡ false
    → cut c a q (some b) nq nr b ≡ some (record n { prev = q })
cut-right c a q nq nr n b hr hn ha hq = rw (ha, hq, ==_self b) (ground arith)

-- The part behind the node that is taken out.
cut-tail :
    (c : Table) (a : ℕ) (q : Ptr) (nq nr : Node ℕ) (zs : Cells)
    → Chain c (some a) zs
    → has a zs ≡ false
    → NotIn q zs
    → Holds c (first zs) nr
    → Chain (cut c a q (first zs) nq nr) q zs
cut-tail c a q nq nr [] ch out nin hr = tt
cut-tail c a q nq nr ((b, u) ∷ zs) ch out nin hr = (
  cut-right c a q nq nr (node (some a) u (first zs)) b hr ch.0 (==_sym_false b a (ground arith))
      (NotIn-head q b u zs nin),
  ch.1,
  Chain-frame (some b) zs
      (λ x i.
        cut-other c a q (some b) nq nr x (ne_of_has x a zs i (ground arith))
          (ptr-ne_of_has q x zs (NotIn-tail q b u zs nin) i) (ne_of_has x b zs i ch.1))
      ch.2,
)

cut-left :
    (c : Table) (a p : ℕ) (r : Ptr) (nq nr n : Node ℕ)
    → c p ≡ some nq
    → c p ≡ some n
    → (a == p) ≡ false
    → cut c a (some p) r nq nr p ≡ some (record n { next = r })
cut-left c a p r nq nr n hq hn ha = rw (ha, ==_self p) (ground arith)

pub not-has-middle :
    (x a t : ℕ) (ys zs : Cells)
    → has x (ys ++ (a, t) ∷ zs) ≡ false
    → ((a == x) ≡ false) × (has x ys ≡ false) × (has x zs ≡ false) × (has x (ys ++ zs) ≡ false)
not-has-middle x a t [] zs o = ground arith
not-has-middle x a t ((c, v) ∷ ys) zs o = ground (arith, not-has-middle x a t ys zs)

pub first-ne : (x : ℕ) (zs : Cells) → has x zs ≡ false → ptr_eq (first zs) (some x) ≡ false
first-ne x [] o = refl
first-ne x ((b, u) ∷ zs) o = ground arith

-- The whole chain, with the node of `a` gone.
pub cut-Chain :
    (c : Table) (a t : ℕ) (p : Ptr) (nq nr : Node ℕ) (ys zs : Cells)
    → Chain c p (ys ++ (a, t) ∷ zs)
    → NotIn p (ys ++ (a, t) ∷ zs)
    → Holds c (before p ys) nq
    → Holds c (first zs) nr
    → Chain (cut c a (before p ys) (first zs) nq nr) p (ys ++ zs)
cut-Chain c a t p nq nr [] zs ch nin hq hr =
    cut-tail c a p nq nr zs ch.2 ch.1 (NotIn-tail p a t zs nin) hr
cut-Chain c a t p nq nr ((b, v) ∷ []) zs ch nin hq hr =
    let (ne, o, oz, oyz) = not-has-middle b a t [] zs ch.1 in
    (
      cut-left c a b (first zs) nq nr (node p v (some a)) hq ch.0 ne,
      oyz,
      cut-tail c a (some b) nq nr zs ch.2.2 ch.2.1 oz hr,
    )
cut-Chain c a t p nq nr ((b, v) ∷ (d, w) ∷ ys) zs ch nin hq hr =
    let (ne, o, oz, oyz) = not-has-middle b a t ((d, w) ∷ ys) zs ch.1 in
    (
      cut-other c a (some (last d ys)) (first zs) nq nr b ne (last-ne b d w ys o) (first-ne b zs oz)
          ∙ ch.0,
      oyz,
      cut-Chain c a t (some b) nq nr ((d, w) ∷ ys) zs ch.2 ch.1 hq hr,
    )
