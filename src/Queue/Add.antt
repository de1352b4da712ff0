-- ===== src/Queue/Add.antt =====
-- `ll_add` of pthreads/queue_util.c, on the lists that nodes stand for.
use operating_system_linux_t.Common.{
  ℕ, ◌+◌, ◌≡◌, refl, false, none, some, [], ◌∷◌, ◌++◌, ◌==◌, arith, ==_sym_false, ◌∙◌,
  length-append, if◌then◌else◌,
}
use operating_system_linux_t.Memory.{ok, Ptr, node, Heap, Ends, write}
use operating_system_linux_t.Memory.Chain.{
  Cells, Table, has, last, Chain, TailIs, Linked, SameOutside, not-has_of_Below, Below-mono,
  Below-append, last-ne, last-append, Chain-last, not-has-snoc, has_parts-snoc,
}
use operating_system_linux_t.Queue.{ll_add}

-- The table after node `n` is linked behind the node `z`, which held `u`.
abbrev linked : Table → (n d z : ℕ) → Ptr → ℕ → Table
linked c n d z q u x =
    if n == x
    then some (node (some z) d none)
    else (if z == x
        then some (node q u (some n))
        else (if n == x then some (node none d none) else c x))

linked-other :
    (c : Table) (n d z : ℕ) (q : Ptr) (u x : ℕ)
    → (n == x) ≡ false
    → (z == x) ≡ false
    → linked c n d z q u x ≡ c x
linked-other c n d z q u x h k = rw (h, k)

ll_add-linked :
    (d : ℕ) (h : Heap ℕ) (e : Ends) (a z : ℕ) (q : Ptr) (u : ℕ)
    → e.head ≡ some a
    → e.tail ≡ some z
    → h.cells z ≡ some (node q u none)
    → (h.fresh == z) ≡ false
    → ll_add d h e
      ≡ ok (
        record { cells = linked h.cells h.fresh d z q u; fresh = h.fresh + 1 },
        record e { tail = some h.fresh },
      )
unfolding ll_add
ll_add-linked d h e a z q u eh et live ne = ground arith

linked-Chain :
    (c : Table) (p : Ptr) (a t : ℕ) (ys : Cells) (n d : ℕ) (q : Ptr) (u : ℕ)
    → Chain c p ((a, t) ∷ ys)
    → has n ((a, t) ∷ ys) ≡ false
    → c (last a ys) ≡ some (node q u none)
    → Chain (linked c n d (last a ys) q u) p (((a, t) ∷ ys) ++ (n, d) ∷ [])
linked-Chain c p a t [] n d q u ch out e = (ground arith, ground arith, (ground arith, refl, tt))
linked-Chain c p a t ((b, v) ∷ ys) n d q u ch out e = (
  linked-other c n d (last b ys) q u a (ground arith) (last-ne a b v ys ch.1) ∙ ch.0,
  not-has-snoc a n d ((b, v) ∷ ys) ch.1 (ground arith),
  linked-Chain c (some a) b v ys n d q u ch.2 (ground arith) e,
)

-- What `ll_add` promises: the node `n` with item `d` is last, the rest is untouched.
pub record Added (p : Ptr) (h : Heap ℕ) (xs : Cells) (d : ℕ) (r : Heap ℕ × Ends) : Type 0 where
  pub list : Linked p r.0 r.1.head (xs ++ (h.fresh, d) ∷ [])
  pub ends : TailIs r.1.tail (xs ++ (h.fresh, d) ∷ [])
  pub fresh : r.0.fresh ≡ h.fresh + 1
  pub same : SameOutside (xs ++ (h.fresh, d) ∷ []) h.cells r.0.cells

TailIs-snoc : (xs : Cells) (n d : ℕ) (q : Ptr) → q ≡ some n → TailIs q (xs ++ (n, d) ∷ [])
TailIs-snoc [] n d q e = e
TailIs-snoc ((a, t) ∷ ys) n d q e = ground (arith, last-append a n d ys)

-- `ll_add` on a list with a right tail pointer does not fault and appends the item.
pub ll_add-append :
    (d : ℕ) (p : Ptr) (h : Heap ℕ) (e : Ends) (xs : Cells)
    → (xs ≡ [] → p ≡ none)
    → Linked p h e.head xs
    → TailIs e.tail xs
    → (r : Heap ℕ × Ends) × (ll_add d h e ≡ ok r) × Added p h xs d r
unfolding ll_add
ll_add-append d p h e [] lead is tl = (
  (
    record (write h h.fresh (some (node none d none))) { fresh = h.fresh + 1 },
    record { head = some h.fresh; tail = some h.fresh },
  ),
  ground arith,
  record {
    list = record {
      starts = refl;
      chain = (rw (lead refl) (ground arith), refl, tt);
      below = (omega arith, tt);
      few = omega arith;
    };
    ends = refl;
    fresh = refl;
    same = λ x o. ground arith;
  },
)
ll_add-append d p h e ((a, t) ∷ ys) lead is tl =
    let n = h.fresh in
    let out = not-has_of_Below n ((a, t) ∷ ys) is.below (omega arith) in
    let (q, u, live) = Chain-last h.cells p a t ys is.chain in
    let z = last a ys in
    let apart : (n == z) ≡ false = ==_sym_false z n (last-ne n a t ys out) in
    (
      (
        record { cells = linked h.cells n d z q u; fresh = h.fresh + 1 },
        record e { tail = some n },
      ),
      ll_add-linked d h e a z q u is.starts tl live apart,
      record {
        list = record {
          starts = is.starts;
          chain = linked-Chain h.cells p a t ys n d q u is.chain out live;
          below =
              Below-append (h.fresh + 1) ((a, t) ∷ ys) ((n, d) ∷ [])
                (Below-mono ((a, t) ∷ ys) is.below (omega arith)) (omega arith, tt);
          few = omega (arith, length-append ys ((n, d) ∷ []));
        };
        ends = TailIs-snoc ((a, t) ∷ ys) n d (some n) refl;
        fresh = refl;
        same = λ x o.
            let (o₁, o₂) = has_parts-snoc x n d ((a, t) ∷ ys) o in
            linked-other h.cells n d z q u x o₂ (last-ne x a t ys o₁);
      },
    )
