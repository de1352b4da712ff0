-- ===== src/Queue/Dequeue.antt =====
-- `mypthread_dequeue_first_active` of pthreads/queue_util.c, on the list that the nodes stand for.
mod Cut
mod Search
pub use Search.{Inactive}
use operating_system_linux_t.Common.{
  ℕ, zero, suc, ◌+◌, ◌≤◌, ◌<◌, ◌≡◌, refl, true, false, ◌||◌, Option, none, some, List, [], ◌∷◌,
  ◌++◌, ◌==◌, ◌∙◌, length, arith, ==_self, ==_sym_false, length-append, if◌then◌else◌, sym, ap, ◌⊎◌,
  inl, inr, Bool-cases,
}
use operating_system_linux_t.Memory.{Run, ok, Ptr, ptr_eq, Node, node, Heap, Ends, ◌>>=◌}
use operating_system_linux_t.Memory.Chain.{
  Cells, Table, has, first, last, Chain, last-ne, IsList, Below, TailIs, SameOutside,
}
use operating_system_linux_t.Thread.{Threads, is_active}
use operating_system_linux_t.Queue.{find_active, unlink, mypthread_dequeue_first_active}
use Cut.{before, Holds, Apart, cut, cut-other, not-has-middle, first-ne, cut-Chain, unlink-cut}
use Search.{
  find_active-found, find_active-none, middle-node, left-node, right-node, Chain-behind,
  last-not-behind,
}

-- What taking out the node `a` between `ys` and `zs` leaves behind.
pub record Removed (h : Heap ℕ) (e : Ends) (a t : ℕ) (ys zs : Cells) (r : Ptr × Heap ℕ × Ends)
    : Type 0 where
  pub got : r.0 ≡ some t
  pub list : IsList r.1 r.2.head (ys ++ zs)
  pub freed : r.1.cells a ≡ none
  pub fresh : r.1.fresh ≡ h.fresh
  pub tail : r.2.tail ≡ e.tail
  pub same : SameOutside (ys ++ (a, t) ∷ zs) h.cells r.1.cells

Below-middle :
    (n : ℕ) (ys : Cells) (a t : ℕ) (zs : Cells) → Below n (ys ++ (a, t) ∷ zs) → Below n (ys ++ zs)
Below-middle n [] a t zs b = b.1
Below-middle n ((c, v) ∷ ys) a t zs b = (b.0, Below-middle n ys a t zs b.1)

before-Apart :
    (c : Table) (ys : Cells) (a t : ℕ) (zs : Cells)
    → Chain c none (ys ++ (a, t) ∷ zs)
    → Apart (before none ys) (some a) × Apart (before none ys) (first zs)
before-Apart c [] a t zs ch = (tt, tt)
before-Apart c ((b, v) ∷ ys) a t [] ch = ground (arith, last-not-behind c none b v ys a t [] ch)
before-Apart c ((b, v) ∷ ys) a t ((d, w) ∷ zs) ch =
    let (o, i) = last-not-behind c none b v ys a t ((d, w) ∷ zs) ch in
    (o, ==_sym_false d (last b ys) (ground arith))

first-Apart : (a : ℕ) (zs : Cells) → has a zs ≡ false → Apart (first zs) (some a)
first-Apart a [] o = tt
first-Apart a ((b, u) ∷ zs) o = first-ne a ((b, u) ∷ zs) o

-- The head moves on exactly when the node taken out is the first one.
head_after :
    (e : Ends) (ys : Cells) (a t : ℕ) (zs : Cells)
    → e.head ≡ first (ys ++ (a, t) ∷ zs)
    → has a ys ≡ false
    → (if ptr_eq e.head (some a) then record e { head = first zs } else e)
      ≡ record e { head = first (ys ++ zs) }
head_after e [] a t zs s o = rw (s, ==_self a)
head_after e ((b, v) ∷ ys) a t zs s o = ground arith

before-ne : (x : ℕ) (ys : Cells) → has x ys ≡ false → ptr_eq (before none ys) (some x) ≡ false
before-ne x [] o = refl
before-ne x ((b, v) ∷ ys) o = last-ne x b v ys o

has-front :
    (c : Table) (p : Ptr) (ys : Cells) (a t : ℕ) (zs : Cells)
    → Chain c p (ys ++ (a, t) ∷ zs)
    → has a ys ≡ false
has-front c p [] a t zs ch = refl
has-front c p ((b, v) ∷ ys) a t zs ch =
    ground (arith, has-front c (some b) ys a t zs ch.2, not-has-middle b a t ys zs ch.1)

dequeue-unlink :
    (h : Heap ℕ) (e : Ends) (ts : Threads) (a : ℕ)
    → find_active (suc h.fresh) h ts e.head ≡ ok (some a)
    → mypthread_dequeue_first_active h e ts ≡ unlink h e a
unfolding mypthread_dequeue_first_active
dequeue-unlink h e ts a f = rw f

dequeue-null :
    (h : Heap ℕ) (e : Ends) (ts : Threads)
    → find_active (suc h.fresh) h ts e.head ≡ ok none
    → mypthread_dequeue_first_active h e ts ≡ ok (none, h, e)
unfolding mypthread_dequeue_first_active
dequeue-null h e ts f = rw f

-- If the first active thread is `t`, in node `a`, then it is returned and its node freed; the
-- others stay in order, the head is right, and the tail pointer is left as it was.
pub dequeue-first_active :
    (h : Heap ℕ) (e : Ends) (ts : Threads) (ys : Cells) (a t : ℕ) (zs : Cells)
    → IsList h e.head (ys ++ (a, t) ∷ zs)
    → Inactive ts ys
    → is_active (ts t).state ≡ true
    → (r : Ptr × Heap ℕ × Ends) × (mypthread_dequeue_first_active h e ts ≡ ok r)
      × Removed h e a t ys zs r
dequeue-first_active h e ts ys a t zs is ina act =
    let c = h.cells in
    let few : suc (length ys + length zs) ≤ h.fresh =
      omega (arith, is.few, length-append ys ((a, t) ∷ zs)) in
    let (nq, lq) = left-node c none ys ((a, t) ∷ zs) is.chain in
    let (out, behind) = Chain-behind c none ys a t zs is.chain in
    let (nr, lr) = right-node c (some a) zs behind in
    let (aq, qr) = before-Apart c ys a t zs is.chain in
    (
      (
        some t,
        record h { cells = cut c a (before none ys) (first zs) nq nr },
        record e { head = first (ys ++ zs) },
      ),
      dequeue-unlink h e ts a (
            rw is.starts
              (find_active-found (suc h.fresh) h ts none ys a t zs is.chain ina act (omega arith)))
          ∙ unlink-cut h e a t (before none ys) (first zs) nq nr
              (middle-node c none ys a t zs is.chain) lq lr aq (first-Apart a zs out) qr
          ∙ ap
              (λ e'.
                ok (some t, record h { cells = cut c a (before none ys) (first zs) nq nr }, e'))
              (head_after e ys a t zs is.starts (has-front c none ys a t zs is.chain)),
      record {
        got = refl;
        list = record {
          starts = refl;
          chain = cut-Chain c a t none nq nr ys zs is.chain tt lq lr;
          below = Below-middle h.fresh ys a t zs is.below;
          few = omega (arith, length-append ys zs);
        };
        freed = rw (==_self a);
        fresh = refl;
        tail = refl;
        same = λ x o.
            let (ne, oy, oz, _) = not-has-middle x a t ys zs o in
            cut-other c a (before none ys) (first zs) nq nr x ne (before-ne x ys oy)
              (first-ne x zs oz);
      },
    )

-- With no active thread in the queue the dequeue answers NULL and changes nothing.
pub dequeue-none :
    (h : Heap ℕ) (e : Ends) (ts : Threads) (xs : Cells)
    → IsList h e.head xs
    → Inactive ts xs
    → mypthread_dequeue_first_active h e ts ≡ ok (none, h, e)
dequeue-none h e ts xs is ina = dequeue-null h e ts (
    rw is.starts (find_active-none (suc h.fresh) h ts none xs is.chain ina (omega (arith, is.few))))

-- Where the first active thread stands.
pub record Split (ts : Threads) (xs : Cells) : Type 0 where
  pub front : Cells
  pub addr : ℕ
  pub thread : ℕ
  pub back : Cells
  pub whole : xs ≡ front ++ (addr, thread) ∷ back
  pub passed : Inactive ts front
  pub active : is_active (ts thread).state ≡ true

Split-cons :
    (ts : Threads) (b v : ℕ) (xs : Cells)
    → is_active (ts v).state ≡ false
    → Split ts xs
    → Split ts ((b, v) ∷ xs)
Split-cons ts b v xs off s = record {
  front = (b, v) ∷ s.front;
  addr = s.addr;
  thread = s.thread;
  back = s.back;
  whole = ap (λ l. (b, v) ∷ l) s.whole;
  passed = (off, s.passed);
  active = s.active;
}

-- Every queue has no active thread, or a first one.
pub active-cases : (ts : Threads) (xs : Cells) → Inactive ts xs ⊎ Split ts xs
active-cases ts [] = inl tt
active-cases ts ((b, v) ∷ xs) = elim (Bool-cases (is_active (ts v).state)) [
  | inl on ↦ inr (record {
    front = [];
    addr = b;
    thread = v;
    back = xs;
    whole = refl;
    passed = tt;
    active = on;
  })
  | inr off ↦ elim (active-cases ts xs) [
    | inl none' ↦ inl (off, none')
    | inr s ↦ inr (Split-cons ts b v xs off s)
  ]
]

-- The dequeue at a queue that holds `xs`: it returns, and it is one of the two cases above.
pub data Dequeued (h : Heap ℕ) (e : Ends) (ts : Threads) (xs : Cells) (r : Ptr × Heap ℕ × Ends)
    : Type 0 where
  idle : Inactive ts xs → r ≡ (none, h, e) → Dequeued h e ts xs r
  took : (s : Split ts xs) → Removed h e s.addr s.thread s.front s.back r → Dequeued h e ts xs r

-- On a well-formed queue the dequeue returns; it finds no active thread and changes nothing, or it
-- takes the first active thread out, frees its node and keeps the others in their order.
pub dequeue_total :
    (h : Heap ℕ) (e : Ends) (ts : Threads) (xs : Cells)
    → IsList h e.head xs
    → (r : Ptr × Heap ℕ × Ends) × (mypthread_dequeue_first_active h e ts ≡ ok r)
      × Dequeued h e ts xs r
dequeue_total h e ts xs is = elim (active-cases ts xs) [
  | inl ina ↦ ((none, h, e), dequeue-none h e ts xs is ina, idle ina refl)
  | inr s ↦
      let (r, run, rem) =
        dequeue-first_active h e ts s.front s.addr s.thread s.back (rw s.whole at is) s.passed
          s.active in
      (r, run, took s rem)
]
