-- ===== src/Homework/Ring.antt =====
-- The ring of hw1/mypthread.c as a queue.
use operating_system_linux_t.Common.{
  ℕ, ◌+◌, ◌≡◌, refl, sym, ap, false, Option, none, some, [], ◌∷◌, ◌++◌, ◌==◌, ==_self, ==_sym_false,
  if◌then◌else◌, arith,
}
use operating_system_linux_t.Memory.{ok, Ptr}
use operating_system_linux_t.Memory.Chain.{
  Cells, has, last, Below, Below-mono, Below-append, not-has_of_Below, last-ne, last-append,
  not-has-snoc,
}
use operating_system_linux_t.Links.{Link, Links, link}
use operating_system_linux_t.Homework.{Queue, push_thread, pop_thread}

abbrev pub Rings : Type 0
Rings = ℕ → Option (Link ℕ)

-- The first address of `xs`, or `q`.
abbrev pub next_or : Ptr → Cells → Ptr
next_or q [] = q
next_or q ((a, t) ∷ xs) = some a

-- Distinct nodes in order, the last one's `next` being `q`.
abbrev pub Looped : Rings → Ptr → Cells → Type 0
Looped c q [] = Unit
Looped c q ((a, t) ∷ xs) = (c a ≡ some (link t (next_or q xs))) × (has a xs ≡ false) × Looped c q xs

-- The queue is the ring of `(a, t) ∷ ys`.
pub record IsRing (h : Links ℕ) (q : Queue) (a t : ℕ) (ys : Cells) : Type 0 where
  pub front : q.front ≡ some a
  pub rear : q.rear ≡ some (last a ys)
  pub loop : Looped h.cells (some a) ((a, t) ∷ ys)
  pub below : Below h.fresh ((a, t) ∷ ys)

abbrev ringed : Rings → (n d z u a : ℕ) → Rings
ringed c n d z u a x =
    if n == x
    then some (link d (some a))
    else (if z == x then some (link u (some n)) else (if n == x then some (link d none) else c x))

Looped-last :
    (c : Rings) (q : Ptr) (a t : ℕ) (ys : Cells)
    → Looped c q ((a, t) ∷ ys)
    → (u : ℕ) × (c (last a ys) ≡ some (link u q))
Looped-last c q a t [] l = (t, l.0)
Looped-last c q a t ((b, v) ∷ ys) l = Looped-last c q b v ys l.2

ringed-Looped :
    (c : Rings) (q : Ptr) (a t : ℕ) (ys : Cells) (n d u f : ℕ)
    → Looped c q ((a, t) ∷ ys)
    → has n ((a, t) ∷ ys) ≡ false
    → c (last a ys) ≡ some (link u q)
    → Looped (ringed c n d (last a ys) u f) (some f) (((a, t) ∷ ys) ++ (n, d) ∷ [])
ringed-Looped c q a t [] n d u f l out e =
    (ground (arith, l.0), ground arith, (ground arith, refl, tt))
ringed-Looped c q a t ((b, v) ∷ ys) n d u f l out e = (
  ground (arith, l.0, last-ne a b v ys l.1, ==_sym_false a n (ground arith)),
  not-has-snoc a n d ((b, v) ∷ ys) l.1 (ground arith),
  ringed-Looped c q b v ys n d u f l.2 (ground arith) e,
)

-- The table after a first node.
abbrev pub alone : Links ℕ → ℕ → Links ℕ
alone h tcb = record {
  cells = λ x.
      if h.fresh == x
      then some (link tcb (some h.fresh))
      else (if h.fresh == x then some (link tcb none) else h.cells x);
  fresh = h.fresh + 1;
}

-- The first thread is a ring by itself.
pub push_first :
    (h : Links ℕ) (q : Queue) (tcb : ℕ)
    → q.front ≡ none
    → push_thread h q tcb ≡ ok (alone h tcb, record { front = some h.fresh; rear = some h.fresh })
unfolding push_thread
push_first h q tcb e = ground arith

pub alone-IsRing :
    (h : Links ℕ) (tcb : ℕ)
    → IsRing (alone h tcb) (record { front = some h.fresh; rear = some h.fresh }) h.fresh tcb []
alone-IsRing h tcb = record {
  front = refl;
  rear = refl;
  loop = (rw (==_self h.fresh) refl, refl, tt);
  below = (omega arith, tt);
}

push_later :
    (h : Links ℕ) (q : Queue) (tcb a z u : ℕ)
    → q.front ≡ some a
    → q.rear ≡ some z
    → h.cells z ≡ some (link u (some a))
    → (h.fresh == z) ≡ false
    → push_thread h q tcb
      ≡ ok (
        record { cells = ringed h.cells h.fresh tcb z u a; fresh = h.fresh + 1 },
        record q { rear = some h.fresh },
      )
unfolding push_thread
push_later h q tcb a z u ef er live ne = ground arith

-- The table after `f` is freed and the node `z`, which held `u`, leads to `b`.
abbrev closed : Rings → (f z u b : ℕ) → Rings
closed c f z u b x = if f == x then none else (if z == x then some (link u (some b)) else c x)

closed-Looped :
    (c : Rings) (q : Ptr) (a t : ℕ) (ys : Cells) (f u b : ℕ)
    → Looped c q ((a, t) ∷ ys)
    → has f ((a, t) ∷ ys) ≡ false
    → c (last a ys) ≡ some (link u q)
    → Looped (closed c f (last a ys) u b) (some b) ((a, t) ∷ ys)
closed-Looped c q a t [] f u b l out e = (ground (arith, l.0, ==_sym_false a f), refl, tt)
closed-Looped c q a t ((d, v) ∷ ys) f u b l out e = (
  ground (arith, l.0, last-ne a d v ys l.1, ==_sym_false a f),
  l.1,
  closed-Looped c q d v ys f u b l.2 (ground arith) e,
)

pop_several :
    (h : Links ℕ) (q : Queue) (a t b z u junk : ℕ)
    → q.front ≡ some a
    → q.rear ≡ some z
    → (a == z) ≡ false
    → (z == a) ≡ false
    → h.cells a ≡ some (link t (some b))
    → h.cells z ≡ some (link u (some a))
    → pop_thread h q junk
      ≡ ok (t, record h { cells = closed h.cells a z u b }, record q { front = some b })
unfolding pop_thread
pop_several h q a t b z u junk ef er ne en la lz = ground arith

-- `push_thread` puts a thread behind the others and closes the ring again.
pub push_thread-IsRing :
    (h : Links ℕ) (q : Queue) (a t : ℕ) (ys : Cells) (tcb : ℕ)
    → IsRing h q a t ys
    → (r : Links ℕ × Queue) × (push_thread h q tcb ≡ ok r)
      × IsRing r.0 r.1 a t (ys ++ (h.fresh, tcb) ∷ [])
push_thread-IsRing h q a t ys tcb k =
    let n = h.fresh in
    let out = not-has_of_Below n ((a, t) ∷ ys) k.below (omega arith) in
    let (u, live) = Looped-last h.cells (some a) a t ys k.loop in
    let z = last a ys in
    (
      (record { cells = ringed h.cells n tcb z u a; fresh = n + 1 }, record q { rear = some n }),
      push_later h q tcb a z u k.front k.rear live (==_sym_false z n (last-ne n a t ys out)),
      record {
        front = k.front;
        rear = ap some (sym (last-append a n tcb ys));
        loop = ringed-Looped h.cells (some a) a t ys n tcb u a k.loop out live;
        below =
            Below-append (n + 1) ((a, t) ∷ ys) ((n, tcb) ∷ [])
              (Below-mono ((a, t) ∷ ys) k.below (omega arith)) (omega arith, tt);
      },
    )

-- `pop_thread` on a ring of several threads takes the first one and closes the ring behind it.
pub pop_thread-IsRing :
    (h : Links ℕ) (q : Queue) (a t b v : ℕ) (ys : Cells) (junk : ℕ)
    → IsRing h q a t ((b, v) ∷ ys)
    → (r : Links ℕ × Queue) × (pop_thread h q junk ≡ ok (t, r.0, r.1)) × IsRing r.0 r.1 b v ys
pop_thread-IsRing h q a t b v ys junk k =
    let (u, live) = Looped-last h.cells (some a) b v ys k.loop.2 in
    let z = last b ys in
    let ne = last-ne a b v ys k.loop.1 in
    (
      (record h { cells = closed h.cells a z u b }, record q { front = some b }),
      pop_several h q a t b z u junk k.front k.rear (==_sym_false z a ne) ne k.loop.0 live,
      record {
        front = refl;
        rear = k.rear;
        loop = closed-Looped h.cells (some a) b v ys a u b k.loop.2 k.loop.1 live;
        below = k.below.1;
      },
    )

-- `pop_thread` on a ring of one thread takes nothing and answers the empty struct.
pub pop_thread-last :
    (h : Links ℕ) (q : Queue) (a t junk : ℕ)
    → IsRing h q a t []
    → pop_thread h q junk ≡ ok (junk, h, q)
unfolding pop_thread
pop_thread-last h q a t junk k = rw (k.front, k.rear, ==_self a) refl
