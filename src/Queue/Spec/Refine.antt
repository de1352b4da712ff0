-- ===== src/Queue/Spec/Refine.antt =====
-- The nodes of pthreads/queue_util.c against the view, over any sequence of operations.
use operating_system_linux_t.Common.{
  ℕ, ◌<◌, ◌≡◌, refl, sym, Bool-cases, inl, inr, subst, ap, ◌∙◌, Bool, true, false, Option, none,
  some, List, [], ◌∷◌, ◌++◌, if◌then◌else◌, arith,
}
use operating_system_linux_t.Memory.{Run, ok, fault, ◌>>=◌, Ptr, Heap, Ends}
use operating_system_linux_t.Memory.Chain.{
  Cells, Table, has, first, Chain, IsList, TailIs, last-append,
}
use operating_system_linux_t.Thread.{Threads}
use operating_system_linux_t.Queue.{ll_add, mypthread_dequeue_first_active}
use operating_system_linux_t.Queue.Add.{ll_add-append}
use operating_system_linux_t.Queue.Dequeue.{Removed, Split, idle, took, Inactive, dequeue_total}
use operating_system_linux_t.Queue.Tail.{Removed-TailIs, Below-at, ll_add-fault}
use operating_system_linux_t.Queue.Spec.{
  View, Op, add, dequeue, null, active, first_such, without_such, such_is_last, view_add,
  view_dequeue, view_run, queue_run,
}
use operating_system_linux_t.Queue.Spec.Answers.{items, items-append, none_such, middle_such}

-- The tail pointer is on a freed node of a queue that holds threads, or it is right.
abbrev pub TailOk : Bool → Heap ℕ → Ends → Cells → Type 0
TailOk false h e xs = TailIs e.tail xs
TailOk true h e xs =
    (a b : ℕ) × (e.tail ≡ some a) × (h.cells a ≡ none) × (a < h.fresh) × (first xs ≡ some b)

-- The nodes from the head on stand for the view.
pub record Fit (v : View) (h : Heap ℕ) (e : Ends) : Type 0 where
  pub cells : Cells
  pub list : IsList h e.head cells
  pub same : items cells ≡ v.waiting
  pub tail : TailOk v.stale h e cells

-- What an operation on the nodes does against what the view says.
pub data Agrees {A : Type 0} : Option (A × View) → Run (A × Heap ℕ × Ends) → Type 0 where
  both_fail : Agrees none fault
  both_end :
      (a : A) (v : View) (h : Heap ℕ) (e : Ends) → Fit v h e → Agrees (some (a, v)) (ok (a, h, e))

-- An address that holds no node is not in the list.
dead-not-has :
    (c : Table) (p : Ptr) (xs : Cells) (x : ℕ) → Chain c p xs → c x ≡ none → has x xs ≡ false
dead-not-has c p [] x ch dead = refl
dead-not-has c p ((a, t) ∷ xs) x ch dead = ground (arith, dead-not-has c (some a) xs x ch.2 dead)

add-fault :
    (t : ℕ) (v : View) (h : Heap ℕ) (e : Ends) → Fit v h e → v.stale ≡ true → ll_add t h e ≡ fault
add-fault t v h e fit st =
    let (a, b, at, dead, lt, starts) = subst (λ s. TailOk s h e fit.cells) st fit.tail in
    ll_add-fault t h e b a (fit.list.starts ∙ starts) at dead lt

add-fits :
    (t : ℕ) (v : View) (h : Heap ℕ) (e : Ends)
    → Fit v h e
    → v.stale ≡ false
    → (r : Heap ℕ × Ends) × (ll_add t h e ≡ ok r)
      × Fit (record { waiting = v.waiting ++ t ∷ []; stale = false }) r.0 r.1
add-fits t v h e fit st =
    let (r, run, added) =
      ll_add-append t none h e fit.cells (λ _. refl) fit.list
        (subst (λ s. TailOk s h e fit.cells) st fit.tail) in
    (
      r,
      run,
      record {
        cells = fit.cells ++ (h.fresh, t) ∷ [];
        list = added.list;
        same = items-append fit.cells ((h.fresh, t) ∷ []) ∙ ap (λ l. l ++ t ∷ []) fit.same;
        tail = added.ends;
      },
    )

-- A pointer to a freed node stays one when another node is freed.
dangling-Removed :
    {h : Heap ℕ} {e : Ends} {a t : ℕ} {ys zs : Cells} {r : Ptr × Heap ℕ × Ends} (b : ℕ)
    → Chain h.cells none (ys ++ (a, t) ∷ zs)
    → Removed h e a t ys zs r
    → TailOk true h e (ys ++ (a, t) ∷ zs)
    → first (ys ++ zs) ≡ some b
    → TailOk true r.1 r.2 (ys ++ zs)
dangling-Removed {h} {a} {t} {ys} {zs} {r} b ch rem (x, y, at, dead, lt, _) starts = (
  x,
  b,
  rem.tail ∙ at,
  rem.same x (dead-not-has h.cells none (ys ++ (a, t) ∷ zs) x ch dead) ∙ dead,
  subst (λ n. x < n) (sym rem.fresh) lt,
  starts,
)

tail_after :
    {h : Heap ℕ} {e : Ends} {a t : ℕ} (st : Bool) (ys zs : Cells) {r : Ptr × Heap ℕ × Ends}
    → IsList h e.head (ys ++ (a, t) ∷ zs)
    → Removed h e a t ys zs r
    → TailOk st h e (ys ++ (a, t) ∷ zs)
    → TailOk
        (if null (items (ys ++ zs)) then false else (if null (items zs) then true else st))
        r.1
        r.2
        (ys ++ zs)
tail_after st [] [] is rem tl = tt
tail_after false [] ((c, u) ∷ zs) is rem tl = Removed-TailIs {ys = []} rem tl
tail_after true [] ((c, u) ∷ zs) is rem tl = dangling-Removed {ys = []} c is.chain rem tl refl
tail_after false ((b, v) ∷ ys) ((c, u) ∷ zs) is rem tl = Removed-TailIs {ys = (b, v) ∷ ys} rem tl
tail_after true ((b, v) ∷ ys) ((c, u) ∷ zs) is rem tl =
    dangling-Removed {ys = (b, v) ∷ ys} b is.chain rem tl refl
tail_after {h} {a} {t} false ((b, v) ∷ ys) [] is rem tl = (
  a,
  b,
  rem.tail ∙ tl ∙ ap some (last-append b a t ys),
  rem.freed,
  subst (λ n. a < n) (sym rem.fresh) (Below-at h.fresh ((b, v) ∷ ys) a t [] is.below),
  refl,
)
tail_after true ((b, v) ∷ ys) [] is rem tl =
    dangling-Removed {ys = (b, v) ∷ ys} b is.chain rem tl refl

-- A dequeue of the nodes against one of the view.
Taken : Threads → View → Ptr × Heap ℕ × Ends → Type 0
Taken ts v r = (r.0 ≡ (view_dequeue ts v).0) × Fit ((view_dequeue ts v).1) r.1 r.2

keep_tail :
    (st : Bool) (h : Heap ℕ) (e : Ends) (xs : Cells)
    → TailOk st h e xs
    → TailOk (if null (items xs) then false else (if false then true else st)) h e xs
keep_tail st h e [] tl = tt
keep_tail st h e ((a, t) ∷ xs) tl = tl

idle-Taken :
    (ts : Threads) (v : View) (h : Heap ℕ) (e : Ends) (fit : Fit v h e)
    → Inactive ts fit.cells
    → Taken ts v (none, h, e)
unfolding Taken view_dequeue
idle-Taken ts v h e fit ina =
    let (f, w, l) = none_such ts fit.cells ina in
    let f' = subst (λ q. first_such (active ts) q ≡ none) fit.same f in
    let w' = subst (λ q. without_such (active ts) q ≡ items fit.cells) fit.same w in
    let l' = subst (λ q. such_is_last (active ts) q ≡ false) fit.same l in
    (
      sym f',
      record {
        cells = fit.cells;
        list = fit.list;
        same = sym w';
        tail = rw (w', l') (keep_tail v.stale h e fit.cells fit.tail);
      },
    )

took-Taken :
    (ts : Threads) (v : View) (h : Heap ℕ) (e : Ends) (fit : Fit v h e) (s : Split ts fit.cells)
    (r : Ptr × Heap ℕ × Ends)
    → Removed h e s.addr s.thread s.front s.back r
    → Taken ts v r
unfolding Taken view_dequeue
took-Taken ts v h e fit s r rem =
    let cells' =
      subst (λ l. (items l ≡ v.waiting) × IsList h e.head l × TailOk v.stale h e l) s.whole
        (fit.same, fit.list, fit.tail) in
    let (f, w, l) = middle_such ts s.front s.addr s.thread s.back s.passed s.active in
    let f' = subst (λ q. first_such (active ts) q ≡ some s.thread) cells'.0 f in
    let w' = subst (λ q. without_such (active ts) q ≡ items (s.front ++ s.back)) cells'.0 w in
    let l' = subst (λ q. such_is_last (active ts) q ≡ null (items s.back)) cells'.0 l in
    (
      rem.got ∙ sym f',
      record {
        cells = s.front ++ s.back;
        list = rem.list;
        same = sym w';
        tail = rw (w', l') (tail_after v.stale s.front s.back cells'.1 rem cells'.2);
      },
    )

dequeue-Taken :
    (ts : Threads) (v : View) (h : Heap ℕ) (e : Ends)
    → Fit v h e
    → (r : Ptr × Heap ℕ × Ends) × (mypthread_dequeue_first_active h e ts ≡ ok r) × Taken ts v r
dequeue-Taken ts v h e fit =
    let (r, run, d) = dequeue_total h e ts fit.cells fit.list in
    (
      r,
      run,
      elim d [
        | idle ina same ↦ subst (Taken ts v) (sym same) (idle-Taken ts v h e fit ina)
        | took s rem ↦ took-Taken ts v h e fit s r rem
      ],
    )

view_run-stale :
    (t : ℕ) (ops : List Op) (v : View) → v.stale ≡ true → view_run (add t ∷ ops) v ≡ none
unfolding view_run view_add
view_run-stale t ops v st = rw st

view_run-add :
    (t : ℕ) (ops : List Op) (v : View)
    → v.stale ≡ false
    → view_run (add t ∷ ops) v
      ≡ view_run ops (record { waiting = v.waiting ++ t ∷ []; stale = false })
unfolding view_run view_add
view_run-add t ops v st = rw st

-- The answer of a dequeue in front of those of the rest.
Agrees-cons :
    {o : Option (List Ptr × View)} {r : Run (List Ptr × Heap ℕ × Ends)} (p : Ptr)
    → Agrees o r
    → Agrees
        (elim o [ none ↦ none | some (ps, u) ↦ some (p ∷ ps, u) ])
        (r >>= λ (ps, h, e). ok (p ∷ ps, h, e))
Agrees-cons p both_fail = both_fail
Agrees-cons p (both_end a v h e fit) = both_end (p ∷ a) v h e fit

-- Any sequence of operations on nodes that stand for a view ends as it does on the view: with the
-- same answers on nodes that stand for the last view, or at the same place in a fault.
pub queue_run-view_run :
    (ops : List Op) (v : View) (h : Heap ℕ) (e : Ends)
    → Fit v h e
    → Agrees (view_run ops v) (queue_run ops h e)
unfolding view_run queue_run Taken
queue_run-view_run [] v h e fit = both_end [] v h e fit
queue_run-view_run (add t ∷ ops) v h e fit = elim (Bool-cases v.stale) [
  | inl st ↦ rw (add-fault t v h e fit st, view_run-stale t ops v st) both_fail
  | inr st ↦
      let (r, run, fit') = add-fits t v h e fit st in
      rw (run, view_run-add t ops v st) (queue_run-view_run ops _ r.0 r.1 fit')
]
queue_run-view_run (dequeue ts ∷ ops) v h e fit =
    let (r, run, took') = dequeue-Taken ts v h e fit in
    rw (run, took'.0)
      (Agrees-cons ((view_dequeue ts v).0) (queue_run-view_run ops _ r.1 r.2 took'.1))
