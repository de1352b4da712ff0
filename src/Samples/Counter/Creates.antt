-- ===== src/Samples/Counter/Creates.antt =====
-- The loop of `main` in pthreads/mypthread_sample4.c that creates the counting threads, with the policy
-- ULONLY.
use operating_system_linux_t.Common.{
  ℕ, zero, suc, ◌+◌, ◌≤◌, ◌<◌, ◌^◌, ◌≡◌, refl, ap, sym, ◌∙◌, subst, true, false, ◌||◌, Option, [],
  ◌∷◌, ◌++◌, ◌==◌, length, length-append, Bool-cases, inl, inr, ==_sym_false, arith,
}
use operating_system_linux_t.Memory.{ok}
use operating_system_linux_t.Memory.Chain.{Cells}
use operating_system_linux_t.Thread.{Threads, uninit, entry, is_active}
use operating_system_linux_t.Queue.Lookup.{any_item}
use operating_system_linux_t.Machine.{Machine, after, inc}
use operating_system_linux_t.Machine.Inv.{with_queue}
use operating_system_linux_t.Lifecycle.{ulonly, mypthread_create}
use operating_system_linux_t.Lifecycle.Create.{mypthread_create-Creates, never-more, filled_in}
use operating_system_linux_t.Samples.{create_all}
use operating_system_linux_t.Samples.Counter.Worker.{Going, Active}
use operating_system_linux_t.Samples.Counter.Workers.{Distinct, AllEntry}

-- The first thread of the list is `t`.
abbrev pub StartsWith : ℕ → Cells → Type 0
StartsWith t [] = Unit
StartsWith t ((a, u) ∷ xs) = t ≡ u

StartsWith-append :
    (t b u : ℕ) (xs : Cells)
    → StartsWith t xs
    → (length xs ≡ 0 → t ≡ u)
    → StartsWith t (xs ++ (b, u) ∷ [])
StartsWith-append t b u [] h z = z refl
StartsWith-append t b u ((a, v) ∷ xs) h z = h

any_item-append :
    (t b u : ℕ) (xs : Cells)
    → any_item (λ v. v == t) (xs ++ (b, u) ∷ []) ≡ (any_item (λ v. v == t) xs || (u == t))
any_item-append t b u [] = ground arith
any_item-append t b u ((a, v) ∷ xs) = ground (arith, any_item-append t b u xs)

Distinct-append :
    (b u : ℕ) (xs : Cells)
    → Distinct xs
    → any_item (λ v. v == u) xs ≡ false
    → Distinct (xs ++ (b, u) ∷ [])
Distinct-append b u [] dist out = (refl, tt)
Distinct-append b u ((a, v) ∷ xs) dist out = (
  ground (arith, any_item-append v b u xs, dist.0, out),
  Distinct-append b u xs dist.1 (ground (arith, out)),
)

-- The threads that a create of `t` leaves.
Active-append :
    (ts ts' : Threads) (t b : ℕ) (xs : Cells)
    → ((u : ℕ) → (t == u) ≡ false → ts' u ≡ ts u)
    → any_item (λ v. v == t) xs ≡ false
    → is_active (ts' t).state ≡ true
    → Active ts xs
    → Active ts' (xs ++ (b, t) ∷ [])
Active-append ts ts' t b [] kept out on act = (on, tt)
Active-append ts ts' t b ((a, u) ∷ xs) kept out on act = (
  ap (λ y. is_active y.state) (kept u (ground (arith, out))) ∙ act.0,
  Active-append ts ts' t b xs kept (ground (arith, out)) on act.1,
)

AllEntry-append :
    (ts ts' : Threads) (t b r g : ℕ) (xs : Cells)
    → ((u : ℕ) → (t == u) ≡ false → ts' u ≡ ts u)
    → any_item (λ v. v == t) xs ≡ false
    → (ts' t).ctx ≡ entry r g
    → AllEntry ts xs
    → AllEntry ts' (xs ++ (b, t) ∷ [])
AllEntry-append ts ts' t b r g [] kept out on all = ((r, g, on), tt)
AllEntry-append ts ts' t b r g ((a, u) ∷ xs) kept out on ((r', g', e), all) = (
  (r', g', ap (λ y. y.ctx) (kept u (ground (arith, out))) ∙ e),
  AllEntry-append ts ts' t b r g xs kept (ground (arith, out)) on all,
)

filled_in-th_id :
    (t routine arg : ℕ) (m : Machine)
    → ((filled_in t routine arg m).threads t).th_id ≡ inc m.mypthread_th_gen
filled_in-th_id t routine arg m = ground arith

inc_gen : (i g : ℕ) → g ≡ suc i → i < 2 ^ 31 → inc g ≡ suc (suc i)
inc_gen i g e lt = ground (arith, e)

-- The structs of the threads are different ones, and none is `main_thread`.
pub record Handles (n : ℕ) (threads : ℕ → ℕ) : Type 0 where
  pub apart : (i j : ℕ) → i < j → j < n → (threads i == threads j) ≡ false
  pub others : (j : ℕ) → j < n → (threads j == 0) ≡ false

module _ (mutex tid x k routine n : ℕ) (threads : ℕ → ℕ) where
  -- The state before the create of thread `i`.
  pub record Made (i : ℕ) (m : Machine) (qs : Cells) : Type 0 where
    pub going : Going mutex tid x k 0 m qs
    pub policy : m.mypthread_policy ≡ ulonly
    pub gen : m.mypthread_th_gen ≡ suc i
    pub place : (m.threads 0).ctx ≡ uninit
    pub main_id : (m.threads 0).th_id ≡ 1
    pub ids : (j : ℕ) → j < i → (m.threads (threads j)).th_id ≡ suc (suc j)
    pub active : Active m.threads qs
    pub distinct : Distinct qs
    pub entries : AllEntry m.threads qs
    pub out : any_item (λ u. u == 0) qs ≡ false
    pub later : (j : ℕ) → i ≤ j → j < n → any_item (λ u. u == threads j) qs ≡ false
    pub size : length qs ≡ i
    pub starts : StartsWith (threads 0) qs

  ids-next :
      (ts ts' : Threads) (i : ℕ)
      → ((j : ℕ) → j < i → (ts (threads j)).th_id ≡ suc (suc j))
      → ((j : ℕ) → j < i → ts' (threads j) ≡ ts (threads j))
      → (ts' (threads i)).th_id ≡ suc (suc i)
      → (j : ℕ) → j < suc i
      → (ts' (threads j)).th_id ≡ suc (suc j)
  ids-next ts ts' i old same new j lt = elim (Bool-cases (j == i)) [
    | inl e ↦
        let e' : j ≡ i = ground (arith, e) in
        subst (λ l. (ts' (threads l)).th_id ≡ suc (suc l)) (sym e') new
    | inr ne ↦ let lt' : j < i = ground (arith, ne) in ap (λ y. y.th_id) (same j lt') ∙ old j lt'
  ]

  create-Made :
      (pid : Option ℕ) (i : ℕ) (m : Machine) (qs : Cells)
      → Handles n threads
      → i < n
      → n < 2 ^ 31
      → Made i m qs
      → (m' : Machine) × (mypthread_create tid pid (threads i) routine 0 m ≡ ok (0, m'))
        × Made (suc i) m' (qs ++ (m.nodes.fresh, threads i) ∷ [])
  create-Made pid i m qs hs lt small made =
      let g = made.going in
      let t = threads i in
      let c =
        mypthread_create-Creates tid pid t routine 0 m qs ((x, k) ∷ []) g.free g.lists
          (ground (arith, g.count)) in
      let m' = with_queue c.mid.0 c.mid.1 (filled_in t routine 0 m) in
      let kept : (u : ℕ) → (t == u) ≡ false → m'.threads u ≡ m.threads u =
        λ u ne. ground (arith, ne) in
      let other : (t == 0) ≡ false = hs.others i lt in
      (
        m',
        c.enters ∙ after _ _ (never-more pid m' (rw made.policy) (rw made.policy)) refl,
        record {
          going = record {
            free = record {
              mypthread = g.free.mypthread;
              mutex = g.free.mutex;
              kthread = g.free.kthread;
              cond = g.free.cond;
            };
            lists = record {
              queue = c.added.list;
              tail = c.added.ends;
              kernel = g.lists.kernel;
              ktail = g.lists.ktail;
            };
            current = record { found = g.current.found; runs = g.current.runs };
            lock = g.lock;
            waiters = g.waiters;
            count = ground (arith, g.count, made.size, length-append qs ((m.nodes.fresh, t) ∷ []));
            small = omega (arith, made.size, length-append qs ((m.nodes.fresh, t) ∷ []));
          };
          policy = made.policy;
          gen = inc_gen i m.mypthread_th_gen made.gen (omega (arith, lt, small));
          place = ap (λ y. y.ctx) (kept 0 other) ∙ made.place;
          main_id = ap (λ y. y.th_id) (kept 0 other) ∙ made.main_id;
          ids =
              ids-next m.threads m'.threads i made.ids
                (λ j lj. kept (threads j) (==_sym_false (threads j) t (hs.apart j i lj lt)))
                (filled_in-th_id t routine 0 m
                  ∙ inc_gen i m.mypthread_th_gen made.gen (omega (arith, lt, small)));
          active =
              Active-append m.threads m'.threads t m.nodes.fresh qs kept
                (made.later i (omega arith) lt) (ground arith) made.active;
          distinct =
              Distinct-append m.nodes.fresh t qs made.distinct (made.later i (omega arith) lt);
          entries =
              AllEntry-append m.threads m'.threads t m.nodes.fresh routine 0 qs kept
                (made.later i (omega arith) lt) (ground arith) made.entries;
          out = any_item-append 0 m.nodes.fresh t qs ∙ ground (arith, made.out, other);
          later = λ j le lj.
              any_item-append (threads j) m.nodes.fresh t qs
              ∙ ground
                  (arith, made.later j (omega (arith, le)) lj, hs.apart i j (omega (arith, le)) lj);
          size = omega (arith, made.size, length-append qs ((m.nodes.fresh, t) ∷ []));
          starts =
              StartsWith-append (threads 0) m.nodes.fresh t qs made.starts
                (λ z. ap threads (omega (arith, made.size, z)));
        },
      )

  pub create_all-Made :
      (pids : ℕ → Option ℕ) (left i : ℕ) (m : Machine) (qs : Cells)
      → Handles n threads
      → i + left ≡ n
      → n < 2 ^ 31
      → Made i m qs
      → (m' : Machine) × (qs' : Cells) × (create_all left tid i routine threads (λ j. 0) pids m
          ≡ ok (tt, m'))
        × Made n m' qs'
  unfolding create_all
  create_all-Made pids zero i m qs hs e small made =
      (m, qs, refl, subst (λ j. Made j m qs) (omega (arith, e)) made)
  create_all-Made pids (suc left) i m qs hs e small made =
      let (m', run, made') = create-Made (pids i) i m qs hs (omega (arith, e)) small made in
      let (m'', qs', rest, all) =
        create_all-Made pids left (suc i) m' (qs ++ (m.nodes.fresh, threads i) ∷ []) hs
          (omega (arith, e)) small made' in
      (m'', qs', after _ _ run rest, all)
