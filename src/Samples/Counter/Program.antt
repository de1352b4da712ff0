-- ===== src/Samples/Counter/Program.antt =====
-- pthreads/mypthread_sample4.c from its first line to the exit of `main`, with the policy ULONLY.
use operating_system_linux_t.Common.{
  ℕ, suc, ◌+◌, ◌-◌, ◌≤◌, ◌<◌, ◌^◌, ◌≡◌, refl, ap, sym, ◌∙◌, subst, false, none, Option, [], ◌∷◌,
  length, arith,
}
use operating_system_linux_t.Memory.{ok, no_ends}
use operating_system_linux_t.Memory.Chain.{Cells}
use operating_system_linux_t.Machine.{Machine, M, ◌>>=◌, after, set_mutex}
use operating_system_linux_t.Machine.Inv.{Lists}
use operating_system_linux_t.Scheduler.Switch.{can_save}
use operating_system_linux_t.Lifecycle.{ulonly, mypthread_init, mypthread_create}
use operating_system_linux_t.Lifecycle.First.{prepared, mypthread_create-First}
use operating_system_linux_t.Sync.{mypthread_mutex_init}
use operating_system_linux_t.Samples.{create_all}
use operating_system_linux_t.Samples.Counter.Creates.{Made, Handles, create_all-Made}
use operating_system_linux_t.Samples.Counter.Drive.{count_threads, run_many}
use operating_system_linux_t.Samples.Counter.Total.{count_threads-total}

-- The state before the loop that creates the threads.
abbrev pub opened : (mutex cores hyper : ℕ) → Machine → Machine
opened mutex cores hyper m =
    set_mutex mutex (record { lock = false; blocked_q = no_ends })
      (record m {
        mypthread_policy = ulonly;
        cpu_cores = cores;
        thread_per_core = hyper;
        max_kthread_count = 1;
      })

pub bind-eq :
    {A B : Type 0} (c : M A) (f : A → M B) (m n : Machine) → c m ≡ c n → (c >>= f) m ≡ (c >>= f) n
unfolding ◌>>=◌
bind-eq c f m n e = rw (e, ◌>>=◌)

mutex_init-opened :
    (mutex cores hyper : ℕ) (m : Machine)
    → mypthread_mutex_init mutex (mypthread_init ulonly cores hyper m)
      ≡ ok (0, opened mutex cores hyper m)
unfolding mypthread_mutex_init mypthread_init ◌>>=◌
mutex_init-opened mutex cores hyper m = refl

module _ (mutex tid routine n : ℕ) (threads : ℕ → ℕ) where
  prepared-Made :
      (m : Machine)
      → m.mypthread_count ≡ 0
      → m.mypthread_th_gen ≡ 0
      → m.mypthread_policy ≡ ulonly
      → (m.mutexes mutex).lock ≡ false
      → (m.mutexes mutex).blocked_q.head ≡ none
      → Lists m [] []
      → Made mutex tid m.knodes.fresh m.next_kthread routine n threads 0 (prepared tid m) []
  prepared-Made m count gen policy lock waiters lists =
      let f = mypthread_create-First tid none 0 0 0 m count lists in
      record {
        going = record {
          free = f.free;
          lists = f.lists;
          current = f.current;
          lock = lock;
          waiters = waiters;
          count = ground (arith, count);
          small = omega arith;
        };
        policy = policy;
        gen = ground (arith, gen);
        place = ground arith;
        main_id = ground (arith, gen);
        ids = λ j lt. absurd (omega (arith, lt));
        active = tt;
        distinct = tt;
        entries = tt;
        out = refl;
        later = λ j le lt. refl;
        size = refl;
        starts = tt;
      }

  create_all-same :
      (left : ℕ) (pids : ℕ → Option ℕ) (m m' : Machine)
      → mypthread_create tid (pids 0) (threads 0) routine 0 m
        ≡ mypthread_create tid (pids 0) (threads 0) routine 0 m'
      → create_all (suc left) tid 0 routine threads (λ j. 0) pids m
        ≡ create_all (suc left) tid 0 routine threads (λ j. 0) pids m'
  unfolding create_all
  create_all-same left pids m m' e =
      bind-eq (mypthread_create tid (pids 0) (threads 0) routine 0) _ m m' e

  -- The loop sets the library up at its first create.
  create_all-prepared :
      (left : ℕ) (pids : ℕ → Option ℕ) (m : Machine)
      → m.mypthread_count ≡ 0
      → Lists m [] []
      → create_all (suc left) tid 0 routine threads (λ j. 0) pids m
        ≡ create_all (suc left) tid 0 routine threads (λ j. 0) pids (prepared tid m)
  create_all-prepared left pids m count lists =
      create_all-same left pids m (prepared tid m)
        (mypthread_create-First tid (pids 0) (threads 0) routine 0 m count lists).same

  run_many-opened :
      (fuel cores hyper : ℕ) (pids : ℕ → Option ℕ) (m : Machine) {m' : Machine} {v : ℕ}
      {m'' : Machine}
      → create_all n tid 0 routine threads (λ j. 0) pids (opened mutex cores hyper m) ≡ ok (tt, m')
      → count_threads fuel n tid mutex threads m' ≡ ok (v, m'')
      → run_many fuel n ulonly cores hyper tid routine mutex threads pids m ≡ ok (v, m'')
  unfolding run_many
  run_many-opened fuel cores hyper pids m run rest =
      after _ _ refl (after _ _ (mutex_init-opened mutex cores hyper m) (after _ _ run rest))

  Made-total :
      (x k left fuel : ℕ) (m : Machine) (qs : Cells)
      → n ≡ suc left
      → n < 2 ^ 31
      → Made mutex tid x k routine n threads n m qs
      → (m' : Machine) × (count_threads (suc (left + suc (suc fuel))) n tid mutex threads m
          ≡ ok (n, m'))
  Made-total x k left fuel m [] e small made = absurd (omega (arith, e, made.size))
  Made-total x k left fuel m ((a, t) ∷ ws) e small made =
      let size : suc (length ws) ≡ n = made.size in
      let (m', run) =
        count_threads-total mutex tid x k 0 a t threads m ws fuel made.going made.starts
          (λ i le lt. rw (made.main_id, made.ids i (omega (arith, size, lt))) (ground arith))
          (ap can_save made.place) made.active made.distinct made.entries made.out
          (omega (arith, size, small)) in
      (
        m',
        subst (λ l. count_threads (suc (l + suc (suc fuel))) n tid mutex threads m ≡ ok (n, m'))
            (omega (arith, size, e))
            (subst
              (λ j.
                count_threads (suc (length ws + suc (suc fuel))) j tid mutex threads m ≡ ok (j, m'))
              size run),
      )

  -- On a library that is not in use yet, with the policy ULONLY, n thread structs that are
  -- different from each other and from the main thread's, and n from 1 to below 2 ^ 31, the
  -- whole program, from mypthread_init to the exit of main, ends without a fault on n + 2 turns
  -- of the kernel thread as fuel or more, and the counter is n, whatever the answers of clone
  -- and the counts of cores.
  pub run_many-total :
      (fuel cores hyper : ℕ) (pids : ℕ → Option ℕ) (m : Machine)
      → 1 ≤ n
      → n < 2 ^ 31
      → Handles n threads
      → m.mypthread_count ≡ 0
      → m.mypthread_th_gen ≡ 0
      → Lists m [] []
      → (m' : Machine) × (run_many
            (n + suc (suc fuel))
            n
            ulonly
            cores
            hyper
            tid
            routine
            mutex
            threads
            pids
            m
          ≡ ok (n, m'))
  run_many-total fuel cores hyper pids m some_left small hs count gen lists =
      let left = n - 1 in
      let e : n ≡ suc left = omega arith in
      let o = opened mutex cores hyper m in
      let lo : Lists o [] [] = record {
        queue = lists.queue;
        tail = tt;
        kernel = lists.kernel;
        ktail = tt;
      } in
      let made = prepared-Made o count gen refl (ground arith) (ground arith) lo in
      let (m', qs, run, all) =
        create_all-Made mutex tid m.knodes.fresh m.next_kthread routine n threads pids n 0
          (prepared tid o) [] hs (omega arith) small made in
      let (m'', done) = Made-total m.knodes.fresh m.next_kthread left fuel m' qs e small all in
      let same =
        subst
          (λ j.
            create_all j tid 0 routine threads (λ i. 0) pids o
            ≡ create_all j tid 0 routine threads (λ i. 0) pids (prepared tid o))
          (sym e) (create_all-prepared left pids o count lo) in
      (
        m'',
        run_many-opened (n + suc (suc fuel)) cores hyper pids m (same ∙ run) (
            subst (λ f. count_threads f n tid mutex threads m' ≡ ok (n, m'')) (omega (arith, e))
              done),
      )
