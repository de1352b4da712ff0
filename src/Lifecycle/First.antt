-- ===== src/Lifecycle/First.antt =====
-- The first call of `mypthread_create` in pthreads/mypthread.c, which sets the library up.
use operating_system_linux_t.Common.{
  ℕ, ◌+◌, ◌≡◌, refl, sym, ◌∙◌, true, false, Option, none, some, [], ◌∷◌, ◌==◌, ==_iff, arith,
}
use operating_system_linux_t.Memory.{ok, kthread_sem, node, write}
use operating_system_linux_t.Memory.Chain.{Cells}
use operating_system_linux_t.Thread.{uninit, ps_running}
use operating_system_linux_t.Queue.{create_node, mykthread_add}
use operating_system_linux_t.Machine.{Machine, ◌>>=◌, after, inc, set_thread, set_kthread}
use operating_system_linux_t.Machine.Ops.{add_kthread, sem_wait-one, sem_post_lem}
use operating_system_linux_t.Machine.Inv.{Unlocked, Lists, Current}
use operating_system_linux_t.Lifecycle.{
  init_locks, new_kthread, main_thread, create_main, set_up, mypthread_create,
}
use operating_system_linux_t.Lifecycle.Create.{Creates, mypthread_create-Creates}

-- The state that the set-up leaves: the semaphores free, the caller's thread running on the one
-- kernel thread of the list.
abbrev pub prepared : ℕ → Machine → Machine
prepared tid m =
    let n =
      set_thread main_thread
        (record (m.threads main_thread) {
          th_id = inc m.mypthread_th_gen;
          ctx = uninit;
          state = ps_running;
        })
        m in
    record (set_kthread m.next_kthread (record { kth_id = tid; th = some main_thread }) n) {
      mypthread_sem = 1;
      mutex_sem = 1;
      cond_sem = 1;
      kthread_sem = 1;
      mypthread_th_gen = inc m.mypthread_th_gen;
      mypthread_count = inc m.mypthread_count;
      next_kthread = m.next_kthread + 1;
      current_kthread_count = 1;
      knodes = record (write m.knodes m.knodes.fresh (some (node none m.next_kthread none))) {
        fresh = m.knodes.fresh + 1;
      };
      mykthread_ll = record { head = some m.knodes.fresh; tail = some m.knodes.fresh };
    }

add_kthread-first :
    (k : ℕ) (m : Machine)
    → m.mykthread_ll.head ≡ none
    → add_kthread k m
      ≡ ok (
        tt,
        record m {
          knodes = record (write m.knodes m.knodes.fresh (some (node none k none))) {
            fresh = m.knodes.fresh + 1;
          };
          mykthread_ll = record { head = some m.knodes.fresh; tail = some m.knodes.fresh };
        },
      )
unfolding add_kthread mykthread_add create_node ◌>>=◌
add_kthread-first k m e = rw e refl

create_main-prepared :
    (tid : ℕ) (m : Machine)
    → m.mykthread_ll.head ≡ none
    → create_main tid m ≡ ok (tt, prepared tid m)
unfolding create_main init_locks new_kthread
create_main-prepared tid m e = after _ _ refl (
    after _ _ refl (
      after _ _ refl (
        after _ _ refl (
          after _ _ refl (
            after _ _ (sem_wait-one kthread_sem _ refl) (
              after _ _ refl (
                after _ _ (add_kthread-first m.next_kthread _ e) (sem_post_lem kthread_sem _))))))))

set_up-first :
    (tid : ℕ) (m : Machine)
    → m.mypthread_count ≡ 0
    → m.mykthread_ll.head ≡ none
    → set_up tid m ≡ ok (tt, prepared tid m)
unfolding set_up
set_up-first tid m z e =
    let first : (m.mypthread_count == 0) ≡ true = (==_iff m.mypthread_count 0).1 z in
    after _ _ refl (rw first (create_main-prepared tid m e))

set_up-again :
    (tid : ℕ) (m : Machine) → (m.mypthread_count == 0) ≡ false → set_up tid m ≡ ok (tt, m)
unfolding set_up
set_up-again tid m nz = after _ _ refl (rw nz)

create-prepared :
    (tid : ℕ) (pid : Option ℕ) (thread routine arg : ℕ) (m : Machine)
    → m.mypthread_count ≡ 0
    → m.mykthread_ll.head ≡ none
    → mypthread_create tid pid thread routine arg m
      ≡ mypthread_create tid pid thread routine arg (prepared tid m)
unfolding mypthread_create
create-prepared tid pid thread routine arg m z e =
    after _ _ (set_up-first tid m z e) refl
    ∙ sym (after _ _ (set_up-again tid (prepared tid m) (rw z refl)) refl)

-- The list of kernel threads with the one node of the caller.
abbrev pub first_kernel : Machine → Cells
first_kernel m = (m.knodes.fresh, m.next_kthread) ∷ []

prepared-Lists :
    (tid : ℕ) (m : Machine) → Lists m [] [] → Lists (prepared tid m) [] (first_kernel m)
prepared-Lists tid m l = record {
  queue = l.queue;
  tail = tt;
  kernel = record {
    starts = refl;
    chain = (ground arith, refl, tt);
    below = (omega arith, tt);
    few = omega arith;
  };
  ktail = refl;
}

prepared-Current :
    (tid : ℕ) (m : Machine)
    → Current (prepared tid m) (first_kernel m) tid m.next_kthread main_thread
prepared-Current tid m = record { found = ground arith; runs = ground arith }

-- What the first `mypthread_create` does before it goes on as every later one.
pub record First (tid : ℕ) (pid : Option ℕ) (thread routine arg : ℕ) (m : Machine) : Type 0 where
  pub same :
      mypthread_create tid pid thread routine arg m
      ≡ mypthread_create tid pid thread routine arg (prepared tid m)
  pub free : Unlocked (prepared tid m)
  pub lists : Lists (prepared tid m) [] (first_kernel m)
  pub current : Current (prepared tid m) (first_kernel m) tid m.next_kthread main_thread
  pub creates : Creates tid pid thread routine arg (prepared tid m) []

-- On a library that is not set up, with its lists empty, `mypthread_create` makes the four semaphores
-- free, makes the calling thread the running one of the only kernel thread in the list, whatever
-- the semaphores were, and then creates the thread as it does later.
pub mypthread_create-First :
    (tid : ℕ) (pid : Option ℕ) (thread routine arg : ℕ) (m : Machine)
    → m.mypthread_count ≡ 0
    → Lists m [] []
    → First tid pid thread routine arg m
mypthread_create-First tid pid thread routine arg m z l =
    let u : Unlocked (prepared tid m) = record {
      mypthread = refl;
      mutex = refl;
      kthread = refl;
      cond = refl;
    } in
    let lists = prepared-Lists tid m l in
    let set : (inc m.mypthread_count == 0) ≡ false = rw z refl in
    record {
      same = create-prepared tid pid thread routine arg m z l.kernel.starts;
      free = u;
      lists = lists;
      current = prepared-Current tid m;
      creates =
          mypthread_create-Creates tid pid thread routine arg (prepared tid m) [] (first_kernel m) u
            lists set;
    }
