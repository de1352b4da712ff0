-- ===== src/Lifecycle/Create.antt =====
-- `mypthread_create` of pthreads/mypthread.c once the library is set up, and its policies.
use operating_system_linux_t.Common.{
  ℕ, ◌≡◌, refl, Bool, true, false, ◌||◌, Option, none, some, ◌∷◌, ◌==◌,
}
use operating_system_linux_t.Memory.{ok, mypthread_sem, kthread_sem, Heap, Ends}
use operating_system_linux_t.Memory.Chain.{Cells}
use operating_system_linux_t.Thread.{entry, ps_active}
use operating_system_linux_t.Queue.Add.{Added}
use operating_system_linux_t.Machine.{Machine, ◌>>=◌, after, inc, int_lt, set_thread, pure}
use operating_system_linux_t.Machine.Ops.{sem_wait-one, sem_post_lem, mypthread_enqueue}
use operating_system_linux_t.Machine.Inv.{Unlocked, Lists, with_queue, enqueue-Added}
use operating_system_linux_t.Lifecycle.{
  klmatchcores, klmatchhyper, klalways, create_kthread, create_by_policy, set_up, mypthread_create,
}

-- The policy bounds the number of kernel threads.
abbrev pub is_bounded : ℕ → Bool
is_bounded policy = policy == klmatchcores || policy == klmatchhyper

pub bounded-full :
    (pid : Option ℕ) (m : Machine)
    → Unlocked m
    → is_bounded m.mypthread_policy ≡ true
    → int_lt m.current_kthread_count m.max_kthread_count ≡ false
    → create_by_policy pid m ≡ ok (tt, m)
unfolding create_by_policy
bounded-full pid m u b full = after _ _ refl (
    rw b (
      after _ _ (sem_wait-one kthread_sem m u.kthread) (
        after _ _ refl
          (rw full (after _ _ refl (after _ _ (sem_post_lem kthread_sem _) (rw u.kthread)))))))

-- The state with one more kernel thread counted.
abbrev pub counted : Machine → Machine
counted m = record m { current_kthread_count = inc m.current_kthread_count }

pub bounded-room :
    (pid : Option ℕ) (m : Machine)
    → Unlocked m
    → is_bounded m.mypthread_policy ≡ true
    → int_lt m.current_kthread_count m.max_kthread_count ≡ true
    → create_by_policy pid m ≡ create_kthread pid (counted m)
unfolding create_by_policy
bounded-room pid m u b room = after _ _ refl (
    rw b (
      after _ _ (sem_wait-one kthread_sem m u.kthread) (
        after _ _ refl
          (rw room (after _ _ refl (after _ _ (sem_post_lem kthread_sem _) (rw u.kthread)))))))

pub never-more :
    (pid : Option ℕ) (m : Machine)
    → is_bounded m.mypthread_policy ≡ false
    → (m.mypthread_policy == klalways) ≡ false
    → create_by_policy pid m ≡ ok (tt, m)
unfolding create_by_policy
never-more pid m b a = after _ _ refl (rw b (rw a))

pub create_kthread-ok :
    (pid : ℕ) (m : Machine)
    → create_kthread (some pid) m ≡ ok (tt, record m { started = pid ∷ m.started })
unfolding create_kthread
create_kthread-ok pid m = refl

-- The caller's struct and the counters after `mypthread_create` has filled them in.
abbrev pub filled_in : (thread routine arg : ℕ) → Machine → Machine
filled_in thread routine arg m =
    let n =
      set_thread thread (record (m.threads thread) { ctx = entry routine arg; state = ps_active })
        m in
    record (set_thread thread (record (n.threads thread) { th_id = inc m.mypthread_th_gen }) n) {
      mypthread_th_gen = inc m.mypthread_th_gen;
      mypthread_count = inc m.mypthread_count;
    }

-- What `mypthread_create` did up to the policy: the thread is active, has the next id, starts at the
-- routine, and is last in the queue. Its `dependent_th` is what the caller's memory held.
pub record Creates (tid : ℕ) (pid : Option ℕ) (thread routine arg : ℕ) (m : Machine) (qs : Cells)
    : Type 0 where
  pub mid : Heap ℕ × Ends
  pub added : Added none m.nodes qs thread mid
  pub enters :
      mypthread_create tid pid thread routine arg m
      ≡ (create_by_policy pid >>= λ _. pure 0)
          (with_queue mid.0 mid.1 (filled_in thread routine arg m))

set_up-later :
    (tid : ℕ) (m : Machine) → (m.mypthread_count == 0) ≡ false → set_up tid m ≡ ok (tt, m)
unfolding set_up
set_up-later tid m nz = after _ _ refl (rw nz)

create-later :
    (tid : ℕ) (pid : Option ℕ) (thread routine arg : ℕ) (m : Machine) (h : Heap ℕ) (e : Ends)
    → Unlocked m
    → (m.mypthread_count == 0) ≡ false
    → mypthread_enqueue thread (record (filled_in thread routine arg m) { mypthread_sem = 0 })
      ≡ ok (tt, with_queue h e (record (filled_in thread routine arg m) { mypthread_sem = 0 }))
    → mypthread_create tid pid thread routine arg m
      ≡ (create_by_policy pid >>= λ _. pure 0) (with_queue h e (filled_in thread routine arg m))
unfolding mypthread_create
create-later tid pid thread routine arg m h e u nz run = after _ _ (set_up-later tid m nz) (
    after _ _ refl (
      after _ _ refl (
        after _ _ (sem_wait-one mypthread_sem _ u.mypthread) (
          after _ _ refl (
            after _ _ refl (
              after _ _ refl
                (after _ _ run (after _ _ (sem_post_lem mypthread_sem _) (rw u.mypthread)))))))))

-- Once the library is set up, `mypthread_create` gives the thread the next id, makes it active at
-- its start routine and appends it to the run queue; then the policy decides on a kernel thread.
pub mypthread_create-Creates :
    (tid : ℕ) (pid : Option ℕ) (thread routine arg : ℕ) (m : Machine) (qs ks : Cells)
    → Unlocked m
    → Lists m qs ks
    → (m.mypthread_count == 0) ≡ false
    → Creates tid pid thread routine arg m qs
mypthread_create-Creates tid pid thread routine arg m qs ks u l nz =
    let (r, run, added) =
      enqueue-Added thread (record (filled_in thread routine arg m) { mypthread_sem = 0 }) qs
        l.queue l.tail in
    record {
      mid = r;
      added = added;
      enters = create-later tid pid thread routine arg m r.0 r.1 u nz run;
    }
