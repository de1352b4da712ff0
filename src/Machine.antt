-- ===== src/Machine.antt =====
-- The state of the thread library of pthreads/mypthread.c: its globals, the run queue and the list
-- of kernel threads of pthreads/queue_util.c, and the structs that its callers own. Code that
-- changes it is explicit state passing with failure; each function gets the answer of `gettid()`
-- as an argument.
pub mod Gives
pub mod Inv
pub mod Ops
use operating_system_linux_t.Common.{
  ℕ, ◌+◌, ◌-◌, ◌%◌, ◌^◌, Option, none, some, List, ◌==◌, ◌≡◌, refl, if◌then◌else◌, ltb, Bool,
}
use operating_system_linux_t.Memory.{
  Run, ok, fault, blocked, out_of_fuel, exited, Sem, Ptr, Heap, Ends, update,
}
use operating_system_linux_t.Thread.{
  Thread, Threads, Kthread, Kthreads, Mutex, Cond, Context, State,
}

pub record Machine : Type 0 where
  pub mypthread_policy : ℕ
  pub mypthread_count : ℕ
  pub mypthread_th_gen : ℕ
  pub cpu_cores : ℕ
  pub thread_per_core : ℕ
  pub max_kthread_count : ℕ
  pub current_kthread_count : ℕ
  pub mypthread_sem : ℕ
  pub mutex_sem : ℕ
  pub kthread_sem : ℕ
  pub cond_sem : ℕ
  pub threads : Threads
  pub kthreads : Kthreads
  pub next_kthread : ℕ  -- the `mykthread_t` that malloc gives next
  pub nodes : Heap ℕ  -- of `struct mypthread_queue_node`
  pub mypthread_q : Ends
  pub knodes : Heap ℕ  -- of `struct mykthread_ll_node`
  pub mykthread_ll : Ends
  pub mutexes : ℕ → Mutex
  pub conds : ℕ → Cond
  pub started : List ℕ  -- kernel threads that `clone` has started in `schedule_kthread`

abbrev pub M : Type 0 → Type 0
M A = Machine → Run (A × Machine)

abbrev pub pure : {A : Type 0} → A → M A
pure a m = ok (a, m)

infixl 5 ◌>>=◌ ◌>>◌
unfoldable pub ◌>>=◌ : {A B : Type 0} → M A → (A → M B) → M B
◌>>=◌ c f m = elim (c m) [
  | ok (a, m') ↦ f a m'
  | fault ↦ fault
  | blocked s ↦ blocked s
  | out_of_fuel ↦ out_of_fuel
  | exited ↦ exited
]

abbrev pub ◌>>◌ : {B : Type 0} → M (Unit {0}) → M B → M B
c >> k = c >>= λ _. k

-- A step that succeeds is followed by the rest.
pub after :
    {A B : Type 0} (c : M A) (f : A → M B) {m : Machine} {a : A} {m' : Machine}
    {r : Run (B × Machine)}
    → c m ≡ ok (a, m')
    → f a m' ≡ r
    → (c >>= f) m ≡ r
unfolding ◌>>=◌
after c f e k = rw (e, ◌>>=◌) k

-- A step that does not succeed ends the whole.
pub stop-fault :
    {A B : Type 0} (c : M A) (f : A → M B) {m : Machine} → c m ≡ fault → (c >>= f) m ≡ fault
unfolding ◌>>=◌
stop-fault c f e = rw (e, ◌>>=◌)

pub stop-blocked :
    {A B : Type 0} (c : M A) (f : A → M B) {m : Machine} {s : Sem}
    → c m ≡ blocked s
    → (c >>= f) m ≡ blocked s
unfolding ◌>>=◌
stop-blocked c f e = rw (e, ◌>>=◌)

abbrev pub get : M Machine
get m = ok (m, m)

abbrev pub put : Machine → M (Unit {0})
put m' m = ok (tt, m')

abbrev pub modify : (Machine → Machine) → M (Unit {0})
modify f m = ok (tt, f m)

-- A value computed by code that does not touch the globals.
abbrev pub lift : {A : Type 0} → Run A → M A
lift (ok a) m = ok (a, m)
lift fault m = fault
lift (blocked s) m = blocked s
lift out_of_fuel m = out_of_fuel
lift exited m = exited

-- A pointer that is about to be dereferenced.
abbrev pub deref : Ptr → M ℕ
deref none m = fault
deref (some a) m = ok (a, m)

-- `int` counters keep their wrap-around.
abbrev pub int_mod : ℕ
int_mod = 2 ^ 32

abbrev pub inc : ℕ → ℕ
inc n = (n + 1) % int_mod

abbrev pub dec : ℕ → ℕ
dec n = (n + int_mod - 1) % int_mod

-- `<` on the `int` values that two bit patterns stand for.
abbrev pub int_lt : ℕ → ℕ → Bool
int_lt a b = ltb ((a + 2 ^ 31) % int_mod) ((b + 2 ^ 31) % int_mod)

abbrev pub set_thread : ℕ → Thread → Machine → Machine
set_thread t v m = record m { threads = update m.threads t v }

abbrev pub set_ctx : ℕ → Context → Machine → Machine
set_ctx t c m = set_thread t (record (m.threads t) { ctx = c }) m

abbrev pub set_status : ℕ → State → Machine → Machine
set_status t s m = set_thread t (record (m.threads t) { state = s }) m

abbrev pub set_kthread : ℕ → Kthread → Machine → Machine
set_kthread k v m = record m { kthreads = update m.kthreads k v }

abbrev pub set_mutex : ℕ → Mutex → Machine → Machine
set_mutex a v m = record m { mutexes = update m.mutexes a v }

abbrev pub set_cond : ℕ → Cond → Machine → Machine
set_cond a v m = record m { conds = update m.conds a v }
