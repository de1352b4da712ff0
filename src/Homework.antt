-- ===== src/Homework.antt =====
-- The first thread library, hw1/mypthread.c, whose queue hw1/mypthread_queue.c has too: threads in a
-- ring of nodes, from `front` round to `rear` and back.
pub mod Ring
pub mod Cpuinfo
pub mod Ids
use operating_system_linux_t.Common.{
  ℕ, ◌+◌, ◌^◌, ◌%◌, Bool, true, false, ◌||◌, Option, none, some, List, [], ◌∷◌, ◌==◌, if◌then◌else◌,
  ltb,
}
use operating_system_linux_t.Memory.{Run, ok, fault, exited, ◌>>=◌, Ptr, is_null, ptr_eq, update}
use operating_system_linux_t.Links.{Link, Links, new_link, load_link, set_link, free_link}
use operating_system_linux_t.Machine.{inc, int_lt}

-- The globals `front` and `rear`.
pub record Queue : Type 0 where
  pub front : Ptr
  pub rear : Ptr

-- `push_thread`, and `push` of hw1/mypthread_queue.c
unfoldable pub push_thread : Links ℕ → Queue → ℕ → Run (Links ℕ × Queue)
push_thread h q tcb =
    let (temp, h₁) = new_link h tcb none in
    elim q.front [
      | none ↦ do
        h₂ ← set_link h₁ (some temp) (some temp)
        ok (h₂, record { front = some temp; rear = some temp })
      | some front ↦ do
        h₂ ← set_link h₁ q.rear (some temp)
        n ← load_link h₂ q.rear
        h₃ ← set_link h₂ n.next (some front)
        ok (h₃, record q { rear = n.next })
    ]

-- `pop_thread`, and `pop` of hw1/mypthread_queue.c. `junk` is the address of the fresh struct that
-- is returned where nothing is taken.
unfoldable pub pop_thread : Links ℕ → Queue → ℕ → Run (ℕ × Links ℕ × Queue)
pop_thread h q junk = if ptr_eq q.front q.rear || is_null q.front then ok (junk, h, q) else do
  n ← load_link h q.front
  h₁ ← set_link h q.rear n.next
  h₂ ← free_link h₁ q.front
  ok (n.item, h₂, record q { front = n.next })

-- The globals, the ids of the threads by address, the addresses that malloc gives to structs, and
-- the kernel threads that `clone` has started.
pub record Library : Type 0 where
  pub policy_defined : ℕ
  pub no_of_kt : ℕ
  pub thread_count : ℕ
  pub nodes : Links ℕ
  pub queue : Queue
  pub ids : ℕ → ℕ
  pub active : ℕ → Bool  -- `cur_state` is PS_ACTIVE
  pub routines : ℕ → Option (ℕ × ℕ)  -- the start routine and its argument
  pub next_struct : ℕ
  pub started : List ℕ

unfoldable pub mypthread_init : ℕ → Library → Library
mypthread_init kt l = record l { policy_defined = kt }

-- `clone` that answers `pid`, `none` for -1.
abbrev pub clone : Option ℕ → Library → Run Library
clone none l = exited
clone (some pid) l = ok (record l { started = pid ∷ l.started })

-- `mypthread_create_start`; `cores` and `hyper` are the counts of hw1/kernelthreadcount.c.
unfoldable pub mypthread_create_start : (cores hyper : ℕ) → Option ℕ → Library → Run Library
mypthread_create_start cores hyper pid l =
    if l.policy_defined == 1
    then (if int_lt l.no_of_kt cores then clone pid l else ok l)
    else (if l.policy_defined == 2
        then (if int_lt l.no_of_kt hyper then clone pid l else ok l)
        else (if l.policy_defined == 3 then clone pid l else ok l))

-- A push onto the library's queue.
unfoldable pub push_to : ℕ → Library → Run Library
unfolding push_thread
push_to tcb l = do (h, q) ← push_thread l.nodes l.queue tcb; ok (record l { nodes = h; queue = q })

-- `thread_count <= 0`: a struct for the caller, with the next id.
unfoldable pub create_main : Library → Run Library
unfolding push_to
create_main l =
    if int_lt 0 l.thread_count
    then ok l
    else push_to l.next_struct (record l {
      thread_count = inc l.thread_count;
      ids = update l.ids l.next_struct (inc l.thread_count);
      active = update l.active l.next_struct true;
      next_struct = l.next_struct + 1;
    })

-- The rest of `mypthread_create`, whose id is the count before it is counted up.
unfoldable pub create_thread : (thread routine arg : ℕ) → Library → Run Library
unfolding push_to
create_thread thread routine arg l = push_to thread (record l {
  thread_count = inc l.thread_count;
  ids = update l.ids thread l.thread_count;
  active = update l.active thread true;
  routines = update l.routines thread (some (routine, arg));
})

unfoldable pub mypthread_create :
    (cores hyper : ℕ) → Option ℕ → (thread routine arg : ℕ) → Library → Run Library
unfolding mypthread_create_start create_main create_thread
mypthread_create cores hyper pid thread routine arg l = do
  l₁ ← mypthread_create_start cores hyper pid l
  l₂ ← create_main l₁
  create_thread thread routine arg l₂
