-- ===== src/Memory.antt =====
-- The memory that pthreads/queue_util.c works on: doubly linked nodes at addresses, given out by
-- malloc and given back by free, and the outcomes of code that reads and writes them.
-- `struct mypthread_queue_node` and `struct mykthread_ll_node` differ only in what they hold, so
-- the node is generic in its item. malloc succeeds and never hands out an address twice, hence an
-- access to a node after its free is a fault.
pub mod Chain
use operating_system_linux_t.Common.{ℕ, suc, Bool, false, Option, none, some, ◌==◌, if◌then◌else◌}

-- The semaphores of pthreads/mypthread.c.
pub data Sem : Type 0 where
  mypthread_sem mutex_sem kthread_sem cond_sem : Sem

-- How a piece of code ends. `blocked s` waits in `sem_wait(&s)` with the semaphore at 0, and
-- `exited` is `exit(EXIT_FAILURE)`.
pub data Run {ℓ} (A : Type ℓ) : Type ℓ where
  ok : A → Run A
  fault : Run A
  blocked : Sem → Run A
  out_of_fuel : Run A
  exited : Run A

infixl 5 ◌>>=◌
abbrev pub ◌>>=◌ {ℓ κ} : {A : Type ℓ} {B : Type κ} → Run A → (A → Run B) → Run B
ok a >>= k = k a
fault >>= k = fault
blocked s >>= k = blocked s
out_of_fuel >>= k = out_of_fuel
exited >>= k = exited

-- A pointer; `none` is NULL.
abbrev pub Ptr : Type 0
Ptr = Option ℕ

abbrev pub is_null : Ptr → Bool
is_null none = Bool.true
is_null (some _) = false

abbrev pub ptr_eq : Ptr → Ptr → Bool
ptr_eq none none = Bool.true
ptr_eq none (some b) = false
ptr_eq (some a) none = false
ptr_eq (some a) (some b) = a == b

pub record Node {ℓ} (A : Type ℓ) : Type ℓ where
  pub prev : Ptr
  pub item : A
  pub next : Ptr

abbrev pub node {ℓ} : {A : Type ℓ} → Ptr → A → Ptr → Node A
node p a n = record { prev = p; item = a; next = n }

-- The live nodes, and the address that malloc gives next.
pub record Heap {ℓ} (A : Type ℓ) : Type ℓ where
  pub cells : ℕ → Option (Node A)
  pub fresh : ℕ

-- The head and the tail of a list, the two globals or the two fields that hold them.
pub record Ends : Type 0 where
  pub head : Ptr
  pub tail : Ptr

abbrev pub no_ends : Ends
no_ends = record { head = none; tail = none }

module _ {ℓ} {A : Type ℓ} where
  abbrev pub write : Heap A → ℕ → Option (Node A) → Heap A
  write h a c = record h { cells = λ x. if a == x then c else h.cells x }

  -- `*p`: a fault at NULL and at an address that holds no node.
  abbrev pub load : Heap A → Ptr → Run (Node A)
  load h none = fault
  load h (some a) = elim (h.cells a) [ none ↦ fault | some n ↦ ok n ]

  abbrev pub store : Heap A → Ptr → Node A → Run (Heap A)
  store h none n = fault
  store h (some a) n = ok (write h a (some n))

  -- `p->next = q` and `p->prev = q`
  abbrev pub set_next : Heap A → Ptr → Ptr → Run (Heap A)
  set_next h p q = load h p >>= λ n. store h p (record n { next = q })

  abbrev pub set_prev : Heap A → Ptr → Ptr → Run (Heap A)
  set_prev h p q = load h p >>= λ n. store h p (record n { prev = q })

  abbrev pub free : Heap A → Ptr → Run (Heap A)
  free h none = ok h
  free h (some a) = elim (h.cells a) [ none ↦ fault | some n ↦ ok (write h a none) ]

-- Pointwise update of a table, for the structs that the caller owns.
abbrev pub update {ℓ} : {A : Type ℓ} → (ℕ → A) → ℕ → A → ℕ → A
update f a v x = if a == x then v else f x
