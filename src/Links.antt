-- ===== src/Links.antt =====
-- Singly linked nodes: `struct task` of server/threadpool.c and `struct thread_node` of
-- hw1/mypthread.c. As in Memory, malloc succeeds and does not reuse an address.
use operating_system_linux_t.Common.{ℕ, ◌+◌, Option, none, some, ◌==◌, if◌then◌else◌}
use operating_system_linux_t.Memory.{Run, ok, fault, Ptr}

pub record Link (A : Type 0) : Type 0 where
  pub item : A
  pub next : Ptr

pub record Links (A : Type 0) : Type 0 where
  pub cells : ℕ → Option (Link A)
  pub fresh : ℕ

module _ {A : Type 0} where
  abbrev pub link : A → Ptr → Link A
  link a n = record { item = a; next = n }

  abbrev pub put_link : Links A → ℕ → Option (Link A) → Links A
  put_link h a c = record h { cells = λ x. if a == x then c else h.cells x }

  abbrev pub load_link : Links A → Ptr → Run (Link A)
  load_link h none = fault
  load_link h (some a) = elim (h.cells a) [ none ↦ fault | some n ↦ ok n ]

  -- `p->next = q`
  abbrev pub set_link : Links A → Ptr → Ptr → Run (Links A)
  set_link h none q = fault
  set_link h (some a) q = elim (h.cells a) [
    | none ↦ fault
    | some n ↦ ok (put_link h a (some (record n { next = q })))
  ]

  abbrev pub free_link : Links A → Ptr → Run (Links A)
  free_link h none = ok h
  free_link h (some a) = elim (h.cells a) [ none ↦ fault | some n ↦ ok (put_link h a none) ]

  -- malloc of a node, with its `next` set to `q`.
  abbrev pub new_link : Links A → A → Ptr → ℕ × Links A
  new_link h a q = (h.fresh, record (put_link h h.fresh (some (link a q))) { fresh = h.fresh + 1 })
