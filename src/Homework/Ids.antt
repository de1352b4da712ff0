-- ===== src/Homework/Ids.antt =====
-- The ids that hw1/mypthread.c gives out.
use operating_system_linux_t.Common.{
  ℕ, ◌+◌, ◌≡◌, refl, Option, none, some, [], true, false, ◌==◌, ==_self, arith,
}
use operating_system_linux_t.Memory.{ok, update}
use operating_system_linux_t.Links.{Links}
use operating_system_linux_t.Homework.{
  Queue, Library, push_thread, push_to, create_main, create_thread, mypthread_create,
  mypthread_create_start,
}
use operating_system_linux_t.Homework.Ring.{alone, push_first, alone-IsRing, push_thread-IsRing}

abbrev only : ℕ → Queue
only n = record { front = some n; rear = some n }

-- The library once the caller has a struct of its own.
abbrev with_main : Library → Library
with_main l = record l {
  thread_count = 1;
  ids = update l.ids l.next_struct 1;
  active = update l.active l.next_struct true;
  next_struct = l.next_struct + 1;
  nodes = alone l.nodes l.next_struct;
  queue = only l.nodes.fresh;
}

main_made :
    (l : Library) → l.thread_count ≡ 0 → l.queue.front ≡ none → create_main l ≡ ok (with_main l)
unfolding create_main push_to
main_made l z e = rw (z, push_first l.nodes l.queue l.next_struct e) refl

abbrev with_thread : (thread routine arg : ℕ) → Links ℕ → Queue → Library → Library
with_thread thread routine arg h q l = record (with_main l) {
  thread_count = 2;
  ids = update (with_main l).ids thread 1;
  active = update (with_main l).active thread true;
  routines = update l.routines thread (some (routine, arg));
  nodes = h;
  queue = q;
}

thread_made :
    (thread routine arg : ℕ) (l : Library) (h : Links ℕ) (q : Queue)
    → push_thread (alone l.nodes l.next_struct) (only l.nodes.fresh) thread ≡ ok (h, q)
    → create_thread thread routine arg (with_main l) ≡ ok (with_thread thread routine arg h q l)
unfolding create_thread push_to
thread_made thread routine arg l h q run = rw run refl

nothing_started :
    (cores hyper : ℕ) (pid : Option ℕ) (l : Library)
    → l.policy_defined ≡ 0
    → mypthread_create_start cores hyper pid l ≡ ok l
unfolding mypthread_create_start
nothing_started cores hyper pid l ul = rw ul refl

first_create :
    (cores hyper thread routine arg : ℕ) (pid : Option ℕ) (l l₁ l₂ : Library)
    → mypthread_create_start cores hyper pid l ≡ ok l
    → create_main l ≡ ok l₁
    → create_thread thread routine arg l₁ ≡ ok l₂
    → mypthread_create cores hyper pid thread routine arg l ≡ ok l₂
unfolding mypthread_create
first_create cores hyper thread routine arg pid l l₁ l₂ a b c = rw (a, b, c) refl

-- The first `mypthread_create` of a program with the policy ULONLY returns, and gives the caller's
-- struct and the new thread the same id 1.
pub mypthread_create-ids :
    (cores hyper thread routine arg : ℕ) (pid : Option ℕ) (l : Library)
    → l.policy_defined ≡ 0
    → l.thread_count ≡ 0
    → l.queue.front ≡ none
    → (l.next_struct == thread) ≡ false
    → (l' : Library) × (mypthread_create cores hyper pid thread routine arg l ≡ ok l')
      × (l'.ids thread ≡ 1)
      × (l'.ids l.next_struct ≡ 1)
mypthread_create-ids cores hyper thread routine arg pid l ul zero' empty ne =
    let n = l.nodes.fresh in
    let (r, run, _) =
      push_thread-IsRing (alone l.nodes l.next_struct) (only n) n l.next_struct [] thread
        (alone-IsRing l.nodes l.next_struct) in
    (
      with_thread thread routine arg r.0 r.1 l,
      first_create cores hyper thread routine arg pid l (with_main l) _
          (nothing_started cores hyper pid l ul) (main_made l zero' empty)
          (thread_made thread routine arg l r.0 r.1 run),
      rw (==_self thread) refl,
      ground arith,
    )
