-- ===== src/Lifecycle/Update.antt =====
-- `mykthread_update` of pthreads/queue_util.c, which nothing calls yet.
use operating_system_linux_t.Common.{ℕ, ◌≡◌, refl, ◌∙◌, ap, none, some, ◌==◌}
use operating_system_linux_t.Memory.{ok, Ptr}
use operating_system_linux_t.Memory.Chain.{Cells, IsList}
use operating_system_linux_t.Queue.Lookup.{find_item}
use operating_system_linux_t.Machine.{Machine, M, ◌>>=◌, after, get, modify, set_kthread}
use operating_system_linux_t.Machine.Ops.{get_kthread, add_kthread}
use operating_system_linux_t.Machine.Inv.{get_kthread-find_item}
use operating_system_linux_t.Lifecycle.{new_kthread}

-- The loop is that of `mykthread_get`. `tid` is the answer of `gettid()`.
unfoldable pub mykthread_update : ℕ → ℕ → Ptr → M (Unit {0})
mykthread_update tid kthread_id pthread = do
  kp ← get_kthread kthread_id
  elim kp [
    | some k ↦ do m ← get; modify (set_kthread k (record (m.kthreads k) { th = pthread }))
    | none ↦ do k ← new_kthread tid pthread; add_kthread k
  ]

-- For a kernel thread of the list it changes what that one runs, and nothing else.
pub mykthread_update-found :
    (tid id k : ℕ) (p : Ptr) (m : Machine) (ks : Cells)
    → IsList m.knodes m.mykthread_ll.head ks
    → find_item (λ j. (m.kthreads j).kth_id == id) ks ≡ some k
    → mykthread_update tid id p m ≡ ok (tt, set_kthread k (record (m.kthreads k) { th = p }) m)
unfolding mykthread_update
mykthread_update-found tid id k p m ks is f =
    after _ _ (get_kthread-find_item id m ks is ∙ ap (λ j. ok (j, m)) f) (after _ _ refl refl)
