-- ===== src/Machine/Gives.antt =====
-- What a piece of code of pthreads/mypthread.c gives when it succeeds, and code that leaves every
-- mutex locked or free as it was.
pub mod Ops
use operating_system_linux_t.Common.{
  ℕ, ◌≡◌, refl, ◌∙◌, subst, Bool, true, false, Option, none, some,
}
use operating_system_linux_t.Memory.{Run, ok, fault, blocked, out_of_fuel, exited, Sem}
use operating_system_linux_t.Machine.{Machine, M, pure, ◌>>=◌, ◌>>◌, get, modify, lift, deref}
use operating_system_linux_t.Machine.Ops.{
  sem_wait, sem_post, mypthread_enqueue, dequeue_active, get_thread, update_waiting, add_kthread,
  get_kthread, is_running,
}

abbrev pub Gives : {A : Type 0} → (A → Machine → Type 0) → Run (A × Machine) → Type 0
Gives P (ok (a, m)) = P a m
Gives P fault = Unit
Gives P (blocked s) = Unit
Gives P out_of_fuel = Unit
Gives P exited = Unit

pub Gives-ok :
    {A : Type 0} (P : A → Machine → Type 0) {r : Run (A × Machine)} {a : A} {m : Machine}
    → r ≡ ok (a, m)
    → Gives P r
    → P a m
Gives-ok P e g = subst (Gives P) e g

pub Gives-mono :
    {A : Type 0} (P Q : A → Machine → Type 0) (r : Run (A × Machine))
    → Gives P r
    → ((a : A) (m : Machine) → P a m → Q a m)
    → Gives Q r
Gives-mono P Q (ok (a, m)) g f = f a m g
Gives-mono P Q fault g f = tt
Gives-mono P Q (blocked s) g f = tt
Gives-mono P Q out_of_fuel g f = tt
Gives-mono P Q exited g f = tt

Gives-cases :
    {A B : Type 0} (P : A → Machine → Type 0) (Q : B → Machine → Type 0) (r : Run (A × Machine))
    (f : A → M B)
    → Gives P r
    → ((a : A) (m' : Machine) → P a m' → Gives Q (f a m'))
    → Gives Q (elim r [
      | ok (a, m') ↦ f a m'
      | fault ↦ fault
      | blocked s ↦ blocked s
      | out_of_fuel ↦ out_of_fuel
      | exited ↦ exited
    ])
Gives-cases P Q (ok (a, m')) f g k = k a m' g
Gives-cases P Q fault f g k = tt
Gives-cases P Q (blocked s) f g k = tt
Gives-cases P Q out_of_fuel f g k = tt
Gives-cases P Q exited f g k = tt

-- A step that succeeds is followed by the rest, whatever the rest then gives.
pub Gives-bind :
    {A B : Type 0} (P : A → Machine → Type 0) (Q : B → Machine → Type 0) (c : M A) (f : A → M B)
    (m : Machine)
    → Gives P (c m)
    → ((a : A) (m' : Machine) → P a m' → Gives Q (f a m'))
    → Gives Q ((c >>= f) m)
unfolding ◌>>=◌
Gives-bind P Q c f m g k = Gives-cases P Q (c m) f g k

pub Gives-any : {A : Type 0} (r : Run (A × Machine)) → Gives (λ _ _. Unit {0}) r
Gives-any (ok (a, m)) = tt
Gives-any fault = tt
Gives-any (blocked s) = tt
Gives-any out_of_fuel = tt
Gives-any exited = tt

pub Gives-both :
    {A : Type 0} (P Q : A → Machine → Type 0) (r : Run (A × Machine))
    → Gives P r
    → Gives Q r
    → Gives (λ a m. P a m × Q a m) r
Gives-both P Q (ok (a, m)) g h = (g, h)
Gives-both P Q fault g h = tt
Gives-both P Q (blocked s) g h = tt
Gives-both P Q out_of_fuel g h = tt
Gives-both P Q exited g h = tt

pub Gives-get :
    {B : Type 0} (Q : B → Machine → Type 0) (f : Machine → M B) (m : Machine)
    → Gives Q (f m m)
    → Gives Q ((get >>= f) m)
unfolding ◌>>=◌
Gives-get Q f m g = g

pub Gives-modify :
    {B : Type 0} (Q : B → Machine → Type 0) (g : Machine → Machine) (k : M B) (m : Machine)
    → Gives Q (k (g m))
    → Gives Q ((modify g >> k) m)
unfolding ◌>>=◌
Gives-modify Q g k m h = h

-- Code that computes a value without the globals goes on in the same state.
pub Gives-lift :
    {A B : Type 0} (Q : B → Machine → Type 0) (r : Run A) (f : A → M B) (m : Machine)
    → ((a : A) → Gives Q (f a m))
    → Gives Q ((lift r >>= f) m)
unfolding ◌>>=◌
Gives-lift Q (ok a) f m g = g a
Gives-lift Q fault f m g = tt
Gives-lift Q (blocked s) f m g = tt
Gives-lift Q out_of_fuel f m g = tt
Gives-lift Q exited f m g = tt

-- The same mutexes are locked.
abbrev pub SameLocks : Machine → Machine → Type 0
SameLocks m m' = (a : ℕ) → (m'.mutexes a).lock ≡ (m.mutexes a).lock

abbrev pub Keeps : {A : Type 0} → M A → Type 0
Keeps c = (m : Machine) → Gives (λ _ m'. SameLocks m m') (c m)

pub Keeps-bind :
    {A B : Type 0} (c : M A) (f : A → M B) → Keeps c → ((a : A) → Keeps (f a)) → Keeps (c >>= f)
Keeps-bind c f k l m =
    Gives-bind (λ _ m'. SameLocks m m') (λ _ m'. SameLocks m m') c f m (k m)
      (λ a m' s.
        Gives-mono (λ _ n. SameLocks m' n) (λ _ n. SameLocks m n) (f a m') (l a m')
          (λ b n s'. λ x. s' x ∙ s x))

pub Keeps-if :
    {A : Type 0} (b : Bool) (c d : M A)
    → Keeps c
    → Keeps d
    → Keeps (elim b [ true ↦ c | false ↦ d ])
Keeps-if true c d k l = k
Keeps-if false c d k l = l

pub Keeps-lift : {A : Type 0} (r : Run A) → Keeps (lift r)
Keeps-lift (ok a) m = λ x. refl
Keeps-lift fault m = tt
Keeps-lift (blocked s) m = tt
Keeps-lift out_of_fuel m = tt
Keeps-lift exited m = tt

pub Keeps-deref : (p : Option ℕ) → Keeps (deref p)
Keeps-deref none m = tt
Keeps-deref (some a) m = λ x. refl

pub Keeps-option :
    {A : Type 0} (o : Option ℕ) (c : M A) (d : ℕ → M A)
    → Keeps c
    → ((t : ℕ) → Keeps (d t))
    → Keeps (elim o [ none ↦ c | some t ↦ d t ])
Keeps-option none c d k l = k
Keeps-option (some t) c d k l = l t
