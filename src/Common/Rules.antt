-- ===== src/Common/Rules.antt =====
-- What a call leaves as it was: `Keeps p m` says that `m` does not change the part `p` of the
-- world. The rules follow the ways to build a call. Below them, what a call that succeeded says of
-- its parts.
use mathlib.Core.Path.{◌≡◌, refl, ◌∙◌}
use mathlib.Core.Logic.{◌⊎◌, inl, inr}
use mathlib.Core.Bool.{Bool, true, false}
use mathlib.Core.Option.{Option, none, some}
use native.Mathlib.Omega.{arith}
use dex_operator.Common.Tests.{if◌then◌else◌, Bool-cases}
use dex_operator.Common.Effects.{
  GoError, Result, ok, err, panic, Action, pure, raise, lift, total, branch, handle, ignore,
  finally, ◌>>=◌, ◌returning◌,
}

pub record Keeps {S A X : Type 0} (p : S → X) (m : Action S A) : Type 0 where
  pub same : (s : S) → p (m s).1 ≡ p s

module _ {S A X : Type 0} {p : S → X} where
  pub Keeps-pure : (a : A) → Keeps p (pure a)
  unfolding ◌>>=◌
  Keeps-pure a = record { same = λ s. refl }

  pub Keeps-raise : (e : GoError) → Keeps p (raise {A = A} e)
  unfolding ◌>>=◌
  Keeps-raise e = record { same = λ s. refl }

  pub Keeps-lift : (r : Result A) → Keeps p (lift r)
  unfolding ◌>>=◌
  Keeps-lift r = record { same = λ s. refl }

  pub Keeps-total : (f : S → A × S) → ((s : S) → p (f s).1 ≡ p s) → Keeps p (total f)
  unfolding ◌>>=◌
  Keeps-total f h = record { same = h }

  pub Keeps-ignore : (m : Action S A) → Keeps p m → Keeps p (ignore m)
  unfolding ignore
  Keeps-ignore m k = record { same = λ s. ground (arith, k.same s) }

  pub Keeps-finally :
      {B : Type 0} (f : Action S B) (m : Action S A) → Keeps p f → Keeps p m → Keeps p (finally f m)
  unfolding finally
  Keeps-finally f m kf km = record { same = λ s. kf.same (m s).1 ∙ km.same s }

  pub Keeps-if :
      (b : Bool) (m n : Action S A) → Keeps p m → Keeps p n → Keeps p (if b then m else n)
  Keeps-if true m n km kn = km
  Keeps-if false m n km kn = kn

module _ {S A B X : Type 0} {p : S → X} where
  pub Keeps-branch :
      (m : Action S A) (f : A → Action S B) (h : GoError → Action S B)
      → Keeps p m
      → ((a : A) → Keeps p (f a))
      → ((e : GoError) → Keeps p (h e))
      → Keeps p (branch m f h)
  unfolding ◌>>=◌
  Keeps-branch m f h km kf kh = record { same = λ s. continued (m s).0 (m s).1 ∙ km.same s }
    where
      continued : (r : Result A) (s : S) → p (branch (λ (t : S). (r, t)) f h s).1 ≡ p s
      continued (ok a) s = (kf a).same s
      continued (err e) s = (kh e).same s
      continued panic s = refl

  pub Keeps-bind :
      (m : Action S A) (f : A → Action S B)
      → Keeps p m
      → ((a : A) → Keeps p (f a))
      → Keeps p (m >>= f)
  unfolding ◌>>=◌
  Keeps-bind m f km kf = Keeps-branch m f raise km kf (λ e. Keeps-raise e)

  pub Keeps-option :
      (found : Option A) (m : Action S B) (f : A → Action S B)
      → Keeps p m
      → ((a : A) → Keeps p (f a))
      → Keeps p (elim found [ none ↦ m | some a ↦ f a ])
  Keeps-option none m f km kf = km
  Keeps-option (some a) m f km kf = kf a

module _ {S A B C X : Type 0} {p : S → X} where
  pub Keeps-either :
      (found : A ⊎ B) (f : A → Action S C) (g : B → Action S C)
      → ((a : A) → Keeps p (f a))
      → ((b : B) → Keeps p (g b))
      → Keeps p (elim found [ inl a ↦ f a | inr b ↦ g b ])
  Keeps-either (inl a) f g kf kg = kf a
  Keeps-either (inr b) f g kf kg = kg b

pub ruleset keeps_rules = (
  Keeps-pure, Keeps-raise, Keeps-lift, Keeps-ignore, Keeps-finally, Keeps-if, Keeps-branch,
  Keeps-bind,
)

module _ {S A B : Type 0} where
  -- A branch that succeeded went on with the value or with the error, and that succeeded.
  pub branch-eq-ok :
      (m : Action S A) (f : A → Action S B) (h : GoError → Action S B) (s : S) {b : B}
      → (branch m f h s).0 ≡ ok b
      → ((a : A) × ((m s).0 ≡ ok a) × (branch m f h s ≡ f a (m s).1) × ((f a (m s).1).0 ≡ ok b))
        ⊎ ((e : GoError) × ((m s).0 ≡ err e)
            × (branch m f h s ≡ h e (m s).1)
            × ((h e (m s).1).0 ≡ ok b))
  unfolding ◌>>=◌
  branch-eq-ok m f h s {b} done = split (m s).0 (m s).1 done
    where
      split :
          (r : Result A) (s' : S)
          → (branch (λ (t : S). (r, s')) f h s).0 ≡ ok b
          → ((a : A) × (r ≡ ok a)
              × (branch (λ (t : S). (r, s')) f h s ≡ f a s')
              × ((f a s').0 ≡ ok b))
            ⊎ ((e : GoError) × (r ≡ err e)
                × (branch (λ (t : S). (r, s')) f h s ≡ h e s')
                × ((h e s').0 ≡ ok b))
      split (ok a) s' good = inl (a, refl, refl, good)
      split (err e) s' good = inr (e, refl, refl, good)
      split panic s' bad = cc

  -- A chain that succeeded went on with the value, and that succeeded.
  pub bind-eq-ok :
      (m : Action S A) (f : A → Action S B) (s : S) {b : B}
      → ((m >>= f) s).0 ≡ ok b
      → (a : A) × ((m s).0 ≡ ok a) × ((m >>= f) s ≡ f a (m s).1) × ((f a (m s).1).0 ≡ ok b)
  unfolding ◌>>=◌
  bind-eq-ok m f s done = elim (branch-eq-ok m f raise s done) [
    | inl found ↦ found
    | inr (e, failed, same, bad) ↦ absurd (cc)
  ]

  -- The same for a value that needs no call.
  pub lift-eq-ok :
      (r : Result A) (f : A → Action S B) (s : S) {b : B}
      → ((lift r >>= f) s).0 ≡ ok b
      → (a : A) × (r ≡ ok a) × ((lift r >>= f) s ≡ f a s) × ((f a s).0 ≡ ok b)
  unfolding ◌>>=◌
  lift-eq-ok r f s done = bind-eq-ok (lift r) f s done

  pub returning-eq-ok :
      (m : Action S A) (b : B) (s : S) {c : B}
      → ((m returning b) s).0 ≡ ok c
      → (a : A) × ((m s).0 ≡ ok a) × ((m returning b) s ≡ (ok b, (m s).1))
  unfolding ◌>>=◌
  returning-eq-ok m b s done =
      let (a, good, same, _) = bind-eq-ok m (λ _. pure b) s done in (a, good, same)

module _ {S B : Type 0} where
  pub pure-eq-ok : (a b : B) (s : S) → (pure a s).0 ≡ ok b → b ≡ a
  unfolding ◌>>=◌
  pure-eq-ok a b s done = ground arith

module _ {S A B : Type 0} where
  -- A chain goes on with a value, or it leaves the world as its first call did.
  pub bind-cases :
      (m : Action S A) (f : A → Action S B) (s : S)
      → ((a : A) × ((m s).0 ≡ ok a) × ((m >>= f) s ≡ f a (m s).1)) ⊎ (((m >>= f) s).1 ≡ (m s).1)
  unfolding ◌>>=◌
  bind-cases m f s = split (m s).0 (m s).1
    where
      split :
          (r : Result A) (s' : S)
          → ((a : A) × (r ≡ ok a) × (branch (λ (t : S). (r, s')) f raise s ≡ f a s'))
            ⊎ ((branch (λ (t : S). (r, s')) f raise s).1 ≡ s')
      split (ok a) s' = inl (a, refl, refl)
      split (err e) s' = inr refl
      split panic s' = inr refl

  -- A branch goes on with the value or with the error, or it panics.
  pub branch-cases :
      (m : Action S A) (f : A → Action S B) (h : GoError → Action S B) (s : S)
      → ((a : A) × ((m s).0 ≡ ok a) × (branch m f h s ≡ f a (m s).1))
        ⊎ ((e : GoError) × ((m s).0 ≡ err e) × (branch m f h s ≡ h e (m s).1))
        ⊎ (branch m f h s).1 ≡ (m s).1
  unfolding ◌>>=◌
  branch-cases m f h s = split (m s).0 (m s).1
    where
      split :
          (r : Result A) (s' : S)
          → ((a : A) × (r ≡ ok a) × (branch (λ (t : S). (r, s')) f h s ≡ f a s'))
            ⊎ ((e : GoError) × (r ≡ err e) × (branch (λ (t : S). (r, s')) f h s ≡ h e s'))
            ⊎ (branch (λ (t : S). (r, s')) f h s).1 ≡ s'
      split (ok a) s' = inl (a, refl, refl)
      split (err e) s' = inr (inl (e, refl, refl))
      split panic s' = inr (inr refl)

module _ {S A B : Type 0} where
  pub branch-ok :
      (m : Action S A) (f : A → Action S B) (h : GoError → Action S B) (s : S) {a : A}
      → (m s).0 ≡ ok a
      → branch m f h s ≡ f a (m s).1
  unfolding ◌>>=◌
  branch-ok m f h s good = ground arith

  pub branch-err :
      (m : Action S A) (f : A → Action S B) (h : GoError → Action S B) (s : S) {e : GoError}
      → (m s).0 ≡ err e
      → branch m f h s ≡ h e (m s).1
  unfolding ◌>>=◌
  branch-err m f h s failed = ground arith

  pub bind-ok :
      (m : Action S A) (f : A → Action S B) (s : S) {a : A}
      → (m s).0 ≡ ok a
      → (m >>= f) s ≡ f a (m s).1
  unfolding ◌>>=◌
  bind-ok m f s good = ground arith

  -- A chain whose first call failed stops there.
  pub bind-eq-err :
      (m : Action S A) (f : A → Action S B) (s : S) {e : GoError}
      → (m s).0 ≡ err e
      → (m >>= f) s ≡ (err e, (m s).1)
  unfolding ◌>>=◌
  bind-eq-err m f s failed = ground arith

module _ {S B : Type 0} where
  -- Only a missing object is made up for: any other error is passed on.
  pub unless_missing-eq-ok :
      (e raised : GoError) (m : Action S B) (s : S) {b : B}
      → ((if e.not_found then m else raise raised) s).0 ≡ ok b
      → (e.not_found ≡ true)
        × (((if e.not_found then m else raise raised) s) ≡ m s)
        × ((m s).0 ≡ ok b)
  unfolding ◌>>=◌
  unless_missing-eq-ok e raised m s done = elim (Bool-cases e.not_found) [
    | inl missing ↦ (missing, rw missing, (rw missing at done))
    | inr other ↦ absurd (ground arith)
  ]

module _ {S A : Type 0} where
  -- A handler that only raises does not make a call succeed.
  pub handle-raise-eq-ok :
      (m : Action S A) (g : GoError → GoError) (s : S) {a : A}
      → (handle m (λ e. raise (g e)) s).0 ≡ ok a
      → ((m s).0 ≡ ok a) × ((handle m (λ e. raise (g e)) s).1 ≡ (m s).1)
  unfolding ◌>>=◌
  handle-raise-eq-ok m g s done = ground arith
