-- ===== src/Common/Success.antt =====
-- What a call does: `Does P m Q` says that `m` succeeds from every world in which `P` holds, and
-- that `Q` holds of its value and of the world that it leaves. The rules follow the ways to build a
-- call.
use mathlib.Core.Path.{◌≡◌, refl, ◌∙◌, ap, subst, sym}
use mathlib.Core.Bool.{Bool, true, false}
use mathlib.Core.Option.{Option, none, some}
use native.Mathlib.Omega.{arith}
use dex_operator.Common.Tests.{if◌then◌else◌}
use dex_operator.Common.Effects.{
  GoError, Result, ok, Action, pure, raise, lift, total, branch, ignore, finally, ◌>>=◌,
}
use dex_operator.Common.Rules.{branch-ok}

pub record Does {S A : Type 0} (P : S → Type 0) (m : Action S A) (Q : A → S → Type 0) : Type 0 where
  pub does : (s : S) → P s → (a : A) × ((m s).0 ≡ ok a) × Q a (m s).1

module _ {S A : Type 0} {P : S → Type 0} {Q : A → S → Type 0} where
  pub Does-pure : (a : A) → ((s : S) → P s → Q a s) → Does P (pure a) Q
  unfolding ◌>>=◌
  Does-pure a h = record { does = λ s p. (a, refl, h s p) }

  pub Does-lift : (r : Result A) (a : A) → r ≡ ok a → ((s : S) → P s → Q a s) → Does P (lift r) Q
  unfolding ◌>>=◌
  Does-lift r a good h = record { does = λ s p. (a, good, h s p) }

  pub Does-test :
      (b : Bool) (m n : Action S A)
      → (b ≡ true → Does P m Q)
      → (b ≡ false → Does P n Q)
      → Does P (if b then m else n) Q
  Does-test true m n hm hn = hm refl
  Does-test false m n hm hn = hn refl

  -- A stronger condition before, and a weaker one after.
  pub Does-weaken :
      {P' : S → Type 0} {Q' : A → S → Type 0} (m : Action S A)
      → Does P m Q
      → ((s : S) → P' s → P s)
      → ((a : A) (s : S) → Q a s → Q' a s)
      → Does P' m Q'
  Does-weaken m h before after = record {
    does = λ s p. let (a, good, q) = h.does s (before s p) in (a, good, after a _ q);
  }

  -- What holds in every such world may be used.
  pub Does-given :
      {X : Type 0} (m : Action S A) → ((s : S) → P s → X) → (X → Does P m Q) → Does P m Q
  Does-given m fact h = record { does = λ s p. (h (fact s p)).does s p }

  pub Does-option :
      {X : Type 0} (found : Option X) (m : Action S A) (f : X → Action S A)
      → Does P m Q
      → ((x : X) → Does P (f x) Q)
      → Does P (elim found [ none ↦ m | some x ↦ f x ]) Q
  Does-option none m f hm hf = hm
  Does-option (some x) m f hm hf = hf x

module _ {S A B : Type 0} {P : S → Type 0} {R : A → S → Type 0} {Q : B → S → Type 0} where
  pub Does-branch :
      (m : Action S A) (f : A → Action S B) (h : GoError → Action S B)
      → Does P m R
      → ((a : A) → Does (R a) (f a) Q)
      → Does P (branch m f h) Q
  Does-branch m f h hm hf = record {
    does = λ s p.
        let (a, good, r) = hm.does s p in
        let (b, last, q) = (hf a).does (m s).1 r in
        let same = branch-ok m f h s good in
        (b, ap (λ x. x.0) same ∙ last, subst (λ x. Q b x) (sym (ap (λ x. x.1) same)) q);
  }

  pub Does-bind :
      (m : Action S A) (f : A → Action S B)
      → Does P m R
      → ((a : A) → Does (R a) (f a) Q)
      → Does P (m >>= f) Q
  unfolding ◌>>=◌
  Does-bind m f hm hf = Does-branch m f raise hm hf

ignore-ok :
    {S A : Type 0} (m : Action S A) (s : S) {a : A} → (m s).0 ≡ ok a → ignore m s ≡ (ok tt, (m s).1)
unfolding ignore
ignore-ok m s good = ground arith

module _ {S A : Type 0} {P : S → Type 0} {Q : A → S → Type 0} where
  pub Does-ignore :
      {Q' : Unit {0} → S → Type 0} (m : Action S A)
      → Does P m Q
      → ((a : A) (s : S) → Q a s → Q' tt s)
      → Does P (ignore m) Q'
  Does-ignore m h after = record {
    does = λ s p. let (a, good, q) = h.does s p in rw (ignore-ok m s good) (tt, refl, after a _ q);
  }

  pub Does-finally :
      {B : Type 0} {Q' : A → S → Type 0} (f : Action S B) (m : Action S A)
      → Does P m Q
      → ((a : A) (s : S) → Q a s → Q' a (f s).1)
      → Does P (finally f m) Q'
  unfolding finally
  Does-finally f m h after = record {
    does = λ s p. let (a, good, q) = h.does s p in (a, good, after a (m s).1 q);
  }

-- The call succeeds in every world.
pub record Finishes {S A : Type 0} (m : Action S A) : Type 0 where
  pub ends : (s : S) → (a : A) × ((m s).0 ≡ ok a)

module _ {S A : Type 0} where
  pub Finishes-pure : (a : A) → Finishes {S = S} (pure a)
  unfolding ◌>>=◌
  Finishes-pure a = record { ends = λ s. (a, refl) }

  pub Finishes-total : (f : S → A × S) → Finishes (total f)
  unfolding ◌>>=◌
  Finishes-total f = record { ends = λ s. ((f s).0, refl) }

  pub Finishes-if :
      (b : Bool) (m n : Action S A) → Finishes m → Finishes n → Finishes (if b then m else n)
  Finishes-if true m n hm hn = hm
  Finishes-if false m n hm hn = hn

module _ {S A B : Type 0} where
  pub Finishes-branch :
      (m : Action S A) (f : A → Action S B) (h : GoError → Action S B)
      → Finishes m
      → ((a : A) → Finishes (f a))
      → Finishes (branch m f h)
  Finishes-branch m f h hm hf = record {
    ends = λ s.
        let (a, good) = hm.ends s in
        let (b, last) = (hf a).ends (m s).1 in (b, ap (λ x. x.0) (branch-ok m f h s good) ∙ last);
  }

  pub Finishes-bind :
      (m : Action S A) (f : A → Action S B)
      → Finishes m
      → ((a : A) → Finishes (f a))
      → Finishes (m >>= f)
  unfolding ◌>>=◌
  Finishes-bind m f hm hf = Finishes-branch m f raise hm hf

module _ {S A : Type 0} where
  pub Finishes-option :
      {X : Type 0} (found : Option X) (m : Action S A) (f : X → Action S A)
      → Finishes m
      → ((x : X) → Finishes (f x))
      → Finishes (elim found [ none ↦ m | some x ↦ f x ])
  Finishes-option none m f hm hf = hm
  Finishes-option (some x) m f hm hf = hf x

pub ruleset finishes_rules =
    (Finishes-pure, Finishes-total, Finishes-if, Finishes-branch, Finishes-bind)
