-- ===== src/Common/Preservation.antt =====
-- What a call preserves: `Preserves P m` says that `P` holds after `m` where it held before. The
-- rules follow the ways to build a call.
use mathlib.Core.Path.{◌≡◌, refl, subst, sym}
use mathlib.Core.Logic.{◌⊎◌, inl, inr}
use mathlib.Core.Bool.{Bool, true, false}
use mathlib.Core.Option.{Option, none, some}
use dex_operator.Common.Tests.{if◌then◌else◌}
use dex_operator.Common.Effects.{
  GoError, Result, ok, err, panic, Action, pure, raise, lift, branch, ignore, finally, ◌>>=◌,
}
use dex_operator.Common.Rules.{Keeps}

pub record Preserves {S A : Type 0} (P : S → Type 0) (m : Action S A) : Type 0 where
  pub after : (s : S) → P s → P (m s).1

module _ {S A : Type 0} {P : S → Type 0} where
  pub Preserves-pure : (a : A) → Preserves P (pure a)
  unfolding ◌>>=◌
  Preserves-pure a = record { after = λ s h. h }

  pub Preserves-raise : (e : GoError) → Preserves P (raise {A = A} e)
  unfolding ◌>>=◌
  Preserves-raise e = record { after = λ s h. h }

  pub Preserves-lift : (r : Result A) → Preserves P (lift r)
  unfolding ◌>>=◌
  Preserves-lift r = record { after = λ s h. h }

  pub Preserves-if :
      (b : Bool) (m n : Action S A)
      → Preserves P m
      → Preserves P n
      → Preserves P (if b then m else n)
  Preserves-if true m n hm hn = hm
  Preserves-if false m n hm hn = hn

module _ {S A : Type 0} {P : S → Type 0} where
  pub Preserves-ignore : (m : Action S A) → Preserves P m → Preserves P (ignore m)
  unfolding ignore
  Preserves-ignore m hm = record { after = λ s p. dropped (m s).0 (m s).1 (hm.after s p) }
    where
      dropped : (r : Result A) (s : S) → P s → P (ignore (λ (t : S). (r, s)) s).1
      dropped (ok a) s p = p
      dropped (err e) s p = p
      dropped panic s p = p

  pub Preserves-finally :
      {B : Type 0} (f : Action S B) (m : Action S A)
      → Preserves P f
      → Preserves P m
      → Preserves P (finally f m)
  unfolding finally
  Preserves-finally f m hf hm = record { after = λ s p. hf.after (m s).1 (hm.after s p) }

module _ {S A : Type 0} {P : S → Type 0} where
  -- The branches of a test, each with what the test says.
  pub Preserves-test :
      (b : Bool) (m n : Action S A)
      → (b ≡ true → Preserves P m)
      → (b ≡ false → Preserves P n)
      → Preserves P (if b then m else n)
  Preserves-test true m n hm hn = hm refl
  Preserves-test false m n hm hn = hn refl

  pub Preserves-match :
      {X : Type 0} (found : Option X) (m : Action S A) (f : X → Action S A)
      → (found ≡ none → Preserves P m)
      → ((x : X) → found ≡ some x → Preserves P (f x))
      → Preserves P (elim found [ none ↦ m | some x ↦ f x ])
  Preserves-match none m f hm hf = hm refl
  Preserves-match (some x) m f hm hf = hf x refl

-- A property of a part that the call leaves alone.
pub Keeps-Preserves :
    {S A X : Type 0} (p : S → X) (Q : X → Type 0) (m : Action S A)
    → Keeps p m
    → Preserves (λ s. Q (p s)) m
Keeps-Preserves p Q m k = record { after = λ s h. subst Q (sym (k.same s)) h }

module _ {S A B : Type 0} {P : S → Type 0} where
  pub Preserves-branch :
      (m : Action S A) (f : A → Action S B) (h : GoError → Action S B)
      → Preserves P m
      → ((a : A) → Preserves P (f a))
      → ((e : GoError) → Preserves P (h e))
      → Preserves P (branch m f h)
  unfolding ◌>>=◌
  Preserves-branch m f h hm hf hh = record {
    after = λ s p. continued (m s).0 (m s).1 (hm.after s p);
  }
    where
      continued : (r : Result A) (s : S) → P s → P (branch (λ (t : S). (r, t)) f h s).1
      continued (ok a) s p = (hf a).after s p
      continued (err e) s p = (hh e).after s p
      continued panic s p = p

  pub Preserves-bind :
      (m : Action S A) (f : A → Action S B)
      → Preserves P m
      → ((a : A) → Preserves P (f a))
      → Preserves P (m >>= f)
  unfolding ◌>>=◌
  Preserves-bind m f hm hf = Preserves-branch m f raise hm hf (λ e. Preserves-raise e)

  pub Preserves-option :
      (found : Option A) (m : Action S B) (f : A → Action S B)
      → Preserves P m
      → ((a : A) → Preserves P (f a))
      → Preserves P (elim found [ none ↦ m | some a ↦ f a ])
  Preserves-option none m f hm hf = hm
  Preserves-option (some a) m f hm hf = hf a

module _ {S A B C : Type 0} {P : S → Type 0} where
  pub Preserves-either :
      (found : A ⊎ B) (f : A → Action S C) (g : B → Action S C)
      → ((a : A) → Preserves P (f a))
      → ((b : B) → Preserves P (g b))
      → Preserves P (elim found [ inl a ↦ f a | inr b ↦ g b ])
  Preserves-either (inl a) f g hf hg = hf a
  Preserves-either (inr b) f g hf hg = hg b

-- `P` holds after `m` where it held before, and then `Q` holds of the value, where there is one.
pub record Gives {S A : Type 0} (P : S → Type 0) (Q : A → Type 0) (m : Action S A) : Type 0 where
  pub preserves : Preserves P m
  pub value : (s : S) (a : A) → P s → (m s).0 ≡ ok a → Q a

module _ {S A : Type 0} {P : S → Type 0} {Q : A → Type 0} where
  pub Gives-pure : (a : A) → Q a → Gives P Q (pure a)
  unfolding ◌>>=◌
  Gives-pure a q = record {
    preserves = Preserves-pure a;
    value = λ s b h same.
        subst (λ r. elim r as (λ _. Type 0) [ ok c ↦ Q c | err _ ↦ Unit | panic ↦ Unit ]) same q;
  }

  pub Gives-test :
      (b : Bool) (m n : Action S A)
      → (b ≡ true → Gives P Q m)
      → (b ≡ false → Gives P Q n)
      → Gives P Q (if b then m else n)
  Gives-test true m n hm hn = hm refl
  Gives-test false m n hm hn = hn refl

module _ {S A B : Type 0} {P : S → Type 0} {Q : A → Type 0} where
  -- What follows a call may rely on what the call says of its value.
  pub Gives-branch :
      (m : Action S A) (f : A → Action S B) (h : GoError → Action S B)
      → Gives P Q m
      → ((a : A) → Q a → Preserves P (f a))
      → ((e : GoError) → Preserves P (h e))
      → Preserves P (branch m f h)
  unfolding ◌>>=◌
  Gives-branch m f h hm hf hh = record {
    after = λ s p. continued (m s).0 (m s).1 (λ a. hm.value s a p) (hm.preserves.after s p);
  }
    where
      continued :
          (r : Result A) (s : S)
          → ((a : A) → r ≡ ok a → Q a)
          → P s
          → P (branch (λ (t : S). (r, t)) f h s).1
      continued (ok a) s q p = (hf a (q a refl)).after s p
      continued (err e) s q p = (hh e).after s p
      continued panic s q p = p

  pub Gives-bind :
      (m : Action S A) (f : A → Action S B)
      → Gives P Q m
      → ((a : A) → Q a → Preserves P (f a))
      → Preserves P (m >>= f)
  unfolding ◌>>=◌
  Gives-bind m f hm hf = Gives-branch m f raise hm hf (λ e. Preserves-raise e)

pub ruleset preserves_rules = (
  Preserves-pure, Preserves-raise, Preserves-lift, Preserves-ignore, Preserves-finally,
  Preserves-if, Preserves-branch, Preserves-bind,
)
