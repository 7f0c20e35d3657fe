-- ===== src/Common/Certain.antt =====
-- What succeeds as long as a property of the world holds that it keeps: `Sure P m` says that `m`
-- succeeds from every world in which `P` holds, and that `P` holds afterwards. The rules follow the
-- ways to build a call.
use mathlib.Core.Path.{◌≡◌, refl, ◌∙◌, ap, sym, subst}
use mathlib.Core.Bool.{Bool, true, false}
use mathlib.Core.Option.{Option, none, some}
use dex_operator.Common.Tests.{if◌then◌else◌}
use dex_operator.Common.Effects.{GoError, Result, ok, Action, pure, raise, lift, branch, ◌>>=◌}
use dex_operator.Common.Rules.{branch-ok}
use dex_operator.Common.Preservation.{Preserves}
use dex_operator.Common.Success.{Finishes, Does}

pub record Sure {S A : Type 0} (P : S → Type 0) (m : Action S A) : Type 0 where
  pub ends : (s : S) → P s → (a : A) × ((m s).0 ≡ ok a) × P (m s).1

module _ {S A : Type 0} {P : S → Type 0} where
  pub Sure-Finishes : (m : Action S A) → Finishes m → Preserves P m → Sure P m
  Sure-Finishes m h keeps = record {
    ends = λ s p. let (a, good) = h.ends s in (a, good, keeps.after s p);
  }

  pub Sure-does : (m : Action S A) → Does P m (λ a. P) → Sure P m
  Sure-does m h = record { ends = h.does }

  pub does-Sure : (m : Action S A) → Sure P m → Does P m (λ a. P)
  does-Sure m h = record { does = h.ends }

  pub Sure-pure : (a : A) → Sure P (pure a)
  unfolding ◌>>=◌
  Sure-pure a = record { ends = λ s p. (a, refl, p) }

  pub Sure-lift : (r : Result A) → (a : A) × (r ≡ ok a) → Sure P (lift r)
  unfolding ◌>>=◌
  Sure-lift r (a, good) = record { ends = λ s p. (a, good, p) }

  pub Sure-if : (b : Bool) (m n : Action S A) → Sure P m → Sure P n → Sure P (if b then m else n)
  Sure-if true m n hm hn = hm
  Sure-if false m n hm hn = hn

  pub Sure-test :
      (b : Bool) (m n : Action S A)
      → (b ≡ true → Sure P m)
      → (b ≡ false → Sure P n)
      → Sure P (if b then m else n)
  Sure-test true m n hm hn = hm refl
  Sure-test false m n hm hn = hn refl

  pub Sure-option :
      {X : Type 0} (found : Option X) (m : Action S A) (f : X → Action S A)
      → Sure P m
      → ((x : X) → Sure P (f x))
      → Sure P (elim found [ none ↦ m | some x ↦ f x ])
  Sure-option none m f hm hf = hm
  Sure-option (some x) m f hm hf = hf x

module _ {S A B : Type 0} {P : S → Type 0} where
  pub Sure-branch :
      (m : Action S A) (f : A → Action S B) (h : GoError → Action S B)
      → Sure P m
      → ((a : A) → Sure P (f a))
      → Sure P (branch m f h)
  Sure-branch m f h hm hf = record {
    ends = λ s p.
        let (a, good, p') = hm.ends s p in
        let (b, last, q) = (hf a).ends (m s).1 p' in
        let same = branch-ok m f h s good in
        (b, ap (λ x. x.0) same ∙ last, subst P (sym (ap (λ x. x.1) same)) q);
  }

  pub Sure-bind :
      (m : Action S A) (f : A → Action S B) → Sure P m → ((a : A) → Sure P (f a)) → Sure P (m >>= f)
  unfolding ◌>>=◌
  Sure-bind m f hm hf = Sure-branch m f raise hm hf

pub ruleset sure_rules = (Sure-pure, Sure-if, Sure-branch, Sure-bind)
