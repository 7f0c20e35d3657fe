-- ===== src/Common/Effects.antt =====
-- Errors as values, panics, and calls that read and change the world `S`. What a call wrote
-- stays written when it fails, so the world comes back beside an error too.
use mathlib.Core.Bool.{Bool}
use dex_operator.Common.Text.{Str}

-- A Go `error`: what `kubeerrors.IsNotFound` says of it, and its text.
pub record GoError : Type 0 where
  pub not_found : Bool
  pub message : Str

pub data Result {ℓ} (A : Type ℓ) : Type ℓ where
  ok : A → Result A
  err : GoError → Result A
  panic : Result A

abbrev pub Action : Type 0 → Type 0 → Type 0
Action S A = S → Result A × S

module _ {S A : Type 0} where
  pub pure : A → Action S A
  pure a s = (ok a, s)

  pub raise : GoError → Action S A
  raise e s = (err e, s)

  pub lift : Result A → Action S A
  lift r s = (r, s)

  -- A call of a function that cannot fail.
  pub total : (S → A × S) → Action S A
  total f s = let (a, s') = f s in (ok a, s')

  -- A call whose value and error are dropped.
  unfoldable pub ignore : Action S A → Action S (Unit {0})
  ignore m s =
      let (r, s') = m s in elim r [ ok _ ↦ (ok tt, s') | err _ ↦ (ok tt, s') | panic ↦ (panic, s') ]

  -- `defer f()`: `f` runs on every way out, and its own error is dropped.
  unfoldable pub finally : {B : Type 0} → Action S B → Action S A → Action S A
  finally f m s = let (r, s') = m s in (r, (f s').1)

module _ {S A B : Type 0} where
  abbrev continue : (A → Action S B) → (GoError → Action S B) → Result A → S → Result B × S
  continue f h (ok a) s = f a s
  continue f h (err e) s = h e s
  continue f h panic s = (panic, s)

  -- `x, err := m; if err == nil { f } else { h }`
  pub branch : Action S A → (A → Action S B) → (GoError → Action S B) → Action S B
  branch m f h s = let (r, s') = m s in continue f h r s'

  -- `if err := m; err != nil { return err }`; to open it opens the others.
  infixl 5 ◌>>=◌ ◌>>◌ ◌returning◌
  unfoldable pub ◌>>=◌ : Action S A → (A → Action S B) → Action S B
  unfolding pure raise lift total branch
  m >>= f = branch m f raise

  abbrev pub ◌>>◌ : Action S A → Action S B → Action S B
  m >> k = m >>= λ _. k

  abbrev pub ◌returning◌ : Action S A → B → Action S B
  m returning b = m >>= λ _. pure b

-- `if err := m; err != nil { h }`
abbrev pub handle : {S A : Type 0} → Action S A → (GoError → Action S A) → Action S A
handle m h = branch m pure h
