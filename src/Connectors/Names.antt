-- ===== src/Connectors/Names.antt =====
-- The names of environment variables and of copied secrets as functions of what they stand for.
use Prim.Native.Nat.{◌/◌, ◌%◌}
use mathlib.Core.List.{append_cancel_left, append_assoc}
use dex_operator.Common.{
  Bool, List, ◌&&◌, true, ℕ, ◌<◌, ◌≡◌, refl, sym, ◌∙◌, ap, Str, [], ◌∷◌, ◌++◌, lit, hex_digit,
  hex_encode, upper_byte, to_upper, arith,
}
use dex_operator.Api.{ConnectorSpec, ConnectorType, github, ldap, microsoft, oidc, other}
use dex_operator.Connectors.{
  is_known, env_variable_for_connector, unique_alphanumeric_id, env_variable_name,
  copied_secret_name,
}

-- Every element of the text is a byte.
abbrev pub IsBytes : Str → Type 0
IsBytes [] = Unit
IsBytes (b ∷ s) = (b < 256) × IsBytes s

-- An upper case digit is written for one half byte only.
upper_digit_inj :
    (m n : ℕ) → m < 16 → n < 16 → upper_byte (hex_digit m) ≡ upper_byte (hex_digit n) → m ≡ n
unfolding upper_byte hex_digit
upper_digit_inj m n hm hn e = ground arith

of_halves : (a b : ℕ) → a / 16 ≡ b / 16 → a % 16 ≡ b % 16 → a ≡ b
of_halves a b h l = omega arith

pub unique_alphanumeric_id-injective :
    (s t : Str)
    → IsBytes s
    → IsBytes t
    → unique_alphanumeric_id s ≡ unique_alphanumeric_id t
    → s ≡ t
unfolding unique_alphanumeric_id hex_encode to_upper
unique_alphanumeric_id-injective [] [] hs ht e = refl
unique_alphanumeric_id-injective [] (b ∷ t) hs ht e = cc
unique_alphanumeric_id-injective (a ∷ s) [] hs ht e = cc
unique_alphanumeric_id-injective (a ∷ s) (b ∷ t) hs ht e = ground (
  arith,
  upper_digit_inj (a / 16) (b / 16),
  upper_digit_inj (a % 16) (b % 16),
  of_halves a b,
  unique_alphanumeric_id-injective s t,
)

abbrev pub IsKnown : ConnectorType → Type 0
IsKnown t = is_known t ≡ true

-- Every connector has one of the four types.
abbrev pub all_known : List ConnectorSpec → Bool
all_known [] = true
all_known (c ∷ cs) = is_known c.type && all_known cs

pub all_known-cons :
    (c : ConnectorSpec) (cs : List ConnectorSpec)
    → all_known (c ∷ cs) ≡ true
    → IsKnown c.type × (all_known cs ≡ true)
all_known-cons c cs known = (ground arith, ground arith)

initial : Str → ℕ
initial [] = 0
initial (b ∷ _) = b

letter : ConnectorType → ℕ
letter github = b'G'
letter ldap = b'L'
letter microsoft = b'M'
letter oidc = b'O'
letter (other _) = 0

initial-env_var_name :
    (a : ConnectorType) (s : Str)
    → IsKnown a
    → initial ((env_variable_for_connector a).env_var_name ++ s) ≡ letter a
unfolding initial letter env_variable_for_connector lit
initial-env_var_name github s h = refl
initial-env_var_name ldap s h = refl
initial-env_var_name microsoft s h = refl
initial-env_var_name oidc s h = refl
initial-env_var_name (other _) s h = absurd (cc)

letter-injective : (a b : ConnectorType) → IsKnown a → IsKnown b → letter a ≡ letter b → a ≡ b
unfolding letter
letter-injective github b ha hb e = ground arith
letter-injective ldap b ha hb e = ground arith
letter-injective microsoft b ha hb e = ground arith
letter-injective oidc b ha hb e = ground arith
letter-injective (other _) b ha hb e = absurd (cc)

prefix-injective :
    (a b : ConnectorType) (s t : Str)
    → IsKnown a
    → IsKnown b
    → (env_variable_for_connector a).env_var_name ++ s
      ≡ (env_variable_for_connector b).env_var_name ++ t
    → a ≡ b
prefix-injective a b s t ha hb e =
    letter-injective a b ha hb
      (sym (initial-env_var_name a s ha) ∙ ap initial e ∙ initial-env_var_name b t hb)

-- Two connectors of known types whose variables have one name are of one type, and their
-- identifiers are equal, where an identifier is a text of bytes.
pub env_variable_name-injective :
    (c d : ConnectorSpec)
    → IsKnown c.type
    → IsKnown d.type
    → IsBytes c.id
    → IsBytes d.id
    → env_variable_name c ≡ env_variable_name d
    → (c.type ≡ d.type) × (c.id ≡ d.id)
unfolding env_variable_name
env_variable_name-injective c d hc hd bc bd e =
    let same : c.type ≡ d.type = prefix-injective c.type d.type _ _ hc hd e in
    let tails : (env_variable_for_connector d.type).env_var_name
          ++ (lit "_" ++ unique_alphanumeric_id c.id)
        ≡ (env_variable_for_connector d.type).env_var_name
          ++ (lit "_" ++ unique_alphanumeric_id d.id) =
      (rw same at e) in
    (
      same,
      unique_alphanumeric_id-injective c.id d.id bc bd
          (append_cancel_left (lit "_") _ _ (append_cancel_left _ _ _ tails)),
    )

-- The names of copied secrets.

-- Secrets of different namespaces are copied under one name where a namespace has a dash: the
-- secret `b-c` of the namespace `a` and the secret `c` of the namespace `a-b`.
pub copied_secret_name_collides :
    (a b c : Str)
    → copied_secret_name a (b ++ (lit "-" ++ c)) ≡ copied_secret_name (a ++ (lit "-" ++ b)) c
unfolding copied_secret_name
copied_secret_name_collides a b c = simp append_assoc
