-- ===== src/Connectors/Identifiers.antt =====
-- The names of environment variables as texts: what they are written with, and how the identifier
-- of a connector is read back.
use Prim.Native.Nat.{◌/◌, ◌%◌, ◌-◌}
use dex_operator.Common.{
  ℕ, ◌+◌, ◌*◌, ◌<◌, ◌≡◌, refl, Bool, true, false, ◌&&◌, ◌||◌, Str, [], ◌∷◌, ◌++◌, lit, ltb,
  hex_digit, hex_encode, upper_byte, to_upper, arith, if◌then◌else◌,
}
use dex_operator.Api.{ConnectorSpec, ConnectorType, github, ldap, microsoft, oidc, other}
use dex_operator.Connectors.{env_variable_for_connector, unique_alphanumeric_id, env_variable_name}
use dex_operator.Connectors.Names.{IsBytes, IsKnown}

-- The half byte of an upper case digit, and the bytes of a text of digits.
unfoldable pub half_byte : ℕ → ℕ
half_byte c = if ltb c b':' then c - b'0' else c - 55

unfoldable pub hex_decode : Str → Str
unfolding half_byte
hex_decode (a ∷ b ∷ s) = (half_byte a * 16 + half_byte b) ∷ hex_decode s
hex_decode _ = []

half_byte-upper_digit : (n : ℕ) → n < 16 → half_byte (upper_byte (hex_digit n)) ≡ n
unfolding half_byte upper_byte hex_digit
half_byte-upper_digit n h = ground arith

-- The identifier of a connector is read back from its digits, if it is a text of bytes.
pub hex_decode-unique_alphanumeric_id :
    (s : Str) → IsBytes s → hex_decode (unique_alphanumeric_id s) ≡ s
unfolding hex_decode unique_alphanumeric_id hex_encode to_upper
hex_decode-unique_alphanumeric_id [] h = refl
hex_decode-unique_alphanumeric_id (b ∷ s) (byte, bytes) = ground (
  arith,
  half_byte-upper_digit (b / 16),
  half_byte-upper_digit (b % 16),
  hex_decode-unique_alphanumeric_id s bytes,
)

-- The bytes of an environment variable's name: a capital letter, a digit or an underscore.
abbrev pub is_capital : ℕ → Bool
is_capital c = ltb 64 c && ltb c 91

unfoldable pub is_name_byte : ℕ → Bool
is_name_byte c = is_capital c || (ltb 47 c && ltb c 58) || (ltb 94 c && ltb c 96)

unfoldable pub all_name_bytes : Str → Bool
all_name_bytes [] = true
all_name_bytes (c ∷ s) = is_name_byte c && all_name_bytes s

unfoldable pub starts_with_capital : Str → Bool
starts_with_capital [] = false
starts_with_capital (c ∷ _) = is_capital c

upper_digit-is_name_byte : (n : ℕ) → n < 16 → is_name_byte (upper_byte (hex_digit n)) ≡ true
unfolding is_name_byte upper_byte hex_digit
upper_digit-is_name_byte n h = ground arith

all_name_bytes-append :
    (s t : Str) → all_name_bytes s ≡ true → all_name_bytes t ≡ true → all_name_bytes (s ++ t) ≡ true
unfolding all_name_bytes
all_name_bytes-append [] t hs ht = ht
all_name_bytes-append (c ∷ s) t hs ht = ground (arith, all_name_bytes-append s t)

all_name_bytes-id : (s : Str) → IsBytes s → all_name_bytes (unique_alphanumeric_id s) ≡ true
unfolding all_name_bytes unique_alphanumeric_id hex_encode to_upper
all_name_bytes-id [] h = refl
all_name_bytes-id (b ∷ s) (byte, bytes) = ground (
  arith,
  upper_digit-is_name_byte (b / 16),
  upper_digit-is_name_byte (b % 16),
  all_name_bytes-id s bytes,
)

type_name :
    (t : ConnectorType)
    → IsKnown t
    → all_name_bytes ((env_variable_for_connector t).env_var_name) ≡ true
unfolding all_name_bytes env_variable_for_connector lit is_name_byte
type_name github k = refl
type_name ldap k = refl
type_name microsoft k = refl
type_name oidc k = refl
type_name (other _) k = absurd (cc)

underscore : all_name_bytes (lit "_") ≡ true
unfolding all_name_bytes lit is_name_byte
underscore = refl

starts :
    (t : ConnectorType)
    → IsKnown t
    → (s : Str) → starts_with_capital ((env_variable_for_connector t).env_var_name ++ s) ≡ true
unfolding starts_with_capital env_variable_for_connector lit
starts github k s = refl
starts ldap k s = refl
starts microsoft k s = refl
starts oidc k s = refl
starts (other _) k s = absurd (cc)

-- The name of the variable of a connector of a known type, whose identifier is a text of bytes,
-- has capital letters, digits and underscores only, and starts with a letter.
pub env_variable_name-is_name :
    (c : ConnectorSpec)
    → IsKnown c.type
    → IsBytes c.id
    → (all_name_bytes (env_variable_name c) ≡ true)
      × (starts_with_capital (env_variable_name c) ≡ true)
unfolding env_variable_name
env_variable_name-is_name c known bytes = (
  all_name_bytes-append _ _ (type_name c.type known)
      (all_name_bytes-append (lit "_") _ underscore (all_name_bytes-id c.id bytes)),
  starts c.type known _,
)
