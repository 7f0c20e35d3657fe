-- ===== src/Tests/Texts.antt =====
-- The theorems on the names of variables and on merged conditions at concrete texts.
use dex_operator.Common.{◌≡◌, refl, true, lit, arith}
use dex_operator.Connectors.{env_variable_name, unique_alphanumeric_id}
use dex_operator.Connectors.Names.{IsBytes}
use dex_operator.Connectors.Identifiers.{
  hex_decode, hex_decode-unique_alphanumeric_id, all_name_bytes, starts_with_capital,
  env_variable_name-is_name,
}
use dex_operator.Tests.Cluster.{hub}

id-IsBytes : IsBytes (lit "git-hub")
unfolding lit
id-IsBytes = ground arith

h-IsBytes : IsBytes (lit "h")
unfolding lit
h-IsBytes = (omega arith, tt)

hex_decode-unique_alphanumeric_id_example :
    hex_decode (unique_alphanumeric_id (lit "git-hub")) ≡ lit "git-hub"
hex_decode-unique_alphanumeric_id_example =
    hex_decode-unique_alphanumeric_id (lit "git-hub") id-IsBytes

env_variable_name-is_name_example :
    (all_name_bytes (env_variable_name hub) ≡ true)
    × (starts_with_capital (env_variable_name hub) ≡ true)
env_variable_name-is_name_example = env_variable_name-is_name hub refl h-IsBytes
