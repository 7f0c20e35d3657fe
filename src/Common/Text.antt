-- ===== src/Common/Text.antt =====
-- Go strings and byte slices: the list of their bytes.
use Prim.Native.Nat.{ℕ, ◌+◌, ◌-◌, ◌/◌, ◌%◌}
use Prim.Native.Char.{code}
use Prim.Native.String.{String}
use mathlib.Core.Bool.{Bool, true, false, ◌&&◌}
use mathlib.Core.List.{List, [], ◌∷◌, map}
use native.Mathlib.Decide.{ℕ_discrete}
use dex_operator.Common.Tests.{Eq, ltb, if◌then◌else◌}

abbrev pub Str : Type 0
Str = List ℕ

-- A literal of the source. It stays shut in proofs that do not look at its bytes.
unfoldable pub lit : String → Str
lit String.[] = []
lit (String.◌∷◌ c s) = code c ∷ lit s

unfoldable pub Str-discrete : Discrete Str
unfolding ℕ_discrete
Str-discrete = hlevel ℕ_discrete

instance unfoldable pub str_eq : Eq Str
unfolding Str-discrete
str_eq = record { dec = Str-discrete }

abbrev pub is_empty : Str → Bool
is_empty [] = true
is_empty (_ ∷ _) = false

-- The digit of a half byte, as `encoding/hex` and `%x` write it.
unfoldable pub hex_digit : ℕ → ℕ
hex_digit n = if ltb n 10 then n + b'0' else n + b'a' - 10

-- `hex.EncodeToString`
unfoldable pub hex_encode : Str → Str
unfolding hex_digit
hex_encode [] = []
hex_encode (b ∷ s) = hex_digit (b / 16) ∷ hex_digit (b % 16) ∷ hex_encode s

unfoldable pub upper_byte : ℕ → ℕ
upper_byte c = if ltb 96 c && ltb c 123 then c - 32 else c

-- `strings.ToUpper` on ASCII text
unfoldable pub to_upper : Str → Str
unfolding upper_byte
to_upper = map upper_byte
