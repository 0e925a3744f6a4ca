-- ===== src/Base/Hex.antt =====
-- Bytes in hexadecimal, two digits for each.
use Prim.Native.Nat.{ℕ, ◌*◌, ◌/◌, ◌%◌}
use mathlib.Core.Path.{◌≡◌, refl}
use mathlib.Core.List.{[], ◌∷◌}
use native.Mathlib.Omega.{arith}
use shyake.Base.Text.{Bytes, codes}
use shyake.Base.Lists.{get_or, length}

abbrev pub hex_digit : ℕ → ℕ
hex_digit n = get_or (codes "0123456789abcdef") n 0

-- `"%02x"` of each byte.
unfoldable pub hex : Bytes → Bytes
hex [] = []
hex (b ∷ rest) = hex_digit (b / 16) ∷ hex_digit (b % 16) ∷ hex rest

pub length-hex : (s : Bytes) → length (hex s) ≡ 2 * length s
unfolding hex
length-hex [] = refl
length-hex (b ∷ s) = omega (arith, length-hex s)
