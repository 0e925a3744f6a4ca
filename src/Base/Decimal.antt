-- ===== src/Base/Decimal.antt =====
-- `%d`, `%ld` of a number that is not negative.
use Prim.Native.Nat.{ℕ, zero, suc, ◌+◌, ◌/◌, ◌%◌}
use mathlib.Core.List.{[], ◌∷◌}
use shyake.Base.Tests.{ltb, if◌then◌else◌}
use shyake.Base.Text.{Bytes}

-- The digits of `n` in front of `out`; each round takes one, so more fuel than `n` is enough.
unfoldable pub digits_onto : ℕ → ℕ → Bytes → Bytes
digits_onto zero n out = out
digits_onto (suc fuel) n out =
    let rest = digits_onto fuel (n / 10) ((b'0' + n % 10) ∷ out) in
    if ltb n 10 then (b'0' + n) ∷ out else rest

unfoldable pub show : ℕ → Bytes
unfolding digits_onto
show n = digits_onto (suc n) n []
