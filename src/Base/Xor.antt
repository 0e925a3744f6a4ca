-- ===== src/Base/Xor.antt =====
-- `^` of the source on bytes and buffers. It undoes itself, at every width.
use Prim.Native.Nat.{
  ℕ, zero, suc, ◌+◌, ◌*◌, ◌/◌, ◌%◌, ◌≤◌, ◌<◌, digits, differ, bit_xor, bit_xor-bitwise,
}
use mathlib.Core.Path.{◌≡◌, refl, ◌∙◌}
use mathlib.Core.Logic.{inl, inr}
use shyake.Base.Tests.{◌==◌, Bool-cases}
use mathlib.Core.List.{[], ◌∷◌}
use native.Mathlib.Omega.{arith}
use shyake.Base.Lists.{length}
use shyake.Base.Text.{Bytes}

-- The recursion behind the native operation.
abbrev xor_rounds : ℕ → ℕ → ℕ → ℕ
xor_rounds = digits (λ bit. bit) differ

one_round_more : (n x y : ℕ) → x ≤ n → xor_rounds (suc n) x y ≡ xor_rounds n x y
one_round_more zero x y h = let null : x ≡ 0 = omega arith in rw null refl
one_round_more (suc n) zero y h = refl
one_round_more (suc n) (suc x) y h =
    let rest = one_round_more n (suc x / 2) (y / 2) (omega arith) in rw rest refl

enough_rounds : (n x y : ℕ) → x ≤ n → xor_rounds n x y ≡ xor_rounds x x y
enough_rounds zero x y h = let null : x ≡ 0 = omega arith in rw null refl
enough_rounds (suc n) x y h = elim (Bool-cases (x == suc n)) [
  | inl last ↦ let same : x ≡ suc n = ground arith in rw same refl
  | inr other ↦
      let below : x ≤ n = ground arith in one_round_more n x y below ∙ enough_rounds n x y below
]

-- The lowest bit and the other bits.
bit_xor_step : (x y : ℕ) → bit_xor x y ≡ bit_xor (x / 2) (y / 2) * 2 + differ (x % 2) (y % 2)
bit_xor_step zero y = simp bit_xor-bitwise (omega arith)
bit_xor_step (suc x) y =
    let half = enough_rounds x (suc x / 2) (y / 2) (omega arith) in
    simp bit_xor-bitwise (omega (arith, half))

differ_bits :
    (a b : ℕ) → (differ (a % 2) (b % 2) < 2) × (differ (differ (a % 2) (b % 2)) (b % 2) ≡ a % 2)
differ_bits a b = cases (a % 2) (b % 2) (omega arith) (omega arith)
  where
    cases : (x y : ℕ) → x < 2 → y < 2 → (differ x y < 2) × (differ (differ x y) y ≡ x)
    cases zero zero p q = (omega arith, refl)
    cases zero (suc zero) p q = (omega arith, refl)
    cases (suc zero) zero p q = (omega arith, refl)
    cases (suc zero) (suc zero) p q = (omega arith, refl)
    cases (suc (suc x)) y p q = absurd (omega arith)
    cases zero (suc (suc y)) p q = absurd (omega arith)
    cases (suc zero) (suc (suc y)) p q = absurd (omega arith)

xor_halves :
    (a b : ℕ)
    → (bit_xor a b / 2 ≡ bit_xor (a / 2) (b / 2)) × (bit_xor a b % 2 ≡ differ (a % 2) (b % 2))
xor_halves a b = (
  omega (arith, bit_xor_step a b, (differ_bits a b).0),
  omega (arith, bit_xor_step a b, (differ_bits a b).0),
)

xor_cancel_below : (n a b : ℕ) → a ≤ n → b ≤ n → bit_xor (bit_xor a b) b ≡ a
xor_cancel_below zero zero zero p q = refl
xor_cancel_below zero (suc a) b p q = absurd (omega arith)
xor_cancel_below zero zero (suc b) p q = absurd (omega arith)
xor_cancel_below (suc n) a b p q =
    let h = xor_cancel_below n (a / 2) (b / 2) (omega arith) (omega arith) in
    let s = bit_xor_step (bit_xor a b) b in
    let t = rw ((xor_halves a b).0, (xor_halves a b).1) at s in
    omega (arith, t, h, (differ_bits a b).1)

-- A byte masked twice by one mask is itself.
pub xor_cancel : (a b : ℕ) → bit_xor (bit_xor a b) b ≡ a
xor_cancel a b = xor_cancel_below (a + b) a b (omega arith) (omega arith)

-- `for (i = 0; i < 32; i++) out[i] = a[i] ^ b[i]` on buffers of one length.
abbrev pub xor_bytes : Bytes → Bytes → Bytes
xor_bytes [] bs = []
xor_bytes (a ∷ as') [] = []
xor_bytes (a ∷ as') (b ∷ bs) = bit_xor a b ∷ xor_bytes as' bs

pub length-xor_bytes :
    (xs ys : Bytes) → length xs ≤ length ys → length (xor_bytes xs ys) ≡ length xs
length-xor_bytes [] ys h = refl
length-xor_bytes (x ∷ xs) [] h = absurd (omega arith)
length-xor_bytes (x ∷ xs) (y ∷ ys) h = omega (arith, length-xor_bytes xs ys)

pub xor_bytes_cancel : (xs ys : Bytes) → length xs ≤ length ys → xor_bytes (xor_bytes xs ys) ys ≡ xs
xor_bytes_cancel [] ys h = refl
xor_bytes_cancel (x ∷ xs) [] h = absurd (omega arith)
xor_bytes_cancel (x ∷ xs) (y ∷ ys) h = cc (xor_cancel x y, xor_bytes_cancel xs ys (omega arith))
