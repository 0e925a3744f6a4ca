-- ===== src/Pow/Bits.antt =====
-- What the test of a round says of the hash as a number: its leading bits are zero.
use native.Mathlib.Nat.{mul-le-mul_left}
use shyake.Base.{
  ℕ, zero, suc, ◌+◌, ◌-◌, ◌*◌, ◌/◌, ◌%◌, ◌^◌, ◌≤◌, ◌<◌, ◌≡◌, ◌≢◌, ◌↔◌, Bool, true, ◌&&◌, Bytes, [],
  ◌∷◌, length, get_or, AreBytes, ltb, ◌==◌, if◌then◌else◌, arith, Bool-cases, inl, inr,
}
use shyake.Pow.{zero_bytes, is_match}

-- 256 ^ n
abbrev pub weight : ℕ → ℕ
weight zero = 1
weight (suc n) = 256 * weight n

-- A hash as a big-endian number.
abbrev pub value : Bytes → ℕ
value [] = 0
value (b ∷ hash) = b * weight (length hash) + value hash

value_bound : (hash : Bytes) → AreBytes hash → value hash < weight (length hash)
value_bound [] h = omega arith
value_bound (b ∷ hash) h =
    let rest = value_bound hash h.1 in
    let top = mul-le-mul_left {m = b} {n = 255} (weight (length hash)) (omega (arith, h.0)) in
    omega (arith, rest, top)

byte_below : (b c w v : ℕ) → v < w → (b < c) ↔ (b * w + v < c * w)
byte_below b c w v h =
    (λ lt. (let m = mul-le-mul_left {m = suc b} {n = c} w lt in omega arith), back)
  where
    back : b * w + v < c * w → b < c
    back k = elim (Bool-cases (ltb b c)) [
      | inl lt ↦ ground arith
      | inr ge ↦ let m = mul-le-mul_left {m = c} {n = b} w (ground arith) in absurd (omega arith)
    ]

-- The top byte, shifted by the bits that are not looked at.
top_bits :
    (r b w v : ℕ)
    → r < 8
    → b < 256
    → v < w
    → ((if ltb 0 r then b / 2 ^ (8 - r) == 0 else true) ≡ true) ↔ ((b * w + v) * 2 ^ r < 256 * w)
top_bits zero b w v hr hb hv = ground (arith, byte_below b 256 w v hv)
top_bits (suc zero) b w v hr hb hv = ground (arith, byte_below b 128 w v hv)
top_bits (suc (suc zero)) b w v hr hb hv = ground (arith, byte_below b 64 w v hv)
top_bits (suc (suc (suc zero))) b w v hr hb hv = ground (arith, byte_below b 32 w v hv)
top_bits (suc (suc (suc (suc zero)))) b w v hr hb hv = ground (arith, byte_below b 16 w v hv)
top_bits (suc (suc (suc (suc (suc zero))))) b w v hr hb hv = ground (arith, byte_below b 8 w v hv)
top_bits (suc (suc (suc (suc (suc (suc zero)))))) b w v hr hb hv =
    ground (arith, byte_below b 4 w v hv)
top_bits (suc (suc (suc (suc (suc (suc (suc zero))))))) b w v hr hb hv =
    ground (arith, byte_below b 2 w v hv)
top_bits (suc (suc (suc (suc (suc (suc (suc (suc r)))))))) b w v hr hb hv = absurd (omega arith)

mul_grows : (n q : ℕ) → 0 < q → n ≤ n * q
mul_grows n q h = let m = mul-le-mul_left {m = 1} {n = q} n h in omega arith

weight_positive : (n : ℕ) → 0 < weight n
weight_positive zero = omega arith
weight_positive (suc n) = let h = weight_positive n in omega arith

pow_positive : (r : ℕ) → 0 < 2 ^ r
pow_positive zero = omega arith
pow_positive (suc r) = let h = pow_positive r in omega arith

product_positive : (a b : ℕ) → 0 < a → 0 < b → 0 < a * b
product_positive a b ha hb = let m = mul_grows a b hb in omega arith

abbrev leads : ℕ → ℕ → Bytes → Bool
leads k r hash = zero_bytes k hash && (if ltb 0 r then get_or hash k 0 / 2 ^ (8 - r) == 0 else true)

-- A zero byte in front changes nothing; another makes the number too large.
skip_byte : (b v w q : ℕ) → b ≡ 0 → ((b * w + v) * (256 * q) < 256 * w) ↔ (v * q < w)
skip_byte b v w q e = rw e (ground arith)

large_byte : (b v w q : ℕ) → b ≢ 0 → 0 < q → 256 * w ≤ (b * w + v) * (256 * q)
large_byte b v w q h hq =
    let m = mul-le-mul_left {m = 1} {n = b} w (ground arith) in
    let g = mul_grows (b * w + v) q hq in omega arith

leads_iff :
    (k r : ℕ) (hash : Bytes)
    → r < 8
    → 8 * k + r ≤ 8 * length hash
    → AreBytes hash
    → (leads k r hash ≡ true) ↔ (value hash * (weight k * 2 ^ r) < weight (length hash))
unfolding zero_bytes
leads_iff zero r [] hr fits h = ground arith
leads_iff zero r (b ∷ hash) hr fits h =
    let t = top_bits r b (weight (length hash)) (value hash) hr h.0 (value_bound hash h.1) in
    let e : 1 * 2 ^ r ≡ 2 ^ r = omega arith in rw e t
leads_iff (suc k) r [] hr fits h = absurd (omega arith)
leads_iff (suc k) r (b ∷ hash) hr fits h =
    let q = weight k * 2 ^ r in
    let reorder : 256 * weight k * 2 ^ r ≡ 256 * q = omega arith in
    rw reorder (elim (Bool-cases (b == 0)) [
      | inl null ↦
          let ih = leads_iff k r hash hr (omega arith) h.1 in
          let s = skip_byte b (value hash) (weight (length hash)) q (ground arith) in
          rw null ((λ l. s.1 (ih.0 l)), λ l. ih.1 (s.0 l))
      | inr set ↦
          let g =
            large_byte b (value hash) (weight (length hash)) q (ground arith)
              (product_positive (weight k) (2 ^ r) (weight_positive k) (pow_positive r)) in
          rw set ((λ l. cc), λ l. absurd (omega arith))
    ])

pow_eight : (n : ℕ) → 2 ^ (8 + n) ≡ 256 * 2 ^ n
pow_eight n =
    let e : 8 + n ≡ suc (suc (suc (suc (suc (suc (suc (suc n))))))) = omega arith in
    rw e (omega arith)

weight_bits : (k r : ℕ) → weight k * 2 ^ r ≡ 2 ^ (8 * k + r)
weight_bits zero r = let e : 8 * 0 + r ≡ r = omega arith in rw e (omega arith)
weight_bits (suc k) r =
    let h = weight_bits k r in
    let e : 8 * suc k + r ≡ 8 + (8 * k + r) = omega arith in
    rw e (omega (arith, h, pow_eight (8 * k + r)))

-- On a hash of 20 bytes, a round matches exactly where the hash, as a number of 160 bits, is below
-- 2^(160 - bits): its first `bits` bits are zero.
pub is_match_iff :
    (bits : ℕ) (hash : Bytes)
    → bits ≤ 160
    → length hash ≡ 20
    → AreBytes hash
    → (is_match bits hash ≡ true) ↔ (value hash * 2 ^ bits < 2 ^ 160)
unfolding is_match
is_match_iff bits hash hb hl h =
    let t = leads_iff (bits / 8) (bits % 8) hash (omega arith) (omega arith) h in
    let w = weight_bits (bits / 8) (bits % 8) in
    let e : 8 * (bits / 8) + bits % 8 ≡ bits = omega arith in let t' = rw (w, e, hl) at t in t'
