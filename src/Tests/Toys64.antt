-- ===== src/Tests/Toys64.antt =====
-- A stand-in for OpenSSL's base64: a character for each byte, and one more to fill a group of four.
use shyake.Base.{
  ℕ, ◌+◌, ◌-◌, ◌*◌, ◌/◌, ◌≡◌, refl, Bytes, [], ◌∷◌, ◌++◌, Option, none, some, ◌>>=◌, length,
  replicate, All, arith,
}
use shyake.Crypto.Interface.{Blocks, IsBase64, IsDigit64, shortfall}

digits64 : Bytes → Bytes
digits64 [] = []
digits64 (a ∷ []) = (256 + a) ∷ 65 ∷ []
digits64 (a ∷ b ∷ []) = (256 + a) ∷ (256 + b) ∷ 65 ∷ []
digits64 (a ∷ b ∷ c ∷ x) = (256 + a) ∷ (256 + b) ∷ (256 + c) ∷ 65 ∷ digits64 x

unfoldable pub encode64 : Bytes → Bytes
encode64 [] = []
encode64 (a ∷ []) = (256 + a) ∷ 65 ∷ b'=' ∷ b'=' ∷ []
encode64 (a ∷ b ∷ []) = (256 + a) ∷ (256 + b) ∷ 65 ∷ b'=' ∷ []
encode64 (a ∷ b ∷ c ∷ x) = (256 + a) ∷ (256 + b) ∷ (256 + c) ∷ 65 ∷ encode64 x

unfoldable pub decode64 : Bytes → Option Bytes
decode64 [] = some []
decode64 (p ∷ q ∷ r ∷ t ∷ s) = do x ← decode64 s; some ((p - 256) ∷ (q - 256) ∷ (r - 256) ∷ x)
decode64 _ = none

abbrev pub toy_blocks : Blocks
toy_blocks = record { encode_block = encode64; decode_block = decode64; behind = λ n. 0 }

shortfall_step : (n : ℕ) → shortfall (3 + n) ≡ shortfall n
shortfall_step n = omega arith

encode64_digits : (x : Bytes) → encode64 x ≡ digits64 x ++ replicate (shortfall (length x)) b'='
unfolding encode64 digits64
encode64_digits [] = refl
encode64_digits (a ∷ []) = refl
encode64_digits (a ∷ b ∷ []) = refl
encode64_digits (a ∷ b ∷ c ∷ x) =
    let e : shortfall (length (a ∷ b ∷ c ∷ x)) ≡ shortfall (length x) = omega arith in
    rw (e, encode64_digits x) refl

wide_digit : (a : ℕ) → IsDigit64 (256 + a)
wide_digit a = (
  λ e. omega arith,
  λ e. omega arith,
  λ e. omega arith,
  λ e. omega arith,
  λ e. omega arith,
  λ e. omega arith,
)

filler : IsDigit64 65
filler = (
  λ e. omega arith,
  λ e. omega arith,
  λ e. omega arith,
  λ e. omega arith,
  λ e. omega arith,
  λ e. omega arith,
)

taken_back : (a : ℕ) → 256 + a - 256 ≡ a
taken_back a = omega arith

digits64-IsDigit64 : (x : Bytes) → All IsDigit64 (digits64 x)
unfolding digits64
digits64-IsDigit64 [] = tt
digits64-IsDigit64 (a ∷ []) = (wide_digit a, (filler, tt))
digits64-IsDigit64 (a ∷ b ∷ []) = (wide_digit a, (wide_digit b, (filler, tt)))
digits64-IsDigit64 (a ∷ b ∷ c ∷ x) =
    (wide_digit a, (wide_digit b, (wide_digit c, (filler, digits64-IsDigit64 x))))

length-digits64 :
    (x : Bytes) → length (digits64 x) + shortfall (length x) ≡ 4 * ((length x + 2) / 3)
unfolding digits64
length-digits64 [] = refl
length-digits64 (a ∷ []) = refl
length-digits64 (a ∷ b ∷ []) = refl
length-digits64 (a ∷ b ∷ c ∷ x) = omega (arith, length-digits64 x)

decode-encode64 :
    (x : Bytes) → decode64 (encode64 x) ≡ some (x ++ replicate (shortfall (length x)) 0)
unfolding decode64 encode64
decode-encode64 [] = refl
decode-encode64 (a ∷ []) = rw (taken_back a) refl
decode-encode64 (a ∷ b ∷ []) = rw (taken_back a, taken_back b) refl
decode-encode64 (a ∷ b ∷ c ∷ x) =
    let e : shortfall (length (a ∷ b ∷ c ∷ x)) ≡ shortfall (length x) = omega arith in
    rw (decode-encode64 x, ◌>>=◌, taken_back a, taken_back b, taken_back c, e) refl

pub toy_blocks-IsBase64 : IsBase64 toy_blocks
toy_blocks-IsBase64 = record {
  digits = digits64;
  encodes = encode64_digits;
  are_digits = digits64-IsDigit64;
  encoded_length = length-digits64;
  decodes = decode-encode64;
}
