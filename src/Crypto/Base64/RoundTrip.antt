-- ===== src/Crypto/Base64/RoundTrip.antt =====
-- `base64_decode` undoes `base64_encode`.
use shyake.Base.{
  ℕ, zero, suc, ◌+◌, ◌-◌, ◌%◌, ◌≤◌, ◌<◌, ◌≡◌, refl, ap, false, Bytes, [], ◌∷◌, ◌++◌, append-nil,
  map, Option, some, length, take_all, replicate, ltb, All, All-append, All-get_or, All-map_self,
  length-append, length-replicate, take-append_eq, get_or-append_left, get_or-append_right, arith,
}
use shyake.Crypto.Interface.{Blocks, IsBase64, IsDigit64, shortfall}
use shyake.Crypto.Base64.{
  is_trimmed, trimmed_length, standard_digit, padding, decoded_length, base64_encode, base64_decode,
}

-- A byte that the client neither trims nor replaces.
abbrev IsPlain : ℕ → Type 0
IsPlain c = (is_trimmed c ≡ false) × (standard_digit c ≡ c)

IsDigit64-IsPlain : (s : Bytes) → All IsDigit64 s → All IsPlain s
unfolding is_trimmed standard_digit
IsDigit64-IsPlain [] h = tt
IsDigit64-IsPlain (c ∷ s) h = ((ground arith, ground arith), IsDigit64-IsPlain s h.1)

replicate-IsPlain : (n : ℕ) → All IsPlain (replicate n b'=')
unfolding is_trimmed standard_digit
replicate-IsPlain zero = tt
replicate-IsPlain (suc n) = ((refl, refl), replicate-IsPlain n)

trimmed_length-All : (s : Bytes) (n : ℕ) → All IsPlain s → n ≤ length s → trimmed_length s n ≡ n
unfolding trimmed_length
trimmed_length-All s zero h le = refl
trimmed_length-All s (suc n) h le = rw ((All-get_or IsPlain s n 0 h (omega arith)).0) refl

trimmed_length_le : (s : Bytes) (n : ℕ) → trimmed_length s n ≤ n
unfolding trimmed_length
trimmed_length_le s zero = omega arith
trimmed_length_le s (suc n) = ground (arith, trimmed_length_le s n)

map-standard_digit : (s : Bytes) → All IsPlain s → map standard_digit s ≡ s
map-standard_digit s h = All-map_self IsPlain standard_digit (λ x p. p.1) s h

-- The end of an encoded text shows how many bytes of its last group are missing.
padding-encoded :
    (d : Bytes) (k : ℕ)
    → All IsDigit64 d
    → k < 3
    → (length d + k) % 4 ≡ 0
    → padding (d ++ replicate k b'=') (length d + k) ≡ k
unfolding padding
padding-encoded [] zero h lt e = refl
padding-encoded (x ∷ xs) zero h lt e =
    let d = x ∷ xs in
    let last = (All-get_or IsDigit64 d (length d + 0 - 1) 0 h (omega arith)).5 in
    rw append-nil (ground (arith, last))
padding-encoded d (suc zero) h lt e =
    let n = length d in
    let filled : Bytes = b'=' ∷ [] in
    let before = (All-get_or IsDigit64 d (n + 1 - 2) 0 h (omega arith)).5 in
    ground (
      arith,
      get_or-append_right d filled 0 (n + 1 - 1) 0 (omega arith),
      get_or-append_left d filled (n + 1 - 2) 0 (omega arith),
      before,
    )
padding-encoded d (suc (suc zero)) h lt e =
    let n = length d in
    let filled : Bytes = b'=' ∷ b'=' ∷ [] in
    ground (
      arith,
      get_or-append_right d filled 1 (n + 2 - 1) 0 (omega arith),
      get_or-append_right d filled 0 (n + 2 - 2) 0 (omega arith),
    )
padding-encoded d (suc (suc (suc k))) h lt e = absurd (omega arith)

module _ {B : Blocks} (L : IsBase64 B) where
  encoded-IsPlain : (x : Bytes) → All IsPlain (B.encode_block x)
  encoded-IsPlain x =
      rw (L.encodes x)
        (All-append IsPlain _ _ (IsDigit64-IsPlain _ (L.are_digits x)) (replicate-IsPlain _))

  padding_of_encoded :
      (x : Bytes) → padding (B.encode_block x) (length (B.encode_block x)) ≡ shortfall (length x)
  padding_of_encoded x =
      let k = shortfall (length x) in
      let fill : Bytes = replicate k b'=' in
      let total : length (L.digits x ++ fill) ≡ length (L.digits x) + k =
        omega (arith, length-append (L.digits x) fill, length-replicate {A = ℕ} k b'=') in
      rw (L.encodes x, total)
        (padding-encoded (L.digits x) k (L.are_digits x) (omega arith)
          (omega (arith, L.encoded_length x)))

  decoded_length-filled : (n k : ℕ) → decoded_length (n + k) k ≡ n
  unfolding decoded_length
  decoded_length-filled n k = ground arith

  not_beyond : (n k : ℕ) → ltb (n + k) n ≡ false
  not_beyond n k = ground arith

  -- Decoding an encoded buffer gives the buffer back, with its own length.
  pub base64_decode-encode : (x : Bytes) → base64_decode B (base64_encode B x) ≡ some x
  unfolding base64_decode base64_encode
  base64_decode-encode x =
      let e = B.encode_block x in
      let plain = encoded-IsPlain x in
      let k = shortfall (length x) in
      let zeros : Bytes = replicate k 0 in
      rw
        (
          trimmed_length-All e (length e) plain (omega arith),
          take_all (length e) e (omega arith),
          map-standard_digit e plain,
          L.decodes x,
          padding_of_encoded x,
          length-append x zeros,
          length-replicate {A = ℕ} k 0,
          decoded_length-filled (length x) k,
          not_beyond (length x) k,
        )
        (ap {B = Option Bytes} some (take-append_eq (length x) x zeros refl))
