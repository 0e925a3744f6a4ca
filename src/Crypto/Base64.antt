-- ===== src/Crypto/Base64.antt =====
-- client/src/lib/libshyake.c: `base64_encode` and `base64_decode` over OpenSSL's block functions.
pub mod RoundTrip
use shyake.Base.{
  ℕ, zero, suc, ◌-◌, ◌%◌, ◌^◌, Bool, ◌&&◌, ◌||◌, Bytes, [], ◌∷◌, ◌++◌, map, Option, none, some,
  length, take, get_or, ltb, ◌==◌, if◌then◌else◌, ◌>>=◌,
}
use shyake.Crypto.Interface.{Blocks}

-- `c == '\r' || c == '\n' || c == ' '`
unfoldable pub is_trimmed : ℕ → Bool
is_trimmed c = c == b'\r' || c == b'\n' || c == b' '

-- `while (len > 0 && …) len--`
unfoldable pub trimmed_length : Bytes → ℕ → ℕ
trimmed_length b64 zero = 0
trimmed_length b64 (suc n) =
    let shorter = trimmed_length b64 n in if is_trimmed (get_or b64 n 0) then shorter else suc n

-- The URL-safe digits become the standard ones.
unfoldable pub standard_digit : ℕ → ℕ
standard_digit c = if c == b'-' then b'+' else if c == b'_' then b'/' else c

-- How many of the decoded bytes stand for padding, by the end of the text.
unfoldable pub padding : Bytes → ℕ → ℕ
padding b64 len =
    if ltb 0 len && get_or b64 (len - 1) 0 == b'='
    then (if ltb 1 len && get_or b64 (len - 2) 0 == b'=' then 2 else 1)
    else if len % 4 == 2
    then 2
    else if len % 4 == 3
    then 1
    else 0

unfoldable pub base64_encode : Blocks → Bytes → Bytes
base64_encode B x = B.encode_block x

-- The `n` bytes from a distance on.
unfoldable pub memory : (ℕ → ℕ) → ℕ → ℕ → Bytes
memory behind start zero = []
memory behind start (suc n) = behind start ∷ memory behind (suc start) n

-- `dec_len -= padding; *out_len = dec_len`: an `int` below 0 wraps to 64 bits.
unfoldable pub decoded_length : ℕ → ℕ → ℕ
decoded_length dec_len padding =
    if ltb dec_len padding then 2 ^ 64 - (padding - dec_len) else dec_len - padding

-- The `*out_len` bytes from `out` on, of which those beyond what was decoded are read from the memory behind.
unfoldable pub base64_decode : Blocks → Bytes → Option Bytes
unfolding decoded_length memory
base64_decode B b64 =
    let len = trimmed_length b64 (length b64) in
    do
      out ← B.decode_block (map standard_digit (take len b64))
      let out_len = decoded_length (length out) (padding b64 len)
      some (
          if ltb (length out) out_len
          then out ++ memory B.behind 0 (out_len - length out)
          else take out_len out)
