-- ===== src/Pow.antt =====
-- client/src/lib/libshyake.c: `shyake_mint_pow`, the hashcash stamp that goes with a registration
-- and a mail. The date, the random bytes and SHA-1 are arguments.
pub mod Bits
pub mod Search
use shyake.Base.{
  ℕ, zero, suc, ◌+◌, ◌-◌, ◌/◌, ◌%◌, ◌^◌, Bool, true, false, ◌&&◌, Bytes, [], ◌∷◌, ◌++◌, Option,
  none, some, map, codes, snprintf, take, get_or, ltb, ◌==◌, if◌then◌else◌,
}
use shyake.Base.Decimal.{show}

-- `%lx`
unfoldable pub hex_onto : ℕ → ℕ → Bytes → Bytes
hex_onto zero n out = out
hex_onto (suc fuel) n out =
    let digit = get_or (codes "0123456789abcdef") (n % 16) 0 in
    let rest = hex_onto fuel (n / 16) (digit ∷ out) in if ltb n 16 then digit ∷ out else rest

-- Sixteen digits are enough for an `unsigned long`.
unfoldable pub show_hex : ℕ → Bytes
unfolding hex_onto
show_hex n = hex_onto 16 n []

abbrev pub charset : Bytes
charset = codes "abcdefghijklmnopqrstuvwxyz0123456789"

-- `rand_str[i] = charset[rnd[i] % 36]`
unfoldable pub rand_str : Bytes → Bytes
rand_str rnd = map (λ b. get_or charset (b % 36) 0) (take 12 rnd)

-- `snprintf(header, 256, "1:%d:%s:%s::%s:%lx", …)`
unfoldable pub stamp : ℕ → Bytes → Bytes → Bytes → ℕ → Bytes
stamp bits date resource rand counter = snprintf 256 (
    codes "1:"
    ++ (show bits
        ++ (b':'
            ∷ (date
                ++ (b':' ∷ (resource ++ (codes "::" ++ (rand ++ (b':' ∷ show_hex counter)))))))))

-- The loop over `bytes_to_check`.
unfoldable pub zero_bytes : ℕ → Bytes → Bool
zero_bytes zero hash = true
zero_bytes (suc n) [] = true
zero_bytes (suc n) (b ∷ hash) = b == 0 && zero_bytes n hash

-- `match` at the end of a round.
unfoldable pub is_match : ℕ → Bytes → Bool
unfolding zero_bytes
is_match bits hash =
    let bytes_to_check = bits / 8 in
    let remaining_bits = bits % 8 in
    zero_bytes bytes_to_check hash
    && (if ltb 0 remaining_bits
        then get_or hash bytes_to_check 0 / 2 ^ (8 - remaining_bits) == 0
        else true)

module _ (sha1 : Bytes → Bytes) (bits : ℕ) (header : ℕ → Bytes) where
  -- The rounds from `counter`, at most `left` of them.
  unfoldable pub rounds : ℕ → ℕ → Option Bytes
  rounds zero counter = none
  rounds (suc left) counter = elim (is_match bits (sha1 (header counter))) [
    | true ↦ some (header counter)
    | false ↦ rounds left (suc counter)
  ]

-- `shyake_mint_pow`: the counter stops at 0xFFFFFFFF.
unfoldable pub mint_pow : (Bytes → Bytes) → Bytes → Bytes → Bytes → ℕ → Option Bytes
mint_pow sha1 date rnd resource bits =
    rounds sha1 bits (stamp bits date resource (rand_str rnd)) (2 ^ 32 - 1) 0
