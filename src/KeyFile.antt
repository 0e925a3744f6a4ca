-- ===== src/KeyFile.antt =====
-- client/src/lib/passphrase.c: the secret key files, plain or sealed under a passphrase; the test of
-- client/src/cli/prompt.c that tells the two apart.
mod Parts
pub mod RoundTrip
pub mod Failures
pub mod Elsewhere
use shyake.Base.{
  ℕ, ◌+◌, ◌-◌, ◌*◌, ◌/◌, ◌%◌, ◌^◌, Bool, true, false, not, ◌&&◌, Bytes, [], ◌∷◌, ◌++◌, Option, none,
  some, ◌>>=◌, codes, length, take, drop, get_or, equal, is_empty, ltb, ◌==◌, if◌then◌else◌,
}
use shyake.Wire.{write_u32le, read_u32le}
use shyake.Os.{Disk, Entropy, read_random, write, read, save_file, load_file}
use shyake.Context.{Ctx, set_error}
use shyake.Crypto.Interface.{Evp}
use shyake.Crypto.ChaCha.{chacha20_poly1305_encrypt, chacha20_poly1305_decrypt}

-- `EVP_PBE_scrypt(passphrase, salt, N, r, p, maxmem)`
pub record Kdf : Type 0 where
  pub scrypt : Bytes → Bytes → ℕ → ℕ → ℕ → ℕ → Option Bytes

abbrev pub header_len : ℕ
header_len = 62

abbrev pub mac_len : ℕ
mac_len = 16

abbrev pub magic : Bytes
magic = codes "SHYK"

-- `fill_random`
unfoldable pub fill_random : ℕ → Entropy → Option Bytes × Entropy
fill_random n ent =
    let (answer, rest) = read_random n ent in
    (answer >>= λ buf. if length buf == n then some buf else none, rest)

-- `maxmem` of `derive_key`: a `u64`, and at least 64 MiB.
unfoldable pub derive_maxmem : ℕ → ℕ → ℕ
derive_maxmem n r =
    let maxmem = ((128 * n * r * 3) % 2 ^ 64) / 2 in
    if ltb maxmem (64 * 1024 * 1024) then 64 * 1024 * 1024 else maxmem

unfoldable pub derive_key : Kdf → Bytes → Bytes → ℕ → ℕ → ℕ → Option Bytes
derive_key K passphrase salt n r p = K.scrypt passphrase salt n r p (derive_maxmem n r)

-- The 62 bytes in front of a sealed key, which are also its associated data.
unfoldable pub header : Bytes → ℕ → ℕ → ℕ → Bytes → Bytes
header salt n r p nonce =
    magic ++ (1 ∷ 1 ∷ (salt ++ (write_u32le n ++ (write_u32le r ++ (write_u32le p ++ nonce)))))

module _ (E : Evp) (K : Kdf) where
  -- The content of a sealed key file.
  unfoldable pub sealed_content : Bytes → Bytes → Bytes → Bytes → Option Bytes
  sealed_content passphrase sk salt nonce =
      let head = header salt 65536 8 1 nonce in
      do
        derived ← derive_key K passphrase salt 65536 8 1
        (ct, mac) ← chacha20_poly1305_encrypt E derived nonce sk head
        some (head ++ (ct ++ mac))

  -- The last part of `save_sk_encrypted`: the results of `fwrite` are not looked at.
  store_content : Bytes → Option Bytes → Disk → Bool × Disk
  store_content path none d = (false, d)
  store_content path (some content) d =
      if d.denied path then (false, d) else (true, write d path content)

  with_nonce : Bytes → Bytes → Bytes → Bytes → Option Bytes × Entropy → Disk → Bool × Entropy × Disk
  with_nonce path passphrase sk salt (none, ent) d = (false, ent, d)
  with_nonce path passphrase sk salt (some nonce, ent) d =
      let (done, d') = store_content path (sealed_content passphrase sk salt nonce) d in
      (done, ent, d')

  with_salt : Bytes → Bytes → Bytes → Option Bytes × Entropy → Disk → Bool × Entropy × Disk
  with_salt path passphrase sk (none, ent) d = (false, ent, d)
  with_salt path passphrase sk (some salt, ent) d =
      with_nonce path passphrase sk salt (fill_random 12 ent) d

  -- `save_sk_encrypted`: 0 is `true`. An empty passphrase leaves the key unsealed.
  unfoldable pub save_sk_encrypted : Bytes → Bytes → Bytes → Entropy → Disk → Bool × Entropy × Disk
  unfolding store_content with_nonce with_salt
  save_sk_encrypted path [] sk ent d = let (done, d') = save_file path sk d in (done, ent, d')
  save_sk_encrypted path (c ∷ cs) sk ent d = with_salt path (c ∷ cs) sk (fill_random 32 ent) d

-- `file_len < 4 || memcmp(data, "SHYK", 4) != 0`, turned round.
unfoldable pub has_magic : Bytes → Bool
has_magic content = not (ltb (length content) 4) && equal (take 4 content) magic

-- `sk_file_is_encrypted` of prompt.c: reads four bytes of the file.
unfoldable pub sk_file_is_encrypted : Bytes → Disk → Bool
sk_file_is_encrypted path d = elim (read d path) [
  | none ↦ false
  | some content ↦
      let first = take 4 content in
      length first == 4
      && (get_or first 0 0 == b'S'
          && (get_or first 1 0 == b'H' && (get_or first 2 0 == b'Y' && get_or first 3 0 == b'K')))
]

-- `data[4] != 0x01 || data[5] != 0x01`, turned round.
unfoldable pub is_supported : Bytes → Bool
is_supported content = get_or content 4 0 == 1 && get_or content 5 0 == 1

module _ (E : Evp) (K : Kdf) where
  -- The decryption at the end of `load_sk_decrypted`; `none` inside is a wrong passphrase.
  unfoldable pub open_content : Bytes → Bytes → Option (Option Bytes)
  open_content passphrase content =
      let ct_len = length content - header_len - mac_len in
      do
        derived ←
            derive_key K passphrase (take 32 (drop 6 content)) (read_u32le (drop 38 content))
              (read_u32le (drop 42 content)) (read_u32le (drop 46 content))
        some (
            chacha20_poly1305_decrypt E derived (take 12 (drop 50 content))
              (take ct_len (drop header_len content)) (take header_len content)
              (take mac_len (drop (header_len + ct_len) content)))

  opened : Ctx → Option (Option Bytes) → Option Bytes × Ctx
  opened ctx none = (none, ctx)
  opened ctx (some none) = (none, set_error (codes "The passphrase is wrong.") ctx)
  opened ctx (some (some sk)) = (some sk, ctx)

  loaded : Ctx → Bytes → Option Bytes → Option Bytes × Ctx
  loaded ctx path none = (none, set_error (codes "Cannot read " ++ (path ++ codes ".")) ctx)
  loaded ctx path (some content) =
      if not (has_magic content)
      then (some content, ctx)
      else if is_empty ctx.passphrase
      then (none, set_error (codes "The key needs a passphrase.") ctx)
      else if ltb (length content) (header_len + mac_len)
      then (none, set_error (codes "The key file is corrupt.") ctx)
      else if not (is_supported content)
      then (none, set_error (codes "The key file format is not supported.") ctx)
      else opened ctx (open_content ctx.passphrase content)

  -- `load_sk_decrypted`: the key, and the context with the reason of a failure.
  unfoldable pub load_sk_decrypted : Ctx → Bytes → Disk → Option Bytes × Ctx
  unfolding opened loaded
  load_sk_decrypted ctx path d = loaded ctx path (load_file path d)
