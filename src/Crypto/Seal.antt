-- ===== src/Crypto/Seal.antt =====
-- client/src/lib/crypto_ops.c: `encrypt_to_b64` and `decrypt_from_b64`, which seal one field of a
-- mail or a draft as base64 of nonce, cipher text and tag. A null result is `none`.
pub mod RoundTrip
use shyake.Base.{
  ℕ, ◌+◌, ◌-◌, Bool, Bytes, [], ◌∷◌, ◌++◌, Option, none, some, ◌>>=◌, ◌>>◌, require, not, length,
  take, drop, leb, is_empty,
}
use shyake.Os.{Entropy, read_random}
use shyake.Crypto.Interface.{Evp, Blocks}
use shyake.Crypto.Base64.{base64_encode, base64_decode}
use shyake.Crypto.ChaCha.{chacha20_poly1305_encrypt, chacha20_poly1305_decrypt}

-- `fread` into `nonce[12]`, with its result not looked at: a short read leaves the end of the
-- buffer as it was, `stack`.
unfoldable pub read_nonce : Bytes → Bytes → Bytes
read_nonce stack answer = answer ++ drop (length answer) stack

module _ (E : Evp) (B : Blocks) where
  -- The packing behind the nonce.
  unfoldable pub seal_with : Bytes → Bytes → Bytes → Option Bytes
  seal_with key nonce pt = do
    (ct, mac) ← chacha20_poly1305_encrypt E key nonce pt []
    some (base64_encode B (nonce ++ (ct ++ mac)))

  encrypt_drawn : Bytes → Bytes → Bytes → Option Bytes × Entropy → Option Bytes × Entropy
  encrypt_drawn stack key pt (none, ent) = (none, ent)
  encrypt_drawn stack key pt (some answer, ent) = (seal_with key (read_nonce stack answer) pt, ent)

  unfoldable pub encrypt_to_b64 : Bytes → Bytes → Bytes → Entropy → Option Bytes × Entropy
  unfolding encrypt_drawn read_nonce
  encrypt_to_b64 stack key [] ent = (none, ent)
  encrypt_to_b64 stack key (p ∷ pt) ent = encrypt_drawn stack key (p ∷ pt) (read_random 12 ent)

  unfoldable pub decrypt_from_b64 : Bytes → Bytes → Option Bytes
  decrypt_from_b64 key b64 = do
    require (not (is_empty b64))
    packed ← base64_decode B b64
    require (not (leb (length packed) 28))
    let ct_len = length packed - 28
    chacha20_poly1305_decrypt E key (take 12 packed) (take ct_len (drop 12 packed)) []
        (take 16 (drop (12 + ct_len) packed))
