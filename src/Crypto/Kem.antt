-- ===== src/Crypto/Kem.antt =====
-- client/src/lib/crypto_ops.c: a symmetric key wrapped for the holder of a KEM key pair, as base64
-- of the KEM cipher text and the key masked with the shared secret. A null result is `none`.
pub mod RoundTrip
use shyake.Base.{
  ℕ, ◌+◌, Bytes, ◌++◌, Option, none, some, ◌>>=◌, ◌>>◌, require, length, take, drop, ◌==◌,
}
use shyake.Base.Xor.{xor_bytes}
use shyake.Crypto.Interface.{Oqs, Blocks}
use shyake.Crypto.Base64.{base64_encode, base64_decode}

module _ (O : Oqs) (B : Blocks) where
  unfoldable pub kem_encapsulate_key : Bytes → Bytes → Bytes → Option Bytes
  kem_encapsulate_key coins kem_pk sym_key = do
    kem ← O.kem_new
    require (length kem_pk == kem.public_key)
    (ct, ss) ← O.kem_encaps coins kem_pk
    let ek = xor_bytes (take 32 sym_key) ss
    some (base64_encode B (take kem.ciphertext ct ++ ek))

  unfoldable pub kem_decapsulate_key : Bytes → Bytes → Option Bytes
  kem_decapsulate_key enc_key_b64 my_sk = do
    packed ← base64_decode B enc_key_b64
    kem ← O.kem_new
    require (length packed == kem.ciphertext + 32)
    ss ← O.kem_decaps (take kem.ciphertext packed) my_sk
    some (xor_bytes (drop kem.ciphertext packed) ss)
