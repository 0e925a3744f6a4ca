-- ===== src/Crypto/Interface.antt =====
-- What the client takes from OpenSSL and liboqs, as parameters, and their documented behaviour.
use shyake.Base.{
  ℕ, ◌+◌, ◌*◌, ◌/◌, ◌%◌, ◌≡◌, ◌≢◌, Bytes, [], ◌++◌, Option, some, length, replicate, All,
}

-- OpenSSL's cipher contexts with ChaCha20-Poly1305. A call that does not return 1 is `none`.
pub record Evp : Type 1 where
  pub Ctx : Type 0
  pub ctx_new : Option Ctx
  pub encrypt_init : Ctx → Option Ctx
  pub encrypt_key : Ctx → Bytes → Bytes → Option Ctx
  pub encrypt_aad : Ctx → Bytes → Option Ctx
  pub encrypt_update : Ctx → Bytes → Option (Ctx × Bytes)
  pub encrypt_final : Ctx → Option (Ctx × Bytes)
  pub get_tag : Ctx → ℕ → Option Bytes
  pub decrypt_init : Ctx → Option Ctx
  pub decrypt_key : Ctx → Bytes → Bytes → Option Ctx
  pub decrypt_aad : Ctx → Bytes → Option Ctx
  pub decrypt_update : Ctx → Bytes → Option (Ctx × Bytes)
  pub set_tag : Ctx → Bytes → Option Ctx
  pub decrypt_final : Ctx → Option (Ctx × Bytes)

-- Each call of a decryption answers the matching call of an encryption: `Mirrors c d` says that
-- `d` has been given what `c` has. The cipher is a stream cipher, with nothing left to flush.
pub record IsAead (E : Evp) : Type 1 where
  pub Mirrors : E.Ctx → E.Ctx → Type 0
  pub init :
      (c c' : E.Ctx)
      → E.encrypt_init c ≡ some c'
      → (d : E.Ctx) × (E.decrypt_init c ≡ some d) × Mirrors c' d
  pub key :
      (c d c' : E.Ctx) (k n : Bytes)
      → Mirrors c d
      → E.encrypt_key c k n ≡ some c'
      → (d' : E.Ctx) × (E.decrypt_key d k n ≡ some d') × Mirrors c' d'
  pub aad :
      (c d c' : E.Ctx) (a : Bytes)
      → Mirrors c d
      → E.encrypt_aad c a ≡ some c'
      → (d' : E.Ctx) × (E.decrypt_aad d a ≡ some d') × Mirrors c' d'
  pub update :
      (c d c' : E.Ctx) (pt ct : Bytes)
      → Mirrors c d
      → E.encrypt_update c pt ≡ some (c', ct)
      → (d' : E.Ctx) × (E.decrypt_update d ct ≡ some (d', pt))
        × Mirrors c' d'
        × (length ct ≡ length pt)
  pub finish :
      (c d c' : E.Ctx) (out tag : Bytes)
      → Mirrors c d
      → E.encrypt_final c ≡ some (c', out)
      → E.get_tag c' 16 ≡ some tag
      → (out ≡ [])
        × (length tag ≡ 16)
        × (d' : E.Ctx) × (E.set_tag d tag ≡ some d')
        × (d'' : E.Ctx) × (E.decrypt_final d' ≡ some (d'', []))

-- `EVP_EncodeBlock` and `EVP_DecodeBlock`; a negative result is `none`. `behind` is the memory behind the
-- buffer of `base64_decode`, by the distance from its last decoded byte.
pub record Blocks : Type 0 where
  pub encode_block : Bytes → Bytes
  pub decode_block : Bytes → Option Bytes
  pub behind : ℕ → ℕ

-- The bytes of a base64 text: none that the client trims or replaces, and no padding.
abbrev pub IsDigit64 : ℕ → Type 0
IsDigit64 c = (c ≢ b'\r') × (c ≢ b'\n') × (c ≢ b' ') × (c ≢ b'-') × (c ≢ b'_') × (c ≢ b'=')

-- How many bytes a block of three lacks.
abbrev pub shortfall : ℕ → ℕ
shortfall n = (2 * n) % 3

-- EVP_EncodeInit(3): four characters for three bytes, filled with `=`. Decoding an encoded buffer gives three
-- bytes for each four characters, those for the `=` included, which are zeros.
pub record IsBase64 (B : Blocks) : Type 0 where
  pub digits : Bytes → Bytes
  pub encodes : (x : Bytes) → B.encode_block x ≡ digits x ++ replicate (shortfall (length x)) b'='
  pub are_digits : (x : Bytes) → All IsDigit64 (digits x)
  pub encoded_length :
      (x : Bytes) → length (digits x) + shortfall (length x) ≡ 4 * ((length x + 2) / 3)
  pub decodes :
      (x : Bytes)
      → B.decode_block (B.encode_block x) ≡ some (x ++ replicate (shortfall (length x)) 0)

-- `OQS_KEM_new("ML-KEM-768")`: the lengths that the object carries.
pub record KemSizes : Type 0 where
  pub public_key : ℕ
  pub secret_key : ℕ
  pub ciphertext : ℕ
  pub shared_secret : ℕ

-- liboqs's key encapsulation. The library draws its own randomness: `coins`.
pub record Oqs : Type 0 where
  pub kem_new : Option KemSizes
  pub kem_keypair : Bytes → Option (Bytes × Bytes)
  pub kem_encaps : Bytes → Bytes → Option (Bytes × Bytes)
  pub kem_decaps : Bytes → Bytes → Option Bytes

-- What was encapsulated to the public key of a pair is recovered with its secret key; the buffers
-- have the lengths that the object carries, and a shared secret has 32 bytes.
pub record IsKem (O : Oqs) : Type 0 where
  pub sizes : KemSizes
  pub available : O.kem_new ≡ some sizes
  pub secret_length : sizes.shared_secret ≡ 32
  pub public_length :
      (coins pk sk : Bytes) → O.kem_keypair coins ≡ some (pk, sk) → length pk ≡ sizes.public_key
  pub encaps_lengths :
      (coins pk ct ss : Bytes)
      → O.kem_encaps coins pk ≡ some (ct, ss)
      → (length ct ≡ sizes.ciphertext) × (length ss ≡ sizes.shared_secret)
  pub recovers :
      (coins coins' pk sk ct ss : Bytes)
      → O.kem_keypair coins ≡ some (pk, sk)
      → O.kem_encaps coins' pk ≡ some (ct, ss)
      → O.kem_decaps ct sk ≡ some ss

-- `OQS_SIG_new("ML-DSA-65")`: the lengths that the object carries.
pub record SigSizes : Type 0 where
  pub public_key : ℕ
  pub secret_key : ℕ
  pub signature : ℕ

-- liboqs's signatures. `sig_sign` takes the message and the secret key and gives the first `sig_len`
-- bytes of the buffer; the client does not look at its result.
pub record Sig : Type 0 where
  pub sig_new : Option SigSizes
  pub sig_keypair : Bytes → Option (Bytes × Bytes)
  pub sig_sign : Bytes → Bytes → Bytes
