-- ===== src/Tests/Crypto.antt =====
-- Round trips of the primitives of client/src/lib on small inputs.
use shyake.Base.{◌≡◌, refl, Bytes, [], ◌∷◌, ◌++◌, some, codes, replicate}
use shyake.Os.{Entropy}
use shyake.Crypto.Base64.{base64_encode, base64_decode}
use shyake.Crypto.Base64.RoundTrip.{base64_decode-encode}
use shyake.Crypto.ChaCha.{chacha20_poly1305_encrypt}
use shyake.Crypto.Seal.{seal_with, encrypt_to_b64, decrypt_from_b64}
use shyake.Crypto.Seal.RoundTrip.{decrypt-encrypt_to_b64}
use shyake.Crypto.Kem.{kem_encapsulate_key, kem_decapsulate_key}
use shyake.Crypto.Kem.RoundTrip.{decapsulate-encapsulate}
use shyake.Tests.Toys.{toy_evp, toy_evp-IsAead, toy_oqs, toy_oqs-IsKem, toy_pk, toy_sk}
use shyake.Tests.Toys64.{toy_blocks, toy_blocks-IsBase64}

abbrev hello : Bytes
hello = codes "hello"

abbrev drawn : Entropy
drawn = replicate 12 3 ∷ []

abbrev key : Bytes
key = replicate 32 1

base64_decode-encode_example :
    base64_decode toy_blocks (base64_encode toy_blocks hello) ≡ some hello
base64_decode-encode_example = base64_decode-encode toy_blocks-IsBase64 hello

abbrev sealed : Bytes
sealed = base64_encode toy_blocks (replicate 12 3 ++ (hello ++ replicate 16 0))

sealed-hello : (encrypt_to_b64 toy_evp toy_blocks (replicate 12 0) key hello drawn).0 ≡ some sealed
unfolding encrypt_to_b64 chacha20_poly1305_encrypt seal_with
sealed-hello = refl

decrypt-encrypt_to_b64_example : decrypt_from_b64 toy_evp toy_blocks key sealed ≡ some hello
decrypt-encrypt_to_b64_example =
    decrypt-encrypt_to_b64 toy_evp-IsAead toy_blocks-IsBase64 key (replicate 12 0) hello sealed
      drawn refl sealed-hello

abbrev wrapped : Bytes
wrapped = base64_encode toy_blocks (7 ∷ 8 ∷ replicate 32 8)

wrapped_key : kem_encapsulate_key toy_oqs toy_blocks [] toy_pk key ≡ some wrapped
unfolding kem_encapsulate_key
wrapped_key = refl

decapsulate-encapsulate_example : kem_decapsulate_key toy_oqs toy_blocks wrapped toy_sk ≡ some key
decapsulate-encapsulate_example =
    decapsulate-encapsulate toy_oqs-IsKem toy_blocks-IsBase64 [] [] toy_pk toy_sk key wrapped refl
      refl wrapped_key
