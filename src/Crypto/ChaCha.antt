-- ===== src/Crypto/ChaCha.antt =====
-- client/src/lib/shyake_crypto.c: one-shot ChaCha20-Poly1305 over OpenSSL's contexts. A return of
-- -1 is `none`; the output buffers are results.
pub mod RoundTrip
use shyake.Base.{ℕ, Bytes, [], ◌∷◌, ◌++◌, Option, none, some, ◌>>=◌}
use shyake.Crypto.Interface.{Evp}

module _ (E : Evp) where
  -- `if (aad && aad_len > 0)`
  encrypt_aad_part : E.Ctx → Bytes → Option E.Ctx
  encrypt_aad_part c [] = some c
  encrypt_aad_part c (a ∷ aad) = E.encrypt_aad c (a ∷ aad)

  -- `if (plaintext && plaintext_len > 0)`
  encrypt_text_part : E.Ctx → Bytes → Option (E.Ctx × Bytes)
  encrypt_text_part c [] = some (c, [])
  encrypt_text_part c (p ∷ pt) = E.encrypt_update c (p ∷ pt)

  unfoldable pub chacha20_poly1305_encrypt : Bytes → Bytes → Bytes → Bytes → Option (Bytes × Bytes)
  unfolding encrypt_aad_part encrypt_text_part
  chacha20_poly1305_encrypt key nonce plaintext aad = do
    c ← E.ctx_new
    c1 ← E.encrypt_init c
    c2 ← E.encrypt_key c1 key nonce
    c3 ← encrypt_aad_part c2 aad
    (c4, ciphertext) ← encrypt_text_part c3 plaintext
    (c5, tail) ← E.encrypt_final c4
    mac ← E.get_tag c5 16
    some (ciphertext ++ tail, mac)

  decrypt_aad_part : E.Ctx → Bytes → Option E.Ctx
  decrypt_aad_part c [] = some c
  decrypt_aad_part c (a ∷ aad) = E.decrypt_aad c (a ∷ aad)

  decrypt_text_part : E.Ctx → Bytes → Option (E.Ctx × Bytes)
  decrypt_text_part c [] = some (c, [])
  decrypt_text_part c (x ∷ ct) = E.decrypt_update c (x ∷ ct)

  unfoldable pub chacha20_poly1305_decrypt : Bytes → Bytes → Bytes → Bytes → Bytes → Option Bytes
  unfolding decrypt_aad_part decrypt_text_part
  chacha20_poly1305_decrypt key nonce ciphertext aad mac = do
    c ← E.ctx_new
    c1 ← E.decrypt_init c
    c2 ← E.decrypt_key c1 key nonce
    c3 ← decrypt_aad_part c2 aad
    (c4, plaintext) ← decrypt_text_part c3 ciphertext
    c5 ← E.set_tag c4 mac
    (c6, tail) ← E.decrypt_final c5
    some (plaintext ++ tail)
