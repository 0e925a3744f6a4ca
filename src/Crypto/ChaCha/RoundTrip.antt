-- ===== src/Crypto/ChaCha/RoundTrip.antt =====
-- A decryption answers an encryption under the same key, nonce and associated data.
use mathlib.Core.Option.{some_inj}
use mathlib.Core.Path.{subst}
use shyake.Base.{
  ◌≡◌, refl, Bytes, [], ◌∷◌, ◌++◌, append-nil, some, ◌>>=◌, >>=-eq-some, length, arith,
}
use shyake.Crypto.Interface.{Evp, IsAead}
use shyake.Crypto.ChaCha.{
  encrypt_aad_part, encrypt_text_part, chacha20_poly1305_encrypt, decrypt_aad_part,
  decrypt_text_part, chacha20_poly1305_decrypt,
}

module _ {E : Evp} (A : IsAead E) where
  aad_part-Mirrors :
      (c d c' : E.Ctx) (a : Bytes)
      → A.Mirrors c d
      → encrypt_aad_part E c a ≡ some c'
      → (d' : E.Ctx) × (decrypt_aad_part E d a ≡ some d') × A.Mirrors c' d'
  unfolding encrypt_aad_part decrypt_aad_part
  aad_part-Mirrors c d c' [] m h = let e : c ≡ c' = cc in (d, refl, subst (λ x. A.Mirrors x d) e m)
  aad_part-Mirrors c d c' (x ∷ a) m h = A.aad c d c' (x ∷ a) m h

  text_part-Mirrors :
      (c d c' : E.Ctx) (pt ct : Bytes)
      → A.Mirrors c d
      → encrypt_text_part E c pt ≡ some (c', ct)
      → (d' : E.Ctx) × (decrypt_text_part E d ct ≡ some (d', pt))
        × A.Mirrors c' d'
        × (length ct ≡ length pt)
  unfolding encrypt_text_part decrypt_text_part
  text_part-Mirrors c d c' [] [] m h =
      let e : c ≡ c' = cc in (d, refl, subst (λ x. A.Mirrors x d) e m, refl)
  text_part-Mirrors c d c' [] (y ∷ ct) m h = cc
  text_part-Mirrors c d c' (x ∷ pt) [] m h =
      absurd (let (_, _, _, l) = A.update c d c' (x ∷ pt) [] m h in omega arith)
  text_part-Mirrors c d c' (x ∷ pt) (y ∷ ct) m h = A.update c d c' (x ∷ pt) (y ∷ ct) m h

  -- What it means that a decryption gives the plain text back.
  abbrev Opens : Bytes → Bytes → Bytes → Bytes → Bytes × Bytes → Type 0
  Opens key nonce pt aad (ct, mac) =
      (chacha20_poly1305_decrypt E key nonce ct aad mac ≡ some pt)
      × (length ct ≡ length pt)
      × (length mac ≡ 16)

  -- From the steps of an encryption, as equations between variables.
  Opens-of_steps :
      (key nonce pt aad : Bytes) (c c1 c2 c3 c4 c5 : E.Ctx) (out tail tag : Bytes)
      → E.ctx_new ≡ some c
      → E.encrypt_init c ≡ some c1
      → E.encrypt_key c1 key nonce ≡ some c2
      → encrypt_aad_part E c2 aad ≡ some c3
      → encrypt_text_part E c3 pt ≡ some (c4, out)
      → E.encrypt_final c4 ≡ some (c5, tail)
      → E.get_tag c5 16 ≡ some tag
      → Opens key nonce pt aad (out ++ tail, tag)
  unfolding chacha20_poly1305_decrypt
  Opens-of_steps key nonce pt aad c c1 c2 c3 c4 c5 out tail tag e0 e1 e2 e3 e4 e5 e6 =
      let (d1, f1, m1) = A.init c c1 e1 in
      let (d2, f2, m2) = A.key c1 d1 c2 key nonce m1 e2 in
      let (d3, f3, m3) = aad_part-Mirrors c2 d2 c3 aad m2 e3 in
      let (d4, f4, m4, l) = text_part-Mirrors c3 d3 c4 pt out m3 e4 in
      let (no_tail, tag_length, d5, f5, d6, f6) = A.finish c4 d4 c5 tail tag m4 e5 e6 in
      rw (no_tail, append-nil out)
        (rw (e0, f1, f2, f3, f4, f5, f6, append-nil pt, ◌>>=◌) refl, l, tag_length)

  -- What was encrypted is decrypted to itself; the cipher text is as long and the tag has 16 bytes.
  pub decrypt-encrypt :
      (key nonce pt aad ct mac : Bytes)
      → chacha20_poly1305_encrypt E key nonce pt aad ≡ some (ct, mac)
      → (chacha20_poly1305_decrypt E key nonce ct aad mac ≡ some pt)
        × (length ct ≡ length pt)
        × (length mac ≡ 16)
  unfolding chacha20_poly1305_encrypt
  decrypt-encrypt key nonce pt aad ct mac h =
      let (c, e0, h0) = >>=-eq-some E.ctx_new _ h in
      let (c1, e1, h1) = >>=-eq-some (E.encrypt_init c) _ h0 in
      let (c2, e2, h2) = >>=-eq-some (E.encrypt_key c1 key nonce) _ h1 in
      let (c3, e3, h3) = >>=-eq-some (encrypt_aad_part E c2 aad) _ h2 in
      let ((c4, out), e4, h4) = >>=-eq-some (encrypt_text_part E c3 pt) _ h3 in
      let ((c5, tail), e5, h5) = >>=-eq-some (E.encrypt_final c4) _ h4 in
      let (tag, e6, h6) = >>=-eq-some (E.get_tag c5 16) _ h5 in
      subst (Opens key nonce pt aad) (some_inj.0 h6)
        (Opens-of_steps key nonce pt aad c c1 c2 c3 c4 c5 out tail tag e0 e1 e2 e3 e4 e5 e6)
