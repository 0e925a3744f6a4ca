-- ===== src/Crypto/Seal/RoundTrip.antt =====
-- A sealed field opens to its text under the key that sealed it.
use mathlib.Core.Option.{some_inj}
use mathlib.Core.Path.{subst}
use shyake.Base.{
  ℕ, ◌+◌, ◌-◌, ◌<◌, ◌≡◌, ◌≢◌, refl, false, Bytes, [], ◌∷◌, ◌++◌, some, ◌>>=◌, >>=-eq-some, length,
  length-append, length-take, length-drop, take, take_all, drop, drop-drop, take-append_eq,
  drop-append_eq, replicate, length-replicate, leb, is_empty, is_empty_of_length, length_of_ne_nil,
  arith,
}
use shyake.Os.{Entropy}
use shyake.Crypto.Interface.{Evp, IsAead, Blocks, IsBase64, shortfall}
use shyake.Crypto.Base64.{base64_encode}
use shyake.Crypto.Base64.RoundTrip.{base64_decode-encode}
use shyake.Crypto.ChaCha.{chacha20_poly1305_encrypt}
use shyake.Crypto.ChaCha.RoundTrip.{decrypt-encrypt}
use shyake.Crypto.Seal.{seal_with, read_nonce, encrypt_to_b64, decrypt_from_b64}

module _ {E : Evp} (A : IsAead E) {B : Blocks} (L : IsBase64 B) where
  encode-nonempty : (x : Bytes) → 0 < length x → is_empty (base64_encode B x) ≡ false
  unfolding base64_encode
  encode-nonempty x lt =
      let fill : Bytes = replicate (shortfall (length x)) b'=' in
      rw (L.encodes x) (
        is_empty_of_length (L.digits x ++ fill) (
          omega (
            arith,
            L.encoded_length x,
            length-append (L.digits x) fill,
            length-replicate {A = ℕ} (shortfall (length x)) b'=',
          )))

  packed_opens :
      (key nonce pt ct mac : Bytes)
      → length nonce ≡ 12
      → pt ≢ []
      → chacha20_poly1305_encrypt E key nonce pt [] ≡ some (ct, mac)
      → decrypt_from_b64 E B key (base64_encode B (nonce ++ (ct ++ mac))) ≡ some pt
  unfolding decrypt_from_b64
  packed_opens key nonce pt ct mac n ne h =
      let packed = nonce ++ (ct ++ mac) in
      let (decrypts, ct_length, mac_length) = decrypt-encrypt A key nonce pt [] ct mac h in
      let some_text = length_of_ne_nil pt ne in
      let size : length packed ≡ 28 + length ct =
        omega (arith, length-append nonce (ct ++ mac), length-append ct mac) in
      let rest : drop 12 packed ≡ ct ++ mac = drop-append_eq 12 nonce (ct ++ mac) n in
      let ct_len : length packed - 28 ≡ length ct = omega arith in
      let long : leb (length packed) 28 ≡ false = ground arith in
      let tag_at : take 16 (drop (12 + length ct) packed) ≡ mac =
        rw (← drop-drop 12 (length ct) packed, rest, drop-append_eq (length ct) ct mac refl)
          (take_all 16 mac (omega arith)) in
      rw
        (
          encode-nonempty packed (omega arith),
          base64_decode-encode L packed,
          ◌>>=◌,
          long,
          ct_len,
          tag_at,
          rest,
          take-append_eq 12 nonce (ct ++ mac) n,
          take-append_eq (length ct) ct mac refl,
        )
        decrypts

  -- A text that was sealed opens to itself under the same key, whatever nonce was drawn. No text is
  -- sealed as nothing: `encrypt_to_b64` returns a result only for a text that is not empty.
  pub decrypt-encrypt_to_b64 :
      (key stack pt b64 : Bytes) (ent : Entropy)
      → length stack ≡ 12
      → (encrypt_to_b64 E B stack key pt ent).0 ≡ some b64
      → decrypt_from_b64 E B key b64 ≡ some pt
  unfolding encrypt_to_b64 seal_with
  decrypt-encrypt_to_b64 key stack [] b64 ent s h = cc
  decrypt-encrypt_to_b64 key stack (p ∷ pt) b64 [] s h = cc
  decrypt-encrypt_to_b64 key stack (p ∷ pt) b64 (answer ∷ rest) s h =
      let nonce = read_nonce stack (take 12 answer) in
      let ((ct, mac), h0, h1) =
        >>=-eq-some (chacha20_poly1305_encrypt E key nonce (p ∷ pt) []) _ h in
      subst (λ b. decrypt_from_b64 E B key b ≡ some (p ∷ pt)) (some_inj.0 h1)
        (packed_opens key nonce (p ∷ pt) ct mac
          (omega (
            arith,
            length-append (take 12 answer) (drop (length (take 12 answer)) stack),
            length-take 12 answer,
            length-drop (length (take 12 answer)) stack,
          ))
          (λ e. cc) h0)
