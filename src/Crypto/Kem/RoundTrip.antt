-- ===== src/Crypto/Kem/RoundTrip.antt =====
-- A key wrapped for a key pair is unwrapped by that pair's secret key.
use mathlib.Core.Option.{some_inj}
use mathlib.Core.Path.{subst}
use shyake.Base.{
  ◌+◌, ◌≡◌, ap, true, Bytes, ◌++◌, Option, some, ◌>>=◌, >>=-eq-some, length, length-append, take,
  take_all, take-append_eq, drop-append_eq, ◌==◌, ==_iff, arith,
}
use shyake.Base.Xor.{xor_bytes, length-xor_bytes, xor_bytes_cancel}
use shyake.Crypto.Interface.{Oqs, IsKem, Blocks, IsBase64}
use shyake.Crypto.Base64.{base64_encode}
use shyake.Crypto.Base64.RoundTrip.{base64_decode-encode}
use shyake.Crypto.Kem.{kem_encapsulate_key, kem_decapsulate_key}

module _ {O : Oqs} (M : IsKem O) {B : Blocks} (L : IsBase64 B) where
  -- With the wrapped key written out.
  unwraps :
      (coins coins' pk sk sym_key ct ss : Bytes)
      → O.kem_keypair coins ≡ some (pk, sk)
      → length sym_key ≡ 32
      → O.kem_encaps coins' pk ≡ some (ct, ss)
      → kem_decapsulate_key O B
          (base64_encode B (take M.sizes.ciphertext ct ++ xor_bytes (take 32 sym_key) ss))
          sk
        ≡ some sym_key
  unfolding kem_decapsulate_key
  unwraps coins coins' pk sk sym_key ct ss pair k h =
      let n = M.sizes.ciphertext in
      let (ct_length, ss_length) = M.encaps_lengths coins' pk ct ss h in
      let whole_ct : take n ct ≡ ct = take_all n ct (omega arith) in
      let whole_key : take 32 sym_key ≡ sym_key = take_all 32 sym_key (omega arith) in
      let ek = xor_bytes sym_key ss in
      let ek_length = length-xor_bytes sym_key ss (omega (arith, M.secret_length)) in
      let fits : (length (ct ++ ek) == n + 32) ≡ true =
        (==_iff _ _).1 (omega (arith, length-append ct ek)) in
      rw
        (
          whole_ct,
          whole_key,
          base64_decode-encode L (ct ++ ek),
          ◌>>=◌,
          M.available,
          fits,
          take-append_eq n ct ek ct_length,
          drop-append_eq n ct ek ct_length,
          M.recovers coins coins' pk sk ct ss pair h,
        )
        (ap {B = Option Bytes} some (xor_bytes_cancel sym_key ss (omega (arith, M.secret_length))))

  -- A 32-byte key that was wrapped for the public key of a pair is unwrapped by its secret key.
  pub decapsulate-encapsulate :
      (coins coins' pk sk sym_key b64 : Bytes)
      → O.kem_keypair coins ≡ some (pk, sk)
      → length sym_key ≡ 32
      → kem_encapsulate_key O B coins' pk sym_key ≡ some b64
      → kem_decapsulate_key O B b64 sk ≡ some sym_key
  unfolding kem_encapsulate_key
  decapsulate-encapsulate coins coins' pk sk sym_key b64 pair k h =
      let fits : (length pk == M.sizes.public_key) ≡ true =
        (==_iff _ _).1 (M.public_length coins pk sk pair) in
      let h0 = rw (M.available, ◌>>=◌, fits) at h in
      let ((ct, ss), h1, h2) = >>=-eq-some (O.kem_encaps coins' pk) _ h0 in
      subst (λ b. kem_decapsulate_key O B b sk ≡ some sym_key) (some_inj.0 h2)
        (unwraps coins coins' pk sk sym_key ct ss pair k h1)
