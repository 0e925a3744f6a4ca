-- ===== src/EncFile/RoundTrip.antt =====
-- A file that was encrypted is decrypted to itself.
use mathlib.Core.Option.{some_inj}
use mathlib.Core.Path.{subst}
use shyake.Base.{
  ℕ, ◌+◌, ◌≤◌, ◌<◌, ◌^◌, ◌≡◌, refl, true, Bytes, [], ◌∷◌, ◌++◌, Option, none, some, ◌>>=◌,
  >>=-eq-some, length, length-append, take, take_all, take-append_eq, drop-append_eq, ◌==◌, ==_iff,
  arith, append-nil, ◌∙◌,
}
use shyake.Base.Xor.{xor_bytes, length-xor_bytes, xor_bytes_cancel}
use shyake.Wire.{write_u32le, fread-write_u32le}
use shyake.Crypto.Interface.{Evp, IsAead, Oqs, IsKem, Blocks}
use shyake.Crypto.ChaCha.{chacha20_poly1305_encrypt}
use shyake.Crypto.ChaCha.RoundTrip.{decrypt-encrypt}
use shyake.Os.{Entropy}
use shyake.KeyFile.{fill_random}
use shyake.EncFile.{
  Parts, layout, fread_all, parse, encapsulate, seal_text, with_wrapped, enc_content, unseal_text,
}

-- The fields have the lengths that the format gives them.
pub record IsFitting (kem_ct_len pt_len : ℕ) (p : Parts) : Type 0 where
  pub kem_ct_fits : length p.kem_ct ≡ kem_ct_len
  pub ek_fits : length p.ek ≡ 32
  pub nonce_fits : length p.nonce ≡ 12
  pub ct_fits : length p.ct ≡ pt_len
  pub mac_fits : length p.mac ≡ 16

fread_all-append :
    (n : ℕ) (x rest : Bytes) → length x ≡ n → fread_all n (x ++ rest) ≡ some (x, rest)
unfolding fread_all
fread_all-append n x rest h =
    rw (take-append_eq n x rest h, drop-append_eq n x rest h, (==_iff (length x) n).1 h) refl

fread_all_whole : (n : ℕ) (x : Bytes) → length x ≡ n → fread_all n x ≡ some (x, [])
fread_all_whole n x h = let e = fread_all-append n x [] h in rw (append-nil x) at e

-- The fields that were laid out are parsed back.
pub parse-layout :
    (kem_ct_len pt_len : ℕ) (p : Parts)
    → kem_ct_len < 2 ^ 32
    → pt_len < 2 ^ 32
    → IsFitting kem_ct_len pt_len p
    → parse (layout kem_ct_len pt_len p) ≡ some p
unfolding parse layout
parse-layout n m p hn hm fits =
    rw
      (
        fread-write_u32le n
            (p.kem_ct
              ++ (write_u32le 32 ++ (p.ek ++ (write_u32le m ++ (p.nonce ++ (p.ct ++ p.mac))))))
            hn,
        fread_all-append n p.kem_ct
            (write_u32le 32 ++ (p.ek ++ (write_u32le m ++ (p.nonce ++ (p.ct ++ p.mac)))))
            fits.kem_ct_fits,
        ◌>>=◌,
        fread-write_u32le 32 (p.ek ++ (write_u32le m ++ (p.nonce ++ (p.ct ++ p.mac))))
            (omega arith),
        fread_all-append 32 p.ek (write_u32le m ++ (p.nonce ++ (p.ct ++ p.mac))) fits.ek_fits,
        fread-write_u32le m (p.nonce ++ (p.ct ++ p.mac)) hm,
        fread_all-append 12 p.nonce (p.ct ++ p.mac) fits.nonce_fits,
        fread_all-append m p.ct p.mac fits.ct_fits,
        fread_all_whole 16 p.mac fits.mac_fits,
      )
      refl

length-layout : (n m : ℕ) (p : Parts) → IsFitting n m p → length (layout n m p) ≡ n + m + 72
unfolding layout write_u32le
length-layout n m p fits = omega (
  arith,
  length-append p.kem_ct
      (write_u32le 32 ++ (p.ek ++ (write_u32le m ++ (p.nonce ++ (p.ct ++ p.mac))))),
  length-append p.ek (write_u32le m ++ (p.nonce ++ (p.ct ++ p.mac))),
  length-append p.nonce (p.ct ++ p.mac),
  length-append p.ct p.mac,
)

module _ {E : Evp} (A : IsAead E) (B : Blocks) {O : Oqs} (M : IsKem O) where
  -- What the holder of the secret key makes of the content of a file.
  abbrev pub Holds : Bytes → Bytes → Bytes → Type 0
  Holds sk pt content =
      (p : Parts) × (ss : Bytes) × (parse content ≡ some p)
      × (O.kem_decaps p.kem_ct sk ≡ some ss)
      × (unseal_text E B O p ss ≡ some pt)
      × (length content ≡ M.sizes.ciphertext + length pt + 72)

  laid_out-Holds :
      (coins coins' pk sk sym_key nonce pt kem_ct ss ct mac : Bytes)
      → M.sizes.ciphertext < 2 ^ 32
      → length pt < 2 ^ 32
      → length sym_key ≡ 32
      → length nonce ≡ 12
      → O.kem_keypair coins' ≡ some (pk, sk)
      → O.kem_encaps coins pk ≡ some (kem_ct, ss)
      → chacha20_poly1305_encrypt E sym_key nonce pt [] ≡ some (ct, mac)
      → Holds sk pt (
          layout M.sizes.ciphertext (length pt) (record {
            kem_ct = take M.sizes.ciphertext kem_ct;
            ek = xor_bytes sym_key ss;
            nonce = nonce;
            ct = ct;
            mac = mac;
          }))
  unfolding unseal_text
  laid_out-Holds coins coins' pk sk sym_key nonce pt kem_ct ss ct mac small short k32 n12 pair enc
        sealed =
      let n = M.sizes.ciphertext in
      let (ct_length, ss_length) = M.encaps_lengths coins pk kem_ct ss enc in
      let whole : take n kem_ct ≡ kem_ct = take_all n kem_ct (omega arith) in
      let covered : length sym_key ≤ length ss = omega (arith, M.secret_length) in
      let (opens, ct_same, mac16) = decrypt-encrypt A sym_key nonce pt [] ct mac sealed in
      let p : Parts = record {
        kem_ct = take n kem_ct;
        ek = xor_bytes sym_key ss;
        nonce = nonce;
        ct = ct;
        mac = mac;
      } in
      let fits : IsFitting n (length pt) p = record {
        kem_ct_fits = rw whole ct_length;
        ek_fits = length-xor_bytes sym_key ss covered ∙ k32;
        nonce_fits = n12;
        ct_fits = ct_same;
        mac_fits = mac16;
      } in
      (
        p,
        ss,
        parse-layout n (length pt) p small short fits,
        rw whole (M.recovers coins' coins pk sk kem_ct ss pair enc),
        rw (xor_bytes_cancel sym_key ss covered) opens,
        length-layout n (length pt) p fits,
      )

  fill_random-length :
      (n : ℕ) (ent : Entropy) {buf : Bytes} → (fill_random n ent).0 ≡ some buf → length buf ≡ n
  unfolding fill_random
  fill_random-length n [] h = cc
  fill_random-length n (a ∷ ent) h = ground arith

  sealed-Holds :
      (coins coins' pk sk sym_key pt content : Bytes) (w : Option (ℕ × Bytes × Bytes))
      (ent : Entropy)
      → M.sizes.ciphertext < 2 ^ 32
      → length pt < 2 ^ 32
      → length sym_key ≡ 32
      → O.kem_keypair coins' ≡ some (pk, sk)
      → encapsulate E B O coins pk sym_key ≡ w
      → (with_wrapped E B O pt
          (w >>= λ (kem_ct_len, kem_ct, ek). some (sym_key, kem_ct_len, kem_ct, ek))
          ent).0
        ≡ some content
      → Holds sk pt content
  unfolding with_wrapped seal_text encapsulate
  sealed-Holds coins coins' pk sk sym_key pt content none ent small short k32 pair e h = cc
  sealed-Holds coins coins' pk sk sym_key pt content (some (n, kct, ek)) ent small short k32 pair e
        h =
      let (nonce, drawn, h1) = >>=-eq-some (fill_random 12 ent).0 _ h in
      let ((ct, mac), sealed, h2) =
        >>=-eq-some (chacha20_poly1305_encrypt E sym_key nonce pt []) _ h1 in
      let fits : (length pk == M.sizes.public_key) ≡ true =
        (==_iff _ _).1 (M.public_length coins' pk sk pair) in
      let e0 = rw (M.available, ◌>>=◌, fits) at e in
      let ((kem_ct, ss), enc, e1) = >>=-eq-some (O.kem_encaps coins pk) _ e0 in
      let same = some_inj.0 e1 in
      subst (Holds sk pt) (some_inj.0 h2) (
        subst
          (λ (w : ℕ × Bytes × Bytes). Holds sk pt (
            layout w.0 (length pt)
              (record { kem_ct = w.1; ek = w.2; nonce = nonce; ct = ct; mac = mac })))
          same
          (laid_out-Holds coins coins' pk sk sym_key nonce pt kem_ct ss ct mac small short k32
            (fill_random-length 12 ent drawn) pair enc sealed))

  pub enc_content-Holds :
      (coins coins' pk sk pt content : Bytes) (ent : Entropy)
      → M.sizes.ciphertext < 2 ^ 32
      → length pt < 2 ^ 32
      → O.kem_keypair coins' ≡ some (pk, sk)
      → (enc_content E B O coins pk pt ent).0 ≡ some content
      → Holds sk pt content
  unfolding enc_content
  enc_content-Holds coins coins' pk sk pt content ent small short pair h =
      go (fill_random 32 ent).0 refl h
    where
      go :
          (drawn : Option Bytes)
          → (fill_random 32 ent).0 ≡ drawn
          → (with_wrapped E B O pt
              (drawn >>= λ sym_key.
                encapsulate E B O coins pk sym_key >>= λ (kem_ct_len, kem_ct, ek).
                some (sym_key, kem_ct_len, kem_ct, ek))
              (fill_random 32 ent).1).0
            ≡ some content
          → Holds sk pt content
      go none e h' = cc
      go (some sym_key) e h' =
          sealed-Holds coins coins' pk sk sym_key pt content (encapsulate E B O coins pk sym_key) _
            small short (fill_random-length 32 ent e) pair refl h'
