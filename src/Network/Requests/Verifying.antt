-- ===== src/Network/Requests/Verifying.antt =====
-- What a server reads off the headers that client/src/lib/network.c makes for a request.
use shyake.Base.{
  ◌≤◌, ◌≡◌, refl, ap, sym, ◌∙◌, Bytes, [], ◌∷◌, ◌++◌, List, Option, none, some, codes, ◌+◌, length,
  length-append, length-take, length-replicate, replicate, append-nil, ℕ, take, take_all, arith,
  ◌==◌, if◌then◌else◌,
}
use shyake.Base.Hex.{hex, length-hex}
use shyake.Context.{path_in, or_null}
use mathlib.Core.Path.{subst}
use shyake.Base.Decimal.{show}
use shyake.Crypto.Interface.{IsBase64, shortfall}
use shyake.Crypto.Base64.{base64_encode, base64_decode}
use shyake.Crypto.Base64.RoundTrip.{base64_decode-encode}
use shyake.KeyFile.{load_sk_decrypted}
use shyake.Network.Requests.{
  timestamp_of, mint, digest_of, signed_message, signed_headers, create_signed_headers_body,
}
use shyake.Network.Requests.Signing.{signing_made, create_signed_headers_body_disk}
use shyake.Client.{Libs, World, State}

-- What follows a prefix.
after_prefix : Bytes → Bytes → Option Bytes
after_prefix [] s = some s
after_prefix (p ∷ prefix) [] = none
after_prefix (p ∷ prefix) (c ∷ s) =
    let later = after_prefix prefix s in if p == c then later else none

-- The value of the first header of that name.
unfoldable pub header_value : Bytes → List Bytes → Option Bytes
unfolding after_prefix
header_value name [] = none
header_value name (line ∷ lines) =
    let later = header_value name lines in
    elim (after_prefix (name ++ codes ": ") line) [ none ↦ later | some value ↦ some value ]

-- The text that a server checks the signature of, by the user and the time that the headers name.
abbrev pub checked_text : (Bytes → Bytes) → Bytes → Bytes → Option Bytes → Bytes → Bytes → Bytes
checked_text sha256 method endpoint none user time =
    method ++ (codes ":" ++ (endpoint ++ (codes ":" ++ (user ++ (codes ":" ++ time)))))
checked_text sha256 method endpoint (some body) user time =
    method
    ++ (codes ":"
        ++ (endpoint
            ++ (codes ":"
                ++ (user ++ (codes ":" ++ (time ++ (codes ":" ++ hex (take 32 (sha256 body)))))))))

module _ (L : Libs) (D : IsBase64 L.blocks) (W : World) (method endpoint : Bytes)
    (username body : Option Bytes) where
  -- The headers verify: they name the user and the time, and the signature that they carry decodes to that
  -- of the text which a server makes of these.
  pub record Verifies (ssk : Bytes) (headers : List Bytes) : Type 0 where
    pub user : Bytes
    pub time : Bytes
    pub sig_b64 : Bytes
    pub names_user : header_value (codes "X-Shyake-Username") headers ≡ some user
    pub is_user : user ≡ or_null username
    pub names_time : header_value (codes "X-Shyake-Timestamp") headers ≡ some time
    pub is_time : time ≡ timestamp_of W
    pub carries : header_value (codes "X-Shyake-Signature") headers ≡ some sig_b64
    pub decodes :
        base64_decode L.blocks sig_b64
        ≡ some (L.sig.sig_sign (checked_text L.sha256 method endpoint body user time) ssk)

  digest_text : (b : Option Bytes) → length (digest_of L W b) ≤ 65
  unfolding digest_of
  digest_text none = omega arith
  digest_text (some b) =
      omega (arith, length-hex (take 32 (L.sha256 b)), length-take 32 (L.sha256 b))

  parts_whole :
      (m e u t g : Bytes)
      → length m + length e + length u + length t + length g ≤ 636
      → take 639 (m ++ (b':' ∷ (e ++ (b':' ∷ (u ++ (b':' ∷ (t ++ g)))))))
        ≡ m ++ (b':' ∷ (e ++ (b':' ∷ (u ++ (b':' ∷ (t ++ g))))))
  parts_whole m e u t g h = take_all 639 (m ++ (b':' ∷ (e ++ (b':' ∷ (u ++ (b':' ∷ (t ++ g))))))) (
      omega (
        arith,
        length-append m (b':' ∷ (e ++ (b':' ∷ (u ++ (b':' ∷ (t ++ g)))))),
        length-append e (b':' ∷ (u ++ (b':' ∷ (t ++ g)))),
        length-append u (b':' ∷ (t ++ g)),
        length-append t g,
      ))

  message_text :
      (b : Option Bytes)
      → length method + length endpoint + length (or_null username) ≤ 540
      → signed_message L W method endpoint username b
        ≡ checked_text L.sha256 method endpoint b (or_null username) (timestamp_of W)
  unfolding signed_message digest_of
  message_text none h =
      parts_whole method endpoint (or_null username) (timestamp_of W) []
        (omega (arith, length-take 31 (show W.now)))
      ∙ rw (append-nil (timestamp_of W)) refl
  message_text (some b) h =
      parts_whole method endpoint (or_null username) (timestamp_of W) (digest_of L W (some b))
        (omega (arith, length-take 31 (show W.now), digest_text (some b)))

  -- The first three headers, where no line is cut.
  module _ (sig_b64 : Bytes) (pow : Option Bytes) where
    abbrev made : List Bytes
    made = signed_headers L W username sig_b64 pow

    made_user :
        length (or_null username) ≤ 8000
        → header_value (codes "X-Shyake-Username") made ≡ some (or_null username)
    unfolding signed_headers header_value after_prefix
    made_user h = ap {B = Option Bytes} some (take_all 8172 (or_null username) (omega arith))

    made_time :
        length (or_null username) ≤ 8000
        → header_value (codes "X-Shyake-Timestamp") made ≡ some (timestamp_of W)
    unfolding signed_headers header_value after_prefix
    made_time h =
        ap {B = Option Bytes} some
          (take_all 8171 (timestamp_of W) (omega (arith, length-take 31 (show W.now))))

    made_signature :
        length (or_null username) ≤ 8000
        → length sig_b64 ≤ 8000
        → header_value (codes "X-Shyake-Signature") made ≡ some sig_b64
    unfolding signed_headers header_value after_prefix
    made_signature h h' = ap {B = Option Bytes} some (take_all 8171 sig_b64 (omega (arith, h')))

  -- A signature of at most 3309 bytes, those of ML-DSA-65, is encoded in a line.
  encoded_fits : (sig : Bytes) → length sig ≤ 3309 → length (base64_encode L.blocks sig) ≤ 8000
  unfolding base64_encode
  encoded_fits sig h = rw (D.encodes sig) (
      omega (
        arith,
        D.encoded_length sig,
        length-append (D.digits sig) (replicate (shortfall (length sig)) b'='),
        length-replicate {A = ℕ} (shortfall (length sig)) b'=',
      ))

  -- Headers are made only with the signing key that the config directory holds, opened under the passphrase of
  -- the context, and they verify: a server that reads the user and the time off them, and makes of these, the
  -- method, the endpoint and the digest of the body, if there is one, the text that was signed, finds that their
  -- signature decodes to the one of that text. Context and files stay as they were. Method, endpoint and user
  -- have at most 540 bytes together, so that nothing is cut, and a signature the 3309 of ML-DSA-65.
  pub create_signed_headers_body-Verifies :
      (s : State) (headers : List Bytes)
      → length method + length endpoint + length (or_null username) ≤ 540
      → ((message ssk : Bytes) → length (L.sig.sig_sign message ssk) ≤ 3309)
      → (create_signed_headers_body L W method endpoint username body s).0 ≡ some headers
      → (ssk : Bytes) × ((load_sk_decrypted L.evp L.kdf s.ctx
            (path_in s.ctx.config_dir (codes "sig_sk.bin"))
            s.disk).0
          ≡ some ssk)
        × Verifies ssk headers
        × ((create_signed_headers_body L W method endpoint username body s).1.ctx ≡ s.ctx)
        × ((create_signed_headers_body L W method endpoint username body s).1.disk ≡ s.disk)
  create_signed_headers_body-Verifies s headers short fits h =
      let (ssk, key, are_made, kept) = signing_made L W method endpoint username body s headers h in
      let message = signed_message L W method endpoint username body in
      let sig = L.sig.sig_sign message ssk in
      let pow = (mint L W (or_null username) 20 s.entropy).0 in
      let line_fits : length (or_null username) ≤ 8000 = omega (arith, short) in
      (
        ssk,
        key,
        subst (Verifies ssk) (sym are_made) (record {
          user = or_null username;
          time = timestamp_of W;
          sig_b64 = base64_encode L.blocks sig;
          names_user = made_user (base64_encode L.blocks sig) pow line_fits;
          is_user = refl;
          names_time = made_time (base64_encode L.blocks sig) pow line_fits;
          is_time = refl;
          carries =
              made_signature (base64_encode L.blocks sig) pow line_fits
                (encoded_fits sig (fits message ssk));
          decodes =
              base64_decode-encode D sig
              ∙ ap (λ (m : Bytes). some (L.sig.sig_sign m ssk)) (message_text body short);
        }),
        kept,
        create_signed_headers_body_disk L W method endpoint username body s,
      )
