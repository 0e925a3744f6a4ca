-- ===== src/Network/Requests.antt =====
-- client/src/lib/network.c: the headers that sign a request; client/src/lib/libshyake.c: the random
-- bytes of `shyake_mint_pow`.
pub mod Signing
pub mod Verifying
use shyake.Base.{ℕ, Bytes, [], ◌∷◌, ◌++◌, List, Option, none, some, codes, snprintf, take}
use shyake.Base.Decimal.{show}
use shyake.Base.Hex.{hex}
use shyake.Os.{Entropy}
use shyake.Context.{Ctx, path_in, or_null}
use shyake.Crypto.Interface.{SigSizes}
use shyake.Crypto.Base64.{base64_encode}
use shyake.KeyFile.{fill_random, load_sk_decrypted}
use shyake.Pow.{mint_pow}
use shyake.Client.{Libs, World, State}

abbrev pub or_seeded : Bytes → Option Bytes → Bytes
or_seeded seeded none = seeded
or_seeded seeded (some rnd) = rnd

-- `snprintf(timestamp, 32, "%ld", now)`
abbrev pub timestamp_of : World → Bytes
timestamp_of W = snprintf 32 (show W.now)

module _ (L : Libs) (W : World) where
  -- `shyake_mint_pow` with its own random bytes: those of `rand` where `/dev/urandom` falls short.
  unfoldable pub mint : Bytes → ℕ → Entropy → Option Bytes × Entropy
  mint resource bits ent =
      let (drawn, rest) = fill_random 12 ent in
      (mint_pow L.sha1 W.date (or_seeded W.seeded drawn) resource bits, rest)

  -- `digest`: nothing for a request without a body.
  unfoldable pub digest_of : Option Bytes → Bytes
  digest_of none = []
  digest_of (some body) = b':' ∷ hex (take 32 (L.sha256 body))

  -- The text that is signed.
  unfoldable pub signed_message : Bytes → Bytes → Option Bytes → Option Bytes → Bytes
  unfolding digest_of
  signed_message method endpoint username body = snprintf 640 (
      method
      ++ (b':'
          ∷ (endpoint
              ++ (b':' ∷ (or_null username ++ (b':' ∷ (timestamp_of W ++ digest_of body)))))))

  abbrev pub header_line : Bytes → Bytes → Bytes
  header_line name value = snprintf 8192 (name ++ (codes ": " ++ value))

  unfoldable pub signed_headers : Option Bytes → Bytes → Option Bytes → List Bytes
  signed_headers username sig_b64 pow =
      header_line (codes "X-Shyake-Username") (or_null username)
      ∷ header_line (codes "X-Shyake-Timestamp") (timestamp_of W)
      ∷ header_line (codes "X-Shyake-Signature") sig_b64
      ∷ header_line (codes "X-Shyake-Pow") (or_null pow)
      ∷ []

  -- From `OQS_SIG_new`, with the loaded key.
  sign_headers :
      Bytes → Option Bytes → Bytes → State → Option SigSizes → Option (List Bytes) × State
  sign_headers message username ssk s none = (none, s)
  sign_headers message username ssk s (some sizes) =
      let sig_b64 = base64_encode L.blocks (L.sig.sig_sign message ssk) in
      let (pow, ent) = mint (or_null username) 20 s.entropy in
      (some (signed_headers username sig_b64 pow), record s { entropy = ent })

  with_signer : Bytes → Option Bytes → State → Option Bytes × Ctx → Option (List Bytes) × State
  with_signer message username s (none, ctx) = (none, record s { ctx = ctx })
  with_signer message username s (some ssk, ctx) =
      sign_headers message username ssk (record s { ctx = ctx }) L.sig.sig_new

  -- `create_signed_headers_body`; no body is a null pointer.
  unfoldable pub create_signed_headers_body :
      Bytes → Bytes → Option Bytes → Option Bytes → State → Option (List Bytes) × State
  unfolding with_signer sign_headers signed_message signed_headers mint
  create_signed_headers_body method endpoint username body s =
      with_signer (signed_message method endpoint username body) username s
        (load_sk_decrypted L.evp L.kdf s.ctx (path_in s.ctx.config_dir (codes "sig_sk.bin")) s.disk)

  unfoldable pub create_signed_headers :
      Bytes → Bytes → Option Bytes → State → Option (List Bytes) × State
  create_signed_headers method endpoint username s =
      create_signed_headers_body method endpoint username none s

  unfoldable pub create_auth_headers : Bytes → Option Bytes → State → Option (List Bytes) × State
  create_auth_headers endpoint username s = create_signed_headers (codes "GET") endpoint username s
