-- ===== src/Register.antt =====
-- client/src/lib/libshyake.c: `shyake_generate_keys` and `shyake_register`, with which an account
-- begins.
mod Pair
pub mod Generation
use shyake.Base.{
  ℕ, Bool, true, false, ◌&&◌, ◌||◌, Bytes, [], ◌∷◌, ◌++◌, List, Option, none, some, codes, snprintf,
  ◌==◌, if◌then◌else◌,
}
use shyake.Os.{save_file, load_file, read}
use shyake.Context.{
  Ctx, Err, ok, err, err_network, err_http, err_crypto, err_no_instance, path_in, or_null,
}
use shyake.Crypto.Base64.{base64_encode}
use shyake.Crypto.Interface.{SigSizes}
use shyake.KeyFile.{save_sk_encrypted, load_sk_decrypted}
use shyake.Network.{
  Field, of_text, Reply, unreachable, answered, set_server_error, set_network_error,
}
use shyake.Network.Requests.{mint, timestamp_of}
use shyake.Client.{Libs, World, Request, State, Outcome, stop, without_error}

-- A string that is a null pointer adds no field to an object.
abbrev pub optional : Bytes → Option Bytes → List (Bytes × Field)
optional name none = []
optional name (some value) = (name, of_text value) ∷ []

module _ (L : Libs) where
  -- The two saves after a key pair was made; their results are not looked at.
  unfoldable pub save_pair : Bytes → Bytes → Bytes × Bytes → State → State
  save_pair pk_name sk_name (pk, sk) s =
      let dir = s.ctx.config_dir in
      let (_, d1) = save_file (path_in dir pk_name) pk s.disk in
      let (_, e2, d2) =
        save_sk_encrypted L.evp L.kdf (path_in dir sk_name) s.ctx.passphrase sk s.entropy d1 in
      record s { entropy = e2; disk = d2 }

  unfoldable pub made_pair :
      Bytes → Bytes → Option (Bytes × Bytes) → State → Option Bytes → Bool × State
  made_pair pk_name sk_name pair s (some there) = (true, s)
  made_pair pk_name sk_name none s none = (false, s)
  made_pair pk_name sk_name (some pair) s none = (true, save_pair pk_name sk_name pair s)

  -- One half of `shyake_generate_keys`: a pair is made where `stat` finds no public key.
  unfoldable pub generate_pair : Bytes → Bytes → Option (Bytes × Bytes) → State → Bool × State
  unfolding made_pair
  generate_pair pk_name sk_name pair s =
      made_pair pk_name sk_name pair s (read s.disk (path_in s.ctx.config_dir pk_name))

module _ (L : Libs) (W : World) where
  -- `OQS_KEM_new` and `OQS_KEM_keypair`
  kem_pair : Option (Bytes × Bytes)
  kem_pair = elim L.oqs.kem_new [ none ↦ none | some sizes ↦ L.oqs.kem_keypair (W.coins 0) ]

  -- `OQS_SIG_new` and `OQS_SIG_keypair`
  sig_pair : Option (Bytes × Bytes)
  sig_pair = elim L.sig.sig_new [ none ↦ none | some sizes ↦ L.sig.sig_keypair (W.coins 1) ]

  -- `shyake_generate_keys`: 0 is `true`.
  unfoldable pub generate_keys : State → Bool × State
  unfolding kem_pair sig_pair
  generate_keys s =
      let (kem_done, s1) = generate_pair L (codes "kem_pk.bin") (codes "kem_sk.bin") kem_pair s in
      let (sig_done, s2) = generate_pair L (codes "sig_pk.bin") (codes "sig_sk.bin") sig_pair s1 in
      (kem_done && sig_done, s2)

  register_reply : State → Reply → Err × State
  register_reply s (unreachable problem) =
      (err_network, record s { ctx = set_network_error problem s.ctx })
  register_reply s (answered code body) =
      if code == 200 || code == 201
      then (ok, s)
      else (err_http, record s { ctx = set_server_error L.json code body s.ctx })

  -- The fields that are signed.
  unfoldable pub register_fields : Bytes → Bytes → Bytes → List (Bytes × Field)
  register_fields username kpk spk =
      (codes "username", of_text username)
      ∷ (codes "kem_pubkey", of_text (base64_encode L.blocks kpk))
      ∷ (codes "sig_pubkey", of_text (base64_encode L.blocks spk))
      ∷ (codes "timestamp", of_text (timestamp_of W))
      ∷ []

  abbrev pub register_request : Bytes → Bytes → Request
  register_request instance payload = record {
    method = codes "POST";
    url = snprintf 512 (instance ++ codes "/api/register");
    headers = codes "Content-Type: application/json" ∷ [];
    body = some payload;
  }

  -- From `if (ctx->instance_url)`.
  register_send : Bytes → State → Option Bytes → Outcome
  register_send payload s none = stop err_no_instance s
  register_send payload s (some instance) =
      if W.curl_init
      then (let request = register_request instance payload in
          let (code, s') = register_reply s (W.perform request) in
          record { code = code; sent = some request; state = s' })
      else stop ok s

  -- From `OQS_SIG_new`; without a signature object a null pointer is followed.
  register_signed : Bytes → List (Bytes × Field) → Bytes → State → Option SigSizes → Option Outcome
  register_signed username fields ssk s none = none
  register_signed username fields ssk s (some sizes) =
      let sig_b64 = base64_encode L.blocks (L.sig.sig_sign (L.json.print fields) ssk) in
      let (pow, ent) = mint L W username 20 s.entropy in
      let payload =
        L.json.print
          (fields ++ ((codes "signature", of_text sig_b64) ∷ optional (codes "pow") pow)) in
      some (register_send payload (record s { entropy = ent }) s.ctx.instance_url)

  register_loaded :
      Bytes → State → Option Bytes → Option Bytes → Option Bytes × Ctx → Option Outcome
  register_loaded username s (some kpk) (some spk) (some ssk, ctx) =
      register_signed username (register_fields username kpk spk) ssk (record s { ctx = ctx })
        L.sig.sig_new
  register_loaded username s _ _ (_, ctx) = some (stop err_crypto (record s { ctx = ctx }))

  -- `shyake_register`; `none` where a null pointer is followed.
  unfoldable pub register : Bytes → State → Option Outcome
  unfolding register_loaded register_signed register_send register_reply
  register username s =
      let cleared = without_error s in
      let dir = cleared.ctx.config_dir in
      register_loaded username cleared (load_file (path_in dir (codes "kem_pk.bin")) cleared.disk)
        (load_file (path_in dir (codes "sig_pk.bin")) cleared.disk)
        (load_sk_decrypted L.evp L.kdf cleared.ctx (path_in dir (codes "sig_sk.bin")) cleared.disk)
