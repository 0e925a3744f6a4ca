-- ===== src/Account.antt =====
-- client/src/lib/account.c: blocking users, new keys for an account, and its end.
pub mod Rotation
pub mod NewKeys
pub mod Ending
use shyake.Base.{
  ℕ, Bool, true, false, ◌||◌, Bytes, [], ◌∷◌, ◌++◌, List, Option, none, some, ◌>>=◌, map, codes,
  snprintf, ◌==◌, if◌then◌else◌,
}
use shyake.Base.Integer.{ℤ, pos}
use shyake.Os.{save_file}
use shyake.Context.{
  Ctx, Err, ok, err, err_network, err_http, err_crypto, path_in, or_null, or_empty,
}
use shyake.Crypto.Base64.{base64_encode}
use shyake.KeyFile.{save_sk_encrypted}
use shyake.Network.{
  Json, Field, of_text, Reply, unreachable, answered, set_server_error, set_network_error,
}
use shyake.Network.Lookup.{set_signed_body_error}
use shyake.Network.Requests.{create_signed_headers_body, create_signed_headers}
use shyake.Client.{
  Libs, World, Request, State, Outcome, stop, without_error, net_of, url_of, with_network_error,
  with_server_error,
}

abbrev pub json_type : Bytes
json_type = codes "Content-Type: application/json"

-- `shyake_block_entry`
pub record BlockEntry : Type 0 where
  pub target : Bytes
  pub created : ℤ

-- The two key pairs of an account.
pub record Keys : Type 0 where
  pub kem_pk : Bytes
  pub kem_sk : Bytes
  pub sig_pk : Bytes
  pub sig_sk : Bytes

module _ (L : Libs) (W : World) where
  -- `set_signed_body_error`
  with_body_error : ℕ → Bytes → State → State
  with_body_error code body s = record s {
    ctx = set_signed_body_error L.json (net_of W) code body s.ctx;
  }

  block_reply : State → Reply → Err × State
  unfolding with_body_error
  block_reply s (unreachable problem) = (err_network, with_network_error problem s)
  block_reply s (answered code body) =
      if code == 200 || code == 201 then (ok, s) else (err_http, with_body_error code body s)

  block_signed : Bytes → Bytes → Option (List Bytes) × State → Outcome
  block_signed method body (none, s) = stop err s
  block_signed method body (some headers, s) =
      let request : Request = record {
        method = method;
        url = url_of s.ctx (codes "/api/block");
        headers = headers ++ (json_type ∷ []);
        body = some body;
      } in
      let (code, s') = block_reply s (W.perform request) in
      record { code = code; sent = some request; state = s' }

  abbrev pub block_method : Bool → Bytes
  block_method unblock = if unblock then codes "DELETE" else codes "POST"

  -- `shyake_block`
  unfoldable pub block : Bytes → Bool → State → Outcome
  unfolding block_signed block_reply
  block target unblock s =
      let body = L.json.print ((codes "target", of_text target) ∷ []) in
      let cleared = without_error s in
      if W.curl_init
      then block_signed (block_method unblock) body (
          create_signed_headers_body L W (block_method unblock) (codes "/api/block")
            cleared.ctx.username (some body) cleared)
      else stop err cleared

  -- One item of "blocks".
  block_entry : L.json.Value → BlockEntry
  block_entry item = record {
    target = or_empty (L.json.item item (codes "blocked") >>= L.json.string);
    created = elim (L.json.item item (codes "created_at") >>= L.json.valuedouble) [
      | none ↦ pos 0
      | some seconds ↦ seconds
    ];
  }

  list_reply : State → Reply → Option (List BlockEntry) × State
  unfolding block_entry
  list_reply s (unreachable problem) = (none, with_network_error problem s)
  list_reply s (answered code body) =
      if code == 200
      then (
        do
          json ← L.json.parse body
          array ← L.json.item json (codes "blocks")
          items ← L.json.elements array
          some (map block_entry items),
        s,
      )
      else (none, with_server_error L code body s)

  list_signed : Option (List Bytes) × State → Option (List BlockEntry) × State
  unfolding list_reply
  list_signed (none, s) = (none, s)
  list_signed (some headers, s) = list_reply s (
      W.perform (record {
        method = codes "GET";
        url = url_of s.ctx (codes "/api/block");
        headers = headers;
        body = none;
      }))

  -- `shyake_list_blocks`
  unfoldable pub list_blocks : State → Option (List BlockEntry) × State
  unfolding list_signed
  list_blocks s =
      let cleared = without_error s in
      if W.curl_init
      then list_signed (
          create_signed_headers L W (codes "GET") (codes "/api/block") cleared.ctx.username cleared)
      else (none, cleared)

  -- `OQS_KEM_new`, `OQS_SIG_new` and the two key pairs.
  unfoldable pub new_keys : Option Keys
  new_keys = do
    kem ← L.oqs.kem_new
    sig ← L.sig.sig_new
    (kem_pk, kem_sk) ← L.oqs.kem_keypair (W.coins 0)
    (sig_pk, sig_sk) ← L.sig.sig_keypair (W.coins 1)
    some (record { kem_pk = kem_pk; kem_sk = kem_sk; sig_pk = sig_pk; sig_sk = sig_sk })

  -- "save new keys locally only after server confirmed", with what the four calls return.
  unfoldable pub saving : Keys → State → (Bool × Bool × Bool × Bool) × State
  saving keys s =
      let dir = s.ctx.config_dir in
      let (b1, d1) = save_file (path_in dir (codes "kem_pk.bin")) keys.kem_pk s.disk in
      let (b2, e2, d2) =
        save_sk_encrypted L.evp L.kdf (path_in dir (codes "kem_sk.bin")) s.ctx.new_passphrase
          keys.kem_sk s.entropy d1 in
      let (b3, d3) = save_file (path_in dir (codes "sig_pk.bin")) keys.sig_pk d2 in
      let (b4, e4, d4) =
        save_sk_encrypted L.evp L.kdf (path_in dir (codes "sig_sk.bin")) s.ctx.new_passphrase
          keys.sig_sk e2 d3 in
      ((b1, b2, b3, b4), record s { entropy = e4; disk = d4 })

  -- No result is looked at.
  abbrev pub save_keys : Keys → State → State
  save_keys keys s = (saving keys s).1

  unfoldable pub rotate_reply : Keys → State → Reply → Err × State
  unfolding with_body_error
  rotate_reply keys s (unreachable problem) = (err_network, with_network_error problem s)
  rotate_reply keys s (answered code body) =
      if code == 200 || code == 201
      then (ok, save_keys keys s)
      else (err_http, with_body_error code body s)

  abbrev pub rotate_request : Ctx → List Bytes → Bytes → Request
  rotate_request ctx headers body = record {
    method = codes "POST";
    url = url_of ctx (codes "/api/rotate");
    headers = headers ++ (json_type ∷ []);
    body = some body;
  }

  rotate_signed : Keys → Bytes → Option (List Bytes) × State → Outcome
  rotate_signed keys body (none, s) = stop err s
  rotate_signed keys body (some headers, s) =
      let request = rotate_request s.ctx headers body in
      let (code, s') = rotate_reply keys s (W.perform request) in
      record { code = code; sent = some request; state = s' }

  -- The new public keys, as the instance is told of them.
  unfoldable pub rotate_body : Keys → Bytes
  rotate_body keys = L.json.print (
      (codes "new_kem_pubkey", of_text (base64_encode L.blocks keys.kem_pk))
      ∷ (codes "new_sig_pubkey", of_text (base64_encode L.blocks keys.sig_pk))
      ∷ [])

  rotate_with : State → Option Keys → Outcome
  unfolding rotate_signed rotate_reply
  rotate_with s none = stop err_crypto s
  rotate_with s (some keys) =
      if W.curl_init
      then rotate_signed keys (rotate_body keys) (
          create_signed_headers_body L W (codes "POST") (codes "/api/rotate") s.ctx.username
            (some (rotate_body keys)) s)
      else stop err s

  -- `shyake_rotate`
  unfoldable pub rotate : State → Outcome
  unfolding rotate_with
  rotate s = rotate_with (without_error s) new_keys

  destroy_reply : State → Reply → Err × State
  destroy_reply s (unreachable problem) = (err_network, with_network_error problem s)
  destroy_reply s (answered code body) =
      if code == 200 then (ok, s) else (err_http, with_server_error L code body s)

  destroy_signed : Option (List Bytes) × State → Outcome
  destroy_signed (none, s) = stop err s
  destroy_signed (some headers, s) =
      let request : Request = record {
        method = codes "DELETE";
        url = url_of s.ctx (codes "/api/destroy");
        headers = headers;
        body = none;
      } in
      let (code, s') = destroy_reply s (W.perform request) in
      record { code = code; sent = some request; state = s' }

  -- `shyake_destroy`
  unfoldable pub destroy : State → Outcome
  unfolding destroy_signed destroy_reply
  destroy s =
      let cleared = without_error s in
      if W.curl_init
      then destroy_signed (
          create_signed_headers L W (codes "DELETE") (codes "/api/destroy") cleared.ctx.username
            cleared)
      else stop err cleared
