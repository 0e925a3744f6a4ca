-- ===== src/Mail/Read.antt =====
-- client/src/lib/mail.c: reading and burning a mail on the instance. The null pointers that the code
-- follows when an answer lacks an item are the outer `none`.
pub mod Opening
use shyake.Base.{
  ℕ, Bool, true, false, Bytes, [], ◌∷◌, ◌++◌, List, Option, none, some, ◌>>=◌, codes, snprintf,
  equal, ◌==◌, if◌then◌else◌,
}
use shyake.Base.Integer.{ℤ, pos}
use shyake.Os.{Disk}
use shyake.Context.{Ctx, Err, ok, err, err_network, err_http, err_not_found, err_forbidden, path_in}
use shyake.Crypto.Seal.{decrypt_from_b64}
use shyake.Crypto.Kem.{kem_decapsulate_key}
use shyake.KeyFile.{load_sk_decrypted}
use shyake.Network.{Json, Reply, unreachable, answered}
use shyake.Network.Requests.{create_auth_headers, create_signed_headers}
use shyake.Client.{
  Libs, World, Request, State, Outcome, stop, without_error, get_request, url_of,
  with_network_error, with_server_error,
}
use shyake.Mail.{Detail, json_ref, open_reply_ref}

-- `snprintf(endpoint, 128, "/api/mail/%s", mail_id)`
abbrev pub mail_endpoint : Bytes → Bytes
mail_endpoint mail_id = snprintf 128 (codes "/api/mail/" ++ mail_id)

-- `ekf`: the sender's copy of the key, or the recipient's.
abbrev pub key_field : Bool → Bytes
key_field is_sent = if is_sent then codes "enc_key_sender" else codes "enc_key_recipient"

-- `strcmp(username, snd) == 0`
unfoldable pub is_own : Option Bytes → Bytes → Option Bool
is_own username sender = username >>= λ user. some (equal user sender)

module _ (L : Libs) where
  -- `cJSON_GetObjectItem(json, key)->valuestring`, which may be a null pointer itself.
  unfoldable pub valuestring_at : L.json.Value → Bytes → Option (Option Bytes)
  valuestring_at json key = L.json.item json key >>= λ item. some (L.json.string item)

  -- The same, where the string is then copied or compared.
  unfoldable pub text_at : L.json.Value → Bytes → Option Bytes
  unfolding valuestring_at
  text_at json key = valuestring_at json key >>= λ value. value

  unfoldable pub valueint_at : L.json.Value → Bytes → Option ℤ
  valueint_at json key = L.json.item json key >>= λ item. some (L.json.valueint item)

  -- `kem_decapsulate_key(enc_key, ksk)` where there is a secret key.
  unfoldable pub unwrapped : Option Bytes → Option Bytes → Option (Option Bytes)
  unwrapped enc_key none = some none
  unwrapped none (some ksk) = none
  unwrapped (some enc_key) (some ksk) = some (kem_decapsulate_key L.oqs L.blocks enc_key ksk)

  -- `decrypt_from_b64` where there is a key; a null pointer gives nothing.
  unfoldable pub opened_text : Option Bytes → Option Bytes → Option Bytes
  opened_text sym enc = do key ← sym; sealed ← enc; decrypt_from_b64 L.evp L.blocks key sealed

  -- `load_sk_decrypted` of `kem_sk.bin`
  unfoldable pub load_kem_sk : State → Option Bytes × Ctx
  load_kem_sk s =
      load_sk_decrypted L.evp L.kdf s.ctx (path_in s.ctx.config_dir (codes "kem_sk.bin")) s.disk

  -- What `shyake_fetch` makes of the JSON of a mail.
  unfoldable pub fetch_json : Bytes → State → L.json.Value → Option (Detail × State)
  fetch_json mail_id s json = do
    sender ← text_at json (codes "sender")
    recipient ← text_at json (codes "recipient")
    ts ← valueint_at json (codes "timestamp")
    own ← is_own s.ctx.username sender
    enc_key ← valuestring_at json (key_field own)
    enc_sub ← valuestring_at json (codes "enc_subject")
    enc_bdy ← valuestring_at json (codes "enc_body")
    let (ksk, ctx) = load_kem_sk s
    sym ← unwrapped enc_key ksk
    some (
      record {
        mail_id = mail_id;
        sender = sender;
        recipient = some recipient;
        subject = opened_text sym enc_sub;
        body = opened_text sym enc_bdy;
        timestamp = ts;
        created = pos 0;
        size = pos 0;
        mail_ref = json_ref L json;
        reply_ref = sym >>= λ key. open_reply_ref L key json;
      },
      record s { ctx = ctx },
    )

  -- What `shyake_check_one` makes of it: the size, and no body.
  unfoldable pub check_one_json : Bytes → State → L.json.Value → Option (Detail × State)
  check_one_json mail_id s json = do
    sender ← text_at json (codes "sender")
    recipient ← text_at json (codes "recipient")
    ts ← valueint_at json (codes "timestamp")
    sz ← valueint_at json (codes "size")
    own ← is_own s.ctx.username sender
    enc_key ← valuestring_at json (key_field own)
    enc_sub ← valuestring_at json (codes "enc_subject")
    let (ksk, ctx) = load_kem_sk s
    sym ← unwrapped enc_key ksk
    some (
      record {
        mail_id = mail_id;
        sender = sender;
        recipient = some recipient;
        subject = opened_text sym enc_sub;
        body = none;
        timestamp = ts;
        created = pos 0;
        size = sz;
        mail_ref = json_ref L json;
        reply_ref = sym >>= λ key. open_reply_ref L key json;
      },
      record s { ctx = ctx },
    )

  -- The answer, read with one of the two.
  detail_reply :
      (State → L.json.Value → Option (Detail × State))
      → State
      → Reply
      → Option (Option Detail × State)
  detail_reply read s (unreachable problem) = some (none, with_network_error problem s)
  detail_reply read s (answered code body) =
      if code == 200
      then elim (L.json.parse body) [
        | none ↦ some (none, s)
        | some json ↦ (read s json >>= λ answer. some (some answer.0, answer.1))
      ]
      else some (none, with_server_error L code body s)

  module _ (W : World) where
    detail_signed :
        (State → L.json.Value → Option (Detail × State))
        → Bytes
        → Option (List Bytes) × State
        → Option (Option Detail × State)
    detail_signed read endpoint (none, s) = some (none, s)
    detail_signed read endpoint (some headers, s) =
        detail_reply read s (W.perform (get_request (url_of s.ctx endpoint) headers))

    -- `shyake_fetch`; the outer `none` where a null pointer is followed.
    unfoldable pub fetch : Bytes → State → Option (Option Detail × State)
    unfolding detail_signed detail_reply
    fetch mail_id s =
        let cleared = without_error s in
        if W.curl_init
        then detail_signed (fetch_json mail_id) (mail_endpoint mail_id)
            (create_auth_headers L W (mail_endpoint mail_id) cleared.ctx.username cleared)
        else some (none, cleared)

    -- `shyake_check_one`
    unfoldable pub check_one : Bytes → State → Option (Option Detail × State)
    unfolding detail_signed detail_reply
    check_one mail_id s =
        let cleared = without_error s in
        if W.curl_init
        then detail_signed (check_one_json mail_id) (mail_endpoint mail_id)
            (create_auth_headers L W (mail_endpoint mail_id) cleared.ctx.username cleared)
        else some (none, cleared)

    burn_reply : State → Reply → Err × State
    burn_reply s (unreachable problem) = (err_network, with_network_error problem s)
    burn_reply s (answered code body) = if code == 200 then (ok, s) else (
      (if code == 404 then err_not_found else if code == 403 then err_forbidden else err_http),
      with_server_error L code body s,
    )

    burn_signed : Bytes → Option (List Bytes) × State → Outcome
    burn_signed mail_id (none, s) = stop err s
    burn_signed mail_id (some headers, s) =
        let request : Request = record {
          method = codes "DELETE";
          url = url_of s.ctx (mail_endpoint mail_id);
          headers = headers;
          body = none;
        } in
        let (code, s') = burn_reply s (W.perform request) in
        record { code = code; sent = some request; state = s' }

    -- `shyake_burn`
    unfoldable pub burn : Bytes → State → Outcome
    unfolding burn_signed burn_reply
    burn mail_id s =
        let cleared = without_error s in
        if W.curl_init
        then burn_signed mail_id (
            create_signed_headers L W (codes "DELETE") (mail_endpoint mail_id) cleared.ctx.username
              cleared)
        else stop err cleared
