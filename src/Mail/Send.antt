-- ===== src/Mail/Send.antt =====
-- client/src/lib/mail.c: `send_mail`, from the recipient's key to the answer of the instance. The
-- context has an instance, and a user.
pub mod Fields
pub mod Posted
pub mod Trust
pub mod Delivery
use shyake.Base.{
  ℕ, Bool, true, false, not, ◌&&◌, ◌||◌, Bytes, [], ◌∷◌, ◌++◌, List, Option, none, some, ◌>>=◌,
  ◌>>◌, require, codes, snprintf, length, take, equal, ltb, ◌==◌, if◌then◌else◌,
}
use shyake.Base.Hex.{hex}
use shyake.Os.{Disk, Entropy, load_file}
use shyake.Context.{
  Ctx, Err, ok, err, err_network, err_http, err_crypto, err_key_mismatch, err_gone, err_blocked,
  path_in, or_null, or_empty,
}
use shyake.Crypto.Interface.{SigSizes}
use shyake.Crypto.Base64.{base64_encode, base64_decode}
use shyake.KeyFile.{fill_random, load_sk_decrypted}
use shyake.KnownHosts.{get_known_host, add_known_host}
use shyake.Network.{
  Field, Reply, unreachable, answered, http_error_is, set_server_error, set_network_error,
}
use shyake.Network.Lookup.{fetch_recipient_pubkey, instance_protocol}
use shyake.Network.Requests.{mint}
use shyake.Client.{Libs, World, Request, State, Outcome, stop, with_error, without_error, net_of}
use shyake.Mail.{is_ref}
use Fields.{Sealed, seal_fields, signed_fields, with_keys, sender_of, after_at}

abbrev pub changed_text : Bytes → Bytes
changed_text recipient = codes "The public key of " ++ (recipient ++ codes " has changed.")

abbrev pub mail_request : Ctx → Bytes → Request
mail_request ctx payload = record {
  method = codes "POST";
  url = snprintf 512 (or_null ctx.instance_url ++ codes "/api/mail");
  headers = codes "Content-Type: application/json" ∷ [];
  body = some payload;
}

module _ (L : Libs) (W : World) (recipient : Bytes) where
  -- "Check known_hosts": the files behind it, or nothing where the trusted key is another one. A
  -- trusted key that is no base64 is passed over.
  unfoldable pub check_known_host : Bytes → Bytes → Bytes → Disk → Option Disk
  check_known_host dir pk_b64 pk d = elim (get_known_host dir recipient d) [
    | none ↦ some (add_known_host dir recipient (hex (take 32 (L.sha256 pk))) pk_b64 d)
    | some known_b64 ↦ elim (base64_decode L.blocks known_b64) [
      | none ↦ some d
      | some known ↦
          if equal (take 32 (L.sha256 known)) (take 32 (L.sha256 pk)) then some d else none
    ]
  ]

  -- The last two answers of `send_mail`.
  send_failed : Bool → State → ℕ → Bytes → Err × State
  send_failed answers s code body =
      if answers && (code == 401 && ltb (instance_protocol L.json (net_of W) s.ctx) 3)
      then (
        err_http,
        with_error (codes "Your instance must run server v0.4.0 or later to send replies.") s,
      )
      else (err_http, record s { ctx = set_server_error L.json code body s.ctx })

  -- The reply to the mail; `answers` says that the mail is itself a reply.
  unfoldable pub send_reply_code : Bool → State → Reply → Err × State
  unfolding send_failed
  send_reply_code answers s (unreachable problem) =
      (err_network, record s { ctx = set_network_error problem s.ctx })
  send_reply_code answers s (answered code body) =
      let domain = after_at recipient in
      let refused = λ (text : Bytes). http_error_is L.json body text in
      if code == 200 || code == 201
      then (ok, s)
      else if code == 409
      then (err_key_mismatch, with_error (changed_text recipient) s)
      else if code == 410
      then (err_gone, with_error (recipient ++ codes " no longer exists.") s)
      else if code == 403 && refused (codes "Recipient has blocked this sender")
      then (err_blocked, with_error (codes "You are blocked by " ++ (recipient ++ codes ".")) s)
      else elim domain [
        | some host ↦
            if code == 502
            then (err_http, with_error (codes "Cannot reach " ++ (host ++ codes ".")) s)
            else if code == 422 && refused (codes "Recipient instance does not support replies")
            then (
              err_http,
              with_error
                  (host
                    ++ codes " does not accept replies yet. It must run server v0.4.0 or later.")
                  s,
            )
            else send_failed answers s code body
        | none ↦ send_failed answers s code body
      ]

  send_posted : Bool → State → Bytes → Outcome
  send_posted answers s payload =
      if W.curl_init
      then (let request = mail_request s.ctx payload in
          let (code, s') = send_reply_code answers s (W.perform request) in
          record { code = code; sent = some request; state = s' })
      else stop err s

  -- From `OQS_SIG_new`; without a signature object a null pointer is followed.
  send_signed :
      Bool
      → Bytes
      → State
      → Bytes
      → Sealed
      → List (Bytes × Field)
      → Option SigSizes
      → Option Outcome
  send_signed answers ssk s sender sealed fields none = none
  send_signed answers ssk s sender sealed fields (some sizes) =
      let signature = base64_encode L.blocks (L.sig.sig_sign (L.json.print fields) ssk) in
      let (pow, ent) = mint L W sender 20 s.entropy in
      some (
        send_posted answers (record s { entropy = ent })
          (L.json.print (with_keys fields sealed signature pow)))

  send_sealed : Bool → Bytes → Bytes → ℕ → State → Option Sealed × Entropy → Option Outcome
  send_sealed answers pk ssk size s (none, ent) =
      some (stop err_crypto (record s { entropy = ent }))
  send_sealed answers pk ssk size s (some sealed, ent) =
      let sender = sender_of s.ctx recipient in
      send_signed answers ssk (record s { entropy = ent }) sender sealed
        (signed_fields W sender recipient (hex (take 32 (L.sha256 pk))) sealed size) L.sig.sig_new

  module _ (reply_ref subject : Option Bytes) (body : Bytes) where
    answers_mail : Bool
    answers_mail = elim reply_ref [ none ↦ false | some reference ↦ true ]

    send_keyed : Bytes → Bytes → Bytes → State → Option Bytes × Entropy → Option Outcome
    send_keyed pk my_kpk ssk s (none, ent) = some (stop err_crypto (record s { entropy = ent }))
    send_keyed pk my_kpk ssk s (some sym_key, ent) =
        send_sealed answers_mail pk ssk (length body) s
          (seal_fields L W sym_key pk my_kpk subject body reply_ref ent)

    -- "Load own keys"
    send_own : Bytes → State → Option Bytes → Option Bytes × Ctx → Option Outcome
    send_own pk s (some my_kpk) (some ssk, ctx) =
        send_keyed pk my_kpk ssk (record s { ctx = ctx }) (fill_random 32 s.entropy)
    send_own pk s _ (_, ctx) = some (stop err_crypto (record s { ctx = ctx }))

    send_trusted : Bytes → State → Option Disk → Option Outcome
    send_trusted pk s none = some (stop err_key_mismatch (with_error (changed_text recipient) s))
    send_trusted pk s (some d) =
        let dir = s.ctx.config_dir in
        send_own pk (record s { disk = d }) (load_file (path_in dir (codes "kem_pk.bin")) d)
          (load_sk_decrypted L.evp L.kdf s.ctx (path_in dir (codes "sig_sk.bin")) d)

    send_decoded : Bytes → State → Option Bytes → Option Outcome
    send_decoded pk_b64 s none = some (stop err_crypto s)
    send_decoded pk_b64 s (some pk) =
        send_trusted pk s (check_known_host s.ctx.config_dir pk_b64 pk s.disk)

    send_fetched : State → Option Bytes × Err × Ctx → Option Outcome
    send_fetched s (none, code, ctx) = some (stop code (record s { ctx = ctx }))
    send_fetched s (some pk_b64, code, ctx) =
        send_decoded pk_b64 (record s { ctx = ctx }) (base64_decode L.blocks pk_b64)

    refused_ref : Bool
    refused_ref = elim reply_ref [ none ↦ false | some reference ↦ not (is_ref reference) ]

    -- `send_mail`; `none` where a null pointer is followed.
    unfoldable pub send_mail : State → Option Outcome
    unfolding refused_ref send_fetched send_decoded send_trusted send_own send_keyed send_sealed
        send_signed send_posted answers_mail
    send_mail s =
        let cleared = without_error s in
        if refused_ref
        then some (stop err (with_error (codes "The reply reference is not valid.") cleared))
        else send_fetched cleared (fetch_recipient_pubkey L.json (net_of W) recipient cleared.ctx)

  -- `shyake_send`
  unfoldable pub send : Option Bytes → Bytes → State → Option Outcome
  send subject body s = send_mail none subject body s

  -- `shyake_send_reply`
  unfoldable pub send_reply : Option Bytes → Option Bytes → Bytes → State → Option Outcome
  send_reply none subject body s = some (stop err s)
  send_reply (some reply_ref) subject body s = send_mail (some reply_ref) subject body s
