-- ===== src/Mail/Lists.antt =====
-- client/src/lib/mail.c: `shyake_check`, the list of a mailbox on the instance.
use shyake.Base.{
  Bool, Bytes, [], ◌∷◌, ◌++◌, List, Option, none, some, ◌>>=◌, ◌>>◌, require, codes, snprintf,
  equal, ◌==◌, if◌then◌else◌,
}
use shyake.Base.Integer.{ℤ}
use shyake.Network.{Reply, unreachable, answered}
use shyake.Network.Requests.{create_auth_headers}
use shyake.Client.{
  Libs, World, State, without_error, get_request, url_of, with_network_error, with_server_error,
}
use shyake.Mail.{is_ref}
use shyake.Mail.Read.{
  valuestring_at, text_at, valueint_at, unwrapped, opened_text, load_kem_sk, key_field,
}

-- `shyake_mail_entry`
pub record MailEntry : Type 0 where
  pub mail_id : Bytes
  pub party : Bytes
  pub subject : Bytes
  pub size : ℤ
  pub timestamp : ℤ
  pub is_sent : Bool
  pub mail_ref : Option Bytes

abbrev pub failed_text : Bytes
failed_text = codes "(decryption failed)"

-- `sub ? sub : strdup("(decryption failed)")`
abbrev pub shown_subject : Option Bytes → Bytes
shown_subject none = failed_text
shown_subject (some words) = words

module _ (L : Libs) where
  -- One round of the loop.
  unfoldable pub mail_entry : Bool → Option Bytes → L.json.Value → Option MailEntry
  mail_entry is_sent ksk item = do
    mail_id ← text_at L item (codes "mail_id")
    party ← text_at L item (if is_sent then codes "recipient" else codes "sender")
    sz ← valueint_at L item (codes "size")
    ts ← valueint_at L item (codes "timestamp")
    enc_key ← valuestring_at L item (key_field is_sent)
    enc_sub ← valuestring_at L item (codes "enc_subject")
    sym ← unwrapped L enc_key ksk
    some (record {
      mail_id = mail_id;
      party = party;
      subject = shown_subject (opened_text L sym enc_sub);
      size = sz;
      timestamp = ts;
      is_sent = is_sent;
      mail_ref = do
        sh ← L.json.item item (codes "sig_hash")
        reference ← L.json.string sh
        require (is_ref reference)
        some reference;
    })

  -- The loop.
  unfoldable pub mail_entries : Bool → Option Bytes → List L.json.Value → Option (List MailEntry)
  mail_entries is_sent ksk [] = some []
  mail_entries is_sent ksk (item ∷ items) = do
    entry ← mail_entry is_sent ksk item
    entries ← mail_entries is_sent ksk items
    some (entry ∷ entries)

  check_items : Bool → State → Option (List L.json.Value) → Option (Option (List MailEntry) × State)
  check_items is_sent s none = some (none, s)
  check_items is_sent s (some items) =
      let (ksk, ctx) = load_kem_sk L s in
      mail_entries is_sent ksk items >>= λ entries. some (some entries, record s { ctx = ctx })

  check_reply : Bool → State → Reply → Option (Option (List MailEntry) × State)
  check_reply is_sent s (unreachable problem) = some (none, with_network_error problem s)
  check_reply is_sent s (answered code body) =
      if code == 200
      then check_items is_sent s (do
        json ← L.json.parse body
        array ← L.json.item json (codes "mail")
        L.json.elements array)
      else some (none, with_server_error L code body s)

  module _ (W : World) where
    check_signed :
        Bytes → Bytes → Option (List Bytes) × State → Option (Option (List MailEntry) × State)
    check_signed type endpoint (none, s) = some (none, s)
    check_signed type endpoint (some headers, s) =
        check_reply (equal type (codes "sent")) s
          (W.perform (get_request (url_of s.ctx endpoint) headers))

    -- `shyake_check`; the outer `none` where a null pointer is followed.
    unfoldable pub check : Bytes → State → Option (Option (List MailEntry) × State)
    unfolding check_signed check_reply check_items
    check type s =
        let cleared = without_error s in
        let endpoint = snprintf 128 (codes "/api/mail?type=" ++ type) in
        if W.curl_init
        then check_signed type endpoint
            (create_auth_headers L W endpoint cleared.ctx.username cleared)
        else some (none, cleared)
