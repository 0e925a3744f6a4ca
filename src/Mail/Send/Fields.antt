-- ===== src/Mail/Send/Fields.antt =====
-- The fields of a mail that `send_mail` of client/src/lib/mail.c seals, signs and prints.
use shyake.Base.{
  ℕ, Bool, true, false, Bytes, [], ◌∷◌, ◌++◌, List, Option, none, some, ◌>>=◌, ◌>>◌, require, codes,
  snprintf, ◌==◌, if◌then◌else◌,
}
use shyake.Base.Integer.{pos}
use shyake.Os.{Entropy}
use shyake.Context.{Ctx, or_null, or_empty}
use shyake.Crypto.Seal.{encrypt_to_b64}
use shyake.Crypto.Kem.{kem_encapsulate_key}
use shyake.Network.{Field, of_text, of_number, behind_scheme}
use shyake.Network.Requests.{timestamp_of}
use shyake.Register.{optional}
use shyake.Client.{Libs, World}

-- `strchr(recipient, '@') + 1`
unfoldable pub after_at : Bytes → Option Bytes
after_at [] = none
after_at (c ∷ rest) = let later = after_at rest in if c == b'@' then some rest else later

-- Up to the first `/`.
unfoldable pub before_slash : Bytes → Bytes
before_slash [] = []
before_slash (c ∷ rest) = let later = before_slash rest in if c == b'/' then [] else c ∷ later

-- "Resolve sender string": a remote recipient sees the instance, at most 127 bytes of it.
unfoldable pub sender_of : Ctx → Bytes → Bytes
sender_of ctx recipient =
    let url = or_empty ctx.instance_url in
    let user = or_null ctx.username in
    elim (after_at recipient) [
      | none ↦ user
      | some host ↦
          snprintf 256 (user ++ (b'@' ∷ snprintf 128 (before_slash (behind_scheme url url))))
    ]

-- What is sealed under the key of the mail, and the key wrapped twice.
pub record Sealed : Type 0 where
  pub enc_subject : Option Bytes
  pub enc_body : Option Bytes
  pub enc_reply_to : Option Bytes
  pub key_recipient : Bytes
  pub key_sender : Bytes

-- `reply_ref && !enc_reply_to`, turned round.
abbrev pub reply_sealed : Option Bytes → Option Bytes → Bool
reply_sealed none enc = true
reply_sealed (some reply_ref) none = false
reply_sealed (some reply_ref) (some enc) = true

module _ (L : Libs) (W : World) (sym_key : Bytes) where
  -- `encrypt_to_b64` of a string that may be missing.
  unfoldable pub seal_optional : Option Bytes → Entropy → Option Bytes × Entropy
  seal_optional none ent = (none, ent)
  seal_optional (some words) ent = encrypt_to_b64 L.evp L.blocks W.stack sym_key words ent

  -- The calls of `encrypt_to_b64` and `kem_encapsulate_key`; only a missing body or subject passes.
  unfoldable pub seal_fields :
      Bytes → Bytes → Option Bytes → Bytes → Option Bytes → Entropy → Option Sealed × Entropy
  seal_fields pk my_kpk subject body reply_ref ent =
      let (enc_subject, e1) = seal_optional subject ent in
      let (enc_body, e2) = encrypt_to_b64 L.evp L.blocks W.stack sym_key body e1 in
      let (enc_reply_to, e3) = seal_optional reply_ref e2 in
      (
        do
          key_recipient ← kem_encapsulate_key L.oqs L.blocks (W.coins 0) pk sym_key
          key_sender ← kem_encapsulate_key L.oqs L.blocks (W.coins 1) my_kpk sym_key
          require (reply_sealed reply_ref enc_reply_to)
          some (record {
            enc_subject = enc_subject;
            enc_body = enc_body;
            enc_reply_to = enc_reply_to;
            key_recipient = key_recipient;
            key_sender = key_sender;
          }),
        e3,
      )

-- `signed_obj`
unfoldable pub signed_fields : World → Bytes → Bytes → Bytes → Sealed → ℕ → List (Bytes × Field)
signed_fields W sender recipient fp_hex sealed size =
    (codes "sender", of_text sender)
    ∷ (codes "recipient", of_text recipient)
    ∷ (codes "recipient_kem_fingerprint", of_text fp_hex)
    ∷ (codes "enc_subject", of_text (or_empty sealed.enc_subject))
    ∷ (optional (codes "enc_body") sealed.enc_body
        ++ (optional (codes "enc_reply_to") sealed.enc_reply_to
            ++ ((codes "timestamp", of_text (timestamp_of W))
                ∷ (codes "size", of_number (pos size))
                ∷ [])))

-- `root`
unfoldable pub with_keys :
    List (Bytes × Field) → Sealed → Bytes → Option Bytes → List (Bytes × Field)
with_keys fields sealed signature pow =
    fields
    ++ ((codes "enc_key_sender", of_text sealed.key_sender)
        ∷ (codes "enc_key_recipient", of_text sealed.key_recipient)
        ∷ (codes "signature", of_text signature)
        ∷ optional (codes "pow") pow)
