-- ===== src/Mail/Send/Delivery.antt =====
-- A mail that `send_mail` of client/src/lib/mail.c sends can be opened with the secret keys of its two
-- ends.
use shyake.Base.{◌≡◌, refl, Bytes, Option, none, some, >>=-eq-some, length, require}
use mathlib.Core.Option.{some_inj}
use mathlib.Core.Path.{subst}
use shyake.Os.{Entropy}
use shyake.Crypto.Interface.{IsAead, IsKem, IsBase64}
use shyake.Crypto.Kem.{kem_encapsulate_key, kem_decapsulate_key}
use shyake.Crypto.Kem.RoundTrip.{decapsulate-encapsulate}
use shyake.Crypto.Seal.{encrypt_to_b64, decrypt_from_b64}
use shyake.Crypto.Seal.RoundTrip.{decrypt-encrypt_to_b64}
use shyake.Client.{Libs, World}
use shyake.Mail.Send.Fields.{Sealed, reply_sealed, seal_optional, seal_fields}

module _ (L : Libs) (A : IsAead L.evp) (D : IsBase64 L.blocks) (M : IsKem L.oqs) where
  -- A field that is there opens to the text, under the key.
  abbrev pub Opens : Bytes → Option Bytes → Option Bytes → Type 0
  Opens key enc words =
      (sealed : Bytes) → enc ≡ some sealed → decrypt_from_b64 L.evp L.blocks key sealed ≡ words

  -- What is not there is not sealed, so there is nothing to open.
  abbrev pub OpensText : Bytes → Option Bytes → Option Bytes → Type 0
  OpensText key enc none = enc ≡ none
  OpensText key enc (some words) = Opens key enc (some words)

  -- The secret keys of the two ends unwrap one key, and every sealed field opens under it.
  pub record Readable (pk my_kpk : Bytes) (subject : Option Bytes) (body : Bytes)
      (reply_ref : Option Bytes) (sealed : Sealed) : Type 0 where
    pub key : Bytes
    pub recipient_key :
        (coins sk : Bytes)
        → L.oqs.kem_keypair coins ≡ some (pk, sk)
        → kem_decapsulate_key L.oqs L.blocks sealed.key_recipient sk ≡ some key
    pub sender_key :
        (coins sk : Bytes)
        → L.oqs.kem_keypair coins ≡ some (my_kpk, sk)
        → kem_decapsulate_key L.oqs L.blocks sealed.key_sender sk ≡ some key
    pub subject_opens : OpensText key sealed.enc_subject subject
    pub body_opens : Opens key sealed.enc_body (some body)
    pub reply_opens : OpensText key sealed.enc_reply_to reply_ref

  module _ (W : World) (stack_length : length W.stack ≡ 12) where
    pub seal_optional-OpensText :
        (key : Bytes) (words : Option Bytes) (ent : Entropy)
        → OpensText key (seal_optional L W key words ent).0 words
    unfolding seal_optional
    seal_optional-OpensText key none ent = refl
    seal_optional-OpensText key (some words) ent =
        λ sealed e. decrypt-encrypt_to_b64 A D key W.stack words sealed ent stack_length e

    pub seal_fields-Readable :
        (key pk my_kpk : Bytes) (subject : Option Bytes) (body : Bytes) (reply_ref : Option Bytes)
        (ent : Entropy) (sealed : Sealed)
        → length key ≡ 32
        → (seal_fields L W key pk my_kpk subject body reply_ref ent).0 ≡ some sealed
        → Readable pk my_kpk subject body reply_ref sealed
    unfolding seal_fields
    seal_fields-Readable key pk my_kpk subject body reply_ref ent sealed l h =
        let (key_recipient, h0, h1) =
          >>=-eq-some (kem_encapsulate_key L.oqs L.blocks (W.coins 0) pk key) _ h in
        let (key_sender, h2, h3) =
          >>=-eq-some (kem_encapsulate_key L.oqs L.blocks (W.coins 1) my_kpk key) _ h1 in
        let e1 = (seal_optional L W key subject ent).1 in
        let e2 = (encrypt_to_b64 L.evp L.blocks W.stack key body e1).1 in
        let (_, h4, h5) =
          >>=-eq-some (require (reply_sealed reply_ref (seal_optional L W key reply_ref e2).0)) _
            h3 in
        subst (Readable pk my_kpk subject body reply_ref) (some_inj.0 h5) (record {
          key = key;
          recipient_key = λ coins sk pair.
              decapsulate-encapsulate M D coins (W.coins 0) pk sk key key_recipient pair l h0;
          sender_key = λ coins sk pair.
              decapsulate-encapsulate M D coins (W.coins 1) my_kpk sk key key_sender pair l h2;
          subject_opens = seal_optional-OpensText key subject ent;
          body_opens =
              λ sealed e. decrypt-encrypt_to_b64 A D key W.stack body sealed e1 stack_length e;
          reply_opens = seal_optional-OpensText key reply_ref e2;
        })
