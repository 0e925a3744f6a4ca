-- ===== src/Mail/Read/Opening.antt =====
-- A mail that was sent, when it is fetched: `send_mail` and `shyake_fetch` of client/src/lib/mail.c.
use shyake.Base.{◌≡◌, refl, ap, Bool, true, false, Bytes, Option, none, some, ◌>>=◌, codes, equal}
use shyake.Base.Integer.{ℤ, pos}
use shyake.Context.{or_empty}
use shyake.Crypto.Interface.{IsAead, IsKem, IsBase64}
use shyake.Crypto.Kem.{kem_decapsulate_key}
use shyake.Crypto.Seal.{decrypt_from_b64}
use shyake.Client.{Libs, State}
use shyake.Mail.{Detail, json_ref, open_reply_ref}
use shyake.Mail.Read.{
  fetch_json, valuestring_at, text_at, valueint_at, unwrapped, opened_text, load_kem_sk, key_field,
  is_own,
}
use shyake.Mail.Send.Fields.{Sealed}
use shyake.Mail.Send.Delivery.{Readable, Opens, OpensText}

module _ (L : Libs) (A : IsAead L.evp) (D : IsBase64 L.blocks) (M : IsKem L.oqs) where
  -- The JSON of a mail that carries the sealed fields as they were sent.
  pub record Carries (json : L.json.Value) (sender recipient : Bytes) (time : ℤ) (sealed : Sealed)
      : Type 0 where
    pub sender_item : text_at L json (codes "sender") ≡ some sender
    pub recipient_item : text_at L json (codes "recipient") ≡ some recipient
    pub time_item : valueint_at L json (codes "timestamp") ≡ some time
    pub key_recipient_item :
        valuestring_at L json (codes "enc_key_recipient") ≡ some (some sealed.key_recipient)
    pub key_sender_item :
        valuestring_at L json (codes "enc_key_sender") ≡ some (some sealed.key_sender)
    pub subject_item :
        valuestring_at L json (codes "enc_subject") ≡ some (some (or_empty sealed.enc_subject))
    pub body_item : valuestring_at L json (codes "enc_body") ≡ some sealed.enc_body

  -- What was sealed, where it was.
  abbrev pub where_sealed : Option Bytes → Option Bytes → Option Bytes
  where_sealed none words = none
  where_sealed (some sealed) words = words

  opened_body :
      (key : Bytes) (enc : Option Bytes) (body : Bytes)
      → Opens L A D M key enc (some body)
      → opened_text L (some key) enc ≡ where_sealed enc (some body)
  unfolding opened_text
  opened_body key none body opens = refl
  opened_body key (some sealed) body opens = opens sealed refl

  opened_subject :
      (key : Bytes) (enc subject : Option Bytes)
      → OpensText L A D M key enc subject
      → opened_text L (some key) (some (or_empty enc)) ≡ where_sealed enc subject
  unfolding opened_text decrypt_from_b64
  opened_subject key none subject opens = refl
  opened_subject key (some sealed) none opens = cc
  opened_subject key (some sealed) (some words) opens = opens sealed refl

  -- The secret key that is loaded is the recipient's, or the sender's in the sender's own client.
  abbrev pub HasKey : Bytes → Bytes → Bytes → Bool → Type 0
  HasKey pk my_kpk ksk true = (coins : Bytes) × (L.oqs.kem_keypair coins ≡ some (my_kpk, ksk))
  HasKey pk my_kpk ksk false = (coins : Bytes) × (L.oqs.kem_keypair coins ≡ some (pk, ksk))

  -- The mail is shown: its ends, and the subject and the body that were sealed.
  abbrev pub Delivered :
      Bytes → State → L.json.Value → Bytes → Bytes → Option Bytes → Bytes → Sealed → Type 0
  Delivered mail_id s json sender recipient subject body sealed =
      (detail : Detail) × (after : State) × (fetch_json L mail_id s json ≡ some (detail, after))
      × (detail.subject ≡ where_sealed sealed.enc_subject subject)
      × (detail.body ≡ where_sealed sealed.enc_body (some body))
      × (detail.sender ≡ sender)
      × (detail.recipient ≡ some recipient)

  is_own_named :
      {username : Option Bytes} {user : Bytes} (sender : Bytes)
      → username ≡ some user
      → is_own username sender ≡ some (equal user sender)
  unfolding is_own
  is_own_named sender named =
      ap (λ (u : Option Bytes). u >>= λ user. some (equal user sender)) named

  fetch_json_opened :
      (mail_id : Bytes) (s : State) (json : L.json.Value) (sender recipient user : Bytes) (time : ℤ)
      (ksk packed key : Bytes) (sealed : Sealed)
      → Carries json sender recipient time sealed
      → s.ctx.username ≡ some user
      → valuestring_at L json (key_field (equal user sender)) ≡ some (some packed)
      → (load_kem_sk L s).0 ≡ some ksk
      → kem_decapsulate_key L.oqs L.blocks packed ksk ≡ some key
      → fetch_json L mail_id s json
        ≡ some (
          record {
            mail_id = mail_id;
            sender = sender;
            recipient = some recipient;
            subject = opened_text L (some key) (some (or_empty sealed.enc_subject));
            body = opened_text L (some key) sealed.enc_body;
            timestamp = time;
            created = pos 0;
            size = pos 0;
            mail_ref = json_ref L json;
            reply_ref = open_reply_ref L key json;
          },
          record s { ctx = (load_kem_sk L s).1 },
        )
  unfolding fetch_json unwrapped
  fetch_json_opened mail_id s json sender recipient user time ksk packed key sealed c named wrapped
        loads opens =
      rw
        (
          c.sender_item,
          c.recipient_item,
          c.time_item,
          is_own_named sender named,
          wrapped,
          c.subject_item,
          c.body_item,
          loads,
          opens,
        )
        refl

  -- A mail whose sealed fields are readable (as every mail is that was sent), fetched by its recipient
  -- or by its sender, who loads the secret key of that end: its subject and its body are shown as they
  -- were written, those that were sealed.
  pub fetch_json-delivers :
      (mail_id : Bytes) (s : State) (json : L.json.Value) (sender recipient user : Bytes) (time : ℤ)
      (pk my_kpk ksk body : Bytes) (subject reply_ref : Option Bytes) (sealed : Sealed)
      → Readable L A D M pk my_kpk subject body reply_ref sealed
      → Carries json sender recipient time sealed
      → s.ctx.username ≡ some user
      → HasKey pk my_kpk ksk (equal user sender)
      → (load_kem_sk L s).0 ≡ some ksk
      → Delivered mail_id s json sender recipient subject body sealed
  fetch_json-delivers mail_id s json sender recipient user time pk my_kpk ksk body subject reply_ref
        sealed readable c named has loads =
      go (equal user sender) refl has
    where
      shown_as :
          (packed : Bytes)
          → valuestring_at L json (key_field (equal user sender)) ≡ some (some packed)
          → kem_decapsulate_key L.oqs L.blocks packed ksk ≡ some readable.key
          → Delivered mail_id s json sender recipient subject body sealed
      shown_as packed wrapped opens = (
        _,
        _,
        fetch_json_opened mail_id s json sender recipient user time ksk packed readable.key sealed c
            named wrapped loads opens,
        opened_subject readable.key sealed.enc_subject subject readable.subject_opens,
        opened_body readable.key sealed.enc_body body readable.body_opens,
        refl,
        refl,
      )

      go :
          (own : Bool)
          → equal user sender ≡ own
          → HasKey pk my_kpk ksk own
          → Delivered mail_id s json sender recipient subject body sealed
      go true e (coins, pair) =
          shown_as sealed.key_sender (rw e c.key_sender_item) (readable.sender_key coins ksk pair)
      go false e (coins, pair) =
          shown_as sealed.key_recipient (rw e c.key_recipient_item)
            (readable.recipient_key coins ksk pair)
