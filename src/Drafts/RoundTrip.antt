-- ===== src/Drafts/RoundTrip.antt =====
-- A draft that was saved is read back.
use mathlib.Core.Option.{some_inj}
use shyake.Base.{
  ℕ, ◌<◌, ◌≡◌, refl, ap, sym, ◌∙◌, Bool, true, false, Bytes, [], ◌∷◌, Option, none, some,
  >>=-eq-some, require, codes, snprintf, length, length-take, take, take_all, equal, equal_iff,
  is_empty, arith, if◌then◌else◌,
}
use shyake.Base.Integer.{ℤ, pos}
use shyake.Os.{Disk, Entropy, read, read-write, load_file}
use shyake.Context.{Ctx, ok, path_in, or_empty}
use shyake.Crypto.Interface.{IsAead, IsKem, IsBase64}
use shyake.Crypto.Own.{selfdec_new, selfdec_key}
use shyake.Crypto.Seal.{encrypt_to_b64, decrypt_from_b64}
use shyake.Crypto.Seal.RoundTrip.{decrypt-encrypt_to_b64}
use shyake.Network.Objects.{IsJson, find_field}
use shyake.Client.{Libs, World, State}
use shyake.Mail.{Detail}
use shyake.Mail.Send.Fields.{seal_optional, reply_sealed}
use shyake.Mail.Send.Delivery.{OpensText, seal_optional-OpensText}
use shyake.Crypto.Own.RoundTrip.{selfdec-selfenc}
use mathlib.Core.Path.{subst}
use shyake.Drafts.{
  draft_path, decrypt_field, field, number_field, parse_draft_json, open_reply, open_body,
  open_draft, read_draft,
}
use shyake.Drafts.Saving.{SealedDraft, field_sealed, draft_fields, seal_draft, save_draft}
use shyake.Drafts.Saving.Written.{Stores, save_draft-Written}

-- The detail that was made, and what it shows.
pub record ShowsDraft (made : Option Detail) (id recipient subject body : Bytes)
    (reply_ref : Option Bytes) : Type 0 where
  pub detail : Detail
  pub is_made : made ≡ some detail
  pub shows_id : detail.mail_id ≡ id
  pub shows_recipient : detail.recipient ≡ some recipient
  pub shows_subject : detail.subject ≡ some subject
  pub shows_body : detail.body ≡ some body
  pub shows_reply : detail.reply_ref ≡ reply_ref

required : (b : Bool) {u : Unit {0}} → require b ≡ some u → b ≡ true
required true h = refl
required false h = cc

-- A text that is shorter than the cut was not cut.
uncut : (n : ℕ) (x y : Bytes) → x ≡ take n y → length x < n → x ≡ y
uncut n x y e h =
    let l : length x ≡ length (take n y) = ap length e in
    e ∙ take_all n y (omega (arith, length-take n y))

-- A text that opens is sealed as something.
opens-nonempty :
    (L : Libs) (key b64 text : Bytes)
    → decrypt_from_b64 L.evp L.blocks key b64 ≡ some text
    → is_empty b64 ≡ false
unfolding decrypt_from_b64
opens-nonempty L key [] text h = cc
opens-nonempty L key (c ∷ b64) text h = refl

-- The file of a draft, where the device had room for it.
file_whole :
    (L : Libs) (W : World) (dir : Bytes) (draft_id : Option Bytes) (s : State) (size : ℕ)
    (sealed : SealedDraft) (id : Bytes) (d : Disk) (st : Stores L W dir draft_id s size sealed id d)
    → length id < 31
    → ((content : Bytes)
        → read d (draft_path dir id) ≡ some content
        → length content < s.disk.room (draft_path dir id))
    → read d (draft_path dir id)
      ≡ some (L.json.print (draft_fields (snprintf 32 st.file_id) st.created W.now size sealed))
file_whole L W dir draft_id s size sealed id d st short room =
    let payload =
      L.json.print (draft_fields (snprintf 32 st.file_id) st.created W.now size sealed) in
    let cut = s.disk.room (draft_path dir st.file_id) in
    let path : draft_path dir st.file_id ≡ draft_path dir id =
      ap (draft_path dir) (sym (uncut 31 id st.file_id st.same_id short)) in
    let hit = (equal_iff (draft_path dir st.file_id) (draft_path dir id)).1 path in
    let seen : read d (draft_path dir id) ≡ some (take cut payload) =
      ap (λ (x : Disk). read x (draft_path dir id)) st.written
      ∙ read-write s.disk (draft_path dir st.file_id) (draft_path dir id) payload
      ∙ rw hit refl in
    let fits =
      subst (λ n. length (take cut payload) < n) (ap s.disk.room (sym path)) (room _ seen) in
    seen ∙ ap (λ (x : Bytes). some x) (uncut cut _ payload refl fits)

module _ (L : Libs) (A : IsAead L.evp) (D : IsBase64 L.blocks) (M : IsKem L.oqs) where
  field_shows :
      (key : Bytes) (words enc : Option Bytes)
      → OpensText L A D M key enc words
      → field_sealed words enc ≡ true
      → decrypt_field L key (some (or_empty enc)) ≡ some (or_empty words)
  unfolding field_sealed decrypt_field
  field_shows key none enc opens h = rw opens refl
  field_shows key (some []) none opens h = refl
  field_shows key (some []) (some []) opens h = refl
  field_shows key (some []) (some (b ∷ enc)) opens h = opens (b ∷ enc) refl
  field_shows key (some (c ∷ words)) none opens h = cc
  field_shows key (some (c ∷ words)) (some []) opens h =
      cc (opens-nonempty L key [] (c ∷ words) (opens [] refl))
  field_shows key (some (c ∷ words)) (some (b ∷ enc)) opens h = opens (b ∷ enc) refl

  reply_shows :
      (key : Bytes) (words enc : Option Bytes)
      → OpensText L A D M key enc words
      → reply_sealed words enc ≡ true
      → open_reply L key enc ≡ some words
  unfolding open_reply
  reply_shows key none enc opens h = rw opens refl
  reply_shows key (some words) none opens h = cc
  reply_shows key (some words) (some []) opens h =
      cc (opens-nonempty L key [] words (opens [] refl))
  reply_shows key (some words) (some (b ∷ enc)) opens h = rw (opens (b ∷ enc) refl) refl

  -- The sealed fields open to what was given.
  record Shows (key enc_key : Bytes) (recipient subject reply_ref : Option Bytes) (body : Bytes)
      (sealed : SealedDraft) : Type 0 where
    key_kept : sealed.enc_key ≡ enc_key
    recipient_shows :
        decrypt_field L key (some (or_empty sealed.enc_recipient)) ≡ some (or_empty recipient)
    subject_shows :
        decrypt_field L key (some (or_empty sealed.enc_subject)) ≡ some (or_empty subject)
    body_shows : decrypt_from_b64 L.evp L.blocks key sealed.enc_body ≡ some body
    reply_kept : open_reply L key sealed.enc_reply_to ≡ some reply_ref

  seal_draft-Shows :
      (W : World) (key enc_key : Bytes) (recipient subject reply_ref : Option Bytes) (body : Bytes)
      (ent : Entropy) (sealed : SealedDraft)
      → length W.stack ≡ 12
      → (seal_draft L W key enc_key recipient subject reply_ref body ent).0 ≡ some sealed
      → Shows key enc_key recipient subject reply_ref body sealed
  unfolding seal_draft
  seal_draft-Shows W key enc_key recipient subject reply_ref body ent sealed stack h =
      let opens = seal_optional-OpensText L A D M W stack key in
      let e1 = (seal_optional L W key recipient ent).1 in
      let e2 = (seal_optional L W key subject e1).1 in
      let e3 = (seal_optional L W key reply_ref e2).1 in
      let (bdy, sealed_bdy, h1) =
        >>=-eq-some (encrypt_to_b64 L.evp L.blocks W.stack key body e3).0 _ h in
      let (_, rec_sealed, h2) =
        >>=-eq-some (require (field_sealed recipient (seal_optional L W key recipient ent).0)) _
          h1 in
      let (_, sub_sealed, h3) =
        >>=-eq-some (require (field_sealed subject (seal_optional L W key subject e1).0)) _ h2 in
      let (_, re_sealed, h4) =
        >>=-eq-some (require (reply_sealed reply_ref (seal_optional L W key reply_ref e2).0)) _
          h3 in
      subst (Shows key enc_key recipient subject reply_ref body) (some_inj.0 h4) (record {
        key_kept = refl;
        recipient_shows = field_shows key recipient _ (opens recipient ent) (required _ rec_sealed);
        subject_shows = field_shows key subject _ (opens subject e1) (required _ sub_sealed);
        body_shows = decrypt-encrypt_to_b64 A D key W.stack body bdy e3 stack sealed_bdy;
        reply_kept = reply_shows key reply_ref _ (opens reply_ref e2) (required _ re_sealed);
      })

  module _ (J : IsJson L.json) where
    reply_item :
        (id : Bytes) (created : ℤ) (now size : ℕ) (f : SealedDraft)
        → field L (J.object (draft_fields id created now size f)) (codes "enc_reply_to")
          ≡ f.enc_reply_to
    unfolding field draft_fields find_field equal
    reply_item id created now size f = go f.enc_reply_to refl
      where
        go :
            (enc : Option Bytes)
            → f.enc_reply_to ≡ enc
            → field L (J.object (draft_fields id created now size f)) (codes "enc_reply_to") ≡ enc
        go none e =
            rw (J.no_item (draft_fields id created now size f) (codes "enc_reply_to") (rw e refl))
              refl
        go (some enc) e =
            J.text_item (draft_fields id created now size f) (codes "enc_reply_to") enc (rw e refl)

    module _ (id : Bytes) (created : ℤ) (now size : ℕ) (f : SealedDraft) where
      abbrev json_of : L.json.Value
      json_of = J.object (draft_fields id created now size f)

      key_item : field L json_of (codes "enc_key") ≡ some f.enc_key
      unfolding field draft_fields find_field equal
      key_item = J.text_item (draft_fields id created now size f) (codes "enc_key") f.enc_key refl

      body_item : field L json_of (codes "enc_body") ≡ some f.enc_body
      unfolding field draft_fields find_field equal
      body_item =
          J.text_item (draft_fields id created now size f) (codes "enc_body") f.enc_body refl

      recipient_item : field L json_of (codes "enc_recipient") ≡ some (or_empty f.enc_recipient)
      unfolding field draft_fields find_field equal
      recipient_item =
          J.text_item (draft_fields id created now size f) (codes "enc_recipient")
            (or_empty f.enc_recipient) refl

      subject_item : field L json_of (codes "enc_subject") ≡ some (or_empty f.enc_subject)
      unfolding field draft_fields find_field equal
      subject_item =
          J.text_item (draft_fields id created now size f) (codes "enc_subject")
            (or_empty f.enc_subject) refl

    -- The detail that is made of the file of a draft.
    shown_again :
        (username recipient subject reply_ref : Option Bytes)
        (body id file_id key enc_key ksk : Bytes) (created : ℤ) (now size : ℕ) (f : SealedDraft)
        → Shows key enc_key recipient subject reply_ref body f
        → selfdec_key L ksk f.enc_key ≡ some key
        → ShowsDraft
            (open_draft L username id true
              (J.object (draft_fields file_id created now size f))
              ksk
              f.enc_key
              f.enc_body)
            id
            (or_empty recipient)
            (or_empty subject)
            body
            reply_ref
    unfolding open_draft open_body
    shown_again username recipient subject reply_ref body id file_id key enc_key ksk created now
          size f v k =
        let v' = json_of file_id created now size f in
        let d : Detail = record {
          mail_id = id;
          sender = if is_empty (or_empty username) then codes "(me)" else or_empty username;
          recipient = some (or_empty recipient);
          subject = some (or_empty subject);
          body = some body;
          timestamp = number_field L v' (codes "modified");
          created = number_field L v' (codes "created");
          size = elim (L.json.item v' (codes "size")) [ none ↦ pos 0 | some n ↦ L.json.valueint n ];
          mail_ref = none;
          reply_ref = reply_ref;
        } in
        record {
          detail = d;
          is_made =
              rw
                (
                  k,
                  v.body_shows,
                  reply_item file_id created now size f,
                  v.reply_kept,
                  recipient_item file_id created now size f,
                  subject_item file_id created now size f,
                  v.recipient_shows,
                  v.subject_shows,
                )
                refl;
          shows_id = refl;
          shows_recipient = refl;
          shows_subject = refl;
          shows_body = refl;
          shows_reply = refl;
        }

    -- A draft that was saved is read back with its identifier, recipient, subject, body and reference:
    -- where saving it ended with `SHYAKE_OK`, its identifier is shorter than the buffer for it and the
    -- file than what the device takes, by a user who opens the secret key to the public key for which it
    -- was sealed. A recipient or subject that was not given is read as an empty text.
    pub read-save_draft :
        (W : World) (dir : Bytes) (draft_id recipient subject reply_ref : Option Bytes)
        (body : Bytes) (s s' t : State) (id e : Bytes) (coins kpk ksk : Bytes) (ctx : Ctx)
        (username : Option Bytes)
        → length W.stack ≡ 12
        → L.oqs.kem_keypair coins ≡ some (kpk, ksk)
        → load_file (path_in s.ctx.config_dir (codes "kem_pk.bin")) s.disk ≡ some kpk
        → save_draft L W dir draft_id recipient subject reply_ref body s ≡ ((ok, some id), s', e)
        → length id < 31
        → ((content : Bytes)
            → read s'.disk (draft_path dir id) ≡ some content
            → length content < s.disk.room (draft_path dir id))
        → t.disk ≡ s'.disk
        → selfdec_new L t ≡ (some ksk, ctx)
        → ShowsDraft
            (read_draft L dir username id t).0
            id
            (or_empty recipient)
            (or_empty subject)
            body
            reply_ref
    unfolding read_draft parse_draft_json load_file
    read-save_draft W dir draft_id recipient subject reply_ref body s s' t id e coins kpk ksk ctx
          username stack pair own h short room same unlocked =
        let w = save_draft-Written L W dir draft_id s recipient subject reply_ref body s' id e h in
        let st = w.stores in
        let fields =
          draft_fields (snprintf 32 st.file_id) st.created W.now (length body) w.sealed in
        let whole : read t.disk (draft_path dir id) ≡ some (L.json.print fields) =
          ap (λ (d : Disk). read d (draft_path dir id)) same
          ∙ file_whole L W dir draft_id s (length body) w.sealed id s'.disk st short room in
        let key =
          selfdec-selfenc L D M coins (W.coins 0) kpk ksk w.sym_key w.enc_key s w.begun pair own
            w.begins in
        let v =
          seal_draft-Shows W w.sym_key w.enc_key recipient subject reply_ref body w.begun.entropy
            w.sealed stack w.sealing in
        let again =
          shown_again username recipient subject reply_ref body id (snprintf 32 st.file_id)
            w.sym_key w.enc_key ksk st.created W.now (length body) w.sealed v
            (ap (selfdec_key L ksk) v.key_kept ∙ key) in
        record {
          detail = again.detail;
          is_made =
              rw
                (
                  whole,
                  J.parses fields,
                  key_item (snprintf 32 st.file_id) st.created W.now (length body) w.sealed,
                  body_item (snprintf 32 st.file_id) st.created W.now (length body) w.sealed,
                  unlocked,
                  again.is_made,
                )
                refl;
          shows_id = again.shows_id;
          shows_recipient = again.shows_recipient;
          shows_subject = again.shows_subject;
          shows_body = again.shows_body;
          shows_reply = again.shows_reply;
        }
