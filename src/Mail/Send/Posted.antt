-- ===== src/Mail/Send/Posted.antt =====
-- What went before a mail that `send_mail` of client/src/lib/mail.c sends.
use mathlib.Core.Option.{some_inj}
use shyake.Base.{
  ℕ, ◌≡◌, refl, ap, sym, ◌∙◌, Bool, true, false, Bytes, List, Option, none, some, inl, inr, codes,
  length, take, if◌then◌else◌, arith,
}
use shyake.Base.Hex.{hex}
use shyake.Os.{Disk, Entropy, load_file}
use shyake.Context.{Ctx, Err, err, path_in}
use shyake.Crypto.Interface.{SigSizes}
use shyake.Crypto.Base64.{base64_decode}
use shyake.KeyFile.{fill_random}
use shyake.KeyFile.RoundTrip.{length-fill_random}
use shyake.Network.{Field, Reply, unreachable, answered}
use shyake.Network.Lookup.{fetch_recipient_pubkey, fetch_recipient_pubkey_sound}
use shyake.Client.{Libs, World, Request, State, Outcome, stop, with_error, without_error, net_of}
use shyake.Mail.Send.{
  check_known_host, send_failed, send_reply_code, send_posted, send_signed, send_sealed, send_keyed,
  send_own, send_trusted, send_decoded, send_fetched, send_mail, refused_ref, mail_request,
}
use shyake.Mail.Send.Fields.{Sealed, seal_fields, signed_fields, with_keys}

-- An operation that stopped has sent nothing.
stopped :
    {X : Type 0} {code : Err} {s : State} {o : Outcome} {r : Request}
    → some (stop code s) ≡ some o
    → o.sent ≡ some r
    → X
stopped {r} h sent =
    let e : ◌≡◌ {A = Option Request} none (some r) =
      ap (λ (q : Outcome). q.sent) (some_inj.0 h) ∙ sent in
    cc

module _ (L : Libs) (W : World) (recipient : Bytes) where
  -- The content of a mail: its signed fields, with the two wrapped keys, a signature and a stamp.
  abbrev pub HasContent : List (Bytes × Field) → Sealed → Request → Type 0
  HasContent fields sealed r =
      (signature : Bytes) × (pow : Option Bytes) × (r.body
        ≡ some (L.json.print (with_keys fields sealed signature pow)))

  send_failed_disk :
      (answers : Bool) (s : State) (code : ℕ) (body : Bytes)
      → (send_failed L W recipient answers s code body).1.disk ≡ s.disk
  unfolding send_failed
  send_failed_disk answers s code body = ground arith

  send_reply_code_disk :
      (answers : Bool) (s : State) (reply : Reply)
      → (send_reply_code L W recipient answers s reply).1.disk ≡ s.disk
  unfolding send_reply_code
  send_reply_code_disk answers s (unreachable problem) = refl
  send_reply_code_disk answers s (answered code body) =
      ground (arith, send_failed_disk answers s code body)

  send_posted-sent :
      (answers : Bool) (s : State) (payload : Bytes) (r : Request)
      → (send_posted L W recipient answers s payload).sent ≡ some r
      → (r.body ≡ some payload)
        × ((send_posted L W recipient answers s payload).state.disk ≡ s.disk)
  unfolding send_posted
  send_posted-sent answers s payload r = go W.curl_init
    where
      posted : Outcome
      posted =
          (let request = mail_request s.ctx payload in
            let (code, s') = send_reply_code L W recipient answers s (W.perform request) in
            record { code = code; sent = some request; state = s' })

      go :
          (ready : Bool)
          → (if ready then posted else stop err s).sent ≡ some r
          → (r.body ≡ some payload) × ((if ready then posted else stop err s).state.disk ≡ s.disk)
      go true h = (
        ap (λ (q : Request). q.body) (sym (some_inj.0 h)),
        send_reply_code_disk answers s (W.perform (mail_request s.ctx payload)),
      )
      go false h = cc

  send_signed-sent :
      (answers : Bool) (ssk : Bytes) (s : State) (sender : Bytes) (sealed : Sealed)
      (fields : List (Bytes × Field)) (sizes : Option SigSizes) (o : Outcome) (r : Request)
      → send_signed L W recipient answers ssk s sender sealed fields sizes ≡ some o
      → o.sent ≡ some r
      → HasContent fields sealed r × (o.state.disk ≡ s.disk)
  unfolding send_signed
  send_signed-sent answers ssk s sender sealed fields none o r h sent = cc
  send_signed-sent answers ssk s sender sealed fields (some sizes) o r h sent =
      let (content, disk) =
        send_posted-sent answers _ _ r (ap (λ (q : Outcome). q.sent) (some_inj.0 h) ∙ sent) in
      ((_, _, content), sym (ap (λ (q : Outcome). q.state.disk) (some_inj.0 h)) ∙ disk)

  send_sealed-sent :
      (answers : Bool) (pk ssk : Bytes) (size : ℕ) (s : State) (drawn : Option Sealed × Entropy)
      (o : Outcome) (r : Request)
      → send_sealed L W recipient answers pk ssk size s drawn ≡ some o
      → o.sent ≡ some r
      → (sealed : Sealed) × (sender : Bytes) × (drawn.0 ≡ some sealed)
        × HasContent
            (signed_fields W sender recipient (hex (take 32 (L.sha256 pk))) sealed size)
            sealed
            r
        × (o.state.disk ≡ s.disk)
  unfolding send_sealed
  send_sealed-sent answers pk ssk size s (none, ent) o r h sent = stopped h sent
  send_sealed-sent answers pk ssk size s (some sealed, ent) o r h sent =
      let (content, disk) = send_signed-sent answers ssk _ _ sealed _ L.sig.sig_new o r h sent in
      (sealed, _, refl, content, disk)

  module _ (reply_ref subject : Option Bytes) (body : Bytes) where
    -- What was sent under a key of 32 bytes that was drawn for it, to the holder of `pk`; the files
    -- are `d`.
    pub record Sends (pk my_kpk : Bytes) (d : Disk) (o : Outcome) (r : Request) : Type 0 where
      pub sym_key : Bytes
      pub ent : Entropy
      pub sealed : Sealed
      pub sender : Bytes
      pub key_length : length sym_key ≡ 32
      pub sealing : (seal_fields L W sym_key pk my_kpk subject body reply_ref ent).0 ≡ some sealed
      pub content :
          HasContent
            (signed_fields W sender recipient (hex (take 32 (L.sha256 pk))) sealed (length body))
            sealed
            r
      pub files : o.state.disk ≡ d

    send_keyed-sent :
        (pk my_kpk ssk : Bytes) (s : State) (drawn : Option Bytes × Entropy) (o : Outcome)
        (r : Request)
        → ((key : Bytes) → drawn.0 ≡ some key → length key ≡ 32)
        → send_keyed L W recipient reply_ref subject body pk my_kpk ssk s drawn ≡ some o
        → o.sent ≡ some r
        → Sends pk my_kpk s.disk o r
    unfolding send_keyed
    send_keyed-sent pk my_kpk ssk s (none, ent) o r l h sent = stopped h sent
    send_keyed-sent pk my_kpk ssk s (some sym_key, ent) o r l h sent =
        let (sealed, sender, made, content, files) = send_sealed-sent _ pk ssk _ s _ o r h sent in
        record {
          sym_key = sym_key;
          ent = ent;
          sealed = sealed;
          sender = sender;
          key_length = l sym_key refl;
          sealing = made;
          content = content;
          files = files;
        }

    send_own-sent :
        (pk : Bytes) (s : State) (kpk : Option Bytes) (loading : Option Bytes × Ctx) (o : Outcome)
        (r : Request)
        → send_own L W recipient reply_ref subject body pk s kpk loading ≡ some o
        → o.sent ≡ some r
        → (my_kpk : Bytes) × (kpk ≡ some my_kpk) × Sends pk my_kpk s.disk o r
    unfolding send_own
    send_own-sent pk s (some my_kpk) (some ssk, ctx) o r h sent = (
      my_kpk,
      refl,
      send_keyed-sent pk my_kpk ssk _ (fill_random 32 s.entropy) o r
          (λ key e. length-fill_random 32 s.entropy e) h sent,
    )
    send_own-sent pk s (some my_kpk) (none, ctx) o r h sent = stopped h sent
    send_own-sent pk s none (key, ctx) o r h sent = stopped h sent

    -- What a mail that was sent rests on.
    pub record Posted (s : State) (o : Outcome) (r : Request) : Type 0 where
      pub pk_b64 : Bytes
      pub pk : Bytes
      pub d : Disk
      pub my_kpk : Bytes
      pub fetched : (fetch_recipient_pubkey L.json (net_of W) recipient s.ctx).0 ≡ some pk_b64
      pub decoded : base64_decode L.blocks pk_b64 ≡ some pk
      pub checked : check_known_host L W recipient s.ctx.config_dir pk_b64 pk s.disk ≡ some d
      pub own : load_file (path_in s.ctx.config_dir (codes "kem_pk.bin")) d ≡ some my_kpk
      pub sends : Sends pk my_kpk d o r

    send_trusted-sent :
        (pk : Bytes) (s : State) (checked : Option Disk) (o : Outcome) (r : Request)
        → send_trusted L W recipient reply_ref subject body pk s checked ≡ some o
        → o.sent ≡ some r
        → (d : Disk) × (my_kpk : Bytes) × (checked ≡ some d)
          × (load_file (path_in s.ctx.config_dir (codes "kem_pk.bin")) d ≡ some my_kpk)
          × Sends pk my_kpk d o r
    unfolding send_trusted
    send_trusted-sent pk s none o r h sent = stopped h sent
    send_trusted-sent pk s (some d) o r h sent =
        let (my_kpk, own, sends) = send_own-sent pk _ _ _ o r h sent in
        (d, my_kpk, refl, own, sends)

    send_decoded-sent :
        (pk_b64 : Bytes) (s : State) (decoded : Option Bytes) (o : Outcome) (r : Request)
        → send_decoded L W recipient reply_ref subject body pk_b64 s decoded ≡ some o
        → o.sent ≡ some r
        → (pk : Bytes) × (d : Disk) × (my_kpk : Bytes) × (decoded ≡ some pk)
          × (check_known_host L W recipient s.ctx.config_dir pk_b64 pk s.disk ≡ some d)
          × (load_file (path_in s.ctx.config_dir (codes "kem_pk.bin")) d ≡ some my_kpk)
          × Sends pk my_kpk d o r
    unfolding send_decoded
    send_decoded-sent pk_b64 s none o r h sent = stopped h sent
    send_decoded-sent pk_b64 s (some pk) o r h sent =
        let (d, my_kpk, checked, own, sends) = send_trusted-sent pk s _ o r h sent in
        (pk, d, my_kpk, refl, checked, own, sends)

    send_fetched-sent :
        (s : State) (fetched : Option Bytes × Err × Ctx) (o : Outcome) (r : Request)
        → fetch_recipient_pubkey L.json (net_of W) recipient s.ctx ≡ fetched
        → ((pk : Bytes) → fetched.0 ≡ some pk → fetched.2 ≡ s.ctx)
        → send_fetched L W recipient reply_ref subject body s fetched ≡ some o
        → o.sent ≡ some r
        → Posted s o r
    unfolding send_fetched
    send_fetched-sent s (none, code, ctx) o r e same h sent = stopped h sent
    send_fetched-sent s (some pk_b64, code, ctx) o r e same h sent =
        let h' : send_decoded L W recipient reply_ref subject body pk_b64 s
              (base64_decode L.blocks pk_b64)
            ≡ some o =
          ap
            (λ (c : Ctx).
              send_decoded L W recipient reply_ref subject body pk_b64 (record s { ctx = c })
                (base64_decode L.blocks pk_b64))
            (sym (same pk_b64 refl))
          ∙ h in
        let (pk, d, my_kpk, decoded, checked, own, sends) =
          send_decoded-sent pk_b64 s _ o r h' sent in
        record {
          pk_b64 = pk_b64;
          pk = pk;
          d = d;
          my_kpk = my_kpk;
          fetched = ap (λ (f : Option Bytes × Err × Ctx). f.0) e;
          decoded = decoded;
          checked = checked;
          own = own;
          sends = sends;
        }

    fetched_ctx :
        (s : State) (pk : Bytes)
        → (fetch_recipient_pubkey L.json (net_of W) recipient s.ctx).0 ≡ some pk
        → (fetch_recipient_pubkey L.json (net_of W) recipient s.ctx).2 ≡ s.ctx
    fetched_ctx s pk h = elim (fetch_recipient_pubkey_sound L.json (net_of W) recipient s.ctx) [
      | inl (_, _, _, _, _, e) ↦ ap (λ (f : Option Bytes × Err × Ctx). f.2) e
      | inr (missing, _) ↦ let e : ◌≡◌ {A = Option Bytes} none (some pk) = sym missing ∙ h in cc
    ]

    pub send_mail-Posted :
        (s : State) (o : Outcome) (r : Request)
        → send_mail L W recipient reply_ref subject body s ≡ some o
        → o.sent ≡ some r
        → Posted (without_error s) o r
    unfolding send_mail
    send_mail-Posted s o r = go (refused_ref L W recipient reply_ref subject body)
      where
        go :
            (refused : Bool)
            → (if refused
                then some (
                    stop err
                      (with_error (codes "The reply reference is not valid.") (without_error s)))
                else send_fetched L W recipient reply_ref subject body
                    (without_error s)
                    (fetch_recipient_pubkey L.json (net_of W) recipient (without_error s).ctx))
              ≡ some o
            → o.sent ≡ some r
            → Posted (without_error s) o r
        go true h sent = stopped h sent
        go false h sent =
            send_fetched-sent (without_error s) _ o r refl (fetched_ctx (without_error s)) h sent
