-- ===== src/Cli/Send/Rescue.antt =====
-- What `rescue_draft` of client/src/cli/main.c keeps of a mail that was not sent.
use shyake.Base.{ℕ, ◌≡◌, ◌<◌, ◌∙◌, false, Bytes, Option, none, some, codes, length}
use shyake.Os.{read, load_file}
use shyake.Context.{Ctx, ok, path_in}
use shyake.Crypto.Interface.{IsAead, IsKem, IsBase64}
use shyake.Crypto.Own.{selfdec_new}
use shyake.Network.Objects.{IsJson}
use shyake.Client.{Libs, World, State, Outcome}
use shyake.Drafts.{draft_path, read_draft}
use shyake.Drafts.Saving.{save_draft}
use shyake.Drafts.RoundTrip.{ShowsDraft, read-save_draft}
use shyake.Cli.Prompt.{Terminal}
use shyake.Cli.Send.{sent_or_rescued}
use shyake.Cli.Send.Exits.{sent_or_rescued_host}
use shyake.Cli.{Setup, host_of, is_ok}

module _ (L : Libs) (T : Terminal) (W : ℕ → World) (setup : Setup) where
  rescued_as_saved :
      (world : World) (recipient subject body : Bytes) (reply_ref : Option Bytes) (o : Outcome)
      (s' : State) (id e : Bytes)
      → is_ok o.code ≡ false
      → save_draft L world setup.config_dir none
          (some recipient)
          (some subject)
          reply_ref
          body
          o.state
        ≡ ((ok, some id), s', e)
      → let r = sent_or_rescued L T W setup world recipient subject reply_ref body o in
        (r.status ≡ false) × (r.host ≡ host_of s')
  rescued_as_saved world recipient subject body reply_ref o s' id e failed h =
      let (status, host) =
        sent_or_rescued_host L T W setup world recipient subject body reply_ref o in
      (status ∙ failed, rw (failed, h) at host)

  module _ (J : IsJson L.json) (A : IsAead L.evp) (D : IsBase64 L.blocks) (M : IsKem L.oqs) where
    -- The send of a mail failed, and the store takes a new draft of it. Then the command fails, leaves the
    -- state that the saving left, and what the user wrote is not lost: reading the new draft gives the
    -- recipient, the subject, the body and the reference of the mail; under the conditions of
    -- `read-save_draft`.
    pub unsent_mail_kept :
        (world : World) (recipient subject body : Bytes) (reply_ref : Option Bytes) (o : Outcome)
        (s' t : State) (id e : Bytes) (coins kpk ksk : Bytes) (ctx : Ctx) (username : Option Bytes)
        → is_ok o.code ≡ false
        → length world.stack ≡ 12
        → L.oqs.kem_keypair coins ≡ some (kpk, ksk)
        → load_file (path_in o.state.ctx.config_dir (codes "kem_pk.bin")) o.state.disk ≡ some kpk
        → save_draft L world setup.config_dir none
            (some recipient)
            (some subject)
            reply_ref
            body
            o.state
          ≡ ((ok, some id), s', e)
        → length id < 31
        → ((content : Bytes)
            → read s'.disk (draft_path setup.config_dir id) ≡ some content
            → length content < o.state.disk.room (draft_path setup.config_dir id))
        → t.disk ≡ s'.disk
        → selfdec_new L t ≡ (some ksk, ctx)
        → let r = sent_or_rescued L T W setup world recipient subject reply_ref body o in
          (r.status ≡ false)
          × (r.host ≡ host_of s')
          × ShowsDraft
              (read_draft L setup.config_dir username id t).0
              id
              recipient
              subject
              body
              reply_ref
    unsent_mail_kept world recipient subject body reply_ref o s' t id e coins kpk ksk ctx username
          failed stack pair own h short room same unlocked =
        let (status, host) =
          rescued_as_saved world recipient subject body reply_ref o s' id e failed h in
        (
          status,
          host,
          read-save_draft L A D M J world setup.config_dir none (some recipient) (some subject)
              reply_ref body o.state s' t id e coins kpk ksk ctx username stack pair own h short
              room same unlocked,
        )
