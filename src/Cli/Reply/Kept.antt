-- ===== src/Cli/Reply/Kept.antt =====
-- A draft of a reply that the user edited holds what he wrote, and keeps its recipient.
use shyake.Base.{ℕ, ◌≡◌, ◌<◌, refl, true, false, Bytes, Option, some, codes, length}
use shyake.Os.{read, load_file}
use shyake.Context.{Ctx, ok, path_in}
use shyake.Crypto.Interface.{IsAead, IsKem, IsBase64}
use shyake.Crypto.Own.{selfdec_new}
use shyake.Network.Objects.{IsJson}
use shyake.Client.{Libs, World, State}
use shyake.Drafts.{draft_path, read_draft}
use shyake.Drafts.Saving.{save_draft}
use shyake.Drafts.RoundTrip.{ShowsDraft, read-save_draft}
use shyake.Compose.{all_space}
use shyake.Compose.Template.{reply_template}
use shyake.Compose.Template.Reading.{IsValue, parse-reply_template}
use shyake.Cli.Prompt.{Terminal}
use shyake.Cli.Reply.{skip_newlines, save_edited_draft}
use shyake.Cli.{Setup}

module _ (L : Libs) (T : Terminal) (W : ℕ → World) (setup : Setup) where
  saved_as_written :
      (world : World) (draft_id reply_ref : Option Bytes) (recipient subject body : Bytes)
      (s s' : State) (id e : Bytes)
      → IsValue subject
      → skip_newlines body ≡ body
      → all_space body ≡ false
      → save_draft L world setup.config_dir draft_id
          (some recipient)
          (some subject)
          reply_ref
          body
          s
        ≡ ((ok, some id), s', e)
      → let r =
          save_edited_draft L T W setup world
            (reply_template subject body)
            reply_ref
            (some recipient)
            draft_id
            s in
        (r.0 ≡ true) × (r.2 ≡ s') × (r.3 ≡ some id)
  unfolding save_edited_draft
  saved_as_written world draft_id reply_ref recipient subject body s s' id e value begins text h =
      rw (parse-reply_template subject body value, begins, text, h) (refl, refl, refl)

  module _ (J : IsJson L.json) (A : IsAead L.evp) (D : IsBase64 L.blocks) (M : IsKem L.oqs) where
    -- The user leaves the template of a reply with a subject on one line, without blanks around it, and
    -- a body that does not begin with a line break and is not only blanks. Where the store takes that
    -- draft, the edit succeeds with it, and the draft is read back with the recipient of the reply, the
    -- subject and the body as they were written, and the reference; under the conditions of
    -- `read-save_draft`.
    pub edited_reply_kept :
        (world : World) (draft_id reply_ref : Option Bytes) (recipient subject body : Bytes)
        (s s' t : State) (id e : Bytes) (coins kpk ksk : Bytes) (ctx : Ctx)
        (username : Option Bytes)
        → IsValue subject
        → skip_newlines body ≡ body
        → all_space body ≡ false
        → length world.stack ≡ 12
        → L.oqs.kem_keypair coins ≡ some (kpk, ksk)
        → load_file (path_in s.ctx.config_dir (codes "kem_pk.bin")) s.disk ≡ some kpk
        → save_draft L world setup.config_dir draft_id
            (some recipient)
            (some subject)
            reply_ref
            body
            s
          ≡ ((ok, some id), s', e)
        → length id < 31
        → ((content : Bytes)
            → read s'.disk (draft_path setup.config_dir id) ≡ some content
            → length content < s.disk.room (draft_path setup.config_dir id))
        → t.disk ≡ s'.disk
        → selfdec_new L t ≡ (some ksk, ctx)
        → let r =
            save_edited_draft L T W setup world
              (reply_template subject body)
              reply_ref
              (some recipient)
              draft_id
              s in
          ((r.0 ≡ true) × (r.2 ≡ s') × (r.3 ≡ some id))
          × ShowsDraft
              (read_draft L setup.config_dir username id t).0
              id
              recipient
              subject
              body
              reply_ref
    edited_reply_kept world draft_id reply_ref recipient subject body s s' t id e coins kpk ksk ctx
          username value begins text stack pair own h short room same unlocked =
        (
          saved_as_written world draft_id reply_ref recipient subject body s s' id e value begins
              text h,
          read-save_draft L A D M J world setup.config_dir draft_id (some recipient) (some subject)
              reply_ref body s s' t id e coins kpk ksk ctx username stack pair own h short room same
              unlocked,
        )
