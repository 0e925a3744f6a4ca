-- ===== src/Cli/Send/Exits.antt =====
-- How the command `send` ends, and what it leaves on the disk.
use mathlib.Core.Path.{subst}
use mathlib.Core.Option.{some_inj}
use shyake.Base.{
  List, ℕ, ◌≡◌, refl, ap, Bool, true, false, not, Bytes, Option, none, some, >>=-eq-some,
  Bool-cases, inl, inr, ltb, length, if◌then◌else◌,
}
use shyake.Context.{
  Err, ok, err, err_network, err_http, err_key_mismatch, err_gone, err_not_found, err_forbidden,
  err_crypto, err_no_instance, err_blocked,
}
use shyake.Client.{Libs, World, State, Outcome}
use shyake.Mail.{Detail}
use shyake.Drafts.{Drafts, read_draft, read_draft_disk, delete_draft}
use shyake.Drafts.Saving.{save_draft}
use shyake.Cli.Prompt.{Terminal}
use shyake.Cli.Send.{
  SendOptions, c_string, or_draft, changes_reply, rescued, rescue_draft, sent_or_rescued,
  send_detail, draft_sent, draft_parts, send_draft, draft_whole, draft_read, sending_draft,
}
use shyake.Cli.Send.Draft.{
  SendsDraft, IsSend, send_detail-IsSend, c_string-IsCString, or_draft-IsChosen,
  changes_reply-SameReply,
}
use shyake.Cli.{Setup, Run, Shown, then_shown, host_of, is_ok, is_hopeless}

module _ (L : Libs) (T : Terminal) (W : ℕ → World) (setup : Setup) where
  -- How `send -d` ends: before anything is sent, with a send that failed, or with one that succeeded.
  pub data DraftExit (draft_id : Bytes) (opts : SendOptions) (s : State) (r : Run) : Type 0 where
    kept : r.status ≡ false → r.host.disk ≡ s.disk → DraftExit draft_id opts s r
    unsent :
        (recipient subject body : Bytes) (reply_ref : Option Bytes) (s' : State) (o : Outcome)
        → SendsDraft L T W setup draft_id opts s recipient subject body reply_ref s'
        → s'.disk ≡ s.disk
        → IsSend L T W setup recipient subject body s' reply_ref o
        → is_ok o.code ≡ false
        → r.status ≡ false
        → r.host ≡ host_of o.state
        → DraftExit draft_id opts s r
    sent :
        (recipient subject body : Bytes) (reply_ref : Option Bytes) (s' : State) (o : Outcome)
        → SendsDraft L T W setup draft_id opts s recipient subject body reply_ref s'
        → s'.disk ≡ s.disk
        → IsSend L T W setup recipient subject body s' reply_ref o
        → is_ok o.code ≡ true
        → r.status ≡ true
        → r.host.disk ≡ (delete_draft setup.config_dir draft_id o.state.disk).1
        → DraftExit draft_id opts s r

  draft_sent_done :
      (draft_id recipient : Bytes) (o : Outcome)
      → is_ok o.code ≡ true
      → ((draft_sent L T W setup draft_id recipient o).status ≡ true)
        × ((draft_sent L T W setup draft_id recipient o).host.disk
            ≡ (delete_draft setup.config_dir draft_id o.state.disk).1)
  unfolding draft_sent
  draft_sent_done draft_id recipient o h = rw h (refl, refl)

  draft_sent_failed :
      (draft_id recipient : Bytes) (o : Outcome)
      → is_ok o.code ≡ false
      → ((draft_sent L T W setup draft_id recipient o).status ≡ false)
        × ((draft_sent L T W setup draft_id recipient o).host ≡ host_of o.state)
  unfolding draft_sent
  draft_sent_failed draft_id recipient o h = rw h (refl, refl)

  draft_sent-DraftExit :
      (draft_id : Bytes) (opts : SendOptions) (s s' : State) (recipient subject body : Bytes)
      (reply_ref : Option Bytes) (o : Outcome) (shown : List Shown)
      → SendsDraft L T W setup draft_id opts s recipient subject body reply_ref s'
      → s'.disk ≡ s.disk
      → IsSend L T W setup recipient subject body s' reply_ref o
      → DraftExit draft_id opts s (then_shown shown (draft_sent L T W setup draft_id recipient o))
  draft_sent-DraftExit draft_id opts s s' recipient subject body reply_ref o shown v d h =
      elim (Bool-cases (is_ok o.code)) [
        | inl done ↦
            let (status, disk) = draft_sent_done draft_id recipient o done in
            sent recipient subject body reply_ref s' o v d h done status disk
        | inr failed ↦
            let (status, host) = draft_sent_failed draft_id recipient o failed in
            unsent recipient subject body reply_ref s' o v d h failed status host
      ]

  draft_parts-DraftExit :
      (draft_id : Bytes) (opts : SendOptions) (to subject reply_ref : Option Bytes) (body : Bytes)
      (s s' : State) (r : Run)
      → ((recipient sub : Bytes)
          → to ≡ some recipient
          → subject ≡ some sub
          → SendsDraft L T W setup draft_id opts s recipient sub body reply_ref s')
      → s'.disk ≡ s.disk
      → draft_parts L T W setup draft_id to subject reply_ref body s' ≡ some r
      → DraftExit draft_id opts s r
  unfolding draft_parts
  draft_parts-DraftExit draft_id opts none subject reply_ref body s s' r v d h =
      subst (DraftExit draft_id opts s) (some_inj.0 h) (kept refl d)
  draft_parts-DraftExit draft_id opts (some recipient) none reply_ref body s s' r v d h =
      subst (DraftExit draft_id opts s) (some_inj.0 h) (kept refl d)
  draft_parts-DraftExit draft_id opts (some recipient) (some subject) reply_ref body s s' r v d h =
      elim (Bool-cases (ltb 128 (length subject))) [
        | inl long ↦
            let h' = rw long at h in subst (DraftExit draft_id opts s) (some_inj.0 h') (kept refl d)
        | inr short ↦
            let h' = rw short at h in
            let (o, sent_o, made) =
              >>=-eq-some (send_detail L T W setup recipient reply_ref subject body s') _ h' in
            subst (DraftExit draft_id opts s) (some_inj.0 made) (
              draft_sent-DraftExit draft_id opts s s' recipient subject body reply_ref o
                (sending_draft draft_id recipient) (v recipient subject refl refl) d
                (send_detail-IsSend L T W setup recipient subject body reply_ref s' o sent_o))
      ]

  draft_whole-DraftExit :
      (draft_id : Bytes) (opts : SendOptions) (d : Detail) (s s' : State) (text : Bytes) (r : Run)
      → (read_draft L setup.config_dir setup.app.username draft_id s).0 ≡ some d
      → (read_draft L setup.config_dir setup.app.username draft_id s).1 ≡ s'
      → d.body ≡ some text
      → s'.disk ≡ s.disk
      → draft_whole L T W setup draft_id opts d s' (c_string text) ≡ some r
      → DraftExit draft_id opts s r
  unfolding draft_whole
  draft_whole-DraftExit draft_id opts d s s' text r is_read is_state has_text same h =
      elim (Bool-cases (changes_reply opts.recipient d)) [
        | inl changed ↦
            let h' = rw changed at h in
            subst (DraftExit draft_id opts s) (some_inj.0 h') (kept refl same)
        | inr fits ↦
            let h' = rw fits at h in
            draft_parts-DraftExit draft_id opts (or_draft opts.recipient d.recipient)
              (or_draft opts.subject d.subject) d.reply_ref (c_string text) s s' r
              (λ recipient subject e e'. record {
                detail = d;
                text = text;
                is_read = is_read;
                is_state = is_state;
                has_text = has_text;
                is_body = c_string-IsCString text;
                is_recipient = or_draft-IsChosen opts.recipient d.recipient recipient e;
                is_subject = or_draft-IsChosen opts.subject d.subject subject e';
                is_reply = refl;
                same_reply = changes_reply-SameReply opts.recipient d fits;
              })
              same h'
      ]

  draft_read-DraftExit :
      (draft_id : Bytes) (opts : SendOptions) (made : Drafts (Option Detail)) (s : State) (r : Run)
      → read_draft L setup.config_dir setup.app.username draft_id s ≡ made
      → made.1.disk ≡ s.disk
      → draft_read L T W setup draft_id opts made ≡ some r
      → DraftExit draft_id opts s r
  unfolding draft_read
  draft_read-DraftExit draft_id opts (none, s', e) s r is_made same h =
      subst (DraftExit draft_id opts s) (some_inj.0 h) (kept refl same)
  draft_read-DraftExit draft_id opts (some d, s', e) s r is_made same h = go d.body refl
    where
      go : (b : Option Bytes) → d.body ≡ b → DraftExit draft_id opts s r
      go none e' =
          let h' = rw e' at h in subst (DraftExit draft_id opts s) (some_inj.0 h') (kept refl same)
      go (some text) e' =
          let h' = rw e' at h in
          draft_whole-DraftExit draft_id opts d s s' text r
            (ap (λ (m : Drafts (Option Detail)). m.0) is_made)
            (ap (λ (m : Drafts (Option Detail)). m.1) is_made) e' same h'

  -- A run of `send -d` that does not crash ends in one of three ways. Before anything is sent it fails,
  -- and the disk is as it was. Where the send fails it fails too, and the disk is as the send left it.
  -- Only where the send succeeded it succeeds, and then the draft is deleted. What is sent is what reading the
  -- draft gave: its body up to a NUL, its recipient and subject where no others are given, its reference;
  -- as a reply, which no other recipient is given for, where it has a reference, or as a mail.
  pub send_draft-DraftExit :
      (draft_id : Bytes) (opts : SendOptions) (s : State) (r : Run)
      → send_draft L T W setup draft_id opts s ≡ some r
      → DraftExit draft_id opts s r
  unfolding send_draft
  send_draft-DraftExit draft_id opts s r h =
      draft_read-DraftExit draft_id opts
        (read_draft L setup.config_dir setup.app.username draft_id s) s r refl
        (read_draft_disk L setup.config_dir setup.app.username draft_id s) h

  rescued_state :
      (retry : Bool) (made : Drafts (Err × Option Bytes))
      → (rescued L T W setup retry made).1 ≡ made.1
  unfolding rescued
  rescued_state retry ((ok, none), s, e) = refl
  rescued_state retry ((ok, some id), s, e) = refl
  rescued_state retry ((err, id), s, e) = refl
  rescued_state retry ((err_network, id), s, e) = refl
  rescued_state retry ((err_http, id), s, e) = refl
  rescued_state retry ((err_key_mismatch, id), s, e) = refl
  rescued_state retry ((err_gone, id), s, e) = refl
  rescued_state retry ((err_not_found, id), s, e) = refl
  rescued_state retry ((err_forbidden, id), s, e) = refl
  rescued_state retry ((err_crypto, id), s, e) = refl
  rescued_state retry ((err_no_instance, id), s, e) = refl
  rescued_state retry ((err_blocked, id), s, e) = refl

  -- After a send of a body: where it succeeded the command does, and changes nothing more; where it
  -- failed the command fails, and what it leaves is what saving the body, the subject, the recipient and
  -- the reference as a draft leaves.
  pub sent_or_rescued_host :
      (world : World) (recipient subject body : Bytes) (reply_ref : Option Bytes) (o : Outcome)
      → ((sent_or_rescued L T W setup world recipient subject reply_ref body o).status
          ≡ is_ok o.code)
        × ((sent_or_rescued L T W setup world recipient subject reply_ref body o).host ≡ (
            if is_ok o.code
            then host_of o.state
            else host_of
                (save_draft L world setup.config_dir none
                  (some recipient)
                  (some subject)
                  reply_ref
                  body
                  o.state).1))
  unfolding sent_or_rescued rescue_draft
  sent_or_rescued_host world recipient subject body reply_ref o = elim (Bool-cases (is_ok o.code)) [
    | inl done ↦ rw done (refl, refl)
    | inr failed ↦ rw failed (
      refl,
      ap host_of (
          rescued_state (not (is_hopeless o.code)) (
            save_draft L world setup.config_dir none (some recipient) (some subject) reply_ref body
              o.state)),
    )
  ]
