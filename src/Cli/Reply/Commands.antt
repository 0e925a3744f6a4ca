-- ===== src/Cli/Reply/Commands.antt =====
-- client/src/cli/main.c: `reply` and `compose` as commands. getopt's results are the options.
use shyake.Base.{
  ℕ, false, ◌||◌, Bytes, [], ◌∷◌, ◌++◌, Option, none, some, ◌>>=◌, codes, equal, is_empty,
  if◌then◌else◌,
}
use shyake.Context.{Err, or_empty}
use shyake.Os.{read}
use shyake.Client.{Libs, World, State}
use shyake.Mail.{Detail, reply_recipient}
use shyake.Mail.Read.{fetch}
use shyake.Mail.Saved.{read_saved}
use shyake.Mail.Find.{FindResult, find_ref}
use shyake.Mail.Lists.{shown_subject}
use shyake.Mail.Send.{send_reply}
use shyake.Drafts.{Drafts, read_draft}
use shyake.Drafts.Saving.{save_draft}
use shyake.Display.Timestamp.{Calendar, format_timestamp}
use shyake.Compose.{subject_problem, reply_subject}
use shyake.Compose.Template.{compose_template, reply_template}
use shyake.Cli.Prompt.{Terminal}
use shyake.Cli.Session.{prompted, if_both, fresh_ctx, opened}
use shyake.Cli.Send.{c_string, sent_or_rescued}
use shyake.Cli.Editor.{Shell, Edited, edit_draft}
use shyake.Cli.Reply.{SavedEdit, save_edited_draft, offer_reply_send}
use shyake.Cli.{
  out, note, Setup, Host, Run, ended, refused, then_shown, print_failure, print_lib_error, is_ok,
}

-- `-s`, `-d`, the mail and the first argument behind it.
pub record ReplyOptions : Type 0 where
  pub subject : Option Bytes
  pub draft_id : Option Bytes
  pub mail_id : Option Bytes
  pub file : Option Bytes

abbrev first_of : Option Bytes → Option Bytes → Option Bytes
first_of none next = next
first_of (some given) next = some given

module _ (L : Libs) (T : Terminal) (H : Shell) (C : Calendar) (W : ℕ → World) (setup : Setup) where
  -- `format_original`; its buffer has room for the whole.
  unfoldable pub format_original : Detail → Option Bytes
  format_original d = d.recipient >>= λ recipient. some (
      codes "FROM:  "
      ++ (d.sender
          ++ (codes "\nTO:    "
              ++ (recipient
                  ++ (codes "\nDATE:  "
                      ++ (format_timestamp C (W 0).now d.timestamp setup.app.tz_hours
                            setup.app.time_format setup.app.time_format_recent 64
                          ++ (codes "\nSUBJ:  "
                              ++ (shown_subject d.subject
                                  ++ (codes "\n\n" ++ shown_subject d.body)))))))))

  -- `new_id` leads to `offer_reply_send`.
  reply_saved : Bytes → SavedEdit → Option Run
  reply_saved recipient (status, shown, s, none) = some (ended status shown s)
  reply_saved recipient (status, shown, s, some new_id) =
      offer_reply_send L T W setup (W 2) new_id recipient s >>= λ r. some (then_shown shown r)

  reply_edited : Bytes → Bytes → State → Edited → Option Run
  reply_edited recipient reference s (none, shown, d) =
      some (ended false shown (record s { disk = d }))
  reply_edited recipient reference s (some buf, shown, d) =
      reply_saved recipient (
        save_edited_draft L T W setup (W 1) buf (some reference) (some recipient) none
          (record s { disk = d }))
      >>= λ r. some (then_shown shown r)

  -- "write the reply in the editor, beside the mail"
  reply_written : Detail → Bytes → Bytes → Option Bytes → State → Option Run
  reply_written orig recipient reference subject s = do
    shown ← format_original orig
    reply_edited recipient reference s (
        edit_draft H setup.app setup.config_dir (reply_template (or_empty subject) (codes "\n"))
          (some shown) s.disk)

  -- A body from a file or a pipe.
  reply_direct : Bytes → Bytes → Bytes → Bytes → Option Bytes → State → Option Run
  reply_direct mail_id recipient reference body none s = some (
      ended false
        (note (
            codes "Reply failed. The subject of mail "
            ++ (mail_id ++ codes " cannot be decrypted. Use -s <subject>.\n"))
          ∷ [])
        s)
  reply_direct mail_id recipient reference body (some subject) s = do
    o ← send_reply L (W 1) recipient (some reference) (some subject) body s
    some (
        then_shown (note (codes "Replying to " ++ (recipient ++ codes "... ")) ∷ [])
          (sent_or_rescued L T W setup (W 2) recipient subject (some reference) body o))

  -- The subject of a draft that becomes a reply.
  unfoldable pub draft_subject : Option Bytes → Option Bytes → Option Bytes
  draft_subject written subject =
      if is_empty (or_empty written)
      then subject
      else elim (subject_problem written) [ none ↦ written | some problem ↦ subject ]

  turned_saved : Bytes → Bytes → Bytes → Drafts (Err × Option Bytes) → Option Run
  turned_saved mail_id draft_id recipient ((code, id), s, e) =
      if is_ok code
      then (offer_reply_send L T W setup (W 2) draft_id recipient s >>= λ r. some (
          then_shown
            (out (
                codes "Draft "
                ++ (draft_id ++ (codes " is now a reply to " ++ (mail_id ++ codes ".\n"))))
              ∷ [])
            r))
      else some (ended false (print_failure (codes "Draft save failed.") e) s)

  -- "turn a stored draft into this reply"
  turned : Bytes → Bytes → Bytes → Bytes → Option Bytes → Drafts (Option Detail) → Option Run
  turned mail_id draft_id recipient reference subject (none, s, e) =
      some (ended false (print_failure (codes "Draft read failed.") e) s)
  turned mail_id draft_id recipient reference subject (some d, s, e) = elim d.body [
    | none ↦ some (ended false (print_failure (codes "Draft read failed.") e) s)
    | some body ↦
        (turned_saved mail_id draft_id recipient (
            save_draft L (W 1) setup.config_dir (some draft_id) (some recipient)
              (draft_subject d.subject subject) (some reference) (c_string body) s)
          >>= λ r. some (
              then_shown
                (if is_empty (or_empty d.recipient) || equal (or_empty d.recipient) recipient
                  then []
                  else note (
                      codes "Draft "
                      ++ (draft_id ++ (codes " now goes to " ++ (recipient ++ codes ".\n"))))
                    ∷ [])
                r))
  ]

  module _ (opts : ReplyOptions) (user mail_id : Bytes) (body : Option Bytes) where
    -- The three ways of an answer.
    reply_answering : Detail → Bytes → Bytes → State → Option Run
    reply_answering orig recipient reference s =
        let subject =
          first_of opts.subject (orig.subject >>= λ words. some (reply_subject words)) in
        elim opts.draft_id [
          | some draft_id ↦
              turned mail_id draft_id recipient reference subject
                (read_draft L setup.config_dir setup.app.username draft_id s)
          | none ↦ elim body [
            | some bytes ↦ reply_direct mail_id recipient reference bytes subject s
            | none ↦ reply_written orig recipient reference subject s
          ]
        ]

    reply_possible : Detail → State → Option Bytes → Option Bytes → Option Run
    reply_possible orig s (some reference) (some recipient) =
        reply_answering orig recipient reference s
    reply_possible orig s _ _ = some (
        ended false
          (note (codes "Reply failed. Mail " ++ (mail_id ++ codes " cannot be answered.\n")) ∷ [])
          s)

    reply_fetched : Option Detail × State → Option Run
    reply_fetched (none, s) = some (ended false (print_lib_error s.ctx (codes "Reply failed.")) s)
    reply_fetched (some orig, s) = reply_possible orig s orig.mail_ref (reply_recipient user orig)

    -- From `shyake_fetch`.
    unfoldable pub reply_to_mail : State → Option Run
    unfolding reply_fetched reply_possible reply_answering turned turned_saved reply_direct
        reply_written reply_edited reply_saved
    reply_to_mail s = fetch L (W 0) mail_id s >>= reply_fetched

  -- Whether there is a body to be read, and what it is; an outer `none` is a file that cannot be opened.
  unfoldable pub direct_body : ReplyOptions → Bytes → Host → Option (Option Bytes)
  direct_body opts stdin host = elim opts.draft_id [
    | some draft_id ↦ some none
    | none ↦ elim opts.file [
      | some path ↦ (read host.disk path >>= λ body. some (some body))
      | none ↦ (if T.interactive then some none else some (some stdin))
    ]
  ]

  reply_opened : ReplyOptions → Bytes → Bytes → Host → Bytes → Bytes → Option Run
  reply_opened opts mail_id stdin host inst user = elim (direct_body opts stdin host) [
    | none ↦ some (
        refused
          (note (codes "Reply failed. Cannot open " ++ (or_empty opts.file ++ codes ".\n")) ∷ [])
          host)
    | some body ↦ prompted T setup host inst user (reply_to_mail opts user mail_id body)
  ]

  reply_asked : ReplyOptions → Bytes → Host → Bytes → Option Run
  reply_asked opts stdin host mail_id =
      elim (opts.subject >>= λ subject. subject_problem (some subject)) [
        | some problem ↦ some (refused (note (problem ++ codes "\n") ∷ []) host)
        | none ↦
            if_both T setup host setup.app.instance_url setup.app.username
              (reply_opened opts mail_id stdin host)
      ]

  -- The command `reply`.
  unfoldable pub reply_command : ReplyOptions → Bytes → Host → Option Run
  unfolding reply_asked reply_opened
  reply_command opts stdin host = elim opts.mail_id [
    | none ↦ some (
        refused
          (note (
              codes
                "A mail ID is required.\nUsage: shyake reply <id> [-s <subject>] [-d <draft>]\n")
            ∷ [])
          host)
    | some mail_id ↦ reply_asked opts stdin host mail_id
  ]

  -- From `edit_draft` in `compose`.
  compose_edited : Option Bytes → Option Bytes → Option Bytes → State → Edited → Run
  compose_edited reply_ref reply_to draft_id s (none, shown, d) =
      ended false shown (record s { disk = d })
  compose_edited reply_ref reply_to draft_id s (some buf, shown, d) =
      let (status, said, s', id) =
        save_edited_draft L T W setup (W 3) buf reply_ref reply_to draft_id
          (record s { disk = d }) in
      ended status (shown ++ said) s'

  compose_text : Bytes → Option Bytes → Option Bytes → Option Bytes → Option Bytes → State → Run
  compose_text initial shown reply_ref reply_to draft_id s =
      compose_edited reply_ref reply_to draft_id s
        (edit_draft H setup.app setup.config_dir initial shown s.disk)

  -- The mail that a reply answers: a saved one, or one of the instance.
  unfoldable pub answered_mail : FindResult → Option (Option Detail × State)
  answered_mail (none, saved, s) = some (none, s)
  answered_mail (some id, saved, s) = if saved then read_saved L id s else fetch L (W 2) id s

  compose_reply : Bytes → Bytes → Bytes → Bytes → Bytes → State → Option Run
  compose_reply draft_id reply_ref to sub body s = do
    found ← find_ref L (W 1) reply_ref s
    (o, s') ← answered_mail found
    shown ← elim o [ none ↦ some none | some d ↦ (format_original d >>= λ text. some (some text)) ]
    some
        (compose_text (reply_template sub body) shown (some reply_ref) (some to) (some draft_id) s')

  compose_draft : Bytes → Drafts (Option Detail) → Option Run
  compose_draft draft_id (none, s, e) =
      some (ended false (print_failure (codes "Draft read failed.") e) s)
  compose_draft draft_id (some d, s, e) = elim d.body [
    | none ↦ some (ended false (print_failure (codes "Draft read failed.") e) s)
    | some body ↦ elim d.reply_ref [
      | none ↦ some (
          compose_text
            (compose_template (or_empty d.recipient) (or_empty d.subject) (c_string body)) none none
            none (some draft_id) s)
      | some reply_ref ↦
          compose_reply draft_id reply_ref (or_empty d.recipient) (or_empty d.subject)
            (c_string body) s
    ]
  ]

  -- The command `compose`, with the identifier of a draft that is there.
  unfoldable pub compose_command : Option Bytes → Host → Option Run
  unfolding compose_draft compose_reply compose_text compose_edited
  compose_command none host = some (
      compose_text (compose_template [] [] []) none none none none (
        opened (fresh_ctx setup (or_empty setup.app.instance_url) (or_empty setup.app.username))
          host))
  compose_command (some draft_id) host =
      prompted T setup host (or_empty setup.app.instance_url) (or_empty setup.app.username)
        (λ s. compose_draft draft_id (read_draft L setup.config_dir setup.app.username draft_id s))
