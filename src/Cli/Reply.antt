-- ===== src/Cli/Reply.antt =====
-- client/src/cli/main.c: the commands `compose` and `reply`.
pub mod Kept
pub mod Commands
use shyake.Base.{
  ℕ, suc, Bool, true, false, not, ◌&&◌, ◌||◌, Bytes, [], ◌∷◌, ◌++◌, List, Option, none, some, ◌>>=◌,
  codes, snprintf, length, equal, is_empty, ltb, ◌==◌, if◌then◌else◌,
}
use shyake.Context.{Err, ok, or_empty, or_null}
use shyake.Client.{Libs, World, State, Outcome}
use shyake.Mail.{Detail, reply_recipient}
use shyake.Mail.Read.{fetch}
use shyake.Mail.Saved.{read_saved}
use shyake.Mail.Find.{FindResult, find_ref}
use shyake.Mail.Lists.{shown_subject}
use shyake.Mail.Send.{send_reply}
use shyake.Drafts.{Drafts, read_draft, delete_draft}
use shyake.Drafts.Saving.{save_draft}
use shyake.Display.Timestamp.{Calendar, format_timestamp}
use shyake.Compose.{all_space, subject_problem, reply_subject}
use shyake.Compose.Template.{Template, compose_template, reply_template, parse_compose_buffer}
use shyake.Cli.Prompt.{Terminal, ask_yes}
use shyake.Cli.Session.{with_account, with_local}
use shyake.Cli.Send.{c_string, rescue_draft, sent_or_rescued}
use shyake.Cli.Editor.{Shell, Edited, edit_draft}
use shyake.Cli.{
  Shown, out, note, Setup, Host, Run, host_of, ended, refused, then_shown, print_failure,
  print_lib_error, print_send_error, is_ok, is_hopeless,
}

-- `while (*body == '\n' || *body == '\r') body++`
unfoldable pub skip_newlines : Bytes → Bytes
skip_newlines [] = []
skip_newlines (c ∷ s) = if c == b'\n' || c == b'\r' then skip_newlines s else c ∷ s

-- What `save_edited_draft` leaves: the status, what was printed, the state and `*out_id`.
abbrev pub SavedEdit : Type 0
SavedEdit = Bool × List Shown × State × Option Bytes

-- The two warnings.
unfoldable pub edit_warnings : Template → Option Bytes → List Shown
edit_warnings t reply_to =
    elim t.subject as (λ _. List Shown) [
      | none ↦ []
      | some subject ↦
          (if ltb 128 (length subject)
            then note (codes "WARNING: The subject exceeds 128 bytes. Sending will fail.\n") ∷ []
            else [])
    ]
    ++ elim reply_to as (λ _. List Shown) [
      | none ↦ []
      | some keeps ↦
          (if is_empty (or_empty t.to) || equal (or_empty t.to) keeps
            then []
            else note (codes "A reply keeps its recipient: " ++ (keeps ++ codes ".\n")) ∷ [])
    ]

-- `to = (char *)reply_to`
abbrev pub kept_recipient : Option Bytes → Option Bytes → Option Bytes
kept_recipient none to = to
kept_recipient (some reply_to) to = some reply_to

module _ (L : Libs) (T : Terminal) (W : ℕ → World) (setup : Setup) where
  -- `new_id ? new_id : draft_id`
  abbrev pub id_of : Option Bytes → Option Bytes → Option Bytes
  id_of none draft_id = draft_id
  id_of (some new_id) draft_id = some new_id

  pub edit_saved : Option Bytes → Drafts (Err × Option Bytes) → SavedEdit
  edit_saved draft_id ((code, new_id), s, e) =
      if is_ok code
      then (
        true,
        out (codes "Draft " ++ (or_null (id_of new_id draft_id) ++ codes " saved.\n")) ∷ [],
        s,
        id_of new_id draft_id,
      )
      else (false, print_failure (codes "Draft save failed.") e, s, none)

  pub edit_parsed :
      World → Option Bytes → Option Bytes → Option Bytes → State → Option Template → SavedEdit
  edit_parsed world reply_ref reply_to draft_id s none =
      (false, note (codes "Missing '---' separator. Draft aborted.\n") ∷ [], s, none)
  edit_parsed world reply_ref reply_to draft_id s (some t) =
      let body = skip_newlines t.body in
      if all_space body
      then (false, note (codes "Draft aborted (empty body).\n") ∷ [], s, none)
      else (let (status, shown, s', id) = edit_saved draft_id (
            save_draft L world setup.config_dir draft_id (kept_recipient reply_to t.to) t.subject
              reply_ref body s) in
          (status, edit_warnings t reply_to ++ shown, s', id))

  -- `save_edited_draft`
  unfoldable pub save_edited_draft :
      World → Bytes → Option Bytes → Option Bytes → Option Bytes → State → SavedEdit
  unfolding edit_parsed edit_saved
  save_edited_draft world buf reply_ref reply_to draft_id s =
      edit_parsed world reply_ref reply_to draft_id s (parse_compose_buffer buf)

  -- The end of `offer_reply_send`.
  unfoldable pub reply_offered : Bytes → Bytes → Outcome → Run
  reply_offered draft_id recipient o =
      if is_ok o.code
      then (let (code, d) = delete_draft setup.config_dir draft_id o.state.disk in
          ended true
            (note (codes "done.\n")
              ∷ out (codes "Mail sent.\n")
              ∷ (if is_ok code
                  then out (codes "Draft " ++ (draft_id ++ codes " deleted.\n")) ∷ []
                  else []))
            (record o.state { disk = d }))
      else ended false
          (note (codes "\n")
            ∷ (print_send_error o.state.ctx o.code recipient
                ++ out (
                    codes "Draft "
                    ++ (draft_id
                        ++ (if is_hopeless o.code
                            then codes " is kept.\n"
                            else codes " is kept. Retry with: shyake send -d "
                              ++ (draft_id ++ codes "\n"))))
                  ∷ []))
          o.state

  offer_sent : World → Bytes → Bytes → Bytes → Bytes → Option Bytes → State → Option Run
  offer_sent world draft_id recipient reply_ref body subject s = elim (subject_problem subject) [
    | some problem ↦ some (
        ended false
          (note (problem ++ (codes " Edit it with: shyake compose " ++ (draft_id ++ codes "\n")))
            ∷ [])
          s)
    | none ↦
        (send_reply L world recipient (some reply_ref) subject body s >>= λ o. some (
          then_shown (note (codes "Replying to " ++ (recipient ++ codes "... ")) ∷ [])
            (reply_offered draft_id recipient o)))
  ]

  offer_read : World → Bytes → Bytes → Drafts (Option Detail) → Option Run
  offer_read world draft_id recipient (none, s, e) =
      some (ended false (print_failure (codes "Draft read failed.") e) s)
  offer_read world draft_id recipient (some d, s, e) = elim d.body [
    | none ↦ some (ended false (print_failure (codes "Draft read failed.") e) s)
    | some body ↦ elim d.reply_ref [
      | none ↦ some (ended false (print_failure (codes "Draft read failed.") e) s)
      | some reply_ref ↦ offer_sent world draft_id recipient reply_ref (c_string body) d.subject s
    ]
  ]

  -- `offer_reply_send`
  unfoldable pub offer_reply_send : World → Bytes → Bytes → State → Option Run
  unfolding offer_read offer_sent
  offer_reply_send world draft_id recipient s =
      if ask_yes T (snprintf 320 (codes "Send it to " ++ (recipient ++ codes " now? [y/N] ")))
      then offer_read world draft_id recipient
          (read_draft L setup.config_dir setup.app.username draft_id s)
      else some (
          ended true
            (out (codes "Not sent. Send it with: shyake send -d " ++ (draft_id ++ codes "\n")) ∷ [])
            s)
