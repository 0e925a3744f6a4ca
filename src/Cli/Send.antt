-- ===== src/Cli/Send.antt =====
-- client/src/cli/main.c: the command `send`, with a body or with a stored draft. getopt is not part of
-- the repository: its results are the options.
pub mod Draft
pub mod Exits
pub mod Rescue
use shyake.Base.{
  ℕ, Bool, true, false, not, ◌&&◌, Bytes, [], ◌∷◌, ◌++◌, List, Option, none, some, ◌>>=◌, codes,
  length, take, get_or, equal, is_empty, ltb, ◌-◌, ◌==◌, if◌then◌else◌,
}
use shyake.Os.{Disk, read}
use shyake.Context.{Err, ok}
use shyake.Client.{Libs, World, State, Outcome}
use shyake.Mail.{Detail}
use shyake.Mail.Send.{send, send_reply}
use shyake.Drafts.{Drafts, read_draft, delete_draft}
use shyake.Drafts.Saving.{save_draft}
use shyake.Compose.{subject_problem}
use shyake.Compose.Scissors.{first_line, next_line}
use shyake.Cli.Prompt.{Terminal}
use shyake.Cli.Session.{with_account}
use shyake.Cli.{
  Shown, out, note, Setup, Host, Run, host_of, ended, refused, then_shown, print_failure,
  print_send_error, is_ok, is_hopeless,
}

-- `-t`, `-s`, `-d` and the first argument that is no option.
pub record SendOptions : Type 0 where
  pub recipient : Option Bytes
  pub subject : Option Bytes
  pub draft_id : Option Bytes
  pub file : Option Bytes

-- Where `d->recipient` or `d->subject` stands in: a text that is not empty.
abbrev pub or_draft : Option Bytes → Option Bytes → Option Bytes
or_draft (some given) written = some given
or_draft none none = none
or_draft none (some []) = none
or_draft none (some (c ∷ s)) = some (c ∷ s)

-- A reply whose recipient `-t` would change.
unfoldable pub changes_reply : Option Bytes → Detail → Bool
changes_reply given d = elim d.reply_ref [
  | none ↦ false
  | some reply_ref ↦ elim given [
    | none ↦ false
    | some recipient ↦ elim d.recipient [ none ↦ false | some to ↦ not (equal recipient to) ]
  ]
]

-- The C string that a buffer holds.
unfoldable pub c_string : Bytes → Bytes
c_string [] = []
c_string (c ∷ s) = if c == 0 then [] else c ∷ c_string s

-- The first line, without a carriage return at its end.
unfoldable pub extracted_subject : Bytes → Bytes
unfolding c_string
extracted_subject body =
    let line = first_line body in
    c_string
      (if get_or line (length line - 1) 0 == b'\r' then take (length line - 1) line else line)

abbrev pub sending_draft : Bytes → Bytes → List Shown
sending_draft draft_id recipient =
    note (codes "Sending draft " ++ (draft_id ++ (codes " to " ++ (recipient ++ codes "... "))))
    ∷ []

-- The subject and the body that are sent.
abbrev pub parts_of : Option Bytes → Bytes → Bytes × Bytes
parts_of none body = (extracted_subject body, next_line body)
parts_of (some subject) body = (subject, body)

-- `W n` is the world at the n-th operation of a command.
module _ (L : Libs) (T : Terminal) (W : ℕ → World) (setup : Setup) where
  pub rescued : Bool → Drafts (Err × Option Bytes) → List Shown × State
  rescued retry ((ok, none), s, e) = (out (codes "Saved as a draft.\n") ∷ [], s)
  rescued retry ((ok, some id), s, e) = (
    out (
          codes "Saved as draft "
          ++ (id
              ++ (if retry
                  then codes ". Retry with: shyake send -d " ++ (id ++ codes "\n")
                  else codes ".\n")))
        ∷ [],
    s,
  )
  rescued retry (failure, s, e) = (print_failure (codes "Draft save failed.") e, s)

  -- `rescue_draft`
  unfoldable pub rescue_draft :
      World → Bytes → Bytes → Option Bytes → Bytes → Bool → State → List Shown × State
  unfolding rescued
  rescue_draft world recipient subject reply_ref body retry s =
      rescued retry
        (save_draft L world setup.config_dir none (some recipient) (some subject) reply_ref body s)

  -- The end of a command that sends a body: a failed send keeps what the user wrote.
  unfoldable pub sent_or_rescued : World → Bytes → Bytes → Option Bytes → Bytes → Outcome → Run
  sent_or_rescued world recipient subject reply_ref body o =
      if is_ok o.code
      then ended true (note (codes "done.\n") ∷ out (codes "Mail sent.\n") ∷ []) o.state
      else (let (shown, s) =
            rescue_draft world recipient subject reply_ref body (not (is_hopeless o.code))
              o.state in
          ended false (note (codes "\n") ∷ (print_send_error o.state.ctx o.code recipient ++ shown))
            s)

  sending : Bytes → Bytes → Bytes → State → Option Run
  sending recipient subject body s = do
    o ← send L (W 0) recipient (some subject) body s
    some (
        then_shown (note (codes "Sending mail to " ++ (recipient ++ codes "... ")) ∷ [])
          (sent_or_rescued (W 1) recipient subject none body o))

  -- From the tests of the subject.
  unfoldable pub send_parts : Bytes → Bytes × Bytes → Host → Option Run
  unfolding sending
  send_parts recipient (subject, body) host = elim (subject_problem (some subject)) [
    | some problem ↦ some (refused (note (problem ++ codes "\n") ∷ []) host)
    | none ↦ with_account T setup host (sending recipient subject body)
  ]

  -- The body: a file, or standard input.
  abbrev pub body_of : Option Bytes → Bytes → Disk → Option Bytes
  body_of none stdin d = some stdin
  body_of (some path) stdin d = read d path

  unfoldable pub send_body : SendOptions → Bytes → Host → Option Run
  send_body opts stdin host = elim opts.recipient [
    | none ↦ some (
        refused
          (note (
              codes
                "A recipient is required.\nUsage: shyake send -t <username> [-s <subject>] [<file>]\n")
            ∷ [])
          host)
    | some recipient ↦ elim (body_of opts.file stdin host.disk) [
      | none ↦ some (
          refused
            (note (
                codes "Send failed. Cannot open "
                ++ (elim opts.file [ none ↦ [] | some path ↦ path ] ++ codes ".\n"))
              ∷ [])
            host)
      | some body ↦ send_parts recipient (parts_of opts.subject body) host
    ]
  ]

  -- A sent draft is deleted.
  unfoldable pub draft_sent : Bytes → Bytes → Outcome → Run
  draft_sent draft_id recipient o =
      if is_ok o.code
      then (let (code, d) = delete_draft setup.config_dir draft_id o.state.disk in
          ended true
            (note (codes "done.\n")
              ∷ out (codes "Mail sent.\n")
              ∷ (if is_ok code
                  then out (codes "Draft " ++ (draft_id ++ codes " deleted.\n")) ∷ []
                  else []))
            (record o.state { disk = d }))
      else ended false (note (codes "\n") ∷ print_send_error o.state.ctx o.code recipient) o.state

  -- `d->reply_ref ? shyake_send_reply(…) : shyake_send(…)`
  unfoldable pub send_detail : Bytes → Option Bytes → Bytes → Bytes → State → Option Outcome
  send_detail recipient none subject body s = send L (W 0) recipient (some subject) body s
  send_detail recipient (some reply_ref) subject body s =
      send_reply L (W 0) recipient (some reply_ref) (some subject) body s

  -- The chain of tests before a draft is sent.
  unfoldable pub draft_parts :
      Bytes → Option Bytes → Option Bytes → Option Bytes → Bytes → State → Option Run
  draft_parts draft_id none subject reply_ref body s =
      some (ended false (note (codes "The draft has no recipient. Use -t <username>.\n") ∷ []) s)
  draft_parts draft_id (some recipient) none reply_ref body s =
      some (ended false (note (codes "The draft has no subject. Use -s <subject>.\n") ∷ []) s)
  draft_parts draft_id (some recipient) (some subject) reply_ref body s =
      if ltb 128 (length subject)
      then some (ended false (note (codes "The subject cannot exceed 128 bytes.\n") ∷ []) s)
      else (send_detail recipient reply_ref subject body s >>= λ o.
          some (then_shown (sending_draft draft_id recipient) (draft_sent draft_id recipient o)))

  pub draft_whole : Bytes → SendOptions → Detail → State → Bytes → Option Run
  draft_whole draft_id opts d s body =
      if changes_reply opts.recipient d
      then some (
          ended false
            (note (
                codes "Draft "
                ++ (draft_id
                    ++ (codes " is a reply to "
                        ++ (elim d.recipient [ none ↦ [] | some to ↦ to ]
                            ++ codes ". -t cannot change that.\n"))))
              ∷ [])
            s)
      else draft_parts draft_id (or_draft opts.recipient d.recipient)
          (or_draft opts.subject d.subject) d.reply_ref body s

  -- `strlen(d->body)`: a body with a NUL ends there.
  pub draft_read : Bytes → SendOptions → Drafts (Option Detail) → Option Run
  draft_read draft_id opts (none, s, e) =
      some (ended false (print_failure (codes "Draft read failed.") e) s)
  draft_read draft_id opts (some d, s, e) = elim d.body [
    | none ↦ some (ended false (print_failure (codes "Draft read failed.") e) s)
    | some body ↦ draft_whole draft_id opts d s (c_string body)
  ]

  -- `send -d`, with the library open.
  unfoldable pub send_draft : Bytes → SendOptions → State → Option Run
  unfolding draft_read draft_whole
  send_draft draft_id opts s =
      draft_read draft_id opts (read_draft L setup.config_dir setup.app.username draft_id s)

  -- The command.
  unfoldable pub send_command : SendOptions → Bytes → Host → Option Run
  send_command opts stdin host = elim opts.draft_id [
    | some draft_id ↦ with_account T setup host (send_draft draft_id opts)
    | none ↦ send_body opts stdin host
  ]
