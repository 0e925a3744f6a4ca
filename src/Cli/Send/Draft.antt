-- ===== src/Cli/Send/Draft.antt =====
-- What of a stored draft the command `send -d` of client/src/cli/main.c sends.
use shyake.Base.{
  ℕ, ◌≡◌, ◌≢◌, refl, ◌⊎◌, inl, inr, Bool, true, false, not, Bytes, [], ◌∷◌, Option, none, some,
  equal, equal_iff, ◌==◌, if◌then◌else◌, arith,
}
use shyake.Client.{Libs, World, State, Outcome}
use shyake.Mail.{Detail}
use shyake.Mail.Send.{send, send_reply}
use shyake.Drafts.{read_draft}
use shyake.Cli.Send.{SendOptions, c_string, or_draft, changes_reply, send_detail}
use shyake.Cli.Prompt.{Terminal}
use shyake.Cli.{Setup}

-- The body is the text up to its first NUL, or all of it.
pub data IsCString : Bytes → Bytes → Type 0 where
  whole : IsCString [] []
  ended : (rest : Bytes) → IsCString [] (0 ∷ rest)
  next : (c : ℕ) (body text : Bytes) → c ≢ 0 → IsCString body text → IsCString (c ∷ body) (c ∷ text)

pub c_string-IsCString : (text : Bytes) → IsCString (c_string text) text
unfolding c_string
c_string-IsCString [] = whole
c_string-IsCString (c ∷ text) = go (c_string-IsCString text) (c == 0) refl
  where
    go :
        IsCString (c_string text) text
        → (b : Bool) → (c == 0) ≡ b
        → IsCString (if b then [] else c ∷ c_string text) (c ∷ text)
    go later true e = let is_zero : c ≡ 0 = ground (arith, e) in rw is_zero (ended text)
    go later false e = next c (c_string text) text (ground (arith, e)) later

-- What the option gives, or without it what the draft has, which is not empty.
abbrev pub IsChosen : Option Bytes → Option Bytes → Bytes → Type 0
IsChosen given written v = (given ≡ some v) ⊎ ((given ≡ none) × (written ≡ some v) × (v ≢ []))

pub or_draft-IsChosen :
    (given written : Option Bytes) (v : Bytes)
    → or_draft given written ≡ some v
    → IsChosen given written v
or_draft-IsChosen (some given) written v h = inl h
or_draft-IsChosen none none v h = cc h
or_draft-IsChosen none (some []) v h = cc h
or_draft-IsChosen none (some (c ∷ s)) v h = inr (refl, h, λ e. cc)

-- The recipient that is given for a draft of a reply is the draft's.
abbrev pub SameReply : Option Bytes → Detail → Type 0
SameReply given d =
    (reply_ref recipient to : Bytes)
    → d.reply_ref ≡ some reply_ref
    → given ≡ some recipient
    → d.recipient ≡ some to
    → recipient ≡ to

pub changes_reply-SameReply :
    (given : Option Bytes) (d : Detail) → changes_reply given d ≡ false → SameReply given d
unfolding changes_reply
changes_reply-SameReply given d h reply_ref recipient to e e1 e2 =
    (equal_iff recipient to).0 (not_false (equal recipient to) (rw (e, e1, e2) at h))
  where
    not_false : (b : Bool) → not b ≡ false → b ≡ true
    not_false true h = refl
    not_false false h = cc h

module _ (L : Libs) (T : Terminal) (W : ℕ → World) (setup : Setup) where
  -- What is sent is the draft as it was read: its body up to a NUL, its recipient and subject where no
  -- others are given, and its reference, with the recipient that the reply goes to.
  pub record SendsDraft (draft_id : Bytes) (opts : SendOptions) (s : State)
      (recipient subject body : Bytes) (reply_ref : Option Bytes) (s' : State) : Type 0 where
    pub detail : Detail
    pub text : Bytes
    pub is_read : (read_draft L setup.config_dir setup.app.username draft_id s).0 ≡ some detail
    pub is_state : (read_draft L setup.config_dir setup.app.username draft_id s).1 ≡ s'
    pub has_text : detail.body ≡ some text
    pub is_body : IsCString body text
    pub is_recipient : IsChosen opts.recipient detail.recipient recipient
    pub is_subject : IsChosen opts.subject detail.subject subject
    pub is_reply : detail.reply_ref ≡ reply_ref
    pub same_reply : SameReply opts.recipient detail

  -- The send of it: a reply where there is a reference, a mail of its own where there is none.
  pub data IsSend (recipient subject body : Bytes) (s : State)
      : Option Bytes → Outcome → Type 0 where
    mail :
        (o : Outcome)
        → send L (W 0) recipient (some subject) body s ≡ some o
        → IsSend recipient subject body s none o
    reply :
        (reply_ref : Bytes) (o : Outcome)
        → send_reply L (W 0) recipient (some reply_ref) (some subject) body s ≡ some o
        → IsSend recipient subject body s (some reply_ref) o

  pub send_detail-IsSend :
      (recipient subject body : Bytes) (reply_ref : Option Bytes) (s : State) (o : Outcome)
      → send_detail L T W setup recipient reply_ref subject body s ≡ some o
      → IsSend recipient subject body s reply_ref o
  unfolding send_detail
  send_detail-IsSend recipient subject body none s o h = mail o h
  send_detail-IsSend recipient subject body (some reply_ref) s o h = reply reply_ref o h
