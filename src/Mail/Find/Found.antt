-- ===== src/Mail/Find/Found.antt =====
-- What `shyake_find_ref` of client/src/lib/mail.c finds.
use shyake.Base.{
  ◌≡◌, ◌≢◌, ◌⊎◌, true, false, Bytes, [], List, Option, none, some, ◌>>=◌, codes, is_empty,
}
use mathlib.Core.List.{Memᴰ}
use shyake.Context.{path_in, or_empty}
use shyake.Client.{Libs, World, State, without_error}
use shyake.Mail.Lists.{MailEntry, check}
use shyake.Mail.Saved.{is_json}
use shyake.Mail.Find.{find_entry, FindResult, file_ref}
use shyake.Mail.Find.Search.{InList, InSaved}

module _ (L : Libs) where
  module _ (W : World) (reference : Bytes) where
    -- The mailboxes that were listed before the mail was found: the inbox of the state at first, and the sent mails
    -- behind it, where the inbox does not have it. A listing that failed has none.
    pub data Listed (s : State) : State → Option (List MailEntry) → Type 0 where
      inbox :
          (after : State) (list : Option (List MailEntry))
          → is_empty (or_empty s.ctx.instance_url) ≡ false
          → check L W (codes "inbox") s ≡ some (list, after)
          → Listed s after list
      sent :
          (middle after : State) (first list : Option (List MailEntry))
          → is_empty (or_empty s.ctx.instance_url) ≡ false
          → check L W (codes "inbox") s ≡ some (first, middle)
          → (first >>= find_entry reference) ≡ none
          → check L W (codes "sent") middle ≡ some (list, after)
          → Listed s after list

    -- The mail stands with this reference in the inbox or among the sent mails, as the instance listed them.
    abbrev pub FoundInBox : State → Bytes → Type 0
    FoundInBox s id =
        (after : State) × (list : List MailEntry) × Listed s after (some list)
        × InList reference id list

    -- The state in which the saved files are looked through: the first one, without an instance, or the one behind
    -- both mailboxes, neither of which has the mail.
    abbrev pub Unlisted : State → State → Type 0
    Unlisted s t =
        ((is_empty (or_empty s.ctx.instance_url) ≡ true) × (t ≡ s))
        ⊎ ((middle : State) × (first : Option (List MailEntry)) × (list : Option (List MailEntry))
            × (check L W (codes "inbox") s ≡ some (first, middle))
            × (check L W (codes "sent") middle ≡ some (list, t))
            × ((first >>= find_entry reference) ≡ none)
            × ((list >>= find_entry reference) ≡ none))

    -- It was saved, in a file with this reference.
    abbrev pub FoundSaved : State → Bytes → Type 0
    FoundSaved t id =
        (names : List Bytes) × (W.readdir (path_in t.ctx.config_dir (codes "saved")) ≡ some names)
        × InSaved L (path_in t.ctx.config_dir (codes "saved")) t.disk reference id names

    -- No saved file that `readdir` names has the reference.
    abbrev pub NotSaved : State → Type 0
    NotSaved s =
        let dir_path = path_in s.ctx.config_dir (codes "saved") in
        (names : List Bytes) (name : Bytes)
        → W.readdir dir_path ≡ some names
        → Memᴰ name names
        → is_json name ≡ true
        → file_ref L dir_path s.disk name ≢ some reference

    abbrev pub Found : State → FindResult → Type 0
    Found s (answer, saved, after) =
        (after.ctx.last_error ≡ [])
        × ((id : Bytes)
            → answer ≡ some id
            → ((saved ≡ false) × FoundInBox s id)
              ⊎ ((saved ≡ true) × (t : State) × Unlisted s t × FoundSaved t id))
        × (answer ≡ none → (t : State) × Unlisted s t × (after ≡ without_error t) × NotSaved t)
