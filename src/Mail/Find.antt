-- ===== src/Mail/Find.antt =====
-- client/src/lib/mail.c: `shyake_find_ref`, the mail that a reference names.
pub mod Search
pub mod Found
use shyake.Base.{
  ℕ, Bool, true, false, not, Bytes, [], ◌∷◌, ◌++◌, List, Option, none, some, ◌>>=◌, codes, snprintf,
  equal, is_empty, if◌then◌else◌,
}
use shyake.Os.{Disk, load_file}
use shyake.Context.{Ctx, path_in, or_empty}
use shyake.Client.{Libs, World, State, without_error}
use shyake.Mail.{is_ref, json_ref}
use shyake.Mail.Lists.{MailEntry, check}
use shyake.Mail.Saved.{is_json, stem}

-- `r && strcmp(r, ref) == 0`
abbrev pub is_same_ref : Option Bytes → Bytes → Bool
is_same_ref none reference = false
is_same_ref (some r) reference = equal r reference

-- The loop of `find_ref_in_box`.
unfoldable pub find_entry : Bytes → List MailEntry → Option Bytes
find_entry reference [] = none
find_entry reference (e ∷ entries) =
    let later = find_entry reference entries in
    if is_same_ref e.mail_ref reference then some e.mail_id else later

-- The mail, whether it is a saved one, and the state.
abbrev pub FindResult : Type 0
FindResult = Option Bytes × Bool × State

module _ (L : Libs) where
  -- The reference of a saved file.
  unfoldable pub file_ref : Bytes → Disk → Bytes → Option Bytes
  file_ref dir_path d name = load_file (snprintf 768 (dir_path ++ (b'/' ∷ name))) d >>= λ raw.
      L.json.parse raw >>= λ json. json_ref L json

  -- The loop of `find_ref_in_saved`.
  unfoldable pub find_name : Bytes → Disk → Bytes → List Bytes → Option Bytes
  find_name dir_path d reference [] = none
  find_name dir_path d reference (name ∷ names) =
      let later = find_name dir_path d reference names in
      if is_json name
      then (if is_same_ref (file_ref dir_path d name) reference then some (stem name) else later)
      else later

  module _ (W : World) (reference : Bytes) where
    -- `find_ref_in_saved`
    unfoldable pub find_ref_in_saved : State → Option Bytes
    find_ref_in_saved s =
        let dir_path = path_in s.ctx.config_dir (codes "saved") in
        W.readdir dir_path >>= λ names. find_name dir_path s.disk reference names

    -- `find_ref_in_box`
    unfoldable pub find_ref_in_box : Bytes → State → Option (Option Bytes × State)
    find_ref_in_box type s = do
      (list, s') ← check L W type s
      some (list >>= find_entry reference, s')

    -- `if (!id)` and what follows.
    find_elsewhere : Option Bytes × State → FindResult
    find_elsewhere (some id, s) = (some id, false, without_error s)
    find_elsewhere (none, s) = elim (find_ref_in_saved s) [
      | none ↦ (none, false, without_error s)
      | some id ↦ (some id, true, without_error s)
    ]

    find_sent : Option Bytes × State → Option FindResult
    find_sent (some id, s) = some (find_elsewhere (some id, s))
    find_sent (none, s) =
        find_ref_in_box (codes "sent") s >>= λ answer. some (find_elsewhere answer)

    -- `shyake_find_ref`; the outer `none` where a null pointer is followed.
    unfoldable pub find_ref : State → Option FindResult
    unfolding find_sent find_elsewhere
    find_ref s =
        if not (is_ref reference)
        then some (none, false, s)
        else if is_empty (or_empty s.ctx.instance_url)
        then some (find_elsewhere (none, s))
        else (find_ref_in_box (codes "inbox") s >>= find_sent)
