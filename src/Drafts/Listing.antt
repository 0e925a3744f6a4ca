-- ===== src/Drafts/Listing.antt =====
-- client/src/cli/drafts.c: `cli_list_drafts`, whose entries `qsort` puts in the order of their
-- identifiers.
use shyake.Base.{
  ℕ, suc, Bytes, [], ◌∷◌, ◌++◌, List, Option, none, some, ◌>>=◌, codes, snprintf, is_empty, ltb,
  ◌==◌, if◌then◌else◌,
}
use shyake.Base.Integer.{ℤ, pos, negsuc}
use shyake.Base.Decimal.{show}
use shyake.Os.{Disk, read}
use shyake.Context.{Ctx, path_in, or_empty}
use shyake.Crypto.Own.{selfdec_new, selfdec_key}
use shyake.Update.Version.{digits_from}
use shyake.Client.{Libs, World, State}
use shyake.Mail.Saved.{SavedEntry}
use shyake.Drafts.{Drafts, numeric_draft_id, decrypt_field, field, number_field, unlock_error}

-- `draft_entry_cmp`. The identifiers are digits.
unfoldable pub draft_entry_cmp : SavedEntry → SavedEntry → ℤ
draft_entry_cmp a b =
    let ia = digits_from 0 a.mail_id in
    let ib = digits_from 0 b.mail_id in
    if ltb ib ia then pos 1 else if ltb ia ib then negsuc 0 else pos 0

-- The first pass, which counts.
unfoldable pub count_drafts : List Bytes → ℕ
count_drafts [] = 0
count_drafts (name ∷ names) =
    let rest = count_drafts names in
    elim (numeric_draft_id name) [ none ↦ rest | some id ↦ suc rest ]

-- `rec ? rec : strdup("(decryption failed)")`
abbrev shown_field : Option Bytes → Bytes
shown_field none = codes "(decryption failed)"
shown_field (some words) = words

module _ (L : Libs) where
  -- The entry of a draft; `none` where it is passed over.
  unfoldable pub draft_entry : Option Bytes → Bytes → ℕ → L.json.Value → Option SavedEntry
  draft_entry username ksk id json = do
    enc_key ← field L json (codes "enc_key")
    let sym = selfdec_key L ksk enc_key
    some (record {
      mail_id = snprintf 32 (show id);
      sender = if is_empty (or_empty username) then codes "(me)" else or_empty username;
      recipient =
          shown_field (sym >>= λ key. decrypt_field L key (field L json (codes "enc_recipient")));
      subject =
          shown_field (sym >>= λ key. decrypt_field L key (field L json (codes "enc_subject")));
      timestamp = number_field L json (codes "modified");
      created = number_field L json (codes "created");
      size = elim (L.json.item json (codes "size")) [ none ↦ pos 0 | some n ↦ L.json.valueint n ];
    })

  -- A round of the second pass.
  unfoldable pub draft_at : Bytes → Disk → Option Bytes → Bytes → Bytes → Option SavedEntry
  draft_at dir_path d username ksk name = do
    id ← numeric_draft_id name
    raw ← read d (snprintf 768 (dir_path ++ (b'/' ∷ name)))
    json ← L.json.parse raw
    draft_entry username ksk id json

  unfoldable pub draft_entries : Bytes → Disk → Option Bytes → Bytes → List Bytes → List SavedEntry
  draft_entries dir_path d username ksk [] = []
  draft_entries dir_path d username ksk (name ∷ names) =
      let rest = draft_entries dir_path d username ksk names in
      elim (draft_at dir_path d username ksk name) [ none ↦ rest | some entry ↦ entry ∷ rest ]

  module _ (W : World)
      (qsort : (SavedEntry → SavedEntry → ℤ) → List SavedEntry → List SavedEntry) where
    drafts_unlocked :
        Bytes
        → Option Bytes
        → State
        → List Bytes
        → Option Bytes × Ctx
        → Drafts (Option (List SavedEntry))
    drafts_unlocked dir username s names (none, ctx) =
        (none, record s { ctx = ctx }, unlock_error L ctx.last_error)
    drafts_unlocked dir username s names (some ksk, ctx) = (
      some (
          qsort draft_entry_cmp
            (draft_entries (path_in dir (codes "drafts")) s.disk username ksk names)),
      record s { ctx = ctx },
      [],
    )

    drafts_named :
        Bytes → Option Bytes → State → Option (List Bytes) → Drafts (Option (List SavedEntry))
    drafts_named dir username s none = (some [], s, [])
    drafts_named dir username s (some names) =
        if count_drafts names == 0
        then (some [], s, [])
        else drafts_unlocked dir username s names (selfdec_new L s)

    -- `cli_list_drafts`
    unfoldable pub list_drafts : Bytes → Option Bytes → State → Drafts (Option (List SavedEntry))
    unfolding drafts_named drafts_unlocked
    list_drafts dir username s =
        drafts_named dir username s (W.readdir (path_in dir (codes "drafts")))
