-- ===== src/Drafts.antt =====
-- client/src/cli/drafts.c: drafts, sealed for the user alone, as files `drafts/<id>.json`. A file that
-- is there can be removed, and a descriptor that was opened can be written to.
pub mod Identifier
pub mod Listing
pub mod Saving
pub mod RoundTrip
use shyake.Base.{
  ◌≡◌, refl, ℕ, zero, suc, ◌+◌, ◌-◌, ◌*◌, Bool, true, false, not, ◌&&◌, Bytes, [], ◌∷◌, ◌++◌, List,
  Option, none, some, ◌>>=◌, ◌>>◌, require, codes, snprintf, length, equal, is_empty, ltb, leb,
  ◌==◌, if◌then◌else◌,
}
use shyake.Base.Integer.{ℤ, pos}
use shyake.Os.{Disk, read, delete}
use shyake.Context.{Ctx, Err, ok, err, err_not_found, path_in, or_empty}
use shyake.Crypto.Seal.{decrypt_from_b64}
use shyake.Crypto.Own.{selfdec_new, selfdec_key}
use shyake.Update.Version.{digits_from}
use shyake.Client.{Libs, World, State}
use shyake.Mail.{Detail}
use shyake.Mail.Saved.{is_json, stem}

-- `snprintf(path, 640, "%s/drafts/%s.json", …)`
abbrev pub draft_path : Bytes → Bytes → Bytes
draft_path dir draft_id = snprintf 640 (dir ++ (codes "/drafts/" ++ (draft_id ++ codes ".json")))

-- `drafts_set_error`, on the formatted text.
abbrev pub draft_error : Bytes → Bytes
draft_error text = snprintf 256 text

unfoldable pub all_digits : Bytes → Bool
all_digits [] = true
all_digits (c ∷ s) = (leb b'0' c && leb c b'9') && all_digits s

-- `numeric_draft_id`; -1 is `none`. `atol` stops at the largest `long`.
unfoldable pub numeric_draft_id : Bytes → Option ℕ
numeric_draft_id name =
    if is_json name && all_digits (stem name)
    then (let id = digits_from 0 (stem name) in
        some (if ltb id 9223372036854775807 then id else 9223372036854775807))
    else none

-- The loop of `max_draft_id`.
unfoldable pub max_id : ℕ → List Bytes → ℕ
max_id best [] = best
max_id best (name ∷ names) = elim (numeric_draft_id name) [
  | none ↦ max_id best names
  | some id ↦ (max_id (if ltb best id then id else best) names)
]

-- What an operation gives, the state behind it, and `drafts_error`.
abbrev pub Drafts : Type 0 → Type 0
Drafts A = A × State × Bytes

module _ (L : Libs) where
  -- `decrypt_field`
  unfoldable pub decrypt_field : Bytes → Option Bytes → Option Bytes
  decrypt_field sym none = some []
  decrypt_field sym (some []) = some []
  decrypt_field sym (some (c ∷ enc)) = decrypt_from_b64 L.evp L.blocks sym (c ∷ enc)

  -- `jrec ? jrec->valuestring : NULL`
  unfoldable pub field : L.json.Value → Bytes → Option Bytes
  field json key = L.json.item json key >>= L.json.string

  -- `jupd ? (i64)jupd->valuedouble : 0`
  unfoldable pub number_field : L.json.Value → Bytes → ℤ
  number_field json key = elim (L.json.item json key >>= L.json.valuedouble) [
    | none ↦ pos 0
    | some n ↦ n
  ]

  -- `enc_reply_to`, where it is a string that is not empty.
  unfoldable pub open_reply : Bytes → Option Bytes → Option (Option Bytes)
  open_reply sym none = some none
  open_reply sym (some []) = some none
  open_reply sym (some (c ∷ enc)) =
      decrypt_from_b64 L.evp L.blocks sym (c ∷ enc) >>= λ re. some (some re)

  -- The body, where it is wanted.
  unfoldable pub open_body : Bool → Bytes → Bytes → Option (Option Bytes)
  open_body false sym enc = some none
  open_body true sym enc = decrypt_from_b64 L.evp L.blocks sym enc >>= λ bdy. some (some bdy)

  -- The fields of a draft, opened; `none` is "Cannot decrypt draft".
  unfoldable pub open_draft :
      Option Bytes → Bytes → Bool → L.json.Value → Bytes → Bytes → Bytes → Option Detail
  open_draft username draft_id decrypt_body json ksk enc_key enc_body = do
    sym ← selfdec_key L ksk enc_key
    bdy ← open_body decrypt_body sym enc_body
    re ← open_reply sym (field json (codes "enc_reply_to"))
    some (record {
      mail_id = draft_id;
      sender = if is_empty (or_empty username) then codes "(me)" else or_empty username;
      recipient = decrypt_field sym (field json (codes "enc_recipient"));
      subject = decrypt_field sym (field json (codes "enc_subject"));
      body = bdy;
      timestamp = number_field json (codes "modified");
      created = number_field json (codes "created");
      size = elim (L.json.item json (codes "size")) [ none ↦ pos 0 | some n ↦ L.json.valueint n ];
      mail_ref = none;
      reply_ref = re;
    })

  draft_opened : Bytes → State → Option Detail → Drafts (Option Detail)
  draft_opened draft_id s none =
      (none, s, draft_error (codes "Cannot decrypt draft " ++ (draft_id ++ codes ".")))
  draft_opened draft_id s (some detail) = (some detail, s, [])

  -- `(e && e[0]) ? e : "Cannot unlock the secret key."`
  abbrev pub unlock_error : Bytes → Bytes
  unlock_error last =
      draft_error (if is_empty last then codes "Cannot unlock the secret key." else last)

  draft_unlocked :
      Option Bytes
      → Bytes
      → Bool
      → State
      → L.json.Value
      → Bytes
      → Bytes
      → Option Bytes × Ctx
      → Drafts (Option Detail)
  draft_unlocked username draft_id decrypt_body s json enc_key enc_body (none, ctx) =
      (none, record s { ctx = ctx }, unlock_error ctx.last_error)
  draft_unlocked username draft_id decrypt_body s json enc_key enc_body (some ksk, ctx) =
      draft_opened draft_id (record s { ctx = ctx })
        (open_draft username draft_id decrypt_body json ksk enc_key enc_body)

  draft_keyed :
      Option Bytes
      → Bytes
      → Bool
      → State
      → L.json.Value
      → Option Bytes
      → Option Bytes
      → Drafts (Option Detail)
  draft_keyed username draft_id decrypt_body s json (some enc_key) (some enc_body) =
      draft_unlocked username draft_id decrypt_body s json enc_key enc_body (selfdec_new L s)
  draft_keyed username draft_id decrypt_body s json _ _ =
      (none, s, draft_error (codes "Draft " ++ (draft_id ++ codes " is corrupt.")))

  draft_parsed : Option Bytes → Bytes → Bool → State → Option L.json.Value → Drafts (Option Detail)
  draft_parsed username draft_id decrypt_body s none =
      (none, s, draft_error (codes "Draft " ++ (draft_id ++ codes " is corrupt.")))
  draft_parsed username draft_id decrypt_body s (some json) =
      draft_keyed username draft_id decrypt_body s json (field json (codes "enc_key"))
        (field json (codes "enc_body"))

  draft_raw : Option Bytes → Bytes → Bool → State → Option Bytes → Drafts (Option Detail)
  draft_raw username draft_id decrypt_body s none =
      (none, s, draft_error (codes "Draft " ++ (draft_id ++ codes " not found.")))
  draft_raw username draft_id decrypt_body s (some raw) =
      draft_parsed username draft_id decrypt_body s (L.json.parse raw)

  -- `parse_draft_json`, with `drafts_error` as it was cleared.
  unfoldable pub parse_draft_json :
      Bytes → Option Bytes → Bytes → Bool → State → Drafts (Option Detail)
  unfolding draft_raw draft_parsed draft_keyed draft_unlocked draft_opened
  parse_draft_json dir username draft_id decrypt_body s =
      draft_raw username draft_id decrypt_body s (read s.disk (draft_path dir draft_id))

  opened_disk :
      (draft_id : Bytes) (s : State) (made : Option Detail)
      → (draft_opened draft_id s made).1.disk ≡ s.disk
  unfolding draft_opened
  opened_disk draft_id s none = refl
  opened_disk draft_id s (some detail) = refl

  unlocked_disk :
      (username : Option Bytes) (draft_id : Bytes) (decrypt_body : Bool) (s : State)
      (json : L.json.Value) (enc_key enc_body : Bytes) (unlocked : Option Bytes × Ctx)
      → (draft_unlocked username draft_id decrypt_body s json enc_key enc_body unlocked).1.disk
        ≡ s.disk
  unfolding draft_unlocked
  unlocked_disk username draft_id decrypt_body s json enc_key enc_body (none, ctx) = refl
  unlocked_disk username draft_id decrypt_body s json enc_key enc_body (some ksk, ctx) =
      opened_disk draft_id (record s { ctx = ctx })
        (open_draft username draft_id decrypt_body json ksk enc_key enc_body)

  keyed_disk :
      (username : Option Bytes) (draft_id : Bytes) (decrypt_body : Bool) (s : State)
      (json : L.json.Value) (enc_key enc_body : Option Bytes)
      → (draft_keyed username draft_id decrypt_body s json enc_key enc_body).1.disk ≡ s.disk
  unfolding draft_keyed
  keyed_disk username draft_id decrypt_body s json (some enc_key) (some enc_body) =
      unlocked_disk username draft_id decrypt_body s json enc_key enc_body (selfdec_new L s)
  keyed_disk username draft_id decrypt_body s json (some enc_key) none = refl
  keyed_disk username draft_id decrypt_body s json none enc_body = refl

  parsed_disk :
      (username : Option Bytes) (draft_id : Bytes) (decrypt_body : Bool) (s : State)
      (json : Option L.json.Value)
      → (draft_parsed username draft_id decrypt_body s json).1.disk ≡ s.disk
  unfolding draft_parsed
  parsed_disk username draft_id decrypt_body s none = refl
  parsed_disk username draft_id decrypt_body s (some json) =
      keyed_disk username draft_id decrypt_body s json (field json (codes "enc_key"))
        (field json (codes "enc_body"))

  raw_disk :
      (username : Option Bytes) (draft_id : Bytes) (decrypt_body : Bool) (s : State)
      (raw : Option Bytes)
      → (draft_raw username draft_id decrypt_body s raw).1.disk ≡ s.disk
  unfolding draft_raw
  raw_disk username draft_id decrypt_body s none = refl
  raw_disk username draft_id decrypt_body s (some raw) =
      parsed_disk username draft_id decrypt_body s (L.json.parse raw)

  -- `cli_read_draft`
  unfoldable pub read_draft : Bytes → Option Bytes → Bytes → State → Drafts (Option Detail)
  read_draft dir username draft_id s = parse_draft_json dir username draft_id true s

  pub read_draft_disk :
      (dir : Bytes) (username : Option Bytes) (draft_id : Bytes) (s : State)
      → (read_draft dir username draft_id s).1.disk ≡ s.disk
  unfolding read_draft parse_draft_json
  read_draft_disk dir username draft_id s =
      raw_disk username draft_id true s (read s.disk (draft_path dir draft_id))

-- `cli_delete_draft`
unfoldable pub delete_draft : Bytes → Bytes → Disk → Err × Disk
delete_draft dir draft_id d = elim (read d (draft_path dir draft_id)) [
  | none ↦ (err_not_found, d)
  | some content ↦ (ok, delete (draft_path dir draft_id) d)
]
