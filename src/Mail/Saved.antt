-- ===== src/Mail/Saved.antt =====
-- client/src/lib/mail.c: mails saved as files, and their list. The null pointers that the code follows
-- when a file lacks an item are the outer `none`.
use shyake.Base.{
  ℕ, suc, ◌-◌, Bool, true, false, ◌&&◌, Bytes, [], ◌∷◌, ◌++◌, List, Option, none, some, ◌>>=◌,
  codes, snprintf, length, take, drop, equal, ltb, ◌==◌, if◌then◌else◌,
}
use shyake.Base.Integer.{ℤ, pos}
use shyake.Os.{Disk, read, write}
use shyake.Context.{Err, ok, err, err_network, err_http, err_not_found, path_in}
use shyake.Network.{Reply, unreachable, answered}
use shyake.Network.Requests.{create_auth_headers}
use shyake.Client.{
  Libs, World, State, with_error, without_error, get_request, url_of, with_network_error,
  with_server_error,
}
use shyake.Mail.{Detail, json_ref, open_reply_ref}
use shyake.Mail.Read.{
  valuestring_at, text_at, valueint_at, unwrapped, opened_text, load_kem_sk, key_field, is_own,
  mail_endpoint,
}
use shyake.Mail.Lists.{shown_subject}

-- `snprintf(path, 640, "%s/saved/%s.json", …)`
abbrev pub saved_path : Bytes → Bytes → Bytes
saved_path dir mail_id = snprintf 640 (dir ++ (codes "/saved/" ++ (mail_id ++ codes ".json")))

-- The test of a name that `readdir` gives.
unfoldable pub is_json : Bytes → Bool
is_json name = ltb 5 (length name) && equal (drop (length name - 5) name) (codes ".json")

-- The name without `.json`.
unfoldable pub stem : Bytes → Bytes
stem name = take (length name - 5) name

-- `shyake_saved_entry`; `created` stays 0 for a saved mail.
pub record SavedEntry : Type 0 where
  pub mail_id : Bytes
  pub sender : Bytes
  pub recipient : Bytes
  pub subject : Bytes
  pub timestamp : ℤ
  pub created : ℤ
  pub size : ℤ

module _ (L : Libs) where
  -- What goes to the file is the answer as it came.
  save_store : Bytes → Bytes → State → Err × State
  save_store path body s =
      if s.disk.denied path
      then (err, with_error (codes "Cannot write " ++ (path ++ codes ".")) s)
      else (ok, record s { disk = write s.disk path body })

  save_reply : Bytes → State → Reply → Err × State
  save_reply mail_id s (unreachable problem) = (err_network, with_network_error problem s)
  save_reply mail_id s (answered code body) =
      if code == 200
      then save_store (saved_path s.ctx.config_dir mail_id) body s
      else ((if code == 404 then err_not_found else err_http), with_server_error L code body s)

  -- `parse_saved_json`, with the JSON of the file.
  unfoldable pub saved_json : Bytes → Bool → State → L.json.Value → Option (Detail × State)
  saved_json mail_id decrypt_body s json = do
    sender ← text_at L json (codes "sender")
    recipient ← text_at L json (codes "recipient")
    ts ← valueint_at L json (codes "timestamp")
    sz ← valueint_at L json (codes "size")
    own ← is_own s.ctx.username sender
    enc_key ← valuestring_at L json (key_field own)
    enc_sub ← valuestring_at L json (codes "enc_subject")
    enc_bdy ← valuestring_at L json (codes "enc_body")
    let (ksk, ctx) = load_kem_sk L s
    sym ← unwrapped L enc_key ksk
    some (
      record {
        mail_id = mail_id;
        sender = sender;
        recipient = some recipient;
        subject = opened_text L sym enc_sub;
        body = if decrypt_body then opened_text L sym enc_bdy else none;
        timestamp = ts;
        created = pos 0;
        size = sz;
        mail_ref = json_ref L json;
        reply_ref = sym >>= λ key. open_reply_ref L key json;
      },
      record s { ctx = ctx },
    )

  saved_raw : Bytes → Bool → State → Option Bytes → Option (Option Detail × State)
  saved_raw mail_id decrypt_body s none =
      some (none, with_error (codes "Saved mail " ++ (mail_id ++ codes " not found.")) s)
  saved_raw mail_id decrypt_body s (some raw) = elim (L.json.parse raw) [
    | none ↦ some (none, s)
    | some json ↦
        (saved_json mail_id decrypt_body s json >>= λ answer. some (some answer.0, answer.1))
  ]

  -- `parse_saved_json`
  unfoldable pub parse_saved_json : Bytes → Bool → State → Option (Option Detail × State)
  unfolding saved_raw
  parse_saved_json mail_id decrypt_body s =
      saved_raw mail_id decrypt_body s (read s.disk (saved_path s.ctx.config_dir mail_id))

  -- `shyake_read_saved`
  unfoldable pub read_saved : Bytes → State → Option (Option Detail × State)
  read_saved mail_id s = parse_saved_json mail_id true (without_error s)

  -- `shyake_check_saved_one`
  unfoldable pub check_saved_one : Bytes → State → Option (Option Detail × State)
  check_saved_one mail_id s = parse_saved_json mail_id false (without_error s)

  -- The last part of a round of `shyake_list_saved`.
  unfoldable pub saved_entry :
      Option Bytes → Option Bytes → Bytes → L.json.Value → Option SavedEntry
  saved_entry username ksk name json = do
    sender ← text_at L json (codes "sender")
    recipient ← text_at L json (codes "recipient")
    ts ← valueint_at L json (codes "timestamp")
    sz ← valueint_at L json (codes "size")
    own ← is_own username sender
    enc_key ← valuestring_at L json (key_field own)
    enc_sub ← valuestring_at L json (codes "enc_subject")
    sym ← unwrapped L enc_key ksk
    some (record {
      mail_id = take 255 (stem name);
      sender = sender;
      recipient = recipient;
      subject = shown_subject (opened_text L sym enc_sub);
      timestamp = ts;
      created = pos 0;
      size = sz;
    })

  -- The rounds. A file that is gone or is no JSON is passed over.
  unfoldable pub saved_entries :
      Bytes → Disk → Option Bytes → Option Bytes → List Bytes → Option (List SavedEntry)
  saved_entries saved_dir d username ksk [] = some []
  saved_entries saved_dir d username ksk (name ∷ names) =
      let rest = saved_entries saved_dir d username ksk names in
      if is_json name
      then elim (read d (snprintf 768 (saved_dir ++ (b'/' ∷ name))) >>= L.json.parse) [
        | none ↦ rest
        | some json ↦ do
          entry ← saved_entry username ksk name json
          entries ← rest
          some (entry ∷ entries)
      ]
      else rest

  -- The first pass, which counts.
  unfoldable pub count_json : List Bytes → ℕ
  count_json [] = 0
  count_json (name ∷ names) = let rest = count_json names in if is_json name then suc rest else rest

  list_names : State → Option (List Bytes) → Option (Option (List SavedEntry) × State)
  list_names s none = some (none, s)
  list_names s (some names) =
      if count_json names == 0
      then some (some [], s)
      else (let (ksk, ctx) = load_kem_sk L s in
          saved_entries (path_in s.ctx.config_dir (codes "saved")) s.disk s.ctx.username ksk names
          >>= λ entries. some (some entries, record s { ctx = ctx }))

  module _ (W : World) where
    save_signed : Bytes → Option (List Bytes) × State → Err × State
    save_signed mail_id (none, s) = (err, s)
    save_signed mail_id (some headers, s) =
        save_reply mail_id s
          (W.perform (get_request (url_of s.ctx (mail_endpoint mail_id)) headers))

    -- `shyake_save_mail`
    unfoldable pub save_mail : Bytes → State → Err × State
    unfolding save_signed save_reply save_store
    save_mail mail_id s =
        let cleared = without_error s in
        if W.has_dir (path_in cleared.ctx.config_dir (codes "saved"))
        then (if W.curl_init
            then save_signed mail_id
                (create_auth_headers L W (mail_endpoint mail_id) cleared.ctx.username cleared)
            else (err, cleared))
        else (err, with_error (codes "Cannot create the saved directory.") cleared)

    -- `shyake_list_saved`; the outer `none` where a null pointer is followed.
    unfoldable pub list_saved : State → Option (Option (List SavedEntry) × State)
    unfolding list_names
    list_saved s =
        let cleared = without_error s in
        list_names cleared (W.readdir (path_in cleared.ctx.config_dir (codes "saved")))
