-- ===== src/Drafts/Saving.antt =====
-- client/src/cli/drafts.c: `cli_save_draft`.
pub mod Written
use shyake.Base.{
  snprintf, ◌≡◌, refl, sym, Bool-cases, inl, inr, ℕ, ◌+◌, Bool, true, false, Bytes, [], ◌∷◌, List,
  Option, none, some, ◌>>=◌, ◌>>◌, require, codes, length, is_empty, if◌then◌else◌,
}
use shyake.Base.Integer.{ℤ, pos}
use shyake.Os.{Disk, Entropy, read, write}
use shyake.Context.{Err, ok, err, err_crypto, err_not_found, path_in, or_empty}
use shyake.Crypto.Own.{selfenc_begin, selfenc_begin_disk}
use shyake.Crypto.Seal.{encrypt_to_b64}
use shyake.Network.{Field, of_text, of_number}
use shyake.Register.{optional}
use shyake.Mail.Send.Fields.{seal_optional, reply_sealed}
use shyake.Client.{Libs, World, State}
use shyake.Drafts.Identifier.{allocate, reopen, allocate_free, write_keeps}
use shyake.Drafts.{Drafts, draft_path, draft_error, max_id}

-- The sealed fields.
pub record SealedDraft : Type 0 where
  pub enc_key : Bytes
  pub enc_recipient : Option Bytes
  pub enc_subject : Option Bytes
  pub enc_body : Bytes
  pub enc_reply_to : Option Bytes

-- `recipient && recipient[0] && !enc_rec`, turned round.
unfoldable pub field_sealed : Option Bytes → Option Bytes → Bool
field_sealed none enc = true
field_sealed (some []) enc = true
field_sealed (some (c ∷ words)) none = false
field_sealed (some (c ∷ words)) (some enc) = true

-- `root`
unfoldable pub draft_fields : Bytes → ℤ → ℕ → ℕ → SealedDraft → List (Bytes × Field)
draft_fields draft_id created now size f =
    (codes "version", of_number (pos 1))
    ∷ (codes "draft_id", of_text draft_id)
    ∷ (codes "created", of_number created)
    ∷ (codes "modified", of_number (pos now))
    ∷ (codes "size", of_number (pos size))
    ∷ (codes "enc_key", of_text f.enc_key)
    ∷ (codes "enc_recipient", of_text (or_empty f.enc_recipient))
    ∷ (codes "enc_subject", of_text (or_empty f.enc_subject))
    ∷ (codes "enc_body", of_text f.enc_body)
    ∷ optional (codes "enc_reply_to") f.enc_reply_to

module _ (L : Libs) (W : World) where
  -- The calls of `shyake_seal_b64`, and the test of their results.
  unfoldable pub seal_draft :
      Bytes
      → Bytes
      → Option Bytes
      → Option Bytes
      → Option Bytes
      → Bytes
      → Entropy
      → Option SealedDraft × Entropy
  seal_draft sym enc_key recipient subject reply_ref body ent =
      let (enc_rec, e1) = seal_optional L W sym recipient ent in
      let (enc_sub, e2) = seal_optional L W sym subject e1 in
      let (enc_re, e3) = seal_optional L W sym reply_ref e2 in
      let (enc_bdy, e4) = encrypt_to_b64 L.evp L.blocks W.stack sym body e3 in
      (
        do
          bdy ← enc_bdy
          require (field_sealed recipient enc_rec)
          require (field_sealed subject enc_sub)
          require (reply_sealed reply_ref enc_re)
          some (record {
            enc_key = enc_key;
            enc_recipient = enc_rec;
            enc_subject = enc_sub;
            enc_body = bdy;
            enc_reply_to = enc_re;
          }),
        e4,
      )

  module _ (dir : Bytes) (draft_id : Option Bytes) where
    -- "keep created time when overwriting an existing draft"; `none` is a draft that is not there.
    unfoldable pub created_of : Disk → Option ℤ
    created_of d = elim draft_id [
      | none ↦ some (pos W.now)
      | some old_id ↦
          (read d (draft_path dir old_id) >>= λ raw.
          some (elim (L.json.parse raw >>= λ old. L.json.item old (codes "created")) [
            | none ↦ pos W.now
            | some c ↦ elim (L.json.valuedouble c) [ none ↦ pos 0 | some n ↦ n ]
          ]))
    ]

    -- "allocate id and create file exclusively for new drafts"
    unfoldable pub open_file : Disk → Option Bytes
    open_file d = elim draft_id [
      | some old_id ↦ reopen dir d old_id
      | none ↦ allocate dir d 100 (
          elim (W.readdir (path_in dir (codes "drafts"))) [ none ↦ 0 | some names ↦ max_id 0 names ]
          + 1)
    ]

    pub draft_stored : ℤ → ℕ → SealedDraft → State → Option Bytes → Drafts (Err × Option Bytes)
    draft_stored created size sealed s none = ((err, none), s, [])
    draft_stored created size sealed s (some id) =
        let id_buf = snprintf 32 id in
        let payload = L.json.print (draft_fields id_buf created W.now size sealed) in
        ((ok, some id_buf), record s { disk = write s.disk (draft_path dir id) payload }, [])

    pub draft_sealed : ℤ → ℕ → State → Option SealedDraft × Entropy → Drafts (Err × Option Bytes)
    draft_sealed created size s (none, ent) = ((err_crypto, none), record s { entropy = ent }, [])
    draft_sealed created size s (some sealed, ent) =
        draft_stored created size sealed (record s { entropy = ent }) (open_file s.disk)

    module _ (recipient subject reply_ref : Option Bytes) (body : Bytes) where
      pub draft_begun : ℤ → Option (Bytes × Bytes) × State → Drafts (Err × Option Bytes)
      draft_begun created (none, s) =
          ((err_crypto, none), s, draft_error (codes "Cannot load kem_pk.bin. Run 'shyake init'."))
      draft_begun created (some (sym, enc_key), s) =
          draft_sealed created (length body) s
            (seal_draft sym enc_key recipient subject reply_ref body s.entropy)

      pub draft_dated : State → Option ℤ → Drafts (Err × Option Bytes)
      draft_dated s none = ((err_not_found, none), s, [])
      draft_dated s (some created) = draft_begun created (selfenc_begin L (W.coins 0) s)

      -- `cli_save_draft`: the code and the identifier of the draft.
      unfoldable pub save_draft : State → Drafts (Err × Option Bytes)
      unfolding draft_dated draft_begun draft_sealed draft_stored
      save_draft s =
          if is_empty body
          then ((err, none), s, [])
          else if W.has_dir (path_in dir (codes "drafts"))
          then draft_dated s (created_of s.disk)
          else ((err, none), s, draft_error (codes "Cannot create the drafts directory."))

  module _ (dir path content : Bytes) where
    stored_keeps :
        (created : ℤ) (size : ℕ) (sealed : SealedDraft) (s : State) (opened : Option Bytes)
        → opened ≡ open_file dir none s.disk
        → read s.disk path ≡ some content
        → read (draft_stored dir none created size sealed s opened).1.disk path ≡ some content
    unfolding draft_stored open_file
    stored_keeps created size sealed s none e there = there
    stored_keeps created size sealed s (some id) e there =
        write_keeps s.disk (draft_path dir id) path
          (L.json.print (draft_fields (snprintf 32 id) created W.now size sealed)) content
          (allocate_free dir s.disk 100 _ id (sym e)) there

    sealed_keeps :
        (created : ℤ) (size : ℕ) (s : State) (made : Option SealedDraft × Entropy)
        → read s.disk path ≡ some content
        → read (draft_sealed dir none created size s made).1.disk path ≡ some content
    unfolding draft_sealed
    sealed_keeps created size s (none, ent) there = there
    sealed_keeps created size s (some sealed, ent) there =
        stored_keeps created size sealed (record s { entropy = ent }) (open_file dir none s.disk)
          refl there

    module _ (recipient subject reply_ref : Option Bytes) (body : Bytes) where
      begun_keeps :
          (created : ℤ) (begun : Option (Bytes × Bytes) × State)
          → read begun.1.disk path ≡ some content
          → read (draft_begun dir none recipient subject reply_ref body created begun).1.disk path
            ≡ some content
      unfolding draft_begun
      begun_keeps created (none, s) there = there
      begun_keeps created (some (sym, enc_key), s) there =
          sealed_keeps created (length body) s
            (seal_draft sym enc_key recipient subject reply_ref body s.entropy) there

      dated_keeps :
          (s : State) (created : Option ℤ)
          → read s.disk path ≡ some content
          → read (draft_dated dir none recipient subject reply_ref body s created).1.disk path
            ≡ some content
      unfolding draft_dated
      dated_keeps s none there = there
      dated_keeps s (some created) there =
          begun_keeps created (selfenc_begin L (W.coins 0) s)
            (rw (selfenc_begin_disk L (W.coins 0) s) there)

      -- Saving a new draft, whether it ends well or not, leaves every file that was there as it was.
      pub save_draft_keeps :
          (s : State)
          → read s.disk path ≡ some content
          → read (save_draft dir none recipient subject reply_ref body s).1.disk path ≡ some content
      unfolding save_draft
      save_draft_keeps s there = elim (Bool-cases (is_empty body)) [
        | inl bare ↦ rw bare there
        | inr given ↦ elim (Bool-cases (W.has_dir (path_in dir (codes "drafts")))) [
          | inl dir_there ↦ rw (given, dir_there) (dated_keeps s (created_of dir none s.disk) there)
          | inr no_dir ↦ rw (given, no_dir) there
        ]
      ]
