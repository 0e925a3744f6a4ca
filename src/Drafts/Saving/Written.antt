-- ===== src/Drafts/Saving/Written.antt =====
-- What `cli_save_draft` has written where it ends with `SHYAKE_OK`.
use mathlib.Core.Option.{some_inj}
use shyake.Base.{
  ℕ, ◌≡◌, refl, ap, sym, ◌∙◌, Bytes, Option, none, some, codes, snprintf, length, is_empty,
  Bool-cases, inl, inr,
}
use shyake.Base.Integer.{ℤ}
use shyake.Os.{Disk, Entropy, write}
use shyake.Context.{Err, ok, path_in}
use shyake.Crypto.Own.{selfenc_begin, selfenc_begin_disk}
use shyake.Client.{Libs, World, State}
use shyake.Drafts.{Drafts, draft_path}
use shyake.Drafts.Saving.{
  SealedDraft, draft_fields, seal_draft, created_of, open_file, draft_stored, draft_sealed,
  draft_begun, draft_dated, save_draft,
}

module _ (L : Libs) (W : World) (dir : Bytes) (draft_id : Option Bytes) (s : State) where
  -- The sealed fields are in the file of the draft.
  pub record Stores (size : ℕ) (sealed : SealedDraft) (id : Bytes) (d : Disk) : Type 0 where
    pub created : ℤ
    pub file_id : Bytes
    pub same_id : id ≡ snprintf 32 file_id
    pub written :
        d
        ≡ write s.disk
            (draft_path dir file_id)
            (L.json.print (draft_fields (snprintf 32 file_id) created W.now size sealed))

  pub record Written (recipient subject reply_ref : Option Bytes) (body id : Bytes) (d : Disk)
      : Type 0 where
    pub sym_key : Bytes
    pub enc_key : Bytes
    pub begun : State
    pub sealed : SealedDraft
    pub begins : selfenc_begin L (W.coins 0) s ≡ (some (sym_key, enc_key), begun)
    pub sealing :
        (seal_draft L W sym_key enc_key recipient subject reply_ref body begun.entropy).0
        ≡ some sealed
    pub stores : Stores (length body) sealed id d

  stored-Stores :
      (created : ℤ) (size : ℕ) (sealed : SealedDraft) (t t' : State) (opened : Option Bytes)
      (id e : Bytes)
      → t.disk ≡ s.disk
      → draft_stored L W dir draft_id created size sealed t opened ≡ ((ok, some id), t', e)
      → Stores size sealed id t'.disk
  unfolding draft_stored
  stored-Stores created size sealed t t' none id e same h =
      cc (ap (λ (r : Drafts (Err × Option Bytes)). r.0.1) h)
  stored-Stores created size sealed t t' (some file_id) id e same h = record {
    created = created;
    file_id = file_id;
    same_id = sym (some_inj.0 (ap (λ (r : Drafts (Err × Option Bytes)). r.0.1) h));
    written = sym (ap (λ (r : Drafts (Err × Option Bytes)). r.1.disk) h) ∙ rw same refl;
  }

  module _ (recipient subject reply_ref : Option Bytes) (body : Bytes) where
    sealed-Stores :
        (created : ℤ) (t t' : State) (made : Option SealedDraft × Entropy) (id e : Bytes)
        → t.disk ≡ s.disk
        → draft_sealed L W dir draft_id created (length body) t made ≡ ((ok, some id), t', e)
        → (sealed : SealedDraft) × (made.0 ≡ some sealed) × Stores (length body) sealed id t'.disk
    unfolding draft_sealed
    sealed-Stores created t t' (none, ent) id e same h =
        cc (ap (λ (r : Drafts (Err × Option Bytes)). r.0.1) h)
    sealed-Stores created t t' (some sealed, ent) id e same h = (
      sealed,
      refl,
      stored-Stores created (length body) sealed (record t { entropy = ent }) t'
          (open_file L W dir draft_id t.disk) id e same h,
    )

    begun-Written :
        (created : ℤ) (made : Option (Bytes × Bytes) × State) (t' : State) (id e : Bytes)
        → selfenc_begin L (W.coins 0) s ≡ made
        → draft_begun L W dir draft_id recipient subject reply_ref body created made
          ≡ ((ok, some id), t', e)
        → Written recipient subject reply_ref body id t'.disk
    unfolding draft_begun
    begun-Written created (none, t) t' id e m h =
        cc (ap (λ (r : Drafts (Err × Option Bytes)). r.0.1) h)
    begun-Written created (some (sym_key, enc_key), t) t' id e m h =
        let same : t.disk ≡ s.disk =
          sym (ap (λ (r : Option (Bytes × Bytes) × State). r.1.disk) m)
          ∙ selfenc_begin_disk L (W.coins 0) s in
        let (sealed, sealing, stores) =
          sealed-Stores created t t'
            (seal_draft L W sym_key enc_key recipient subject reply_ref body t.entropy) id e same
            h in
        record {
          sym_key = sym_key;
          enc_key = enc_key;
          begun = t;
          sealed = sealed;
          begins = m;
          sealing = sealing;
          stores = stores;
        }

    dated-Written :
        (created : Option ℤ) (t' : State) (id e : Bytes)
        → draft_dated L W dir draft_id recipient subject reply_ref body s created
          ≡ ((ok, some id), t', e)
        → Written recipient subject reply_ref body id t'.disk
    unfolding draft_dated
    dated-Written none t' id e h = cc (ap (λ (r : Drafts (Err × Option Bytes)). r.0.1) h)
    dated-Written (some created) t' id e h =
        begun-Written created (selfenc_begin L (W.coins 0) s) t' id e refl h

    pub save_draft-Written :
        (t' : State) (id e : Bytes)
        → save_draft L W dir draft_id recipient subject reply_ref body s ≡ ((ok, some id), t', e)
        → Written recipient subject reply_ref body id t'.disk
    unfolding save_draft
    save_draft-Written t' id e h = elim (Bool-cases (is_empty body)) [
      | inl bare ↦ let h' = rw bare at h in cc (ap (λ (r : Drafts (Err × Option Bytes)). r.0.1) h')
      | inr given ↦ elim (Bool-cases (W.has_dir (path_in dir (codes "drafts")))) [
        | inl there ↦
            let h' = rw (given, there) at h in
            dated-Written (created_of L W dir draft_id s.disk) t' id e h'
        | inr missing ↦
            let h' = rw (given, missing) at h in
            cc (ap (λ (r : Drafts (Err × Option Bytes)). r.0.1) h')
      ]
    ]
