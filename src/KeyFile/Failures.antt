-- ===== src/KeyFile/Failures.antt =====
-- What `load_sk_decrypted` does on every other path, and what a full device does to a saved key.
use shyake.Base.{
  ℕ, ◌+◌, ◌≤◌, ◌<◌, ◌≡◌, ◌≢◌, refl, ◌⊎◌, inl, inr, true, false, ◌&&◌, Bytes, [], ◌∷◌, Option, none,
  some, length, length-take, take, equal, equal_iff, is_empty, arith, suc, lt→ltb, ltb, codes,
  get_or, Bool-cases, ◌==◌,
}
use shyake.Os.{Disk, Entropy, read-write, load_file}
use shyake.Context.{Ctx, set_error}
use shyake.Crypto.Interface.{Evp, IsAead}
use shyake.KeyFile.{
  Kdf, fill_random, sealed_content, store_content, with_nonce, with_salt, header_len, mac_len,
  save_sk_encrypted, has_magic, is_supported, sk_file_is_encrypted, open_content, opened, loaded,
  load_sk_decrypted,
}
use shyake.KeyFile.RoundTrip.{save_sk_encrypted-Stored}

-- What a key that was loaded is: the whole of an unsealed file, or what a sealed file opens to.
abbrev pub Loads : Evp → Kdf → Ctx → Bytes → Bytes → Type 0
Loads E K ctx content sk =
    ((has_magic content ≡ false) × (sk ≡ content))
    ⊎ ((has_magic content ≡ true)
        × (is_empty ctx.passphrase ≡ false)
        × (header_len + mac_len ≤ length content)
        × (is_supported content ≡ true)
        × (open_content E K ctx.passphrase content ≡ some (some sk)))

module _ (E : Evp) (K : Kdf) (ctx : Ctx) (path : Bytes) where
  opened-some :
      (o : Option (Option Bytes)) {sk : Bytes}
      → (opened E K ctx o).0 ≡ some sk
      → (o ≡ some (some sk)) × ((opened E K ctx o).1 ≡ ctx)
  unfolding opened
  opened-some none h = cc
  opened-some (some none) h = cc
  opened-some (some (some k)) h = (cc, refl)

  -- The loader's ladder of tests: an unsealed file, a refusal with its reason, or a sealed file that
  -- passed every test.
  abbrev Ladder : Bytes → Option Bytes × Ctx → Type 0
  Ladder content r =
      ((has_magic content ≡ false) × (r ≡ (some content, ctx)))
      ⊎ ((r.0 ≡ none) × (r.1.last_error ≢ []))
      ⊎ ((has_magic content ≡ true)
          × (is_empty ctx.passphrase ≡ false)
          × (header_len + mac_len ≤ length content)
          × (is_supported content ≡ true)
          × (r ≡ opened E K ctx (open_content E K ctx.passphrase content)))

  loaded-Ladder : (content : Bytes) → Ladder content (loaded E K ctx path (some content))
  unfolding loaded
  loaded-Ladder content = elim (Bool-cases (has_magic content)) [
    | inr raw ↦ inl (raw, rw raw)
    | inl sealed ↦ elim (Bool-cases (is_empty ctx.passphrase)) [
      | inl missing ↦ inr (inl (rw (sealed, missing), rw (sealed, missing) (λ e. cc)))
      | inr given ↦ elim (Bool-cases (ltb (length content) (header_len + mac_len))) [
        | inl short ↦ inr (inl (rw (sealed, given, short), rw (sealed, given, short) (λ e. cc)))
        | inr long ↦ elim (Bool-cases (is_supported content)) [
          | inl known ↦
              inr (inr (sealed, given, ground arith, known, rw (sealed, given, long, known)))
          | inr other ↦
              inr (inl (rw (sealed, given, long, other), rw (sealed, given, long, other) (λ e. cc)))
        ]
      ]
    ]
  ]

  Ladder-some :
      (content sk : Bytes) (r : Option Bytes × Ctx)
      → Ladder content r
      → r.0 ≡ some sk
      → (r.1 ≡ ctx) × Loads E K ctx content sk
  Ladder-some content sk r (inl (raw, e)) h = (ground arith, inl (raw, ground arith))
  Ladder-some content sk r (inr (inl (failed, _))) h = cc
  Ladder-some content sk r (inr (inr (m, p, l, k, e))) h =
      let (o, same) = opened-some (open_content E K ctx.passphrase content) (rw e at h) in
      (rw e same, inr (m, p, l, k, o))

  opened-none :
      (o : Option (Option Bytes))
      → (opened E K ctx o).0 ≡ none
      → ((opened E K ctx o).1.last_error ≢ []) ⊎ (((opened E K ctx o).1 ≡ ctx) × (o ≡ none))
  unfolding opened
  opened-none none h = inr (refl, refl)
  opened-none (some none) h = inl (λ e. cc)
  opened-none (some (some k)) h = cc

  Ladder-none :
      (content : Bytes) (r : Option Bytes × Ctx)
      → Ladder content r
      → r.0 ≡ none
      → (r.1.last_error ≢ []) ⊎ ((r.1 ≡ ctx) × (open_content E K ctx.passphrase content ≡ none))
  Ladder-none content r (inl (raw, e)) h = cc
  Ladder-none content r (inr (inl (_, told))) h = inl told
  Ladder-none content r (inr (inr (m, p, l, k, e))) h =
      rw e (opened-none (open_content E K ctx.passphrase content) (rw e at h))

  loaded_missing : (loaded E K ctx path none).1.last_error ≢ []
  unfolding loaded
  loaded_missing = λ e. cc

  -- A load that succeeds leaves the context alone, and its file exists and holds that key.
  pub load_sk_decrypted_success :
      (d : Disk) (sk : Bytes)
      → (load_sk_decrypted E K ctx path d).0 ≡ some sk
      → ((load_sk_decrypted E K ctx path d).1 ≡ ctx)
        × (content : Bytes) × (load_file path d ≡ some content)
        × Loads E K ctx content sk
  unfolding load_sk_decrypted
  load_sk_decrypted_success d sk = go (load_file path d)
    where
      go :
          (o : Option Bytes)
          → (loaded E K ctx path o).0 ≡ some sk
          → ((loaded E K ctx path o).1 ≡ ctx)
            × (content : Bytes) × (o ≡ some content)
            × Loads E K ctx content sk
      go none h = unfold loaded in cc
      go (some content) h =
          let (same, loads) = Ladder-some content sk _ (loaded-Ladder content) h in
          (same, content, refl, loads)

  -- A load that fails records why, unless the key derivation failed: then it records nothing.
  pub load_sk_decrypted_failure :
      (d : Disk)
      → (load_sk_decrypted E K ctx path d).0 ≡ none
      → ((load_sk_decrypted E K ctx path d).1.last_error ≢ [])
        ⊎ (((load_sk_decrypted E K ctx path d).1 ≡ ctx)
            × (content : Bytes) × (load_file path d ≡ some content)
            × (open_content E K ctx.passphrase content ≡ none))
  unfolding load_sk_decrypted
  load_sk_decrypted_failure d = go (load_file path d)
    where
      go :
          (o : Option Bytes)
          → (loaded E K ctx path o).0 ≡ none
          → ((loaded E K ctx path o).1.last_error ≢ [])
            ⊎ (((loaded E K ctx path o).1 ≡ ctx)
                × (content : Bytes) × (o ≡ some content)
                × (open_content E K ctx.passphrase content ≡ none))
      go none h = inl loaded_missing
      go (some content) h = elim (Ladder-none content _ (loaded-Ladder content) h) [
        | inl told ↦ inl told
        | inr (same, e) ↦ inr (same, content, refl, e)
      ]

four_bytes :
    (c : Bytes)
    → (length (take 4 c) == 4
        && (get_or (take 4 c) 0 0 == b'S'
            && (get_or (take 4 c) 1 0 == b'H'
                && (get_or (take 4 c) 2 0 == b'Y' && get_or (take 4 c) 3 0 == b'K'))))
      ≡ has_magic c
unfolding has_magic equal
four_bytes [] = refl
four_bytes (a ∷ []) = ground arith
four_bytes (a ∷ b ∷ []) = ground arith
four_bytes (a ∷ b ∷ c ∷ []) = ground arith
four_bytes (a ∷ b ∷ c ∷ e ∷ rest) = ground arith

-- The prompt asks for a passphrase just where the loader will want one.
sk_file_is_encrypted-has_magic :
    (path content : Bytes) (d : Disk)
    → load_file path d ≡ some content
    → sk_file_is_encrypted path d ≡ has_magic content
unfolding sk_file_is_encrypted load_file
sk_file_is_encrypted-has_magic path content d h = rw (h, sk_file_is_encrypted) (four_bytes content)

has_magic-take : (n : ℕ) (c : Bytes) → 4 ≤ n → has_magic c ≡ true → has_magic (take n c) ≡ true
unfolding has_magic equal
has_magic-take (suc (suc (suc (suc n)))) (a ∷ b ∷ c ∷ e ∷ rest) le h = ground arith
has_magic-take _ _ le h = ground arith

-- Under a passphrase, on a path that is not denied, with the salt and the nonce drawn and the key
-- sealed, the save reports success: it does not look at how much the device took.
save_sk_encrypted_done :
    (E : Evp) (K : Kdf) (path passphrase sk salt nonce content : Bytes) (ent e1 e2 : Entropy)
    (d : Disk)
    → is_empty passphrase ≡ false
    → d.denied path ≡ false
    → fill_random 32 ent ≡ (some salt, e1)
    → fill_random 12 e1 ≡ (some nonce, e2)
    → sealed_content E K passphrase sk salt nonce ≡ some content
    → (save_sk_encrypted E K path passphrase sk ent d).0 ≡ true
unfolding save_sk_encrypted with_salt with_nonce store_content
save_sk_encrypted_done E K path [] sk salt nonce content ent e1 e2 d p free drawn drawn' made = cc p
save_sk_encrypted_done E K path (c ∷ cs) sk salt nonce content ent e1 e2 d p free drawn drawn'
      made =
    rw (drawn, drawn', made, free) refl

-- Under a passphrase, on a path that is not denied, with the salt and the nonce drawn and the key
-- sealed: where the device takes from 4 to 77 bytes, which cuts the sealed key short, the save
-- reports success all the same, and the load that follows finds the file corrupt.
pub save_sk_encrypted_cut :
    {E : Evp} (A : IsAead E) (K : Kdf) (ctx : Ctx) (path sk salt nonce content : Bytes)
    (ent e1 e2 : Entropy) (d : Disk)
    → is_empty ctx.passphrase ≡ false
    → d.denied path ≡ false
    → fill_random 32 ent ≡ (some salt, e1)
    → fill_random 12 e1 ≡ (some nonce, e2)
    → sealed_content E K ctx.passphrase sk salt nonce ≡ some content
    → 4 ≤ d.room path
    → d.room path < header_len + mac_len
    → ((save_sk_encrypted E K path ctx.passphrase sk ent d).0 ≡ true)
      × (load_sk_decrypted E K ctx path (save_sk_encrypted E K path ctx.passphrase sk ent d).2
          ≡ (none, set_error (codes "The key file is corrupt.") ctx))
unfolding load_sk_decrypted load_file loaded
save_sk_encrypted_cut {E} A K ctx path sk salt nonce content ent e1 e2 d p free drawn drawn' made lo
      hi =
    let h =
      save_sk_encrypted_done E K path ctx.passphrase sk salt nonce content ent e1 e2 d p free drawn
        drawn' made in
    let (content, reads, e) = save_sk_encrypted-Stored A K path ctx.passphrase sk ent d p h in
    let cut = take (d.room path) content in
    let magic_found = has_magic-take (d.room path) content lo reads.magic_found in
    let short : ltb (length cut) (header_len + mac_len) ≡ true =
      lt→ltb _ _ (omega (arith, length-take (d.room path) content)) in
    (h, rw (e, read-write d path path content, (equal_iff path path).1 refl, magic_found, p, short))
