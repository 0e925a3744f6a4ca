-- ===== src/EncFile/Delivery.antt =====
-- `shyake_enc_file` and `shyake_dec_file` from file to file: the delivery, and that a failed
-- decryption leaves nothing behind.
use mathlib.Core.Option.{some_inj}
use mathlib.Core.Path.{subst}
use shyake.Base.{
  ◌+◌, ◌≤◌, ◌<◌, ◌^◌, ◌≡◌, ◌≢◌, refl, ap, sym, ◌∙◌, ◌⊎◌, inl, inr, Bytes, [], Option, none, some,
  length, take, take_all, Bool-cases, arith, equal_iff, codes,
}
use shyake.Os.{Entropy, Disk, read, write, read-write}
use shyake.Context.{Ctx, ok, clear_error, path_in}
use shyake.Crypto.Interface.{Evp, IsAead, Oqs, KemSizes, IsKem, Blocks}
use shyake.KeyFile.{Kdf, load_sk_decrypted}
use shyake.Network.{Json, Net}
use shyake.EncFile.{
  Parts, parse, unseal_text, enc_store, enc_resolved, enc_file, dec_store, dec_text, dec_secret,
  dec_loaded, dec_kem, dec_parsed, dec_opened, dec_file, dest_path, resolve_key, Resolved,
  DecResult,
}
use shyake.EncFile.RoundTrip.{Holds, enc_content-Holds}

module _ {E : Evp} (A : IsAead E) (B : Blocks) {O : Oqs} (M : IsKem O) (K : Kdf) (J : Json)
    (net : Net) where
  enc_store_ok :
      (dest used : Bytes) (ctx ctx' : Ctx) (d d' : Disk) (ent' : Entropy)
      (sealed : Option Bytes × Entropy)
      → enc_store E B O dest ctx d sealed ≡ (ok, some used, ctx', ent', d')
      → (content : Bytes) × (sealed.0 ≡ some content) × (used ≡ dest) × (d' ≡ write d dest content)
  unfolding enc_store
  enc_store_ok dest used ctx ctx' d d' ent' (none, ent) h = cc
  enc_store_ok dest used ctx ctx' d d' ent' (some content, ent) h =
      elim (Bool-cases (d.denied dest)) [
        | inl barred ↦ let h' = rw barred at h in cc
        | inr free ↦ let h' = rw free at h in (content, refl, cc, cc)
      ]

  dec_loaded_secret :
      (out_path : Option Bytes) (ctx : Ctx) (d : Disk) (p : Parts) (ksk : Bytes) (kem : KemSizes)
      → O.kem_new ≡ some kem
      → dec_loaded E B O out_path d p (some ksk, ctx)
        ≡ dec_secret E B O out_path ctx d p (O.kem_decaps p.kem_ct ksk)
  unfolding dec_loaded dec_kem
  dec_loaded_secret out_path ctx d p ksk kem h = ap (dec_kem E B O out_path ctx d p ksk) h

  -- A file that `shyake_enc_file` reports as written, whose text is shorter than 2^32 bytes and whose content the device has room
  -- for, is decrypted to that text, on standard output, by whoever loads the secret key of the pair
  -- whose public key was used.
  pub dec-enc_file :
      (coins coins' in_path used pk sk pt : Bytes) (out_path recipient : Option Bytes)
      (ctx ctx' mine mine' : Ctx) (ent ent' : Entropy) (d d' : Disk)
      → M.sizes.ciphertext < 2 ^ 32
      → length pt < 2 ^ 32
      → M.sizes.ciphertext + length pt + 72 ≤ d.room used
      → O.kem_keypair coins' ≡ some (pk, sk)
      → read d in_path ≡ some pt
      → (resolve_key E B O J net recipient d (clear_error ctx)).0 ≡ some pk
      → enc_file E B O J net coins in_path out_path recipient ctx ent d
        ≡ (ok, some used, ctx', ent', d')
      → load_sk_decrypted E K (clear_error mine) (path_in mine.config_dir (codes "kem_sk.bin")) d'
        ≡ (some sk, mine')
      → dec_file E B O K used none mine d' ≡ (ok, mine', d', pt)
  unfolding enc_file dec_file
  dec-enc_file coins coins' in_path used pk sk pt out_path recipient ctx ctx' mine mine' ent ent' d
        d' small short room pair there key h loads =
      go (resolve_key E B O J net recipient d (clear_error ctx)) key (rw there at h)
    where
      finish :
          (content : Bytes)
          → Holds A B M sk pt content
          → d' ≡ write d used content
          → dec_opened E B O K used none (clear_error mine) d' (read d' used) ≡ (ok, mine', d', pt)
      finish content (p, ss, parsed, secret, text, l) e =
          let whole : take (d.room used) content ≡ content =
            take_all (d.room used) content (omega arith) in
          let found : read d' used ≡ some content =
            rw e (rw (read-write d used used content, (equal_iff used used).1 refl, whole) refl) in
          rw (found, parsed, loads)
            (dec_loaded_secret none mine' d' p sk M.sizes M.available ∙ rw (secret, text) refl)

      go :
          (r : Resolved)
          → r.0 ≡ some pk
          → enc_resolved E B O coins (dest_path in_path out_path) pt ent d r
            ≡ (ok, some used, ctx', ent', d')
          → dec_opened E B O K used none (clear_error mine) d' (read d' used) ≡ (ok, mine', d', pt)
      go (none, code, c) k h' = cc
      go (some pk', code, c) k h' =
          let (content, sealed, same, written) =
            enc_store_ok (dest_path in_path out_path) used c ctx' d d' ent' _ h' in
          finish content
            (enc_content-Holds A B M coins coins' pk sk pt content ent small short pair
              (rw (some_inj.0 k) at sealed))
            (rw same written)

  abbrev pub Written : Option Bytes → Disk → Bytes → Disk → Bytes → Type 0
  Written none d pt d' out = (d' ≡ d) × (out ≡ pt)
  Written (some dest) d pt d' out = (d' ≡ write d dest pt) × (out ≡ [])

  -- What the text that a decryption writes comes from.
  abbrev pub Genuine : Bytes → Ctx → Disk → Bytes → Type 0
  Genuine in_path ctx d pt =
      (content : Bytes) × (p : Parts) × (sk : Bytes) × (ss : Bytes) × (read d in_path
        ≡ some content)
      × (parse content ≡ some p)
      × ((load_sk_decrypted E K (clear_error ctx) (path_in ctx.config_dir (codes "kem_sk.bin")) d).0
          ≡ some sk)
      × (O.kem_decaps p.kem_ct sk ≡ some ss)
      × (unseal_text E B O p ss ≡ some pt)

  abbrev pub Closed : Bytes → Option Bytes → Ctx → Disk → DecResult → Type 0
  Closed in_path out_path ctx d (code, ctx', d', out) =
      ((code ≢ ok) × (d' ≡ d) × (out ≡ []))
      ⊎ ((code ≡ ok) × (pt : Bytes) × Genuine in_path ctx d pt × Written out_path d pt d' out)

  dec_store-Closed :
      (in_path : Bytes) (out_path : Option Bytes) (ctx ctx' : Ctx) (d : Disk) (pt : Bytes)
      → Genuine in_path ctx d pt
      → Closed in_path out_path ctx d (dec_store E B O out_path ctx' d pt)
  unfolding dec_store
  dec_store-Closed in_path none ctx ctx' d pt g = inr (refl, pt, g, (refl, refl))
  dec_store-Closed in_path (some dest) ctx ctx' d pt g = elim (Bool-cases (d.denied dest)) [
    | inl barred ↦ rw barred (inl ((λ e. cc), refl, refl))
    | inr free ↦ rw free (inr (refl, pt, g, (refl, refl)))
  ]

  -- Only a decryption that ends with `ok` writes: otherwise the files are as before and nothing goes
  -- to standard output. What it writes is what the tag of the file vouches for.
  pub dec_file-Closed :
      (in_path : Bytes) (out_path : Option Bytes) (ctx : Ctx) (d : Disk)
      → Closed in_path out_path ctx d (dec_file E B O K in_path out_path ctx d)
  unfolding dec_file
  dec_file-Closed in_path out_path ctx d = read_step (read d in_path) refl
    where
      load : Option Bytes × Ctx
      load = load_sk_decrypted E K (clear_error ctx) (path_in ctx.config_dir (codes "kem_sk.bin")) d

      text_step :
          (c : Ctx) (t : Option Bytes)
          → ((pt : Bytes) → t ≡ some pt → Genuine in_path ctx d pt)
          → Closed in_path out_path ctx d (dec_text E B O out_path c d t)
      text_step c none g = (inl ((λ e. cc), refl, refl))
      text_step c (some pt) g = dec_store-Closed in_path out_path ctx c d pt (g pt refl)

      secret_step :
          (c : Ctx) (p : Parts) (s : Option Bytes)
          → ((ss pt : Bytes)
              → s ≡ some ss
              → unseal_text E B O p ss ≡ some pt
              → Genuine in_path ctx d pt)
          → Closed in_path out_path ctx d (dec_secret E B O out_path c d p s)
      secret_step c p none g = (inl ((λ e. cc), refl, refl))
      secret_step c p (some ss) g = text_step c (unseal_text E B O p ss) (λ pt. g ss pt refl)

      load_step :
          (p : Parts) (l : Option Bytes × Ctx)
          → ((sk ss pt : Bytes)
              → l.0 ≡ some sk
              → O.kem_decaps p.kem_ct sk ≡ some ss
              → unseal_text E B O p ss ≡ some pt
              → Genuine in_path ctx d pt)
          → Closed in_path out_path ctx d (dec_loaded E B O out_path d p l)
      load_step p (none, c) g = inl ((λ e. cc), refl, refl)
      load_step p (some sk, c) g =
          subst (Closed in_path out_path ctx d)
            (sym (dec_loaded_secret out_path c d p sk M.sizes M.available))
            (secret_step c p (O.kem_decaps p.kem_ct sk) (λ ss pt. g sk ss pt refl))

      parse_step :
          (content : Bytes) (o : Option Parts)
          → read d in_path ≡ some content
          → parse content ≡ o
          → Closed in_path out_path ctx d (dec_parsed E B O K out_path (clear_error ctx) d o)
      parse_step content none r e = inl ((λ h. cc), refl, refl)
      parse_step content (some p) r e =
          load_step p load (λ sk ss pt l k t. (content, p, sk, ss, r, e, l, k, t))

      read_step :
          (o : Option Bytes)
          → read d in_path ≡ o
          → Closed in_path out_path ctx d
              (dec_opened E B O K in_path out_path (clear_error ctx) d o)
      read_step none e = inl ((λ h. cc), refl, refl)
      read_step (some content) e = parse_step content (parse content) e refl
