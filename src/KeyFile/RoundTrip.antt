-- ===== src/KeyFile/RoundTrip.antt =====
-- A secret key that `save_sk_encrypted` stores is what `load_sk_decrypted` returns.
use mathlib.Core.Option.{some_inj}
use mathlib.Core.Path.{subst}
use shyake.Base.{
  ℕ, ◌+◌, ◌-◌, ◌≤◌, ◌≡◌, refl, true, false, Bytes, [], ◌∷◌, ◌++◌, Option, none, some, ◌>>=◌,
  >>=-eq-some, length, length-append, take, take_all, drop, drop-drop, take-append_eq,
  drop-append_eq, equal_iff, is_empty, arith,
}
use shyake.Os.{Disk, Entropy, write, read-write, load_file}
use shyake.Context.{Ctx}
use shyake.Crypto.Interface.{Evp, IsAead}
use shyake.Crypto.ChaCha.{chacha20_poly1305_encrypt}
use shyake.Crypto.ChaCha.RoundTrip.{decrypt-encrypt}
use shyake.KeyFile.{
  Kdf, fill_random, derive_key, header, header_len, mac_len, sealed_content, store_content,
  with_nonce, with_salt, save_sk_encrypted, has_magic, is_supported, open_content, opened, loaded,
  load_sk_decrypted,
}
use shyake.KeyFile.Parts.{
  has_magic-header, is_supported-header, salt_at, n_at, r_at, p_at, nonce_at, header_at, body_at,
  length-content,
}

pub length-fill_random :
    (n : ℕ) (ent : Entropy) {buf : Bytes} → (fill_random n ent).0 ≡ some buf → length buf ≡ n
unfolding fill_random
length-fill_random n [] h = cc
length-fill_random n (a ∷ rest) h = ground arith

module _ {E : Evp} (A : IsAead E) (K : Kdf) where
  -- The content that is stored opens to the key, and passes every test of the loader.
  pub record Reads (passphrase sk content : Bytes) : Type 0 where
    pub magic_found : has_magic content ≡ true
    pub supported : is_supported content ≡ true
    pub long_enough : header_len + mac_len ≤ length content
    pub size : length content ≡ header_len + mac_len + length sk
    pub opens : open_content E K passphrase content ≡ some (some sk)

  Reads-of_parts :
      (passphrase sk salt nonce derived ct mac : Bytes)
      → length salt ≡ 32
      → length nonce ≡ 12
      → derive_key K passphrase salt 65536 8 1 ≡ some derived
      → chacha20_poly1305_encrypt E derived nonce sk (header salt 65536 8 1 nonce) ≡ some (ct, mac)
      → Reads passphrase sk (header salt 65536 8 1 nonce ++ (ct ++ mac))
  Reads-of_parts passphrase sk salt nonce derived ct mac s e h0 h1 =
      let body = ct ++ mac in
      let (decrypts, ct_length, mac_length) =
        decrypt-encrypt A derived nonce sk (header salt 65536 8 1 nonce) ct mac h1 in
      let size = length-content salt nonce body 65536 8 1 s e in
      let parts = length-append ct mac in
      let ct_len : length (header salt 65536 8 1 nonce ++ body) - header_len - mac_len ≡ length ct =
        omega arith in
      let tag_at : take mac_len
            (drop (header_len + length ct) (header salt 65536 8 1 nonce ++ body))
          ≡ mac =
        rw
          (
            ← drop-drop header_len (length ct) (header salt 65536 8 1 nonce ++ body),
            body_at salt nonce body 65536 8 1 s e,
            drop-append_eq (length ct) ct mac refl,
          )
          (take_all mac_len mac (omega arith)) in
      record {
        magic_found = has_magic-header salt nonce body 65536 8 1;
        supported = is_supported-header salt nonce body 65536 8 1;
        long_enough = omega arith;
        size = omega arith;
        opens =
            unfold open_content in
            rw (
              ct_len,
              salt_at salt nonce body 65536 8 1 s,
              n_at salt nonce body 65536 8 1 s (omega arith),
              r_at salt nonce body 65536 8 1 s (omega arith),
              p_at salt nonce body 65536 8 1 s (omega arith),
              nonce_at salt nonce body 65536 8 1 s e,
              header_at salt nonce body 65536 8 1 s e,
              tag_at,
              body_at salt nonce body 65536 8 1 s e,
              take-append_eq (length ct) ct mac refl,
              h0,
              ◌>>=◌,
              decrypts,
            );
      }

  sealed_content-Reads :
      (passphrase sk salt nonce : Bytes) {content : Bytes}
      → length salt ≡ 32
      → length nonce ≡ 12
      → sealed_content E K passphrase sk salt nonce ≡ some content
      → Reads passphrase sk content
  unfolding sealed_content
  sealed_content-Reads passphrase sk salt nonce {content} s e h =
      let head = header salt 65536 8 1 nonce in
      let (derived, h0, h1) = >>=-eq-some (derive_key K passphrase salt 65536 8 1) _ h in
      let ((ct, mac), h2, h3) =
        >>=-eq-some (chacha20_poly1305_encrypt E derived nonce sk head) _ h1 in
      subst (Reads passphrase sk) (some_inj.0 h3)
        (Reads-of_parts passphrase sk salt nonce derived ct mac s e h0 h2)

  -- Such a content is loaded whole, with no error recorded.
  Reads-loaded :
      (ctx : Ctx) (path sk content : Bytes)
      → is_empty ctx.passphrase ≡ false
      → Reads ctx.passphrase sk content
      → loaded E K ctx path (some content) ≡ (some sk, ctx)
  unfolding loaded opened
  Reads-loaded ctx path sk content h r =
      rw (r.magic_found, h, r.supported, r.opens) (ground (arith, r.long_enough))

  -- The disk after a sealed key has been stored.
  abbrev pub Stored : Bytes → Bytes → Bytes → Disk → Disk → Type 0
  Stored path passphrase sk d d' =
      (content : Bytes) × Reads passphrase sk content × (d' ≡ write d path content)

  store_content-Stored :
      (path passphrase sk : Bytes) (made : Option Bytes) (d : Disk)
      → ((content : Bytes) → made ≡ some content → Reads passphrase sk content)
      → (store_content E K path made d).0 ≡ true
      → Stored path passphrase sk d (store_content E K path made d).1
  unfolding store_content
  store_content-Stored path passphrase sk none d reads h = cc
  store_content-Stored path passphrase sk (some content) d reads h =
      (content, reads content refl, ground arith)

  with_nonce-Stored :
      (path passphrase sk salt : Bytes) (drawn : Option Bytes × Entropy) (d : Disk)
      → length salt ≡ 32
      → ((nonce : Bytes) → drawn.0 ≡ some nonce → length nonce ≡ 12)
      → (with_nonce E K path passphrase sk salt drawn d).0 ≡ true
      → Stored path passphrase sk d (with_nonce E K path passphrase sk salt drawn d).2
  unfolding with_nonce
  with_nonce-Stored path passphrase sk salt (none, ent) d s e h = cc
  with_nonce-Stored path passphrase sk salt (some nonce, ent) d s e h =
      store_content-Stored path passphrase sk _ d
        (λ content made. sealed_content-Reads passphrase sk salt nonce s (e nonce refl) made) h

  with_salt-Stored :
      (path passphrase sk : Bytes) (drawn : Option Bytes × Entropy) (d : Disk)
      → ((salt : Bytes) → drawn.0 ≡ some salt → length salt ≡ 32)
      → (with_salt E K path passphrase sk drawn d).0 ≡ true
      → Stored path passphrase sk d (with_salt E K path passphrase sk drawn d).2
  unfolding with_salt
  with_salt-Stored path passphrase sk (none, ent) d s h = cc
  with_salt-Stored path passphrase sk (some salt, ent) d s h =
      with_nonce-Stored path passphrase sk salt (fill_random 12 ent) d (s salt refl)
        (λ nonce drawn. length-fill_random 12 ent drawn) h

  pub save_sk_encrypted-Stored :
      (path passphrase sk : Bytes) (ent : Entropy) (d : Disk)
      → is_empty passphrase ≡ false
      → (save_sk_encrypted E K path passphrase sk ent d).0 ≡ true
      → Stored path passphrase sk d (save_sk_encrypted E K path passphrase sk ent d).2
  unfolding save_sk_encrypted
  save_sk_encrypted-Stored path [] sk ent d p h = cc
  save_sk_encrypted-Stored path (c ∷ cs) sk ent d p h =
      with_salt-Stored path (c ∷ cs) sk (fill_random 32 ent) d
        (λ salt drawn. length-fill_random 32 ent drawn) h

  -- A key that was stored under the context's passphrase, on a device with room for it, is loaded
  -- again under that passphrase, and no error is recorded.
  pub load-save_sk_encrypted :
      (ctx : Ctx) (path sk : Bytes) (ent : Entropy) (d : Disk)
      → is_empty ctx.passphrase ≡ false
      → header_len + mac_len + length sk ≤ d.room path
      → (save_sk_encrypted E K path ctx.passphrase sk ent d).0 ≡ true
      → load_sk_decrypted E K ctx path (save_sk_encrypted E K path ctx.passphrase sk ent d).2
        ≡ (some sk, ctx)
  load-save_sk_encrypted ctx path sk ent d p room h =
      let (content, reads, e) = save_sk_encrypted-Stored path ctx.passphrase sk ent d p h in
      rw e (
        unfold load_sk_decrypted load_file in
        rw
          (
            read-write d path path content,
            (equal_iff path path).1 refl,
            take_all (d.room path) content (omega (arith, reads.size)),
          )
          (Reads-loaded ctx path sk content p reads))
