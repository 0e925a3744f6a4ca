-- ===== src/KeyFile/Elsewhere.antt =====
-- Saving a file or a secret key changes no other file, and a load looks at its own file only.
use shyake.Base.{
  ◌≡◌, refl, ap, false, equal, Bytes, [], ◌∷◌, Option, none, some, Bool-cases, inl, inr,
}
use shyake.Os.{Disk, Entropy, read, write, read-write, save_file, load_file}
use shyake.Context.{Ctx}
use shyake.Crypto.Interface.{Evp}
use shyake.KeyFile.{
  Kdf, fill_random, sealed_content, store_content, with_nonce, with_salt, save_sk_encrypted, loaded,
  load_sk_decrypted,
}

-- The file `other`, and what the device has room for and lets be written, are as before.
abbrev pub Untouched : Bytes → Disk → Disk → Type 0
Untouched other d d' = (read d' other ≡ read d other) × (d'.room ≡ d.room) × (d'.denied ≡ d.denied)

write-Untouched :
    (path other content : Bytes) (d : Disk)
    → equal path other ≡ false
    → Untouched other d (write d path content)
write-Untouched path other content d h = (rw (read-write d path other content, h) refl, refl, refl)

pub save_file-Untouched :
    (path other content : Bytes) (d : Disk)
    → equal path other ≡ false
    → Untouched other d (save_file path content d).1
unfolding save_file
save_file-Untouched path other content d h = elim (Bool-cases (d.denied path)) [
  | inl barred ↦ rw barred (refl, refl, refl)
  | inr free ↦ rw free (write-Untouched path other content d h)
]

module _ (E : Evp) (K : Kdf) (path other : Bytes) (apart : equal path other ≡ false) where
  store_content-Untouched :
      (made : Option Bytes) (d : Disk) → Untouched other d (store_content E K path made d).1
  unfolding store_content
  store_content-Untouched none d = (refl, refl, refl)
  store_content-Untouched (some content) d = elim (Bool-cases (d.denied path)) [
    | inl barred ↦ rw barred (refl, refl, refl)
    | inr free ↦ rw free (write-Untouched path other content d apart)
  ]

  with_nonce-Untouched :
      (passphrase sk salt : Bytes) (drawn : Option Bytes × Entropy) (d : Disk)
      → Untouched other d (with_nonce E K path passphrase sk salt drawn d).2
  unfolding with_nonce
  with_nonce-Untouched passphrase sk salt (none, ent) d = (refl, refl, refl)
  with_nonce-Untouched passphrase sk salt (some nonce, ent) d =
      store_content-Untouched (sealed_content E K passphrase sk salt nonce) d

  with_salt-Untouched :
      (passphrase sk : Bytes) (drawn : Option Bytes × Entropy) (d : Disk)
      → Untouched other d (with_salt E K path passphrase sk drawn d).2
  unfolding with_salt
  with_salt-Untouched passphrase sk (none, ent) d = (refl, refl, refl)
  with_salt-Untouched passphrase sk (some salt, ent) d =
      with_nonce-Untouched passphrase sk salt (fill_random 12 ent) d

  pub save_sk_encrypted-Untouched :
      (passphrase sk : Bytes) (ent : Entropy) (d : Disk)
      → Untouched other d (save_sk_encrypted E K path passphrase sk ent d).2
  unfolding save_sk_encrypted
  save_sk_encrypted-Untouched [] sk ent d = save_file-Untouched path other sk d apart
  save_sk_encrypted-Untouched (c ∷ cs) sk ent d =
      with_salt-Untouched (c ∷ cs) sk (fill_random 32 ent) d

pub load_sk_decrypted_same :
    (E : Evp) (K : Kdf) (ctx : Ctx) (path : Bytes) (d d' : Disk)
    → read d' path ≡ read d path
    → load_sk_decrypted E K ctx path d' ≡ load_sk_decrypted E K ctx path d
unfolding load_sk_decrypted load_file
load_sk_decrypted_same E K ctx path d d' h = ap (loaded E K ctx path) h
