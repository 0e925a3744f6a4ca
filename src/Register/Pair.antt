-- ===== src/Register/Pair.antt =====
-- One half of `shyake_generate_keys` of client/src/lib/libshyake.c: a key pair is made where there is
-- none.
use shyake.Base.{◌≡◌, refl, ◌∙◌, true, false, Bytes, Option, none, some, equal, equal_iff, take}
use shyake.Os.{Disk, read, read-write, save_file}
use shyake.Context.{path_in}
use shyake.KeyFile.Elsewhere.{Untouched, save_file-Untouched, save_sk_encrypted-Untouched}
use shyake.Client.{Libs, State}
use shyake.Register.{save_pair, made_pair, generate_pair}

-- The file is there.
abbrev pub Exists : Disk → Bytes → Type 0
Exists d path = (content : Bytes) × (read d path ≡ some content)

save_file-Exists :
    (path content : Bytes) (d : Disk)
    → d.denied path ≡ false
    → Exists (save_file path content d).1 path
unfolding save_file
save_file-Exists path content d free = (
  take (d.room path) content,
  rw free (rw (read-write d path path content, (equal_iff path path).1 refl) refl),
)

module _ (L : Libs) (pk_name sk_name : Bytes) (s : State) where
  abbrev file : Bytes → Bytes
  file name = path_in s.ctx.config_dir name

  save_pair-Exists :
      (pair : Bytes × Bytes)
      → s.disk.denied (file pk_name) ≡ false
      → equal (file sk_name) (file pk_name) ≡ false
      → Exists (save_pair L pk_name sk_name pair s).disk (file pk_name)
  unfolding save_pair
  save_pair-Exists (pk, sk) free apart =
      let (content, there) = save_file-Exists (file pk_name) pk s.disk free in
      let later =
        save_sk_encrypted-Untouched L.evp L.kdf (file sk_name) (file pk_name) apart s.ctx.passphrase
          sk s.entropy (save_file (file pk_name) pk s.disk).1 in
      (content, later.0 ∙ there)

  save_pair-Untouched :
      (pair : Bytes × Bytes) (other : Bytes)
      → equal (file pk_name) other ≡ false
      → equal (file sk_name) other ≡ false
      → Untouched other s.disk (save_pair L pk_name sk_name pair s).disk
  unfolding save_pair
  save_pair-Untouched (pk, sk) other apart_pk apart_sk =
      let first = save_file-Untouched (file pk_name) other pk s.disk apart_pk in
      let later =
        save_sk_encrypted-Untouched L.evp L.kdf (file sk_name) other apart_sk s.ctx.passphrase sk
          s.entropy (save_file (file pk_name) pk s.disk).1 in
      (later.0 ∙ first.0, later.1 ∙ first.1, later.2 ∙ first.2)

  pub generate_pair-Exists :
      (pair : Option (Bytes × Bytes))
      → s.disk.denied (file pk_name) ≡ false
      → equal (file sk_name) (file pk_name) ≡ false
      → (generate_pair L pk_name sk_name pair s).0 ≡ true
      → Exists (generate_pair L pk_name sk_name pair s).1.disk (file pk_name)
  unfolding generate_pair made_pair
  generate_pair-Exists pair free apart = go pair (read s.disk (file pk_name)) refl
    where
      go :
          (pair : Option (Bytes × Bytes)) (o : Option Bytes)
          → read s.disk (file pk_name) ≡ o
          → (made_pair L pk_name sk_name pair s o).0 ≡ true
          → Exists (made_pair L pk_name sk_name pair s o).1.disk (file pk_name)
      go pair (some there) e h = (there, e)
      go none none e h = cc
      go (some pair) none e h = save_pair-Exists pair free apart

  pub generate_pair-Untouched :
      (pair : Option (Bytes × Bytes)) (other : Bytes)
      → equal (file pk_name) other ≡ false
      → equal (file sk_name) other ≡ false
      → Untouched other s.disk (generate_pair L pk_name sk_name pair s).1.disk
  unfolding generate_pair made_pair
  generate_pair-Untouched pair other apart_pk apart_sk = go pair (read s.disk (file pk_name))
    where
      go :
          (pair : Option (Bytes × Bytes)) (o : Option Bytes)
          → Untouched other s.disk (made_pair L pk_name sk_name pair s o).1.disk
      go pair (some there) = (refl, refl, refl)
      go none none = (refl, refl, refl)
      go (some pair) none = save_pair-Untouched pair other apart_pk apart_sk

  pub generate_pair_ctx :
      (pair : Option (Bytes × Bytes)) → (generate_pair L pk_name sk_name pair s).1.ctx ≡ s.ctx
  unfolding generate_pair made_pair save_pair
  generate_pair_ctx pair = go pair (read s.disk (file pk_name))
    where
      go :
          (pair : Option (Bytes × Bytes)) (o : Option Bytes)
          → (made_pair L pk_name sk_name pair s o).1.ctx ≡ s.ctx
      go pair (some there) = refl
      go none none = refl
      go (some (pk, sk)) none = refl

  pub generate_pair_kept :
      (pair : Option (Bytes × Bytes))
      → Exists s.disk (file pk_name)
      → generate_pair L pk_name sk_name pair s ≡ (true, s)
  unfolding generate_pair made_pair
  generate_pair_kept pair (there, e) = rw e refl
