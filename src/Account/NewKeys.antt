-- ===== src/Account/NewKeys.antt =====
-- The keys that `shyake_rotate` of client/src/lib/account.c saves are the ones that are loaded later.
use Prim.Native.String.{String}
use mathlib.Core.Path.{subst}
use shyake.Base.{
  ◌+◌, ◌≤◌, ◌≡◌, refl, ap, ◌∙◌, Bool, true, false, Bytes, some, codes, length, equal, is_empty,
  arith,
}
use shyake.Os.{Disk, Entropy, save_file, load_file, load-save}
use shyake.Context.{Ctx, path_in}
use shyake.Context.Paths.{path_in_differs}
use shyake.Crypto.Interface.{IsAead}
use shyake.KeyFile.{save_sk_encrypted, load_sk_decrypted, header_len, mac_len}
use shyake.KeyFile.RoundTrip.{load-save_sk_encrypted}
use shyake.KeyFile.Elsewhere.{
  Untouched, save_file-Untouched, save_sk_encrypted-Untouched, load_sk_decrypted_same,
}
use shyake.Client.{Libs, World, State}
use shyake.Account.{Keys, saving, save_keys}

abbrev Four : Type 0
Four = Bool × Bool × Bool × Bool

load_under :
    (L : Libs) (A : IsAead L.evp) (mine : Ctx) (passphrase path sk : Bytes) (ent : Entropy)
    (d : Disk)
    → mine.passphrase ≡ passphrase
    → is_empty mine.passphrase ≡ false
    → header_len + mac_len + length sk ≤ d.room path
    → (save_sk_encrypted L.evp L.kdf path passphrase sk ent d).0 ≡ true
    → load_sk_decrypted L.evp L.kdf mine path
        (save_sk_encrypted L.evp L.kdf path passphrase sk ent d).2
      ≡ (some sk, mine)
load_under L A mine passphrase path sk ent d same given room =
    subst
      (λ p.
        (save_sk_encrypted L.evp L.kdf path p sk ent d).0 ≡ true
        → load_sk_decrypted L.evp L.kdf mine path (save_sk_encrypted L.evp L.kdf path p sk ent d).2
          ≡ (some sk, mine))
      same (load-save_sk_encrypted A L.kdf mine path sk ent d given room)

file_apart :
    (dir a b : Bytes)
    → length dir ≤ 480
    → length a ≤ 10
    → length b ≤ 10
    → equal a b ≡ false
    → equal (path_in dir a) (path_in dir b) ≡ false
file_apart dir a b short ha hb h = path_in_differs dir a b (omega arith) (omega arith) h

module _ (L : Libs) (A : IsAead L.evp) (W : World) (keys : Keys) (s : State) where
  abbrev file : String → Bytes
  file name = path_in s.ctx.config_dir (codes name)

  abbrev kem_pk_saved : Bool × Disk
  kem_pk_saved = save_file (file "kem_pk.bin") keys.kem_pk s.disk

  abbrev kem_sk_saved : Bool × Entropy × Disk
  kem_sk_saved =
      save_sk_encrypted L.evp L.kdf (file "kem_sk.bin") s.ctx.new_passphrase keys.kem_sk s.entropy
        kem_pk_saved.1

  abbrev sig_pk_saved : Bool × Disk
  sig_pk_saved = save_file (file "sig_pk.bin") keys.sig_pk kem_sk_saved.2

  abbrev sig_sk_saved : Bool × Entropy × Disk
  sig_sk_saved =
      save_sk_encrypted L.evp L.kdf (file "sig_sk.bin") s.ctx.new_passphrase keys.sig_sk
        kem_sk_saved.1 sig_pk_saved.1

  module _ (short : length s.ctx.config_dir ≤ 480) (name : Bytes) (small : length name ≤ 10) where
    behind_sig_sk :
        equal (codes "sig_sk.bin") name ≡ false
        → Untouched (path_in s.ctx.config_dir name) sig_pk_saved.1 sig_sk_saved.2
    behind_sig_sk ne =
        save_sk_encrypted-Untouched L.evp L.kdf (file "sig_sk.bin") (path_in s.ctx.config_dir name)
          (file_apart s.ctx.config_dir _ name short (omega arith) small ne) s.ctx.new_passphrase
          keys.sig_sk kem_sk_saved.1 sig_pk_saved.1

    behind_sig_pk :
        equal (codes "sig_pk.bin") name ≡ false
        → Untouched (path_in s.ctx.config_dir name) kem_sk_saved.2 sig_pk_saved.1
    behind_sig_pk ne =
        save_file-Untouched (file "sig_pk.bin") (path_in s.ctx.config_dir name) keys.sig_pk
          kem_sk_saved.2 (file_apart s.ctx.config_dir _ name short (omega arith) small ne)

    behind_kem_sk :
        equal (codes "kem_sk.bin") name ≡ false
        → Untouched (path_in s.ctx.config_dir name) kem_pk_saved.1 kem_sk_saved.2
    behind_kem_sk ne =
        save_sk_encrypted-Untouched L.evp L.kdf (file "kem_sk.bin") (path_in s.ctx.config_dir name)
          (file_apart s.ctx.config_dir _ name short (omega arith) small ne) s.ctx.new_passphrase
          keys.kem_sk s.entropy kem_pk_saved.1

    behind_kem_pk :
        equal (codes "kem_pk.bin") name ≡ false
        → Untouched (path_in s.ctx.config_dir name) s.disk kem_pk_saved.1
    behind_kem_pk ne =
        save_file-Untouched (file "kem_pk.bin") (path_in s.ctx.config_dir name) keys.kem_pk s.disk
          (file_apart s.ctx.config_dir _ name short (omega arith) small ne)

  -- Where the four saves report success, which the code does not look at, under a new passphrase that
  -- is not empty, in a directory whose paths are not cut and with room for the sealed keys: the two
  -- secret keys are loaded back under that passphrase, and the two public ones are read back.
  pub load-save_keys :
      (mine : Ctx)
      → (saving L W keys s).0 ≡ (true, true, true, true)
      → length s.ctx.config_dir ≤ 480
      → is_empty mine.passphrase ≡ false
      → mine.passphrase ≡ s.ctx.new_passphrase
      → header_len + mac_len + length keys.kem_sk ≤ s.disk.room (file "kem_sk.bin")
      → header_len + mac_len + length keys.sig_sk ≤ s.disk.room (file "sig_sk.bin")
      → let d = (save_keys L W keys s).disk in
        (load_sk_decrypted L.evp L.kdf mine (file "kem_sk.bin") d ≡ (some keys.kem_sk, mine))
        × (load_sk_decrypted L.evp L.kdf mine (file "sig_sk.bin") d ≡ (some keys.sig_sk, mine))
        × (load_file (file "kem_pk.bin") d ≡ some keys.kem_pk)
        × (load_file (file "sig_pk.bin") d ≡ some keys.sig_pk)
  unfolding saving equal load_file
  load-save_keys mine h short given same kem_room sig_room =
      let kem_sk = codes "kem_sk.bin" in
      let sig_sk = codes "sig_sk.bin" in
      let kem_pk = codes "kem_pk.bin" in
      let sig_pk = codes "sig_pk.bin" in
      let kem_sk_room : kem_pk_saved.1.room ≡ s.disk.room =
        (behind_kem_pk short kem_sk (omega arith) refl).1 in
      let sig_sk_room : sig_pk_saved.1.room ≡ s.disk.room =
        (behind_sig_pk short sig_sk (omega arith) refl).1
        ∙ (behind_kem_sk short sig_sk (omega arith) refl).1
        ∙ (behind_kem_pk short sig_sk (omega arith) refl).1 in
      (
        load_sk_decrypted_same L.evp L.kdf mine (file "kem_sk.bin") kem_sk_saved.2 sig_sk_saved.2 (
              (behind_sig_sk short kem_sk (omega arith) refl).0
              ∙ (behind_sig_pk short kem_sk (omega arith) refl).0)
            ∙ load_under L A mine s.ctx.new_passphrase (file "kem_sk.bin") keys.kem_sk s.entropy
                kem_pk_saved.1 same given (rw kem_sk_room kem_room) (ap (λ (r : Four). r.1) h),
        load_under L A mine s.ctx.new_passphrase (file "sig_sk.bin") keys.sig_sk kem_sk_saved.1
            sig_pk_saved.1 same given (rw sig_sk_room sig_room) (ap (λ (r : Four). r.3) h),
        (behind_sig_sk short kem_pk (omega arith) refl).0
            ∙ (behind_sig_pk short kem_pk (omega arith) refl).0
            ∙ (behind_kem_sk short kem_pk (omega arith) refl).0
            ∙ load-save (file "kem_pk.bin") keys.kem_pk s.disk (ap (λ (r : Four). r.0) h),
        (behind_sig_sk short sig_pk (omega arith) refl).0
            ∙ load-save (file "sig_pk.bin") keys.sig_pk kem_sk_saved.2 (ap (λ (r : Four). r.2) h),
      )
