-- ===== src/Tests/Keys.antt =====
-- Key files on a small disk.
use shyake.Base.{
  equal, ◌≡◌, ◌≢◌, ◌⊎◌, refl, true, false, Bytes, [], ◌∷◌, none, some, codes, replicate, arith,
}
use shyake.Os.{insert, lookup, Disk, Entropy, load_file, write}
use shyake.Context.{set_error, or_empty}
use shyake.KeyFile.{
  header, sealed_content, save_sk_encrypted, load_sk_decrypted, has_magic, fill_random,
  open_content, derive_key,
}
use shyake.KeyFile.RoundTrip.{load-save_sk_encrypted}
use shyake.KeyFile.Failures.{
  Loads, load_sk_decrypted_success, load_sk_decrypted_failure, save_sk_encrypted_cut,
}
use shyake.Crypto.ChaCha.{chacha20_poly1305_encrypt}
use shyake.Tests.Toys.{toy_evp, toy_evp-IsAead, toy_kdf, toy_ctx, toy_sk, empty_disk}

abbrev path : Bytes
path = codes "/c/k"

abbrev drawn : Entropy
drawn = replicate 32 2 ∷ replicate 12 3 ∷ []

stored :
    (save_sk_encrypted toy_evp toy_kdf path toy_ctx.passphrase toy_sk drawn empty_disk).0 ≡ true
unfolding save_sk_encrypted fill_random chacha20_poly1305_encrypt derive_key sealed_content header
stored = refl

load-save_sk_encrypted_example :
    load_sk_decrypted toy_evp toy_kdf toy_ctx path
      (save_sk_encrypted toy_evp toy_kdf path toy_ctx.passphrase toy_sk drawn empty_disk).2
    ≡ (some toy_sk, toy_ctx)
load-save_sk_encrypted_example =
    load-save_sk_encrypted toy_evp-IsAead toy_kdf toy_ctx path toy_sk drawn empty_disk refl
      (omega arith) stored

abbrev small_disk : Disk
small_disk = record { files = []; denied = λ p. false; room = λ p. 70 }

abbrev salt : Bytes
salt = replicate 32 2

abbrev nonce : Bytes
nonce = replicate 12 3

abbrev sealed_key : Bytes
sealed_key = or_empty (sealed_content toy_evp toy_kdf toy_ctx.passphrase toy_sk salt nonce)

key_sealed : sealed_content toy_evp toy_kdf toy_ctx.passphrase toy_sk salt nonce ≡ some sealed_key
unfolding chacha20_poly1305_encrypt derive_key sealed_content header
key_sealed = refl

save_sk_encrypted_cut_example :
    let saved = save_sk_encrypted toy_evp toy_kdf path toy_ctx.passphrase toy_sk drawn small_disk in
    (saved.0 ≡ true)
    × (load_sk_decrypted toy_evp toy_kdf toy_ctx path saved.2
        ≡ (none, set_error (codes "The key file is corrupt.") toy_ctx))
unfolding fill_random
save_sk_encrypted_cut_example =
    save_sk_encrypted_cut toy_evp-IsAead toy_kdf toy_ctx path toy_sk salt nonce sealed_key drawn
      (nonce ∷ []) [] small_disk refl refl refl refl key_sealed (omega arith) (omega arith)

-- A key that is not sealed.
abbrev raw_disk : Disk
raw_disk = write empty_disk path toy_sk

raw_loaded : (load_sk_decrypted toy_evp toy_kdf toy_ctx path raw_disk).0 ≡ some toy_sk
unfolding load_sk_decrypted load_file has_magic lookup insert equal
raw_loaded = refl

load_sk_decrypted_success_example :
    ((load_sk_decrypted toy_evp toy_kdf toy_ctx path raw_disk).1 ≡ toy_ctx)
    × (content : Bytes) × (load_file path raw_disk ≡ some content)
    × Loads toy_evp toy_kdf toy_ctx content toy_sk
load_sk_decrypted_success_example =
    load_sk_decrypted_success toy_evp toy_kdf toy_ctx path raw_disk toy_sk raw_loaded

not_there : (load_sk_decrypted toy_evp toy_kdf toy_ctx path empty_disk).0 ≡ none
unfolding load_sk_decrypted load_file lookup
not_there = refl

load_sk_decrypted_failure_example :
    ((load_sk_decrypted toy_evp toy_kdf toy_ctx path empty_disk).1.last_error ≢ [])
    ⊎ (((load_sk_decrypted toy_evp toy_kdf toy_ctx path empty_disk).1 ≡ toy_ctx)
        × (content : Bytes) × (load_file path empty_disk ≡ some content)
        × (open_content toy_evp toy_kdf toy_ctx.passphrase content ≡ none))
load_sk_decrypted_failure_example =
    load_sk_decrypted_failure toy_evp toy_kdf toy_ctx path empty_disk not_there
