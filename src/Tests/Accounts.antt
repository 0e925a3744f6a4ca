-- ===== src/Tests/Accounts.antt =====
-- Keys and accounts on a small disk.
use shyake.Crypto.ChaCha.{chacha20_poly1305_encrypt}
use shyake.Base.{
  equal, ◌≡◌, ◌≤◌, length, length-take, refl, true, Bytes, [], ◌∷◌, List, Option, none, some, codes,
  replicate, arith,
}
use shyake.Os.{insert, save_file, lookup, Disk, Entropy, load_file}
use shyake.Context.{Ctx}
use shyake.KeyFile.{
  header, derive_key, sealed_content, fill_random, save_sk_encrypted, has_magic, load_sk_decrypted,
}
use shyake.Network.Requests.{create_signed_headers_body}
use shyake.Network.Requests.Verifying.{Verifies, create_signed_headers_body-Verifies}
use shyake.Tests.Toys64.{toy_blocks-IsBase64}
use shyake.Account.{Keys, saving, save_keys, rotate}
use shyake.Account.Rotation.{Rotated, rotate-Rotated}
use shyake.Account.NewKeys.{load-save_keys}
use shyake.Register.{save_pair, generate_pair, generate_keys}
use shyake.Register.Generation.{generate_keys_again}
use shyake.Client.{State, without_error}
use shyake.Tests.Toys.{toy_evp, toy_evp-IsAead, toy_kdf, toy_ctx, empty_disk}
use shyake.Tests.Client.{toy_libs, toy_world, toy_state}

abbrev signing : Option (List Bytes) × State
signing =
    create_signed_headers_body toy_libs toy_world (codes "DELETE") (codes "/api/destroy")
      (some (codes "ann")) none toy_state

abbrev toy_headers : List Bytes
toy_headers = elim signing.0 [ none ↦ [] | some headers ↦ headers ]

are_signed : signing.0 ≡ some toy_headers
unfolding create_signed_headers_body load_sk_decrypted load_file lookup equal has_magic
are_signed = refl

short_signature : (message ssk : Bytes) → length (toy_libs.sig.sig_sign message ssk) ≤ 3309
short_signature message ssk = omega (arith, length-take 10 ssk)

create_signed_headers_body-Verifies_example :
    (ssk : Bytes) × ((load_sk_decrypted toy_evp toy_kdf toy_ctx
        (codes "/c/sig_sk.bin")
        toy_state.disk).0
      ≡ some ssk)
    × Verifies toy_libs toy_blocks-IsBase64 toy_world
        (codes "DELETE")
        (codes "/api/destroy")
        (some (codes "ann"))
        none
        ssk
        toy_headers
    × (signing.1.ctx ≡ toy_ctx)
    × (signing.1.disk ≡ toy_state.disk)
create_signed_headers_body-Verifies_example =
    create_signed_headers_body-Verifies toy_libs toy_blocks-IsBase64 toy_world (codes "DELETE")
      (codes "/api/destroy") (some (codes "ann")) none toy_state toy_headers (omega arith)
      short_signature are_signed

rotate-Rotated_example :
    Rotated toy_libs toy_world (without_error toy_state) (rotate toy_libs toy_world toy_state)
rotate-Rotated_example = rotate-Rotated toy_libs toy_world toy_state

abbrev new_ctx : Ctx
new_ctx = record toy_ctx { new_passphrase = codes "new" }

abbrev later_ctx : Ctx
later_ctx = record toy_ctx { passphrase = codes "new" }

-- Salts and nonces for two sealed keys.
abbrev save_entropy : Entropy
save_entropy = replicate 32 4 ∷ replicate 12 3 ∷ replicate 32 5 ∷ replicate 12 6 ∷ []

abbrev new_state : State
new_state = record { ctx = new_ctx; entropy = save_entropy; disk = toy_state.disk }

abbrev toy_keys : Keys
toy_keys = record {
  kem_pk = 1 ∷ 2 ∷ 3 ∷ 4 ∷ [];
  kem_sk = 5 ∷ 6 ∷ [];
  sig_pk = 9 ∷ [];
  sig_sk = 10 ∷ [];
}

abbrev saved_disk : Disk
saved_disk = (save_keys toy_libs toy_world toy_keys new_state).disk

all_saved : (saving toy_libs toy_world toy_keys new_state).0 ≡ (true, true, true, true)
unfolding saving save_file save_sk_encrypted fill_random sealed_content derive_key
    chacha20_poly1305_encrypt header
all_saved = refl

load-save_keys_example :
    (load_sk_decrypted toy_evp toy_kdf later_ctx (codes "/c/kem_sk.bin") saved_disk
      ≡ (some (5 ∷ 6 ∷ []), later_ctx))
    × (load_sk_decrypted toy_evp toy_kdf later_ctx (codes "/c/sig_sk.bin") saved_disk
        ≡ (some (10 ∷ []), later_ctx))
    × (load_file (codes "/c/kem_pk.bin") saved_disk ≡ some (1 ∷ 2 ∷ 3 ∷ 4 ∷ []))
    × (load_file (codes "/c/sig_pk.bin") saved_disk ≡ some (9 ∷ []))
load-save_keys_example =
    load-save_keys toy_libs toy_evp-IsAead toy_world toy_keys new_state later_ctx all_saved
      (omega arith) refl refl (omega arith) (omega arith)

abbrev empty_state : State
empty_state = record { ctx = toy_ctx; entropy = save_entropy; disk = empty_disk }

generated : (generate_keys toy_libs toy_world empty_state).0 ≡ true
unfolding generate_keys generate_pair lookup save_pair save_sk_encrypted fill_random sealed_content
    derive_key chacha20_poly1305_encrypt header save_file insert equal
generated = refl

generate_keys_again_example :
    generate_keys toy_libs toy_world (generate_keys toy_libs toy_world empty_state).1
    ≡ (true, (generate_keys toy_libs toy_world empty_state).1)
generate_keys_again_example =
    generate_keys_again toy_libs toy_world toy_world empty_state (omega arith) refl refl generated
