-- ===== src/Tests/Files.antt =====
-- A file that is encrypted and decrypted on a small disk.
use shyake.Crypto.ChaCha.{chacha20_poly1305_encrypt}
use shyake.Base.{
  equal, ◌≡◌, refl, false, Bytes, [], ◌∷◌, Option, none, some, codes, replicate, arith,
}
use shyake.Os.{insert, load_file, Disk, Entropy, read, lookup}
use shyake.Context.{ok, clear_error}
use shyake.KeyFile.{has_magic, fill_random, load_sk_decrypted}
use shyake.Network.{Net}
use shyake.EncFile.{seal_text, encapsulate, enc_content, EncResult, enc_file, dec_file, resolve_key}
use shyake.EncFile.Delivery.{Closed, dec-enc_file, dec_file-Closed}
use shyake.Tests.Toys.{
  toy_evp, toy_evp-IsAead, toy_oqs, toy_oqs-IsKem, toy_oqs_ciphertext, toy_kdf, toy_json, toy_ctx,
  toy_pk, toy_sk,
}
use shyake.Tests.Toys64.{toy_blocks}

abbrev disk : Disk
disk = record {
  files =
      (codes "/c/kem_pk.bin", toy_pk)
      ∷ (codes "/c/kem_sk.bin", toy_sk)
      ∷ (codes "/in", codes "hi")
      ∷ [];
  denied = λ path. false;
  room = λ path. 4096;
}

abbrev offline : Net
offline = λ url. none

abbrev drawn : Entropy
drawn = replicate 32 4 ∷ replicate 12 3 ∷ []

abbrev encrypted : EncResult
encrypted =
    enc_file toy_evp toy_blocks toy_oqs toy_json offline [] (codes "/in") none none toy_ctx drawn
      disk

encrypted_ok : encrypted ≡ (ok, some (codes "/in.enc"), encrypted.2, encrypted.3, encrypted.4)
unfolding enc_file lookup equal resolve_key load_file enc_content fill_random encapsulate seal_text
    chacha20_poly1305_encrypt
encrypted_ok = refl

own_key :
    (resolve_key toy_evp toy_blocks toy_oqs toy_json offline none disk (clear_error toy_ctx)).0
    ≡ some toy_pk
unfolding resolve_key load_file lookup equal
own_key = refl

own_secret :
    load_sk_decrypted toy_evp toy_kdf (clear_error toy_ctx) (codes "/c/kem_sk.bin") encrypted.4
    ≡ (some toy_sk, clear_error toy_ctx)
unfolding load_sk_decrypted enc_file load_file lookup equal resolve_key enc_content fill_random
    encapsulate seal_text chacha20_poly1305_encrypt insert has_magic
own_secret = refl

in_there : ◌≡◌ {A = Option Bytes} (read disk (codes "/in")) (some (codes "hi"))
unfolding lookup equal
in_there = refl

dec-enc_file_example :
    dec_file toy_evp toy_blocks toy_oqs toy_kdf (codes "/in.enc") none toy_ctx encrypted.4
    ≡ (ok, clear_error toy_ctx, encrypted.4, codes "hi")
dec-enc_file_example =
    dec-enc_file toy_evp-IsAead toy_blocks toy_oqs-IsKem toy_kdf toy_json offline [] []
      (codes "/in") (codes "/in.enc") toy_pk toy_sk (codes "hi") none none toy_ctx encrypted.2
      toy_ctx (clear_error toy_ctx) drawn encrypted.3 disk encrypted.4
      (omega (arith, toy_oqs_ciphertext)) (omega arith) (omega (arith, toy_oqs_ciphertext)) refl
      in_there own_key encrypted_ok own_secret

dec_file-Closed_example :
    Closed toy_evp-IsAead toy_blocks toy_oqs-IsKem toy_kdf toy_json offline
      (codes "/in")
      none
      toy_ctx
      disk
      (dec_file toy_evp toy_blocks toy_oqs toy_kdf (codes "/in") none toy_ctx disk)
dec_file-Closed_example =
    dec_file-Closed toy_evp-IsAead toy_blocks toy_oqs-IsKem toy_kdf toy_json offline (codes "/in")
      none toy_ctx disk
