-- ===== src/Tests/Client.antt =====
-- A client with small libraries, a world that answers every request with one key, and a state.
use shyake.Base.{◌≡◌, refl, false, true, Bytes, [], ◌∷◌, some, codes, replicate, take}
use shyake.Os.{Disk, Entropy}
use shyake.Crypto.Interface.{Sig}
use shyake.Crypto.Base64.{standard_digit, padding, is_trimmed, trimmed_length, base64_decode}
use shyake.Network.{answered}
use shyake.Client.{Libs, World, State}
use shyake.Tests.Toys.{toy_evp, toy_oqs, toy_kdf, toy_json, toy_ctx, toy_pk, toy_sk}
use shyake.Tests.Toys64.{decode64, toy_blocks}

abbrev pub toy_sig : Sig
toy_sig = record {
  sig_new = some (record { public_key = 1; secret_key = 1; signature = 2 });
  sig_keypair = λ coins. some (9 ∷ [], 10 ∷ []);
  sig_sign = λ message ssk. 1 ∷ take 10 ssk;
}

abbrev pub toy_libs : Libs
toy_libs = record {
  evp = toy_evp;
  blocks = toy_blocks;
  oqs = toy_oqs;
  sig = toy_sig;
  kdf = toy_kdf;
  json = toy_json;
  sha256 = λ text. replicate 32 171;
  sha1 = λ text. replicate 20 0;
}

abbrev pub key_b64 : Bytes
key_b64 = 257 ∷ 258 ∷ 259 ∷ 65 ∷ 260 ∷ 65 ∷ b'=' ∷ b'=' ∷ []

abbrev pub toy_world : World
toy_world = record {
  curl_init = true;
  perform = λ request. answered 200 key_b64;
  now = 5;
  date = codes "260101";
  seeded = replicate 12 1;
  coins = λ n. [];
  stack = replicate 12 0;
  readdir = λ path. some (codes "m1.json" ∷ []);
  has_dir = λ path. true;
}

abbrev pub toy_disk : Disk
toy_disk = record {
  files =
      (codes "/c/kem_pk.bin", toy_pk)
      ∷ (codes "/c/kem_sk.bin", toy_sk)
      ∷ (codes "/c/sig_pk.bin", 9 ∷ [])
      ∷ (codes "/c/sig_sk.bin", 10 ∷ [])
      ∷ (codes "/c/saved/m1.json", codes "text")
      ∷ [];
  denied = λ path. false;
  room = λ path. 4096;
}

-- Enough answers of `/dev/urandom` for a mail.
abbrev pub toy_entropy : Entropy
toy_entropy =
    replicate 32 4 ∷ replicate 12 3 ∷ replicate 12 3 ∷ replicate 12 3 ∷ replicate 32 6 ∷ []

abbrev pub toy_state : State
toy_state = record { ctx = toy_ctx; entropy = toy_entropy; disk = toy_disk }

pub key_b64_decodes : base64_decode toy_blocks key_b64 ≡ some toy_pk
unfolding base64_decode decode64 trimmed_length is_trimmed padding standard_digit
key_b64_decodes = refl
