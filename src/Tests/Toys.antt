-- ===== src/Tests/Toys.antt =====
-- Stand-ins for OpenSSL's cipher, liboqs, scrypt, cJSON and the operating system.
use mathlib.Core.Option.{some_inj}
use shyake.Base.{
  ◌≡◌, refl, ap, sym, false, Bytes, [], ◌∷◌, Option, none, some, codes, length, replicate,
}
use shyake.Crypto.Interface.{Evp, IsAead, KemSizes, Oqs, IsKem}
use shyake.KeyFile.{Kdf}
use shyake.Os.{Disk}
use shyake.Context.{Ctx}
use shyake.Base.Integer.{pos}
use shyake.Network.{Json}

-- A cipher that leaves the text as it is, with a tag of zeros.
abbrev pub toy_evp : Evp
toy_evp = record {
  Ctx = Unit {0};
  ctx_new = some tt;
  encrypt_init = λ c. some c;
  encrypt_key = λ c k n. some c;
  encrypt_aad = λ c a. some c;
  encrypt_update = λ c pt. some (c, pt);
  encrypt_final = λ c. some (c, []);
  get_tag = λ c n. some (replicate 16 0);
  decrypt_init = λ c. some c;
  decrypt_key = λ c k n. some c;
  decrypt_aad = λ c a. some c;
  decrypt_update = λ c ct. some (c, ct);
  set_tag = λ c t. some c;
  decrypt_final = λ c. some (c, []);
}

pub toy_evp-IsAead : IsAead toy_evp
toy_evp-IsAead = record {
  Mirrors = λ c d. Unit {0};
  init = λ c c' e. (tt, refl, tt);
  key = λ c d c' k n m e. (tt, refl, tt);
  aad = λ c d c' a m e. (tt, refl, tt);
  update = λ c d c' pt ct m e.
      let same = ap (λ (p : Unit {0} × Bytes). p.1) (some_inj.0 e) in
      (
        tt,
        ap {B = Option (Unit {0} × Bytes)} (λ (t : Bytes). some (tt, t)) (sym same),
        tt,
        ap length (sym same),
      );
  finish = λ c d c' out tag m e t. (
    sym (ap (λ (p : Unit {0} × Bytes). p.1) (some_inj.0 e)),
    ap length (sym (some_inj.0 t)),
    tt,
    refl,
    tt,
    refl,
  );
}

abbrev pub toy_pk : Bytes
toy_pk = 1 ∷ 2 ∷ 3 ∷ 4 ∷ []

abbrev pub toy_sk : Bytes
toy_sk = 5 ∷ 6 ∷ []

abbrev pub toy_sizes : KemSizes
toy_sizes = record { public_key = 4; secret_key = 2; ciphertext = 2; shared_secret = 32 }

-- One key pair, and one secret for it.
abbrev pub toy_oqs : Oqs
toy_oqs = record {
  kem_new = some toy_sizes;
  kem_keypair = λ coins. some (toy_pk, toy_sk);
  kem_encaps = λ coins pk. some (7 ∷ 8 ∷ [], replicate 32 9);
  kem_decaps = λ ct sk. some (replicate 32 9);
}

pub toy_oqs-IsKem : IsKem toy_oqs
toy_oqs-IsKem = record {
  sizes = toy_sizes;
  available = refl;
  secret_length = refl;
  public_length = λ coins pk sk e. ap (λ (p : Bytes × Bytes). length p.0) (sym (some_inj.0 e));
  encaps_lengths = λ coins pk ct ss e. (
    ap (λ (p : Bytes × Bytes). length p.0) (sym (some_inj.0 e)),
    ap (λ (p : Bytes × Bytes). length p.1) (sym (some_inj.0 e)),
  );
  recovers = λ coins coins' pk sk ct ss k e. ap (λ (p : Bytes × Bytes). some p.1) (some_inj.0 e);
}

pub toy_oqs_ciphertext : toy_oqs-IsKem.sizes.ciphertext ≡ 2
unfolding toy_oqs-IsKem
toy_oqs_ciphertext = refl

abbrev pub toy_kdf : Kdf
toy_kdf = record { scrypt = λ p s n r q m. some (replicate 32 1) }

-- A parser for which every text is an object whose items are all that text.
abbrev pub toy_json : Json
toy_json = record {
  Value = Bytes;
  parse = λ body. some body;
  item = λ v key. some v;
  string = λ v. some v;
  number = λ v. none;
  valueint = λ v. pos 0;
  valuedouble = λ v. none;
  elements = λ v. none;
  print = λ fields. [];
}

abbrev pub empty_disk : Disk
empty_disk = record { files = []; denied = λ path. false; room = λ path. 4096 }

abbrev pub toy_ctx : Ctx
toy_ctx = record {
  instance_url = some (codes "https://i.example");
  config_dir = codes "/c";
  username = some (codes "ann");
  plain = 0;
  debug = 0;
  no_color = 0;
  passphrase = codes "pw";
  new_passphrase = [];
  last_error = [];
}
