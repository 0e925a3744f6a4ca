-- ===== src/EncFile.antt =====
-- client/src/lib/enc_dec.c: a file encrypted to a recipient's KEM key, and its decryption. Memory is
-- always there, and a file that was opened is read whole.
pub mod RoundTrip
pub mod Delivery
use shyake.Base.{
  ℕ, ◌+◌, Bool, Bytes, [], ◌∷◌, ◌++◌, Option, none, some, ◌>>=◌, ◌>>◌, require, codes, snprintf,
  length, take, ◌==◌, if◌then◌else◌,
}
use shyake.Base.Xor.{xor_bytes}
use shyake.Wire.{write_u32le, fread, fread_u32le}
use shyake.Os.{Disk, Entropy, read, write, load_file}
use shyake.Context.{Ctx, set_error, clear_error, Err, ok, err, err_crypto, path_in}
use shyake.Crypto.Interface.{Evp, Blocks, Oqs, KemSizes}
use shyake.Crypto.Base64.{base64_decode}
use shyake.Crypto.ChaCha.{chacha20_poly1305_encrypt, chacha20_poly1305_decrypt}
use shyake.KeyFile.{Kdf, fill_random, load_sk_decrypted}
use shyake.Network.{Json, Net}
use shyake.Network.Lookup.{fetch_recipient_pubkey}

-- The fields of an encrypted file.
pub record Parts : Type 0 where
  pub kem_ct : Bytes
  pub ek : Bytes
  pub nonce : Bytes
  pub ct : Bytes
  pub mac : Bytes

-- The writes at the end of `shyake_enc_file`. The length of the plain text is cast to `u32`.
unfoldable pub layout : ℕ → ℕ → Parts → Bytes
layout kem_ct_len pt_len p =
    write_u32le kem_ct_len
    ++ (p.kem_ct
        ++ (write_u32le 32 ++ (p.ek ++ (write_u32le pt_len ++ (p.nonce ++ (p.ct ++ p.mac))))))

-- `fread(buf, 1, n, f) != n` is `none`.
unfoldable pub fread_all : ℕ → Bytes → Option (Bytes × Bytes)
fread_all n f = let (buf, rest) = fread n f in if length buf == n then some (buf, rest) else none

-- The reads at the start of `shyake_dec_file`; `none` is `bad_format`.
unfoldable pub parse : Bytes → Option Parts
parse f0 =
    let (kem_ct_len, f1) = fread_u32le f0 in
    do
      (kem_ct, f2) ← fread_all kem_ct_len f1
      let (ek_len, f3) = fread_u32le f2
      require (ek_len == 32)
      (ek, f4) ← fread_all 32 f3
      let (pt_len, f5) = fread_u32le f4
      (nonce, f6) ← fread_all 12 f5
      (ct, f7) ← fread_all pt_len f6
      (mac, f8) ← fread_all 16 f7
      some (record { kem_ct = kem_ct; ek = ek; nonce = nonce; ct = ct; mac = mac })

-- The key, or the code to return without one.
abbrev pub Resolved : Type 0
Resolved = Option Bytes × Err × Ctx

-- The code, the path that was used, and the state.
abbrev pub EncResult : Type 0
EncResult = Err × Option Bytes × Ctx × Entropy × Disk

-- The code, the context, the files, and what went to standard output.
abbrev pub DecResult : Type 0
DecResult = Err × Ctx × Disk × Bytes

-- "determine output path"
abbrev pub dest_path : Bytes → Option Bytes → Bytes
dest_path in_path none = snprintf 640 (in_path ++ codes ".enc")
dest_path in_path (some out_path) = out_path

module _ (E : Evp) (B : Blocks) (O : Oqs) where
  decoded_key : Resolved → Resolved
  decoded_key (none, lookup, ctx) = (none, lookup, ctx)
  decoded_key (some pk_b64, lookup, ctx) = (base64_decode B pk_b64, err_crypto, ctx)

  module _ (J : Json) (net : Net) where
    -- "resolve KEM public key"
    unfoldable pub resolve_key : Option Bytes → Disk → Ctx → Resolved
    unfolding decoded_key
    resolve_key none d ctx =
        (load_file (path_in ctx.config_dir (codes "kem_pk.bin")) d, err_crypto, ctx)
    resolve_key (some recipient) d ctx = decoded_key (fetch_recipient_pubkey J net recipient ctx)

  -- From "KEM encapsulate" to `ek`, with the length that the KEM object carries.
  unfoldable pub encapsulate : Bytes → Bytes → Bytes → Option (ℕ × Bytes × Bytes)
  encapsulate coins kem_pk sym_key = do
    kem ← O.kem_new
    require (length kem_pk == kem.public_key)
    (kem_ct, ss) ← O.kem_encaps coins kem_pk
    some (kem.ciphertext, take kem.ciphertext kem_ct, xor_bytes sym_key ss)

  unfoldable pub seal_text : Bytes → Bytes → ℕ → Bytes → Bytes → Bytes → Option Bytes
  seal_text pt sym_key kem_ct_len kem_ct ek nonce = do
    (ct, mac) ← chacha20_poly1305_encrypt E sym_key nonce pt []
    some (
        layout kem_ct_len (length pt)
          (record { kem_ct = kem_ct; ek = ek; nonce = nonce; ct = ct; mac = mac }))

  with_wrapped : Bytes → Option (Bytes × ℕ × Bytes × Bytes) → Entropy → Option Bytes × Entropy
  with_wrapped pt none ent = (none, ent)
  with_wrapped pt (some (sym_key, kem_ct_len, kem_ct, ek)) ent =
      let (nonce, rest) = fill_random 12 ent in
      (nonce >>= seal_text pt sym_key kem_ct_len kem_ct ek, rest)

  -- From "generate random symmetric key" to "encrypt"; each failure is `SHYAKE_ERR_CRYPTO`.
  unfoldable pub enc_content : Bytes → Bytes → Bytes → Entropy → Option Bytes × Entropy
  unfolding with_wrapped
  enc_content coins kem_pk pt ent =
      let (drawn, rest) = fill_random 32 ent in
      let wrapped = do
        sym_key ← drawn
        (kem_ct_len, kem_ct, ek) ← encapsulate coins kem_pk sym_key
        some (sym_key, kem_ct_len, kem_ct, ek)
      in with_wrapped pt wrapped rest

  -- From "determine output path".
  enc_store : Bytes → Ctx → Disk → Option Bytes × Entropy → EncResult
  enc_store dest ctx d (none, ent) = (err_crypto, none, ctx, ent, d)
  enc_store dest ctx d (some content, ent) =
      if d.denied dest
      then (err, none, set_error (codes "Cannot write " ++ (dest ++ codes ".")) ctx, ent, d)
      else (ok, some dest, ctx, ent, write d dest content)

  enc_resolved : Bytes → Bytes → Bytes → Entropy → Disk → Resolved → EncResult
  enc_resolved coins dest pt ent d (none, code, ctx) = (code, none, ctx, ent, d)
  enc_resolved coins dest pt ent d (some kem_pk, code, ctx) =
      enc_store dest ctx d (enc_content coins kem_pk pt ent)

  enc_opened :
      Json
      → Net
      → Bytes
      → Bytes
      → Bytes
      → Option Bytes
      → Ctx
      → Entropy
      → Disk
      → Option Bytes
      → EncResult
  enc_opened J net coins in_path dest recipient ctx ent d none =
      (err, none, set_error (codes "Cannot open " ++ (in_path ++ codes ".")) ctx, ent, d)
  enc_opened J net coins in_path dest recipient ctx ent d (some pt) =
      enc_resolved coins dest pt ent d (resolve_key J net recipient d ctx)

  -- `shyake_enc_file`
  unfoldable pub enc_file :
      Json → Net → Bytes → Bytes → Option Bytes → Option Bytes → Ctx → Entropy → Disk → EncResult
  unfolding enc_opened enc_resolved enc_store
  enc_file J net coins in_path out_path recipient ctx ent d =
      enc_opened J net coins in_path (dest_path in_path out_path) recipient (clear_error ctx) ent d
        (read d in_path)

  -- The end of `shyake_dec_file`; no path is standard output.
  dec_store : Option Bytes → Ctx → Disk → Bytes → DecResult
  dec_store none ctx d pt = (ok, ctx, d, pt)
  dec_store (some out_path) ctx d pt =
      if d.denied out_path
      then (err, set_error (codes "Cannot write " ++ (out_path ++ codes ".")) ctx, d, [])
      else (ok, ctx, write d out_path pt, [])

  dec_text : Option Bytes → Ctx → Disk → Option Bytes → DecResult
  dec_text out_path ctx d none =
      (err_crypto, set_error (codes "The file is damaged or was changed.") ctx, d, [])
  dec_text out_path ctx d (some pt) = dec_store out_path ctx d pt

  -- `sym_key[i] = ek[i] ^ ss[i]` and the decryption under it.
  unfoldable pub unseal_text : Parts → Bytes → Option Bytes
  unseal_text p ss = chacha20_poly1305_decrypt E (xor_bytes p.ek ss) p.nonce p.ct [] p.mac

  dec_secret : Option Bytes → Ctx → Disk → Parts → Option Bytes → DecResult
  dec_secret out_path ctx d p none =
      (err_crypto, set_error (codes "The file is not encrypted to your key.") ctx, d, [])
  dec_secret out_path ctx d p (some ss) = dec_text out_path ctx d (unseal_text p ss)

  dec_kem : Option Bytes → Ctx → Disk → Parts → Bytes → Option KemSizes → DecResult
  dec_kem out_path ctx d p ksk none = (err_crypto, ctx, d, [])
  dec_kem out_path ctx d p ksk (some kem) = dec_secret out_path ctx d p (O.kem_decaps p.kem_ct ksk)

  dec_loaded : Option Bytes → Disk → Parts → Option Bytes × Ctx → DecResult
  dec_loaded out_path d p (none, ctx) = (err_crypto, ctx, d, [])
  dec_loaded out_path d p (some ksk, ctx) = dec_kem out_path ctx d p ksk O.kem_new

  module _ (K : Kdf) where
    dec_parsed : Option Bytes → Ctx → Disk → Option Parts → DecResult
    dec_parsed out_path ctx d none =
        (err, set_error (codes "The file is not a valid .enc file.") ctx, d, [])
    dec_parsed out_path ctx d (some p) =
        dec_loaded out_path d p
          (load_sk_decrypted E K ctx (path_in ctx.config_dir (codes "kem_sk.bin")) d)

    dec_opened : Bytes → Option Bytes → Ctx → Disk → Option Bytes → DecResult
    dec_opened in_path out_path ctx d none =
        (err, set_error (codes "Cannot open " ++ (in_path ++ codes ".")) ctx, d, [])
    dec_opened in_path out_path ctx d (some content) = dec_parsed out_path ctx d (parse content)

    -- `shyake_dec_file`
    unfoldable pub dec_file : Bytes → Option Bytes → Ctx → Disk → DecResult
    unfolding dec_opened dec_parsed dec_loaded dec_kem dec_secret dec_text dec_store
    dec_file in_path out_path ctx d =
        dec_opened in_path out_path (clear_error ctx) d (read d in_path)
