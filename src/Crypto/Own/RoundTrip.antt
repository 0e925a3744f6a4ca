-- ===== src/Crypto/Own/RoundTrip.antt =====
-- What the user sealed for himself is opened again.
use mathlib.Core.Option.{some_inj}
use mathlib.Core.Path.{subst}
use shyake.Base.{◌≡◌, refl, ap, Bytes, Option, some, >>=-eq-some, codes, length, take_all, arith}
use shyake.Os.{load_file}
use shyake.Context.{path_in}
use shyake.Crypto.Interface.{IsKem, IsBase64}
use shyake.Crypto.Kem.{kem_encapsulate_key}
use shyake.Crypto.Kem.RoundTrip.{decapsulate-encapsulate}
use shyake.Crypto.Own.{selfenc_begin, selfdec_key}
use shyake.KeyFile.{fill_random}
use shyake.KeyFile.RoundTrip.{length-fill_random}
use shyake.Client.{Libs, State}

module _ (L : Libs) (D : IsBase64 L.blocks) (M : IsKem L.oqs) where
  selfdec-wrapped :
      (coins coins' kpk ksk sym_key enc_key : Bytes)
      → L.oqs.kem_keypair coins ≡ some (kpk, ksk)
      → length sym_key ≡ 32
      → kem_encapsulate_key L.oqs L.blocks coins' kpk sym_key ≡ some enc_key
      → selfdec_key L ksk enc_key ≡ some sym_key
  unfolding selfdec_key
  selfdec-wrapped coins coins' kpk ksk sym_key enc_key pair k h =
      rw
        (
          decapsulate-encapsulate M D coins coins' kpk ksk sym_key enc_key pair k h,
          take_all 32 sym_key (omega arith),
        )
        refl

  -- The key that `shyake_selfenc_begin` draws for what is sealed with the own public key is the one
  -- that `shyake_selfdec_key` gets back with the secret key of the pair.
  pub selfdec-selfenc :
      (coins coins' kpk ksk sym_key enc_key : Bytes) (s t : State)
      → L.oqs.kem_keypair coins ≡ some (kpk, ksk)
      → load_file (path_in s.ctx.config_dir (codes "kem_pk.bin")) s.disk ≡ some kpk
      → selfenc_begin L coins' s ≡ (some (sym_key, enc_key), t)
      → selfdec_key L ksk enc_key ≡ some sym_key
  unfolding selfenc_begin
  selfdec-selfenc coins coins' kpk ksk sym_key enc_key s t pair loaded h =
      let h' = rw loaded at h in
      let (drawn, draw, wrap) =
        >>=-eq-some (fill_random 32 s.entropy).0 _
          (ap (λ (r : Option (Bytes × Bytes) × State). r.0) h') in
      let (wrapped, made, same) =
        >>=-eq-some (kem_encapsulate_key L.oqs L.blocks coins' kpk drawn) _ wrap in
      let here =
        selfdec-wrapped coins coins' kpk ksk drawn wrapped pair
          (length-fill_random 32 s.entropy draw) made in
      subst (λ (p : Bytes × Bytes). selfdec_key L ksk p.1 ≡ some p.0) (some_inj.0 same) here
