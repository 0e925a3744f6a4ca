-- ===== src/Crypto/Own.antt =====
-- client/src/lib/crypto_ops.c: what is sealed for the user alone, with a key wrapped for the user's
-- own KEM key.
pub mod RoundTrip
use shyake.Base.{◌≡◌, refl, Bytes, Option, none, some, ◌>>=◌, codes, take}
use shyake.Os.{Entropy, load_file}
use shyake.Context.{Ctx, path_in}
use shyake.Crypto.Kem.{kem_encapsulate_key, kem_decapsulate_key}
use shyake.KeyFile.{fill_random, load_sk_decrypted}
use shyake.Client.{Libs, State}

module _ (L : Libs) where
  -- The key that was drawn, and what it is wrapped in.
  selfenc_drawn : Bytes → Bytes → State → Option Bytes × Entropy → Option (Bytes × Bytes) × State
  selfenc_drawn coins kpk s (drawn, ent) = (
    do
      sym_key ← drawn
      enc_key ← kem_encapsulate_key L.oqs L.blocks coins kpk sym_key
      some (sym_key, enc_key),
    record s { entropy = ent },
  )

  selfenc_loaded : Bytes → State → Option Bytes → Option (Bytes × Bytes) × State
  selfenc_loaded coins s none = (none, s)
  selfenc_loaded coins s (some kpk) = selfenc_drawn coins kpk s (fill_random 32 s.entropy)

  -- `shyake_selfenc_begin`: `sym_key` and the result.
  unfoldable pub selfenc_begin : Bytes → State → Option (Bytes × Bytes) × State
  unfolding selfenc_loaded selfenc_drawn
  selfenc_begin coins s =
      selfenc_loaded coins s (load_file (path_in s.ctx.config_dir (codes "kem_pk.bin")) s.disk)

  selfenc_loaded_disk :
      (coins : Bytes) (s : State) (kpk : Option Bytes)
      → (selfenc_loaded coins s kpk).1.disk ≡ s.disk
  unfolding selfenc_loaded selfenc_drawn
  selfenc_loaded_disk coins s none = refl
  selfenc_loaded_disk coins s (some kpk) = refl

  pub selfenc_begin_disk : (coins : Bytes) (s : State) → (selfenc_begin coins s).1.disk ≡ s.disk
  unfolding selfenc_begin
  selfenc_begin_disk coins s =
      selfenc_loaded_disk coins s (load_file (path_in s.ctx.config_dir (codes "kem_pk.bin")) s.disk)

  -- `shyake_selfdec_new`: the secret key that the object holds.
  unfoldable pub selfdec_new : State → Option Bytes × Ctx
  selfdec_new s =
      load_sk_decrypted L.evp L.kdf s.ctx (path_in s.ctx.config_dir (codes "kem_sk.bin")) s.disk

  -- `shyake_selfdec_key`: `SHYAKE_OK` with the key, or `SHYAKE_ERR_CRYPTO`.
  unfoldable pub selfdec_key : Bytes → Bytes → Option Bytes
  selfdec_key ksk enc_key_b64 = do
    sym ← kem_decapsulate_key L.oqs L.blocks enc_key_b64 ksk
    some (take 32 sym)
