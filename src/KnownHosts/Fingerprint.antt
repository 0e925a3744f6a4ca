-- ===== src/KnownHosts/Fingerprint.antt =====
-- client/src/lib/known_hosts.c: `shyake_fingerprint`, which compares the key of a user on the instance
-- with the trusted one.
pub mod Given
pub mod Updating
use shyake.Base.{
  Bool, true, false, Bytes, Option, none, some, codes, replicate, take, equal, if◌then◌else◌,
}
use shyake.Base.Hex.{hex}
use shyake.Base.Integer.{ℤ, pos, negsuc}
use shyake.Os.{load_file}
use shyake.Context.{Ctx, Err, path_in}
use shyake.Crypto.Base64.{base64_decode}
use shyake.Network.Lookup.{fetch_recipient_pubkey}
use shyake.Client.{Libs, World, State, without_error, net_of}
use shyake.KnownHosts.{get_known_host, update_known_host}

-- `shyake_fp_result`
pub record FpResult : Type 0 where
  pub local_fp : Bytes
  pub remote_fp : Bytes
  pub has_local : Bool
  pub matches : ℤ

-- The zeros of `calloc`.
abbrev pub no_fp : Bytes
no_fp = replicate 32 0

module _ (L : Libs) (W : World) where
  own_result : Bytes → FpResult
  own_result pk = record {
    local_fp = no_fp;
    remote_fp = take 32 (L.sha256 pk);
    has_local = false;
    matches = negsuc 0;
  }

  -- The fingerprint of the trusted key: zeros where it is no base64.
  local_print : Bytes → Bytes
  local_print local_b64 = elim (base64_decode L.blocks local_b64) [
    | none ↦ no_fp
    | some known ↦ take 32 (L.sha256 known)
  ]

  unfoldable pub compared : Bytes → Option Bytes → FpResult
  unfolding own_result local_print
  compared pk none = own_result pk
  compared pk (some local_b64) =
      let remote = take 32 (L.sha256 pk) in
      record {
        local_fp = local_print local_b64;
        remote_fp = remote;
        has_local = true;
        matches = if equal (local_print local_b64) remote then pos 1 else pos 0;
      }

  fp_decoded : Bytes → Bool → Bytes → State → Option Bytes → Option FpResult × State
  fp_decoded user do_update pk_b64 s none = (none, s)
  fp_decoded user do_update pk_b64 s (some pk) =
      let dir = s.ctx.config_dir in
      (
        some (compared pk (get_known_host dir user s.disk)),
        (if do_update
            then record s {
              disk = update_known_host dir user (hex (take 32 (L.sha256 pk))) pk_b64 s.disk;
            }
            else s),
      )

  fp_fetched : Bytes → Bool → State → Option Bytes × Err × Ctx → Option FpResult × State
  fp_fetched user do_update s (none, code, ctx) = (none, record s { ctx = ctx })
  fp_fetched user do_update s (some pk_b64, code, ctx) =
      fp_decoded user do_update pk_b64 (record s { ctx = ctx }) (base64_decode L.blocks pk_b64)

  -- `shyake_fingerprint`; no user is the own account.
  unfoldable pub fingerprint : Option Bytes → Bool → State → Option FpResult × State
  unfolding fp_fetched fp_decoded own_result
  fingerprint none do_update s =
      let cleared = without_error s in
      elim (load_file (path_in cleared.ctx.config_dir (codes "kem_pk.bin")) cleared.disk) [
        | none ↦ (none, cleared)
        | some pk ↦ (some (own_result pk), cleared)
      ]
  fingerprint (some user) do_update s =
      let cleared = without_error s in
      fp_fetched user do_update cleared (fetch_recipient_pubkey L.json (net_of W) user cleared.ctx)
