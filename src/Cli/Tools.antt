-- ===== src/Cli/Tools.antt =====
-- client/src/cli/main.c: the commands on keys, files and versions.
use shyake.Base.{
  Bool, true, false, not, ◌&&◌, Bytes, [], ◌∷◌, ◌++◌, List, Option, none, some, ℕ, zero, suc, codes,
  equal, if◌then◌else◌,
}
use shyake.Base.Integer.{pos, negsuc}
use shyake.Context.{or_empty}
use shyake.Client.{Libs, World, State, net_of}
use shyake.KnownHosts.Fingerprint.{FpResult, fingerprint}
use shyake.EncFile.{EncResult, DecResult, enc_file, dec_file}
use shyake.Update.Version.{version_cmp}
use shyake.Update.{VersionInfo}
use shyake.Display.Fingerprint.{render_fingerprint}
use shyake.Cli.Prompt.{Terminal}
use shyake.Cli.Session.{with_local, if_both, fresh_ctx, opened}
use shyake.Cli.{
  Shown, out, note, Setup, Host, Run, ended, refused, then_shown, print_lib_error, is_ok,
}

-- The loop over the arguments of `fingerprint`: `--update`, and the first other one.
unfoldable pub fingerprint_options : Bool → Option Bytes → List Bytes → Bool × Option Bytes
fingerprint_options do_update target [] = (do_update, target)
fingerprint_options do_update target (arg ∷ args) =
    if equal arg (codes "--update")
    then fingerprint_options true target args
    else fingerprint_options do_update
        (elim target as (λ _. Option Bytes) [ none ↦ some arg | some user ↦ some user ]) args

module _ (L : Libs) (T : Terminal) (W : ℕ → World) (setup : Setup) where
  -- What is printed before the library is called.
  unfoldable pub fingerprint_intro : Bytes → Bool → Option Bytes → List Shown
  fingerprint_intro user do_update none =
      out (codes "Fingerprint for " ++ (user ++ codes " (local):\n")) ∷ []
  fingerprint_intro user do_update (some target) =
      if do_update
      then []
      else out (codes "Fetching public key for " ++ (target ++ codes "...\n")) ∷ []

  unfoldable pub fingerprint_shown : Bool → Option Bytes → FpResult → List Shown
  fingerprint_shown do_update none fp = out (render_fingerprint fp true) ∷ []
  fingerprint_shown do_update (some target) fp =
      if do_update
      then out (codes "Updated known_hosts for " ++ (target ++ codes ".\n")) ∷ []
      else out (render_fingerprint fp false) ∷ []

  fingerprint_ended : Bool → Option Bytes → Option FpResult × State → Run
  fingerprint_ended do_update target (none, s) =
      ended false (print_lib_error s.ctx (codes "Fingerprint failed.")) s
  fingerprint_ended do_update target (some fp, s) =
      ended true (fingerprint_shown do_update target fp) s

  fingerprint_asked : Bool × Option Bytes → Host → Bytes → Bytes → Option Run
  fingerprint_asked (do_update, target) host inst user = some (
      then_shown (fingerprint_intro user do_update target) (
        fingerprint_ended do_update target
          (fingerprint L (W 0) target do_update (opened (fresh_ctx setup inst user) host))))

  -- `fingerprint`; no passphrase is asked for.
  unfoldable pub fingerprint_command : List Bytes → Host → Option Run
  unfolding fingerprint_asked fingerprint_ended
  fingerprint_command args host =
      if_both T setup host setup.app.instance_url setup.app.username
        (fingerprint_asked (fingerprint_options false none args) host)

  enc_ended : EncResult → Run
  enc_ended (code, used_path, ctx, ent, d) =
      let host : Host = record { entropy = ent; disk = d } in
      if is_ok code
      then record {
        status = true;
        shown = note (codes "Encrypted: " ++ (or_empty used_path ++ codes "\n")) ∷ [];
        host = host;
      }
      else record {
        status = false;
        shown = print_lib_error ctx (codes "Encryption failed.");
        host = host;
      }

  enc_run : Bytes → Option Bytes → Option Bytes → Host → Run
  enc_run in_path out_path recipient host =
      let ctx = fresh_ctx setup (or_empty setup.app.instance_url) (or_empty setup.app.username) in
      enc_ended (
        enc_file L.evp L.blocks L.oqs L.json (net_of (W 0)) ((W 0).coins 0) in_path out_path
          recipient ctx host.entropy host.disk)

  -- `enc`: the file, `-o` and `-t`; the account is needed only for a recipient.
  unfoldable pub enc_command : Option Bytes → Option Bytes → Option Bytes → Host → Option Run
  unfolding enc_run enc_ended
  enc_command none out_path recipient host =
      some (
        refused (note (codes "Usage: shyake enc <file> [-t <username>] [-o <output>]\n") ∷ []) host)
  enc_command (some in_path) out_path none host = some (enc_run in_path out_path none host)
  enc_command (some in_path) out_path (some recipient) host =
      if_both T setup host setup.app.instance_url setup.app.username
        (λ inst user. some (enc_run in_path out_path (some recipient) host))

  dec_ended : Option Bytes → State → DecResult → Run
  dec_ended out_path s (code, ctx, d, text) =
      if is_ok code
      then ended true
          (elim out_path as (λ _. List Shown) [
            | none ↦ out text ∷ []
            | some path ↦ note (codes "Decrypted: " ++ (path ++ codes "\n")) ∷ []
          ])
          (record s { disk = d })
      else ended false (print_lib_error ctx (codes "Decryption failed.")) (record s { disk = d })

  -- `dec`: the file and `-o`.
  unfoldable pub dec_command : Option Bytes → Option Bytes → Host → Option Run
  unfolding dec_ended
  dec_command none out_path host =
      some (refused (note (codes "Usage: shyake dec <file> [-o <output>]\n") ∷ []) host)
  dec_command (some in_path) out_path host = with_local T setup host (λ s.
      some
        (dec_ended out_path s (dec_file L.evp L.blocks L.oqs L.kdf in_path out_path s.ctx s.disk)))

-- `show_preview`
unfoldable pub shows_preview : VersionInfo → Bool
shows_preview info = elim info.pre_release as (λ _. Bool) [
  | none ↦ false
  | some pre ↦ elim (version_cmp pre (or_empty info.release)) as (λ _. Bool) [
    | pos zero ↦ false
    | pos (suc n) ↦ true
    | negsuc n ↦ false
  ]
]

-- `s && strcmp(SHYAKE_VERSION, s) == 0`
abbrev pub is_installed : Bytes → Option Bytes → Bool
is_installed installed none = false
is_installed installed (some v) = equal installed v

-- The hint at the end of `update`.
unfoldable pub update_hint : Bool → Bool → Bytes
update_hint true true = codes "\nRun 'shyake update stable' or 'shyake update preview' to update.\n"
update_hint true false = codes "\nRun 'shyake update stable' to update.\n"
update_hint false true = codes "\nRun 'shyake update preview' to install the preview release.\n"
update_hint false false = []

-- `update` without an argument, on what `cli_get_latest_version` gives: what is printed.
unfoldable pub update_report : Bytes → VersionInfo → Bytes
unfolding shows_preview update_hint
update_report installed info =
    let show_preview = shows_preview info in
    codes "Installed: "
    ++ (installed
        ++ (codes "\nStable:    "
            ++ (elim info.release as (λ _. Bytes) [ none ↦ codes "N/A" | some v ↦ v ]
                ++ (codes "\n"
                    ++ ((if show_preview
                          then codes "Preview:   " ++ (or_empty info.pre_release ++ codes "\n")
                          else [])
                        ++ update_hint (not (is_installed installed info.release))
                            (show_preview && not (is_installed installed info.pre_release)))))))
