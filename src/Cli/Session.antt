-- ===== src/Cli/Session.antt =====
-- client/src/cli/main.c: how a command opens the library.
pub mod Opening
use shyake.Base.{
  Bool, true, false, Bytes, [], ◌∷◌, ◌++◌, List, Option, none, some, codes, ◌==◌, ◌≡◌, refl,
  if◌then◌else◌,
}
use shyake.Base.Integer.{pos}
use shyake.Context.{Config, Ctx, init_ctx, or_empty, set_new_passphrase, path_in}
use shyake.Update.Version.{◌==ℤ◌}
use shyake.Client.{State, Outcome}
use shyake.Cli.Prompt.{Terminal, Chosen, prompt_passphrase, choose_passphrase}
use shyake.Cli.{Shown, out, note, Setup, Host, Run, ended, refused, print_lib_error, is_ok}

-- `global_no_color || app_cfg->no_color`
abbrev pub no_color_of : Setup → Bool
no_color_of setup =
    if setup.no_color == 0 then (if setup.app.no_color ==ℤ pos 0 then false else true) else true

-- `shyake_config cfg = { … }`
abbrev pub config_of : Setup → Bytes → Bytes → Config
config_of setup instance_url username = record {
  instance_url = some instance_url;
  config_dir = some setup.config_dir;
  username = some username;
  plain = setup.plain;
  debug = setup.debug;
  no_color = if no_color_of setup then 1 else 0;
}

-- What `shyake_init_ctx` makes of it.
abbrev pub fresh_ctx : Setup → Bytes → Bytes → Ctx
fresh_ctx setup instance_url username = record {
  instance_url = some instance_url;
  config_dir = setup.config_dir;
  username = some username;
  plain = setup.plain;
  debug = setup.debug;
  no_color = if no_color_of setup then 1 else 0;
  passphrase = [];
  new_passphrase = [];
  last_error = [];
}

fresh_ctx-init :
    (setup : Setup) (instance_url username : Bytes)
    → init_ctx (config_of setup instance_url username)
      ≡ some (fresh_ctx setup instance_url username)
unfolding init_ctx
fresh_ctx-init setup instance_url username = refl

abbrev pub opened : Ctx → Host → State
opened ctx host = record { ctx = ctx; entropy = host.entropy; disk = host.disk }

module _ (T : Terminal) (setup : Setup) (host : Host) where
  -- The passphrase is asked for; without an answer the command fails.
  unfoldable pub prompted : Bytes → Bytes → (State → Option Run) → Option Run
  prompted instance_url username command =
      elim (prompt_passphrase T setup.config_dir host.disk
        (fresh_ctx setup instance_url username)) [
          | none ↦ some (refused [] host)
          | some ctx ↦ command (opened ctx host)
        ]

  unfoldable pub if_both : Option Bytes → Option Bytes → (Bytes → Bytes → Option Run) → Option Run
  if_both (some inst) (some user) command = command inst user
  if_both _ _ command =
      some (refused (note (codes "Missing INSTANCE or USERNAME in config file.\n") ∷ []) host)

  -- `if (!inst || !user)` and `prompt_passphrase`.
  unfoldable pub with_account : (State → Option Run) → Option Run
  unfolding if_both prompted
  with_account command =
      if_both setup.app.instance_url setup.app.username (λ inst user. prompted inst user command)

  -- `app_cfg->instance ? app_cfg->instance : ""`, and so for the user name.
  unfoldable pub with_local : (State → Option Run) → Option Run
  unfolding prompted
  with_local command =
      prompted (or_empty setup.app.instance_url) (or_empty setup.app.username) command

-- `if (ret == SHYAKE_OK) printf(…); else print_lib_error(…)`
unfoldable pub told : Bytes → Bytes → Outcome → Run
told done action o =
    if is_ok o.code
    then ended true (out done ∷ []) o.state
    else ended false (print_lib_error o.state.ctx action) o.state

-- `if (!getenv("SHYAKE_PASSPHRASE"))`
abbrev pub key_shown : Bytes → Option Bytes → List Shown
key_shown config_dir (some env_pp) = []
key_shown config_dir none =
    note (codes "Key: " ++ (path_in config_dir (codes "kem_sk.bin") ++ codes "\n")) ∷ []

-- `prompt_new_passphrase`; -1 is `none`, with what is printed.
unfoldable pub prompt_new_passphrase : Terminal → Bytes → Ctx → List Shown × Option Ctx
prompt_new_passphrase T config_dir ctx =
    let key = key_shown config_dir T.environment in
    elim (choose_passphrase T) [
      | Chosen.passphrase pp ↦ (key, some (set_new_passphrase (some pp) ctx))
      | Chosen.mismatch ↦ (key ++ note (codes "Passphrases do not match.\n") ∷ [], none)
      | Chosen.unread ↦ (key, none)
    ]
