-- ===== src/Cli/Manage.antt =====
-- client/src/cli/main.c: the commands on one mail, on the account and on files.
pub mod Ending
use shyake.Base.{
  ℕ, Bool, true, false, Bytes, [], ◌∷◌, ◌++◌, List, Option, none, some, ◌>>=◌, codes, snprintf,
  take, equal, if◌then◌else◌,
}
use shyake.Os.{Disk}
use shyake.Context.{Ctx, Err, or_null, err_no_instance}
use shyake.Client.{Libs, World, State, Outcome}
use shyake.Config.{trim_whitespace, update_config_user_and_instance}
use shyake.Mail.Read.{burn}
use shyake.Mail.Saved.{save_mail}
use shyake.Account.{BlockEntry, block, list_blocks, rotate, destroy}
use shyake.Register.{register}
use shyake.Display.Timestamp.{Calendar, format_timestamp}
use shyake.Cli.Prompt.{Terminal}
use shyake.Cli.Session.{with_account, told, prompted, prompt_new_passphrase}
use shyake.Cli.{
  Shown, out, note, Setup, Host, Run, ended, refused, then_shown, print_failure, print_lib_error,
  is_ok,
}

-- `ret == SHYAKE_ERR_NO_INSTANCE`
abbrev is_no_instance : Err → Bool
is_no_instance err_no_instance = true
is_no_instance _ = false

abbrev usage : Bytes → Host → Option Run
usage text host = some (refused (note text ∷ []) host)

module _ (L : Libs) (T : Terminal) (W : ℕ → World) (setup : Setup) where
  -- `burn`
  unfoldable pub burn_command : Option Bytes → Host → Option Run
  burn_command none host = usage (codes "Usage: shyake burn <id>\n") host
  burn_command (some mail_id) host =
      with_account T setup host
        (λ s. some (told (codes "Mail burned.\n") (codes "Burn failed.") (burn L (W 0) mail_id s)))

  -- `save`
  unfoldable pub save_command : Option Bytes → Host → Option Run
  save_command none host = usage (codes "Usage: shyake save <id>\n") host
  save_command (some mail_id) host = with_account T setup host (λ s.
      let (code, s') = save_mail L (W 0) mail_id s in
      some (
        told (codes "Mail saved.\n") (codes "Save failed.")
          (record { code = code; sent = none; state = s' })))

  -- `block` and `unblock`
  unfoldable pub block_command : Bool → Option Bytes → Host → Option Run
  block_command is_unblock none host =
      usage
        (codes "Usage: shyake "
          ++ ((if is_unblock then codes "unblock" else codes "block") ++ codes " <target>\n"))
        host
  block_command is_unblock (some target) host = with_account T setup host (λ s. some (
      told (target ++ (if is_unblock then codes " unblocked.\n" else codes " blocked.\n"))
        (if is_unblock then codes "Unblock failed." else codes "Block failed.")
        (block L (W 0) target is_unblock s)))

  -- The loop of `blocklist`.
  unfoldable pub block_lines : Calendar → List BlockEntry → List Shown
  block_lines C [] = []
  block_lines C (e ∷ entries) =
      out (
        format_timestamp C (W 0).now e.created setup.app.tz_hours setup.app.time_format none 64
        ++ (codes "  " ++ (e.target ++ codes "\n")))
      ∷ block_lines C entries

  blocks_listed : Calendar → Option (List BlockEntry) × State → Run
  blocks_listed C (none, s) = ended false (print_lib_error s.ctx (codes "Listing blocks failed.")) s
  blocks_listed C (some [], s) = ended true (out (codes "Block list is empty.\n") ∷ []) s
  blocks_listed C (some (e ∷ entries), s) = ended true (block_lines C (e ∷ entries)) s

  -- `blocklist`
  unfoldable pub blocklist_command : Calendar → Host → Option Run
  unfolding blocks_listed
  blocklist_command C host =
      with_account T setup host (λ s. some (blocks_listed C (list_blocks L (W 0) s)))

  rotate_chosen : State → List Shown × Option Ctx → Run
  rotate_chosen s (shown, none) = ended false shown s
  rotate_chosen s (shown, some ctx) =
      let o = rotate L (W 0) (record s { ctx = ctx }) in
      then_shown
        (shown
          ++ note (codes "Rotating keys for " ++ (or_null setup.app.username ++ codes "... ")) ∷ [])
        (if is_ok o.code
          then ended true (note (codes "done.\n") ∷ out (codes "Keys rotated.\n") ∷ []) o.state
          else ended false
              (note (codes "\n") ∷ print_lib_error o.state.ctx (codes "Rotation failed.")) o.state)

  -- `rotate`
  unfoldable pub rotate_command : Host → Option Run
  unfolding rotate_chosen
  rotate_command host =
      with_account T setup host
        (λ s. some (rotate_chosen s (prompt_new_passphrase T setup.config_dir s.ctx)))

  -- What follows `shyake_register`.
  unfoldable pub registered : Bytes → Bytes → Outcome → Run
  registered username inst o =
      if is_ok o.code
      then (let (_, d) =
            update_config_user_and_instance setup.config_dir username inst o.state.disk in
          ended true (note (codes "done.\n") ∷ out (codes "Registered.\n") ∷ [])
            (record o.state { disk = d }))
      else if is_no_instance o.code
      then ended false
          (note (codes "\n")
            ∷ print_failure (codes "Registration failed.") (codes "No instance is configured."))
          o.state
      else ended false
          (note (codes "\n") ∷ print_lib_error o.state.ctx (codes "Registration failed.")) o.state

  registering : Bytes → Option Bytes → Host → Option Run
  registering username none host = usage (codes "Missing INSTANCE in config file.\n") host
  registering username (some inst) host = prompted T setup host inst username (λ s.
      register L (W 0) username s >>= λ o. some (
        then_shown
          (note (codes "Registering as " ++ (username ++ (codes " at " ++ (inst ++ codes "... "))))
            ∷ [])
          (registered username inst o)))

  -- `register`, with `-u` and `-i`.
  unfoldable pub register_command : Option Bytes → Option Bytes → Host → Option Run
  unfolding registering
  register_command none instance_url host =
      usage (codes "A username is required.\nUsage: shyake register -u <username> -i <url>\n") host
  register_command (some username) (some inst) host = registering username (some inst) host
  register_command (some username) none host = registering username setup.app.instance_url host

  -- `rm -rf %s/*`, cut to the buffer.
  abbrev pub remove_command : Bytes
  remove_command = snprintf 512 (codes "rm -rf " ++ (setup.config_dir ++ codes "/*"))

  -- After `shyake_destroy`; `shell` is `system`.
  unfoldable pub destroyed : (Bytes → Disk → Disk) → Outcome → Run
  destroyed shell o =
      if is_ok o.code
      then ended true
          (out (codes "Account destroyed. Local configuration and keys deleted.\n") ∷ [])
          (record o.state { disk = shell remove_command o.state.disk })
      else ended false (print_lib_error o.state.ctx (codes "Destroy failed.")) o.state

  abbrev pub destroy_warning : List Shown
  destroy_warning =
      out (codes "WARNING: This destroys your account on the instance and deletes your\n")
      ∷ out (codes "local configuration and keys. All mail to and from you is deleted.\n")
      ∷ out (codes "Your username stays locked on this instance and cannot be registered\n")
      ∷ out (codes "again. Type your username to confirm: ")
      ∷ []

  destroy_confirmed : (Bytes → Disk → Disk) → Host → Option Bytes → Bytes → Option Run
  destroy_confirmed shell host none typed = none
  destroy_confirmed shell host (some user) typed =
      if equal (trim_whitespace typed) user
      then with_account T setup host (λ s. some (destroyed shell (destroy L (W 0) s)))
      else usage (codes "Username mismatch. Aborted.\n") host

  -- `destroy`, with the line that `fgets` reads. Without a user name the null pointer is compared: `none`.
  unfoldable pub destroy_command : (Bytes → Disk → Disk) → Option Bytes → Host → Option Run
  unfolding destroy_confirmed
  destroy_command shell none host = some (refused destroy_warning host)
  destroy_command shell (some line) host =
      destroy_confirmed shell host setup.app.username (take 255 line) >>= λ r.
      some (then_shown destroy_warning r)
