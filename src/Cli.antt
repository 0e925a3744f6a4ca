-- ===== src/Cli.antt =====
-- client/src/cli/main.c: what a command works with, what it prints, and what it leaves.
pub mod Prompt
pub mod Session
pub mod Send
pub mod Editor
pub mod Reply
pub mod Manage
pub mod Tools
pub mod Init
use shyake.Base.{
  ℕ, Bool, true, false, Bytes, [], ◌∷◌, ◌++◌, List, Option, none, some, codes, is_empty,
  if◌then◌else◌,
}
use shyake.Base.Integer.{ℤ}
use shyake.Os.{Disk, Entropy}
use shyake.Context.{Ctx, Err, ok, err_key_mismatch, err_blocked, err_gone, err_not_found}
use shyake.Config.{AppConfig}
use shyake.Client.{State}

-- What goes to standard output and to standard error.
pub data Shown : Type 0 where
  out : Bytes → Shown
  note : Bytes → Shown

-- `global_plain`, `global_debug`, `global_no_color`, the config directory and the config file.
pub record Setup : Type 0 where
  pub plain : ℕ
  pub debug : ℕ
  pub no_color : ℕ
  pub config_dir : Bytes
  pub app : AppConfig

-- What a command finds.
pub record Host : Type 0 where
  pub entropy : Entropy
  pub disk : Disk

-- What a command leaves; `true` is `EXIT_SUCCESS`.
pub record Run : Type 0 where
  pub status : Bool
  pub shown : List Shown
  pub host : Host

abbrev pub host_of : State → Host
host_of s = record { entropy = s.entropy; disk = s.disk }

abbrev pub ended : Bool → List Shown → State → Run
ended status shown s = record { status = status; shown = shown; host = host_of s }

-- A return of `EXIT_FAILURE` before the library is called.
abbrev pub refused : List Shown → Host → Run
refused shown host = record { status = false; shown = shown; host = host }

abbrev pub then_shown : List Shown → Run → Run
then_shown shown r = record r { shown = shown ++ r.shown }

-- `print_failure`
unfoldable pub print_failure : Bytes → Bytes → List Shown
print_failure action reason =
    if is_empty reason
    then note (action ++ codes "\n") ∷ []
    else note (action ++ (b' ' ∷ (reason ++ codes "\n"))) ∷ []

-- `print_lib_error`
abbrev pub print_lib_error : Ctx → Bytes → List Shown
print_lib_error ctx action = print_failure action ctx.last_error

-- `ret == SHYAKE_OK`
abbrev pub is_ok : Err → Bool
is_ok ok = true
is_ok _ = false

-- `ret == SHYAKE_ERR_KEY_MISMATCH`
abbrev pub is_mismatch : Err → Bool
is_mismatch err_key_mismatch = true
is_mismatch _ = false

-- `ret == SHYAKE_ERR_BLOCKED || ret == SHYAKE_ERR_GONE || ret == SHYAKE_ERR_NOT_FOUND`
abbrev pub is_hopeless : Err → Bool
is_hopeless err_blocked = true
is_hopeless err_gone = true
is_hopeless err_not_found = true
is_hopeless _ = false

-- `print_send_error`
unfoldable pub print_send_error : Ctx → Err → Bytes → List Shown
unfolding print_failure
print_send_error ctx ret recipient =
    if is_mismatch ret
    then note (
        codes "FATAL: "
        ++ (ctx.last_error
            ++ (codes "\nRun 'shyake fingerprint "
                ++ (recipient ++ codes "' to check the new key.\n"))))
      ∷ []
    else print_lib_error ctx (codes "Send failed.")
