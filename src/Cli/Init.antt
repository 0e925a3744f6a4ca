-- ===== src/Cli/Init.antt =====
-- client/src/cli/init.c: the command `init`. Directories are arguments: `stat` and `mkdir`.
use shyake.Base.{
  Bool, true, false, not, ◌&&◌, ◌||◌, Bytes, [], ◌∷◌, ◌++◌, List, Option, none, some, codes,
  snprintf, length, take, get_or, equal, is_empty, ◌-◌, ◌==◌, if◌then◌else◌,
}
use shyake.Os.{Disk, read, write}
use shyake.Context.{path_in, set_passphrase}
use shyake.Client.{Libs, World, State}
use shyake.Register.{generate_keys}
use shyake.Config.{default_config}
use shyake.Cli.Prompt.{Terminal, Chosen, read_passphrase}
use shyake.Cli.Session.{fresh_ctx, opened, key_shown}
use shyake.Cli.{Shown, out, note, Setup, Host, Run, ended, refused, then_shown}

-- `default_config` of init.c.
abbrev pub config_text : Bytes
config_text =
    codes "# shyake global configuration file\n\n"
    ++ (codes "INSTANCE=\n"
        ++ (codes "USERNAME=\n\n"
            ++ (codes "# Date & Time format (strftime format)\n"
                ++ (codes "# RECENT: less than 180 days old.\n"
                    ++ (codes "# ISO 8601 format\n"
                        ++ (codes "TIME_FORMAT=\"%Y-%m-%d %H:%M\"\n"
                            ++ (codes "# POSIX format\n"
                                ++ (codes "# TIME_FORMAT=\"%b %d  %Y\"\n"
                                    ++ (codes "# TIME_FORMAT_RECENT=\"%b %d %H:%M\"\n\n"
                                        ++ (codes "# Time zone (default: auto)\n"
                                            ++ (codes
                                                  "# Integer offset in hours: 0=UTC, 8=UTC+8, -6=UTC-6\n"
                                                ++ (codes "TIME_ZONE=auto\n\n"
                                                    ++ (codes
                                                          "# Display columns for `check` command\n"
                                                        ++ (codes
                                                            "CHECK_COLUMNS=id,sender,subject,size,date\n\n"
                                                            ++ (codes
                                                            "# Disable colors (1 = disable)\n"
                                                            ++ (codes "# NO_COLOR=0\n\n"
                                                            ++ (codes
                                                            "# Editor for 'shyake compose' (default: ed)\n"
                                                            ++ (codes
                                                            "# Falls back to $VISUAL, then $EDITOR\n"
                                                            ++ (codes "# EDITOR=\"ed\"\n\n"
                                                            ++ (codes
                                                            "# Default action when running without arguments\n"
                                                            ++ (codes
                                                            "# 0 = man, 1 = check inbox, 2 = check inbox --count\n"
                                                            ++ (codes
                                                            "DEFAULT_ACTION=0\n"))))))))))))))))))))))

-- `there`: `stat` finds it. `made`: `mkdir` makes the directory, or it is there. `reason`: `strerror`.
pub record Directories : Type 0 where
  pub there : Bytes → Bool
  pub made : Bytes → Bool
  pub reason : Bytes

-- The path before each `/` but the first byte, and the path.
unfoldable pub parents : Bytes → Bytes → List Bytes
parents before [] = before ∷ []
parents before (c ∷ s) =
    let later = parents (before ++ c ∷ []) s in
    if c == b'/' && not (is_empty before) then before ∷ later else later

unfoldable pub all_made : Directories → List Bytes → Bool
all_made F [] = true
all_made F (path ∷ paths) = F.made path && all_made F paths

-- `mkdir_p`; 0 is `true`.
unfoldable pub mkdir_p : Directories → Bytes → Bool
unfolding parents all_made
mkdir_p F path =
    let tmp = snprintf 512 path in
    let bare = if get_or tmp (length tmp - 1) 0 == b'/' then take (length tmp - 1) tmp else tmp in
    all_made F (parents [] bare)

-- The passphrase for new keys. A second answer that cannot be read is an empty one.
unfoldable pub init_passphrase : Terminal → Chosen
init_passphrase T =
    elim (read_passphrase T (codes "Enter passphrase (empty for no passphrase): ")) [
      | none ↦ Chosen.unread
      | some [] ↦ Chosen.passphrase []
      | some (c ∷ pp1) ↦ elim (read_passphrase T (codes "Enter same passphrase again: ")) [
        | none ↦ Chosen.mismatch
        | some pp2 ↦ (if equal (c ∷ pp1) pp2 then Chosen.passphrase (c ∷ pp1) else Chosen.mismatch)
      ]
    ]

-- "Created default config", and the files.
unfoldable pub init_config : Bytes → Disk → List Shown × Disk
init_config config_dir d =
    let config_file = path_in config_dir (codes "config") in
    elim (read d config_file) [
      | some content ↦ (
        out (codes "Config file " ++ (config_file ++ codes " already exists. Skipping.\n")) ∷ [],
        d,
      )
      | none ↦
          (if d.denied config_file
            then (
              note (codes "Init failed. Cannot create " ++ (config_file ++ codes ".\n")) ∷ [],
              d,
            )
            else (
              out (codes "Created default config at " ++ (config_file ++ codes "\n")) ∷ [],
              write d config_file config_text,
            ))
    ]

module _ (L : Libs) (W : World) (T : Terminal) (F : Directories) (config_dir : Bytes) where
  -- `shyake_config cfg` of init.c.
  abbrev pub init_setup : Setup
  init_setup = record {
    plain = 0;
    debug = 0;
    no_color = 0;
    config_dir = config_dir;
    app = default_config;
  }

  keys_made : Bool × State → Run
  keys_made (true, s) = ended true (out (codes "Keys generated.\n") ∷ []) s
  keys_made (false, s) = ended true (note (codes "Init failed. Cannot generate keys.\n") ∷ []) s

  keys_chosen : State → Chosen → Run
  keys_chosen s (Chosen.passphrase pp) =
      keys_made (generate_keys L W (record s { ctx = set_passphrase (some pp) s.ctx }))
  keys_chosen s Chosen.mismatch = ended false (note (codes "Passphrases do not match.\n") ∷ []) s
  keys_chosen s Chosen.unread = ended false [] s

  -- "Prompt for passphrase only when new keys will actually be generated"
  init_keys : State → Option Bytes → Option Bytes → Run
  init_keys s (some kem_pk) (some sig_pk) = keys_made (generate_keys L W s)
  init_keys s _ _ =
      then_shown (key_shown config_dir T.environment) (keys_chosen s (init_passphrase T))

  init_in : Host → Run
  init_in host =
      let (shown, d) = init_config config_dir host.disk in
      then_shown shown (
        init_keys (opened (fresh_ctx init_setup [] []) (record host { disk = d }))
          (read d (path_in config_dir (codes "kem_pk.bin")))
          (read d (path_in config_dir (codes "sig_pk.bin"))))

  -- `cmd_init`, with the config directory; the status is `ret == 0`.
  unfoldable pub cmd_init : Host → Run
  unfolding init_in init_keys keys_chosen keys_made
  cmd_init host =
      if F.there config_dir || mkdir_p F config_dir
      then init_in host
      else refused
          (note (
              codes "Init failed. Cannot create "
              ++ (config_dir ++ (codes " (" ++ (F.reason ++ codes ").\n"))))
            ∷ [])
          host
