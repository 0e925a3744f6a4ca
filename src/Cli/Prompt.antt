-- ===== src/Cli/Prompt.antt =====
-- client/src/cli/prompt.c: passphrases and a question to the user.
use shyake.Base.{
  ℕ, ◌-◌, Bool, false, ◌||◌, Bytes, [], ◌∷◌, ◌++◌, Option, none, some, codes, snprintf, length,
  take, get_or, equal, ◌==◌, if◌then◌else◌,
}
use shyake.Os.{Disk}
use shyake.Context.{Ctx, path_in, set_passphrase}
use shyake.KeyFile.{sk_file_is_encrypted}

-- `environment`: SHYAKE_PASSPHRASE. `tty`: what /dev/tty gives where it can be opened, for a text that
-- was printed to it: the bytes typed, or none at its end. `interactive`: standard input is a terminal.
pub record Terminal : Type 0 where
  pub environment : Option Bytes
  pub tty : Option (Bytes → Option Bytes)
  pub interactive : Bool

-- What `fgets` leaves in a buffer of `room + 1` bytes.
unfoldable pub fgets : ℕ → Bytes → Bytes
fgets room [] = []
fgets room (c ∷ s) =
    let rest = c ∷ fgets (room - 1) s in
    if room == 0 then [] else if c == b'\n' then c ∷ [] else rest

-- `if (len > 0 && buf[len - 1] == '\n') buf[len - 1] = '\0'`
unfoldable pub without_newline : Bytes → Bytes
without_newline buf =
    if get_or buf (length buf - 1) 0 == b'\n' then take (length buf - 1) buf else buf

-- `read_passphrase` into 512 bytes; -1 is `none`.
unfoldable pub read_passphrase : Terminal → Bytes → Option Bytes
unfolding fgets without_newline
read_passphrase T prompt_str = elim T.environment [
  | some env_pp ↦ some (snprintf 512 env_pp)
  | none ↦ elim T.tty [
    | none ↦ some []
    | some typed ↦ elim (typed prompt_str) [
      | none ↦ none
      | some text ↦ some (without_newline (fgets 511 text))
    ]
  ]
]

-- `prompt_passphrase`; -1 is `none`.
unfoldable pub prompt_passphrase : Terminal → Bytes → Disk → Ctx → Option Ctx
prompt_passphrase T config_dir d ctx =
    let sk_path = path_in config_dir (codes "kem_sk.bin") in
    if sk_file_is_encrypted sk_path d
    then elim (read_passphrase T
        (snprintf 600 (codes "Enter passphrase for key '" ++ (sk_path ++ codes "': ")))) [
          | none ↦ none
          | some buf ↦ some (set_passphrase (some buf) ctx)
        ]
    else some ctx

-- The answers that `prompt_new_passphrase` was given, and what it prints of them.
pub data Chosen : Type 0 where
  passphrase : Bytes → Chosen
  mismatch unread : Chosen

unfoldable pub repeated : Bytes → Option Bytes → Chosen
repeated pp1 none = Chosen.unread
repeated pp1 (some pp2) = if equal pp1 pp2 then Chosen.passphrase pp1 else Chosen.mismatch

unfoldable pub choose_passphrase : Terminal → Chosen
unfolding repeated
choose_passphrase T =
    elim (read_passphrase T (codes "Enter passphrase (empty for no passphrase): ")) [
      | none ↦ Chosen.unread
      | some [] ↦ Chosen.passphrase []
      | some (c ∷ pp) ↦
          repeated (c ∷ pp) (read_passphrase T (codes "Enter same passphrase again: "))
    ]

-- `ask_yes`
unfoldable pub ask_yes : Terminal → Bytes → Bool
unfolding fgets
ask_yes T question =
    if T.interactive
    then elim T.tty [
      | none ↦ false
      | some typed ↦ elim (typed question) [
        | none ↦ false
        | some text ↦ (let first = get_or (fgets 15 text) 0 0 in first == b'y' || first == b'Y')
      ]
    ]
    else false
