-- ===== src/Cli/Editor.antt =====
-- client/src/cli/main.c: a text in the user's editor. The shell and mkstemp are arguments.
use shyake.Base.{
  ℕ, zero, suc, Bool, true, false, ◌&&◌, ◌||◌, Bytes, [], ◌∷◌, ◌++◌, List, Option, none, some,
  ◌>>=◌, codes, snprintf, equal, is_empty, ltb, ◌==◌, if◌then◌else◌,
}
use shyake.Base.Decimal.{show}
use shyake.Os.{Disk, read, write, delete}
use shyake.Config.{AppConfig}
use shyake.Compose.{resolve_editor}
use shyake.Compose.Scissors.{with_scissors, after_scissors, body_line}
use shyake.Cli.Send.{c_string}
use shyake.Cli.{Shown, note}

-- `run`: `system`, with the exit status where the command exited. `mkstemp`: the file that is made for
-- a pattern, which was not there. `visual` and `editor` are of the environment.
pub record Shell : Type 0 where
  pub run : Bytes → Disk → Option ℕ × Disk
  pub mkstemp : Bytes → Disk → Option Bytes
  pub visual : Option Bytes
  pub editor : Option Bytes

-- The text behind the last `/`: `strrchr` and a step.
unfoldable pub base_from : Bytes → Bytes → Bytes
base_from base [] = base
base_from base (c ∷ s) = base_from (if c == b'/' then s else base) s

abbrev pub base_of : Bytes → Bytes
base_of editor = base_from editor editor

-- `is_vim`
unfoldable pub is_vim : Bytes → Bool
unfolding base_from
is_vim editor = equal (base_of editor) (codes "vim") || equal (base_of editor) (codes "nvim")

unfoldable pub is_among : Bytes → List Bytes → Bool
is_among base [] = false
is_among base (name ∷ names) = equal base name || is_among base names

-- `takes_plus_line`
unfoldable pub takes_plus_line : Bytes → Bool
unfolding is_among
takes_plus_line base = is_among base (
    codes "vi"
    ∷ codes "vim.tiny"
    ∷ codes "nano"
    ∷ codes "pico"
    ∷ codes "emacs"
    ∷ codes "mg"
    ∷ codes "micro"
    ∷ codes "joe"
    ∷ [])

-- `at`
unfoldable pub at_line : Bytes → ℕ → Bytes
at_line editor line =
    if ltb 0 line && (is_vim editor || takes_plus_line (base_of editor))
    then snprintf 32 (codes " +" ++ show line)
    else []

abbrev vim_options : Bytes
vim_options = codes " -n -i NONE --cmd 'set noundofile nobackup nowritebackup'"

-- `cmd` of `launch_editor`
unfoldable pub editor_command : Bytes → Bytes → Option Bytes → ℕ → Bytes
editor_command editor path beside line =
    let plain =
      if is_vim editor
      then editor ++ (vim_options ++ (at_line editor line ++ (codes " '" ++ (path ++ codes "'"))))
      else if equal (base_of editor) (codes "vim.tiny")
      then editor
        ++ (codes " -n -i NONE" ++ (at_line editor line ++ (codes " '" ++ (path ++ codes "'"))))
      else editor ++ (at_line editor line ++ (codes " '" ++ (path ++ codes "'"))) in
    let split = λ (other : Bytes).
      editor
      ++ (vim_options
          ++ (codes " -O '"
              ++ (other
                  ++ (codes "' '"
                      ++ (path
                          ++ (codes
                                "' -c 'setlocal readonly nomodifiable' -c 'wincmd l' -c 'call cursor("
                              ++ (show (if ltb 0 line then line else 1) ++ codes ", 1)'"))))))) in
    snprintf 2048
      (elim beside [ none ↦ plain | some other ↦ (if is_vim editor then split other else plain) ])

-- What `edit_draft` returns.
abbrev pub Edited : Type 0
Edited = Option Bytes × List Shown × Disk

module _ (H : Shell) where
  -- `write_temp`: the path and the disk.
  unfoldable pub write_temp : Bytes → Bytes → Bytes → Disk → Option (Bytes × Disk)
  write_temp config_dir name text d =
      H.mkstemp (snprintf 640 (config_dir ++ (codes "/." ++ (name ++ codes "-XXXXXX")))) d
      >>= λ path. some (path, write d path text)

  -- `write_temp` of the original, where it is shown beside: the path, or `split = 0`.
  unfoldable pub write_original : Bytes → Option Bytes → Disk → Option Bytes × Disk
  write_original config_dir none d = (none, d)
  write_original config_dir (some orig) d = elim (write_temp config_dir (codes "original") orig d) [
    | none ↦ (none, d)
    | some (path, d') ↦ (some path, d')
  ]

  -- `shred_and_unlink` of the original.
  abbrev pub unlink_original : Option Bytes → Disk → Disk
  unlink_original none d = d
  unlink_original (some path) d = delete path d

  -- The text that the editor left, without the scissors part where the original stood above it.
  unfoldable pub cut_text : Bool → Bytes → List Shown × Bytes
  cut_text quoted buf =
      if quoted
      then elim (after_scissors buf) as (λ _. List Shown × Bytes) [
        | some rest ↦ ([], rest)
        | none ↦ (
          note (
                codes
                  "WARNING: The scissors line is gone. The quoted mail stays in the draft; fix it with 'shyake compose <id>'.\n")
              ∷ [],
          buf,
        )
      ]
      else ([], buf)

  abbrev aborted : Bytes
  aborted = codes "Draft aborted.\n"

  unfoldable pub edited_text : Bytes → Bool → Option Bytes → Disk → Edited
  edited_text full quoted none d = (none, note aborted ∷ [], d)
  edited_text full quoted (some buf) d =
      if equal buf full
      then (none, note aborted ∷ [], d)
      else (let (shown, text) = cut_text quoted buf in
          if is_empty text then (none, shown ++ note aborted ∷ [], d) else (some text, shown, d))

  -- The exit status: `none` is -1.
  unfoldable pub edited_status : Bytes → Bytes → Bool → Option ℕ → Option Bytes → Disk → Edited
  edited_status editor full quoted (some zero) buf d = edited_text full quoted buf d
  edited_status editor full quoted (some (suc n)) buf d = (
    none,
    note (
          codes "Editor '"
          ++ (editor
              ++ (codes "' exited with status " ++ (show (suc n) ++ codes ". Draft aborted.\n"))))
        ∷ [],
    d,
  )
  edited_status editor full quoted none buf d = (
    none,
    note (codes "Editor '" ++ (editor ++ codes "' exited with status -1. Draft aborted.\n")) ∷ [],
    d,
  )

  -- From `launch_editor`, with the path of the original where it is shown beside.
  unfoldable pub edit_launched : Bytes → Bytes → Bytes → Option Bytes → Option Bytes → Disk → Edited
  unfolding edited_status edited_text cut_text
  edit_launched editor full draft_path orig beside d =
      let line = elim orig as (λ _. ℕ) [ none ↦ 0 | some text ↦ body_line full ] in
      let (est, d1) = H.run (editor_command editor draft_path beside line) d in
      let buf = read d1 draft_path >>= λ content. some (c_string content) in
      let quoted = elim orig as (λ _. Bool) [
        | none ↦ false
        | some text ↦ elim beside as (λ _. Bool) [ none ↦ true | some path ↦ false ]
      ] in
      edited_status editor full quoted est buf (unlink_original beside (delete draft_path d1))

  -- `full`
  unfoldable pub full_text : Bytes → Bytes → Option Bytes → Bytes
  full_text editor initial none = initial
  full_text editor initial (some orig) =
      if is_vim editor then initial else with_scissors initial orig

  -- `edit_draft`
  unfoldable pub edit_draft : AppConfig → Bytes → Bytes → Option Bytes → Disk → Edited
  unfolding edit_launched full_text
  edit_draft cfg config_dir initial orig d =
      let editor = resolve_editor cfg.editor H.visual H.editor in
      let full = full_text editor initial orig in
      elim (write_temp config_dir (codes "compose") full d) as (λ _. Edited) [
        | none ↦ (none, note (codes "Edit failed. Cannot create a temporary file.\n") ∷ [], d)
        | some (draft_path, d1) ↦
            (let (beside, d2) =
                write_original config_dir (if is_vim editor then orig else none) d1 in
              edit_launched editor full draft_path orig beside d2)
      ]
