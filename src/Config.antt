-- ===== src/Config.antt =====
-- client/src/cli/main.c: the client's config file. Lines are read by `fgets` into 1024 bytes; a text
-- file holds no NUL.
pub mod Setting
pub mod Columns
use shyake.Base.{
  ℕ, zero, suc, ◌+◌, ◌-◌, Bool, true, false, not, ◌&&◌, ◌||◌, Bytes, List, [], ◌∷◌, ◌++◌, Option,
  none, some, ◌>>=◌, ◌>>◌, require, codes, snprintf, take, drop, get_or, equal, is_empty, leb,
  length, ◌==◌, if◌then◌else◌,
}
use shyake.Os.{Disk, read, write}
use shyake.Context.{path_in}
use shyake.Update.Version.{ℤ, pos, negsuc, atoi}

-- `app_config`; a null pointer is `none`.
pub record AppConfig : Type 0 where
  pub instance_url : Option Bytes
  pub username : Option Bytes
  pub time_format : Option Bytes
  pub time_format_recent : Option Bytes
  pub check_columns : Option Bytes
  pub editor : Option Bytes
  pub no_color : ℤ
  pub tz_hours : ℤ
  pub default_action : ℤ

-- `TZ_AUTO`
abbrev pub tz_auto : ℤ
tz_auto = pos 0x7FFFFFFF

abbrev pub default_config : AppConfig
default_config = record {
  instance_url = none;
  username = none;
  time_format = none;
  time_format_recent = none;
  check_columns = none;
  editor = none;
  no_color = pos 0;
  tz_hours = tz_auto;
  default_action = pos 0;
}

-- The four bytes that `trim_whitespace` takes off.
abbrev pub is_blank : ℕ → Bool
is_blank c = c == b' ' || (c == b'\t' || (c == b'\r' || c == b'\n'))

unfoldable pub trim_left : Bytes → Bytes
trim_left [] = []
trim_left (c ∷ s) = let rest = trim_left s in if is_blank c then rest else c ∷ s

unfoldable pub trim_right : Bytes → Bytes
trim_right [] = []
trim_right (c ∷ s) = let rest = trim_right s in if is_empty rest && is_blank c then [] else c ∷ rest

-- `trim_whitespace`
abbrev pub trim_whitespace : Bytes → Bytes
trim_whitespace str = trim_right (trim_left str)

-- The text on both sides of the first `c`.
unfoldable pub split_at : ℕ → Bytes → Option (Bytes × Bytes)
split_at c [] = none
split_at c (x ∷ s) =
    let later = do (before, after) ← split_at c s; some (x ∷ before, after)
    in if x == c then some ([], s) else later

-- A pair of quotes, single or double, comes off the value.
unfoldable pub unquote : Bytes → Bytes
unquote [] = []
unquote (q ∷ s) =
    let val = q ∷ s in
    if (q == b'"' || q == b'\'') && (q == get_or val (length val - 1) 0 && leb 2 (length val))
    then take (length s - 1) s
    else val

-- `trimmed[0] == '#' || trimmed[0] == '\0'`
abbrev pub is_comment : Bytes → Bool
is_comment [] = true
is_comment (c ∷ s) = c == b'#'

-- One line of `read_config`: the key and the value; `none` is `continue`.
unfoldable pub parse_setting : Bytes → Option (Bytes × Bytes)
parse_setting line = do
  require (not (is_comment (trim_whitespace line)))
  (before, after) ← split_at b'=' (trim_whitespace line)
  some (trim_whitespace before, unquote (trim_whitespace after))

-- The chain of `strcmp` on the key.
unfoldable pub apply_setting : Bytes → Bytes → AppConfig → AppConfig
apply_setting key val cfg =
    if equal key (codes "INSTANCE")
    then record cfg { instance_url = some val }
    else if equal key (codes "USERNAME")
    then record cfg { username = some val }
    else if equal key (codes "TIME_FORMAT")
    then record cfg { time_format = some val }
    else if equal key (codes "TIME_FORMAT_RECENT")
    then record cfg { time_format_recent = some val }
    else if equal key (codes "CHECK_COLUMNS")
    then record cfg { check_columns = some val }
    else if equal key (codes "NO_COLOR")
    then record cfg { no_color = atoi val }
    else if equal key (codes "TIME_ZONE")
    then record cfg {
      tz_hours = if equal val (codes "auto") || is_empty val then tz_auto else atoi val;
    }
    else if equal key (codes "DEFAULT_ACTION")
    then record cfg { default_action = atoi val }
    else if equal key (codes "EDITOR")
    then record cfg { editor = some val }
    else cfg

-- The lines that `fgets` gives; `room` counts the bytes that the buffer still takes.
unfoldable pub read_lines : ℕ → Bytes → Bytes → List Bytes
read_lines room line [] = if is_empty line then [] else line ∷ []
read_lines room line (c ∷ rest) =
    let stop = (line ++ c ∷ []) ∷ read_lines 1023 [] rest in
    let go_on = read_lines (room - 1) (line ++ c ∷ []) rest in
    if c == b'\n' || room == 1 then stop else go_on

unfoldable pub apply_lines : List Bytes → AppConfig → AppConfig
apply_lines [] cfg = cfg
apply_lines (line ∷ rest) cfg =
    apply_lines rest
      (elim (parse_setting line) [ none ↦ cfg | some (key, val) ↦ apply_setting key val cfg ])

abbrev pub config_lines : Option Bytes → List Bytes
config_lines none = []
config_lines (some content) = read_lines 1023 [] content

-- `read_config`
unfoldable pub read_config : Bytes → Disk → AppConfig
unfolding apply_lines read_lines
read_config config_dir d =
    apply_lines (config_lines (read d (path_in config_dir (codes "config")))) default_config

-- The key of a line in the loop of `update_config_user_and_instance`.
unfoldable pub key_of : Bytes → Option Bytes
key_of line = do
  require (not (is_comment (trim_whitespace line)))
  (before, after) ← split_at b'=' (trim_whitespace line)
  some (trim_whitespace before)

abbrev pub has_key : Bytes → Bytes → Bool
has_key name line = elim (key_of line) [ none ↦ false | some key ↦ equal key name ]

-- What the loop makes of the lines, written one after the other.
unfoldable pub new_lines : Bytes → Bytes → List Bytes → Bytes
new_lines username instance_url [] = []
new_lines username instance_url (line ∷ rest) =
    let later = new_lines username instance_url rest in
    if has_key (codes "INSTANCE") line
    then snprintf 1024
        (codes "INSTANCE=" ++ (instance_url ++ (codes "\nUSERNAME=" ++ (username ++ codes "\n"))))
      ++ later
    else if has_key (codes "USERNAME") line
    then later
    else line ++ later

unfoldable pub has_instance : List Bytes → Bool
has_instance [] = false
has_instance (line ∷ rest) = has_key (codes "INSTANCE") line || has_instance rest

-- `update_config_user_and_instance`: 0 is `true`.
unfoldable pub update_config_user_and_instance : Bytes → Bytes → Bytes → Disk → Bool × Disk
unfolding new_lines has_instance read_lines
update_config_user_and_instance config_dir username instance_url d =
    let path = path_in config_dir (codes "config") in
    let old = config_lines (read d path) in
    let content =
      new_lines username instance_url old
      ++ (if has_instance old then [] else codes "INSTANCE=" ++ (instance_url ++ codes "\n")) in
    if d.denied path then (false, d) else (true, write d path content)
