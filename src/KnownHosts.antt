-- ===== src/KnownHosts.antt =====
-- client/src/lib/known_hosts.c: the file `known_hosts` of trusted keys, one line
-- `<user> <fingerprint> <key>` for each, read by `fgets` and `sscanf`. A text file holds no NUL.
mod Scan
pub mod Lines
pub mod Refinement
pub mod Fingerprint
unfoldable pub use Scan.*
use shyake.Base.{Bytes, [], ◌∷◌, ◌++◌, List, Option, none, some, ◌>>=◌, codes, equal, if◌then◌else◌}
use shyake.Os.{Disk, read, write, rename}
use shyake.Context.{path_in}

pub record Entry : Type 0 where
  pub user : Bytes
  pub fp : Bytes
  pub pk : Bytes

abbrev pub content_of : Option Bytes → Bytes
content_of none = []
content_of (some content) = content

-- `sscanf(line, "%255s %255s %8191s", user, fp, pk) == 3`
unfoldable pub scan_entry : Bytes → Option Entry
scan_entry line = do
  (user, after_user) ← scan_word 255 line
  (fp, after_fp) ← scan_word 255 after_user
  (pk, _) ← scan_word 8191 after_fp
  some (record { user = user; fp = fp; pk = pk })

-- `fprintf(f, "%s %s %s\n", …)`
unfoldable pub print_entry : Entry → Bytes
print_entry e = e.user ++ (b' ' ∷ (e.fp ++ (b' ' ∷ (e.pk ++ (b'\n' ∷ [])))))

abbrev pub hosts_path : Bytes → Bytes
hosts_path config_dir = path_in config_dir (codes "known_hosts")

-- The loop of `get_known_host`: the first line of that user.
find_line : Bytes → List Bytes → Option Bytes
find_line username [] = none
find_line username (line ∷ rest) =
    let later = find_line username rest in
    elim (scan_entry line) [
      | none ↦ later
      | some e ↦ if equal e.user username then some e.pk else later
    ]

unfoldable pub get_known_host : Bytes → Bytes → Disk → Option Bytes
unfolding find_line
get_known_host config_dir username d = do
  content ← read d (hosts_path config_dir)
  find_line username (lines content)

-- `fopen(path, "a")` and one line. A file that is not there yet is made.
unfoldable pub add_known_host : Bytes → Bytes → Bytes → Bytes → Disk → Disk
add_known_host config_dir username fp pk_b64 d =
    let path = hosts_path config_dir in
    let line = print_entry (record { user = username; fp = fp; pk = pk_b64 }) in
    if d.denied path then d else write d path (content_of (read d path) ++ line)

-- The loop of `update_known_host`: the lines of other users, printed again.
other_lines : Bytes → List Bytes → Bytes
other_lines username [] = []
other_lines username (line ∷ rest) =
    let later = other_lines username rest in
    elim (scan_entry line) [
      | none ↦ later
      | some e ↦ if equal e.user username then later else print_entry e ++ later
    ]

-- A file that is not there has no lines. Both files are open before a line is read, so that a `known_hosts` that
-- is the new file too, since both paths were cut, is empty by then.
unfoldable pub update_known_host : Bytes → Bytes → Bytes → Bytes → Disk → Disk
unfolding other_lines
update_known_host config_dir username fp pk_b64 d =
    let path = hosts_path config_dir in
    let tmp_path = path_in config_dir (codes "known_hosts.tmp") in
    let line = print_entry (record { user = username; fp = fp; pk = pk_b64 }) in
    let opened = write d tmp_path [] in
    let content = other_lines username (lines (content_of (read opened path))) ++ line in
    if d.denied tmp_path then d else rename (write d tmp_path content) tmp_path path
