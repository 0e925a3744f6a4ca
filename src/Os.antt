-- ===== src/Os.antt =====
-- What the client sees of the operating system: files by path, a device that takes a bounded number
-- of bytes, and `/dev/urandom`; `save_file` and `load_file` of client/src/lib/libshyake.c on it.
mod Files
unfoldable pub use Files.{lookup, insert, remove}
pub use Files.{lookup-insert, lookup-remove}
use shyake.Base.{
  ℕ, ◌≤◌, ◌≡◌, refl, Bool, true, false, Bytes, [], ◌∷◌, ◌++◌, List, Option, none, some, length,
  take, take_full, drop, ◌==◌, if◌then◌else◌, arith, equal, equal_iff,
}

-- `denied`: `fopen` for writing fails. `room`: how many bytes the device takes for a file.
pub record Disk : Type 0 where
  pub files : List (Bytes × Bytes)
  pub denied : Bytes → Bool
  pub room : Bytes → ℕ

-- `fopen(path, "rb")` and its whole content; `none` where it cannot be opened.
abbrev pub read : Disk → Bytes → Option Bytes
read d path = lookup path d.files

-- `fopen(path, "wb")`, the writes and `fclose`: the file holds what the device took.
abbrev pub write : Disk → Bytes → Bytes → Disk
write d path content = record d { files = insert path (take (d.room path) content) d.files }

-- `rename(from, to)`; a file that is not there leaves everything as it is.
unfoldable pub rename : Disk → Bytes → Bytes → Disk
rename d from to = elim (read d from) [
  | none ↦ d
  | some content ↦ record d { files = insert to content (remove from d.files) }
]

-- `remove(path)`
abbrev pub delete : Bytes → Disk → Disk
delete path d = record d { files = remove path d.files }

pub read-rename :
    (d : Disk) (from to content other : Bytes)
    → read d from ≡ some content
    → read (rename d from to) other
      ≡ (if equal to other then some content else if equal from other then none else read d other)
unfolding rename
read-rename d from to content other h =
    rw (h, rename)
      (rw (lookup-insert to other content (remove from d.files))
        (rw (lookup-remove from other d.files)))

-- One answer for each time that `/dev/urandom` is opened and read; none left: it cannot be opened.
abbrev pub Entropy : Type 0
Entropy = List Bytes

-- `fopen` and `fread(buf, 1, n, f)`: the bytes that came, at most `n`.
abbrev pub read_random : ℕ → Entropy → Option Bytes × Entropy
read_random n [] = (none, [])
read_random n (answer ∷ rest) = (some (take n answer), rest)

-- `save_file`: 0 is `true`.
unfoldable pub save_file : Bytes → Bytes → Disk → Bool × Disk
save_file path content d =
    if d.denied path
    then (false, d)
    else (length (take (d.room path) content) == length content, write d path content)

unfoldable pub load_file : Bytes → Disk → Option Bytes
load_file path d = read d path

pub read-write :
    (d : Disk) (path other content : Bytes)
    → read (write d path content) other
      ≡ (if equal path other then some (take (d.room path) content) else read d other)
read-write d path other content = lookup-insert path other (take (d.room path) content) d.files

-- A file that the device has room for is read back as it was saved.
pub load-save :
    (path content : Bytes) (d : Disk)
    → (save_file path content d).0 ≡ true
    → load_file path (save_file path content d).1 ≡ some content
unfolding save_file load_file
load-save path content d h =
    ground
      (arith, read-write d path path content, equal_iff path path, take_full (d.room path) content)
