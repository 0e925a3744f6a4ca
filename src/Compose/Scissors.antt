-- ===== src/Compose/Scissors.antt =====
-- client/src/cli/main.c: the mail that is answered, above a scissors line in the editor's file.
pub mod Cutting
use shyake.Base.{
  ℕ, suc, ◌+◌, ◌-◌, Bool, true, false, ◌&&◌, Bytes, [], ◌∷◌, ◌++◌, Option, none, some, codes,
  snprintf, length, equal, ◌==◌, if◌then◌else◌,
}

-- `SCISSORS`
abbrev pub scissors : Bytes
scissors = codes "# ------------------------ >8 ------------------------"

-- `SCISSORS_NOTE`
abbrev pub scissors_note : Bytes
scissors_note =
    codes "# Do not modify or remove the scissors line.\n# Everything above it will be ignored.\n"

-- `strncmp(s, prefix, strlen(prefix)) == 0`
unfoldable pub starts_with : Bytes → Bytes → Bool
starts_with [] s = true
starts_with (p ∷ prefix) [] = false
starts_with (p ∷ prefix) (c ∷ s) = p == c && starts_with prefix s

unfoldable pub count_newlines : Bytes → ℕ
count_newlines [] = 0
count_newlines (c ∷ s) = if c == b'\n' then suc (count_newlines s) else count_newlines s

-- The loop of `with_scissors`; the Boolean says that a line begins here. Each line ends with a newline,
-- also the last one, and a line that begins like the scissors gets a space before it.
unfoldable pub quoted : Bool → Bytes → Bytes
quoted true [] = []
quoted false [] = b'\n' ∷ []
quoted true (c ∷ s) =
    let line = c ∷ quoted (c == b'\n') s in
    if starts_with scissors (c ∷ s) then b' ' ∷ line else line
quoted false (c ∷ s) = c ∷ quoted (c == b'\n') s

-- The size of the buffer, `n`.
unfoldable pub buffer_size : Bytes → Bytes → ℕ
buffer_size initial orig =
    length orig + length scissors_note + length scissors + length initial + 8 + count_newlines orig

-- What follows the quoted mail.
abbrev pub below_quoted : Bytes → Bytes
below_quoted initial = b'\n' ∷ (scissors_note ++ (scissors ++ (b'\n' ∷ initial)))

-- `with_scissors`
unfoldable pub with_scissors : Bytes → Bytes → Bytes
with_scissors initial orig =
    quoted true orig
    ++ snprintf (buffer_size initial orig - length (quoted true orig)) (below_quoted initial)

-- The text after the first newline.
unfoldable pub next_line : Bytes → Bytes
next_line [] = []
next_line (c ∷ s) = if c == b'\n' then s else next_line s

unfoldable pub after_from : Bool → Bytes → Option Bytes
after_from start [] = none
after_from true (c ∷ s) =
    if starts_with scissors (c ∷ s) then some (next_line (c ∷ s)) else after_from (c == b'\n') s
after_from false (c ∷ s) = after_from (c == b'\n') s

-- `after_scissors`
abbrev pub after_scissors : Bytes → Option Bytes
after_scissors buf = after_from true buf

-- The text before the first newline.
unfoldable pub first_line : Bytes → Bytes
first_line [] = []
first_line (c ∷ s) = if c == b'\n' then [] else c ∷ first_line s

-- The second loop of `body_line`, from a place in line `n`.
unfoldable pub body_from : Bool → ℕ → Bytes → ℕ
unfolding first_line
body_from start n [] = 0
body_from true n (c ∷ s) =
    let further = body_from (c == b'\n') (if c == b'\n' then n + 1 else n) s in
    if equal (first_line (c ∷ s)) (codes "---") then n + 1 else further
body_from false n (c ∷ s) = body_from (c == b'\n') (if c == b'\n' then n + 1 else n) s

-- `body_line`
unfoldable pub body_line : Bytes → ℕ
unfolding body_from count_newlines
body_line text = elim (after_scissors text) [
  | none ↦ body_from true 1 text
  | some start ↦ body_from true (1 + (count_newlines text - count_newlines start)) start
]
