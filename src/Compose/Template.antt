-- ===== src/Compose/Template.antt =====
-- client/src/cli/main.c: the text that the user edits, as `compose` and `reply` make it and as
-- `parse_compose_buffer` reads it.
pub mod Reading
use shyake.Base.{
  Bool, true, false, Bytes, [], ◌∷◌, ◌++◌, Option, none, some, codes, drop, equal, ◌==◌,
  if◌then◌else◌,
}
use shyake.Config.{trim_whitespace}
use shyake.Compose.Scissors.{starts_with}

-- `to`, `subject` and `body` where they point into the text.
pub record Template : Type 0 where
  pub to : Option Bytes
  pub subject : Option Bytes
  pub body : Bytes

-- `"To: %s\nSubject: %s\n---\n%s"`
unfoldable pub compose_template : Bytes → Bytes → Bytes → Bytes
compose_template to subject body =
    codes "To: " ++ (to ++ (codes "\nSubject: " ++ (subject ++ (codes "\n---\n" ++ body))))

-- `"Subject: %s\n---\n%s"`
unfoldable pub reply_template : Bytes → Bytes → Bytes
reply_template subject body = codes "Subject: " ++ (subject ++ (codes "\n---\n" ++ body))

-- What a header line, with its blanks taken off, leaves in `to`.
unfoldable pub to_of : Bytes → Option Bytes → Option Bytes
to_of trimmed to =
    if starts_with (codes "To:") trimmed then some (trim_whitespace (drop 3 trimmed)) else to

-- And in `subject`.
unfoldable pub subject_of : Bytes → Option Bytes → Option Bytes
subject_of trimmed subject =
    if starts_with (codes "To:") trimmed
    then subject
    else if starts_with (codes "Subject:") trimmed
    then some (trim_whitespace (drop 8 trimmed))
    else subject

-- `strcmp(trimmed, "---") == 0`
abbrev pub is_separator : Bytes → Bool
is_separator line = equal (trim_whitespace line) (codes "---")

-- The loop, with the part of the line that was read.
unfoldable pub parse_lines : Bytes → Option Bytes → Option Bytes → Bytes → Option Template
parse_lines line to subject [] =
    if is_separator line then some (record { to = to; subject = subject; body = [] }) else none
parse_lines line to subject (c ∷ s) =
    let longer = parse_lines (line ++ c ∷ []) to subject s in
    let trimmed = trim_whitespace line in
    let next = parse_lines [] (to_of trimmed to) (subject_of trimmed subject) s in
    if c == b'\n'
    then (if is_separator line
        then some (record { to = to; subject = subject; body = s })
        else next)
    else longer

-- `parse_compose_buffer`; -1 is `none`.
abbrev pub parse_compose_buffer : Bytes → Option Template
parse_compose_buffer buf = parse_lines [] none none buf
