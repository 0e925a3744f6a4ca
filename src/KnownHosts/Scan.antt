-- ===== src/KnownHosts/Scan.antt =====
-- `fgets` into 8192 bytes and the `%s` directive of `sscanf`.
use shyake.Base.{
  ℕ, zero, suc, ◌-◌, Bool, ◌||◌, ◌&&◌, Bytes, [], ◌∷◌, ◌++◌, List, Option, none, some, is_empty,
  leb, ◌==◌, if◌then◌else◌,
}

-- `isspace` in the C locale
unfoldable pub is_space : ℕ → Bool
is_space c = c == b' ' || (leb 9 c && leb c 13)

-- The lines that `fgets` gives; `room` counts the bytes that the buffer still takes.
unfoldable pub read_lines : ℕ → Bytes → Bytes → List Bytes
read_lines room line [] = if is_empty line then [] else line ∷ []
read_lines room line (c ∷ rest) =
    let stop = (line ++ c ∷ []) ∷ read_lines 8191 [] rest in
    let go_on = read_lines (room - 1) (line ++ c ∷ []) rest in
    if c == b'\n' || room == 1 then stop else go_on

abbrev pub lines : Bytes → List Bytes
lines content = read_lines 8191 [] content

unfoldable pub skip_spaces : Bytes → Bytes
skip_spaces [] = []
skip_spaces (c ∷ s) = let rest = skip_spaces s in if is_space c then rest else c ∷ s

unfoldable pub take_word : ℕ → Bytes → Bytes × Bytes
take_word zero s = ([], s)
take_word (suc n) [] = ([], [])
take_word (suc n) (c ∷ s) =
    let (word, rest) = take_word n s in if is_space c then ([], c ∷ s) else (c ∷ word, rest)

-- `%ns`: a word of at most `n` bytes and what follows it; `none` where no word is left.
unfoldable pub scan_word : ℕ → Bytes → Option (Bytes × Bytes)
scan_word n s =
    let (word, rest) = take_word n (skip_spaces s) in
    if is_empty word then none else some (word, rest)
