-- ===== src/Display/Randomart.antt =====
-- client/src/cli/display.c: the picture of a fingerprint.
pub mod Walking
use shyake.Base.{
  ℕ, zero, suc, ◌+◌, ◌-◌, ◌/◌, ◌%◌, Bool, true, false, ◌&&◌, Bytes, [], ◌∷◌, ◌++◌, List, codes,
  take, get_or, replicate, length, ltb, ◌==◌, if◌then◌else◌,
}

-- `grid[17][9]`, where the walk stands in it, `x` and `y`.
pub record Walk : Type 0 where
  pub x : ℕ
  pub y : ℕ
  pub grid : List (List ℕ)

abbrev pub start : Walk
start = record { x = 8; y = 4; grid = replicate 17 (replicate 9 0) }

-- `row[y]++`. Out of bounds, which C does not define, it changes nothing.
unfoldable pub bump_row : ℕ → List ℕ → List ℕ
bump_row y [] = []
bump_row zero (n ∷ row) = suc n ∷ row
bump_row (suc y) (n ∷ row) = n ∷ bump_row y row

-- `grid[x][y]++`
unfoldable pub bump : ℕ → ℕ → List (List ℕ) → List (List ℕ)
unfolding bump_row
bump x y [] = []
bump zero y (row ∷ grid) = bump_row y row ∷ grid
bump (suc x) y (row ∷ grid) = row ∷ bump x y grid

-- A step of 1 or -1 within 0 and `last`.
unfoldable pub moved : Bool → ℕ → ℕ → ℕ
moved forward last v = if forward then (if ltb last (v + 1) then last else v + 1) else v - 1

-- One round of the inner loop; `dir` is below 4.
unfoldable pub step : ℕ → Walk → Walk
unfolding moved bump
step dir w =
    let x = moved (dir % 2 == 1) 16 w.x in
    let y = moved (dir / 2 == 1) 8 w.y in record { x = x; y = y; grid = bump x y w.grid }

-- `(b >> (j * 2)) & 3` for the four `j`.
abbrev pub directions : ℕ → List ℕ
directions b = b % 4 ∷ b / 4 % 4 ∷ b / 16 % 4 ∷ b / 64 % 4 ∷ []

unfoldable pub all_directions : Bytes → List ℕ
all_directions [] = []
all_directions (b ∷ fp) = directions b ++ all_directions fp

unfoldable pub walk : List ℕ → Walk → Walk
walk [] w = w
walk (dir ∷ dirs) w = walk dirs (step dir w)

-- Both loops, over the `SHA256_DIGEST_LENGTH` bytes of a fingerprint.
unfoldable pub walked : Bytes → Walk
unfolding walk all_directions
walked fp = walk (all_directions (take 32 fp)) start

-- The character of a place.
unfoldable pub art_char : Walk → ℕ → ℕ → ℕ
art_char w i j =
    let val = get_or (get_or w.grid i []) j 0 in
    if i == 8 && j == 4
    then b'S'
    else if i == w.x && j == w.y
    then b'E'
    else get_or (codes " .o+=*BOX@%&#/^") (if ltb 14 val then 14 else val) 0

-- The loop over `i`, with the columns that are left.
unfoldable pub art_row : Walk → ℕ → ℕ → ℕ → Bytes
unfolding art_char
art_row w j i zero = []
art_row w j i (suc left) = art_char w i j ∷ art_row w j (i + 1) left

unfoldable pub art_rows : Walk → ℕ → ℕ → List Bytes
unfolding art_row
art_rows w j zero = []
art_rows w j (suc left) = (b'|' ∷ (art_row w j 0 17 ++ codes "|")) ∷ art_rows w (j + 1) left

abbrev pub art_border : Bytes
art_border = codes "+-----------------+"

-- The lines that `cli_print_randomart` prints.
unfoldable pub randomart : Bytes → List Bytes
unfolding art_rows walked
randomart fp = art_border ∷ (art_rows (walked fp) 0 9 ++ art_border ∷ [])
