-- ===== src/Config/Columns.antt =====
-- client/src/cli/main.c: `parse_check_columns`, the columns of the mail list.
use shyake.Base.{
  ℕ, zero, suc, ◌+◌, ◌*◌, ◌≤◌, ◌≡◌, refl, ap, ◌∙◌, ◌||◌, Bytes, List, [], ◌∷◌, ◌++◌, Option, none,
  some, codes, snprintf, take_all, equal, length, length-append, ◌==◌, if◌then◌else◌, arith,
}

-- `COL_ID` to `COL_DATE`
pub data Column : Type 0 where
  col_id col_party col_subject col_size col_date : Column

abbrev pub default_order : List Column
default_order = col_id ∷ col_party ∷ col_subject ∷ col_size ∷ col_date ∷ []

-- A byte in front of the first token.
abbrev pub first_gets : ℕ → List Bytes → List Bytes
first_gets c [] = (c ∷ []) ∷ []
first_gets c (tok ∷ rest) = (c ∷ tok) ∷ rest

-- What stands between the commas.
unfoldable pub split_commas : Bytes → List Bytes
split_commas [] = [] ∷ []
split_commas (c ∷ s) =
    let rest = split_commas s in if c == b',' then [] ∷ rest else first_gets c rest

-- `while (*tok == ' ') tok++;`
unfoldable pub skip_blanks : Bytes → Bytes
skip_blanks [] = []
skip_blanks (c ∷ s) = let rest = skip_blanks s in if c == b' ' then rest else c ∷ s

-- The chain of `strcmp`; 0 is `none`.
unfoldable pub column_of : Bytes → Option Column
column_of tok =
    if equal tok (codes "id")
    then some col_id
    else if equal tok (codes "sender")
        || (equal tok (codes "from") || (equal tok (codes "to") || equal tok (codes "recipient")))
    then some col_party
    else if equal tok (codes "subject")
    then some col_subject
    else if equal tok (codes "size")
    then some col_size
    else if equal tok (codes "date")
    then some col_date
    else none

-- The loop, with room for `left` columns.
unfoldable pub columns_of : ℕ → List Bytes → List Column
unfolding skip_blanks column_of
columns_of zero toks = []
columns_of (suc left) [] = []
columns_of (suc left) (tok ∷ rest) = elim (column_of (skip_blanks tok)) [
  | none ↦ columns_of (suc left) rest
  | some col ↦ col ∷ columns_of left rest
]

abbrev pub or_default : List Column → List Column
or_default [] = default_order
or_default (col ∷ cols) = col ∷ cols

-- `parse_check_columns`; a null pointer is `none`.
unfoldable pub parse_check_columns : Option Bytes → List Column
unfolding columns_of split_commas
parse_check_columns none = default_order
parse_check_columns (some []) = default_order
parse_check_columns (some (c ∷ s)) = or_default (columns_of 5 (split_commas (snprintf 256 (c ∷ s))))

columns_of_bound : (left : ℕ) (toks : List Bytes) → length (columns_of left toks) ≤ left
unfolding columns_of
columns_of_bound zero toks = omega arith
columns_of_bound (suc left) [] = omega arith
columns_of_bound (suc left) (tok ∷ rest) =
    go (column_of (skip_blanks tok)) (columns_of_bound (suc left) rest) (columns_of_bound left rest)
  where
    go :
        (o : Option Column)
        → length (columns_of (suc left) rest) ≤ suc left
        → length (columns_of left rest) ≤ left
        → length
            (elim o [ none ↦ columns_of (suc left) rest | some col ↦ col ∷ columns_of left rest ])
          ≤ suc left
    go none h k = h
    go (some col) h k = omega arith

or_default_bound :
    (cols : List Column)
    → length cols ≤ 5
    → (1 ≤ length (or_default cols)) × (length (or_default cols) ≤ 5)
or_default_bound [] h = (omega arith, omega arith)
or_default_bound (col ∷ cols) h = (omega arith, h)

-- There is at least one column and at most five, the size of the array, whatever the setting says.
pub parse_check_columns_bound :
    (spec : Option Bytes)
    → (1 ≤ length (parse_check_columns spec)) × (length (parse_check_columns spec) ≤ 5)
unfolding parse_check_columns
parse_check_columns_bound none = (omega arith, omega arith)
parse_check_columns_bound (some []) = (omega arith, omega arith)
parse_check_columns_bound (some (c ∷ s)) =
    or_default_bound (columns_of 5 (split_commas (snprintf 256 (c ∷ s)))) (columns_of_bound 5 _)

-- The name that the manual gives a column.
unfoldable pub name_of : Column → Bytes
name_of col_id = codes "id"
name_of col_party = codes "from"
name_of col_subject = codes "subject"
name_of col_size = codes "size"
name_of col_date = codes "date"

-- The names with commas between them.
unfoldable pub join : Column → List Column → Bytes
unfolding name_of
join col [] = name_of col
join col (next ∷ cols) = name_of col ++ (b',' ∷ join next cols)

split-name :
    (col : Column) (s : Bytes)
    → split_commas (name_of col ++ (b',' ∷ s)) ≡ name_of col ∷ split_commas s
unfolding split_commas name_of
split-name col_id s = refl
split-name col_party s = refl
split-name col_subject s = refl
split-name col_size s = refl
split-name col_date s = refl

split-last : (col : Column) → split_commas (name_of col) ≡ name_of col ∷ []
unfolding split_commas name_of
split-last col_id = refl
split-last col_party = refl
split-last col_subject = refl
split-last col_size = refl
split-last col_date = refl

column_of-name : (col : Column) → column_of (skip_blanks (name_of col)) ≡ some col
unfolding column_of skip_blanks name_of equal
column_of-name col_id = refl
column_of-name col_party = refl
column_of-name col_subject = refl
column_of-name col_size = refl
column_of-name col_date = refl

columns_of_step :
    (left : ℕ) (tok : Bytes) (rest : List Bytes) {col : Column}
    → column_of (skip_blanks tok) ≡ some col
    → columns_of (suc left) (tok ∷ rest) ≡ col ∷ columns_of left rest
unfolding columns_of
columns_of_step left tok rest h =
    ap
      (λ (o : Option Column). elim o [
        | none ↦ columns_of (suc left) rest
        | some c ↦ c ∷ columns_of left rest
      ])
      h

columns_of-join :
    (left : ℕ) (col : Column) (cols : List Column)
    → length cols ≤ left
    → columns_of (suc left) (split_commas (join col cols)) ≡ col ∷ cols
unfolding columns_of join
columns_of-join zero col [] h =
    rw (split-last col) (columns_of_step zero (name_of col) [] (column_of-name col))
columns_of-join (suc left) col [] h =
    rw (split-last col) (columns_of_step (suc left) (name_of col) [] (column_of-name col))
columns_of-join zero col (next ∷ cols) h = absurd (omega arith)
columns_of-join (suc left) col (next ∷ cols) h = rw (split-name col (join next cols)) (
    columns_of_step (suc left) (name_of col) (split_commas (join next cols)) (column_of-name col)
    ∙ ap (λ (t : List Column). col ∷ t) (columns_of-join left next cols (omega arith)))

length-name_of : (col : Column) → (1 ≤ length (name_of col)) × (length (name_of col) ≤ 7)
unfolding name_of
length-name_of col_id = (omega arith, omega arith)
length-name_of col_party = (omega arith, omega arith)
length-name_of col_subject = (omega arith, omega arith)
length-name_of col_size = (omega arith, omega arith)
length-name_of col_date = (omega arith, omega arith)

length-join :
    (col : Column) (cols : List Column)
    → (1 ≤ length (join col cols)) × (length (join col cols) ≤ 8 * (1 + length cols))
unfolding join
length-join col [] = let (low, high) = length-name_of col in (low, omega arith)
length-join col (next ∷ cols) =
    let (low, high) = length-name_of col in
    let (low', high') = length-join next cols in
    let l = length-append (name_of col) (b',' ∷ join next cols) in (omega arith, omega arith)

parse_some :
    (s : Bytes)
    → 1 ≤ length s
    → length s ≤ 255
    → parse_check_columns (some s) ≡ or_default (columns_of 5 (split_commas s))
unfolding parse_check_columns
parse_some [] h k = absurd (omega arith)
parse_some (c ∷ s) h k =
    let whole : snprintf 256 (c ∷ s) ≡ c ∷ s = take_all 255 (c ∷ s) k in
    ap (λ t. or_default (columns_of 5 (split_commas t))) whole

-- The names of one to five columns, with commas between them, are read as those columns in that order.
parse_check_columns-join :
    (col : Column) (cols : List Column)
    → length cols ≤ 4
    → parse_check_columns (some (join col cols)) ≡ col ∷ cols
parse_check_columns-join col cols h =
    let (low, high) = length-join col cols in
    rw (parse_some (join col cols) low (omega arith), columns_of-join 4 col cols h) refl
