-- ===== src/Display/Randomart/Walking.antt =====
-- The walk of a fingerprint stays within its grid.
use shyake.Base.{
  ℕ, zero, suc, ◌+◌, ◌*◌, ◌/◌, ◌%◌, ◌==◌, ◌≤◌, ◌<◌, ◌≡◌, refl, ◌∙◌, Bool, Bytes, [], ◌∷◌, List, All,
  length, length-take, take, arith,
}
use shyake.Display.Randomart.{
  Walk, start, bump_row, bump, moved, step, all_directions, walk, walked,
}

unfoldable pub sum_row : List ℕ → ℕ
sum_row [] = 0
sum_row (n ∷ row) = n + sum_row row

-- How often the places were visited, together.
unfoldable pub visits : List (List ℕ) → ℕ
unfolding sum_row
visits [] = 0
visits (row ∷ grid) = sum_row row + visits grid

-- The walk stands in the grid, which has its 17 columns of 9 places, and the steps so far are counted.
pub record IsInGrid (steps : ℕ) (w : Walk) : Type 0 where
  pub x_in : w.x < 17
  pub y_in : w.y < 9
  pub columns : length w.grid ≡ 17
  pub rows : All (λ (row : List ℕ). length row ≡ 9) w.grid
  pub counted : visits w.grid ≡ steps

length-bump_row : (y : ℕ) (row : List ℕ) → length (bump_row y row) ≡ length row
unfolding bump_row
length-bump_row y [] = refl
length-bump_row zero (n ∷ row) = refl
length-bump_row (suc y) (n ∷ row) = omega (arith, length-bump_row y row)

sum-bump_row : (y : ℕ) (row : List ℕ) → y < length row → sum_row (bump_row y row) ≡ sum_row row + 1
unfolding bump_row sum_row
sum-bump_row y [] h = absurd (omega arith)
sum-bump_row zero (n ∷ row) h = omega arith
sum-bump_row (suc y) (n ∷ row) h = omega (arith, sum-bump_row y row)

length-bump : (x y : ℕ) (grid : List (List ℕ)) → length (bump x y grid) ≡ length grid
unfolding bump
length-bump x y [] = refl
length-bump zero y (row ∷ grid) = refl
length-bump (suc x) y (row ∷ grid) = omega (arith, length-bump x y grid)

bump_rows :
    (x y : ℕ) (grid : List (List ℕ))
    → All (λ (row : List ℕ). length row ≡ 9) grid
    → All (λ (row : List ℕ). length row ≡ 9) (bump x y grid)
unfolding bump
bump_rows x y [] h = tt
bump_rows zero y (row ∷ grid) h = (length-bump_row y row ∙ h.0, h.1)
bump_rows (suc x) y (row ∷ grid) h = (h.0, bump_rows x y grid h.1)

visits-bump :
    (x y : ℕ) (grid : List (List ℕ))
    → x < length grid
    → y < 9
    → All (λ (row : List ℕ). length row ≡ 9) grid
    → visits (bump x y grid) ≡ visits grid + 1
unfolding bump visits
visits-bump x y [] h k r = absurd (omega arith)
visits-bump zero y (row ∷ grid) h k r =
    let long = r.0 in omega (arith, sum-bump_row y row (omega arith))
visits-bump (suc x) y (row ∷ grid) h k r = omega (arith, visits-bump x y grid (omega arith) k r.1)

moved_bound : (forward : Bool) (last v : ℕ) → v ≤ last → moved forward last v ≤ last
unfolding moved
moved_bound forward last v h = ground arith

pub step-IsInGrid : (dir n : ℕ) (w : Walk) → IsInGrid n w → IsInGrid (n + 1) (step dir w)
unfolding step
step-IsInGrid dir n w v =
    let x_low = moved_bound (dir % 2 == 1) 16 w.x (omega arith) in
    let y_low = moved_bound (dir / 2 == 1) 8 w.y (omega arith) in
    record {
      x_in = omega (arith, x_low);
      y_in = omega (arith, y_low);
      columns = length-bump _ _ w.grid ∙ v.columns;
      rows = bump_rows _ _ w.grid v.rows;
      counted = omega (
        arith,
        visits-bump (moved (dir % 2 == 1) 16 w.x) (moved (dir / 2 == 1) 8 w.y) w.grid (omega arith)
            (omega arith) v.rows,
      );
    }

walk-IsInGrid :
    (dirs : List ℕ) (n m : ℕ) (w : Walk)
    → n + length dirs ≡ m
    → IsInGrid n w
    → IsInGrid m (walk dirs w)
unfolding walk
walk-IsInGrid [] n m w e v = let same : m ≡ n = omega arith in rw same v
walk-IsInGrid (dir ∷ dirs) n m w e v =
    walk-IsInGrid dirs (n + 1) m (step dir w) (omega arith) (step-IsInGrid dir n w v)

length-all_directions : (fp : Bytes) → length (all_directions fp) ≡ 4 * length fp
unfolding all_directions
length-all_directions [] = omega arith
length-all_directions (b ∷ fp) = omega (arith, length-all_directions fp)

start-IsInGrid : IsInGrid 0 start
unfolding visits sum_row
start-IsInGrid = record {
  x_in = omega arith;
  y_in = omega arith;
  columns = refl;
  rows = omega arith;
  counted = refl;
}

-- The walk of a fingerprint of 32 bytes never leaves the 17 by 9 places: it ends within them, the
-- picture has kept its shape, and the counts of the places add up to all 128 steps, none of which was
-- written outside.
pub walked-IsInGrid : (fp : Bytes) → length fp ≡ 32 → IsInGrid 128 (walked fp)
unfolding walked
walked-IsInGrid fp h =
    walk-IsInGrid (all_directions (take 32 fp)) 0 128 start
      (omega (arith, length-all_directions (take 32 fp), length-take 32 fp)) start-IsInGrid
