-- ===== src/Compose/Scissors/Cutting.antt =====
-- What is written below the scissors line is what is cut out again.
use shyake.Base.{
  ℕ, ◌+◌, ◌-◌, ◌≤◌, ◌<◌, ◌≡◌, refl, ap, ◌∙◌, Bool, true, false, ◌&&◌, Bytes, [], ◌∷◌, ◌++◌, some,
  length, take_all, Lacks, ◌==◌, if◌then◌else◌, Bool-cases, inl, inr, arith,
}
use shyake.Compose.Scissors.{
  scissors, scissors_note, starts_with, count_newlines, quoted, buffer_size, below_quoted,
  with_scissors, next_line, after_from, after_scissors,
}

-- A prefix without a newline is not completed by what the loop puts in.
starts_with-quoted :
    (p s r : Bytes) → Lacks b'\n' p → starts_with p (quoted false s ++ r) ≡ starts_with p s
unfolding starts_with quoted
starts_with-quoted [] s r h = refl
starts_with-quoted (p ∷ ps) [] r h = ground (arith, h.0)
starts_with-quoted (p ∷ ps) (c ∷ s) r h = elim (Bool-cases (c == b'\n')) [
  | inl newline ↦ ground (arith, h.0, newline)
  | inr inside ↦ rw inside (ap (λ b. p == c && b) (starts_with-quoted ps s r h.1))
]

scissors_line : Lacks b'\n' scissors
scissors_line = omega arith

space_first : (t : Bytes) → starts_with scissors (b' ' ∷ t) ≡ false
unfolding starts_with
space_first t = refl

quoted-plain :
    (c : ℕ) (s r : Bytes)
    → starts_with scissors (c ∷ s) ≡ false
    → starts_with scissors (c ∷ quoted (c == b'\n') s ++ r) ≡ false
unfolding quoted
quoted-plain c s r h = starts_with-quoted scissors (c ∷ s) r scissors_line ∙ h

-- The quoted mail holds no scissors line.
after-quoted :
    (start : Bool) (s r : Bytes) → after_from start (quoted start s ++ r) ≡ after_from true r
unfolding quoted after_from
after-quoted true [] r = refl
after-quoted false [] r = refl
after-quoted true (c ∷ s) r =
    let later = after-quoted (c == b'\n') s r in
    elim (Bool-cases (starts_with scissors (c ∷ s))) [
      | inl same ↦ rw (same, space_first (c ∷ quoted (c == b'\n') s ++ r)) later
      | inr other ↦ rw (other, quoted-plain c s r other) later
    ]
after-quoted false (c ∷ s) r = after-quoted (c == b'\n') s r

length-quoted :
    (start : Bool) (s : Bytes)
    → length (quoted start s) ≤ length s + count_newlines s + (if start then 2 else 1)
unfolding quoted count_newlines
length-quoted true [] = omega arith
length-quoted false [] = omega arith
length-quoted true (c ∷ s) =
    let later = length-quoted (c == b'\n') s in
    elim (Bool-cases (c == b'\n')) [
      | inl newline ↦ ground (arith, later, newline)
      | inr inside ↦ ground (arith, later, inside)
    ]
length-quoted false (c ∷ s) = let later = length-quoted (c == b'\n') s in ground (arith, later)

after-below : (initial : Bytes) → after_from true (below_quoted initial) ≡ some initial
unfolding after_from starts_with next_line
after-below initial = refl

length-below :
    (initial : Bytes)
    → length (below_quoted initial) ≡ length initial + length scissors + length scissors_note + 2
length-below initial = omega arith

-- The text that is written fits the buffer, with its NUL.
with_scissors_fits :
    (initial orig : Bytes)
    → length (quoted true orig) + length (below_quoted initial) < buffer_size initial orig
unfolding buffer_size
with_scissors_fits initial orig = omega (arith, length-quoted true orig, length-below initial)

-- Whatever mail is quoted, also one that holds scissors lines, and whatever is written below: what is
-- cut out behind the scissors line is that text, whole.
pub after-with_scissors :
    (initial orig : Bytes) → after_scissors (with_scissors initial orig) ≡ some initial
unfolding with_scissors
after-with_scissors initial orig =
    let whole =
      take_all (buffer_size initial orig - length (quoted true orig) - 1) (below_quoted initial)
        (omega (arith, with_scissors_fits initial orig)) in
    rw whole (after-quoted true orig (below_quoted initial) ∙ after-below initial)
