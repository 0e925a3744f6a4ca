-- ===== src/Display/Wrap.antt =====
-- client/src/cli/display.c: `cli_print_word_wrap`, as the list of the lines that it prints.
use shyake.Base.{
  ℕ, zero, suc, ◌+◌, ◌-◌, ◌≤◌, ◌≡◌, refl, inl, inr, false, Bytes, List, [], ◌∷◌, Option, none, some,
  ◌>>=◌, take, ltb, length, ◌==◌, if◌then◌else◌, Bool-cases, arith,
}
use shyake.Display.Utf8.{decode, shown_width}
use shyake.Display.Width.{decode_shorter, cp_width_bound}

-- The inner loop, at most `fuel` rounds: where it stops, which is `safe_cut` too, and `last_space`.
unfoldable pub scan_line : ℕ → ℕ → ℕ → Option Bytes → Bytes → Bytes × Option Bytes
unfolding decode shown_width
scan_line zero avail accum last_space p = (p, last_space)
scan_line (suc fuel) avail accum last_space [] = ([], last_space)
scan_line (suc fuel) avail accum last_space (c ∷ s) =
    let (cp, rest) = decode c s in
    let cw = shown_width cp in
    let last_space' = if cp == b' ' then some (c ∷ s) else last_space in
    let later = scan_line fuel avail (accum + cw) last_space' rest in
    if ltb avail (accum + cw) then (c ∷ s, last_space') else later

-- `while (*p == ' ') p++;`
unfoldable pub after_spaces : Bytes → Bytes
after_spaces [] = []
after_spaces (c ∷ s) = let rest = after_spaces s in if c == b' ' then rest else c ∷ s

-- The line that is printed and the text behind it.
unfoldable pub cut_line : Bytes → Bytes × Option Bytes → Bytes × Bytes
unfolding after_spaces
cut_line text ([], last_space) = (text, [])
cut_line text (c ∷ p, none) = (take (length text - length (c ∷ p)) text, c ∷ p)
cut_line text (c ∷ p, some space) =
    if ltb (length space) (length text)
    then (take (length text - length space) text, after_spaces space)
    else (take (length text - length (c ∷ p)) text, c ∷ p)

-- `cli_print_word_wrap`, at most `fuel` lines; `none` where they are not enough.
unfoldable pub wrap_lines : ℕ → ℕ → Bytes → Option (List Bytes)
unfolding scan_line cut_line
wrap_lines fuel avail [] = some []
wrap_lines zero avail (c ∷ s) = none
wrap_lines (suc fuel) avail (c ∷ s) = do
  let (line, rest) = cut_line (c ∷ s) (scan_line (suc (length s)) avail 0 none (c ∷ s))
  lines ← wrap_lines fuel avail rest
  some (line ∷ lines)

-- `avail`
abbrev pub available : ℕ → ℕ → ℕ
available indent width = if ltb (width - indent) 20 then 20 else width - indent

unfoldable pub print_word_wrap : Bytes → ℕ → ℕ → Option (List Bytes)
unfolding wrap_lines
print_word_wrap text indent width = wrap_lines (length text) (available indent width) text

scan_line_shorter :
    (fuel avail accum : ℕ) (last_space : Option Bytes) (p : Bytes)
    → length (scan_line fuel avail accum last_space p).0 ≤ length p
unfolding scan_line
scan_line_shorter zero avail accum last_space p = omega arith
scan_line_shorter (suc fuel) avail accum last_space [] = omega arith
scan_line_shorter (suc fuel) avail accum last_space (c ∷ s) =
    elim (Bool-cases (ltb avail (accum + shown_width (decode c s).0))) [
      | inl full ↦ rw full (omega arith)
      | inr room ↦
          let later =
            scan_line_shorter fuel avail (accum + shown_width (decode c s).0)
              (if (decode c s).0 == b' ' then some (c ∷ s) else last_space) (decode c s).1 in
          rw room (shorter_tail _ (length (decode c s).1) (length s) later (decode_shorter c s))
    ]
  where
    shorter_tail : (a b d : ℕ) → a ≤ b → b ≤ d → a ≤ suc d
    shorter_tail a b d h k = omega arith

after_spaces_shorter : (s : Bytes) → length (after_spaces s) ≤ length s
unfolding after_spaces
after_spaces_shorter [] = omega arith
after_spaces_shorter (c ∷ s) = ground (after_spaces_shorter s, arith)

-- A line takes a part of the text: the first code point always fits.
first_fits : (avail w : ℕ) → 20 ≤ avail → w ≤ 2 → ltb avail (0 + w) ≡ false
first_fits avail w h k = ground arith

first_scan_shorter :
    (avail c : ℕ) (s : Bytes)
    → 20 ≤ avail
    → length (scan_line (suc (length s)) avail 0 none (c ∷ s)).0 ≤ length s
unfolding scan_line
first_scan_shorter avail c s h =
    let fits = first_fits avail (shown_width (decode c s).0) h (cp_width_bound (decode c s).0) in
    let later =
      scan_line_shorter (length s) avail (0 + shown_width (decode c s).0)
        (if (decode c s).0 == b' ' then some (c ∷ s) else none) (decode c s).1 in
    rw fits (both _ (length (decode c s).1) (length s) later (decode_shorter c s))
  where
    both : (a b d : ℕ) → a ≤ b → b ≤ d → a ≤ d
    both a b d h' k = omega arith

cut_line_shorter :
    (c : ℕ) (s : Bytes) (r : Bytes × Option Bytes)
    → length r.0 ≤ length s
    → length (cut_line (c ∷ s) r).1 ≤ length s
unfolding cut_line
cut_line_shorter c s ([], last_space) h = omega arith
cut_line_shorter c s (x ∷ p, none) h = h
cut_line_shorter c s (x ∷ p, some space) h =
    elim (Bool-cases (ltb (length space) (suc (length s)))) [
      | inl inside ↦ rw inside (ground (arith, after_spaces_shorter space))
      | inr at_start ↦ rw at_start h
    ]

wrap_lines_end :
    (fuel avail : ℕ) (text : Bytes)
    → length text ≤ fuel
    → 20 ≤ avail
    → (lines : List Bytes) × (wrap_lines fuel avail text ≡ some lines)
unfolding wrap_lines
wrap_lines_end fuel avail [] h k = ([], refl)
wrap_lines_end zero avail (c ∷ s) h k = absurd (omega arith)
wrap_lines_end (suc fuel) avail (c ∷ s) h k =
    let r = scan_line (suc (length s)) avail 0 none (c ∷ s) in
    let shorter = cut_line_shorter c s r (first_scan_shorter avail c s k) in
    let (lines, e) = wrap_lines_end fuel avail (cut_line (c ∷ s) r).1 (omega arith) k in
    ((cut_line (c ∷ s) r).0 ∷ lines, rw (e, ◌>>=◌) refl)

-- `cli_print_word_wrap` ends on every text and every width: a line for each byte is enough.
pub print_word_wrap_ends :
    (text : Bytes) (indent width : ℕ)
    → (lines : List Bytes) × (print_word_wrap text indent width ≡ some lines)
unfolding print_word_wrap
print_word_wrap_ends text indent width =
    wrap_lines_end (length text) (available indent width) text (omega arith) (ground arith)
