-- ===== src/KnownHosts/Lines.antt =====
-- Entries that were printed are read back: each is one line for `fgets`, and `sscanf` finds the
-- three words in it.
use shyake.Base.{
  ℕ, zero, suc, ◌+◌, ◌-◌, ◌≤◌, ◌<◌, ◌≡◌, ◌≢◌, refl, true, false, ◌||◌, Bytes, [], ◌∷◌, ◌++◌,
  append_assoc, List, some, ◌>>=◌, map, length, length-append, All, All-append, ◌==◌, arith,
}
use shyake.KnownHosts.{
  Entry, is_space, read_lines, lines, skip_spaces, take_word, scan_word, scan_entry, print_entry,
}

-- A word that fits a `%s` of that width.
pub record IsWord (width : ℕ) (w : Bytes) : Type 0 where
  pub nonempty : w ≢ []
  pub no_space : All (λ c. is_space c ≡ false) w
  pub fits : length w ≤ width

-- An entry whose printed line fits the buffer of `fgets`.
pub record IsPrintable (e : Entry) : Type 0 where
  pub user_word : IsWord 255 e.user
  pub fp_word : IsWord 255 e.fp
  pub pk_word : IsWord 8191 e.pk
  pub line_fits : length e.user + length e.fp + length e.pk + 3 ≤ 8191

take_word-append :
    (w : Bytes) (n c : ℕ) (rest : Bytes)
    → All (λ b. is_space b ≡ false) w
    → length w ≤ n
    → is_space c ≡ true
    → take_word n (w ++ c ∷ rest) ≡ (w, c ∷ rest)
unfolding take_word
take_word-append [] zero c rest h le s = refl
take_word-append [] (suc n) c rest h le s = rw s
take_word-append (x ∷ w) zero c rest h le s = absurd (omega arith)
take_word-append (x ∷ w) (suc n) c rest h le s =
    rw (h.0, take_word-append w n c rest h.1 (omega arith) s)

-- At a word, and behind one space.
scan_word-IsWord :
    {n : ℕ} (w : Bytes) (c : ℕ) (rest : Bytes)
    → IsWord n w
    → is_space c ≡ true
    → (scan_word n (w ++ c ∷ rest) ≡ some (w, c ∷ rest))
      × (scan_word n (b' ' ∷ (w ++ c ∷ rest)) ≡ some (w, c ∷ rest))
unfolding scan_word skip_spaces is_space
scan_word-IsWord [] c rest i s = absurd (i.nonempty refl)
scan_word-IsWord {n} (x ∷ w) c rest i s =
    let taken = take_word-append (x ∷ w) n c rest i.no_space i.fits s in
    let x_word = i.no_space.0 in (rw (x_word, taken), rw (x_word, taken))

pub scan-print_entry : (e : Entry) → IsPrintable e → scan_entry (print_entry e) ≡ some e
unfolding scan_entry print_entry is_space
scan-print_entry e i =
    let (user_found, _) =
      scan_word-IsWord e.user b' ' (e.fp ++ (b' ' ∷ (e.pk ++ (b'\n' ∷ [])))) i.user_word refl in
    let (_, fp_found) = scan_word-IsWord e.fp b' ' (e.pk ++ (b'\n' ∷ [])) i.fp_word refl in
    let (_, pk_found) = scan_word-IsWord e.pk b'\n' [] i.pk_word refl in
    rw (user_found, ◌>>=◌, fp_found, pk_found)

-- A text with no line feed that fits the buffer is read up to the line feed behind it.
read_lines-append :
    (text : Bytes) (room : ℕ) (line rest : Bytes)
    → All (λ c. c ≢ b'\n') text
    → length text < room
    → read_lines room line (text ++ (b'\n' ∷ rest)) ≡ (line ++ (text ++ b'\n' ∷ [])) ∷ lines rest
unfolding read_lines
read_lines-append [] room line rest h lt = refl
read_lines-append (c ∷ text) room line rest h lt =
    let later = read_lines-append text (room - 1) (line ++ c ∷ []) rest h.1 (omega arith) in
    let goes_on : (c == b'\n' || room == 1) ≡ false = ground (arith, h.0) in
    rw (goes_on, later, append_assoc)

no_space-no_line_feed : (s : Bytes) → All (λ c. is_space c ≡ false) s → All (λ c. c ≢ b'\n') s
unfolding is_space
no_space-no_line_feed [] h = tt
no_space-no_line_feed (c ∷ s) h = (ground arith, no_space-no_line_feed s h.1)

-- The printed line, without its line feed.
abbrev text_of : Entry → Bytes
text_of e = e.user ++ (b' ' ∷ (e.fp ++ (b' ' ∷ e.pk)))

text_of-one_line : (e : Entry) → IsPrintable e → All (λ c. c ≢ b'\n') (text_of e)
text_of-one_line e i =
    let pk_part = no_space-no_line_feed e.pk i.pk_word.no_space in
    let fp_part = no_space-no_line_feed e.fp i.fp_word.no_space in
    let user_part = no_space-no_line_feed e.user i.user_word.no_space in
    All-append (λ c. c ≢ b'\n') e.user _ user_part
      (omega arith, All-append (λ c. c ≢ b'\n') e.fp _ fp_part (omega arith, pk_part))

length-text_of : (e : Entry) → length (text_of e) ≡ length e.user + length e.fp + length e.pk + 2
length-text_of e =
    omega (
      arith,
      length-append e.user (b' ' ∷ (e.fp ++ (b' ' ∷ e.pk))),
      length-append e.fp (b' ' ∷ e.pk),
    )

print_entry-text_of : (e : Entry) → print_entry e ≡ text_of e ++ b'\n' ∷ []
unfolding print_entry
print_entry-text_of e = simp append_assoc

-- The file that holds these entries.
abbrev pub render : List Entry → Bytes
render [] = []
render (e ∷ es) = print_entry e ++ render es

pub lines-render : (es : List Entry) → All IsPrintable es → lines (render es) ≡ map print_entry es
lines-render [] h = unfold read_lines in refl
lines-render (e ∷ es) h =
    let split : print_entry e ++ render es ≡ text_of e ++ (b'\n' ∷ render es) =
      rw (print_entry-text_of e) (append_assoc (text_of e) (b'\n' ∷ []) (render es)) in
    let first =
      read_lines-append (text_of e) 8191 [] (render es) (text_of-one_line e h.0)
        (omega (arith, length-text_of e, h.0.line_fits)) in
    rw (split, first, print_entry-text_of e, lines-render es h.1)
