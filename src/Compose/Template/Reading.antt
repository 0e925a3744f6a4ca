-- ===== src/Compose/Template/Reading.antt =====
-- A template is read as what it was made of.
use shyake.Base.{
  ℕ, All, All-append, ◌≡◌, ◌≢◌, refl, ap, ◌∙◌, false, Bytes, [], ◌∷◌, ◌++◌, Option, none, some,
  codes, equal, Lacks, ◌==◌, arith, append_assoc, append-nil,
}
use shyake.Config.{is_blank, trim_left, trim_right, trim_whitespace}
use shyake.Compose.Scissors.{starts_with}
use shyake.Compose.Template.{
  compose_template, reply_template, to_of, subject_of, parse_lines, parse_compose_buffer,
}

-- A value of a header line: it stands on one line, and neither begins nor ends with a blank.
pub record IsValue (v : Bytes) : Type 0 where
  pub one_line : Lacks b'\n' v
  pub left : trim_left v ≡ v
  pub right : trim_right v ≡ v

trim_right-solid : (c : ℕ) (s : Bytes) → is_blank c ≡ false → trim_right (c ∷ s) ≡ c ∷ trim_right s
unfolding trim_right
trim_right-solid c s h = ground (arith, h)

trim_right-cons :
    (c x : ℕ) (s : Bytes) → trim_right (x ∷ s) ≡ x ∷ s → trim_right (c ∷ x ∷ s) ≡ c ∷ x ∷ s
unfolding trim_right
trim_right-cons c x s h = rw h refl

-- The value behind the blank of a header line.
spaced : (v : Bytes) → IsValue v → trim_whitespace (trim_right (b' ' ∷ v)) ≡ v
unfolding trim_right trim_left
spaced [] h = refl
spaced (x ∷ v) h = rw (trim_right-cons b' ' x v h.right) (ap trim_right h.left ∙ h.right)

trim_right-append :
    (p v : Bytes) → All (λ c. is_blank c ≡ false) p → trim_right (p ++ v) ≡ p ++ trim_right v
trim_right-append [] v h = refl
trim_right-append (c ∷ p) v h =
    trim_right-solid c (p ++ v) h.0 ∙ ap (λ t. c ∷ t) (trim_right-append p v h.1)

to_line : (v : Bytes) → trim_whitespace (codes "To: " ++ v) ≡ codes "To:" ++ trim_right (b' ' ∷ v)
unfolding trim_left
to_line v = trim_right-append (codes "To:") (b' ' ∷ v) (refl, (refl, (refl, tt)))

subject_line :
    (v : Bytes)
    → trim_whitespace (codes "Subject: " ++ v) ≡ codes "Subject:" ++ trim_right (b' ' ∷ v)
unfolding trim_left
subject_line v =
    trim_right-append (codes "Subject:") (b' ' ∷ v)
      (refl, (refl, (refl, (refl, (refl, (refl, (refl, (refl, tt))))))))

-- A line is read to its end.
parse_lines-line :
    (acc l s : Bytes) (to subject : Option Bytes)
    → Lacks b'\n' l
    → parse_lines acc to subject (l ++ b'\n' ∷ s) ≡ parse_lines (acc ++ l) to subject (b'\n' ∷ s)
unfolding parse_lines
parse_lines-line acc [] s to subject h = rw (append-nil acc) refl
parse_lines-line acc (c ∷ l) s to subject h =
    let inside : (c == b'\n') ≡ false = ground (arith, h.0) in
    rw inside (
      parse_lines-line (acc ++ c ∷ []) l s to subject h.1
      ∙ ap (λ a. parse_lines a to subject (b'\n' ∷ s)) (append_assoc acc (c ∷ []) l))

to_header :
    (v s : Bytes) (to subject : Option Bytes)
    → IsValue v
    → parse_lines [] to subject ((codes "To: " ++ v) ++ b'\n' ∷ s)
      ≡ parse_lines [] (some v) subject s
unfolding parse_lines equal to_of subject_of starts_with
to_header v s to subject h =
    parse_lines-line [] (codes "To: " ++ v) s to subject
      (All-append (λ c. c ≢ b'\n') (codes "To: ") v (omega arith) h.one_line)
    ∙ rw (to_line v, spaced v h) refl

subject_header :
    (v s : Bytes) (to subject : Option Bytes)
    → IsValue v
    → parse_lines [] to subject ((codes "Subject: " ++ v) ++ b'\n' ∷ s)
      ≡ parse_lines [] to (some v) s
unfolding parse_lines equal to_of subject_of starts_with
subject_header v s to subject h =
    parse_lines-line [] (codes "Subject: " ++ v) s to subject
      (All-append (λ c. c ≢ b'\n') (codes "Subject: ") v (omega arith) h.one_line)
    ∙ rw (subject_line v, spaced v h) refl

separator :
    (body : Bytes) (to subject : Option Bytes)
    → parse_lines [] to subject (codes "---\n" ++ body)
      ≡ some (record { to = to; subject = subject; body = body })
unfolding parse_lines equal trim_left trim_right
separator body to subject = refl

-- The template of a draft, whose recipient and subject each stand on one line without blanks around
-- them, is read as that recipient, subject and body, whatever the body holds.
pub parse-compose_template :
    (to subject body : Bytes)
    → IsValue to
    → IsValue subject
    → parse_compose_buffer (compose_template to subject body)
      ≡ some (record { to = some to; subject = some subject; body = body })
unfolding compose_template
parse-compose_template to subject body ht hs =
    to_header to (codes "Subject: " ++ (subject ++ (codes "\n---\n" ++ body))) none none ht
    ∙ subject_header subject (codes "---\n" ++ body) (some to) none hs
    ∙ separator body (some to) (some subject)

pub parse-reply_template :
    (subject body : Bytes)
    → IsValue subject
    → parse_compose_buffer (reply_template subject body)
      ≡ some (record { to = none; subject = some subject; body = body })
unfolding reply_template
parse-reply_template subject body hs =
    subject_header subject (codes "---\n" ++ body) none none hs ∙ separator body none (some subject)
