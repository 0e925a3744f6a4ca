-- ===== src/Display/Truncate.antt =====
-- client/src/cli/display.c: `utf8_truncate`, which cuts a subject to its column.
use shyake.Base.{
  ℕ, zero, suc, ◌+◌, ◌-◌, ◌≤◌, ◌<◌, ◌≡◌, refl, ap, ◌∙◌, sym, inl, inr, Bool, true, false, Bytes, [],
  ◌∷◌, ◌++◌, codes, take, take_all, ltb, leb, length, length-append, length-take, if◌then◌else◌,
  Bool-cases, arith, append_assoc, take-append_eq,
}
use shyake.Display.Utf8.{decode, shown_width, utf8_display_width, is_continuation}
use shyake.Display.Width.{
  decode_shorter, decode_suffix, IsFresh, utf8_display_width-append, continuation_width,
  utf8_display_width_step,
}

-- The scan to `limit_w`, at most `fuel` rounds: `last_safe`, as the text behind it, and `accum`.
unfoldable pub scan : ℕ → ℕ → ℕ → Bytes → Bytes × ℕ
unfolding decode shown_width
scan zero limit_w accum p = (p, accum)
scan (suc fuel) limit_w accum [] = ([], accum)
scan (suc fuel) limit_w accum (c ∷ s) =
    let (cp, rest) = decode c s in
    let cw = shown_width cp in
    let later = scan fuel limit_w (accum + cw) rest in
    if ltb limit_w (accum + cw) then (c ∷ s, accum) else later

-- `utf8_truncate`: what `buf` holds, and the result. The subtraction of the source stops at 0 as its
-- test of a negative `head` does.
unfoldable pub utf8_truncate : Bytes → ℕ → ℕ → Bytes × ℕ
unfolding utf8_display_width scan
utf8_truncate src buf_sz max_w =
    let total_w = utf8_display_width src in
    let (last_safe, accum) = scan (length src) (max_w - 3) 0 src in
    let head = length src - length last_safe in
    let head' = if leb buf_sz (head + 3) then buf_sz - 3 - 1 else head in
    if ltb max_w 3
    then ([], 0)
    else if leb total_w max_w
    then (take (if leb buf_sz (length src) then buf_sz - 1 else length src) src, total_w)
    else (take head' src ++ codes "...", accum + 3)

-- Where the scan stops: behind a part of the text that is as wide as it says, within the limit, and
-- not inside a code point.
abbrev pub StopsAt : ℕ → ℕ → Bytes → Bytes × ℕ → Type 0
StopsAt limit_w accum s (last_safe, accum') =
    (head : Bytes) × (s ≡ head ++ last_safe)
    × (accum' ≡ accum + utf8_display_width head)
    × (accum' ≤ limit_w)
    × IsFresh last_safe

step-StopsAt :
    (limit_w accum c : ℕ) (s : Bytes) (r : Bytes × ℕ)
    → StopsAt limit_w (accum + shown_width (decode c s).0) (decode c s).1 r
    → StopsAt limit_w accum (c ∷ s) r
step-StopsAt limit_w accum c s (safe, w) (head, e, m, below, fresh) =
    let (front, f) = decode_suffix c s in
    let whole : c ∷ s ≡ c ∷ (front ++ head) ++ safe =
      ap (λ (t : Bytes). c ∷ t)
        (f ∙ rw (append_assoc front head safe) (ap (λ (t : Bytes). front ++ t) e)) in
    let sum = utf8_display_width-append (c ∷ (front ++ head)) safe fresh in
    let part = ap utf8_display_width e ∙ utf8_display_width-append head safe fresh in
    let total = sym (utf8_display_width_step c s) ∙ ap utf8_display_width whole ∙ sum in
    (c ∷ (front ++ head), whole, omega (arith, part, total), below, fresh)

nothing_wide : utf8_display_width [] ≡ 0
unfolding utf8_display_width
nothing_wide = refl

fresh_at :
    (c : ℕ) (s : Bytes) {limit_w accum : ℕ} (b : Bool)
    → is_continuation c ≡ b
    → ltb limit_w (accum + shown_width (decode c s).0) ≡ true
    → accum ≤ limit_w
    → is_continuation c ≡ false
fresh_at c s false e full k = e
fresh_at c s true e full k = let none = continuation_width c s e in absurd (ground (arith, none))

within_limit : (limit_w w : ℕ) → ltb limit_w w ≡ false → w ≤ limit_w
within_limit limit_w w h = ground arith

scan-StopsAt :
    (fuel limit_w accum : ℕ) (s : Bytes)
    → length s ≤ fuel
    → accum ≤ limit_w
    → StopsAt limit_w accum s (scan fuel limit_w accum s)
unfolding scan
scan-StopsAt zero limit_w accum [] h k = ([], refl, omega (arith, nothing_wide), k, tt)
scan-StopsAt zero limit_w accum (c ∷ s) h k = absurd (omega arith)
scan-StopsAt (suc fuel) limit_w accum [] h k = ([], refl, omega (arith, nothing_wide), k, tt)
scan-StopsAt (suc fuel) limit_w accum (c ∷ s) h k =
    elim (Bool-cases (ltb limit_w (accum + shown_width (decode c s).0))) [
      | inl full ↦
          rw full
            ([], refl, omega (arith, nothing_wide), k, fresh_at c s (is_continuation c) refl full k)
      | inr room ↦ rw room (
          step-StopsAt limit_w accum c s _ (
            scan-StopsAt fuel limit_w (accum + shown_width (decode c s).0) (decode c s).1
              (omega (arith, decode_shorter c s)) (within_limit _ _ room)))
    ]

cut_length :
    (src : Bytes) (buf_sz head : ℕ)
    → 4 ≤ buf_sz
    → length (take (if leb buf_sz (head + 3) then buf_sz - 3 - 1 else head) src ++ codes "...")
      < buf_sz
cut_length src buf_sz head h = elim (Bool-cases (leb buf_sz (head + 3))) [
  | inl long ↦ rw long (
      ground (
        arith,
        length-append (take (buf_sz - 3 - 1) src) (codes "..."),
        length-take (buf_sz - 3 - 1) src,
      ))
  | inr short ↦
      rw short (ground (arith, length-append (take head src) (codes "..."), length-take head src))
]

-- The text and its NUL are within the buffer, and the width that is returned within the column.
pub utf8_truncate_fits :
    (src : Bytes) (buf_sz max_w : ℕ)
    → 4 ≤ buf_sz
    → (length (utf8_truncate src buf_sz max_w).0 < buf_sz)
      × ((utf8_truncate src buf_sz max_w).1 ≤ max_w)
unfolding utf8_truncate
utf8_truncate_fits src buf_sz max_w h = elim (Bool-cases (ltb max_w 3)) [
  | inl narrow ↦ rw narrow (omega arith, omega arith)
  | inr wide ↦ elim (Bool-cases (leb (utf8_display_width src) max_w)) [
    | inl whole ↦
        rw (wide, whole)
          (
            (elim (Bool-cases (leb buf_sz (length src))) [
              | inl long ↦ rw long (ground (arith, length-take (buf_sz - 1) src))
              | inr short ↦ rw short (ground (arith, length-take (length src) src))
            ]),
            ground arith,
          )
    | inr cut ↦
        let (safe, accum) : Bytes × ℕ = scan (length src) (max_w - 3) 0 src in
        let (head, e, m, below, fresh) =
          scan-StopsAt (length src) (max_w - 3) 0 src (omega arith) (omega arith) in
        rw (wide, cut) (cut_length src buf_sz (length src - length safe) h, ground arith)
  ]
]

dots_wide : utf8_display_width (codes "...") ≡ 3
unfolding utf8_display_width
dots_wide = refl

cut_width :
    (src head : Bytes) (r : Bytes × ℕ) (buf_sz : ℕ)
    → length src + 4 ≤ buf_sz
    → src ≡ head ++ r.0
    → r.1 ≡ 0 + utf8_display_width head
    → utf8_display_width (
        take
          (if leb buf_sz (length src - length r.0 + 3)
            then buf_sz - 3 - 1
            else length src - length r.0)
          src
        ++ codes "...")
      ≡ r.1 + 3
cut_width src head (safe, accum) buf_sz h e m =
    let short : leb buf_sz (length src - length safe + 3) ≡ false = ground arith in
    let l = ap (λ (t : Bytes). length t) e ∙ length-append head safe in
    let n : length src - length safe ≡ length head = omega arith in
    let front : take (length head) src ≡ head =
      rw e (take-append_eq (length head) head safe refl) in
    rw (short, n, front)
      (omega (arith, utf8_display_width-append head (codes "...") refl, dots_wide))

-- Where the buffer has room for the whole text and the dots, the width that is returned is the width
-- of what was written.
utf8_truncate_width :
    (src : Bytes) (buf_sz max_w : ℕ)
    → length src + 4 ≤ buf_sz
    → utf8_display_width (utf8_truncate src buf_sz max_w).0 ≡ (utf8_truncate src buf_sz max_w).1
unfolding utf8_truncate
utf8_truncate_width src buf_sz max_w h = elim (Bool-cases (ltb max_w 3)) [
  | inl narrow ↦ rw narrow nothing_wide
  | inr wide ↦ elim (Bool-cases (leb (utf8_display_width src) max_w)) [
    | inl whole ↦
        let short : leb buf_sz (length src) ≡ false = ground arith in
        rw (wide, whole, short) (ap utf8_display_width (take_all (length src) src (omega arith)))
    | inr cut ↦
        let (head, e, m, below, fresh) =
          scan-StopsAt (length src) (max_w - 3) 0 src (omega arith) (omega arith) in
        rw (wide, cut) (cut_width src head (scan (length src) (max_w - 3) 0 src) buf_sz h e m)
  ]
]
