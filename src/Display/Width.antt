-- ===== src/Display/Width.antt =====
-- The width of a text: the loops end, and the widths of two parts add up.
use mathlib.Core.Option.{some_inj}
use shyake.Base.{
  ℕ, zero, suc, ◌+◌, ◌*◌, ◌%◌, ◌≤◌, ◌≡◌, refl, ap, ◌∙◌, ◌⊎◌, inl, inr, Bool, true, false, Bytes, [],
  ◌∷◌, ◌++◌, Option, none, some, ltb, if◌then◌else◌, length, Bool-cases, arith,
}
use shyake.Display.Utf8.{
  is_continuation, continue, or_skip, decode, cp_width, shown_width, width_of, utf8_display_width,
}

continue_shorter :
    (n cp : ℕ) (s : Bytes) {r : ℕ × Bytes} → continue n cp s ≡ some r → length r.1 ≤ length s
unfolding continue
continue_shorter zero cp s h = let e = some_inj.0 h in rw⁻¹ e (omega arith)
continue_shorter (suc n) cp [] h = cc
continue_shorter (suc n) cp (c ∷ s) h = elim (Bool-cases (is_continuation c)) [
  | inl good ↦ let h' = rw good at h in omega (arith, continue_shorter n (cp * 64 + c % 64) s h')
  | inr bad ↦ let h' = rw bad at h in cc
]

or_skip_shorter :
    (s : Bytes) (o : Option (ℕ × Bytes))
    → ((r : ℕ × Bytes) → o ≡ some r → length r.1 ≤ length s)
    → length (or_skip s o).1 ≤ length s
or_skip_shorter s none h = omega arith
or_skip_shorter s (some r) h = h r refl

-- A lead byte either stands alone, or asks for a number of continuation bytes.
decode_shape :
    (c : ℕ)
    → ((cp : ℕ) × ((s : Bytes) → decode c s ≡ (cp, s)))
      ⊎ ((n : ℕ) × (cp : ℕ) × ((s : Bytes) → decode c s ≡ or_skip s (continue n cp s)))
unfolding decode
decode_shape c = elim (Bool-cases (ltb c 0x80)) [
  | inl a ↦ inl (c, λ s. rw a refl)
  | inr a ↦ elim (Bool-cases (ltb c 0xC2)) [
    | inl b ↦ inl (0, λ s. rw (a, b) refl)
    | inr b ↦ elim (Bool-cases (ltb c 0xE0)) [
      | inl d ↦ inr (1, c % 32, λ s. rw (a, b, d) refl)
      | inr d ↦ elim (Bool-cases (ltb c 0xF0)) [
        | inl e ↦ inr (2, c % 16, λ s. rw (a, b, d, e) refl)
        | inr e ↦ elim (Bool-cases (ltb c 0xF8)) [
          | inl f ↦ inr (3, c % 8, λ s. rw (a, b, d, e, f) refl)
          | inr f ↦ inl (0, λ s. rw (a, b, d, e, f) refl)
        ]
      ]
    ]
  ]
]

-- What is left behind a code point is no longer than the text behind its first byte.
pub decode_shorter : (c : ℕ) (s : Bytes) → length (decode c s).1 ≤ length s
decode_shorter c s = elim (decode_shape c) [
  | inl (cp, e) ↦ rw (e s) (omega arith)
  | inr (n, cp, e) ↦
      rw (e s) (or_skip_shorter s (continue n cp s) (λ r e'. continue_shorter n cp s e'))
]

continue_suffix :
    (n cp : ℕ) (s : Bytes) {r : ℕ × Bytes}
    → continue n cp s ≡ some r
    → (front : Bytes) × (s ≡ front ++ r.1)
unfolding continue
continue_suffix zero cp s h = let e = some_inj.0 h in rw⁻¹ e ([], refl)
continue_suffix (suc n) cp [] h = cc
continue_suffix (suc n) cp (c ∷ s) h = elim (Bool-cases (is_continuation c)) [
  | inl good ↦
      let h' = rw good at h in
      let (front, e) = continue_suffix n (cp * 64 + c % 64) s h' in
      (c ∷ front, ap (λ (t : Bytes). c ∷ t) e)
  | inr bad ↦ let h' = rw bad at h in cc
]

or_skip_suffix :
    (s : Bytes) (o : Option (ℕ × Bytes))
    → ((r : ℕ × Bytes) → o ≡ some r → (front : Bytes) × (s ≡ front ++ r.1))
    → (front : Bytes) × (s ≡ front ++ (or_skip s o).1)
or_skip_suffix s none h = ([], refl)
or_skip_suffix s (some r) h = h r refl

-- What is left behind a code point is the end of the text.
pub decode_suffix : (c : ℕ) (s : Bytes) → (front : Bytes) × (s ≡ front ++ (decode c s).1)
decode_suffix c s = elim (decode_shape c) [
  | inl (cp, e) ↦ rw (e s) ([], refl)
  | inr (n, cp, e) ↦
      rw (e s) (or_skip_suffix s (continue n cp s) (λ r e'. continue_suffix n cp s e'))
]

-- The text does not begin with a continuation byte.
abbrev pub IsFresh : Bytes → Type 0
IsFresh [] = Unit
IsFresh (c ∷ s) = is_continuation c ≡ false

abbrev extend : Bytes → Option (ℕ × Bytes) → Option (ℕ × Bytes)
extend t none = none
extend t (some r) = some (r.0, r.1 ++ t)

continue-append :
    (n cp : ℕ) (s t : Bytes) → IsFresh t → continue n cp (s ++ t) ≡ extend t (continue n cp s)
unfolding continue
continue-append zero cp s t h = refl
continue-append (suc n) cp [] [] h = refl
continue-append (suc n) cp [] (x ∷ t) h = rw h refl
continue-append (suc n) cp (c ∷ s) t h = elim (Bool-cases (is_continuation c)) [
  | inl more ↦ rw more (continue-append n (cp * 64 + c % 64) s t h)
  | inr other ↦ rw other refl
]

or_skip-extend :
    (s t : Bytes) (o : Option (ℕ × Bytes))
    → or_skip (s ++ t) (extend t o) ≡ ((or_skip s o).0, (or_skip s o).1 ++ t)
or_skip-extend s t none = refl
or_skip-extend s t (some r) = refl

-- What follows a text does not change how it is decoded, unless it begins inside a code point.
pub decode-append :
    (c : ℕ) (s t : Bytes) → IsFresh t → decode c (s ++ t) ≡ ((decode c s).0, (decode c s).1 ++ t)
decode-append c s t h = elim (decode_shape c) [
  | inl (cp, e) ↦ rw (e (s ++ t), e s) refl
  | inr (n, cp, e) ↦
      rw (e (s ++ t), e s, continue-append n cp s t h) (or_skip-extend s t (continue n cp s))
]

width_of_enough : (n m : ℕ) (s : Bytes) → length s ≤ n → length s ≤ m → width_of n s ≡ width_of m s
unfolding width_of
width_of_enough zero zero s h k = refl
width_of_enough zero (suc m) [] h k = refl
width_of_enough zero (suc m) (c ∷ s) h k = absurd (omega arith)
width_of_enough (suc n) zero [] h k = refl
width_of_enough (suc n) zero (c ∷ s) h k = absurd (omega arith)
width_of_enough (suc n) (suc m) [] h k = refl
width_of_enough (suc n) (suc m) (c ∷ s) h k =
    ap (λ w. shown_width (decode c s).0 + w)
      (width_of_enough n m (decode c s).1 (omega (arith, decode_shorter c s))
        (omega (arith, decode_shorter c s)))

-- One round of `utf8_display_width`.
pub utf8_display_width_step :
    (c : ℕ) (s : Bytes)
    → utf8_display_width (c ∷ s) ≡ shown_width (decode c s).0 + utf8_display_width (decode c s).1
unfolding utf8_display_width width_of
utf8_display_width_step c s =
    ap (λ w. shown_width (decode c s).0 + w)
      (width_of_enough (length s) (length (decode c s).1) (decode c s).1 (decode_shorter c s)
        (omega arith))

width_append_below :
    (n : ℕ) (s t : Bytes)
    → length s ≤ n
    → IsFresh t
    → utf8_display_width (s ++ t) ≡ utf8_display_width s + utf8_display_width t
unfolding utf8_display_width
width_append_below n [] t h f = omega arith
width_append_below zero (c ∷ s) t h f = absurd (omega arith)
width_append_below (suc n) (c ∷ s) t h f =
    let ih = width_append_below n (decode c s).1 t (omega (arith, decode_shorter c s)) f in
    utf8_display_width_step c (s ++ t)
    ∙ rw (decode-append c s t f) (omega (arith, ih, utf8_display_width_step c s))

-- The widths of two parts add up where the second does not begin inside a code point.
pub utf8_display_width-append :
    (s t : Bytes)
    → IsFresh t
    → utf8_display_width (s ++ t) ≡ utf8_display_width s + utf8_display_width t
utf8_display_width-append s t = width_append_below (length s) s t (omega arith)

width_choice : (a b c : Bool) → (if a then (if b then 0 else if c then 2 else 1) else 0) ≤ 2
width_choice false b c = omega arith
width_choice true true c = omega arith
width_choice true false true = omega arith
width_choice true false false = omega arith

pub cp_width_bound : (cp : ℕ) → shown_width cp ≤ 2
unfolding shown_width cp_width
cp_width_bound cp = width_choice _ _ _

-- A continuation byte where a code point should begin takes no room.
pub continuation_width :
    (c : ℕ) (s : Bytes) → is_continuation c ≡ true → shown_width (decode c s).0 ≡ 0
unfolding decode shown_width
continuation_width c s h =
    let high : ltb c 0x80 ≡ false = ground arith in
    let low : ltb c 0xC2 ≡ true = ground arith in rw (high, low) refl
