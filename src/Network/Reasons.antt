-- ===== src/Network/Reasons.antt =====
-- What a failure is recorded as can be shown on a terminal.
use shyake.Base.{
  ℕ, zero, suc, ◌+◌, ◌/◌, ◌%◌, ◌≤◌, ◌≡◌, ◌≢◌, refl, inl, inr, Bool, true, false, not, ◌&&◌, Bytes,
  [], ◌∷◌, ◌++◌, List, map, Option, none, some, codes, length, length-take, take, All, All-append,
  equal, is_empty, ltb, leb, ◌==◌, if◌then◌else◌, Bool-cases, arith,
}
use shyake.Base.Decimal.{digits_onto, show}
use shyake.Context.{Ctx}
use shyake.Network.{
  Json, server_reasons, find_reason, printable_byte, server_message, ends_sentence, server_reason,
  set_server_error,
}

-- No control byte of ASCII.
abbrev pub IsShown : ℕ → Type 0
IsShown c = (0x20 ≤ c) × (c ≢ 0x7f)

All-take : (n : ℕ) (s : Bytes) → All IsShown s → All IsShown (take n s)
All-take zero s h = tt
All-take (suc n) [] h = tt
All-take (suc n) (c ∷ s) h = (h.0, All-take n s h.1)

map-printable_byte : (s : Bytes) → All IsShown (map printable_byte s)
unfolding printable_byte
map-printable_byte [] = tt
map-printable_byte (c ∷ s) = (ground arith, map-printable_byte s)

digits_onto-IsShown :
    (fuel n : ℕ) (out : Bytes) → All IsShown out → All IsShown (digits_onto fuel n out)
unfolding digits_onto
digits_onto-IsShown zero n out h = h
digits_onto-IsShown (suc fuel) n out h = elim (Bool-cases (ltb n 10)) [
  | inl last ↦ rw last (ground arith, h)
  | inr more ↦ rw more (digits_onto-IsShown fuel (n / 10) ((b'0' + n % 10) ∷ out) (omega arith, h))
]

shown : Bytes → Bool
shown [] = true
shown (c ∷ s) = leb 0x20 c && not (c == 0x7f) && shown s

shown_sound : (s : Bytes) → shown s ≡ true → All IsShown s
unfolding shown
shown_sound [] h = tt
shown_sound (c ∷ s) h = (ground arith, shown_sound s (ground arith))

all_shown : List (Bytes × Bytes) → Bool
all_shown [] = true
all_shown ((text, reason) ∷ rest) = shown reason && not (is_empty reason) && all_shown rest

find_reason-IsShown :
    (msg : Bytes) (table : List (Bytes × Bytes)) {reason : Bytes}
    → all_shown table ≡ true
    → find_reason msg table ≡ some reason
    → All IsShown reason × (is_empty reason ≡ false)
unfolding find_reason all_shown
find_reason-IsShown msg [] h e = cc
find_reason-IsShown msg ((text, r) ∷ rest) {reason} h e = elim (Bool-cases (equal msg text)) [
  | inl same ↦
      let found : reason ≡ r = ground arith in rw found (shown_sound r (ground arith), ground arith)
  | inr other ↦ find_reason-IsShown msg rest (ground arith) (ground arith)
]

abbrev Told : Bytes → Type 0
Told s = All IsShown s × (is_empty s ≡ false)

show-IsShown : (n : ℕ) → All IsShown (show n)
unfolding show
show-IsShown n = digits_onto-IsShown (suc n) n [] tt

table_shown : all_shown server_reasons ≡ true
unfolding all_shown shown
table_shown = refl

server_message-IsShown : (J : Json) (body : Bytes) → All IsShown (server_message J body)
unfolding server_message
server_message-IsShown J body = map-printable_byte _

take-ne-nil : (n : ℕ) (s : Bytes) → is_empty s ≡ false → take (suc n) s ≢ []
take-ne-nil n [] h = cc
take-ne-nil n (c ∷ s) h = λ e. cc

-- A message of the instance, ended as a sentence.
ended-Told :
    (msg : Bytes)
    → All IsShown msg
    → is_empty msg ≡ false
    → Told (msg ++ (if ends_sentence msg then [] else codes "."))
ended-Told [] h ne = cc
ended-Told (c ∷ msg) h ne = elim (Bool-cases (ends_sentence (c ∷ msg))) [
  | inl ended ↦ rw ended (All-append IsShown (c ∷ msg) [] h tt, refl)
  | inr open_end ↦ rw open_end (All-append IsShown (c ∷ msg) (codes ".") h (omega arith), refl)
]

Told-if : (b : Bool) (x y : Bytes) → Told x → Told y → Told (if b then x else y)
Told-if true x y h k = h
Told-if false x y h k = k

Told-shown : (s : Bytes) → (shown s && not (is_empty s)) ≡ true → Told s
Told-shown s h = (shown_sound s (ground arith), ground arith)

status_reason-Told :
    (code : ℕ)
    → Told (
        if leb 500 code
        then codes "The instance had an internal error."
        else codes "The instance answered with HTTP " ++ (show code ++ codes "."))
unfolding shown
status_reason-Told code =
    let front = codes "The instance answered with HTTP " in
    Told-if (leb 500 code) _ _ (Told-shown (codes "The instance had an internal error.") refl) (
      All-append IsShown front _ (Told-shown front refl).0
          (All-append IsShown (show code) (codes ".") (show-IsShown code) (omega arith)),
      refl,
    )

-- The sentence where no known text fits.
other_reason-Told :
    (code : ℕ) (msg : Bytes)
    → All IsShown msg
    → Told (
        if code == 429
        then codes "Too many requests. Try again later."
        else if not (is_empty msg)
        then msg ++ (if ends_sentence msg then [] else codes ".")
        else if leb 500 code
        then codes "The instance had an internal error."
        else codes "The instance answered with HTTP " ++ (show code ++ codes "."))
unfolding shown
other_reason-Told code [] h =
    Told-if (code == 429) _ _ (Told-shown (codes "Too many requests. Try again later.") refl)
      (status_reason-Told code)
other_reason-Told code (c ∷ msg) h =
    Told-if (code == 429) _ _ (Told-shown (codes "Too many requests. Try again later.") refl)
      (ended-Told (c ∷ msg) h refl)

server_reason-Told : (J : Json) (code : ℕ) (body : Bytes) → Told (server_reason J code body)
unfolding server_reason
server_reason-Told J code body = go (find_reason (server_message J body) server_reasons) refl
  where
    msg : Bytes
    msg = server_message J body

    go :
        (o : Option Bytes)
        → find_reason msg server_reasons ≡ o
        → Told (elim o [
          | some reason ↦ reason
          | none ↦
              if code == 429
              then codes "Too many requests. Try again later."
              else if not (is_empty msg)
              then msg ++ (if ends_sentence msg then [] else codes ".")
              else if leb 500 code
              then codes "The instance had an internal error."
              else codes "The instance answered with HTTP " ++ (show code ++ codes ".")
        ])
    go none e = other_reason-Told code msg (server_message-IsShown J body)
    go (some reason) e = find_reason-IsShown msg server_reasons table_shown e

-- Whatever status and body an instance sends, the reason that is recorded is not empty, fits the
-- buffer and holds no control byte.
pub set_server_error-IsShown :
    (J : Json) (code : ℕ) (body : Bytes) (ctx : Ctx)
    → All IsShown (set_server_error J code body ctx).last_error
      × ((set_server_error J code body ctx).last_error ≢ [])
      × (length (set_server_error J code body ctx).last_error ≤ 511)
unfolding set_server_error
set_server_error-IsShown J code body ctx =
    let (bytes, ne) = server_reason-Told J code body in
    (
      All-take 511 (server_reason J code body) bytes,
      take-ne-nil 510 (server_reason J code body) ne,
      omega (arith, length-take 511 (server_reason J code body)),
    )
