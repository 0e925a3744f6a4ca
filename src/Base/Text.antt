-- ===== src/Base/Text.antt =====
-- C strings and buffers as lists of bytes, and predicates on their bytes.
use Prim.Native.Char.{code}
use Prim.Native.String.{String}
use Prim.Native.Nat.{ℕ, zero, suc, ◌-◌, ◌<◌}
use mathlib.Core.Bool.{Bool, true, false, ◌&&◌}
use mathlib.Core.List.{List, [], ◌∷◌, ◌++◌, map}
use mathlib.Core.Logic.{◌↔◌, ◌≢◌}
use mathlib.Core.Path.{◌≡◌, refl}
use native.Mathlib.Omega.{arith}
use shyake.Base.Tests.{◌==◌}
use shyake.Base.Lists.{take, length, get_or}

abbrev pub Bytes : Type 0
Bytes = List ℕ

-- The bytes of an ASCII literal.
abbrev pub codes : String → Bytes
codes String.[] = []
codes (String.◌∷◌ c s) = code c ∷ codes s

-- `strcmp(a, b) == 0` on strings, `memcmp` on buffers of one length.
unfoldable pub equal : Bytes → Bytes → Bool
equal (c ∷ s) (d ∷ t) = c == d && equal s t
equal (c ∷ s) [] = false
equal [] (d ∷ t) = false
equal [] [] = true

pub equal_iff : (s t : Bytes) → (equal s t ≡ true) ↔ (s ≡ t)
unfolding equal
equal_iff [] [] = ground arith
equal_iff [] (d ∷ t) = ground arith
equal_iff (c ∷ s) [] = ground arith
equal_iff (c ∷ s) (d ∷ t) = let rest = equal_iff s t in ground (rest, arith)

abbrev pub is_empty : Bytes → Bool
is_empty [] = true
is_empty (c ∷ s) = false

pub is_empty_of_length : (s : Bytes) → 0 < length s → is_empty s ≡ false
is_empty_of_length [] h = absurd (omega arith)
is_empty_of_length (c ∷ s) h = refl

pub length_of_ne_nil : (s : Bytes) → s ≢ [] → 0 < length s
length_of_ne_nil [] h = absurd (h refl)
length_of_ne_nil (c ∷ s) h = omega arith

-- What `snprintf(buf, n, …)` leaves in a buffer of `n` bytes: the text, cut before its NUL.
abbrev pub snprintf : ℕ → Bytes → Bytes
snprintf n s = take (n - 1) s

module _ {ℓ κ} {A : Type ℓ} (P : A → Type κ) where
  abbrev pub All : List A → Type κ
  All [] = Unit
  All (x ∷ xs) = P x × All xs

  pub All-append : (xs ys : List A) → All xs → All ys → All (xs ++ ys)
  All-append [] ys _ hy = hy
  All-append (x ∷ xs) ys (px, hx) hy = (px, All-append xs ys hx hy)

  pub All-get_or : (xs : List A) (i : ℕ) (d : A) → All xs → i < length xs → P (get_or xs i d)
  All-get_or [] i d h lt = absurd (omega arith)
  All-get_or (x ∷ xs) zero d h lt = h.0
  All-get_or (x ∷ xs) (suc i) d h lt = All-get_or xs i d h.1 (omega arith)

  pub All-map_self :
      (f : A → A) → ((x : A) → P x → f x ≡ x) → (xs : List A) → All xs → map f xs ≡ xs
  All-map_self f same [] h = refl
  All-map_self f same (x ∷ xs) h = cc (same x h.0, All-map_self f same xs h.1)

abbrev pub Lacks : ℕ → Bytes → Type 0
Lacks b = All (λ c. c ≢ b)

abbrev pub AreBytes : Bytes → Type 0
AreBytes = All (λ c. c < 256)
