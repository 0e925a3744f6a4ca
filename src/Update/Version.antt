-- ===== src/Update/Version.antt =====
-- client/src/cli/update.c: `parse_ver` and `cli_version_cmp`. Version numbers are within the range of
-- an `int`.
use mathlib.Core.Path.{subst}
use shyake.Base.{
  ℕ, zero, suc, ◌+◌, ◌-◌, ◌*◌, ◌≡◌, refl, ap, sym, ◌↔◌, inl, inr, Bool, true, false, not, ◌&&◌,
  ◌||◌, Bytes, [], ◌∷◌, Option, none, some, ltb, leb, ◌==◌, if◌then◌else◌, Bool-cases, arith,
}
pub use shyake.Base.Integer.{ℤ, pos, negsuc}

abbrev pub neg : ℤ → ℤ
neg (pos zero) = pos zero
neg (pos (suc n)) = negsuc n
neg (negsuc n) = pos (suc n)

-- a - b of numbers that are not negative.
abbrev pub sub_nat : ℕ → ℕ → ℤ
sub_nat a b = if ltb a b then negsuc (b - a - 1) else pos (a - b)

infixl 65 ◌-ℤ◌
abbrev pub ◌-ℤ◌ : ℤ → ℤ → ℤ
pos a -ℤ pos b = sub_nat a b
pos a -ℤ negsuc b = pos (a + b + 1)
negsuc a -ℤ pos b = negsuc (a + b)
negsuc a -ℤ negsuc b = sub_nat b a

infix 50 ◌==ℤ◌
abbrev pub ◌==ℤ◌ : ℤ → ℤ → Bool
pos a ==ℤ pos b = a == b
pos a ==ℤ negsuc b = false
negsuc a ==ℤ pos b = false
negsuc a ==ℤ negsuc b = a == b

-- `isspace`
abbrev pub is_space : ℕ → Bool
is_space c = c == b' ' || (leb 9 c && leb c 13)

-- The digits in front of `s`, after the number `n`.
unfoldable pub digits_from : ℕ → Bytes → ℕ
digits_from n [] = n
digits_from n (c ∷ s) =
    let rest = digits_from (n * 10 + (c - b'0')) s in if leb b'0' c && leb c b'9' then rest else n

signed : Bytes → ℤ
unfolding digits_from
signed [] = pos 0
signed (c ∷ s) =
    if c == b'-'
    then neg (pos (digits_from 0 s))
    else if c == b'+'
    then pos (digits_from 0 s)
    else pos (digits_from 0 (c ∷ s))

-- `atoi`
unfoldable pub atoi : Bytes → ℤ
unfolding signed
atoi [] = pos 0
atoi (c ∷ s) = let rest = atoi s in if is_space c then rest else signed (c ∷ s)

-- The text behind the first `c`: `strchr` and a step.
unfoldable pub behind : ℕ → Bytes → Option Bytes
behind c [] = none
behind c (x ∷ s) = let later = behind c s in if x == c then some s else later

unfoldable pub has : ℕ → Bytes → Bool
unfolding behind
has c s = elim (behind c s) [ none ↦ false | some rest ↦ true ]

pub record Ver : Type 0 where
  pub maj : ℤ
  pub min : ℤ
  pub pat : ℤ
  pub has_pre : Bool

-- `(*s == 'v') ? s + 1 : s`
abbrev pub skip_v : Bytes → Bytes
skip_v [] = []
skip_v (c ∷ s) = if c == b'v' then s else c ∷ s

ver_patch : ℤ → ℤ → Option Bytes → Ver
ver_patch maj min none = record { maj = maj; min = min; pat = pos 0; has_pre = false }
ver_patch maj min (some p) = record { maj = maj; min = min; pat = atoi p; has_pre = has b'-' p }

ver_minor : ℤ → Option Bytes → Ver
ver_minor maj none = record { maj = maj; min = pos 0; pat = pos 0; has_pre = false }
ver_minor maj (some p) = ver_patch maj (atoi p) (behind b'.' p)

-- `parse_ver`; an empty text gives zeros as `atoi` of it does.
unfoldable pub parse_ver : Bytes → Ver
unfolding atoi has ver_patch ver_minor
parse_ver s = let p = skip_v s in ver_minor (atoi p) (behind b'.' p)

-- `if (a_pre != b_pre) return a_pre ? -1 : 1;`
abbrev pub compare_pre : Bool → Bool → ℤ
compare_pre true false = negsuc 0
compare_pre false true = pos 1
compare_pre _ _ = pos 0

unfoldable pub compare_ver : Ver → Ver → ℤ
compare_ver a b =
    if not (a.maj ==ℤ b.maj)
    then a.maj -ℤ b.maj
    else if not (a.min ==ℤ b.min)
    then a.min -ℤ b.min
    else if not (a.pat ==ℤ b.pat)
    then a.pat -ℤ b.pat
    else compare_pre a.has_pre b.has_pre

-- `cli_version_cmp`
unfoldable pub version_cmp : Bytes → Bytes → ℤ
unfolding compare_ver
version_cmp a b = compare_ver (parse_ver a) (parse_ver b)

-- `cli_version_cmp(a, b) <= 0`
unfoldable pub at_most : Bytes → Bytes → Bool
at_most a b = elim (version_cmp a b) [ pos zero ↦ true | pos (suc n) ↦ false | negsuc n ↦ true ]

==ℤ_iff : (a b : ℤ) → ((a ==ℤ b) ≡ true) ↔ (a ≡ b)
==ℤ_iff (pos a) (pos b) = ground arith
==ℤ_iff (pos a) (negsuc b) = ground arith
==ℤ_iff (negsuc a) (pos b) = ground arith
==ℤ_iff (negsuc a) (negsuc b) = ground arith

neg-pos : (n m : ℕ) → n ≡ suc m → neg (pos n) ≡ negsuc m
neg-pos n m e = rw e refl

neg-sub_nat : (a b : ℕ) → neg (sub_nat a b) ≡ sub_nat b a
neg-sub_nat a b = elim (Bool-cases (ltb a b)) [
  | inl less ↦ let more : ltb b a ≡ false = ground arith in rw (less, more) (ap pos (ground arith))
  | inr same_or_more ↦ elim (Bool-cases (ltb b a)) [
    | inl more ↦ rw (same_or_more, more) (neg-pos (a - b) (a - b - 1) (ground arith))
    | inr same_or_less ↦
        let left : a - b ≡ 0 = ground arith in
        let right : b - a ≡ 0 = ground arith in rw (same_or_more, same_or_less, left, right) refl
  ]
]

neg-sub : (a b : ℤ) → neg (a -ℤ b) ≡ b -ℤ a
neg-sub (pos a) (pos b) = neg-sub_nat a b
neg-sub (pos a) (negsuc b) = neg-pos (a + b + 1) (b + a) (omega arith)
neg-sub (negsuc a) (pos b) = ap pos (omega arith)
neg-sub (negsuc a) (negsuc b) = neg-sub_nat b a

==ℤ_comm : (a b : ℤ) → (a ==ℤ b) ≡ (b ==ℤ a)
==ℤ_comm (pos a) (pos b) = ground arith
==ℤ_comm (pos a) (negsuc b) = refl
==ℤ_comm (negsuc a) (pos b) = refl
==ℤ_comm (negsuc a) (negsuc b) = ground arith

neg-compare_pre : (a b : Bool) → neg (compare_pre a b) ≡ compare_pre b a
neg-compare_pre true true = refl
neg-compare_pre true false = refl
neg-compare_pre false true = refl
neg-compare_pre false false = refl

neg_ladder :
    (a b y y' : ℤ)
    → neg y ≡ y'
    → (if not (b ==ℤ a) then b -ℤ a else y') ≡ neg (if not (a ==ℤ b) then a -ℤ b else y)
neg_ladder a b y y' h = rw (==ℤ_comm b a) (elim (Bool-cases (a ==ℤ b)) [
  | inl same ↦ rw same (sym h)
  | inr other ↦ rw other (sym (neg-sub a b))
])

-- Comparing the other way round gives the opposite number.
pub version_cmp_swap : (a b : Bytes) → version_cmp b a ≡ neg (version_cmp a b)
unfolding version_cmp compare_ver
version_cmp_swap a b =
    let va = parse_ver a in
    let vb = parse_ver b in
    neg_ladder va.maj vb.maj _ _ (
      sym (
        neg_ladder va.min vb.min _ _
          (sym (neg_ladder va.pat vb.pat _ _ (neg-compare_pre va.has_pre vb.has_pre)))))

abbrev magnitude : ℤ → ℕ
magnitude (pos n) = n
magnitude (negsuc n) = 0

sub_nat_zero : (a b : ℕ) → sub_nat a b ≡ pos 0 → a ≡ b
sub_nat_zero a b h = elim (Bool-cases (ltb a b)) [
  | inl less ↦ let h' = rw less at h in cc
  | inr more ↦ let h' = rw more at h in let null : a - b ≡ 0 = ap magnitude h' in ground arith
]

sub_zero : (a b : ℤ) → a -ℤ b ≡ pos 0 → a ≡ b
sub_zero (pos a) (pos b) h = ap pos (sub_nat_zero a b h)
sub_zero (pos a) (negsuc b) h = let null : a + b + 1 ≡ 0 = ap magnitude h in absurd (omega arith)
sub_zero (negsuc a) (pos b) h = cc
sub_zero (negsuc a) (negsuc b) h = ap negsuc (sym (sub_nat_zero b a h))

ladder_zero : (a b y : ℤ) → (if not (a ==ℤ b) then a -ℤ b else y) ≡ pos 0 → (a ≡ b) × (y ≡ pos 0)
ladder_zero a b y h = elim (Bool-cases (a ==ℤ b)) [
  | inl same ↦ let h' = rw same at h in ((==ℤ_iff a b).0 same, h')
  | inr other ↦ let h' = rw other at h in let same = (==ℤ_iff a b).1 (sub_zero a b h') in cc
]

compare_ver_self : (v : Ver) → compare_ver v v ≡ pos 0
unfolding compare_ver
compare_ver_self v =
    let same : (a : ℤ) → (a ==ℤ a) ≡ true = λ a. (==ℤ_iff a a).1 refl in
    rw (same v.maj, same v.min, same v.pat) (none_pre v.has_pre)
  where
    none_pre : (b : Bool) → compare_pre b b ≡ pos 0
    none_pre true = refl
    none_pre false = refl

compare_pre_zero : (a b : Bool) → compare_pre a b ≡ pos 0 → a ≡ b
compare_pre_zero true true h = refl
compare_pre_zero true false h = cc
compare_pre_zero false true h = let null : ◌≡◌ {A = ℕ} 1 0 = ap magnitude h in absurd (omega arith)
compare_pre_zero false false h = refl

-- Two versions compare as equal exactly where their three numbers and the mark of a pre-release
-- are the same.
version_cmp_zero : (a b : Bytes) → (version_cmp a b ≡ pos 0) ↔ (parse_ver a ≡ parse_ver b)
unfolding version_cmp compare_ver
version_cmp_zero a b =
    let va = parse_ver a in
    let vb = parse_ver b in
    (
      (λ h.
          let (maj, h1) = ladder_zero va.maj vb.maj _ h in
          let (min, h2) = ladder_zero va.min vb.min _ h1 in
          let (pat, h3) = ladder_zero va.pat vb.pat _ h2 in
          let pre = compare_pre_zero va.has_pre vb.has_pre h3 in
          λ i. record { maj = maj i; min = min i; pat = pat i; has_pre = pre i }),
      λ e. subst (λ v. compare_ver va v ≡ pos 0) e (compare_ver_self va),
    )
