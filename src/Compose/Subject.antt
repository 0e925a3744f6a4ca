-- ===== src/Compose/Subject.antt =====
-- The subject of a reply can always be sent.
use shyake.Base.{
  ℕ, zero, suc, ◌+◌, ◌-◌, ◌≤◌, ◌≡◌, refl, Bool, true, false, Bytes, [], ◌∷◌, ◌++◌, none, some, map,
  codes, take, get_or, equal, equal_iff, ltb, length, length-take, if◌then◌else◌, Bool-cases, arith,
  inl, inr,
}
use shyake.KnownHosts.{is_space}
use shyake.Display.Utf8.{is_continuation}
use shyake.Update.{to_lower}
use shyake.Compose.{all_space, subject_problem, reply_prefix, cut_back, reply_subject}

cut_back_bound : (orig : Bytes) (k : ℕ) → cut_back orig k ≤ k
unfolding cut_back
cut_back_bound orig zero = omega arith
cut_back_bound orig (suc k) = elim (Bool-cases (is_continuation (get_or orig (suc k) 0))) [
  | inl inside ↦ rw inside (omega (arith, cut_back_bound orig k))
  | inr edge ↦ rw edge (omega arith)
]

-- The cut does not go past a byte that begins a code point.
cut_back_stays :
    (orig : Bytes) (k : ℕ) → is_continuation (get_or orig 1 0) ≡ false → 1 ≤ cut_back orig (suc k)
unfolding cut_back
cut_back_stays orig zero h = rw h (omega arith)
cut_back_stays orig (suc k) h = elim (Bool-cases (is_continuation (get_or orig (suc (suc k)) 0))) [
  | inl inside ↦ rw inside (cut_back_stays orig k h)
  | inr edge ↦ rw edge (omega arith)
]

-- A subject that begins with a letter and fits has no problem.
lettered :
    (n c : ℕ) (s : Bytes)
    → 1 ≤ n
    → n ≤ 128
    → is_space c ≡ false
    → subject_problem (some (take n (c ∷ s))) ≡ none
unfolding subject_problem all_space
lettered zero c s h k letter = absurd (omega arith)
lettered (suc n) c s h k letter =
    let short : ltb 128 (suc (length (take n s))) ≡ false = ground (arith, length-take n s) in
    rw (short, letter) refl

-- `Re` in either case.
re_letters :
    (a b : ℕ) (t : Bytes)
    → equal (to_lower a ∷ to_lower b ∷ t) (codes "re:") ≡ true
    → (is_space a ≡ false) × (is_continuation b ≡ false)
unfolding equal is_space
re_letters a b t h =
    let first : to_lower a ≡ b'r' = ground (arith, h) in
    let second : to_lower b ≡ b'e' = ground (arith, h) in (ground arith, ground arith)

letter_first : is_space b'R' ≡ false
unfolding is_space
letter_first = refl

too_short : (s : Bytes) → equal s (codes "re:") ≡ true → length s ≡ 3
too_short s h = rw ((equal_iff s (codes "re:")).0 h) refl

bounded :
    (n m : ℕ)
    → m ≤ 128
    → 1 ≤ m
    → 1 ≤ n
    → (1 ≤ (if ltb 128 n then m else n)) × ((if ltb 128 n then m else n) ≤ 128)
bounded n m h k l = ground arith

-- The subject of a reply is at most 128 bytes, not empty and not only whitespace, whatever it answers.
pub reply_subject_sendable : (orig : Bytes) → subject_problem (some (reply_subject orig)) ≡ none
unfolding reply_subject reply_prefix
reply_subject_sendable orig = go orig (equal (map to_lower (take 3 orig)) (codes "re:")) refl
  where
    go :
        (s : Bytes) (p : Bool)
        → equal (map to_lower (take 3 s)) (codes "re:") ≡ p
        → subject_problem (
            some (
              let prefix = if p then [] else codes "Re: " in
              let n = length prefix + length s in
              let n' = if ltb 128 n then length prefix + cut_back s (128 - length prefix) else n in
              take n' (prefix ++ s)))
          ≡ none
    go s false e =
        let (low, high) =
          bounded (4 + length s) (4 + cut_back s 124) (omega (arith, cut_back_bound s 124))
            (omega arith) (omega arith) in
        lettered _ b'R' (codes "e: " ++ s) low high letter_first
    go [] true e = absurd (omega (arith, too_short _ e))
    go (a ∷ []) true e = absurd (omega (arith, too_short _ e))
    go (a ∷ b ∷ s) true e =
        let (letter, edge) = re_letters a b _ e in
        let (low, high) =
          bounded (0 + length (a ∷ b ∷ s)) (0 + cut_back (a ∷ b ∷ s) 128)
            (omega (arith, cut_back_bound (a ∷ b ∷ s) 128))
            (omega (arith, cut_back_stays (a ∷ b ∷ s) 127 edge)) (omega arith) in
        lettered _ a (b ∷ s) low high letter
