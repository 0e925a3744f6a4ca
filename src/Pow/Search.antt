-- ===== src/Pow/Search.antt =====
-- The search for a stamp finds the first counter that does, and misses none.
use mathlib.Core.Path.{subst}
use shyake.Base.{
  ◌==◌, ℕ, zero, suc, ◌+◌, ◌-◌, ◌^◌, ◌≤◌, ◌<◌, ◌≡◌, refl, ◌⊎◌, inl, inr, Bool, true, false, Bytes,
  Option, none, some, Bool-cases, arith,
}
use shyake.Pow.{is_match, rounds, mint_pow, stamp, rand_str}

module _ (sha1 : Bytes → Bytes) (bits : ℕ) (header : ℕ → Bytes) where
  -- The first of `left` counters from `first` whose stamp matches, or that there is none.
  abbrev pub IsFirst : ℕ → ℕ → Option Bytes → Type 0
  IsFirst left first r =
      ((c : ℕ) × (first ≤ c)
        × (c < first + left)
        × (r ≡ some (header c))
        × (is_match bits (sha1 (header c)) ≡ true)
        × ((b : ℕ) → first ≤ b → b < c → is_match bits (sha1 (header b)) ≡ false))
      ⊎ ((r ≡ none)
          × ((b : ℕ) → first ≤ b → b < first + left → is_match bits (sha1 (header b)) ≡ false))

  pub rounds-IsFirst : (left first : ℕ) → IsFirst left first (rounds sha1 bits header left first)
  unfolding rounds
  rounds-IsFirst zero first = inr (refl, λ b h k. absurd (omega arith))
  rounds-IsFirst (suc left) first =
      go (is_match bits (sha1 (header first))) refl (rounds-IsFirst left (suc first))
    where
      earlier :
          (b : ℕ) (n : ℕ)
          → is_match bits (sha1 (header first)) ≡ false
          → first ≤ b
          → b < n
          → ((b' : ℕ) → suc first ≤ b' → b' < n → is_match bits (sha1 (header b')) ≡ false)
          → is_match bits (sha1 (header b)) ≡ false
      earlier b n e h k rest = elim (Bool-cases (b == first)) [
        | inl same ↦
            let at_first : first ≡ b = ground arith in
            subst (λ c. is_match bits (sha1 (header c)) ≡ false) at_first e
        | inr later ↦ rest b (ground arith) k
      ]

      go :
          (m : Bool)
          → is_match bits (sha1 (header first)) ≡ m
          → IsFirst left (suc first) (rounds sha1 bits header left (suc first))
          → IsFirst (suc left) first (elim m [
            | true ↦ some (header first)
            | false ↦ rounds sha1 bits header left (suc first)
          ])
      go true e later =
          inl (first, omega arith, omega arith, refl, e, λ b h k. absurd (omega arith))
      go false e later = elim later [
        | inl (c, above, below, found, hit, missed) ↦
            inl (c, omega arith, omega arith, found, hit, λ b h k. earlier b c e h k missed)
        | inr (nothing, missed) ↦
            inr (nothing, λ b h k. earlier b (suc first + left) e h (omega arith) missed)
      ]

-- The stamp that `shyake_mint_pow` returns is the one of the first counter below 2^32 - 1 whose
-- hash passes the test; it returns none only where every such counter fails.
pub mint_pow-IsFirst :
    (sha1 : Bytes → Bytes) (date rnd resource : Bytes) (bits : ℕ)
    → IsFirst sha1 bits
        (stamp bits date resource (rand_str rnd))
        (2 ^ 32 - 1)
        0
        (mint_pow sha1 date rnd resource bits)
unfolding mint_pow
mint_pow-IsFirst sha1 date rnd resource bits =
    rounds-IsFirst sha1 bits (stamp bits date resource (rand_str rnd)) (2 ^ 32 - 1) 0
