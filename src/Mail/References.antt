-- ===== src/Mail/References.antt =====
-- The references of client/src/lib/mail.c.
use shyake.Base.{
  ℕ, zero, suc, ◌<◌, ◌%◌, ◌/◌, ◌≡◌, refl, true, Bytes, [], ◌∷◌, List, All, All-get_or, AreBytes,
  codes, length, take, length-take, arith, ==_iff,
}
use shyake.Base.Hex.{length-hex, hex, hex_digit}
use shyake.Client.{Libs}
use shyake.Mail.{is_ref, all_hex, is_one_of, sig_ref}

hex_digit-is_one_of : (n : ℕ) → n < 16 → is_one_of (codes "0123456789abcdef") (hex_digit n) ≡ true
unfolding is_one_of
hex_digit-is_one_of n h =
    All-get_or (λ c. is_one_of (codes "0123456789abcdef") c ≡ true) (codes "0123456789abcdef") n 0
      (
        refl,
        (
          refl,
          (
            refl,
            (
              refl,
              (
                refl,
                (
                  refl,
                  (
                    refl,
                    (refl, (refl, (refl, (refl, (refl, (refl, (refl, (refl, (refl, tt))))))))),
                  ),
                ),
              ),
            ),
          ),
        ),
      )
      h

all_hex-hex : (s : Bytes) → AreBytes s → all_hex (hex s) ≡ true
unfolding all_hex hex
all_hex-hex [] h = refl
all_hex-hex (b ∷ s) h =
    rw
      (
        hex_digit-is_one_of (b / 16) (omega (arith, h.0)),
        hex_digit-is_one_of (b % 16) (omega arith),
      )
      (all_hex-hex s h.1)

All-take {ℓ κ} : {A : Type ℓ} (P : A → Type κ) (n : ℕ) (xs : List A) → All P xs → All P (take n xs)
All-take P zero xs h = tt
All-take P (suc n) [] h = tt
All-take P (suc n) (x ∷ xs) h = (h.0, All-take P n xs h.1)

-- The reference that is made of a signature passes the test for references, where SHA-256 gives 32
-- bytes.
sig_ref-is_ref :
    (L : Libs) (signature : Bytes)
    → length (L.sha256 signature) ≡ 32
    → AreBytes (L.sha256 signature)
    → is_ref (sig_ref L signature) ≡ true
unfolding is_ref sig_ref
sig_ref-is_ref L signature l h =
    let digest = take 32 (L.sha256 signature) in
    let size : length (hex digest) ≡ 64 =
      omega (arith, length-hex digest, length-take 32 (L.sha256 signature)) in
    rw ((==_iff _ _).1 size) (all_hex-hex digest (All-take (λ c. c < 256) 32 _ h))
