-- ===== src/KeyFile/Parts.antt =====
-- The layout of a sealed key file: where `load_sk_decrypted` looks for each part, the part is.
use shyake.Base.{
  ℕ, ◌+◌, ◌<◌, ◌^◌, ◌≡◌, refl, sym, ap, ◌∙◌, true, Bytes, ◌++◌, append_assoc, length, length-append,
  take, drop, drop-drop, take-append_eq, drop-append_eq, arith, equal,
}
use shyake.Wire.{write_u32le, read_u32le, length-write_u32le, read-write_u32le}
use shyake.KeyFile.{header, header_len, has_magic, is_supported}

length-header :
    (salt nonce : Bytes) (n r p : ℕ)
    → length salt ≡ 32
    → length nonce ≡ 12
    → length (header salt n r p nonce) ≡ header_len
unfolding header
length-header salt nonce n r p s e =
    let m = write_u32le p ++ nonce in
    omega (
      arith,
      length-append salt (write_u32le n ++ (write_u32le r ++ m)),
      length-append (write_u32le n) (write_u32le r ++ m),
      length-append (write_u32le r) m,
      length-append (write_u32le p) nonce,
      length-write_u32le n,
      length-write_u32le r,
      length-write_u32le p,
    )

-- A sealed file: a header, then the cipher text and its tag.
module _ (salt nonce body : Bytes) (n r p : ℕ) where
  abbrev file : Bytes
  file = header salt n r p nonce ++ body

  pub has_magic-header : has_magic file ≡ true
  unfolding has_magic header equal
  has_magic-header = ground arith

  pub is_supported-header : is_supported file ≡ true
  unfolding is_supported header
  is_supported-header = refl

  pub drop_six :
      drop 6 file ≡ salt ++ (write_u32le n ++ (write_u32le r ++ (write_u32le p ++ (nonce ++ body))))
  unfolding header
  drop_six = simp append_assoc

module _ (salt nonce body : Bytes) (n r p : ℕ) (salt_length : length salt ≡ 32) where
  abbrev content : Bytes
  content = file salt nonce body n r p

  pub salt_at : take 32 (drop 6 content) ≡ salt
  salt_at = rw (drop_six salt nonce body n r p) (take-append_eq 32 salt _ salt_length)

  drop_n : drop 38 content ≡ write_u32le n ++ (write_u32le r ++ (write_u32le p ++ (nonce ++ body)))
  drop_n =
      sym (drop-drop 6 32 content)
      ∙ ap (drop 32) (drop_six salt nonce body n r p)
      ∙ drop-append_eq 32 salt _ salt_length

  drop_r : drop 42 content ≡ write_u32le r ++ (write_u32le p ++ (nonce ++ body))
  drop_r =
      sym (drop-drop 38 4 content)
      ∙ ap (drop 4) drop_n
      ∙ drop-append_eq 4 (write_u32le n) _ (length-write_u32le n)

  drop_p : drop 46 content ≡ write_u32le p ++ (nonce ++ body)
  drop_p =
      sym (drop-drop 42 4 content)
      ∙ ap (drop 4) drop_r
      ∙ drop-append_eq 4 (write_u32le r) _ (length-write_u32le r)

  drop_nonce : drop 50 content ≡ nonce ++ body
  drop_nonce =
      sym (drop-drop 46 4 content)
      ∙ ap (drop 4) drop_p
      ∙ drop-append_eq 4 (write_u32le p) _ (length-write_u32le p)

  pub n_at : n < 2 ^ 32 → read_u32le (drop 38 content) ≡ n
  n_at h = rw drop_n (read-write_u32le n _ h)

  pub r_at : r < 2 ^ 32 → read_u32le (drop 42 content) ≡ r
  r_at h = rw drop_r (read-write_u32le r _ h)

  pub p_at : p < 2 ^ 32 → read_u32le (drop 46 content) ≡ p
  p_at h = rw drop_p (read-write_u32le p _ h)

  module _ (nonce_length : length nonce ≡ 12) where
    pub nonce_at : take 12 (drop 50 content) ≡ nonce
    nonce_at = rw drop_nonce (take-append_eq 12 nonce body nonce_length)

    pub header_at : take header_len content ≡ header salt n r p nonce
    header_at =
        take-append_eq header_len (header salt n r p nonce) body
          (length-header salt nonce n r p salt_length nonce_length)

    pub body_at : drop header_len content ≡ body
    body_at =
        drop-append_eq header_len (header salt n r p nonce) body
          (length-header salt nonce n r p salt_length nonce_length)

    pub length-content : length content ≡ header_len + length body
    length-content = omega (
      arith,
      length-append (header salt n r p nonce) body,
      length-header salt nonce n r p salt_length nonce_length,
    )
