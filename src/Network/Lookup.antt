-- ===== src/Network/Lookup.antt =====
-- client/src/lib/network.c: `fetch_recipient_pubkey`, `instance_protocol` and
-- `set_signed_body_error`.
use shyake.Base.{
  ℕ, ◌≡◌, ◌≢◌, refl, ◌⊎◌, inl, inr, ◌&&◌, Bytes, [], ◌∷◌, ◌++◌, Option, none, some, ◌>>=◌, codes,
  snprintf, ltb, ◌==◌, if◌then◌else◌, Bool-cases, arith,
}
use shyake.Context.{
  Ctx, set_error, Err, ok, err, err_network, err_http, err_gone, err_not_found, or_null,
}
use shyake.Network.{Json, Reply, unreachable, answered, Net, set_server_error, set_network_error}

-- The text behind the first `@`; the whole text where there is none.
unfoldable pub behind_at : Bytes → Bytes → Bytes
behind_at whole [] = whole
behind_at whole (c ∷ rest) = let later = behind_at whole rest in if c == b'@' then rest else later

-- `snprintf(url, 512, "%s/api/pubkey/%s", …)`
abbrev pub pubkey_url : Ctx → Bytes → Bytes
pubkey_url ctx recipient =
    snprintf 512 (or_null ctx.instance_url ++ (codes "/api/pubkey/" ++ recipient))

abbrev pub Lookup : Type 0
Lookup = Option Bytes × Err × Ctx

-- At status 200, on the "kem_pubkey" string of the body.
key_answer : Bytes → Ctx → Option Bytes → Lookup
key_answer recipient ctx none =
    (none, err, set_error (codes "The instance sent an invalid key.") ctx)
key_answer recipient ctx (some []) =
    (none, err_gone, set_error (recipient ++ codes " no longer exists.") ctx)
key_answer recipient ctx (some (c ∷ pk)) = (some (c ∷ pk), ok, ctx)

module _ (J : Json) where
  unfoldable pub kem_pubkey_of : Bytes → Option Bytes
  kem_pubkey_of body = do
    json ← J.parse body
    item ← J.item json (codes "kem_pubkey")
    J.string item

  reply_answer : Bytes → Ctx → Option Reply → Lookup
  reply_answer recipient ctx none = (none, err, ctx)
  reply_answer recipient ctx (some (unreachable problem)) =
      (none, err_network, set_network_error problem ctx)
  reply_answer recipient ctx (some (answered code body)) =
      if code == 200
      then key_answer recipient ctx (kem_pubkey_of body)
      else if code == 404
      then (
        none,
        err_not_found,
        set_error (codes "User " ++ (recipient ++ codes " not found.")) ctx,
      )
      else if code == 502
      then (
        none,
        err_http,
        set_error (codes "Cannot reach " ++ (behind_at recipient recipient ++ codes ".")) ctx,
      )
      else (none, err_http, set_server_error J code body ctx)

  unfoldable pub fetch_recipient_pubkey : Net → Bytes → Ctx → Lookup
  unfolding key_answer reply_answer
  fetch_recipient_pubkey net recipient ctx =
      reply_answer recipient ctx (net (pubkey_url ctx recipient))

  -- 0 for no answer, 1 for an instance that does not say.
  unfoldable pub instance_protocol : Net → Ctx → ℕ
  instance_protocol net ctx =
      elim (net (snprintf 512 (or_null ctx.instance_url ++ codes "/api/version"))) [
        | none ↦ 0
        | some (unreachable _) ↦ 0
        | some (answered code body) ↦
            let level = do
              json ← (if code == 200 then J.parse body else none)
              p ← J.item json (codes "protocol")
              J.number p
            in elim level [ none ↦ 1 | some v ↦ (if ltb 1 v then v else 1) ]
      ]

  unfoldable pub set_signed_body_error : Net → ℕ → Bytes → Ctx → Ctx
  set_signed_body_error net code body ctx =
      if code == 401 && instance_protocol net ctx == 1
      then set_error (codes "The instance must run server v0.3.0 or later.") ctx
      else set_server_error J code body ctx

  key_answer_sound :
      (recipient : Bytes) (ctx : Ctx) (o : Option Bytes) (r : Lookup)
      → r ≡ key_answer recipient ctx o
      → ((pk : Bytes) × (o ≡ some pk) × (pk ≢ []) × (r ≡ (some pk, ok, ctx)))
        ⊎ ((r.0 ≡ none) × (r.1 ≢ ok))
  unfolding key_answer
  key_answer_sound recipient ctx none r e = inr (rw e refl, rw e (λ h. cc))
  key_answer_sound recipient ctx (some []) r e = inr (rw e refl, rw e (λ h. cc))
  key_answer_sound recipient ctx (some (c ∷ pk)) r e = inl (c ∷ pk, refl, (λ h. cc), e)

  -- A key comes only from an answer 200 that carries that text, which is not empty; then nothing is
  -- recorded. Otherwise there is no key and the code is not `ok`.
  pub fetch_recipient_pubkey_sound :
      (net : Net) (recipient : Bytes) (ctx : Ctx)
      → ((pk body : Bytes) × (net (pubkey_url ctx recipient) ≡ some (answered 200 body))
          × (kem_pubkey_of body ≡ some pk)
          × (pk ≢ [])
          × (fetch_recipient_pubkey net recipient ctx ≡ (some pk, ok, ctx)))
        ⊎ (((fetch_recipient_pubkey net recipient ctx).0 ≡ none)
            × ((fetch_recipient_pubkey net recipient ctx).1 ≢ ok))
  unfolding fetch_recipient_pubkey
  fetch_recipient_pubkey_sound net recipient ctx = go (net (pubkey_url ctx recipient))
    where
      go :
          (reply : Option Reply)
          → ((pk body : Bytes) × (reply ≡ some (answered 200 body))
              × (kem_pubkey_of body ≡ some pk)
              × (pk ≢ [])
              × (reply_answer recipient ctx reply ≡ (some pk, ok, ctx)))
            ⊎ (((reply_answer recipient ctx reply).0 ≡ none)
                × ((reply_answer recipient ctx reply).1 ≢ ok))
      go none = inr (refl, λ h. cc)
      go (some (unreachable problem)) = inr (refl, λ h. cc)
      go (some (answered code body)) = elim (Bool-cases (code == 200)) [
        | inl good ↦
            let code_is : code ≡ 200 = ground arith in
            elim (key_answer_sound recipient ctx (kem_pubkey_of body) _ refl) [
              | inl (pk, found, ne, e) ↦ inl (pk, body, rw code_is refl, found, ne, rw good e)
              | inr (no_key, not_ok) ↦ inr (rw good no_key, rw good not_ok)
            ]
        | inr other ↦ inr (rw other (ground arith), rw other (λ h. ground arith))
      ]
