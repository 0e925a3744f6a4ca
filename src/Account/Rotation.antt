-- ===== src/Account/Rotation.antt =====
-- `shyake_rotate` of client/src/lib/account.c: when the keys of an account are replaced, and that the
-- new ones are there afterwards.
use shyake.Base.{
  ℕ, ◌≡◌, ◌≢◌, refl, ◌∙◌, ◌⊎◌, inl, inr, Bool, true, false, ◌||◌, Bytes, List, Option, none, some,
  codes, Bool-cases, ◌==◌, if◌then◌else◌,
}
use shyake.Context.{ok, err}
use shyake.Network.{Reply, unreachable, answered}
use shyake.Network.Requests.{create_signed_headers_body}
use shyake.Network.Requests.Signing.{
  create_signed_headers_body_disk, create_signed_headers_body_ctx,
}
use shyake.Client.{Libs, World, Request, State, Outcome, without_error, stop}
use shyake.Account.{
  Keys, new_keys, save_keys, rotate_body, rotate_reply, rotate_request, rotate_signed, rotate_with,
  rotate,
}

module _ (L : Libs) (W : World) where
  -- The instance took the request.
  abbrev pub Accepts : Request → Type 0
  Accepts request =
      (status : ℕ) × (body : Bytes) × (W.perform request ≡ answered status body)
      × ((status == 200 || status == 201) ≡ true)

  -- How a rotation from `s` ended: the files as they were, or the keys that the request named saved.
  abbrev pub Rotated : State → Outcome → Type 0
  Rotated s o =
      ((o.code ≢ ok) × (o.state.disk ≡ s.disk))
      ⊎ ((o.code ≡ ok)
          × (keys : Keys) × (request : Request) × (middle : State) × (new_keys L W ≡ some keys)
          × (o.sent ≡ some request)
          × (request.body ≡ some (rotate_body L W keys))
          × Accepts request
          × (middle.ctx ≡ s.ctx)
          × (middle.disk ≡ s.disk)
          × (o.state ≡ save_keys L W keys middle))

  rotate_reply_cases :
      (keys : Keys) (s : State) (request : Request) (reply : Reply)
      → W.perform request ≡ reply
      → (((rotate_reply L W keys s reply).0 ≢ ok)
          × ((rotate_reply L W keys s reply).1.disk ≡ s.disk))
        ⊎ (((rotate_reply L W keys s reply).0 ≡ ok)
            × Accepts request
            × ((rotate_reply L W keys s reply).1 ≡ save_keys L W keys s))
  unfolding rotate_reply
  rotate_reply_cases keys s request (unreachable problem) e = inl ((λ h. cc), refl)
  rotate_reply_cases keys s request (answered status body) e =
      elim (Bool-cases (status == 200 || status == 201)) [
        | inl good ↦ rw good (inr (refl, (status, body, e, good), refl))
        | inr bad ↦ rw bad (inl ((λ h. cc), refl))
      ]

  rotate_signed-Rotated :
      (s : State) (keys : Keys) (r : Option (List Bytes) × State)
      → new_keys L W ≡ some keys
      → r.1.disk ≡ s.disk
      → ((headers : List Bytes) → r.0 ≡ some headers → r.1.ctx ≡ s.ctx)
      → Rotated s (rotate_signed L W keys (rotate_body L W keys) r)
  unfolding rotate_signed
  rotate_signed-Rotated s keys (none, s') made same kept = inl ((λ h. cc), same)
  rotate_signed-Rotated s keys (some headers, s') made same kept =
      elim (rotate_reply_cases keys s' (rotate_request L W s'.ctx headers (rotate_body L W keys)) _
        refl) [
          | inl (bad, still) ↦ inl (bad, still ∙ same)
          | inr (good, accepts, saved) ↦ inr (
            good,
            keys,
            rotate_request L W s'.ctx headers (rotate_body L W keys),
            s',
            made,
            refl,
            refl,
            accepts,
            kept headers refl,
            same,
            saved,
          )
        ]

  rotate_with-Rotated :
      (s : State) (o : Option Keys) → new_keys L W ≡ o → Rotated s (rotate_with L W s o)
  unfolding rotate_with
  rotate_with-Rotated s none made = inl ((λ h. cc), refl)
  rotate_with-Rotated s (some keys) made = go W.curl_init
    where
      body : Option Bytes
      body = some (rotate_body L W keys)

      endpoint : Bytes
      endpoint = codes "/api/rotate"

      signed : Option (List Bytes) × State
      signed = create_signed_headers_body L W (codes "POST") endpoint s.ctx.username body s

      go :
          (ready : Bool)
          → Rotated s
              (if ready then rotate_signed L W keys (rotate_body L W keys) signed else stop err s)
      go true =
          rotate_signed-Rotated s keys signed made
            (create_signed_headers_body_disk L W (codes "POST") endpoint s.ctx.username body s)
            (create_signed_headers_body_ctx L W (codes "POST") endpoint s.ctx.username body s)
      go false = inl ((λ h. cc), refl)

  -- A rotation that does not end with `ok` leaves every file as it was. One that ends with `ok` sent a
  -- request with the new public keys, the instance answered it with 200 or 201, and only then were
  -- those keys and their secret halves saved.
  pub rotate-Rotated : (s : State) → Rotated (without_error s) (rotate L W s)
  unfolding rotate
  rotate-Rotated s = rotate_with-Rotated (without_error s) (new_keys L W) refl
