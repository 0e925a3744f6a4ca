-- ===== src/Account/Ending.antt =====
-- `shyake_destroy` of client/src/lib/account.c: what it touches, and when it ends with `SHYAKE_OK`.
use shyake.Base.{
  ℕ, ◌≡◌, ◌≢◌, refl, ap, snprintf, ◌++◌, ◌⊎◌, inl, inr, Bytes, List, Option, none, some, codes,
  Bool-cases, ◌==◌, true, false, if◌then◌else◌,
}
use shyake.Context.{Ctx, ok, err, or_null}
use shyake.Network.{Reply, unreachable, answered}
use shyake.Network.Requests.{create_signed_headers}
use shyake.Network.Requests.Signing.{
  create_signed_headers_body_disk, create_signed_headers_body_ctx,
}
use shyake.Client.{Libs, World, Request, State, Outcome, without_error, stop, url_of}
use shyake.Account.{destroy_reply, destroy_signed, destroy}

module _ (L : Libs) (W : World) where
  -- The request that ends the account of the user of the context, on their instance.
  pub record EndsAccount (s : State) (request : Request) : Type 0 where
    pub is_delete : request.method ≡ codes "DELETE"
    pub is_url : request.url ≡ snprintf 512 (or_null s.ctx.instance_url ++ codes "/api/destroy")
    pub no_body : request.body ≡ none
    pub is_signed :
        (create_signed_headers L W
          (codes "DELETE")
          (codes "/api/destroy")
          s.ctx.username
          (without_error s)).0
        ≡ some request.headers

  -- The files are as they were, and the code is `SHYAKE_OK` only where the instance answered that request, which
  -- was sent, with 200.
  abbrev pub Destroys : State → Outcome → Type 0
  Destroys s o =
      (o.state.disk ≡ s.disk)
      × ((o.code ≢ ok)
          ⊎ ((request : Request) × (body : Bytes) × (status : ℕ) × (o.sent ≡ some request)
              × EndsAccount s request
              × (W.perform request ≡ answered status body)
              × ((status == 200) ≡ true)))

  destroy_reply-Destroys :
      (s t : State) (request : Request) (reply : Reply)
      → t.disk ≡ s.disk
      → EndsAccount s request
      → W.perform request ≡ reply
      → Destroys s (record {
        code = (destroy_reply L W t reply).0;
        sent = some request;
        state = (destroy_reply L W t reply).1;
      })
  unfolding destroy_reply
  destroy_reply-Destroys s t request (unreachable problem) same ends e = (same, inl (λ h. cc))
  destroy_reply-Destroys s t request (answered status body) same ends e =
      elim (Bool-cases (status == 200)) [
        | inl good ↦ rw good (same, inr (request, body, status, refl, ends, e, good))
        | inr bad ↦ rw bad (same, inl (λ h. cc))
      ]

  destroy_signed-Destroys :
      (s : State) (r : Option (List Bytes) × State)
      → r.1.disk ≡ s.disk
      → ((headers : List Bytes) → r.0 ≡ some headers → r.1.ctx ≡ (without_error s).ctx)
      → create_signed_headers L W
          (codes "DELETE")
          (codes "/api/destroy")
          s.ctx.username
          (without_error s)
        ≡ r
      → Destroys s (destroy_signed L W r)
  unfolding destroy_signed
  destroy_signed-Destroys s (none, t) same kept made = (same, inl (λ h. cc))
  destroy_signed-Destroys s (some headers, t) same kept made =
      destroy_reply-Destroys s t _ _ same
        (record {
          is_delete = refl;
          is_url = ap (λ (ctx : Ctx). url_of ctx (codes "/api/destroy")) (kept headers refl);
          no_body = refl;
          is_signed = ap (λ (r : Option (List Bytes) × State). r.0) made;
        })
        refl

  pub destroy-Destroys : (s : State) → Destroys s (destroy L W s)
  unfolding destroy create_signed_headers
  destroy-Destroys s =
      let cleared = without_error s in
      let signing =
        create_signed_headers L W (codes "DELETE") (codes "/api/destroy") cleared.ctx.username
          cleared in
      elim W.curl_init
        as (λ b. Destroys s (if b then destroy_signed L W signing else stop err cleared)) [
          | true ↦
              destroy_signed-Destroys s signing
                (create_signed_headers_body_disk L W (codes "DELETE") (codes "/api/destroy")
                  s.ctx.username none cleared)
                (create_signed_headers_body_ctx L W (codes "DELETE") (codes "/api/destroy")
                  s.ctx.username none cleared)
                refl
          | false ↦ (refl, inl (λ h. cc))
        ]
