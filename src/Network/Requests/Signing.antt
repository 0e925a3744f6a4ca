-- ===== src/Network/Requests/Signing.antt =====
-- What `create_signed_headers_body` of client/src/lib/network.c signs, and what it leaves alone.
use mathlib.Core.Option.{some_inj}
use shyake.Base.{◌≡◌, refl, sym, ◌∙◌, Bytes, List, Option, none, some, codes}
use shyake.Context.{Ctx, path_in, or_null}
use shyake.Crypto.Interface.{SigSizes}
use shyake.Crypto.Base64.{base64_encode}
use shyake.KeyFile.{load_sk_decrypted}
use shyake.KeyFile.Failures.{load_sk_decrypted_success}
use shyake.Network.Requests.{
  mint, signed_message, signed_headers, sign_headers, with_signer, create_signed_headers_body,
}
use shyake.Client.{Libs, World, State}

module _ (L : Libs) (W : World) (method endpoint : Bytes) (username body : Option Bytes) where
  abbrev loading : State → Option Bytes × Ctx
  loading s =
      load_sk_decrypted L.evp L.kdf s.ctx (path_in s.ctx.config_dir (codes "sig_sk.bin")) s.disk

  abbrev signing : State → Option (List Bytes) × State
  signing s = create_signed_headers_body L W method endpoint username body s

  sign_headers_disk :
      (message ssk : Bytes) (s : State) (o : Option SigSizes)
      → (sign_headers L W message username ssk s o).1.disk ≡ s.disk
  unfolding sign_headers
  sign_headers_disk message ssk s none = refl
  sign_headers_disk message ssk s (some sizes) = refl

  with_signer_disk :
      (message : Bytes) (s : State) (o : Option Bytes × Ctx)
      → (with_signer L W message username s o).1.disk ≡ s.disk
  unfolding with_signer
  with_signer_disk message s (none, ctx) = refl
  with_signer_disk message s (some ssk, ctx) = sign_headers_disk message ssk _ L.sig.sig_new

  pub create_signed_headers_body_disk : (s : State) → (signing s).1.disk ≡ s.disk
  unfolding create_signed_headers_body
  create_signed_headers_body_disk s = with_signer_disk _ s (loading s)

  sign_headers_made :
      (message ssk : Bytes) (s : State) (headers : List Bytes) (o : Option SigSizes)
      → (sign_headers L W message username ssk s o).0 ≡ some headers
      → (headers
          ≡ signed_headers L W username
              (base64_encode L.blocks (L.sig.sig_sign message ssk))
              (mint L W (or_null username) 20 s.entropy).0)
        × ((sign_headers L W message username ssk s o).1.ctx ≡ s.ctx)
  unfolding sign_headers
  sign_headers_made message ssk s headers none h = cc
  sign_headers_made message ssk s headers (some sizes) h = (sym (some_inj.0 h), refl)

  with_signer_made :
      (message : Bytes) (s : State) (headers : List Bytes) (o : Option Bytes × Ctx)
      → ((ssk : Bytes) → o.0 ≡ some ssk → o.1 ≡ s.ctx)
      → (with_signer L W message username s o).0 ≡ some headers
      → (ssk : Bytes) × (o.0 ≡ some ssk)
        × (headers
            ≡ signed_headers L W username
                (base64_encode L.blocks (L.sig.sig_sign message ssk))
                (mint L W (or_null username) 20 s.entropy).0)
        × ((with_signer L W message username s o).1.ctx ≡ s.ctx)
  unfolding with_signer
  with_signer_made message s headers (none, ctx) same h = cc
  with_signer_made message s headers (some ssk, ctx) same h =
      let (signed, kept) =
        sign_headers_made message ssk (record s { ctx = ctx }) headers L.sig.sig_new h in
      (ssk, refl, signed, kept ∙ same ssk refl)

  -- The headers of a request that could be signed.
  pub signing_made :
      (s : State) (headers : List Bytes)
      → (signing s).0 ≡ some headers
      → (ssk : Bytes) × ((loading s).0 ≡ some ssk)
        × (headers
            ≡ signed_headers L W username
                (base64_encode L.blocks
                  (L.sig.sig_sign (signed_message L W method endpoint username body) ssk))
                (mint L W (or_null username) 20 s.entropy).0)
        × ((signing s).1.ctx ≡ s.ctx)
  unfolding create_signed_headers_body
  signing_made s headers h =
      with_signer_made (signed_message L W method endpoint username body) s headers (loading s)
        (λ ssk e.
          (load_sk_decrypted_success L.evp L.kdf s.ctx
            (path_in s.ctx.config_dir (codes "sig_sk.bin")) s.disk ssk e).0)
        h

  pub create_signed_headers_body_ctx :
      (s : State) (headers : List Bytes) → (signing s).0 ≡ some headers → (signing s).1.ctx ≡ s.ctx
  create_signed_headers_body_ctx s headers h =
      let (ssk, key, signed, kept) = signing_made s headers h in kept
