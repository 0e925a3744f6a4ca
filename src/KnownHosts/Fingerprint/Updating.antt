-- ===== src/KnownHosts/Fingerprint/Updating.antt =====
-- `shyake_fingerprint` after an update of the trusted key.
use mathlib.Core.Option.{some_inj}
use shyake.Base.{
  ◌≡◌, ◌≤◌, ◌<◌, ◌^◌, refl, ap, sym, ◌∙◌, inl, inr, Bool, true, false, Bytes, [], ◌∷◌, ◌++◌, List,
  Option, some, codes, equal, equal_iff, length, if◌then◌else◌,
}
use shyake.Base.Hex.{hex}
use shyake.Base.Integer.{pos}
use shyake.Context.{Ctx, Err, ok, path_in}
use shyake.Crypto.Base64.{base64_decode}
use shyake.Network.Lookup.{fetch_recipient_pubkey, fetch_recipient_pubkey_sound}
use shyake.Client.{Libs, World, State, without_error, net_of}
use shyake.KnownHosts.{Entry, get_known_host, update_known_host}
use shyake.KnownHosts.Lines.{IsPrintable, render}
use shyake.KnownHosts.Refinement.{Holds, without, get-update_known_host}
use shyake.KnownHosts.Fingerprint.Given.{print_of, entry_of, Gives}
use shyake.KnownHosts.Fingerprint.{
  FpResult, compared, local_print, fp_fetched, fp_decoded, fingerprint,
}

module _ (L : Libs) where
  fetched_whole :
      (W : World) (user pk_b64 : Bytes) (ctx : Ctx)
      → (fetch_recipient_pubkey L.json (net_of W) user ctx).0 ≡ some pk_b64
      → fetch_recipient_pubkey L.json (net_of W) user ctx ≡ (some pk_b64, ok, ctx)
  fetched_whole W user pk_b64 ctx h =
      elim (fetch_recipient_pubkey_sound L.json (net_of W) user ctx) [
        | inl (key, body, answer, text, given, made) ↦
            let same : some key ≡ some pk_b64 =
              sym (ap (λ (r : Option Bytes × Err × Ctx). r.0) made) ∙ h in
            made ∙ ap (λ (k : Bytes). (some k, ok, ctx)) (some_inj.0 same)
        | inr (nothing, failed) ↦ cc
      ]

  -- The comparison with the trusted key, and the files behind it.
  fingerprint_given :
      (W : World) (user : Bytes) (do_update : Bool) (s : State) (pk_b64 pk : Bytes)
      → Gives L W user s pk_b64 pk
      → ((fingerprint L W (some user) do_update s).0
          ≡ some (compared L W pk (get_known_host s.ctx.config_dir user s.disk)))
        × ((fingerprint L W (some user) do_update s).1.disk ≡ (
            if do_update
            then update_known_host s.ctx.config_dir user (hex (print_of L pk)) pk_b64 s.disk
            else s.disk))
  unfolding fingerprint fp_fetched fp_decoded
  fingerprint_given W user true s pk_b64 pk (fetched, decoded) =
      rw (fetched_whole W user pk_b64 (without_error s).ctx fetched, decoded) (refl, refl)
  fingerprint_given W user false s pk_b64 pk (fetched, decoded) =
      rw (fetched_whole W user pk_b64 (without_error s).ctx fetched, decoded) (refl, refl)

  local_print_known :
      (W : World) (pk pk_b64 : Bytes)
      → base64_decode L.blocks pk_b64 ≡ some pk
      → local_print L W pk_b64 ≡ print_of L pk
  unfolding local_print
  local_print_known W pk pk_b64 h = rw (local_print, h) refl

  -- Both fingerprints, and whether they are the same.
  abbrev pub shown_with : Bytes → Bytes → FpResult
  shown_with trusted remote = record {
    local_fp = trusted;
    remote_fp = remote;
    has_local = true;
    matches = if equal trusted remote then pos 1 else pos 0;
  }

  compared_trusted :
      (W : World) (pk pk' pk_b64 : Bytes)
      → base64_decode L.blocks pk_b64 ≡ some pk
      → compared L W pk' (some pk_b64) ≡ shown_with (print_of L pk) (print_of L pk')
  unfolding compared local_print
  compared_trusted W pk pk' pk_b64 h =
      ap (λ (fp : Bytes). shown_with fp (print_of L pk')) (local_print_known W pk pk_b64 h)

  -- After an update of the trusted key of a user, with no path cut and where the new file could be written
  -- whole, the next comparison is with the key that the instance gave then: it shows both fingerprints, and a
  -- match where, and only where, they are the same. Both keys have a length below 2^31: `base64_decode` makes
  -- of blanks alone a key whose length wrapped to 64 bits, and the program may end as it is hashed.
  pub fingerprint_updated :
      (W W' : World) (user pk_b64 pk pk_b64' pk' : Bytes) (s s' : State) (es : List Entry)
      → Gives L W user s pk_b64 pk
      → Gives L W' user s' pk_b64' pk'
      → length pk < 2 ^ 31
      → length pk' < 2 ^ 31
      → Holds s.ctx.config_dir s.disk es
      → IsPrintable (entry_of L user pk pk_b64)
      → length s.ctx.config_dir ≤ 495
      → s.disk.denied (path_in s.ctx.config_dir (codes "known_hosts.tmp")) ≡ false
      → length (render (without user es ++ entry_of L user pk pk_b64 ∷ []))
        ≤ s.disk.room (path_in s.ctx.config_dir (codes "known_hosts.tmp"))
      → s'.disk ≡ (fingerprint L W (some user) true s).1.disk
      → s'.ctx.config_dir ≡ s.ctx.config_dir
      → (fingerprint L W' (some user) false s').0
        ≡ some (record {
          local_fp = print_of L pk;
          remote_fp = print_of L pk';
          has_local = true;
          matches = if equal (print_of L pk) (print_of L pk') then pos 1 else pos 0;
        })
  fingerprint_updated W W' user pk_b64 pk pk_b64' pk' s s' es given given' fits fits' holds
        printable whole free room same_disk same_dir =
      let (_, updated) = fingerprint_given W user true s pk_b64 pk given in
      let (shown, _) = fingerprint_given W' user false s' pk_b64' pk' given' in
      let kept =
        get-update_known_host s.ctx.config_dir (entry_of L user pk pk_b64) s.disk es user holds
          printable whole free room in
      let trusted : get_known_host s'.ctx.config_dir user s'.disk ≡ some pk_b64 =
        ap (λ (dir : Bytes). get_known_host dir user s'.disk) same_dir
        ∙ ap (get_known_host s.ctx.config_dir user) (same_disk ∙ updated)
        ∙ kept
        ∙ rw ((equal_iff user user).1 refl) refl in
      shown
      ∙ ap (λ (k : Option Bytes). some (compared L W' pk' k)) trusted
      ∙ ap (λ (f : FpResult). some f) (compared_trusted W' pk pk' pk_b64 (given.1))
