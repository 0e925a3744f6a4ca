-- ===== src/Register/Generation.antt =====
-- `shyake_generate_keys` of client/src/lib/libshyake.c: a second run changes nothing.
use shyake.Base.{
  ◌≤◌, ◌≡◌, refl, ap, ◌∙◌, Bool, true, false, ◌&&◌, Bytes, codes, length, equal, arith,
}
use shyake.Os.{Disk, read}
use shyake.Context.{Ctx, path_in}
use shyake.Context.Paths.{path_in_differs}
use shyake.KeyFile.Elsewhere.{Untouched}
use shyake.Client.{Libs, World, State}
use shyake.Register.{generate_pair, kem_pair, sig_pair, generate_keys}
use shyake.Register.Pair.{
  Exists, generate_pair-Exists, generate_pair-Untouched, generate_pair_ctx, generate_pair_kept,
}

seen_same :
    (d : Disk) (name : Bytes) {c c' : Ctx}
    → c ≡ c'
    → read d (path_in c.config_dir name) ≡ read d (path_in c'.config_dir name)
seen_same d name e = ap (λ (c : Ctx). read d (path_in c.config_dir name)) e

and-true : (a b : Bool) → (a && b) ≡ true → (a ≡ true) × (b ≡ true)
and-true true true h = (refl, refl)
and-true true false h = cc
and-true false b h = cc

module _ (L : Libs) where
  -- Both public keys are there.
  HasKeys : State → Type 0
  HasKeys s =
      Exists s.disk (path_in s.ctx.config_dir (codes "kem_pk.bin"))
      × Exists s.disk (path_in s.ctx.config_dir (codes "sig_pk.bin"))

  generate_keys_kept : (W : World) (s : State) → HasKeys s → generate_keys L W s ≡ (true, s)
  unfolding generate_keys HasKeys
  generate_keys_kept W s (kem, sig) =
      rw
        (
          generate_pair_kept L (codes "kem_pk.bin") (codes "kem_sk.bin") s (kem_pair L W) kem,
          generate_pair_kept L (codes "sig_pk.bin") (codes "sig_sk.bin") s (sig_pair L W) sig,
        )
        refl

  module _ (W : World) (s : State) (short : length s.ctx.config_dir ≤ 480) where
    abbrev first : Bool × State
    first = generate_pair L (codes "kem_pk.bin") (codes "kem_sk.bin") (kem_pair L W) s

    abbrev second : Bool × State
    second = generate_pair L (codes "sig_pk.bin") (codes "sig_sk.bin") (sig_pair L W) first.1

    first_ctx : first.1.ctx ≡ s.ctx
    first_ctx = generate_pair_ctx L (codes "kem_pk.bin") (codes "kem_sk.bin") s (kem_pair L W)

    second_ctx : second.1.ctx ≡ first.1.ctx
    second_ctx =
        generate_pair_ctx L (codes "sig_pk.bin") (codes "sig_sk.bin") first.1 (sig_pair L W)

    apart :
        (a b : Bytes)
        → length a ≤ 10
        → length b ≤ 10
        → equal a b ≡ false
        → equal (path_in first.1.ctx.config_dir a) (path_in first.1.ctx.config_dir b) ≡ false
    apart a b ha hb ne =
        rw first_ctx (path_in_differs s.ctx.config_dir a b (omega arith) (omega arith) ne)

    first-Untouched :
        (other : Bytes)
        → length other ≤ 10
        → equal (codes "kem_pk.bin") other ≡ false
        → equal (codes "kem_sk.bin") other ≡ false
        → Untouched (path_in s.ctx.config_dir other) s.disk first.1.disk
    first-Untouched other l pk sk =
        generate_pair-Untouched L (codes "kem_pk.bin") (codes "kem_sk.bin") s (kem_pair L W)
          (path_in s.ctx.config_dir other)
          (path_in_differs s.ctx.config_dir _ other (omega arith) (omega arith) pk)
          (path_in_differs s.ctx.config_dir _ other (omega arith) (omega arith) sk)

    second_kept :
        read second.1.disk (path_in first.1.ctx.config_dir (codes "kem_pk.bin"))
        ≡ read first.1.disk (path_in first.1.ctx.config_dir (codes "kem_pk.bin"))
    unfolding equal
    second_kept =
        (generate_pair-Untouched L (codes "sig_pk.bin") (codes "sig_sk.bin") first.1 (sig_pair L W)
          (path_in first.1.ctx.config_dir (codes "kem_pk.bin"))
          (apart (codes "sig_pk.bin") (codes "kem_pk.bin") (omega arith) (omega arith) refl)
          (apart (codes "sig_sk.bin") (codes "kem_pk.bin") (omega arith) (omega arith) refl)).0

    first_there :
        s.disk.denied (path_in s.ctx.config_dir (codes "kem_pk.bin")) ≡ false
        → first.0 ≡ true
        → Exists first.1.disk (path_in s.ctx.config_dir (codes "kem_pk.bin"))
    unfolding equal
    first_there free done =
        generate_pair-Exists L (codes "kem_pk.bin") (codes "kem_sk.bin") s (kem_pair L W) free
          (path_in_differs s.ctx.config_dir (codes "kem_sk.bin") (codes "kem_pk.bin") (omega arith)
            (omega arith) refl)
          done

    second_there :
        s.disk.denied (path_in s.ctx.config_dir (codes "sig_pk.bin")) ≡ false
        → second.0 ≡ true
        → Exists second.1.disk (path_in first.1.ctx.config_dir (codes "sig_pk.bin"))
    unfolding equal
    second_there free done =
        generate_pair-Exists L (codes "sig_pk.bin") (codes "sig_sk.bin") first.1 (sig_pair L W)
          (rw (first_ctx, (first-Untouched (codes "sig_pk.bin") (omega arith) refl refl).2) free)
          (apart (codes "sig_sk.bin") (codes "sig_pk.bin") (omega arith) (omega arith) refl) done

    generate_keys-HasKeys :
        s.disk.denied (path_in s.ctx.config_dir (codes "kem_pk.bin")) ≡ false
        → s.disk.denied (path_in s.ctx.config_dir (codes "sig_pk.bin")) ≡ false
        → (generate_keys L W s).0 ≡ true
        → HasKeys (generate_keys L W s).1
    unfolding generate_keys HasKeys
    generate_keys-HasKeys kem_free sig_free h =
        let (kem_done, sig_done) = and-true first.0 second.0 h in
        let (kem_pk, kem_there) = first_there kem_free kem_done in
        let (sig_pk, sig_there) = second_there sig_free sig_done in
        (
          (
            kem_pk,
            seen_same second.1.disk (codes "kem_pk.bin") second_ctx
                ∙ second_kept
                ∙ seen_same first.1.disk (codes "kem_pk.bin") first_ctx
                ∙ kem_there,
          ),
          (sig_pk, seen_same second.1.disk (codes "sig_pk.bin") second_ctx ∙ sig_there),
        )

  -- Where a run of `shyake_generate_keys` returns 0, in a directory whose paths are not cut and whose
  -- public keys may be written, a second run returns 0 and changes nothing: the keys are kept.
  pub generate_keys_again :
      (W W' : World) (s : State)
      → length s.ctx.config_dir ≤ 480
      → s.disk.denied (path_in s.ctx.config_dir (codes "kem_pk.bin")) ≡ false
      → s.disk.denied (path_in s.ctx.config_dir (codes "sig_pk.bin")) ≡ false
      → (generate_keys L W s).0 ≡ true
      → generate_keys L W' (generate_keys L W s).1 ≡ (true, (generate_keys L W s).1)
  generate_keys_again W W' s short kem_free sig_free h =
      generate_keys_kept W' (generate_keys L W s).1
        (generate_keys-HasKeys W s short kem_free sig_free h)
