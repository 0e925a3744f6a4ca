-- ===== src/Cli/Session/Opening.antt =====
-- What a command does before its operation runs.
use mathlib.Core.Option.{some_inj}
use shyake.Base.{
  List, [], codes, Bool-cases, ◌≡◌, refl, sym, ap, ◌∙◌, ◌⊎◌, inl, inr, Bytes, Option, none, some,
  false,
}
use shyake.Os.{Disk}
use shyake.Context.{Ctx, path_in, set_passphrase}
use shyake.KeyFile.{sk_file_is_encrypted}
use shyake.Client.{State}
use shyake.Cli.Prompt.{Terminal, prompt_passphrase, read_passphrase}
use shyake.Cli.Session.{fresh_ctx, opened, prompted, if_both, with_account}
use shyake.Cli.{Shown, Setup, Host, Run, refused}

module _ (T : Terminal) (setup : Setup) (host : Host) (command : State → Option Run) (r : Run) where
  -- The command fails and leaves everything as it was, or its operation runs on the disk that is there, for the user and the instance
  -- of the config file.
  abbrev pub Opened : Type 0
  Opened =
      ((r.status ≡ false) × (r.host ≡ host))
      ⊎ ((s : State) × (s.disk ≡ host.disk)
          × (s.ctx.instance_url ≡ setup.app.instance_url)
          × (s.ctx.username ≡ setup.app.username)
          × (command s ≡ some r))

  refused-Opened : (shown : List Shown) → some (refused shown host) ≡ some r → Opened
  refused-Opened shown h = inl (
    sym (ap (λ (q : Run). q.status) (some_inj.0 h)),
    sym (ap (λ (q : Run). q.host) (some_inj.0 h)),
  )

  prompt_passphrase_keeps :
      (d : Disk) (ctx made : Ctx)
      → prompt_passphrase T setup.config_dir d ctx ≡ some made
      → (made.instance_url ≡ ctx.instance_url) × (made.username ≡ ctx.username)
  unfolding prompt_passphrase set_passphrase
  prompt_passphrase_keeps d ctx made h =
      elim (Bool-cases (sk_file_is_encrypted (path_in setup.config_dir (codes "kem_sk.bin")) d)) [
        | inl sealed ↦ go (read_passphrase T _) (rw sealed at h)
        | inr plain ↦
            let h' = rw plain at h in
            let same = sym (some_inj.0 h') in
            (ap (λ (c : Ctx). c.instance_url) same, ap (λ (c : Ctx). c.username) same)
      ]
    where
      go :
          (buf : Option Bytes)
          → (elim buf as (λ _. Option Ctx) [
            | none ↦ none
            | some b ↦ some (set_passphrase (some b) ctx)
          ])
            ≡ some made
          → (made.instance_url ≡ ctx.instance_url) × (made.username ≡ ctx.username)
      go none h = cc
      go (some b) h =
          let same = sym (some_inj.0 h) in
          (ap (λ (c : Ctx). c.instance_url) same, ap (λ (c : Ctx). c.username) same)

  prompted-Opened :
      (inst user : Bytes)
      → setup.app.instance_url ≡ some inst
      → setup.app.username ≡ some user
      → prompted T setup host inst user command ≡ some r
      → Opened
  unfolding prompted
  prompted-Opened inst user is_inst is_user h =
      go (prompt_passphrase T setup.config_dir host.disk (fresh_ctx setup inst user)) refl h
    where
      go :
          (c : Option Ctx)
          → prompt_passphrase T setup.config_dir host.disk (fresh_ctx setup inst user) ≡ c
          → (elim c as (λ _. Option Run) [
            | none ↦ some (refused [] host)
            | some ctx ↦ command (opened ctx host)
          ])
            ≡ some r
          → Opened
      go none e h = refused-Opened _ h
      go (some ctx) e h =
          let (inst_kept, user_kept) =
            prompt_passphrase_keeps host.disk (fresh_ctx setup inst user) ctx e in
          inr (opened ctx host, refl, inst_kept ∙ sym is_inst, user_kept ∙ sym is_user, h)

  pub with_account-Opened : with_account T setup host command ≡ some r → Opened
  unfolding with_account if_both
  with_account-Opened h = go setup.app.instance_url setup.app.username refl refl h
    where
      go :
          (inst user : Option Bytes)
          → setup.app.instance_url ≡ inst
          → setup.app.username ≡ user
          → if_both T setup host inst user (λ i u. prompted T setup host i u command) ≡ some r
          → Opened
      go (some inst) (some user) e e' h = prompted-Opened inst user e e' h
      go none user e e' h = refused-Opened _ h
      go (some inst) none e e' h = refused-Opened _ h
