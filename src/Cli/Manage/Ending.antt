-- ===== src/Cli/Manage/Ending.antt =====
-- When the command `destroy` removes the local files.
use mathlib.Core.Option.{some_inj}
use mathlib.Core.Path.{subst}
use shyake.Base.{
  ℕ, ◌≡◌, refl, ap, ◌∙◌, inl, inr, Bool-cases, Bytes, take, equal, equal_iff, ◌==◌, Option, none,
  some, >>=-eq-some, true, false,
}
use shyake.Os.{Disk}
use shyake.Context.{
  Err, ok, err, err_network, err_http, err_key_mismatch, err_gone, err_not_found, err_forbidden,
  err_crypto, err_no_instance, err_blocked,
}
use shyake.Network.{answered}
use shyake.Client.{Libs, World, State, Outcome, Request}
use shyake.Config.{trim_whitespace}
use shyake.Account.{destroy}
use shyake.Account.Ending.{EndsAccount, Destroys, destroy-Destroys}
use shyake.Cli.Prompt.{Terminal}
use shyake.Cli.Session.Opening.{with_account-Opened}
use shyake.Cli.Manage.{
  remove_command, destroyed, destroy_warning, destroy_confirmed, destroy_command,
}
use shyake.Cli.{Setup, Host, Run, then_shown, is_ok}

module _ (L : Libs) (T : Terminal) (W : ℕ → World) (setup : Setup) (shell : Bytes → Disk → Disk)
    (host : Host) where
  -- How `destroy` ends: with a failure and every file as it was, or with the files that the shell left, once
  -- the user typed the user name and their instance answered with 200 the signed request to end the account that
  -- the run of `shyake_destroy` sent.
  pub data DestroyExit (line : Option Bytes) (r : Run) : Type 0 where
    kept : r.status ≡ false → r.host.disk ≡ host.disk → DestroyExit line r
    gone :
        (typed user : Bytes) (s : State) (request : Request) (body : Bytes) (status : ℕ)
        → line ≡ some typed
        → setup.app.username ≡ some user
        → trim_whitespace (take 255 typed) ≡ user
        → s.disk ≡ host.disk
        → s.ctx.instance_url ≡ setup.app.instance_url
        → s.ctx.username ≡ some user
        → (destroy L (W 0) s).sent ≡ some request
        → EndsAccount L (W 0) s request
        → (W 0).perform request ≡ answered status body
        → (status == 200) ≡ true
        → r.status ≡ true
        → r.host.disk ≡ shell (remove_command L T W setup) host.disk
        → DestroyExit line r

  destroyed_done :
      (o : Outcome)
      → is_ok o.code ≡ true
      → ((destroyed L T W setup shell o).status ≡ true)
        × ((destroyed L T W setup shell o).host.disk
            ≡ shell (remove_command L T W setup) o.state.disk)
  unfolding destroyed
  destroyed_done o h = rw h (refl, refl)

  destroyed_failed :
      (o : Outcome)
      → is_ok o.code ≡ false
      → ((destroyed L T W setup shell o).status ≡ false)
        × ((destroyed L T W setup shell o).host.disk ≡ o.state.disk)
  unfolding destroyed
  destroyed_failed o h = rw h (refl, refl)

  code_ok : (e : Err) → is_ok e ≡ true → e ≡ ok
  code_ok ok h = refl
  code_ok err h = cc h
  code_ok err_network h = cc h
  code_ok err_http h = cc h
  code_ok err_key_mismatch h = cc h
  code_ok err_gone h = cc h
  code_ok err_not_found h = cc h
  code_ok err_forbidden h = cc h
  code_ok err_crypto h = cc h
  code_ok err_no_instance h = cc h
  code_ok err_blocked h = cc h

  module _ (line : Option Bytes) where
    destroyed-DestroyExit :
        (typed user : Bytes) (s : State)
        → line ≡ some typed
        → setup.app.username ≡ some user
        → trim_whitespace (take 255 typed) ≡ user
        → s.disk ≡ host.disk
        → s.ctx.instance_url ≡ setup.app.instance_url
        → s.ctx.username ≡ some user
        → Destroys L (W 0) s (destroy L (W 0) s)
        → DestroyExit line (destroyed L T W setup shell (destroy L (W 0) s))
    destroyed-DestroyExit typed user s given named same_name same inst own (kept_disk, how) =
        let o = destroy L (W 0) s in
        elim (Bool-cases (is_ok o.code)) [
          | inl done ↦ elim how [
            | inl failed ↦ absurd (failed (code_ok o.code done))
            | inr (request, body, status, sent, ends, answer, good) ↦
                let (run_ok, disk) = destroyed_done o done in
                gone typed user s request body status given named same_name same inst own sent ends
                  answer good run_ok
                  (disk ∙ ap (shell (remove_command L T W setup)) (kept_disk ∙ same))
          ]
          | inr failed ↦
              let (run_failed, disk) = destroyed_failed o failed in
              kept run_failed (disk ∙ kept_disk ∙ same)
        ]

    warned :
        (q : Run)
        → DestroyExit line q
        → DestroyExit line (then_shown (destroy_warning L T W setup) q)
    warned q (kept failed same) = kept failed same
    warned q
          (gone typed user s request body status given named same_name same inst own sent ends
            answer good done disk) =
        gone typed user s request body status given named same_name same inst own sent ends answer
          good done disk

    confirmed-DestroyExit :
        (username : Option Bytes) (typed : Bytes) (r : Run)
        → line ≡ some typed
        → setup.app.username ≡ username
        → destroy_confirmed L T W setup shell host username (take 255 typed) ≡ some r
        → DestroyExit line r
    unfolding destroy_confirmed
    confirmed-DestroyExit none typed r given named h = cc h
    confirmed-DestroyExit (some user) typed r given named h =
        elim (Bool-cases (equal (trim_whitespace (take 255 typed)) user)) [
          | inl matches ↦
              let h' = rw matches at h in
              elim (with_account-Opened T setup host _ r h') [
                | inl (failed, same) ↦ kept failed (ap (λ (x : Host). x.disk) same)
                | inr (s, same, inst, own, made) ↦ subst (DestroyExit line) (some_inj.0 made) (
                    destroyed-DestroyExit typed user s given named
                      ((equal_iff (trim_whitespace (take 255 typed)) user).0 matches) same inst
                      (own ∙ named) (destroy-Destroys L (W 0) s))
              ]
          | inr differs ↦
              let h' = rw differs at h in subst (DestroyExit line) (some_inj.0 h') (kept refl refl)
        ]

    -- A run of `destroy` that does not crash ends in one of two ways: it fails, and every file is as it was;
    -- or it succeeds, after the user typed the user name and their instance answered with 200 the signed request
    -- `DELETE /api/destroy` that was sent, and what is left of the files is what the shell leaves after the command that removes them.
    pub destroy_command-DestroyExit :
        (r : Run) → destroy_command L T W setup shell line host ≡ some r → DestroyExit line r
    unfolding destroy_command
    destroy_command-DestroyExit r h = go line refl h
      where
        go :
            (l : Option Bytes)
            → line ≡ l
            → destroy_command L T W setup shell l host ≡ some r
            → DestroyExit line r
        go none e h = subst (DestroyExit line) (some_inj.0 h) (kept refl refl)
        go (some typed) e h =
            let (q, confirmed, made) =
              >>=-eq-some
                (destroy_confirmed L T W setup shell host setup.app.username (take 255 typed)) _
                h in
            subst (DestroyExit line) (some_inj.0 made)
              (warned q (confirmed-DestroyExit setup.app.username typed q e refl confirmed))
