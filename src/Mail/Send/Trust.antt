-- ===== src/Mail/Send/Trust.antt =====
-- Trust on first use in `send_mail` of client/src/lib/mail.c.
use shyake.Base.{
  ◌≤◌, ◌≡◌, refl, ap, sym, ◌∙◌, false, Bytes, [], ◌∷◌, ◌++◌, List, Option, none, some, Bool-cases,
  inl, inr, length, equal, equal_iff, if◌then◌else◌,
}
use shyake.Base.Hex.{hex}
use mathlib.Core.Option.{some_inj}
use shyake.Os.{Disk}
use shyake.Crypto.Base64.{base64_decode}
use shyake.KnownHosts.{Entry, get_known_host, add_known_host, hosts_path}
use shyake.KnownHosts.Lines.{IsPrintable, render}
use shyake.KnownHosts.Fingerprint.Given.{print_of, entry_of, Gives}
use shyake.KnownHosts.Refinement.{Holds, get-add_known_host}
use shyake.Network.Lookup.{fetch_recipient_pubkey}
use shyake.Client.{Libs, World, Request, State, Outcome, without_error, net_of}
use shyake.Mail.Send.{check_known_host, send_mail}
use shyake.Mail.Send.Posted.{Posted, Sends, send_mail-Posted}

pair_eq : {a b c d : Bytes} → a ≡ c → b ≡ d → ◌≡◌ {A = Bytes × Bytes} (a, b) (c, d)
pair_eq p q = cc

module _ (L : Libs) where
  -- Every trusted key of the recipient that can be decoded has the fingerprint of `pk`.
  abbrev pub Agrees : Bytes → Bytes → Bytes → Disk → Type 0
  Agrees dir recipient pk d =
      (known_b64 known : Bytes)
      → get_known_host dir recipient d ≡ some known_b64
      → base64_decode L.blocks known_b64 ≡ some known
      → print_of L known ≡ print_of L pk

  module _ (W : World) (recipient : Bytes) where
    check_known_host-Agrees :
        (dir pk_b64 pk : Bytes) (d d' : Disk)
        → check_known_host L W recipient dir pk_b64 pk d ≡ some d'
        → Agrees dir recipient pk d
    unfolding check_known_host
    check_known_host-Agrees dir pk_b64 pk d d' h known_b64 known trusted decoded =
        go (rw (trusted, check_known_host, decoded) at h)
      where
        go :
            (if equal (print_of L known) (print_of L pk) then some d else none) ≡ some d'
            → print_of L known ≡ print_of L pk
        go h' = elim (Bool-cases (equal (print_of L known) (print_of L pk))) [
          | inl same ↦ (equal_iff (print_of L known) (print_of L pk)).0 same
          | inr other ↦ let h'' = rw other at h' in cc
        ]

    check_known_host_first :
        (dir pk_b64 pk : Bytes) (d d' : Disk)
        → get_known_host dir recipient d ≡ none
        → check_known_host L W recipient dir pk_b64 pk d ≡ some d'
        → d' ≡ add_known_host dir recipient (hex (print_of L pk)) pk_b64 d
    unfolding check_known_host
    check_known_host_first dir pk_b64 pk d d' unknown h =
        sym (some_inj.0 (rw (unknown, check_known_host) at h))

    module _ (reply_ref subject : Option Bytes) (body : Bytes) where
      -- A mail is sent only under the key that the instance gives for the recipient, and only where
      -- no key of the recipient is trusted yet or the trusted one has the same fingerprint; a trusted
      -- key that is no base64 does not count. The symmetric key was wrapped for that key.
      pub send_mail_trusts :
          (s : State) (o : Outcome) (r : Request)
          → send_mail L W recipient reply_ref subject body s ≡ some o
          → o.sent ≡ some r
          → (pk_b64 : Bytes) × (pk : Bytes) × (my_kpk : Bytes) × (d : Disk)
            × ((fetch_recipient_pubkey L.json (net_of W) recipient (without_error s).ctx).0
                ≡ some pk_b64)
            × (base64_decode L.blocks pk_b64 ≡ some pk)
            × Agrees s.ctx.config_dir recipient pk s.disk
            × Sends L W recipient reply_ref subject body pk my_kpk d o r
      send_mail_trusts s o r h sent =
          let p = send_mail-Posted L W recipient reply_ref subject body s o r h sent in
          (
            p.pk_b64,
            p.pk,
            p.my_kpk,
            p.d,
            p.fetched,
            p.decoded,
            check_known_host-Agrees s.ctx.config_dir p.pk_b64 p.pk s.disk p.d p.checked,
            p.sends,
          )

  Posted-Gives :
      (W : World) (recipient body : Bytes) (reply_ref subject : Option Bytes) (s : State)
      (o : Outcome) (r : Request) (pk_b64 pk : Bytes)
      → (p : Posted L W recipient reply_ref subject body (without_error s) o r)
      → Gives L W recipient s pk_b64 pk
      → (p.pk_b64 ≡ pk_b64) × (p.pk ≡ pk)
  Posted-Gives W recipient body reply_ref subject s o r pk_b64 pk p (fetched, decoded) =
      let same : p.pk_b64 ≡ pk_b64 = some_inj.0 (sym p.fetched ∙ fetched) in
      (same, some_inj.0 (sym p.decoded ∙ ap (base64_decode L.blocks) same ∙ decoded))

  -- Once a mail was sent to a recipient of whom no key was trusted, and known_hosts held the new line
  -- whole, the next mail to them is sent only under a key of the same fingerprint, whatever key the
  -- instance gives by then.
  pub send_mail_pins :
      (W W' : World) (recipient body body' : Bytes)
      (reply_ref subject reply_ref' subject' : Option Bytes) (s s' : State) (o o' : Outcome)
      (r r' : Request) (pk_b64 pk pk_b64' pk' : Bytes) (es : List Entry)
      → Gives L W recipient s pk_b64 pk
      → Gives L W' recipient s' pk_b64' pk'
      → send_mail L W recipient reply_ref subject body s ≡ some o
      → o.sent ≡ some r
      → get_known_host s.ctx.config_dir recipient s.disk ≡ none
      → Holds s.ctx.config_dir s.disk es
      → IsPrintable (entry_of L recipient pk pk_b64)
      → s.disk.denied (hosts_path s.ctx.config_dir) ≡ false
      → length (render (es ++ entry_of L recipient pk pk_b64 ∷ []))
        ≤ s.disk.room (hosts_path s.ctx.config_dir)
      → s'.disk ≡ o.state.disk
      → s'.ctx.config_dir ≡ s.ctx.config_dir
      → send_mail L W' recipient reply_ref' subject' body' s' ≡ some o'
      → o'.sent ≡ some r'
      → print_of L pk' ≡ print_of L pk
  send_mail_pins W W' recipient body body' reply_ref subject reply_ref' subject' s s' o o' r r'
        pk_b64 pk pk_b64' pk' es given given' h sent unknown holds printable free room same_disk
        same_dir h' sent' =
      let first = send_mail-Posted L W recipient reply_ref subject body s o r h sent in
      let next = send_mail-Posted L W' recipient reply_ref' subject' body' s' o' r' h' sent' in
      let (same_b64, same_pk) =
        Posted-Gives W recipient body reply_ref subject s o r pk_b64 pk first given in
      let (_, same_pk') =
        Posted-Gives W' recipient body' reply_ref' subject' s' o' r' pk_b64' pk' next given' in
      let added : first.d
          ≡ add_known_host s.ctx.config_dir recipient (hex (print_of L pk)) pk_b64 s.disk =
        check_known_host_first W recipient s.ctx.config_dir first.pk_b64 first.pk s.disk first.d
          unknown first.checked
        ∙ ap
            (λ (k : Bytes × Bytes).
              add_known_host s.ctx.config_dir recipient (hex (print_of L k.0)) k.1 s.disk)
            (pair_eq same_pk same_b64) in
      let known : get_known_host s.ctx.config_dir recipient first.d ≡ some pk_b64 =
        rw
          (
            added,
            get-add_known_host s.ctx.config_dir (entry_of L recipient pk pk_b64) s.disk es recipient
                holds printable free room,
            unknown,
            (equal_iff recipient recipient).1 refl,
          )
          refl in
      let same : s'.disk ≡ first.d = same_disk ∙ first.sends.files in
      ap (print_of L) (sym same_pk')
      ∙ sym (
          check_known_host-Agrees W' recipient s.ctx.config_dir next.pk_b64 next.pk first.d next.d
            (rw (same, same_dir) at next.checked) pk_b64 pk known given.1)
