-- ===== src/Tests/Hosts.antt =====
-- Trusted keys and answers of an instance.
use shyake.Base.{
  ◌≤◌, ◌≡◌, ◌≢◌, ◌⊎◌, refl, false, Bytes, List, [], ◌∷◌, ◌++◌, none, some, codes, length, arith,
  All, equal,
}
use shyake.Os.{lookup, Disk}
use shyake.Context.{ok}
use shyake.KnownHosts.{print_entry, Entry, update_known_host, add_known_host, is_space}
use shyake.KnownHosts.Lines.{IsPrintable}
use shyake.KnownHosts.Refinement.{Holds, without, update_known_host-Holds, add_known_host-Holds}
use shyake.Network.{Net, answered, set_server_error}
use shyake.Network.Lookup.{
  fetch_recipient_pubkey, kem_pubkey_of, pubkey_url, fetch_recipient_pubkey_sound,
}
use shyake.Network.Reasons.{IsShown, set_server_error-IsShown}
use shyake.Tests.Toys.{toy_json, toy_ctx}

abbrev dir : Bytes
dir = codes "/c"

abbrev ann : Entry
ann = record { user = codes "ann"; fp = codes "f1"; pk = codes "k1" }

abbrev bob : Entry
bob = record { user = codes "bob"; fp = codes "f2"; pk = codes "k2" }

ann-IsPrintable : IsPrintable ann
unfolding is_space
ann-IsPrintable = record {
  user_word = record {
    nonempty = λ e. cc;
    no_space = (refl, (refl, (refl, tt)));
    fits = omega arith;
  };
  fp_word = record { nonempty = λ e. cc; no_space = (refl, (refl, tt)); fits = omega arith };
  pk_word = record { nonempty = λ e. cc; no_space = (refl, (refl, tt)); fits = omega arith };
  line_fits = omega arith;
}

bob-IsPrintable : IsPrintable bob
unfolding is_space
bob-IsPrintable = record {
  user_word = record {
    nonempty = λ e. cc;
    no_space = (refl, (refl, (refl, tt)));
    fits = omega arith;
  };
  fp_word = record { nonempty = λ e. cc; no_space = (refl, (refl, tt)); fits = omega arith };
  pk_word = record { nonempty = λ e. cc; no_space = (refl, (refl, tt)); fits = omega arith };
  line_fits = omega arith;
}

abbrev trusted : List Entry
trusted = ann ∷ []

abbrev hosts_disk : Disk
hosts_disk = record {
  files = (codes "/c/known_hosts", codes "ann f1 k1\n") ∷ [];
  denied = λ path. false;
  room = λ path. 4096;
}

hosts_disk-Holds : Holds dir hosts_disk trusted
unfolding print_entry lookup equal
hosts_disk-Holds = record { content = refl; printable = (ann-IsPrintable, tt) }

update_known_host-Holds_example :
    Holds dir
      (update_known_host dir bob.user bob.fp bob.pk hosts_disk)
      (without bob.user trusted ++ bob ∷ [])
unfolding equal print_entry
update_known_host-Holds_example =
    update_known_host-Holds dir bob hosts_disk trusted hosts_disk-Holds bob-IsPrintable
      (omega arith) refl (omega arith)

add_known_host-Holds_example :
    Holds dir (add_known_host dir bob.user bob.fp bob.pk hosts_disk) (trusted ++ bob ∷ [])
unfolding print_entry
add_known_host-Holds_example =
    add_known_host-Holds dir bob hosts_disk trusted hosts_disk-Holds bob-IsPrintable refl
      (omega arith)

abbrev toy_net : Net
toy_net = λ url. some (answered 200 (codes "KEY"))

fetch_recipient_pubkey_sound_example :
    ((pk body : Bytes) × (toy_net (pubkey_url toy_ctx (codes "bob")) ≡ some (answered 200 body))
      × (kem_pubkey_of toy_json body ≡ some pk)
      × (pk ≢ [])
      × (fetch_recipient_pubkey toy_json toy_net (codes "bob") toy_ctx ≡ (some pk, ok, toy_ctx)))
    ⊎ (((fetch_recipient_pubkey toy_json toy_net (codes "bob") toy_ctx).0 ≡ none)
        × ((fetch_recipient_pubkey toy_json toy_net (codes "bob") toy_ctx).1 ≢ ok))
fetch_recipient_pubkey_sound_example =
    fetch_recipient_pubkey_sound toy_json toy_net (codes "bob") toy_ctx

set_server_error-IsShown_example :
    All IsShown (set_server_error toy_json 500 (codes "bad\tthing") toy_ctx).last_error
    × ((set_server_error toy_json 500 (codes "bad\tthing") toy_ctx).last_error ≢ [])
    × (length (set_server_error toy_json 500 (codes "bad\tthing") toy_ctx).last_error ≤ 511)
set_server_error-IsShown_example =
    set_server_error-IsShown toy_json 500 (codes "bad\tthing") toy_ctx
