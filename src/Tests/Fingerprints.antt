-- ===== src/Tests/Fingerprints.antt =====
-- The comparison of fingerprints at a concrete input.
use shyake.Base.{equal, ◌≡◌, refl, true, false, [], some, replicate, arith}
use shyake.Base.Integer.{pos}
use shyake.Base.Hex.{hex}
use shyake.Client.{State}
use shyake.KnownHosts.{print_entry}
use shyake.KnownHosts.Fingerprint.{fingerprint}
use shyake.KnownHosts.Fingerprint.Updating.{fingerprint_updated}
use shyake.Tests.Toys.{toy_pk}
use shyake.Tests.Client.{toy_libs, toy_world, toy_state, key_b64}
use shyake.Tests.Mails.{bob, gives, no_hosts, bob-IsPrintable}

abbrev updated_state : State
updated_state = record toy_state {
  disk = (fingerprint toy_libs toy_world (some bob) true toy_state).1.disk;
}

fingerprint_updated_example :
    (fingerprint toy_libs toy_world (some bob) false updated_state).0
    ≡ some (record {
      local_fp = replicate 32 171;
      remote_fp = replicate 32 171;
      has_local = true;
      matches = pos 1;
    })
unfolding print_entry hex equal
fingerprint_updated_example =
    fingerprint_updated toy_libs toy_world toy_world bob key_b64 toy_pk key_b64 toy_pk toy_state
      updated_state [] gives gives (omega arith) (omega arith) no_hosts bob-IsPrintable
      (omega arith) refl (omega arith) refl refl
