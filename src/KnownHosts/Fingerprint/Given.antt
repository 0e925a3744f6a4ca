-- ===== src/KnownHosts/Fingerprint/Given.antt =====
-- The key that an instance gives for a user, its fingerprint, and the line of `known_hosts` that trusts it.
use shyake.Base.{◌≡◌, Bytes, some, take}
use shyake.Base.Hex.{hex}
use shyake.Crypto.Base64.{base64_decode}
use shyake.Network.Lookup.{fetch_recipient_pubkey}
use shyake.Client.{Libs, World, State, without_error, net_of}
use shyake.KnownHosts.{Entry}

module _ (L : Libs) where
  -- The fingerprint of a key.
  abbrev pub print_of : Bytes → Bytes
  print_of pk = take 32 (L.sha256 pk)

  -- The line that trusts `pk`.
  abbrev pub entry_of : Bytes → Bytes → Bytes → Entry
  entry_of user pk pk_b64 = record { user = user; fp = hex (print_of pk); pk = pk_b64 }

  -- The key that the instance gives for a user.
  abbrev pub Gives : World → Bytes → State → Bytes → Bytes → Type 0
  Gives W user s pk_b64 pk =
      ((fetch_recipient_pubkey L.json (net_of W) user (without_error s).ctx).0 ≡ some pk_b64)
      × (base64_decode L.blocks pk_b64 ≡ some pk)
