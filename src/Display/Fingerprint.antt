-- ===== src/Display/Fingerprint.antt =====
-- client/src/cli/display.c: fingerprints in hexadecimal and as pictures.
use shyake.Base.{
  ℕ, zero, suc, ◌+◌, ◌/◌, ◌%◌, ◌*◌, Bool, ◌||◌, Bytes, [], ◌∷◌, ◌++◌, List, codes, get_or, ◌==◌,
  if◌then◌else◌,
}
use shyake.Base.Integer.{ℤ, pos}
use shyake.Update.Version.{◌==ℤ◌}
use shyake.KnownHosts.Fingerprint.{FpResult}
use shyake.Display.Randomart.{randomart}

-- `%02X`
abbrev pub upper_hex : ℕ → Bytes
upper_hex b =
    get_or (codes "0123456789ABCDEF") (b / 16) 0 ∷ get_or (codes "0123456789ABCDEF") (b % 16) 0 ∷ []

-- What is printed behind the `i`-th pair.
unfoldable pub hex_separator : ℕ → Bytes
hex_separator i =
    if i == 7 || i == 15 then codes "\n" else if i == 3 || i == 11 then codes "  " else codes " "

-- The loop of `cli_print_fingerprint_hex`, with the rounds that are left.
unfoldable pub hex_pairs : Bytes → ℕ → ℕ → Bytes
unfolding hex_separator
hex_pairs fp i zero = []
hex_pairs fp i (suc left) =
    upper_hex (get_or fp (i * 2) 0)
    ++ (upper_hex (get_or fp (i * 2 + 1) 0) ++ (hex_separator i ++ hex_pairs fp (i + 1) left))

-- `cli_print_fingerprint_hex`
unfoldable pub fingerprint_hex : Bytes → Bytes
unfolding hex_pairs
fingerprint_hex fp = hex_pairs fp 0 16

unfoldable pub unlines : List Bytes → Bytes
unlines [] = []
unlines (line ∷ lines) = line ++ (b'\n' ∷ unlines lines)

-- `cli_print_fingerprint_hex` and `cli_print_randomart`
unfoldable pub both_prints : Bytes → Bytes
unfolding unlines
both_prints fp = fingerprint_hex fp ++ unlines (randomart fp)

-- `if (r->match)`
unfoldable pub match_status : ℤ → Bytes
match_status match =
    if match ==ℤ pos 0
    then codes
        "\nStatus: MISMATCH (WARNING: Key has changed)\n\nPlease verify the new fingerprint in a secondary, trusted out-of-band channel\nbefore running the update command ('shyake fingerprint <username> --update').\n"
    else codes "\nStatus: MATCH\n"

-- `cli_render_fingerprint`, whose label is not used.
unfoldable pub render_fingerprint : FpResult → Bool → Bytes
unfolding both_prints match_status
render_fingerprint r is_self =
    if is_self
    then both_prints r.remote_fp
    else if r.has_local
    then codes "\n[Local known_hosts]\n"
      ++ (both_prints r.local_fp
          ++ (codes "\n[Remote server]\n" ++ (both_prints r.remote_fp ++ match_status r.matches)))
    else codes "\n[Remote server]\n"
      ++ (both_prints r.remote_fp ++ codes "\nStatus: NEW HOST (No local key found)\n")
