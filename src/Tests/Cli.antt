-- ===== src/Tests/Cli.antt =====
-- The command line's helpers on small inputs.
use shyake.Base.{
  List, equal, ◌-◌, ◌*◌, ◌^◌, ◌≤◌, ◌<◌, ◌≡◌, ◌↔◌, ◌⊎◌, refl, true, false, Bytes, [], ◌∷◌, ◌++◌,
  none, some, codes, length, replicate, arith, AreBytes,
}
use shyake.Os.{lookup, Disk, read}
use shyake.Context.{path_in}
use shyake.Network.{answered}
use shyake.Pow.{stamp, rand_str, is_match, mint_pow}
use shyake.Pow.Bits.{value, is_match_iff}
use shyake.Pow.Search.{IsFirst, mint_pow-IsFirst}
use shyake.Update.{VersionInfo, System, stable, self_update, get_latest_version}
use shyake.Update.Verified.{Chosen, Verified, self_update-Verified}
use shyake.Display.Wrap.{print_word_wrap, print_word_wrap_ends}
use shyake.Display.Truncate.{utf8_truncate, utf8_truncate_fits}
use shyake.Compose.{subject_problem, reply_subject}
use shyake.Compose.Subject.{reply_subject_sendable}
use shyake.Config.{
  split_at, trim_left, trim_right, key_of, read_lines, parse_setting, config_lines, has_instance,
  update_config_user_and_instance,
}
use shyake.Config.Setting.{quoted, parse_setting-quoted, update_config_forgets}
use shyake.Tests.Toys.{toy_json, empty_disk}

abbrev toy_sha1 : Bytes → Bytes
toy_sha1 = λ text. 0 ∷ 15 ∷ replicate 18 1

mint_pow-IsFirst_example :
    IsFirst toy_sha1 12
      (stamp 12 (codes "260101") (codes "ann") (rand_str (replicate 12 5)))
      (2 ^ 32 - 1)
      0
      (mint_pow toy_sha1 (codes "260101") (replicate 12 5) (codes "ann") 12)
mint_pow-IsFirst_example =
    mint_pow-IsFirst toy_sha1 (codes "260101") (replicate 12 5) (codes "ann") 12

abbrev small_hash : Bytes
small_hash = 0 ∷ 15 ∷ replicate 18 1

small_hash-AreBytes : AreBytes small_hash
small_hash-AreBytes = omega arith

is_match_iff_example : (is_match 12 small_hash ≡ true) ↔ (value small_hash * 2 ^ 12 < 2 ^ 160)
is_match_iff_example = is_match_iff 12 small_hash (omega arith) refl small_hash-AreBytes

abbrev toy_system : System
toy_system = record {
  net = λ url. some (answered 200 (replicate 64 b'0'));
  sha256 = λ content. replicate 32 0;
  self_path = codes "/usr/bin/shyake";
  artifact = codes "shyake-linux-x86_64";
  shell = λ cmd d. (true, d);
}

self_update-Verified_example :
    let r =
      self_update toy_json toy_system (some (codes "https://i.example/v")) none stable empty_disk in
    (r.commands ≡ [])
    ⊎ ((info : VersionInfo) × (target : Bytes) × (digest : Bytes) × (get_latest_version toy_json
            toy_system
            (some (codes "https://i.example/v"))
          ≡ some info)
        × Chosen toy_json toy_system stable info target digest
        × Verified toy_system target digest empty_disk r.commands)
self_update-Verified_example =
    self_update-Verified toy_json toy_system (some (codes "https://i.example/v")) none stable
      empty_disk

utf8_truncate_fits_example :
    (length (utf8_truncate (codes "a long subject") 10 12).0 < 10)
    × ((utf8_truncate (codes "a long subject") 10 12).1 ≤ 12)
utf8_truncate_fits_example = utf8_truncate_fits (codes "a long subject") 10 12 (omega arith)

reply_subject_sendable_example : subject_problem (some (reply_subject (replicate 140 b'x'))) ≡ none
reply_subject_sendable_example = reply_subject_sendable (replicate 140 b'x')

parse_setting-quoted_example :
    parse_setting ((codes "EDITOR" ++ (b'=' ∷ quoted (codes "vim -n # "))) ++ b'\n' ∷ [])
    ≡ some (codes "EDITOR", codes "vim -n # ")
parse_setting-quoted_example = parse_setting-quoted (codes "EDITOR") (codes "vim -n # ") (
  (λ e. omega arith),
  (
    (refl, λ e. omega arith),
    (
      (refl, λ e. omega arith),
      (
        (refl, λ e. omega arith),
        ((refl, λ e. omega arith), ((refl, λ e. omega arith), ((refl, λ e. omega arith), tt))),
      ),
    ),
  ),
)

abbrev bare_disk : Disk
bare_disk = record {
  files = (codes "/c/config", codes "NO_COLOR=1\n") ∷ [];
  denied = λ path. false;
  room = λ path. 4096;
}

no_instance :
    has_instance (config_lines (read bare_disk (path_in (codes "/c") (codes "config")))) ≡ false
unfolding has_instance lookup equal read_lines key_of trim_right trim_left split_at
no_instance = refl

update_config_forgets_example :
    update_config_user_and_instance (codes "/c") (codes "ann") (codes "https://i.example") bare_disk
    ≡ update_config_user_and_instance
        (codes "/c")
        (codes "bob")
        (codes "https://i.example")
        bare_disk
update_config_forgets_example =
    update_config_forgets (codes "/c") (codes "ann") (codes "bob") (codes "https://i.example")
      bare_disk no_instance

print_word_wrap_ends_example :
    (lines : List Bytes) × (print_word_wrap (codes "a subject of more than twenty bytes") 7 20
      ≡ some lines)
print_word_wrap_ends_example =
    print_word_wrap_ends (codes "a subject of more than twenty bytes") 7 20
