-- ===== src/Update.antt =====
-- client/src/cli/update.c: `cli_self_update` and what it calls. The network, SHA-256, the path of the
-- running binary and the shell are arguments; memory is always there.
pub mod Version
pub mod Verified
use shyake.Base.{
  ℕ, zero, suc, ◌+◌, ◌-◌, ◌/◌, ◌%◌, Bool, true, false, not, ◌&&◌, Bytes, List, [], ◌∷◌, ◌++◌,
  Option, none, some, ◌>>=◌, ◌>>◌, require, map, codes, snprintf, length, take, drop, get_or, equal,
  is_empty, ltb, leb, ◌==◌, if◌then◌else◌,
}
use shyake.Base.Hex.{hex}
use shyake.Os.{Disk, read, write, delete}
use shyake.Network.{Json, Reply, unreachable, answered, Net}
use shyake.Update.Version.{at_most}

-- `cli_version_info`
pub record VersionInfo : Type 0 where
  pub release : Option Bytes
  pub pre_release : Option Bytes
  pub release_digest : Option Bytes
  pub pre_release_digest : Option Bytes

pub data Channel : Type 0 where
  stable preview : Channel

-- What the updater calls.
pub record System : Type 0 where
  pub net : Net
  pub sha256 : Bytes → Bytes
  pub self_path : Bytes
  pub artifact : Bytes
  pub shell : Bytes → Disk → Bool × Disk

-- The return value (0 is `true`), what was printed, the commands given to the shell, the files.
pub record Ran : Type 0 where
  pub done : Bool
  pub said : Bytes
  pub commands : List Bytes
  pub disk : Disk

-- `strncmp(v, "sha256:", 7) == 0`
unfoldable pub bare_digest : Bytes → Bytes
bare_digest v = if equal (take 7 v) (codes "sha256:") then drop 7 v else v

-- `asset`
abbrev pub asset_of : Bytes → Bytes
asset_of artifact = snprintf 64 (artifact ++ codes ".tar.gz")

module _ (J : Json) where
  unfoldable pub extract_digest : J.Value → Bytes → Bytes → Option Bytes
  extract_digest json key asset = do
    digests ← J.item json key
    d ← J.item digests asset
    v ← J.string d
    some (bare_digest v)

  unfoldable pub version_info : Bytes → J.Value → VersionInfo
  version_info artifact json = record {
    release = J.item json (codes "release") >>= J.string;
    pre_release = J.item json (codes "pre_release") >>= J.string;
    release_digest = extract_digest json (codes "release_digests") (asset_of artifact);
    pre_release_digest = extract_digest json (codes "pre_release_digests") (asset_of artifact);
  }

  version_reply : Bytes → Option Reply → Option VersionInfo
  version_reply artifact none = none
  version_reply artifact (some (unreachable problem)) = none
  version_reply artifact (some (answered code body)) = do
    require (code == 200)
    json ← J.parse body
    some (version_info artifact json)

  unfoldable pub get_latest_version : System → Option Bytes → Option VersionInfo
  unfolding version_reply
  get_latest_version S version_url = do url ← version_url; version_reply S.artifact (S.net url)

download_reply : Bytes → Disk → Option Reply → Option Bytes × Disk
download_reply tmp_path d none = (none, d)
download_reply tmp_path d (some (unreachable problem)) =
    if d.denied tmp_path then (none, d) else (none, delete tmp_path d)
download_reply tmp_path d (some (answered code body)) =
    let d' = write d tmp_path body in
    if d.denied tmp_path
    then (none, d)
    else if leb (length body) (d.room tmp_path) && code == 200
    then (some tmp_path, d')
    else (none, delete tmp_path d')

-- `download_to_tmp`: a body that the device has no room for is an error of the transfer.
unfoldable pub download_to_tmp : System → Bytes → Bytes → Disk → Option Bytes × Disk
unfolding download_reply
download_to_tmp S url filename d =
    download_reply (snprintf 256 (codes "/tmp/" ++ filename)) d (S.net url)

abbrev pub to_lower : ℕ → ℕ
to_lower c = if leb b'A' c && leb c b'Z' then c + 32 else c

-- `verify_sha256`: 0 is `true`. `strcasecmp` compares in lower case.
unfoldable pub verify_sha256 : System → Bytes → Bytes → Disk → Bool
verify_sha256 S file_path expected_hex d = elim (read d file_path) [
  | none ↦ false
  | some content ↦
      length expected_hex == 64
      && equal (map to_lower expected_hex) (map to_lower (hex (take 32 (S.sha256 content))))
]

-- `extract_cmd`, before it is cut.
unfoldable pub extract_cmd : Bytes → Bytes → Bytes → Bytes
extract_cmd tar_path artifact self_path =
    codes "tar xzf '"
    ++ (tar_path
        ++ (codes "' -C /tmp && cp '/tmp/"
            ++ (artifact
                ++ (codes "/shyake' '"
                    ++ (self_path
                        ++ (codes "' && chmod 755 '"
                            ++ (self_path
                                ++ (codes "' && rm -rf '/tmp/" ++ (artifact ++ codes "'")))))))))

abbrev pub failed : Bytes → Disk → Ran
failed text d = record {
  done = false;
  said = codes "Update failed. " ++ text;
  commands = [];
  disk = d;
}

module _ (S : System) (target : Bytes) where
  -- `dl_url`
  unfoldable pub download_url : Bytes
  download_url = snprintf 512 (
      codes "https://github.com/salmonization/shyake/releases/download/"
      ++ (target ++ (b'/' ∷ asset_of S.artifact)))

  -- From `system` on; the archive is removed whatever the shell says.
  install : Bytes → Disk → Ran
  install tar_path d =
      let cmd = extract_cmd tar_path S.artifact S.self_path in
      let (good, d') = S.shell cmd d in
      record {
        done = good;
        said =
            if good
            then codes "Updated to " ++ (snprintf 64 target ++ codes ".")
            else codes "Update failed. Cannot install the new binary.";
        commands = cmd ∷ [];
        disk = delete tar_path d';
      }

  -- From `verify_sha256` on.
  downloaded : Bytes → Option Bytes × Disk → Ran
  downloaded digest (none, d) = failed (codes "Cannot download the release.") d
  downloaded digest (some tar_path, d) =
      if not (verify_sha256 S tar_path digest d)
      then failed (codes "The download does not match its checksum.") (delete tar_path d)
      else if is_empty S.self_path
      then failed (codes "Cannot find the shyake binary.") (delete tar_path d)
      else if leb 1024 (length (extract_cmd tar_path S.artifact S.self_path))
      then failed (codes "The install path is too long. Reinstall manually.") (delete tar_path d)
      else install tar_path d

  fetched : Option Bytes → Disk → Ran
  fetched none d = failed (codes "The release has no checksum for this platform.") d
  fetched (some digest) d =
      downloaded digest (download_to_tmp S download_url (asset_of S.artifact) d)

abbrev pub channel_name : Channel → Bytes
channel_name stable = codes "stable"
channel_name preview = codes "preview"

-- `current_version && strcmp(current_version, target) == 0`
abbrev pub is_current : Option Bytes → Bytes → Bool
is_current none target = false
is_current (some version) target = equal version target

module _ (J : Json) (S : System) where
  on_target : Channel → Option Bytes → Bytes → Option Bytes → Disk → Ran
  on_target channel current_version target digest d =
      if is_current current_version target
      then record {
        done = true;
        said = codes "Already on the latest " ++ (channel_name channel ++ codes " release.");
        commands = [];
        disk = d;
      }
      else fetched S target digest d

  on_preview : Option Bytes → VersionInfo → Bytes → Option Bytes → Disk → Ran
  on_preview current_version info release none d =
      failed (codes "Release not found on the preview channel.") d
  on_preview current_version info release (some pre_release) d =
      if at_most pre_release release
      then failed (codes "No preview release is newer than stable.") d
      else on_target preview current_version pre_release info.pre_release_digest d

  on_channel : Channel → Option Bytes → VersionInfo → Option Bytes → Disk → Ran
  on_channel channel current_version info none d = failed (codes "Stable release not found.") d
  on_channel stable current_version info (some release) d =
      on_target stable current_version release info.release_digest d
  on_channel preview current_version info (some release) d =
      on_preview current_version info release info.pre_release d

  on_info : Channel → Option Bytes → Option VersionInfo → Disk → Ran
  on_info channel current_version none d = failed (codes "Cannot get the latest version.") d
  on_info channel current_version (some info) d =
      on_channel channel current_version info info.release d

  -- `cli_self_update`
  unfoldable pub self_update : Option Bytes → Option Bytes → Channel → Disk → Ran
  unfolding install downloaded fetched on_target on_preview on_channel on_info
  self_update version_url current_version channel d =
      on_info channel current_version (get_latest_version J S version_url) d
