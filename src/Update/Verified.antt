-- ===== src/Update/Verified.antt =====
-- What has to hold before `cli_self_update` gives a command to the shell.
use shyake.Base.{
  ◌<◌, ◌≡◌, refl, ◌⊎◌, inl, inr, true, false, Bytes, List, [], ◌∷◌, Option, none, some, length,
  is_empty, leb, Bool-cases, arith,
}
use shyake.Os.{Disk}
use shyake.Network.{Json}
use shyake.Update.{
  VersionInfo, Channel, stable, preview, System, Ran, asset_of, get_latest_version, download_to_tmp,
  verify_sha256, extract_cmd, download_url, install, downloaded, fetched, is_current, on_target,
  on_preview, on_channel, on_info, self_update,
}
use shyake.Update.Version.{at_most}

module _ (S : System) where
  -- An archive that was downloaded for `target` and has the digest, and the one command on it.
  abbrev pub Verified : Bytes → Bytes → Disk → List Bytes → Type 0
  Verified target digest d commands =
      (tar_path : Bytes) × (d' : Disk) × (download_to_tmp S (download_url S target)
          (asset_of S.artifact) d
        ≡ (some tar_path, d'))
      × (verify_sha256 S tar_path digest d' ≡ true)
      × (is_empty S.self_path ≡ false)
      × (length (extract_cmd tar_path S.artifact S.self_path) < 1024)
      × (commands ≡ extract_cmd tar_path S.artifact S.self_path ∷ [])

  downloaded-Verified :
      (target digest : Bytes) (d : Disk) (r : Option Bytes × Disk)
      → download_to_tmp S (download_url S target) (asset_of S.artifact) d ≡ r
      → ((downloaded S target digest r).commands ≡ [])
        ⊎ Verified target digest d (downloaded S target digest r).commands
  unfolding downloaded install
  downloaded-Verified target digest d (none, d') e = inl refl
  downloaded-Verified target digest d (some tar_path, d') e =
      elim (Bool-cases (verify_sha256 S tar_path digest d')) [
        | inr bad ↦ inl (rw bad refl)
        | inl good ↦ elim (Bool-cases (is_empty S.self_path)) [
          | inl missing ↦ inl (rw (good, missing) refl)
          | inr found ↦
              elim (Bool-cases (leb 1024 (length (extract_cmd tar_path S.artifact S.self_path)))) [
                | inl long ↦ inl (rw (good, found, long) refl)
                | inr short ↦
                    inr (tar_path, d', e, good, found, ground arith, rw (good, found, short) refl)
              ]
        ]
      ]

  fetched-Verified :
      (target : Bytes) (o : Option Bytes) (d : Disk)
      → ((fetched S target o d).commands ≡ [])
        ⊎ ((digest : Bytes) × (o ≡ some digest)
            × Verified target digest d (fetched S target o d).commands)
  unfolding fetched
  fetched-Verified target none d = inl refl
  fetched-Verified target (some digest) d = elim (downloaded-Verified target digest d _ refl) [
    | inl nothing ↦ inl nothing
    | inr v ↦ inr (digest, refl, v)
  ]

module _ (J : Json) (S : System) where
  -- The release of a channel, with its digest.
  abbrev pub Chosen : Channel → VersionInfo → Bytes → Bytes → Type 0
  Chosen stable info target digest =
      (info.release ≡ some target) × (info.release_digest ≡ some digest)
  Chosen preview info target digest =
      (release : Bytes) × (info.release ≡ some release)
      × (info.pre_release ≡ some target)
      × (at_most target release ≡ false)
      × (info.pre_release_digest ≡ some digest)

  -- What has to hold for the commands that a run gave.
  abbrev pub Safe : Channel → VersionInfo → Disk → Ran → Type 0
  Safe channel info d r =
      (r.commands ≡ [])
      ⊎ ((target : Bytes) × (digest : Bytes) × Chosen channel info target digest
          × Verified S target digest d r.commands)

  on_target-Safe :
      (channel name : Channel) (current : Option Bytes) (info : VersionInfo) (t : Bytes)
      (o : Option Bytes) (d : Disk)
      → ((digest : Bytes) → o ≡ some digest → Chosen channel info t digest)
      → Safe channel info d (on_target J S name current t o d)
  unfolding on_target
  on_target-Safe channel name current info t o d chosen = elim (Bool-cases (is_current current t)) [
    | inl already ↦ inl (rw already refl)
    | inr other ↦ rw other (elim (fetched-Verified S t o d) [
      | inl nothing ↦ inl nothing
      | inr (digest, e, v) ↦ inr (t, digest, chosen digest e, v)
    ])
  ]

  on_preview-Safe :
      (current : Option Bytes) (info : VersionInfo) (release : Bytes) (o : Option Bytes) (d : Disk)
      → info.release ≡ some release
      → info.pre_release ≡ o
      → Safe preview info d (on_preview J S current info release o d)
  unfolding on_preview
  on_preview-Safe current info release none d e p = inl refl
  on_preview-Safe current info release (some t) d e p = elim (Bool-cases (at_most t release)) [
    | inl old ↦ inl (rw old refl)
    | inr newer ↦ rw newer (
        on_target-Safe preview preview current info t info.pre_release_digest d
          (λ digest h. (release, e, p, newer, h)))
  ]

  on_channel-Safe :
      (channel : Channel) (current : Option Bytes) (info : VersionInfo) (o : Option Bytes)
      (d : Disk)
      → info.release ≡ o
      → Safe channel info d (on_channel J S channel current info o d)
  unfolding on_channel
  on_channel-Safe channel current info none d e = inl refl
  on_channel-Safe stable current info (some release) d e =
      on_target-Safe stable stable current info release info.release_digest d (λ digest h. (e, h))
  on_channel-Safe preview current info (some release) d e =
      on_preview-Safe current info release info.pre_release d e refl

  -- The updater gives the shell no command, or the one command that installs an archive which it
  -- downloaded for the release of the channel and whose SHA-256 is the one published for it; a
  -- preview is installed only where it is newer than the stable release.
  pub self_update-Verified :
      (version_url current : Option Bytes) (channel : Channel) (d : Disk)
      → let r = self_update J S version_url current channel d in
        (r.commands ≡ [])
        ⊎ ((info : VersionInfo) × (target : Bytes) × (digest : Bytes) × (get_latest_version J S
                version_url
              ≡ some info)
            × Chosen channel info target digest
            × Verified S target digest d r.commands)
  unfolding self_update
  self_update-Verified version_url current channel d = go (get_latest_version J S version_url) refl
    where
      go :
          (o : Option VersionInfo)
          → get_latest_version J S version_url ≡ o
          → ((on_info J S channel current o d).commands ≡ [])
            ⊎ ((info : VersionInfo) × (target : Bytes) × (digest : Bytes) × (get_latest_version J S
                    version_url
                  ≡ some info)
                × Chosen channel info target digest
                × Verified S target digest d (on_info J S channel current o d).commands)
      go none e = inl refl
      go (some info) e = elim (on_channel-Safe channel current info info.release d refl) [
        | inl nothing ↦ inl nothing
        | inr (target, digest, c, v) ↦ inr (info, target, digest, e, c, v)
      ]
