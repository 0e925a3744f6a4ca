-- ===== src/Compose.antt =====
-- client/src/cli/main.c: subjects, the version address and the choice of an editor.
pub mod Subject
pub mod Scissors
pub mod Template
use shyake.Base.{
  ℕ, zero, suc, ◌+◌, ◌-◌, Bool, true, false, not, ◌&&◌, ◌||◌, Bytes, [], ◌∷◌, ◌++◌, Option, none,
  some, map, codes, take, drop, get_or, equal, is_empty, ltb, leb, length, ◌==◌, if◌then◌else◌,
}
use shyake.KnownHosts.{is_space}
use shyake.Display.Utf8.{is_continuation}
use shyake.Update.{to_lower}

unfoldable pub all_space : Bytes → Bool
unfolding is_space
all_space [] = true
all_space (c ∷ s) = is_space c && all_space s

-- `subject_problem`; a null pointer is `none`.
unfoldable pub subject_problem : Option Bytes → Option Bytes
unfolding all_space
subject_problem none = some (codes "The subject cannot be empty.")
subject_problem (some subject) =
    if is_empty subject
    then some (codes "The subject cannot be empty.")
    else if ltb 128 (length subject)
    then some (codes "The subject cannot exceed 128 bytes.")
    else if all_space subject
    then some (codes "The subject cannot be only whitespace.")
    else none

-- `strncasecmp(orig, "Re:", 3) == 0 ? "" : "Re: "`
unfoldable pub reply_prefix : Bytes → Bytes
reply_prefix orig = if equal (map to_lower (take 3 orig)) (codes "re:") then [] else codes "Re: "

-- The loop that moves `n` back, counted from the end of the prefix.
unfoldable pub cut_back : Bytes → ℕ → ℕ
cut_back orig zero = zero
cut_back orig (suc k) =
    let earlier = cut_back orig k in
    if is_continuation (get_or orig (suc k) 0) then earlier else suc k

-- `reply_subject`
unfoldable pub reply_subject : Bytes → Bytes
unfolding cut_back
reply_subject orig =
    let prefix = reply_prefix orig in
    let n = length prefix + length orig in
    let n' = if ltb 128 n then length prefix + cut_back orig (128 - length prefix) else n in
    take n' (prefix ++ orig)

-- The text without the slashes at its end.
unfoldable pub strip_slashes : Bytes → Bytes
strip_slashes [] = []
strip_slashes (c ∷ s) =
    let rest = strip_slashes s in if is_empty rest && c == b'/' then [] else c ∷ rest

-- `build_version_url`
unfoldable pub build_version_url : Option Bytes → Bytes
unfolding strip_slashes
build_version_url none = codes "https://shyake.eee.coffee/api/client/version"
build_version_url (some instance_url) =
    if is_empty instance_url
    then codes "https://shyake.eee.coffee/api/client/version"
    else strip_slashes instance_url ++ codes "/api/client/version"

-- A value that is set and not empty, or the next choice.
abbrev pub or_else : Option Bytes → Bytes → Bytes
or_else none next = next
or_else (some []) next = next
or_else (some (c ∷ s)) next = c ∷ s

-- `resolve_editor`: the configured one, `VISUAL`, `EDITOR`.
unfoldable pub resolve_editor : Option Bytes → Option Bytes → Option Bytes → Bytes
resolve_editor configured visual editor =
    or_else configured (or_else visual (or_else editor (codes "ed")))
