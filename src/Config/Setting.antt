-- ===== src/Config/Setting.antt =====
-- What a line of the config file gives, and what registering leaves of it.
use shyake.Base.{
  ℕ, suc, ◌-◌, ◌≡◌, ◌≢◌, refl, ap, ◌∙◌, sym, Bool, true, false, ◌&&◌, Bytes, List, [], ◌∷◌, ◌++◌,
  some, ◌>>=◌, codes, All, take-append_eq, get_or-append_right, is_empty, leb, length,
  length-append, ◌==◌, if◌then◌else◌, Bool-cases, inl, inr, arith, append_assoc,
}
use shyake.Os.{Disk, read}
use shyake.Context.{path_in}
use shyake.Config.{
  is_blank, trim_left, trim_right, trim_whitespace, split_at, unquote, parse_setting, has_key,
  new_lines, has_instance, config_lines, update_config_user_and_instance,
}

-- A text that ends with a byte which is not trimmed keeps its end.
trim_right_keeps : (s : Bytes) (c : ℕ) → is_blank c ≡ false → trim_right (s ++ c ∷ []) ≡ s ++ c ∷ []
unfolding trim_right
trim_right_keeps [] c h = rw h refl
trim_right_keeps (x ∷ []) c h = rw (trim_right_keeps [] c h) refl
trim_right_keeps (x ∷ y ∷ s) c h = rw (trim_right_keeps (y ∷ s) c h) refl

trim_right_drops : (s : Bytes) (b : ℕ) → is_blank b ≡ true → trim_right (s ++ b ∷ []) ≡ trim_right s
unfolding trim_right
trim_right_drops [] b h = rw h refl
trim_right_drops (x ∷ s) b h = rw (trim_right_drops s b h) refl

-- The key of a setting: a byte that begins no comment, and none that is trimmed or is `=`.
abbrev pub IsKey : Bytes → Type 0
IsKey [] = ⊥
IsKey (c ∷ s) = (c ≢ b'#') × All (λ x. (is_blank x ≡ false) × (x ≢ b'=')) (c ∷ s)

else_always : (b : Bool) (x y : Bytes) → (if b && false then x else y) ≡ y
else_always true x y = refl
else_always false x y = refl

trim_right_word : (s : Bytes) → All (λ x. (is_blank x ≡ false) × (x ≢ b'=')) s → trim_right s ≡ s
unfolding trim_right
trim_right_word [] h = refl
trim_right_word (c ∷ s) h =
    let b = h.0.0 in rw (b, trim_right_word s h.1) (else_always (is_empty s) [] (c ∷ s))

split_at_word :
    (s t : Bytes)
    → All (λ x. (is_blank x ≡ false) × (x ≢ b'=')) s
    → split_at b'=' (s ++ b'=' ∷ t) ≡ some (s, t)
unfolding split_at
split_at_word [] t h = refl
split_at_word (c ∷ s) t h =
    let other : (c == b'=') ≡ false = ground (arith, h.0.1) in
    rw (other, split_at_word s t h.1) refl

-- `"value"`
abbrev pub quoted : Bytes → Bytes
quoted val = b'"' ∷ (val ++ b'"' ∷ [])

unquote-quoted : (val : Bytes) → unquote (quoted val) ≡ val
unfolding unquote
unquote-quoted val =
    let l = length-append val (b'"' ∷ []) in
    let last : suc (length (val ++ b'"' ∷ [])) - 1 ≡ suc (length val) = omega arith in
    let front : length (val ++ b'"' ∷ []) - 1 ≡ length val = omega arith in
    let long : leb 2 (suc (length (val ++ b'"' ∷ []))) ≡ true = ground arith in
    rw (last, get_or-append_right val (b'"' ∷ []) 0 (length val) 0 (omega arith), long, front)
      (take-append_eq (length val) val (b'"' ∷ []) refl)

trim_left_word : (c : ℕ) (s : Bytes) → is_blank c ≡ false → trim_left (c ∷ s) ≡ c ∷ s
unfolding trim_left
trim_left_word c s h = rw h refl

-- A line that begins and ends with bytes that are not trimmed loses its newline only.
trim_line :
    (c q : ℕ) (s : Bytes)
    → is_blank c ≡ false
    → is_blank q ≡ false
    → trim_whitespace ((c ∷ s ++ q ∷ []) ++ b'\n' ∷ []) ≡ c ∷ s ++ q ∷ []
trim_line c q s hc hq =
    ap trim_right (trim_left_word c ((s ++ q ∷ []) ++ b'\n' ∷ []) hc)
    ∙ trim_right_drops (c ∷ s ++ q ∷ []) b'\n' refl
    ∙ trim_right_keeps (c ∷ s) q hq

-- A value written in double quotes is read as it is, whatever it holds, with a key that is not empty,
-- holds no blank and no `=`, and does not begin with `#`.
pub parse_setting-quoted :
    (key val : Bytes)
    → IsKey key
    → parse_setting ((key ++ (b'=' ∷ quoted val)) ++ b'\n' ∷ []) ≡ some (key, val)
unfolding parse_setting
parse_setting-quoted [] val h = absurd h
parse_setting-quoted (c ∷ s) val h =
    let clean = h.1.0.0 in
    let plain : (c == b'#') ≡ false = ground (arith, h.0) in
    let whole : s ++ (b'=' ∷ quoted val) ≡ (s ++ (b'=' ∷ b'"' ∷ val)) ++ b'"' ∷ [] =
      sym (append_assoc s (b'=' ∷ b'"' ∷ val) (b'"' ∷ [])) in
    let trimmed : trim_whitespace ((c ∷ s ++ (b'=' ∷ quoted val)) ++ b'\n' ∷ [])
        ≡ c ∷ s ++ (b'=' ∷ quoted val) =
      rw whole (trim_line c b'"' (s ++ (b'=' ∷ b'"' ∷ val)) clean refl) in
    rw
      (
        trimmed,
        plain,
        ◌>>=◌,
        split_at_word (c ∷ s) (quoted val) h.1,
        trim_left_word c s clean,
        trim_right_word (c ∷ s) h.1,
        trim_left_word b'"' (val ++ b'"' ∷ []) refl,
        trim_right_keeps (b'"' ∷ val) b'"' refl,
        unquote-quoted val,
      )
      refl

new_lines_same :
    (u u' instance_url : Bytes) (old : List Bytes)
    → has_instance old ≡ false
    → new_lines u instance_url old ≡ new_lines u' instance_url old
unfolding new_lines has_instance
new_lines_same u u' i [] h = refl
new_lines_same u u' i (line ∷ old) h = elim (Bool-cases (has_key (codes "INSTANCE") line)) [
  | inl found ↦ let h' = rw found at h in cc
  | inr other ↦
      let h' = rw other at h in let same = new_lines_same u u' i old h' in rw (other, same) refl
]

-- Where no line of the config file has the key INSTANCE, the file that is written does not depend on
-- the user name: it is not stored.
pub update_config_forgets :
    (config_dir u u' instance_url : Bytes) (d : Disk)
    → has_instance (config_lines (read d (path_in config_dir (codes "config")))) ≡ false
    → update_config_user_and_instance config_dir u instance_url d
      ≡ update_config_user_and_instance config_dir u' instance_url d
unfolding update_config_user_and_instance
update_config_forgets config_dir u u' i d h =
    rw (new_lines_same u u' i (config_lines (read d (path_in config_dir (codes "config")))) h) refl
