-- ===== src/Display/Utf8.antt =====
-- client/src/cli/display.c: `utf8_next`, `cp_width` and `utf8_display_width`. A string is its bytes
-- before the NUL, which no list holds.
use shyake.Base.{
  ℕ, zero, suc, ◌+◌, ◌*◌, ◌%◌, Bool, ◌&&◌, ◌||◌, Bytes, [], ◌∷◌, Option, none, some, ltb, leb, ◌==◌,
  if◌then◌else◌, length,
}

-- `(p[i] & 0xC0) == 0x80` of a byte.
abbrev pub is_continuation : ℕ → Bool
is_continuation c = leb 128 c && ltb c 192

-- The loop over the bytes after the first; the NUL that ends the text is no continuation.
unfoldable pub continue : ℕ → ℕ → Bytes → Option (ℕ × Bytes)
continue zero cp s = some (cp, s)
continue (suc n) cp [] = none
continue (suc n) cp (c ∷ s) =
    let rest = continue n (cp * 64 + c % 64) s in if is_continuation c then rest else none

-- `(*s)++; return 0;` where the loop fails.
abbrev pub or_skip : Bytes → Option (ℕ × Bytes) → ℕ × Bytes
or_skip s none = (0, s)
or_skip s (some r) = r

-- `utf8_next` on the bytes `c ∷ s`: the code point and the text behind it.
unfoldable pub decode : ℕ → Bytes → ℕ × Bytes
unfolding continue
decode c s =
    if ltb c 0x80
    then (c, s)
    else if ltb c 0xC2
    then (0, s)
    else if ltb c 0xE0
    then or_skip s (continue 1 (c % 32) s)
    else if ltb c 0xF0
    then or_skip s (continue 2 (c % 16) s)
    else if ltb c 0xF8
    then or_skip s (continue 3 (c % 8) s)
    else (0, s)

-- `utf8_next`; -1 is `none`.
unfoldable pub utf8_next : Bytes → Option (ℕ × Bytes)
unfolding decode
utf8_next [] = none
utf8_next (c ∷ s) = some (decode c s)

abbrev within : ℕ → ℕ → ℕ → Bool
within cp low high = leb low cp && leb cp high

-- `cp_width`
unfoldable pub cp_width : ℕ → ℕ
cp_width cp =
    if cp == 0
    then 0
    else if within cp 0x1100 0x115F
        || (cp == 0x2329
            || (cp == 0x232A
                || (within cp 0x2E80 0x303E
                    || (within cp 0x3040 0x33FF
                        || (within cp 0x3400 0x4DBF
                            || (within cp 0x4E00 0xA4CF
                                || (within cp 0xA960 0xA97F
                                    || (within cp 0xAC00 0xD7FF
                                        || (within cp 0xF900 0xFAFF
                                            || (within cp 0xFE10 0xFE1F
                                                || (within cp 0xFE30 0xFE6F
                                                    || (within cp 0xFF00 0xFF60
                                                        || (within cp 0xFFE0 0xFFE6
                                                            || (within cp 0x1B000 0x1B0FF
                                                            || (within cp 0x1F004 0x1F0CF
                                                            || (within cp 0x1F300 0x1F9FF
                                                            || (within cp 0x20000 0x2FFFD
                                                            || within cp 0x30000
                                                            0x3FFFD)))))))))))))))))
    then 2
    else 1

-- `cp > 0 ? cp_width(cp) : 0`
unfoldable pub shown_width : ℕ → ℕ
unfolding cp_width
shown_width cp = if ltb 0 cp then cp_width cp else 0

-- The loop of `utf8_display_width`, at most `fuel` rounds.
unfoldable pub width_of : ℕ → Bytes → ℕ
unfolding decode shown_width
width_of zero s = 0
width_of (suc fuel) [] = 0
width_of (suc fuel) (c ∷ s) = let (cp, rest) = decode c s in shown_width cp + width_of fuel rest

-- `utf8_display_width`: a round for each byte is enough.
unfoldable pub utf8_display_width : Bytes → ℕ
unfolding width_of
utf8_display_width s = width_of (length s) s
