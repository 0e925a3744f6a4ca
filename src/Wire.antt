-- ===== src/Wire.antt =====
-- client/src/lib/enc_dec.c and client/src/lib/passphrase.c: little-endian 32-bit words, and reads
-- from a `FILE *` as a list of the bytes that are still to come.
use shyake.Base.{
  ℕ, ◌+◌, ◌*◌, ◌/◌, ◌%◌, ◌^◌, ◌<◌, ◌≡◌, refl, arith, Bytes, [], ◌∷◌, ◌++◌, take, drop, get_or,
  length, ◌==◌, if◌then◌else◌, AreBytes,
}

-- `write_u32le`: `v & 0xff` and the shifts of a `u32`.
unfoldable pub write_u32le : ℕ → Bytes
write_u32le v = v % 256 ∷ (v / 2 ^ 8) % 256 ∷ (v / 2 ^ 16) % 256 ∷ (v / 2 ^ 24) % 256 ∷ []

-- `read_u32le` of a buffer. The four shifted bytes have no bit in common, so `|` is a sum.
unfoldable pub read_u32le : Bytes → ℕ
read_u32le buf =
    get_or buf 0 0 + get_or buf 1 0 * 2 ^ 8 + get_or buf 2 0 * 2 ^ 16 + get_or buf 3 0 * 2 ^ 24

-- `fread(buf, 1, n, f)`: the bytes read, and those left.
abbrev pub fread : ℕ → Bytes → Bytes × Bytes
fread n f = (take n f, drop n f)

-- `read_u32le` of a stream: 0 where the stream ends first.
unfoldable pub fread_u32le : Bytes → ℕ × Bytes
unfolding read_u32le
fread_u32le f = let (buf, rest) = fread 4 f in (if length buf == 4 then read_u32le buf else 0, rest)

pub write_u32le-AreBytes : (v : ℕ) → AreBytes (write_u32le v)
unfolding write_u32le
write_u32le-AreBytes v = omega arith

pub length-write_u32le : (v : ℕ) → length (write_u32le v) ≡ 4
unfolding write_u32le
length-write_u32le v = refl

pub read-write_u32le : (v : ℕ) (rest : Bytes) → v < 2 ^ 32 → read_u32le (write_u32le v ++ rest) ≡ v
unfolding write_u32le read_u32le
read-write_u32le v rest h = omega arith

-- A word that was written is read back, with what follows it left in the stream.
pub fread-write_u32le :
    (v : ℕ) (rest : Bytes) → v < 2 ^ 32 → fread_u32le (write_u32le v ++ rest) ≡ (v, rest)
unfolding write_u32le fread_u32le
fread-write_u32le v rest h = ground arith
