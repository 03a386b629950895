-- ===== src/Ttlv/Bytes.antt =====
-- kmipcore/src/kmip_basics.cpp, the byte-order helpers. Shifts and masks are written with `*`, `/`
-- and `%`; the fields that the source joins by `|` do not overlap, so that they add up.
use libkmip.Base.{ℕ, ◌+◌, ◌*◌, ◌/◌, ◌%◌, ◌^◌, ◌<◌, ◌≡◌, refl, arith, List, [], ◌∷◌, get_or}

-- `std::endian::native`
pub data Endian : Type 0 where
  little big : Endian

abbrev pub IsByte : ℕ → Type 0
IsByte b = b < 256

abbrev byte : ℕ → ℕ → ℕ
byte v k = v / 2 ^ k % 256

-- The bytes of an unsigned integer, most significant first.
abbrev pub be24 : ℕ → List ℕ
be24 v = byte v 16 ∷ byte v 8 ∷ v % 256 ∷ []

abbrev pub be32 : ℕ → List ℕ
be32 v = byte v 24 ∷ byte v 16 ∷ byte v 8 ∷ v % 256 ∷ []

abbrev pub be64 : ℕ → List ℕ
be64 v =
    byte v 56 ∷ byte v 48 ∷ byte v 40 ∷ byte v 32 ∷ byte v 24 ∷ byte v 16 ∷ byte v 8 ∷ v % 256 ∷ []

-- The bytes of a word as the host keeps it in memory, which `std::as_bytes` shows.
abbrev pub as_bytes32 : Endian → ℕ → List ℕ
as_bytes32 big w = be32 w
as_bytes32 little w = w % 256 ∷ byte w 8 ∷ byte w 16 ∷ byte w 24 ∷ []

abbrev pub as_bytes64 : Endian → ℕ → List ℕ
as_bytes64 big w = be64 w
as_bytes64 little w =
    w % 256 ∷ byte w 8 ∷ byte w 16 ∷ byte w 24 ∷ byte w 32 ∷ byte w 40 ∷ byte w 48 ∷ byte w 56 ∷ []

unfoldable pub to_be32 : Endian → ℕ → ℕ
to_be32 big v = v
to_be32 little v = v % 256 * 2 ^ 24 + byte v 8 * 2 ^ 16 + byte v 16 * 2 ^ 8 + byte v 24

unfoldable pub to_be64 : Endian → ℕ → ℕ
to_be64 big v = v
to_be64 little v = to_be32 little (v % 2 ^ 32) * 2 ^ 32 + to_be32 little (v / 2 ^ 32 % 2 ^ 32)

-- Reads of four and eight bytes from an offset on. The callers see to it that they are there.
unfoldable pub read_be_u32 : List ℕ → ℕ → ℕ
read_be_u32 bytes off =
    get_or bytes off 0 * 2 ^ 24
    + get_or bytes (off + 1) 0 * 2 ^ 16
    + get_or bytes (off + 2) 0 * 2 ^ 8
    + get_or bytes (off + 3) 0

unfoldable pub read_be_u64 : List ℕ → ℕ → ℕ
read_be_u64 bytes off =
    get_or bytes off 0 * 2 ^ 56
    + get_or bytes (off + 1) 0 * 2 ^ 48
    + get_or bytes (off + 2) 0 * 2 ^ 40
    + get_or bytes (off + 3) 0 * 2 ^ 32
    + get_or bytes (off + 4) 0 * 2 ^ 24
    + get_or bytes (off + 5) 0 * 2 ^ 16
    + get_or bytes (off + 6) 0 * 2 ^ 8
    + get_or bytes (off + 7) 0

-- Whatever the host's byte order, the word that `to_be32` returns has in memory the bytes of `v`,
-- most significant first; so has that of `to_be64`.
pub as_bytes32-to_be32 : (host : Endian) (v : ℕ) → as_bytes32 host (to_be32 host v) ≡ be32 v
unfolding to_be32
as_bytes32-to_be32 big v = refl
as_bytes32-to_be32 little v = ground arith

pub as_bytes64-to_be64 : (host : Endian) (v : ℕ) → as_bytes64 host (to_be64 host v) ≡ be64 v
unfolding to_be32 to_be64
as_bytes64-to_be64 big v = refl
as_bytes64-to_be64 little v = ground arith
