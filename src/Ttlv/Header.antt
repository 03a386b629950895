-- ===== src/Ttlv/Header.antt =====
-- Reads of big-endian words against what stands in the buffer.
use libkmip.Base.{ℕ, ◌^◌, ◌<◌, ◌≡◌, arith, List, ◌++◌, drop, get_or-at, get_or-at_zero}
use libkmip.Ttlv.Bytes.{be24, be32, be64, read_be_u32, read_be_u64}
use libkmip.Ttlv.Deserialize.{read_tag}

pub read_tag-be24 :
    (bytes : List ℕ) (off v : ℕ) (rest : List ℕ)
    → v < 2 ^ 24
    → drop off bytes ≡ be24 v ++ rest
    → read_tag bytes off ≡ v
read_tag-be24 bytes off v rest h e = omega (
  arith,
  get_or-at_zero off bytes _ 0 e,
  get_or-at off bytes _ 1 0 e,
  get_or-at off bytes _ 2 0 e,
)

pub read_be_u32-be32 :
    (bytes : List ℕ) (off v : ℕ) (rest : List ℕ)
    → v < 2 ^ 32
    → drop off bytes ≡ be32 v ++ rest
    → read_be_u32 bytes off ≡ v
unfolding read_be_u32
read_be_u32-be32 bytes off v rest h e = omega (
  arith,
  get_or-at_zero off bytes _ 0 e,
  get_or-at off bytes _ 1 0 e,
  get_or-at off bytes _ 2 0 e,
  get_or-at off bytes _ 3 0 e,
)

pub read_be_u64-be64 :
    (bytes : List ℕ) (off v : ℕ) (rest : List ℕ)
    → v < 2 ^ 64
    → drop off bytes ≡ be64 v ++ rest
    → read_be_u64 bytes off ≡ v
unfolding read_be_u64
read_be_u64-be64 bytes off v rest h e = omega (
  arith,
  get_or-at_zero off bytes _ 0 e,
  get_or-at off bytes _ 1 0 e,
  get_or-at off bytes _ 2 0 e,
  get_or-at off bytes _ 3 0 e,
  get_or-at off bytes _ 4 0 e,
  get_or-at off bytes _ 5 0 e,
  get_or-at off bytes _ 6 0 e,
  get_or-at off bytes _ 7 0 e,
)
