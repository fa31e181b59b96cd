-- ===== src/NetworkUtils/Orders.antt =====
-- What a value becomes on the wire, and that it comes back.
use unos.Base.{ℕ, ◌+◌, ◌*◌, ◌/◌, ◌%◌, ◌^◌, ◌<◌, ◌≡◌, arith, bit_or, u32, shl}
use unos.NetworkUtils.{byte_at, flip_short, flip_long, htons, ntohs, htonl, ntohl}
use unos.Base.Masks.{bit_or-add}

flip_short_lem : (v : ℕ) → flip_short v ≡ v % 256 * 256 + v / 256 % 256
unfolding flip_short
flip_short_lem v = omega (
  arith,
  bit_or-add (u32 (shl (byte_at 0 v) 8)) (v % 256) (byte_at 1 v) 8 (omega arith) (omega arith),
)

pub htons_lem : (v : ℕ) → htons v ≡ v % 256 * 256 + v / 256 % 256
unfolding htons
htons_lem v = flip_short_lem v

pub ntohs_lem : (v : ℕ) → ntohs v ≡ v % 256 * 256 + v / 256 % 256
unfolding ntohs
ntohs_lem v = flip_short_lem v

flip_long_lem :
    (v : ℕ)
    → flip_long v
      ≡ ((v % 256 * 256 + v / 256 % 256) * 256 + v / 65536 % 256) * 256 + v / 16777216 % 256
unfolding flip_long
flip_long_lem v =
    let b0 = u32 (shl (byte_at 0 v) 24) in
    let b1 = u32 (shl (byte_at 1 v) 16) in
    let b2 = u32 (shl (byte_at 2 v) 8) in
    let two = bit_or-add b0 (v % 256) b1 24 (omega arith) (omega arith) in
    let three =
      bit_or-add (bit_or b0 b1) (v % 256 * 256 + v / 256 % 256) b2 16 (omega (arith, two))
        (omega arith) in
    let four =
      bit_or-add (bit_or (bit_or b0 b1) b2)
        ((v % 256 * 256 + v / 256 % 256) * 256 + v / 65536 % 256) (byte_at 3 v) 8
        (omega (arith, two, three)) (omega arith) in
    omega (arith, two, three, four)

-- A short and a long value come back from the order of the network, in which the highest byte
-- stands first in memory.
pub ntohs-htons :
    (v w : ℕ)
    → v < 2 ^ 16
    → w < 2 ^ 32
    → (ntohs (htons v) ≡ v)
      × (htons v % 256 ≡ v / 256)
      × (ntohl (htonl w) ≡ w)
      × (htonl w % 256 ≡ w / 2 ^ 24)
unfolding ntohs htons ntohl htonl
ntohs-htons v w h k =
    let a = flip_short_lem v in
    let b = flip_short_lem (flip_short v) in
    let c = flip_long_lem w in
    let d = flip_long_lem (flip_long w) in
    (omega (arith, a, b), omega (arith, a), omega (arith, c, d), omega (arith, c))
