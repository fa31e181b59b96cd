-- ===== src/NetworkUtils.antt =====
-- kernel/network/network_utils.c: the orders of bytes, and of the two fields of a byte.
pub mod Orders
use unos.Base.{ℕ, ◌+◌, ◌-◌, ◌*◌, ◌/◌, ◌%◌, ◌^◌, bit_or, u8, u16, u32, shl, shr}

-- byte `i` of a value in memory: the machine is little-endian
abbrev pub byte_at : ℕ → ℕ → ℕ
byte_at i value = value / 2 ^ (8 * i) % 2 ^ 8

pub flip_short : ℕ → ℕ
flip_short short_int =
    let first_byte = byte_at 0 short_int in
    let second_byte = byte_at 1 short_int in u16 (bit_or (u32 (shl first_byte 8)) second_byte)

pub flip_long : ℕ → ℕ
flip_long long_int =
    let first_byte = byte_at 0 long_int in
    let second_byte = byte_at 1 long_int in
    let third_byte = byte_at 2 long_int in
    let fourth_byte = byte_at 3 long_int in
    bit_or
      (bit_or (bit_or (u32 (shl first_byte 24)) (u32 (shl second_byte 16)))
        (u32 (shl third_byte 8)))
      fourth_byte

-- `num_bits` is from 0 to 8
pub flip_byte : (byte num_bits : ℕ) → ℕ
flip_byte byte num_bits = let t = u8 (shl byte (8 - num_bits)) in u8 (bit_or t (shr byte num_bits))

pub htonb : (byte num_bits : ℕ) → ℕ
unfolding flip_byte
htonb byte num_bits = flip_byte byte num_bits

pub ntohb : (byte num_bits : ℕ) → ℕ
unfolding flip_byte
ntohb byte num_bits = flip_byte byte (8 - num_bits)

pub htons : ℕ → ℕ
unfolding flip_short
htons hostshort = flip_short hostshort

pub htonl : ℕ → ℕ
unfolding flip_long
htonl hostlong = flip_long hostlong

pub ntohs : ℕ → ℕ
unfolding flip_short
ntohs netshort = flip_short netshort

pub ntohl : ℕ → ℕ
unfolding flip_long
ntohl netlong = flip_long netlong
