-- ===== src/Strings/Text.antt =====
-- The routines of lib/string.c on strings that end in a byte 0. Their loops run on fuel: `none` is
-- running out of it. A pointer result NULL is 0.
pub mod Strings
use unos.Base.{
  ℕ, zero, suc, ◌+◌, ◌-◌, ◌^◌, Bool, true, false, not, ◌&&◌, ◌||◌, Option, none, some, ltb, leb,
  ◌==◌, if◌then◌else◌, u32, update, min,
}
use unos.Memory.{Memory}
use unos.Strings.{memcpy}

pub strlen_loop : (fuel i buf : ℕ) → Memory → Option ℕ
strlen_loop zero i buf m = none
strlen_loop (suc fuel) i buf m =
    let rest = strlen_loop fuel (i + 1) buf m in if m (buf + i) == 0 then some i else rest

pub strlen : (fuel buf : ℕ) → Memory → Option ℕ
unfolding strlen_loop
strlen fuel buf m = strlen_loop fuel 0 buf m

pub strcmp_loop : (fuel i dst src : ℕ) → Memory → Option ℕ
strcmp_loop zero i dst src m = none
strcmp_loop (suc fuel) i dst src m =
    let rest = strcmp_loop fuel (i + 1) dst src m in
    if m (dst + i) == m (src + i) then (if m (src + i) == 0 then some 0 else rest) else some 1

pub strcmp : (fuel dst src : ℕ) → Memory → Option ℕ
unfolding strcmp_loop
strcmp fuel dst src m = strcmp_loop fuel 0 dst src m

-- a `char` as an `int`, which is kept modulo 2 ^ 32
abbrev pub sign_extend : ℕ → ℕ
sign_extend c = if ltb c 128 then c else c + 2 ^ 32 - 256

-- `c` is not negative
pub strncmp : (s1 s2 c result : ℕ) → Memory → ℕ
strncmp s1 s2 zero result m = result
strncmp s1 s2 (suc c) result m =
    let result' = u32 (sign_extend (m s1) + 2 ^ 32 - sign_extend (m s2)) in
    let rest = strncmp (s1 + 1) (s2 + 1) c result' m in
    if not (result' == 0) || (m s1 == 0) then result' else rest

pub strcpy : (fuel dst src i : ℕ) → Memory → Option (ℕ × Memory)
strcpy zero dst src i m = none
strcpy (suc fuel) dst src i m =
    let m' = update m dst (m src) in
    let rest = strcpy fuel (dst + 1) (src + 1) (i + 1) m' in
    if m src == 0 then some (i, m') else rest

-- the loop of `strncpy`, with `rounds` left: the last count
pub strncpy_loop : (rounds count dest source : ℕ) → Memory → ℕ × Memory
strncpy_loop zero count dest source m = (count, m)
strncpy_loop (suc rounds) count dest source m =
    let m' = update m (dest + count) (m (source + count)) in
    let rest = strncpy_loop rounds (count + 1) dest source m' in
    if m (source + count) == 0 then (count, m') else rest

-- `max_length` is not negative
pub strncpy : (dest source max_length : ℕ) → Memory → ℕ × Memory
unfolding strncpy_loop
strncpy dest source max_length m =
    let r = strncpy_loop (if ltb 255 max_length then 255 else max_length) 0 dest source m in
    if (dest == 0) || (source == 0) then (0, m) else if leb 255 r.0 then (0, r.1) else (dest, r.1)

-- the end of `strcat`, with the new end known
pub strcat_end : (end : ℕ) → Option ℕ → Memory → Option Memory
strcat_end end none m = none
strcat_end end (some k) m = some (update m (end + k) 0)

-- `strcat` with the two lengths known; the source's is taken once more behind the copy
pub strcat_at : (fuel dest src : ℕ) → Option ℕ → Option ℕ → Memory → Option Memory
unfolding strcat_end
strcat_at fuel dest src (some n) (some k) m =
    let m' = memcpy (dest + n) src k m in strcat_end (dest + n) (strlen fuel src m') m'
strcat_at fuel dest src _ _ m = none

pub strcat : (fuel dest src : ℕ) → Memory → Option Memory
unfolding strcat_at
strcat fuel dest src m = strcat_at fuel dest src (strlen fuel dest m) (strlen fuel src m) m

-- the two loops of `strstr` at `in`; `c` is the first byte of the text searched for and `str` points
-- behind it
pub strstr_loop : (fuel in_ c str len : ℕ) → Memory → Option ℕ
unfolding strncmp
strstr_loop zero in_ c str len m = none
strstr_loop (suc fuel) in_ c str len m =
    let rest = strstr_loop fuel (in_ + 1) c str len m in
    if m in_ == 0
    then some 0
    else if not (m in_ == c)
    then rest
    else if strncmp (in_ + 1) str len 0 m == 0
    then some in_
    else rest

pub strstr_from : (fuel in_ c str : ℕ) → Option ℕ → Memory → Option ℕ
unfolding strstr_loop
strstr_from fuel in_ c str none m = none
strstr_from fuel in_ c str (some len) m = strstr_loop fuel in_ c str len m

pub strstr : (fuel in_ str : ℕ) → Memory → Option ℕ
unfolding strstr_from strlen
strstr fuel in_ str m =
    let found = strstr_from fuel in_ (m str) (str + 1) (strlen fuel (str + 1) m) m in
    if m str == 0 then some in_ else found
