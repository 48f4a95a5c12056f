-- ===== src/Base/Words.antt =====
-- Machine words: unsigned C arithmetic with its wrap-around, and the byte order of the network.
use Prim.Native.Nat.{ℕ, ◌+◌, ◌-◌, ◌*◌, ◌/◌, ◌%◌, ◌^◌, ◌<◌}
use mathlib.Core.Path.{◌≡◌}
use native.Mathlib.Omega.{arith}

-- A cast to `uint8_t`, `uint16_t`, `uint32_t`.
abbrev pub u8 : ℕ → ℕ
u8 n = n % 2 ^ 8

abbrev pub u16 : ℕ → ℕ
u16 n = n % 2 ^ 16

abbrev pub u32 : ℕ → ℕ
u32 n = n % 2 ^ 32

-- `a - b` at type `uint32_t`.
abbrev pub sub32 : ℕ → ℕ → ℕ
sub32 a b = (u32 a + 2 ^ 32 - u32 b) % 2 ^ 32

-- `htonl` and `ntohl` on the little-endian hosts that the program is built for.
abbrev pub swap32 : ℕ → ℕ
swap32 n =
    n % 2 ^ 8 * 2 ^ 24
    + n / 2 ^ 8 % 2 ^ 8 * 2 ^ 16
    + n / 2 ^ 16 % 2 ^ 8 * 2 ^ 8
    + n / 2 ^ 24 % 2 ^ 8

pub swap32-swap32 : (n : ℕ) → n < 2 ^ 32 → swap32 (swap32 n) ≡ n
swap32-swap32 n h = omega arith

pub swap32-lt : (n : ℕ) → swap32 n < 2 ^ 32
swap32-lt n = omega arith
