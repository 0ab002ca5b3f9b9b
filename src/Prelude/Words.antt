-- ===== src/Prelude/Words.antt =====
-- Casts to the fixed widths of C, shifts, and 32-bit words as four bytes, lowest first.
use Prim.Native.Nat.{ℕ, ◌+◌, ◌*◌, ◌/◌, ◌%◌, ◌^◌}

abbrev pub u8 : ℕ → ℕ
u8 n = n % 2 ^ 8

abbrev pub u16 : ℕ → ℕ
u16 n = n % 2 ^ 16

abbrev pub u32 : ℕ → ℕ
u32 n = n % 2 ^ 32

abbrev pub u64 : ℕ → ℕ
u64 n = n % 2 ^ 64

infixl 75 ◌<<<◌ ◌>>>◌
abbrev pub ◌<<<◌ : ℕ → ℕ → ℕ
x <<< k = x * 2 ^ k

abbrev pub ◌>>>◌ : ℕ → ℕ → ℕ
x >>> k = x / 2 ^ k

-- `htons`, `htonl`, `htonll` and their inverses on a little-endian host: the bytes are reversed.
unfoldable pub swap16 : ℕ → ℕ
swap16 w = w % 256 * 2 ^ 8 + w / 2 ^ 8 % 256

unfoldable pub swap32 : ℕ → ℕ
swap32 w = w % 256 * 2 ^ 24 + w / 2 ^ 8 % 256 * 2 ^ 16 + w / 2 ^ 16 % 256 * 2 ^ 8 + w / 2 ^ 24 % 256

unfoldable pub swap64 : ℕ → ℕ
unfolding swap32
swap64 w = swap32 (w % 2 ^ 32) * 2 ^ 32 + swap32 (w / 2 ^ 32 % 2 ^ 32)

-- The word whose bytes are `a`, `b`, `c`, `d` in the order of the network.
abbrev pub be32 : ℕ → ℕ → ℕ → ℕ → ℕ
be32 a b c d = a * 2 ^ 24 + b * 2 ^ 16 + c * 2 ^ 8 + d
