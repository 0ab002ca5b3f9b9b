-- ===== src/Parser/Words.antt =====
-- The byte swaps of the parser, and the header that `read_header` reads.
use fpga_tools.Prelude.{
  ℕ, zero, suc, ◌+◌, ◌*◌, ◌/◌, ◌%◌, ◌^◌, ◌≤◌, ◌<◌, ◌≡◌, ◌⊎◌, inl, inr, refl, ap, ◌∙◌, arith,
}
use native.Mathlib.Nat.{pow-suc, one-le-pow}
use fpga_tools.Prelude.{
  bit_and, bit_or, bit_and_shifted, bit_and_low, bit_or_shifted, swap16, swap32, swap64, be32,
  Memory, load32,
}
use fpga_tools.Parser.{
  TrigHeader, File, Outcome, failed, aborted, got, fread, bswap16, bswap32, bswap64, load16, load64,
  read_header,
}

-- The byte that a mask of eight bits takes.
byte_mask : (k a : ℕ) → bit_and a (255 * 2 ^ k) ≡ a / 2 ^ k % 256 * 2 ^ k
byte_mask k a = bit_and_shifted k a 255 ∙ ap (λ b. b * 2 ^ k) (bit_and_low 8 (a / 2 ^ k))

pow_eight : (k : ℕ) → 2 ^ (k + 8) ≡ 256 * 2 ^ k
pow_eight zero = refl
pow_eight (suc k) =
    let e : suc k + 8 ≡ suc (k + 8) = omega arith in
    omega (arith, ap (λ (t : ℕ). 2 ^ t) e, pow_eight k, pow-suc 2 k, pow-suc 2 (k + 8))

mul_mono : (a b w : ℕ) → a ≤ b → a * w ≤ b * w
mul_mono a b w h = grind arith

-- Bytes that are joined from the top down.
join : (k acc b : ℕ) → b < 256 → bit_or (acc * 2 ^ (k + 8)) (b * 2 ^ k) ≡ (acc * 256 + b) * 2 ^ k
join k acc b small =
    bit_or_shifted (k + 8) acc (b * 2 ^ k)
      (omega (arith, mul_mono b 255 (2 ^ k) (omega arith), pow_eight k, one-le-pow k 2))
    ∙ omega (arith, ap (λ (t : ℕ). acc * t) (pow_eight k))

pub bswap16-swap16 : (a : ℕ) → a < 2 ^ 16 → bswap16 a ≡ swap16 a
unfolding bswap16 swap16
bswap16-swap16 a h =
    let e₀ : bit_and a 0xFF * 2 ^ 8 ≡ a % 256 * 2 ^ 8 = omega (arith, byte_mask 0 a) in
    let e₁ : bit_and a 0xFF00 / 2 ^ 8 ≡ a / 2 ^ 8 % 256 * 2 ^ 0 = omega (arith, byte_mask 8 a) in
    rw (e₀, e₁, join 0 (a % 256) (a / 2 ^ 8 % 256) (omega arith)) (omega arith)

pub bswap32-swap32 : (a : ℕ) → a < 2 ^ 32 → bswap32 a ≡ swap32 a
unfolding bswap32 swap32
bswap32-swap32 a h =
    let b₀ = a % 256 in
    let b₁ = a / 2 ^ 8 % 256 in
    let b₂ = a / 2 ^ 16 % 256 in
    let b₃ = a / 2 ^ 24 % 256 in
    let e₀ : bit_and a 0xFF * 2 ^ 24 ≡ b₀ * 2 ^ 24 = omega (arith, byte_mask 0 a) in
    let e₁ : bit_and a 0xFF00 * 2 ^ 8 ≡ b₁ * 2 ^ 16 = omega (arith, byte_mask 8 a) in
    let e₂ : bit_and a 0xFF0000 / 2 ^ 8 ≡ b₂ * 2 ^ 8 = omega (arith, byte_mask 16 a) in
    let e₃ : bit_and a 0xFF000000 / 2 ^ 24 ≡ b₃ * 2 ^ 0 = omega (arith, byte_mask 24 a) in
    rw
      (
        e₀,
        e₁,
        e₂,
        e₃,
        join 16 b₀ b₁ (omega arith),
        join 8 (b₀ * 256 + b₁) b₂ (omega arith),
        join 0 ((b₀ * 256 + b₁) * 256 + b₂) b₃ (omega arith),
      )
      (omega arith)

pub bswap64-swap64 : (a : ℕ) → a < 2 ^ 64 → bswap64 a ≡ swap64 a
unfolding bswap64 swap64 swap32
bswap64-swap64 a h =
    let b₀ = a % 256 in
    let b₁ = a / 2 ^ 8 % 256 in
    let b₂ = a / 2 ^ 16 % 256 in
    let b₃ = a / 2 ^ 24 % 256 in
    let b₄ = a / 2 ^ 32 % 256 in
    let b₅ = a / 2 ^ 40 % 256 in
    let b₆ = a / 2 ^ 48 % 256 in
    let b₇ = a / 2 ^ 56 % 256 in
    let e₀ : bit_and a 0xFF * 2 ^ 56 ≡ b₀ * 2 ^ 56 = omega (arith, byte_mask 0 a) in
    let e₁ : bit_and a 0xFF00 * 2 ^ 40 ≡ b₁ * 2 ^ 48 = omega (arith, byte_mask 8 a) in
    let e₂ : bit_and a 0xFF0000 * 2 ^ 24 ≡ b₂ * 2 ^ 40 = omega (arith, byte_mask 16 a) in
    let e₃ : bit_and a 0xFF000000 * 2 ^ 8 ≡ b₃ * 2 ^ 32 = omega (arith, byte_mask 24 a) in
    let e₄ : bit_and a 0xFF00000000 / 2 ^ 8 ≡ b₄ * 2 ^ 24 = omega (arith, byte_mask 32 a) in
    let e₅ : bit_and a 0xFF0000000000 / 2 ^ 24 ≡ b₅ * 2 ^ 16 = omega (arith, byte_mask 40 a) in
    let e₆ : bit_and a 0xFF000000000000 / 2 ^ 40 ≡ b₆ * 2 ^ 8 = omega (arith, byte_mask 48 a) in
    let e₇ : bit_and a 0xFF00000000000000 / 2 ^ 56 ≡ b₇ * 2 ^ 0 = omega (arith, byte_mask 56 a) in
    let c₂ = b₀ * 256 + b₁ in
    let c₃ = c₂ * 256 + b₂ in
    let c₄ = c₃ * 256 + b₃ in
    let c₅ = c₄ * 256 + b₄ in
    let c₆ = c₅ * 256 + b₅ in
    rw
      (
        e₀,
        e₁,
        e₂,
        e₃,
        e₄,
        e₅,
        e₆,
        e₇,
        join 48 b₀ b₁ (omega arith),
        join 40 c₂ b₂ (omega arith),
        join 32 c₃ b₃ (omega arith),
        join 24 c₄ b₄ (omega arith),
        join 16 c₅ b₅ (omega arith),
        join 8 c₆ b₆ (omega arith),
        join 0 (c₆ * 256 + b₆) b₇ (omega arith),
      )
      (omega arith)

module _ (m : Memory) (p : ℕ) (bytes : (q : ℕ) → m q < 256) where
  pub bswap16-load16 : bswap16 (load16 m p) ≡ m p * 256 + m (p + 1)
  unfolding load16 swap16
  bswap16-load16 =
      bswap16-swap16 (load16 m p) (omega (arith, bytes p, bytes (p + 1)))
      ∙ omega (arith, bytes p, bytes (p + 1))

  pub bswap32-load32 : bswap32 (load32 m p) ≡ be32 (m p) (m (p + 1)) (m (p + 2)) (m (p + 3))
  unfolding load32 swap32
  bswap32-load32 =
      bswap32-swap32 (load32 m p)
        (omega (arith, bytes p, bytes (p + 1), bytes (p + 2), bytes (p + 3)))
      ∙ omega (arith, bytes p, bytes (p + 1), bytes (p + 2), bytes (p + 3))

-- The header whose bytes start at `p`, in network order.
abbrev pub header_at : Memory → ℕ → TrigHeader
header_at m p = record {
  magic_number = bswap32 (load32 m p);
  trig_number = bswap32 (load32 m (p + 4));
  clock = bswap64 (load64 m (p + 8));
  length = swap16 (load16 m (p + 16));
  device_number = m (p + 18);
  crc = m (p + 19);
}

-- A file of `n` bytes, at position `p`.
abbrev pub file_at : Memory → ℕ → ℕ → File
file_at m n p = record { contents = m; size = n; position = p }

module _ (m : Memory) (n p : ℕ) where
  -- Twenty bytes that start with the magic number are read as a header.
  pub read_header-got :
      p + 20 ≤ n
      → bswap32 (load32 m p) ≡ 0xFFFFFFFF
      → read_header (file_at m n p) ≡ (got (header_at m p), file_at m n (p + 20))
  unfolding read_header fread
  read_header-got fits magic = ground arith

  -- Fewer bytes are not a header.
  pub read_header-failed : n < p + 20 → (read_header (file_at m n p)).0 ≡ failed
  unfolding read_header fread
  read_header-failed short = ground arith

-- Reading changes neither the bytes of a file nor their number.
abbrev pub SameFile : File → File → Type 0
SameFile f f' = (f'.contents ≡ f.contents) × (f'.size ≡ f.size)

pub read_header-SameFile : (f : File) → SameFile f (read_header f).1
unfolding read_header fread
read_header-SameFile f = (ground arith, ground arith)

pub Outcome-cases {ℓ} :
    {A : Type ℓ} (r : Outcome A) → (r ≡ failed) ⊎ (r ≡ aborted) ⊎ ((a : A) × (r ≡ got a))
Outcome-cases failed = inl refl
Outcome-cases aborted = inr (inl refl)
Outcome-cases (got a) = inr (inr (a, refl))
