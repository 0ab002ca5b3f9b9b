-- ===== src/Prelude/Bits.antt =====
-- `&`, `|` and `^` on machine words, as arithmetic: the lowest digit, masks and disjoint fields.
use Prim.Native.Nat.{ℕ, zero, suc, ◌+◌, ◌-◌, ◌*◌, ◌/◌, ◌%◌, ◌^◌, ◌≤◌, ◌<◌, min, max}
use Prim.Native.Nat.{bit_and, bit_or, digits, bitwise, bit_and-bitwise, bit_or-bitwise}
use mathlib.Core.Path.{◌≡◌, refl, sym, ap, ◌∙◌}
use mathlib.Core.Logic.{◌≢◌}
use native.Mathlib.Nat.{pow-suc, one-le-pow, div-div-eq-div-mul}
use native.Mathlib.Nat.{mod-add-div, mod-eq_of_lt, mod-lt, add-mul-mod_self_left, zero-div}
use native.Mathlib.Omega.{arith}

fuel_splits : (a : ℕ) → a ≡ (a - suc a / 2) + suc a / 2
fuel_splits a = omega arith

-- The native operations run on fuel. Fuel beyond the first operand changes nothing.
module _ (left_over : ℕ → ℕ) (on_digits : ℕ → ℕ → ℕ) where
  one_more_fuel :
      (fuel a b : ℕ)
      → a ≤ fuel
      → digits left_over on_digits (suc fuel) a b ≡ digits left_over on_digits fuel a b
  one_more_fuel fuel zero b enough = by_fuel fuel
    where
      by_fuel : (n : ℕ) → digits left_over on_digits (suc n) 0 b ≡ digits left_over on_digits n 0 b
      by_fuel zero = refl
      by_fuel (suc n) = refl
  one_more_fuel zero (suc a) b enough = absurd (omega arith)
  one_more_fuel (suc fuel) (suc a) b enough =
      ap (λ rest. rest * 2 + on_digits (suc a % 2) (b % 2))
        (one_more_fuel fuel (suc a / 2) (b / 2) (omega arith))

  more_fuel :
      (extra a b : ℕ)
      → digits left_over on_digits (extra + a) a b ≡ digits left_over on_digits a a b
  more_fuel zero a b = ap (λ fuel. digits left_over on_digits fuel a b) (omega arith)
  more_fuel (suc extra) a b =
      let next : suc extra + a ≡ suc (extra + a) = omega arith in
      ap (λ fuel. digits left_over on_digits fuel a b) next
      ∙ one_more_fuel (extra + a) a b (omega arith)
      ∙ more_fuel extra a b

  lowest_digit :
      (a b : ℕ)
      → bitwise left_over on_digits (suc a) b
        ≡ on_digits (suc a % 2) (b % 2) + 2 * bitwise left_over on_digits (suc a / 2) (b / 2)
  lowest_digit a b = omega (
    arith,
    ap (λ fuel. digits left_over on_digits fuel (suc a / 2) (b / 2)) (fuel_splits a),
    more_fuel (a - suc a / 2) (suc a / 2) (b / 2),
  )

-- The lowest digit of `&` and `|`, and the digits above it.
pub bit_and_step : (a b : ℕ) → bit_and a b ≡ min (a % 2) (b % 2) + 2 * bit_and (a / 2) (b / 2)
bit_and_step zero b = simp bit_and-bitwise (omega arith)
bit_and_step (suc a) b = simp bit_and-bitwise (lowest_digit (λ y. 0) min a b)

pub bit_or_step : (a b : ℕ) → bit_or a b ≡ max (a % 2) (b % 2) + 2 * bit_or (a / 2) (b / 2)
bit_or_step zero b = simp bit_or-bitwise (omega arith)
bit_or_step (suc a) b = simp bit_or-bitwise (lowest_digit (λ y. y) max a b)

with_zero : (bound a : ℕ) → a ≤ bound → (bit_and a 0 ≡ 0) × (bit_or a 0 ≡ a)
with_zero bound zero h = (refl, refl)
with_zero zero (suc a) h = absurd (omega arith)
with_zero (suc bound) (suc a) h =
    let above = with_zero bound (suc a / 2) (omega arith) in
    (omega (arith, bit_and_step (suc a) 0, above.0), omega (arith, bit_or_step (suc a) 0, above.1))

pub bit_and-zero : (a : ℕ) → bit_and a 0 ≡ 0
bit_and-zero a = (with_zero a a (omega arith)).0

pub bit_or-zero : (a : ℕ) → bit_or a 0 ≡ a
bit_or-zero a = (with_zero a a (omega arith)).1

twice_shifted : (q k : ℕ) → q * 2 ^ suc k ≡ 2 * (q * 2 ^ k)
twice_shifted q k = omega (arith, ap (λ (t : ℕ). q * t) (pow-suc 2 k))

-- `(hi << k) | lo` is a sum when `lo` has at most `k` bits.
pub bit_or_shifted : (k hi lo : ℕ) → lo < 2 ^ k → bit_or (hi * 2 ^ k) lo ≡ hi * 2 ^ k + lo
bit_or_shifted zero hi lo fits = ground (arith, bit_or-zero hi)
bit_or_shifted (suc k) hi lo fits = ground (
  arith,
  bit_or_step (hi * 2 ^ suc k) lo,
  twice_shifted hi k,
  pow-suc 2 k,
  bit_or_shifted k hi (lo / 2) (omega (arith, pow-suc 2 k)),
)

pub zero-bit_or : (b : ℕ) → bit_or 0 b ≡ b
zero-bit_or b = bit_or-bitwise 0 b

-- The same with the fields the other way round.
pub bit_or_low_shifted : (k lo hi : ℕ) → lo < 2 ^ k → bit_or lo (hi * 2 ^ k) ≡ hi * 2 ^ k + lo
bit_or_low_shifted zero lo hi fits = ground (arith, zero-bit_or hi)
bit_or_low_shifted (suc k) lo hi fits = ground (
  arith,
  bit_or_step lo (hi * 2 ^ suc k),
  twice_shifted hi k,
  pow-suc 2 k,
  bit_or_low_shifted k (lo / 2) hi (omega (arith, pow-suc 2 k)),
)

-- A mask whose `k` low bits are clear looks only at `a >> k`.
pub bit_and_shifted : (k a m : ℕ) → bit_and a (m * 2 ^ k) ≡ bit_and (a / 2 ^ k) m * 2 ^ k
bit_and_shifted zero a m = ground arith
bit_and_shifted (suc k) a m = ground (
  arith,
  bit_and_step a (m * 2 ^ suc k),
  twice_shifted m k,
  twice_shifted (bit_and (a / 2 ^ suc k) m) k,
  bit_and_shifted k (a / 2) m,
  div-div-eq-div-mul a 2 (2 ^ k),
  pow-suc 2 k,
)

mod_two_mul : (d a : ℕ) → 1 ≤ d → a % (2 * d) ≡ 2 * (a / 2 % d) + a % 2
mod_two_mul d a h =
    ap (λ t. t % (2 * d)) split
    ∙ add-mul-mod_self_left (2 * (a / 2 % d) + a % 2) (2 * d) (a / 2 / d)
    ∙ mod-eq_of_lt (omega (arith, mod-lt (a / 2) {m = d} h))
  where
    split : a ≡ 2 * (a / 2 % d) + a % 2 + 2 * d * (a / 2 / d)
    split = omega (arith, mod-add-div (a / 2) d)

-- `a & (2 ^ k - 1)` keeps the `k` low bits.
pub bit_and_low : (k a : ℕ) → bit_and a (2 ^ k - 1) ≡ a % 2 ^ k
bit_and_low zero a = ground (arith, bit_and-zero a)
bit_and_low (suc k) a = ground (
  arith,
  bit_and_step a (2 ^ suc k - 1),
  pow-suc 2 k,
  one-le-pow k 2,
  bit_and_low k (a / 2),
  mod_two_mul (2 ^ k) a,
)

-- `|` works on the low bits alone.
pub bit_or-mod : (k a b : ℕ) → bit_or a b % 2 ^ k ≡ bit_or (a % 2 ^ k) (b % 2 ^ k)
bit_or-mod zero a b = ground arith
bit_or-mod (suc k) a b = ground (
  arith,
  bit_or_step a b,
  bit_or_step (a % 2 ^ suc k) (b % 2 ^ suc k),
  pow-suc 2 k,
  one-le-pow k 2,
  bit_or-mod k (a / 2) (b / 2),
  mod_two_mul (2 ^ k) a,
  mod_two_mul (2 ^ k) b,
  mod_two_mul (2 ^ k) (bit_or a b),
)

-- Bit `j` of a word, 0 or 1.
abbrev pub bit : ℕ → ℕ → ℕ
bit j a = a / 2 ^ j % 2

div_two_pow : (j a : ℕ) → a / 2 ^ suc j ≡ a / 2 / 2 ^ j
div_two_pow j a = ap (λ t. a / t) (pow-suc 2 j ∙ omega arith) ∙ sym (div-div-eq-div-mul a 2 (2 ^ j))

pub bit-bit_or : (j a b : ℕ) → bit j (bit_or a b) ≡ max (bit j a) (bit j b)
bit-bit_or zero a b = ground (arith, bit_or_step a b)
bit-bit_or (suc j) a b = ground (
  arith,
  bit_or_step a b,
  div_two_pow j a,
  div_two_pow j b,
  div_two_pow j (bit_or a b),
  bit-bit_or j (a / 2) (b / 2),
)

pub bit-bit_and : (j a b : ℕ) → bit j (bit_and a b) ≡ min (bit j a) (bit j b)
bit-bit_and zero a b = ground (arith, bit_and_step a b)
bit-bit_and (suc j) a b = ground (
  arith,
  bit_and_step a b,
  div_two_pow j a,
  div_two_pow j b,
  div_two_pow j (bit_and a b),
  bit-bit_and j (a / 2) (b / 2),
)

pub bit_self : (k : ℕ) → bit k (2 ^ k) ≡ 1
bit_self zero = refl
bit_self (suc k) = ground (arith, div_two_pow k (2 ^ suc k), pow-suc 2 k, bit_self k)

pub bit_other : (j k : ℕ) → j ≢ k → bit j (2 ^ k) ≡ 0
bit_other zero zero ne = absurd (ne refl)
bit_other zero (suc k) ne = ground (arith, pow-suc 2 k)
bit_other (suc j) zero ne = ground (arith, div_two_pow j 1, zero-div (2 ^ j))
bit_other (suc j) (suc k) ne =
    ground (arith, div_two_pow j (2 ^ suc k), pow-suc 2 k, bit_other j k (λ e. ne (ap suc e)))

-- A mask of one bit tests that bit.
pub bit_and-bit : (a k : ℕ) → bit_and a (2 ^ k) ≡ bit k a * 2 ^ k
bit_and-bit a k =
    ap (λ t. bit_and a t) (omega arith)
    ∙ bit_and_shifted k a 1
    ∙ ap (λ t. t * 2 ^ k) (bit_and_low 1 (a / 2 ^ k))

bit_and_comm_below : (n a b : ℕ) → a ≤ n → bit_and a b ≡ bit_and b a
bit_and_comm_below n zero b h = bit_and-bitwise 0 b ∙ sym (bit_and-zero b)
bit_and_comm_below zero (suc a) b h = absurd (omega arith)
bit_and_comm_below (suc n) (suc a) b h = omega (
  arith,
  bit_and_step (suc a) b,
  bit_and_step b (suc a),
  bit_and_comm_below n (suc a / 2) (b / 2) (omega arith),
)

pub bit_and_comm : (a b : ℕ) → bit_and a b ≡ bit_and b a
bit_and_comm a b = bit_and_comm_below a a b (omega arith)

-- Setting a bit that is set changes nothing.
pub bit_or_absorb : (k a : ℕ) → bit k a ≡ 1 → bit_or a (2 ^ k) ≡ a
bit_or_absorb zero a h = omega (arith, bit_or_step a 1, bit_or-zero (a / 2))
bit_or_absorb (suc k) a h =
    ground (arith, bit_or_step a (2 ^ suc k), pow-suc 2 k, div_two_pow k a, bit_or_absorb k (a / 2))
