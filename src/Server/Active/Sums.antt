-- ===== src/Server/Active/Sums.antt =====
-- The set bits of a mask, which fakernet_code/ceres_server.c counts, as sums.
use fpga_tools.Prelude.{
  ℕ, zero, suc, ◌+◌, ◌*◌, ◌^◌, ◌≤◌, ◌<◌, ◌≡◌, ◌⊎◌, inl, inr, refl, sym, ap, ◌∙◌, arith, ◌==◌,
  bit_and, bit, bit_and-bit,
}
use native.Mathlib.Nat.{one-le-pow}
use fpga_tools.Server.Active.{count_set_bits}

-- The number of set bits, as a sum.
pub le-cases : (i j : ℕ) → i ≤ j → (i ≡ j) ⊎ (suc i ≤ j)
le-cases i j h = ground arith

unfoldable pub bits_from : ℕ → ℕ → ℕ → ℕ
bits_from mask i zero = 0
bits_from mask i (suc n) = bit i mask + bits_from mask (suc i) n

-- A mask of one bit tests that bit.
product_zero : (b t : ℕ) → b < 2 → 1 ≤ t → (b * t == 0) ≡ (b == 0)
product_zero zero t small pos = ground arith
product_zero (suc zero) t small pos = ground arith
product_zero (suc (suc b)) t small pos = absurd (omega arith)

pub tests_bit : (mask i : ℕ) → (bit_and mask (2 ^ i) == 0) ≡ (bit i mask == 0)
tests_bit mask i =
    ap (λ t. t == 0) (bit_and-bit mask i)
    ∙ product_zero (bit i mask) (2 ^ i) (omega arith) (one-le-pow i 2 (omega arith))

pub count_set_bits_sum : (mask i n : ℕ) → count_set_bits mask i n ≡ bits_from mask i n
unfolding count_set_bits bits_from
count_set_bits_sum mask i zero = refl
count_set_bits_sum mask i (suc n) =
    ground (arith, tests_bit mask i, count_set_bits_sum mask (suc i) n)

pub bits_from-append :
    (mask i j m n : ℕ)
    → i + m ≡ j
    → bits_from mask i (m + n) ≡ bits_from mask i m + bits_from mask j n
unfolding bits_from
bits_from-append mask i j zero n meet =
    let here : i ≡ j = omega arith in
    let alone : 0 + n ≡ n = omega arith in
    omega (arith, ap (bits_from mask i) alone, ap (λ t. bits_from mask t n) here)
bits_from-append mask i j (suc m) n meet =
    let next : suc m + n ≡ suc (m + n) = omega arith in
    omega (arith, ap (bits_from mask i) next, bits_from-append mask (suc i) j m n (omega arith))

pub bits_from_bound : (mask i n : ℕ) → bits_from mask i n ≤ n
unfolding bits_from
bits_from_bound mask i zero = omega arith
bits_from_bound mask i (suc n) = omega (arith, bits_from_bound mask (suc i) n)

pub bits_from_clear : (mask i n j : ℕ) → bits_from mask i n ≡ 0 → i ≤ j → j < i + n → bit j mask ≡ 0
unfolding bits_from
bits_from_clear mask i zero j clear from below = absurd (omega arith)
bits_from_clear mask i (suc n) j clear from below = elim (le-cases i j from) [
  | inl same ↦ ap (λ t. bit t mask) (sym same) ∙ omega arith
  | inr above ↦ bits_from_clear mask (suc i) n j (omega arith) above (omega arith)
]

pub bits_from_none :
    (mask i n : ℕ) → ((j : ℕ) → i ≤ j → j < i + n → bit j mask ≡ 0) → bits_from mask i n ≡ 0
unfolding bits_from
bits_from_none mask i zero clear = refl
bits_from_none mask i (suc n) clear = omega (
  arith,
  clear i (omega arith) (omega arith),
  bits_from_none mask (suc i) n (λ j from below. clear j (omega arith) (omega arith)),
)
