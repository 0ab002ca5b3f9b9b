-- ===== src/Server/Active/Lists.antt =====
-- The lists of boards that set_active_xem_mask of fakernet_code/ceres_server.c makes.
use fpga_tools.Prelude.{
  ℕ, zero, suc, ◌+◌, ◌^◌, ◌≤◌, ◌<◌, ◌≡◌, ◌≢◌, inl, inr, refl, sym, ap, ◌∙◌, arith, Bool, true,
  Option, List, bit_or, bit, bit-bit_or, bit_self, bit_other,
}
use Prim.Native.Nat.{max}
use fpga_tools.Server.Active.{xems_from, length, is_available, requested_xems, set_bits}
use fpga_tools.Server.Active.Sums.{le-cases, tests_bit, bits_from}

module _ (dummy_mode : Bool) (clients : ℕ → Option ℕ) (mask : ℕ) where
  unfoldable pub available_from : ℕ → ℕ → List ℕ
  available_from i n = (requested_xems dummy_mode mask i (xems_from clients i n)).0

  unfoldable pub unavailable_from : ℕ → ℕ → List ℕ
  unavailable_from i n = (requested_xems dummy_mode mask i (xems_from clients i n)).1

  -- Every board that is asked for is in one of the lists.
  pub split_lengths :
      (i n : ℕ)
      → length (available_from i n) + length (unavailable_from i n) ≡ bits_from mask (4 + i) n
  unfolding available_from unavailable_from requested_xems xems_from length bits_from
  split_lengths i zero = refl
  split_lengths i (suc n) = ground (arith, tests_bit mask (4 + i), split_lengths (suc i) n)

  -- The ones that are not available are those whose bit is set.
  pub none_unavailable :
      (i n k : ℕ)
      → length (unavailable_from i n) ≡ 0
      → i ≤ k
      → k < i + n
      → bit (4 + k) mask ≡ 1
      → is_available dummy_mode (clients k) ≡ true
  unfolding unavailable_from requested_xems xems_from length
  none_unavailable i zero k empty from below set = absurd (omega arith)
  none_unavailable i (suc n) k empty from below set = elim (le-cases i k from) [
    | inl same ↦
        let there = ap (λ t. bit (4 + t) mask) same in
        ground (arith, tests_bit mask (4 + i), there, ap clients same)
    | inr above ↦ ground (arith, none_unavailable (suc i) n k)
  ]

  pub all_available :
      (i n : ℕ)
      → ((k : ℕ)
          → i ≤ k
          → k < i + n
          → bit (4 + k) mask ≡ 1
          → is_available dummy_mode (clients k) ≡ true)
      → length (unavailable_from i n) ≡ 0
  unfolding unavailable_from requested_xems xems_from length
  all_available i zero each = refl
  all_available i (suc n) each = ground (
    arith,
    tests_bit mask (4 + i),
    each i (omega arith) (omega arith),
    all_available (suc i) n (λ k from below. each k (omega arith) (omega arith)),
  )

  -- The places below the first board keep their bits.
  set_bits_below : (m i n k : ℕ) → k < i → bit k (set_bits m (available_from i n)) ≡ bit k m
  unfolding available_from requested_xems xems_from set_bits
  set_bits_below m i zero k below = refl
  set_bits_below m i (suc n) k below =
      let apart : k ≢ i = λ same. absurd (omega (arith, same)) in
      ground (
        arith,
        bit-bit_or k m (2 ^ i),
        bit_other k i apart,
        set_bits_below m (suc i) n k (omega arith),
        set_bits_below (bit_or m (2 ^ i)) (suc i) n k (omega arith),
      )

  set_bits_first :
      (m i n : ℕ)
      → length (unavailable_from i (suc n)) ≡ 0
      → bit i (set_bits m (available_from i (suc n))) ≡ max (bit i m) (bit (4 + i) mask)
  unfolding available_from unavailable_from requested_xems xems_from set_bits length
  set_bits_first m i n empty = ground (
    arith,
    tests_bit mask (4 + i),
    bit-bit_or i m (2 ^ i),
    bit_self i,
    set_bits_below m (suc i) n i (omega arith),
    set_bits_below (bit_or m (2 ^ i)) (suc i) n i (omega arith),
  )

  -- The others are set if they are in the mask.
  pub set_bits_there :
      (m i n k : ℕ)
      → length (unavailable_from i n) ≡ 0
      → i ≤ k
      → k < i + n
      → bit k (set_bits m (available_from i n)) ≡ max (bit k m) (bit (4 + k) mask)
  unfolding available_from unavailable_from requested_xems xems_from set_bits length
  set_bits_there m i zero k empty from below = absurd (omega arith)
  set_bits_there m i (suc n) k empty from below = elim (le-cases i k from) [
    | inl same ↦
        ap (λ t. bit t (set_bits m (available_from i (suc n)))) (sym same)
        ∙ set_bits_first m i n empty
        ∙ ap (λ t. max (bit t m) (bit (4 + t) mask)) same
    | inr above ↦
        let apart : k ≢ i = λ same. absurd (omega (arith, same)) in
        ground (
          arith,
          bit-bit_or k m (2 ^ i),
          bit_other k i apart,
          set_bits_there m (suc i) n k,
          set_bits_there (bit_or m (2 ^ i)) (suc i) n k,
        )
  ]
