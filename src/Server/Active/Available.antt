-- ===== src/Server/Active/Available.antt =====
-- When set_active_xem_mask of fakernet_code/ceres_server.c finds every board that it is asked for.
use fpga_tools.Prelude.{
  ℕ, ◌+◌, ◌≤◌, ◌<◌, ◌≡◌, ◌-◌, ◌⊎◌, inl, inr, refl, sym, ap, ◌∙◌, arith, Bool-cases, ltb→lt, Bool,
  true, Option, List, ltb, bit,
}
use fpga_tools.Server.Active.{length, count_set_bits, is_available}
use fpga_tools.Server.Active.Sums.{
  bits_from, count_set_bits_sum, bits_from-append, bits_from_bound, bits_from_clear, bits_from_none,
}
use fpga_tools.Server.Active.Lists.{
  available_from, unavailable_from, split_lengths, none_unavailable, all_available,
}

where_is : (j : ℕ) → (j < 4) ⊎ (((k : ℕ) × (k < 8) × (j ≡ 4 + k)) ⊎ (12 ≤ j))
where_is j = elim (Bool-cases (ltb j 4)) [
  | inl low ↦ inl (ltb→lt j 4 low)
  | inr high ↦ elim (Bool-cases (ltb j 12)) [
    | inl low ↦ inr (inl (j - 4, ground arith, ground arith))
    | inr above ↦ inr (inr (ground arith))
  ]
]

bit-cases : (j mask : ℕ) → (bit j mask ≡ 0) ⊎ (bit j mask ≡ 1)
bit-cases j mask = of_digit (bit j mask) (omega arith)
  where
    of_digit : (b : ℕ) → b < 2 → (b ≡ 0) ⊎ (b ≡ 1)
    of_digit b small = ground arith

-- Every board that is asked for is there.
unfoldable pub AllAvailable : Bool → (ℕ → Option ℕ) → ℕ → Type 0
AllAvailable dummy_mode clients mask =
    (j : ℕ)
    → j < 32
    → bit j mask ≡ 1
    → (k : ℕ) × (k < 8) × (j ≡ 4 + k) × (is_available dummy_mode (clients k) ≡ true)

module _ (dummy_mode : Bool) (clients : ℕ → Option ℕ) (mask : ℕ) where
  unfoldable pub available : List ℕ
  available = available_from dummy_mode clients mask 0 8

  unfoldable pub unavailable : List ℕ
  unavailable = unavailable_from dummy_mode clients mask 0 8

  -- The requested boards, by where their bits stand.
  requested_sum :
      count_set_bits mask 0 32
      ≡ bits_from mask 0 4 + (length available + length unavailable) + bits_from mask 12 20
  unfolding available unavailable
  requested_sum = omega (
    arith,
    count_set_bits_sum mask 0 32,
    bits_from-append mask 0 4 4 28 refl,
    bits_from-append mask 4 12 8 20 refl,
    split_lengths dummy_mode clients mask 0 8,
  )

  pub few_available : length available ≤ 8
  unfolding available length
  few_available = omega (arith, split_lengths dummy_mode clients mask 0 8, bits_from_bound mask 4 8)

  pub counts_agree :
      length available ≡ count_set_bits mask 0 32 → AllAvailable dummy_mode clients mask
  unfolding AllAvailable unavailable
  counts_agree agree j below set =
      let at = λ (t : ℕ). bit t mask in
      elim (where_is j) [
        | inl low ↦ absurd (
            omega
              (arith, bits_from_clear mask 0 4 j (omega (arith, requested_sum)) (omega arith) low))
        | inr (inl (k, small, place)) ↦ (
          k,
          small,
          place,
          none_unavailable dummy_mode clients mask 0 8 k (omega (arith, requested_sum))
              (omega arith) small (ap at (sym place) ∙ set),
        )
        | inr (inr high) ↦
            absurd (
              omega (arith, bits_from_clear mask 12 20 j (omega (arith, requested_sum)) high below))
      ]

  module _ (each : AllAvailable dummy_mode clients mask) where
    bit_elsewhere : (j : ℕ) → j < 32 → (j < 4) ⊎ (12 ≤ j) → bit j mask ≡ 0
    unfolding AllAvailable
    bit_elsewhere j below out = elim (bit-cases j mask) [
      | inl clear ↦ clear
      | inr set ↦ let (k, small, place, there) = each j below set in absurd (ground arith)
    ]

    each_available :
        (k : ℕ) → k < 8 → bit (4 + k) mask ≡ 1 → is_available dummy_mode (clients k) ≡ true
    unfolding AllAvailable
    each_available k small set =
        let (k', small', place, there) = each (4 + k) (omega arith) set in
        let same : k ≡ k' = omega arith in
        ap (λ t. is_available dummy_mode (clients t)) same ∙ there

    pub all_counted : (length available ≡ count_set_bits mask 0 32) × (length unavailable ≡ 0)
    unfolding unavailable
    all_counted =
        let nothing =
          all_available dummy_mode clients mask 0 8
            (λ k from below. each_available k (omega arith)) in
        let low =
          bits_from_none mask 0 4
            (λ j from below. bit_elsewhere j (omega arith) (inl (omega arith))) in
        let high =
          bits_from_none mask 12 20 (λ j from below. bit_elsewhere j (omega arith) (inr from)) in
        (omega (arith, requested_sum, nothing, low, high), nothing)
