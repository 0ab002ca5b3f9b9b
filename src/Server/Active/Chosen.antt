-- ===== src/Server/Active/Chosen.antt =====
-- What set_active_xem_mask of fakernet_code/ceres_server.c leaves active.
use fpga_tools.Prelude.{
  ℕ, ◌+◌, ◌^◌, ◌≤◌, ◌<◌, ◌≡◌, ◌⊎◌, inl, inr, refl, sym, ap, ◌∙◌, arith, Bool-cases, Bool, false,
  Option, List, ltb, ◌==◌, bit,
}
use mathlib.Core.Path.{subst}
use native.Mathlib.Nat.{zero-div}
use Prim.Native.String.{String}
use fpga_tools.Commands.{Reply, ok, error}
use fpga_tools.Server.Active.{
  xems, length, count_set_bits, requested_xems, set_bits, choose_xems, answer_choice, num_xems,
}
use fpga_tools.Server.Active.Lists.{available_from, set_bits_there}
use fpga_tools.Server.Active.Available.{
  AllAvailable, available, unavailable, few_available, counts_agree, all_counted,
}

-- Bit `k` of the places is that of the device with id `4 + k`.
unfoldable AreChosen : ℕ → ℕ → Type 0
AreChosen mask places = (k : ℕ) → k < 8 → bit k places ≡ bit (4 + k) mask

-- The branches of the answer.
answer_agrees :
    (mask count : ℕ) (lists : List ℕ × List ℕ)
    → (mask == 0) ≡ false
    → count ≤ 8
    → length lists.0 ≡ count
    → answer_choice mask count lists ≡ (ok, set_bits 0 lists.0)
unfolding answer_choice
answer_agrees mask count lists some_mask few agree = ground arith

answer_differs :
    (mask count : ℕ) (lists : List ℕ × List ℕ)
    → (mask == 0) ≡ false
    → (length lists.0 == count) ≡ false
    → (message : String) × (answer_choice mask count lists ≡ (error message, 0))
unfolding answer_choice
answer_differs mask count lists some_mask differ = elim (Bool-cases (ltb num_xems count)) [
  | inl many ↦ ("Too many XEMs requested in active mask", ground arith)
  | inr few ↦ elim (Bool-cases (ltb 0 (length lists.1))) [
    | inl some_unavailable ↦ ("XEM(s) aren't connected", ground arith)
    | inr all ↦ ("One or more requested XEMs isn't valid", ground arith)
  ]
]

module _ (dummy_mode : Bool) (clients : ℕ → Option ℕ) where
  -- What an answer says of the boards.
  unfoldable pub IsRight : ℕ → Reply × ℕ → Type 0
  unfolding AllAvailable AreChosen
  IsRight mask (reply, places) =
      (AllAvailable dummy_mode clients mask × (reply ≡ ok) × AreChosen mask places)
      ⊎ ((¬ AllAvailable dummy_mode clients mask)
          × ((message : String) × (reply ≡ error message))
          × (places ≡ 0))

  answer_accepted :
      (mask : ℕ)
      → (mask == 0) ≡ false
      → length (available dummy_mode clients mask) ≡ count_set_bits mask 0 32
      → IsRight mask (choose_xems dummy_mode clients mask)
  unfolding IsRight choose_xems AreChosen available available_from unavailable
  answer_accepted mask some_mask agree =
      let lists = requested_xems dummy_mode mask 0 (xems clients) in
      let count = count_set_bits mask 0 32 in
      let answer =
        answer_agrees mask count lists some_mask
          (omega (arith, few_available dummy_mode clients mask)) agree in
      let nothing =
        (all_counted dummy_mode clients mask (counts_agree dummy_mode clients mask agree)).1 in
      inl (
        counts_agree dummy_mode clients mask agree,
        ap (λ t. t.0) answer,
        λ k small.
            ap (λ t. bit k t.1) answer
            ∙ set_bits_there dummy_mode clients mask 0 0 8 k nothing (omega arith) small
            ∙ omega (arith, zero-div (2 ^ k)),
      )

  answer_refused :
      (mask : ℕ)
      → (mask == 0) ≡ false
      → (length (available dummy_mode clients mask) == count_set_bits mask 0 32) ≡ false
      → IsRight mask (choose_xems dummy_mode clients mask)
  unfolding IsRight choose_xems AreChosen available available_from
  answer_refused mask some_mask differ =
      let (message, answer) =
        answer_differs mask (count_set_bits mask 0 32)
          (requested_xems dummy_mode mask 0 (xems clients)) some_mask differ in
      inr (
        (λ each. absurd (ground (arith, (all_counted dummy_mode clients mask each).0))),
        (message, ap (λ t. t.0) answer),
        ap (λ t. t.1) answer,
      )

  nothing_asked : IsRight 0 (choose_xems dummy_mode clients 0)
  unfolding IsRight choose_xems AreChosen AllAvailable answer_choice
  nothing_asked = inl (
    (λ j below set. absurd (omega (arith, zero-div (2 ^ j)))),
    refl,
    λ k small. omega (arith, zero-div (2 ^ k), zero-div (2 ^ (4 + k))),
  )

  -- Of ceres_server's answer to a mask of device ids, for any clients of the eight boards, in
  -- dummy mode or not: either each of the 32 bits that is set is the id of a board that is
  -- available, the reply is OK, and place k is active exactly if bit 4 + k of the mask is set; or
  -- that is not so, the reply is an error, and no place is active.
  pub choose_xems-IsRight : (mask : ℕ) → IsRight mask (choose_xems dummy_mode clients mask)
  choose_xems-IsRight mask = elim (Bool-cases (mask == 0)) [
    | inl zero_mask ↦
        let is_zero : mask ≡ 0 = ground arith in
        subst (λ m. IsRight m (choose_xems dummy_mode clients m)) (sym is_zero) nothing_asked
    | inr some_mask ↦
        elim (Bool-cases (length (available dummy_mode clients mask) == count_set_bits mask 0 32)) [
          | inl agree ↦ answer_accepted mask some_mask (ground arith)
          | inr differ ↦ answer_refused mask some_mask differ
        ]
  ]
