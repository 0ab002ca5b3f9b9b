-- ===== src/Builder/Validate/Crcs.antt =====
-- Which bytes of the event buffer the CRCs of the waveforms are about, and what validation decides.
use fpga_tools.Prelude.{
  ℕ, zero, suc, ◌+◌, ◌*◌, ◌<◌, ◌≡◌, refl, ap, ◌∙◌, sym, ap₂, tabulate_ext, arith, List, ◌∷◌,
  tabulate, Memory, load32, swap32,
}
use fpga_tools.Builder.Header.{CeresTrigHeader}
use fpga_tools.Builder.Event.{EventBuffer, stash_offset}
use fpga_tools.Builder.Validate.{waveform_crcs, any_mismatch, ceres_validate_crcs}

module _ (crc32 : ℕ → List ℕ → ℕ) (m : Memory) (length : ℕ) where
  -- The CRC of the samples of a channel, and the word behind them in network order.
  abbrev pub calculated : ℕ → ℕ
  calculated channel = crc32 0 (tabulate (length * 4) (λ j. m (stash_offset channel 1 length + j)))

  abbrev pub given : ℕ → ℕ
  given channel = swap32 (load32 m (stash_offset channel (length + 1) length))

  -- Both of them.
  abbrev crcs_of : ℕ → ℕ × ℕ
  crcs_of channel = (calculated channel, given channel)

  offset-first : 24 ≡ stash_offset 0 1 length
  unfolding stash_offset
  offset-first = omega arith

  offset-next :
      (channel : ℕ)
      → stash_offset channel 1 length + (length + 2) * 4 ≡ stash_offset (channel + 1) 1 length
  unfolding stash_offset
  offset-next channel = grind arith

  offset-crc :
      (channel : ℕ)
      → stash_offset channel 1 length + length * 4 ≡ stash_offset channel (length + 1) length
  unfolding stash_offset
  offset-crc channel = omega arith

  waveform_crcs-eq :
      (left channel : ℕ)
      → waveform_crcs crc32 m length left (stash_offset channel 1 length)
        ≡ tabulate left (λ k. crcs_of (channel + k))
  unfolding waveform_crcs
  waveform_crcs-eq zero channel = refl
  waveform_crcs-eq (suc left) channel = ap₂ ◌∷◌ first (
      ap (waveform_crcs crc32 m length left) (offset-next channel)
      ∙ waveform_crcs-eq left (channel + 1)
      ∙ tabulate_ext left _ _ (λ i h. ap crcs_of (omega arith)))
    where
      stored : ℕ → ℕ × ℕ
      stored w = (calculated channel, swap32 (load32 m w))

      first : stored (stash_offset channel 1 length + length * 4) ≡ crcs_of (channel + 0)
      first = ap stored (offset-crc channel) ∙ ap crcs_of (omega arith)

agree-head :
    (n : ℕ) (f g : ℕ → ℕ)
    → any_mismatch (tabulate (suc n) (λ k. (f k, g k))) ≡ 0
    → (f 0 ≡ g 0) × (any_mismatch (tabulate n (λ k. (f (suc k), g (suc k)))) ≡ 0)
unfolding any_mismatch
agree-head n f g e = ground arith

any_mismatch-agree :
    (n : ℕ) (f g : ℕ → ℕ)
    → any_mismatch (tabulate n (λ k. (f k, g k))) ≡ 0
    → (i : ℕ) → i < n
    → f i ≡ g i
any_mismatch-agree zero f g e i h = ground arith
any_mismatch-agree (suc n) f g e zero h = (agree-head n f g e).0
any_mismatch-agree (suc n) f g e (suc i) h =
    any_mismatch-agree n (λ k. f (suc k)) (λ k. g (suc k)) (agree-head n f g e).1 i (omega arith)

agree-any_mismatch :
    (n : ℕ) (f g : ℕ → ℕ)
    → ((i : ℕ) → i < n → f i ≡ g i)
    → any_mismatch (tabulate n (λ k. (f k, g k))) ≡ 0
unfolding any_mismatch
agree-any_mismatch zero f g h = refl
agree-any_mismatch (suc n) f g h = ground (
  arith,
  h 0 (omega arith),
  agree-any_mismatch n (λ k. f (suc k)) (λ k. g (suc k)) (λ i p. h (suc i) (omega arith)),
)

-- ceres_validate_crcs returns 0 exactly if for each of the 16 channels the CRC of its samples in
-- the event buffer is the word that the data builder stored behind them, for any crc32.
pub ceres_validate_crcs_lem :
    (crc32 : ℕ → List ℕ → ℕ) (header : CeresTrigHeader) (eb : EventBuffer)
    → let result = ceres_validate_crcs crc32 header eb in
      let crc = calculated crc32 eb.bytes header.length in
      let word = given crc32 eb.bytes header.length in
      (result ≡ 0 → (channel : ℕ) → channel < 16 → crc channel ≡ word channel)
      × (((channel : ℕ) → channel < 16 → crc channel ≡ word channel) → result ≡ 0)
unfolding ceres_validate_crcs
ceres_validate_crcs_lem crc32 header eb =
    (λ e. any_mismatch-agree 16 _ _ (sym crcs ∙ e), λ h. crcs ∙ agree-any_mismatch 16 _ _ h)
  where
    n : ℕ
    n = header.length

    crcs :
        any_mismatch (waveform_crcs crc32 eb.bytes n 16 24)
        ≡ any_mismatch (tabulate 16 (crcs_of crc32 eb.bytes n))
    crcs = ap any_mismatch (
        ap (waveform_crcs crc32 eb.bytes n 16) (offset-first crc32 eb.bytes n)
        ∙ waveform_crcs-eq crc32 eb.bytes n 16 0
        ∙ tabulate_ext 16 _ (crcs_of crc32 eb.bytes n)
            (λ i h. ap (crcs_of crc32 eb.bytes n) {x = 0 + i} {y = i} (omega arith)))
