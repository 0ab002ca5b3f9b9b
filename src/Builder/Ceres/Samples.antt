-- ===== src/Builder/Ceres/Samples.antt =====
-- The samples of a CERES word: differences in two's complement, added up modulo 2 ^ 16, packed two
-- to a word with the valid bit on top of the first.
use fpga_tools.Prelude.{
  ℕ, ◌+◌, ◌-◌, ◌*◌, ◌/◌, ◌%◌, ◌^◌, ◌<◌, ◌≡◌, refl, ap, ap₂, ◌∙◌, Bool, true, false, arith,
}
use fpga_tools.Prelude.{ltb, ◌==◌, if◌then◌else◌, bit_and, bit_or, u8, u16, u32, ◌<<<◌, ◌>>>◌}
use fpga_tools.Prelude.{
  bit_and_low, bit_and_shifted, bit_or_shifted, bit_or_low_shifted, bit_or-mod, zero-bit_or,
}
use native.Mathlib.Nat.{mul-div_left, one-le-pow}
use fpga_tools.Builder.Event.{stash_with_reorder}
use fpga_tools.Builder.Ceres.{
  Unpacking, sext8, sext16, shr16, difference5, compressed_round, plain_first, plain_second,
  plain_pair,
}

-- The number of `w` bits, read in two's complement, as a 16-bit pattern.
abbrev pub signed : ℕ → ℕ → ℕ
signed w d = if ltb d (2 ^ (w - 1)) then d else d + 2 ^ 16 - 2 ^ w

field_of : (word k : ℕ) → bit_and word (0x1F <<< k) >>> k ≡ word / 2 ^ k % 32
field_of word k =
    ap (λ t. t / 2 ^ k) (bit_and_shifted k word 31)
    ∙ mul-div_left (bit_and (word / 2 ^ k) 31) (one-le-pow k 2 (omega arith))
    ∙ bit_and_low 5 (word / 2 ^ k)

shift_back : (d : ℕ) → d < 32 → shr16 (sext8 (u8 (d <<< 3))) 3 ≡ signed 5 d
shift_back d h = ground arith

-- The differences of a compressed word are its 5-bit fields in two's complement.
pub difference5-eq : (word i : ℕ) → difference5 word i ≡ signed 5 (word / 2 ^ (i * 5) % 32)
unfolding difference5
difference5-eq word i =
    rw (field_of word (i * 5)) (shift_back (word / 2 ^ (i * 5) % 32) (omega arith))

-- The first sample of a plain word is its upper 14-bit field at the start of a channel, and
-- otherwise the previous sample plus that field in two's complement, modulo 2 ^ 16.
pub plain_first-eq :
    (word samples_read prev : ℕ)
    → plain_first word samples_read prev ≡ (
        if samples_read == 0
        then word / 2 ^ 16 % 2 ^ 14
        else (prev + signed 14 (word / 2 ^ 16 % 2 ^ 14)) % 2 ^ 16)
unfolding plain_first
plain_first-eq word samples_read prev = ground (arith, bit_and_low 14 (word / 2 ^ 16))

-- The second sample of a plain word is the first one plus the lower 14-bit field in two's
-- complement, modulo 2 ^ 16.
pub plain_second-eq :
    (word prev : ℕ) → plain_second word prev ≡ (prev + signed 14 (word % 2 ^ 14)) % 2 ^ 16
unfolding plain_second
plain_second-eq word prev = rw (bit_and_low 14 word) (ground arith)

valid_bit-eq : (word : ℕ) → word < 2 ^ 32 → bit_and word 0x80000000 >>> 16 ≡ word / 2 ^ 31 * 2 ^ 15
valid_bit-eq word h = omega (arith, bit_and_shifted 31 word 1, bit_and_low 1 (word / 2 ^ 31))

-- The samples of a plain 32-bit word, if both are below 2 ^ 15, are packed with the first sample
-- and the valid bit in the upper half and the second sample in the lower half.
pub plain_pair-eq :
    (word first second : ℕ)
    → word < 2 ^ 32
    → first < 2 ^ 15
    → second < 2 ^ 15
    → plain_pair word first second ≡ (word / 2 ^ 31 * 2 ^ 15 + first) * 2 ^ 16 + second
unfolding plain_pair
plain_pair-eq word first second hw hf hs =
    let top = word / 2 ^ 31 * 2 ^ 15 + first in
    ground (
      arith,
      valid_bit-eq word hw,
      bit_or_low_shifted 15 first (word / 2 ^ 31) hf,
      bit_or_shifted 16 top second (omega arith),
    )

fits : (x : ℕ) → x < 2 ^ 16 → x % 2 ^ 16 ≡ x
fits x h = omega arith

upper_in : (old m : ℕ) → m < 2 ^ 16 → bit_or (u32 (old <<< 16)) (sext16 m) % 2 ^ 16 ≡ m
upper_in old m h = ground (arith, bit_or-mod 16 (u32 (old <<< 16)) (sext16 m), zero-bit_or m)

lower_in :
    (p m s : ℕ) → p % 2 ^ 16 ≡ m → s < 2 ^ 15 → bit_or (u32 (p <<< 16)) (sext16 s) ≡ m * 2 ^ 16 + s
lower_in p m s e h = ground (arith, bit_or_shifted 16 m s (omega arith))

-- Two rounds of the loop over a compressed 32-bit word add two differences to the previous sample
-- and stash the pair of sums, the first marked with the valid bit, if the second sum is below 2 ^
-- 15.
pub compressed_pair :
    (word channel_length : ℕ) (is_even : Bool) (j : ℕ) (u : Unpacking)
    → word < 2 ^ 32
    → u16 (u16 (u.event.prev_sample + difference5 word (2 * j + 1)) + difference5 word (2 * j))
      < 2 ^ 15
    → let first = u16 (u.event.prev_sample + difference5 word (2 * j + 1)) in
      let second = u16 (first + difference5 word (2 * j)) in
      let u' =
        compressed_round word channel_length is_even
          (2 * j)
          (compressed_round word channel_length is_even (2 * j + 1) u) in
      (u'.event.prev_sample ≡ second)
      × (u'.event.samples_read ≡ u.event.samples_read + 1)
      × (u'.event_buffer
          ≡ stash_with_reorder u.event_buffer
              (bit_or first (word / 2 ^ 31 * 2 ^ 15) * 2 ^ 16 + second)
              u.event.current_channel
              (u.event.samples_read + 1)
              channel_length
              is_even)
unfolding compressed_round
compressed_pair word len is_even j u hw hs =
    simp
      (
        odd,
        even,
        valid_bit-eq word hw,
        lower_in _ marked second (upper_in u.sample_pair marked marked-lt) hs,
      )
      (refl, refl, refl)
  where
    first : ℕ
    first = u16 (u.event.prev_sample + difference5 word (2 * j + 1))

    second : ℕ
    second = u16 (first + difference5 word (2 * j))

    marked : ℕ
    marked = bit_or first (word / 2 ^ 31 * 2 ^ 15)

    marked-lt : marked < 2 ^ 16
    marked-lt = omega (
      arith,
      bit_or-mod 16 first (word / 2 ^ 31 * 2 ^ 15),
      ap₂ bit_or (fits first (omega arith)) (fits (word / 2 ^ 31 * 2 ^ 15) (omega arith)),
    )

    odd : ((2 * j + 1) % 2 == 0) ≡ false
    odd = ground arith

    even : (2 * j % 2 == 0) ≡ true
    even = ground arith
