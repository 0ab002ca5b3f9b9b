-- ===== src/Builder/Header/Laws.antt =====
-- Headers survive writing and reading back, and the CRCs cover the bytes that are written.
use fpga_tools.Prelude.{
  ℕ, suc, ◌+◌, ◌-◌, ◌*◌, ◌/◌, ◌%◌, ◌^◌, ◌<◌, ◌≡◌, refl, ◌∙◌, arith, List, [], ◌∷◌, take, drop,
  Memory, be32,
}
use fpga_tools.Prelude.{
  bit_and, bit_xor, ◌>>>◌, swap16, swap32, swap64, bit_and_low, bit_and_shifted, bit_or_shifted,
  bit_or_low_shifted,
}
use mathlib.Core.List.{foldl}
use fpga_tools.Builder.Header.{
  FontusTrigHeader, CeresTrigHeader, set_high, set_low, fontus_interpret_header_word,
  fontus_write_to_disk, calc_fontus_header_crc, calc_ceres_header_crc,
}

-- Every field has the width of its C type.
pub record IsFontusHeader (h : FontusTrigHeader) : Type 0 where
  pub magic_number : h.magic_number < 2 ^ 32
  pub trig_number : h.trig_number < 2 ^ 32
  pub clock : h.clock < 2 ^ 64
  pub length : h.length < 2 ^ 16
  pub device_number : h.device_number < 2 ^ 8
  pub trigger_flags : h.trigger_flags < 2 ^ 8
  pub self_trigger_word : h.self_trigger_word < 2 ^ 32
  pub beam_trigger_time : h.beam_trigger_time < 2 ^ 64
  pub led_trigger_time : h.led_trigger_time < 2 ^ 64
  pub ct_time : h.ct_time < 2 ^ 64
  pub crc : h.crc < 2 ^ 32

-- The words of a byte sequence in network order; bytes that fill no word are dropped.
abbrev pub words : List ℕ → List ℕ
words (a ∷ b ∷ c ∷ d ∷ rest) = be32 a b c d ∷ words rest
words _ = []

-- The header words in order, as the readers hand them over.
abbrev pub interpret_words : ℕ → List ℕ → FontusTrigHeader → FontusTrigHeader
interpret_words i [] h = h
interpret_words i (w ∷ ws) h = interpret_words (suc i) ws (fontus_interpret_header_word h w i)

-- A 64-bit field from its two words, whatever it held before.
set_low-set_high :
    (x hi lo : ℕ) → hi < 2 ^ 32 → lo < 2 ^ 32 → set_low (set_high x hi) lo ≡ hi * 2 ^ 32 + lo
set_low-set_high x hi lo hhi hlo =
    rw
      (
        bit_and_low 32 x,
        bit_or_low_shifted 32 (x % 2 ^ 32) hi (omega arith),
        bit_and_shifted 32 (hi * 2 ^ 32 + x % 2 ^ 32) (2 ^ 32 - 1),
        bit_and_low 32 ((hi * 2 ^ 32 + x % 2 ^ 32) / 2 ^ 32),
        bit_or_shifted 32 ((hi * 2 ^ 32 + x % 2 ^ 32) / 2 ^ 32 % 2 ^ 32) lo hlo,
      )
      (omega arith)

-- The word that a reader makes of the four bytes of `w` in memory.
abbrev as_read : ℕ → ℕ
as_read w = be32 (w % 256) (w / 2 ^ 8 % 256) (w / 2 ^ 16 % 256) (w / 2 ^ 24 % 256)

as_read-swap32 : (w : ℕ) → w < 2 ^ 32 → as_read (swap32 w) ≡ w
unfolding swap32
as_read-swap32 w h = omega arith

as_read-swap64 :
    (w : ℕ)
    → w < 2 ^ 64
    → (as_read (swap64 w) ≡ w / 2 ^ 32) × (as_read (swap64 w / 2 ^ 32) ≡ w % 2 ^ 32)
unfolding swap64
as_read-swap64 w h = omega arith

as_read-swap16 :
    (l d f : ℕ)
    → l < 2 ^ 16
    → be32 (swap16 l % 256) (swap16 l / 2 ^ 8 % 256) d f ≡ l * 2 ^ 16 + d * 2 ^ 8 + f
unfolding swap16
as_read-swap16 l d f h = omega arith

-- The thirteen words of a written header.
fontus_words : FontusTrigHeader → List ℕ
fontus_words h =
    h.magic_number
    ∷ h.trig_number
    ∷ h.clock / 2 ^ 32
    ∷ h.clock % 2 ^ 32
    ∷ (h.length * 2 ^ 16 + h.device_number * 2 ^ 8 + h.trigger_flags)
    ∷ h.self_trigger_word
    ∷ h.beam_trigger_time / 2 ^ 32
    ∷ h.beam_trigger_time % 2 ^ 32
    ∷ h.led_trigger_time / 2 ^ 32
    ∷ h.led_trigger_time % 2 ^ 32
    ∷ h.ct_time / 2 ^ 32
    ∷ h.ct_time % 2 ^ 32
    ∷ h.crc
    ∷ []

words-fontus_write_to_disk :
    (h : FontusTrigHeader) (m : Memory)
    → IsFontusHeader h
    → words (fontus_write_to_disk h m) ≡ fontus_words h
unfolding fontus_write_to_disk fontus_words
words-fontus_write_to_disk h m v =
    rw
      (
        as_read-swap32 h.magic_number v.magic_number,
        as_read-swap32 h.trig_number v.trig_number,
        (as_read-swap64 h.clock v.clock).0,
        (as_read-swap64 h.clock v.clock).1,
        as_read-swap16 h.length h.device_number h.trigger_flags v.length,
        as_read-swap32 h.self_trigger_word v.self_trigger_word,
        (as_read-swap64 h.beam_trigger_time v.beam_trigger_time).0,
        (as_read-swap64 h.beam_trigger_time v.beam_trigger_time).1,
        (as_read-swap64 h.led_trigger_time v.led_trigger_time).0,
        (as_read-swap64 h.led_trigger_time v.led_trigger_time).1,
        (as_read-swap64 h.ct_time v.ct_time).0,
        (as_read-swap64 h.ct_time v.ct_time).1,
        as_read-swap32 h.crc v.crc,
      )
      refl

set_halves : (x w : ℕ) → w < 2 ^ 64 → set_low (set_high x (w / 2 ^ 32)) (w % 2 ^ 32) ≡ w
set_halves x w h =
    set_low-set_high x (w / 2 ^ 32) (w % 2 ^ 32) (omega arith) (omega arith) ∙ omega arith

length_word :
    (l d f : ℕ)
    → l < 2 ^ 16
    → d < 2 ^ 8
    → f < 2 ^ 8
    → let w = l * 2 ^ 16 + d * 2 ^ 8 + f in
      (bit_and w 0xFFFF0000 >>> 16 ≡ l) × (bit_and w 0xFF00 >>> 8 ≡ d) × (bit_and w 0xFF ≡ f)
length_word l d f hl hd hf =
    let w = l * 2 ^ 16 + d * 2 ^ 8 + f in
    (
      omega (arith, bit_and_shifted 16 w (2 ^ 16 - 1), bit_and_low 16 (w / 2 ^ 16)),
      omega (arith, bit_and_shifted 8 w 255, bit_and_low 8 (w / 2 ^ 8)),
      omega (arith, bit_and_low 8 w),
    )

interpret_words-fontus_words :
    (h h₀ : FontusTrigHeader) → IsFontusHeader h → interpret_words 0 (fontus_words h) h₀ ≡ h
unfolding fontus_interpret_header_word fontus_words
interpret_words-fontus_words h h₀ v =
    rw
      (
        set_halves h₀.clock h.clock v.clock,
        set_halves h₀.beam_trigger_time h.beam_trigger_time v.beam_trigger_time,
        set_halves h₀.led_trigger_time h.led_trigger_time v.led_trigger_time,
        set_halves h₀.ct_time h.ct_time v.ct_time,
        (length_word h.length h.device_number h.trigger_flags v.length v.device_number
            v.trigger_flags).0,
        (length_word h.length h.device_number h.trigger_flags v.length v.device_number
            v.trigger_flags).1,
        (length_word h.length h.device_number h.trigger_flags v.length v.device_number
            v.trigger_flags).2,
      )
      refl

-- The bytes that fontus_write_to_disk writes, read word by word by fontus_interpret_header_word,
-- give the same header, if each field has its width, whatever was in the header that is filled in.
pub fontus_write_to_disk-round_trip :
    (h h₀ : FontusTrigHeader) (m : Memory)
    → IsFontusHeader h
    → interpret_words 0 (words (fontus_write_to_disk h m)) h₀ ≡ h
fontus_write_to_disk-round_trip h h₀ m v =
    rw (words-fontus_write_to_disk h m v) (interpret_words-fontus_words h h₀ v)

-- calc_fontus_header_crc covers exactly the 44 bytes that fontus_write_to_disk writes between the
-- magic number and the CRC, for any crc32 and whatever the two buffers held.
pub calc_fontus_header_crc-written :
    (crc32 : ℕ → List ℕ → ℕ) (h : FontusTrigHeader) (m m' : Memory)
    → calc_fontus_header_crc crc32 h m ≡ crc32 0 (take 44 (drop 4 (fontus_write_to_disk h m')))
unfolding calc_fontus_header_crc fontus_write_to_disk
calc_fontus_header_crc-written crc32 h m m' = refl

-- The bytes of a CERES header between the magic number and the CRC, in the order of the wire.
abbrev pub ceres_wire_bytes : CeresTrigHeader → List ℕ
ceres_wire_bytes h =
    (h.trig_number / 2 ^ 24 % 256)
    ∷ (h.trig_number / 2 ^ 16 % 256)
    ∷ (h.trig_number / 2 ^ 8 % 256)
    ∷ (h.trig_number % 256)
    ∷ (h.clock / 2 ^ 32 / 2 ^ 24 % 256)
    ∷ (h.clock / 2 ^ 32 / 2 ^ 16 % 256)
    ∷ (h.clock / 2 ^ 32 / 2 ^ 8 % 256)
    ∷ (h.clock / 2 ^ 32 % 256)
    ∷ (h.clock / 2 ^ 24 % 256)
    ∷ (h.clock / 2 ^ 16 % 256)
    ∷ (h.clock / 2 ^ 8 % 256)
    ∷ (h.clock % 256)
    ∷ (h.length / 2 ^ 8 % 256)
    ∷ (h.length % 256)
    ∷ h.device_number
    ∷ []

-- calc_ceres_header_crc is the CRC of the header bytes between magic number and CRC in the order
-- of the wire, with the final mask, for any crc8.
pub calc_ceres_header_crc-wire :
    (crc8 : ℕ → ℕ → ℕ) (h : CeresTrigHeader)
    → calc_ceres_header_crc crc8 h ≡ bit_xor (foldl crc8 0 (ceres_wire_bytes h)) 0x55
unfolding calc_ceres_header_crc
calc_ceres_header_crc-wire crc8 h = refl
