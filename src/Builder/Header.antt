-- ===== src/Builder/Header.antt =====
-- The event headers of fakernet_code/data_builder.c: how they are read word by word, written to
-- disk, published, and which of their bytes the CRCs cover. `crc32` (a copy of zlib's) and `crc8`
-- are parameters.
pub mod Laws
use fpga_tools.Prelude.{ℕ, zero, suc, ◌+◌, ◌-◌, ◌*◌, ◌/◌, ◌%◌, ◌^◌, List, [], ◌∷◌, length, tabulate}
use fpga_tools.Prelude.{bit_and, bit_or, bit_xor, u8, ◌<<<◌, ◌>>>◌, swap16, swap32, swap64}
use fpga_tools.Prelude.{
  bytes32, Memory, store8, store16, store32, store64, if◌then◌else◌, ◌==◌, not, ◌++◌,
}
use mathlib.Core.List.{reverse}

-- `FontusTrigHeader`
pub record FontusTrigHeader : Type 0 where
  pub magic_number : ℕ
  pub trig_number : ℕ
  pub clock : ℕ
  pub length : ℕ
  pub device_number : ℕ
  pub trigger_flags : ℕ
  pub self_trigger_word : ℕ
  pub beam_trigger_time : ℕ
  pub led_trigger_time : ℕ
  pub ct_time : ℕ
  pub crc : ℕ

-- `CeresTrigHeader`
pub record CeresTrigHeader : Type 0 where
  pub magic_number : ℕ
  pub trig_number : ℕ
  pub clock : ℕ
  pub length : ℕ
  pub device_number : ℕ
  pub crc : ℕ

abbrev pub fontus_header_size : ℕ
fontus_header_size = 52

abbrev pub ceres_header_size : ℕ
ceres_header_size = 20

-- `x &= 0x00000000FFFFFFFF; x |= (uint64_t)word << 32;`
abbrev pub set_high : ℕ → ℕ → ℕ
set_high x word = bit_or (bit_and x 0x00000000FFFFFFFF) (word <<< 32)

-- `x &= 0xFFFFFFFF00000000; x |= word;`
abbrev pub set_low : ℕ → ℕ → ℕ
set_low x word = bit_or (bit_and x 0xFFFFFFFF00000000) word

-- The word numbers from 13 on only log a message.
unfoldable pub fontus_interpret_header_word : FontusTrigHeader → ℕ → ℕ → FontusTrigHeader
fontus_interpret_header_word h word which_word =
    if which_word == 0
    then record h { magic_number = word }
    else if which_word == 1
    then record h { trig_number = word }
    else if which_word == 2
    then record h { clock = set_high h.clock word }
    else if which_word == 3
    then record h { clock = set_low h.clock word }
    else if which_word == 4
    then record h {
      length = bit_and word 0xFFFF0000 >>> 16;
      device_number = bit_and word 0xFF00 >>> 8;
      trigger_flags = bit_and word 0xFF;
    }
    else if which_word == 5
    then record h { self_trigger_word = word }
    else if which_word == 6
    then record h { beam_trigger_time = set_high h.beam_trigger_time word }
    else if which_word == 7
    then record h { beam_trigger_time = set_low h.beam_trigger_time word }
    else if which_word == 8
    then record h { led_trigger_time = set_high h.led_trigger_time word }
    else if which_word == 9
    then record h { led_trigger_time = set_low h.led_trigger_time word }
    else if which_word == 10
    then record h { ct_time = set_high h.ct_time word }
    else if which_word == 11
    then record h { ct_time = set_low h.ct_time word }
    else if which_word == 12
    then record h { crc = word }
    else h

unfoldable pub ceres_interpret_header_word : CeresTrigHeader → ℕ → ℕ → CeresTrigHeader
ceres_interpret_header_word h word which_word =
    if which_word == 0
    then record h { magic_number = word }
    else if which_word == 1
    then record h { trig_number = word }
    else if which_word == 2
    then record h { clock = set_high h.clock word }
    else if which_word == 3
    then record h { clock = set_low h.clock word }
    else if which_word == 4
    then record h {
      length = bit_and word 0xFFFF0000 >>> 16;
      device_number = bit_and word 0xFF00 >>> 8;
      crc = bit_and word 0xFF;
    }
    else h

-- `header_mem` of `fontus_write_to_disk`, over memory with any contents.
unfoldable pub fontus_header_mem : FontusTrigHeader → Memory → Memory
unfolding store8 store16 store32 store64
fontus_header_mem h m =
    let m = store32 m 0 (swap32 h.magic_number) in
    let m = store32 m 4 (swap32 h.trig_number) in
    let m = store64 m 8 (swap64 h.clock) in
    let m = store16 m 16 (swap16 h.length) in
    let m = store8 m 18 h.device_number in
    let m = store8 m 19 h.trigger_flags in
    let m = store32 m 20 (swap32 h.self_trigger_word) in
    let m = store64 m 24 (swap64 h.beam_trigger_time) in
    let m = store64 m 32 (swap64 h.led_trigger_time) in
    let m = store64 m 40 (swap64 h.ct_time) in store32 m 48 (swap32 h.crc)

-- The bytes that `fontus_write_to_disk` hands to `fwrite`.
unfoldable pub fontus_write_to_disk : FontusTrigHeader → Memory → List ℕ
unfolding fontus_header_mem
fontus_write_to_disk h m = tabulate fontus_header_size (fontus_header_mem h m)

-- The buffer of `calc_fontus_header_crc`: no magic number and no CRC.
fontus_crc_mem : FontusTrigHeader → Memory → Memory
unfolding store8 store16 store32 store64
fontus_crc_mem h m =
    let m = store32 m 0 (swap32 h.trig_number) in
    let m = store64 m 4 (swap64 h.clock) in
    let m = store16 m 12 (swap16 h.length) in
    let m = store8 m 14 h.device_number in
    let m = store8 m 15 h.trigger_flags in
    let m = store32 m 16 (swap32 h.self_trigger_word) in
    let m = store64 m 20 (swap64 h.beam_trigger_time) in
    let m = store64 m 28 (swap64 h.led_trigger_time) in store64 m 36 (swap64 h.ct_time)

module _ (crc32 : ℕ → List ℕ → ℕ) where
  unfoldable pub calc_fontus_header_crc : FontusTrigHeader → Memory → ℕ
  unfolding fontus_crc_mem
  calc_fontus_header_crc h m = crc32 0 (tabulate 44 (fontus_crc_mem h m))

module _ (crc8 : ℕ → ℕ → ℕ) where
  crc_over : ℕ → List ℕ → ℕ
  crc_over crc [] = crc
  crc_over crc (b ∷ bs) = crc_over (crc8 crc b) bs

  -- The bytes of a value in memory, on the host whose byte order `htonl(1)` shows.
  unfoldable pub crc_from_bytes : List ℕ → ℕ → ℕ
  unfolding crc_over swap32
  crc_from_bytes bytes init =
      let is_swapped = not (swap32 1 == 1) in
      if is_swapped then crc_over init (reverse bytes) else crc_over init bytes

  unfoldable pub calc_ceres_header_crc : CeresTrigHeader → ℕ
  unfolding crc_from_bytes
  calc_ceres_header_crc h =
      let crc = crc_from_bytes (bytes32 h.trig_number) 0 in
      let crc = crc_from_bytes (bytes32 h.clock ++ bytes32 (h.clock / 2 ^ 32)) crc in
      let crc = crc_from_bytes (h.length % 256 ∷ h.length / 2 ^ 8 % 256 ∷ []) crc in
      let crc = crc8 crc h.device_number in bit_xor crc 0x55
