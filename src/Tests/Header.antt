-- ===== src/Tests/Header.antt =====
-- A header that is written and read back.
use mathlib.Core.List.{foldl}
use fpga_tools.Prelude.{ℕ, ◌+◌, ◌%◌, ◌^◌, ◌≡◌, arith, List, Memory, take, drop, length, bit_xor}
use fpga_tools.Builder.Header.{
  FontusTrigHeader, CeresTrigHeader, fontus_write_to_disk, calc_fontus_header_crc,
  calc_ceres_header_crc,
}
use fpga_tools.Builder.Header.Laws.{
  IsFontusHeader, words, interpret_words, ceres_wire_bytes, fontus_write_to_disk-round_trip,
  calc_fontus_header_crc-written, calc_ceres_header_crc-wire,
}

abbrev pub fontus_header : FontusTrigHeader
fontus_header = record {
  magic_number = 0xF00FF00F;
  trig_number = 17;
  clock = 2 ^ 40 + 5;
  length = 2;
  device_number = 0;
  trigger_flags = 3;
  self_trigger_word = 9;
  beam_trigger_time = 2 ^ 33;
  led_trigger_time = 11;
  ct_time = 12;
  crc = 13;
}

abbrev pub blank_header : FontusTrigHeader
blank_header = record {
  magic_number = 0;
  trig_number = 0;
  clock = 0;
  length = 0;
  device_number = 0;
  trigger_flags = 0;
  self_trigger_word = 0;
  beam_trigger_time = 0;
  led_trigger_time = 0;
  ct_time = 0;
  crc = 0;
}

abbrev pub ceres_header : CeresTrigHeader
ceres_header = record {
  magic_number = 0;
  trig_number = 17;
  clock = 2 ^ 40 + 5;
  length = 2;
  device_number = 4;
  crc = 13;
}

fontus_header-IsFontusHeader : IsFontusHeader fontus_header
fontus_header-IsFontusHeader = record {
  magic_number = omega arith;
  trig_number = omega arith;
  clock = omega arith;
  length = omega arith;
  device_number = omega arith;
  trigger_flags = omega arith;
  self_trigger_word = omega arith;
  beam_trigger_time = omega arith;
  led_trigger_time = omega arith;
  ct_time = omega arith;
  crc = omega arith;
}

abbrev pub zeros : Memory
zeros = λ (i : ℕ). 0

abbrev ones : Memory
ones = λ (i : ℕ). 1

-- Functions that stand for the CRCs.
abbrev pub count_bytes : ℕ → List ℕ → ℕ
count_bytes init bytes = init + length bytes

abbrev pub add_byte : ℕ → ℕ → ℕ
add_byte crc byte = (crc + byte) % 256

fontus_write_to_disk-round_trip_example :
    interpret_words 0 (words (fontus_write_to_disk fontus_header zeros)) blank_header
    ≡ fontus_header
fontus_write_to_disk-round_trip_example =
    fontus_write_to_disk-round_trip fontus_header blank_header zeros fontus_header-IsFontusHeader

calc_fontus_header_crc-written_example :
    calc_fontus_header_crc count_bytes fontus_header zeros
    ≡ count_bytes 0 (take 44 (drop 4 (fontus_write_to_disk fontus_header ones)))
calc_fontus_header_crc-written_example =
    calc_fontus_header_crc-written count_bytes fontus_header zeros ones

calc_ceres_header_crc-wire_example :
    calc_ceres_header_crc add_byte ceres_header
    ≡ bit_xor (foldl add_byte 0 (ceres_wire_bytes ceres_header)) 0x55
calc_ceres_header_crc-wire_example = calc_ceres_header_crc-wire add_byte ceres_header
