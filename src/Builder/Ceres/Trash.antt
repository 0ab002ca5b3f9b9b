-- ===== src/Builder/Ceres/Trash.antt =====
-- The error paths of `ceres_read_proc`, and what they leave in the event buffer.
use fpga_tools.Prelude.{
  ℕ, zero, suc, ◌+◌, ◌/◌, ◌%◌, ◌≤◌, ◌≡◌, ◌≢◌, ◌⊎◌, inl, inr, refl, true, false, arith, some, none,
  Option-cases, Bool-cases,
}
use fpga_tools.Prelude.{ltb→lt, ltb, leb}
use fpga_tools.Builder.Ring.{RingBuffer}
use fpga_tools.Builder.Pop.{pop32}
use fpga_tools.Builder.Header.{ceres_interpret_header_word, CeresTrigHeader, calc_ceres_header_crc}
use fpga_tools.Builder.Event.{Reader, put_word, start_event}
use fpga_tools.Builder.Ceres.{ceres_header_loop, ceres_read_proc}

module _ (fuel : ℕ) (r : Reader CeresTrigHeader) where
  pub header_loop_done :
      ltb r.event.header_bytes_read 20 ≡ false → ceres_header_loop (suc fuel) r ≡ (true, r)
  unfolding ceres_header_loop
  header_loop_done done = ground arith

  pub header_loop_dry :
      ltb r.event.header_bytes_read 20 ≡ true
      → pop32 r.ring_buffer ≡ none
      → ceres_header_loop (suc fuel) r ≡ (false, r)
  unfolding ceres_header_loop
  header_loop_dry more dry = ground arith

  -- The reader with one more header word.
  abbrev pub with_word : ℕ → RingBuffer → Reader CeresTrigHeader
  with_word val ring = record r {
    ring_buffer = ring;
    event_buffer = put_word r.event_buffer r.event_buffer.num_bytes val;
    event = record (r.event) {
      event_header =
          ceres_interpret_header_word r.event.event_header val (r.event.header_bytes_read / 4);
      header_bytes_read = r.event.header_bytes_read + 4;
    };
  }

  pub header_loop_more :
      (val : ℕ) (ring : RingBuffer)
      → ltb r.event.header_bytes_read 20 ≡ true
      → pop32 r.ring_buffer ≡ some (val, ring)
      → ceres_header_loop (suc fuel) r ≡ ceres_header_loop fuel (with_word val ring)
  unfolding ceres_header_loop
  header_loop_more val ring more got = ground arith

-- The header loop stores what it counts: each four bytes of the header are four bytes of the buffer.
-- It is complete exactly when twenty bytes are counted.
pub ceres_header_loop_counts :
    (fuel : ℕ) (r : Reader CeresTrigHeader)
    → let (header_done, r') = ceres_header_loop fuel r in
      (r'.event_buffer.num_bytes + r.event.header_bytes_read
        ≡ r.event_buffer.num_bytes + r'.event.header_bytes_read)
      × (header_done ≡ leb 20 r'.event.header_bytes_read)
      × (r.event.header_bytes_read % 4 ≡ 0
          → r.event.header_bytes_read ≤ 20
          → r'.event.header_bytes_read ≤ 20)
unfolding ceres_header_loop put_word
ceres_header_loop_counts zero r = (refl, refl, λ a h. omega arith)
ceres_header_loop_counts (suc fuel) r = elim (Bool-cases (ltb r.event.header_bytes_read 20)) [
  | inl more ↦ elim (Option-cases (pop32 r.ring_buffer)) [
    | inl dry ↦ rw (header_loop_dry fuel r more dry) (refl, ground arith, λ a h. omega arith)
    | inr (popped, got) ↦ rw (header_loop_more fuel r popped.0 popped.1 more got) (
        let rest = ceres_header_loop_counts fuel (with_word fuel r popped.0 popped.1) in
        (
          omega (arith, rest.0),
          rest.1,
          λ a h. rest.2 (omega arith) (omega (arith, ltb→lt _ _ more)),
        ))
  ]
  | inr done ↦ rw (header_loop_done fuel r done) (refl, ground arith, λ a h. omega arith)
]

-- A CERES header that ceres_read_proc completes from a whole number of words, at most 20 bytes,
-- and whose CRC or magic number is wrong yields no event, starts the next one and sets the reader
-- reeling, but leaves the header bytes counted in the event buffer.
pub ceres_read_proc_bad_header :
    (crc8 : ℕ → ℕ → ℕ) (r : Reader CeresTrigHeader)
    → r.event.header_bytes_read % 4 ≡ 0
    → r.event.header_bytes_read ≤ 20
    → (ceres_header_loop 5 r).0 ≡ true
    → ((ceres_header_loop 5 r).1.event.event_header.crc
        ≢ calc_ceres_header_crc crc8 (ceres_header_loop 5 r).1.event.event_header)
      ⊎ ((ceres_header_loop 5 r).1.event.event_header.magic_number ≢ 0xFFFFFFFF)
    → let (result, r') = ceres_read_proc crc8 r in
      (result ≡ none)
      × (r'.reeling ≡ true)
      × (r'.event.header_bytes_read ≡ 0)
      × (r'.event_buffer.num_bytes + r.event.header_bytes_read ≡ r.event_buffer.num_bytes + 20)
unfolding ceres_read_proc start_event
ceres_read_proc_bad_header crc8 r aligned started whole bad =
    ground (arith, whole, ceres_header_loop_counts 5 r)
