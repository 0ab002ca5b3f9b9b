-- ===== src/Tests/Event.antt =====
-- Events of CERES boards: words that are stashed, and headers that are wrong.
use fpga_tools.Prelude.{ℕ, ◌+◌, ◌≤◌, ◌≡◌, ◌⊎◌, inl, inr, refl, true, false, arith, none}
use fpga_tools.Builder.Ring.{contiguous_readable, readable}
use fpga_tools.Builder.Pop.{pop32}
use fpga_tools.Builder.Header.{CeresTrigHeader, ceres_interpret_header_word}
use fpga_tools.Builder.Event.{
  EventBuffer, EventInProgress, Reader, event_buffer_size, reordered, stash_offset,
}
use fpga_tools.Builder.Event.Layout.{stash_offset_apart}
use fpga_tools.Builder.Ceres.{ceres_data_loop, ceres_read_data, ceres_read_proc, ceres_header_loop}
use fpga_tools.Builder.Ceres.Safety.{
  InRange, OutcomeSafe, ceres_data_loop-OutcomeSafe, ceres_read_data_in_bounds,
}
use fpga_tools.Builder.Ceres.Trash.{ceres_read_proc_bad_header}
use fpga_tools.Tests.Ring.{ring}
use fpga_tools.Tests.Header.{ceres_header, zeros, add_byte}

abbrev pub event_buffer : EventBuffer
event_buffer = record { bytes = zeros; num_bytes = 20 }

abbrev event : EventInProgress CeresTrigHeader
event = record {
  event_header = ceres_header;
  header_bytes_read = 20;
  data_bytes_read = 0;
  current_channel = 3;
  wf_header_read = true;
  samples_read = 0;
  wf_crc_read = false;
  prev_sample = 100;
}

abbrev pub reader : Reader CeresTrigHeader
reader = record { ring_buffer = ring; event_buffer = event_buffer; event = event; reeling = false }

-- A reader whose header lacks its last word.
abbrev late_reader : Reader CeresTrigHeader
late_reader = record reader { event = record event { header_bytes_read = 16 } }

event-InRange : InRange 2 event
event-InRange = record { channel_in = omega arith; samples_in = omega arith }

late_header :
    ((ceres_header_loop 5 late_reader).0 ≡ true)
    × ((ceres_header_loop 5 late_reader).1.event.event_header.magic_number ≡ 0)
unfolding ceres_header_loop pop32 contiguous_readable readable ceres_interpret_header_word
late_header = (refl, refl)

stash_offset_apart_example :
    let p = stash_offset (reordered false 5) 3 100 in
    let q = stash_offset (reordered false 6) 3 100 in (p + 4 ≤ q) ⊎ (q + 4 ≤ p)
stash_offset_apart_example =
    stash_offset_apart false 5 6 3 3 100 (omega arith) (omega arith) (omega arith) (omega arith)
      (inl (λ e. omega arith))

ceres_data_loop-OutcomeSafe_example :
    OutcomeSafe 2 16 event_buffer (ceres_data_loop (λ (p : ℕ). p) 16 2 true 5 0 event event_buffer)
ceres_data_loop-OutcomeSafe_example =
    ceres_data_loop-OutcomeSafe (λ (p : ℕ). p) 16 2 true (omega arith) 5 0 event event_buffer
      event-InRange (omega arith) (omega arith)

ceres_read_data_in_bounds_example :
    (ceres_read_data reader).1.event_buffer.bytes event_buffer_size
    ≡ event_buffer.bytes event_buffer_size
ceres_read_data_in_bounds_example =
    ceres_read_data_in_bounds reader (omega arith) event-InRange event_buffer_size (omega arith)

ceres_read_proc_bad_header_example :
    let (result, r') = ceres_read_proc add_byte late_reader in
    (result ≡ none)
    × (r'.reeling ≡ true)
    × (r'.event.header_bytes_read ≡ 0)
    × (r'.event_buffer.num_bytes + 16 ≡ 20 + 20)
ceres_read_proc_bad_header_example =
    ceres_read_proc_bad_header add_byte late_reader refl (omega arith) late_header.0
      (inr (λ e. omega (arith, late_header.1)))
