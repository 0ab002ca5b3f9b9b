-- ===== src/Tests/Fontus.antt =====
-- Events of FONTUS: a full one, and one that announces no samples.
use fpga_tools.Prelude.{ℕ, ◌≡◌, refl, true, false, arith}
use fpga_tools.Builder.Header.{FontusTrigHeader}
use fpga_tools.Builder.Event.{EventBuffer, EventInProgress}
use fpga_tools.Builder.Fontus.{fontus_data_loop, waiting}
use fpga_tools.Builder.Fontus.Copy.{Placed, IsCopied, fontus_data_loop-IsCopied}
use fpga_tools.Builder.Fontus.Bounds.{fontus_data_loop_empty_hangs}
use fpga_tools.Builder.Fontus.Fuel.{IsFinished, fontus_data_loop-IsFinished}
use fpga_tools.Tests.Header.{fontus_header, zeros}

abbrev event_buffer : EventBuffer
event_buffer = record { bytes = zeros; num_bytes = 96 }

-- An event with two samples in each waveform, before its last sample.
abbrev event : EventInProgress FontusTrigHeader
event = record {
  event_header = fontus_header;
  header_bytes_read = 52;
  data_bytes_read = 0;
  current_channel = 3;
  wf_header_read = true;
  samples_read = 2;
  wf_crc_read = false;
  prev_sample = 0;
}

event-Placed : Placed 2 event event_buffer
event-Placed = record {
  channel_in = omega arith;
  before = λ e. absurd (ground arith);
  within = omega arith;
  filled = refl;
}

fontus_data_loop-IsCopied_example :
    IsCopied 2
      (λ (p : ℕ). p)
      0
      fontus_header
      event_buffer
      (fontus_data_loop (λ (p : ℕ). p) 16 2 5 0 event event_buffer)
fontus_data_loop-IsCopied_example =
    fontus_data_loop-IsCopied (λ (p : ℕ). p) 16 2 5 0 event event_buffer (omega arith) event-Placed

fontus_data_loop_empty_hangs_example :
    (q : ℕ) × (fontus_data_loop (λ (p : ℕ). p) 16 0 5 0 event event_buffer
      ≡ waiting event event_buffer q)
fontus_data_loop_empty_hangs_example =
    fontus_data_loop_empty_hangs (λ (p : ℕ). p) 16 5 0 event event_buffer refl (omega arith)
      (omega arith)

fontus_data_loop-IsFinished_example :
    IsFinished 16 (fontus_data_loop (λ (p : ℕ). p) 16 2 5 0 event event_buffer)
fontus_data_loop-IsFinished_example =
    fontus_data_loop-IsFinished (λ (p : ℕ). p) 16 2 5 0 event event_buffer (omega arith)
