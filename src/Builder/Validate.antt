-- ===== src/Builder/Validate.antt =====
-- What the data builder does with a complete event, from fakernet_code/data_builder.c: the CRCs of the
-- waveforms, the bytes that are saved and published, and the statistics. `crc32` is a parameter.
pub mod Crcs
use fpga_tools.Prelude.{
  ℕ, zero, suc, ◌+◌, ◌*◌, ◌<◌, ◌≡◌, refl, arith, Bool, true, false, not, List, [], ◌∷◌, ◌++◌,
  length, tabulate, if◌then◌else◌, ◌==◌, Memory, load32, swap32, Option, none, some,
}
use fpga_tools.Builder.Header.{FontusTrigHeader, CeresTrigHeader, ceres_header_size}
use fpga_tools.Builder.Event.{EventBuffer, num_channels, stash_offset}

-- `ProcessingStats`, without the times and the process number.
pub record ProcessingStats : Type 0 where
  pub event_count : ℕ
  pub trigger_id : ℕ
  pub device_id : ℕ
  pub latest_timestamp : ℕ
  pub reeling_happened : Bool
  pub connected_to_fpga : Bool
  pub fifo_rpointer : ℕ
  pub fifo_event_rpointer : ℕ
  pub fifo_wpointer : ℕ

-- The device -1 is its bit pattern.
unfoldable pub initialize_stats : Bool → ProcessingStats
initialize_stats reeling_happened = record {
  event_count = 0;
  trigger_id = 0;
  device_id = 0xFFFFFFFF;
  latest_timestamp = 0;
  reeling_happened = reeling_happened;
  connected_to_fpga = false;
  fifo_rpointer = 0;
  fifo_event_rpointer = 0;
  fifo_wpointer = 0;
}

unfoldable pub ceres_update_stats : CeresTrigHeader → ProcessingStats → ProcessingStats
ceres_update_stats header stats = record stats {
  trigger_id = header.trig_number;
  latest_timestamp = header.clock;
  device_id = header.device_number;
}

unfoldable pub fontus_update_stats : FontusTrigHeader → ProcessingStats → ProcessingStats
fontus_update_stats header stats = record stats {
  trigger_id = header.trig_number;
  latest_timestamp = header.clock;
  device_id = header.device_number;
}

-- Whether some pair differs.
unfoldable pub any_mismatch : List (ℕ × ℕ) → ℕ
any_mismatch [] = 0
any_mismatch ((calculated, given) ∷ crcs) =
    let rest = any_mismatch crcs in if calculated == given then rest else 1

module _ (crc32 : ℕ → List ℕ → ℕ) where
  -- The loop over the channels, `left` of them from `wf_start` on: the calculated and the given CRCs.
  unfoldable pub waveform_crcs : Memory → ℕ → ℕ → ℕ → List (ℕ × ℕ)
  waveform_crcs m length zero wf_start = []
  waveform_crcs m length (suc left) wf_start =
      (
        crc32 0 (tabulate (length * 4) (λ j. m (wf_start + j))),
        swap32 (load32 m (wf_start + length * 4)),
      )
      ∷ waveform_crcs m length left (wf_start + (length + 2) * 4)

  unfoldable pub calculate_waveform_crcs : CeresTrigHeader → EventBuffer → List (ℕ × ℕ)
  unfolding waveform_crcs
  calculate_waveform_crcs header event =
      waveform_crcs event.bytes header.length num_channels (ceres_header_size + 4)

  unfoldable pub ceres_validate_crcs : CeresTrigHeader → EventBuffer → ℕ
  unfolding calculate_waveform_crcs any_mismatch
  ceres_validate_crcs header eb = any_mismatch (calculate_waveform_crcs header eb)

unfoldable pub fontus_validate_crcs : FontusTrigHeader → EventBuffer → ℕ
fontus_validate_crcs header eb = 0

unfoldable pub ceres_write_to_disk : EventBuffer → CeresTrigHeader → List ℕ
ceres_write_to_disk eb header = tabulate eb.num_bytes eb.bytes

-- What `publish_event` sends on `event_stream` and on `header_stream`: nothing without a connection to
-- redis, which the first argument tells.
unfoldable pub publish_event : Bool → EventBuffer → ℕ → Option (List ℕ × List ℕ)
publish_event false eb header_size = none
publish_event true eb header_size =
    some (tabulate eb.num_bytes eb.bytes, tabulate header_size eb.bytes)
