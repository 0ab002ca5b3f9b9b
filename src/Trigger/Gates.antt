-- ===== src/Trigger/Gates.antt =====
-- fakernet_code/trigger_pipeline.c: the gates.
use fpga_tools.Prelude.{ℕ, ◌+◌, ◌*◌, ◌||◌}
use fpga_tools.Prelude.{if◌then◌else◌, leb}
use fpga_tools.Trigger.{
  Bus, AxiTriggerPipeline, refused, read_trig_pipeline_value, write_trig_pipeline_value,
  num_thresholds, num_externals, channels_per_external, register_width,
  inner_multiplicity_gate_base_offset, veto_multiplicity_gate_base_offset,
  inner_energy_sum_gate_base_offset, veto_energy_sum_gate_base_offset, external_gate_offset,
  cngs_beam_window_gate_offset, cngs_cngs_window_gate_offset,
}

module _ (bus : Bus) (tp_axi : AxiTriggerPipeline) where
  unfoldable pub read_inner_multiplicity_gate : ℕ → bus.State → ℕ × bus.State
  read_inner_multiplicity_gate channel s =
      if leb num_thresholds channel
      then (refused, s)
      else read_trig_pipeline_value bus tp_axi
          (inner_multiplicity_gate_base_offset + register_width * channel) s

  unfoldable pub write_inner_multiplicity_gate : ℕ → ℕ → bus.State → ℕ × bus.State
  write_inner_multiplicity_gate channel value s =
      if leb num_thresholds channel
      then (refused, s)
      else write_trig_pipeline_value bus tp_axi
          (inner_multiplicity_gate_base_offset + register_width * channel) value s

  unfoldable pub read_veto_multiplicity_gate : ℕ → bus.State → ℕ × bus.State
  read_veto_multiplicity_gate channel s =
      if leb num_thresholds channel
      then (refused, s)
      else read_trig_pipeline_value bus tp_axi
          (veto_multiplicity_gate_base_offset + register_width * channel) s

  unfoldable pub write_veto_multiplicity_gate : ℕ → ℕ → bus.State → ℕ × bus.State
  write_veto_multiplicity_gate channel value s =
      if leb num_thresholds channel
      then (refused, s)
      else write_trig_pipeline_value bus tp_axi
          (veto_multiplicity_gate_base_offset + register_width * channel) value s

  unfoldable pub read_inner_esum_gate : ℕ → bus.State → ℕ × bus.State
  read_inner_esum_gate channel s =
      if leb num_thresholds channel
      then (refused, s)
      else read_trig_pipeline_value bus tp_axi
          (inner_energy_sum_gate_base_offset + register_width * channel) s

  unfoldable pub write_inner_esum_gate : ℕ → ℕ → bus.State → ℕ × bus.State
  write_inner_esum_gate channel value s =
      if leb num_thresholds channel
      then (refused, s)
      else write_trig_pipeline_value bus tp_axi
          (inner_energy_sum_gate_base_offset + register_width * channel) value s

  unfoldable pub read_veto_esum_gate : ℕ → bus.State → ℕ × bus.State
  read_veto_esum_gate channel s =
      if leb num_thresholds channel
      then (refused, s)
      else read_trig_pipeline_value bus tp_axi
          (veto_energy_sum_gate_base_offset + register_width * channel) s

  unfoldable pub write_veto_esum_gate : ℕ → ℕ → bus.State → ℕ × bus.State
  write_veto_esum_gate channel value s =
      if leb num_thresholds channel
      then (refused, s)
      else write_trig_pipeline_value bus tp_axi
          (veto_energy_sum_gate_base_offset + register_width * channel) value s

  unfoldable pub read_external_gate : ℕ → ℕ → bus.State → ℕ × bus.State
  read_external_gate which_external channel s =
      if leb num_externals which_external || leb channels_per_external channel
      then (refused, s)
      else read_trig_pipeline_value bus tp_axi
          (external_gate_offset
            + (which_external * channels_per_external + channel) * register_width)
          s

  unfoldable pub write_external_gate : ℕ → ℕ → ℕ → bus.State → ℕ × bus.State
  write_external_gate which_external channel value s =
      if leb num_externals which_external || leb channels_per_external channel
      then (refused, s)
      else write_trig_pipeline_value bus tp_axi
          (external_gate_offset
            + (which_external * channels_per_external + channel) * register_width)
          value s

  unfoldable pub read_cngs_beam_gate : bus.State → ℕ × bus.State
  read_cngs_beam_gate s = read_trig_pipeline_value bus tp_axi cngs_beam_window_gate_offset s

  unfoldable pub write_cngs_beam_gate : ℕ → bus.State → ℕ × bus.State
  write_cngs_beam_gate value s =
      write_trig_pipeline_value bus tp_axi cngs_beam_window_gate_offset value s

  unfoldable pub read_cngs_cngs_gate : bus.State → ℕ × bus.State
  read_cngs_cngs_gate s = read_trig_pipeline_value bus tp_axi cngs_cngs_window_gate_offset s

  unfoldable pub write_cngs_cngs_gate : ℕ → bus.State → ℕ × bus.State
  write_cngs_cngs_gate value s =
      write_trig_pipeline_value bus tp_axi cngs_cngs_window_gate_offset value s
