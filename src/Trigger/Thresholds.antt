-- ===== src/Trigger/Thresholds.antt =====
-- fakernet_code/trigger_pipeline.c: the thresholds.
use fpga_tools.Prelude.{ℕ, ◌+◌, ◌*◌}
use fpga_tools.Prelude.{if◌then◌else◌, leb}
use fpga_tools.Trigger.{
  Bus, AxiTriggerPipeline, refused, read_trig_pipeline_value, write_trig_pipeline_value,
  num_thresholds, register_width, inner_multiplicity_threshold_base_offset,
  veto_multiplicity_threshold_base_offset, inner_esum_threshold_base_offset,
  veto_esum_threshold_base_offset, cngs_beam_trigger_threshold_reg_offset,
  trig_var_combiner_multiplicity_width,
}

module _ (bus : Bus) (tp_axi : AxiTriggerPipeline) where
  unfoldable pub read_inner_multiplicity_threshold : ℕ → bus.State → ℕ × bus.State
  read_inner_multiplicity_threshold channel s =
      if leb num_thresholds channel
      then (refused, s)
      else read_trig_pipeline_value bus tp_axi
          (inner_multiplicity_threshold_base_offset + register_width * channel) s

  unfoldable pub write_inner_multiplicity_threshold : ℕ → ℕ → bus.State → ℕ × bus.State
  write_inner_multiplicity_threshold channel value s =
      if leb num_thresholds channel
      then (refused, s)
      else write_trig_pipeline_value bus tp_axi
          (inner_multiplicity_threshold_base_offset + register_width * channel) value s

  unfoldable pub read_veto_multiplicity_threshold : ℕ → bus.State → ℕ × bus.State
  read_veto_multiplicity_threshold channel s =
      if leb num_thresholds channel
      then (refused, s)
      else read_trig_pipeline_value bus tp_axi
          (veto_multiplicity_threshold_base_offset + register_width * channel) s

  unfoldable pub write_veto_multiplicity_threshold : ℕ → ℕ → bus.State → ℕ × bus.State
  write_veto_multiplicity_threshold channel value s =
      if leb num_thresholds channel
      then (refused, s)
      else write_trig_pipeline_value bus tp_axi
          (veto_multiplicity_threshold_base_offset + register_width * channel) value s

  unfoldable pub read_inner_esum_threshold : ℕ → bus.State → ℕ × bus.State
  read_inner_esum_threshold channel s =
      if leb num_thresholds channel
      then (refused, s)
      else read_trig_pipeline_value bus tp_axi
          (inner_esum_threshold_base_offset + register_width * channel) s

  unfoldable pub write_inner_esum_threshold : ℕ → ℕ → bus.State → ℕ × bus.State
  write_inner_esum_threshold channel value s =
      if leb num_thresholds channel
      then (refused, s)
      else write_trig_pipeline_value bus tp_axi
          (inner_esum_threshold_base_offset + register_width * channel) value s

  unfoldable pub read_veto_esum_threshold : ℕ → bus.State → ℕ × bus.State
  read_veto_esum_threshold channel s =
      if leb num_thresholds channel
      then (refused, s)
      else read_trig_pipeline_value bus tp_axi
          (veto_esum_threshold_base_offset + register_width * channel) s

  unfoldable pub write_veto_esum_threshold : ℕ → ℕ → bus.State → ℕ × bus.State
  write_veto_esum_threshold channel value s =
      if leb num_thresholds channel
      then (refused, s)
      else write_trig_pipeline_value bus tp_axi
          (veto_esum_threshold_base_offset + register_width * channel) value s

  unfoldable pub read_cngs_trigger_threshold : bus.State → ℕ × bus.State
  read_cngs_trigger_threshold s =
      read_trig_pipeline_value bus tp_axi cngs_beam_trigger_threshold_reg_offset s

  unfoldable pub write_cngs_trigger_threshold : ℕ → bus.State → ℕ × bus.State
  write_cngs_trigger_threshold value s =
      write_trig_pipeline_value bus tp_axi cngs_beam_trigger_threshold_reg_offset value s

  unfoldable pub read_multiplicity_width : bus.State → ℕ × bus.State
  read_multiplicity_width s =
      read_trig_pipeline_value bus tp_axi trig_var_combiner_multiplicity_width s

  unfoldable pub write_multiplicity_width : ℕ → bus.State → ℕ × bus.State
  write_multiplicity_width value s =
      write_trig_pipeline_value bus tp_axi trig_var_combiner_multiplicity_width value s
