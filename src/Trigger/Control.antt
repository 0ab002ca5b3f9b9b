-- ===== src/Trigger/Control.antt =====
-- fakernet_code/trigger_pipeline.c: the masks, the lengths, the enables, the sync pulse and the build word.
use fpga_tools.Prelude.{ℕ, ◌+◌, ◌-◌, ◌*◌, ◌^◌}
use fpga_tools.Prelude.{if◌then◌else◌, leb, ◌==◌, bit_or, bit_and, ◌<<<◌, ◌>>>◌, u32}
use fpga_tools.Trigger.{
  Bus, AxiTriggerPipeline, refused, read_trig_pipeline_value, write_trig_pipeline_value,
  num_triggers, register_width, sync_reg_offset, build_info_offset, trigger_mask_base_offset,
  trigger_veto_mask_base_offset, trigger_length_base_offset, led_trigger_length_offset,
  kicker_trigger_length_offset, pulse_generator_enable_mask, threshold_enable_mask_offset,
  trigger_enable_mask_offset, self_trigger_enable_offset, auto_trigger_len_reg_offset,
  auto_trigger_rate_reg_offset, auto_trigger_enable_reg_offset,
}

module _ (bus : Bus) (tp_axi : AxiTriggerPipeline) where
  unfoldable pub read_trigger_mask : ℕ → bus.State → ℕ × bus.State
  read_trigger_mask channel s =
      if leb num_triggers channel
      then (refused, s)
      else read_trig_pipeline_value bus tp_axi (trigger_mask_base_offset + register_width * channel)
          s

  unfoldable pub write_trigger_mask : ℕ → ℕ → bus.State → ℕ × bus.State
  write_trigger_mask channel value s =
      if leb num_triggers channel
      then (refused, s)
      else write_trig_pipeline_value bus tp_axi
          (trigger_mask_base_offset + register_width * channel) value s

  unfoldable pub read_trigger_veto_mask : ℕ → bus.State → ℕ × bus.State
  read_trigger_veto_mask channel s =
      if leb num_triggers channel
      then (refused, s)
      else read_trig_pipeline_value bus tp_axi
          (trigger_veto_mask_base_offset + register_width * channel) s

  unfoldable pub write_trigger_veto_mask : ℕ → ℕ → bus.State → ℕ × bus.State
  write_trigger_veto_mask channel value s =
      if leb num_triggers channel
      then (refused, s)
      else write_trig_pipeline_value bus tp_axi
          (trigger_veto_mask_base_offset + register_width * channel) value s

  unfoldable pub read_trigger_length : ℕ → bus.State → ℕ × bus.State
  read_trigger_length channel s =
      if leb num_triggers channel
      then (refused, s)
      else read_trig_pipeline_value bus tp_axi
          (trigger_length_base_offset + register_width * channel) s

  unfoldable pub write_trigger_length : ℕ → ℕ → bus.State → ℕ × bus.State
  write_trigger_length channel value s =
      if leb num_triggers channel
      then (refused, s)
      else write_trig_pipeline_value bus tp_axi
          (trigger_length_base_offset + register_width * channel) value s

  unfoldable pub read_led_trigger_length : bus.State → ℕ × bus.State
  read_led_trigger_length s = read_trig_pipeline_value bus tp_axi led_trigger_length_offset s

  unfoldable pub write_led_trigger_length : ℕ → bus.State → ℕ × bus.State
  write_led_trigger_length value s =
      write_trig_pipeline_value bus tp_axi led_trigger_length_offset value s

  unfoldable pub read_kicker_trigger_length : bus.State → ℕ × bus.State
  read_kicker_trigger_length s = read_trig_pipeline_value bus tp_axi kicker_trigger_length_offset s

  unfoldable pub write_kicker_trigger_length : ℕ → bus.State → ℕ × bus.State
  write_kicker_trigger_length value s =
      write_trig_pipeline_value bus tp_axi kicker_trigger_length_offset value s

  unfoldable pub read_pulse_generator_enable : bus.State → ℕ × bus.State
  read_pulse_generator_enable s = read_trig_pipeline_value bus tp_axi pulse_generator_enable_mask s

  unfoldable pub write_pulse_generator_enable : ℕ → bus.State → ℕ × bus.State
  write_pulse_generator_enable value s =
      write_trig_pipeline_value bus tp_axi pulse_generator_enable_mask (if value == 0 then 0 else 1)
        s

  unfoldable pub read_threshold_enable_mask : bus.State → ℕ × bus.State
  read_threshold_enable_mask s = read_trig_pipeline_value bus tp_axi threshold_enable_mask_offset s

  unfoldable pub write_threshold_enable_mask : ℕ → bus.State → ℕ × bus.State
  write_threshold_enable_mask value s =
      write_trig_pipeline_value bus tp_axi threshold_enable_mask_offset value s

  unfoldable pub read_trigger_mask_enable : bus.State → ℕ × bus.State
  read_trigger_mask_enable s = read_trig_pipeline_value bus tp_axi trigger_enable_mask_offset s

  unfoldable pub write_trigger_mask_enable : ℕ → bus.State → ℕ × bus.State
  write_trigger_mask_enable value s =
      write_trig_pipeline_value bus tp_axi trigger_enable_mask_offset value s

  unfoldable pub read_self_trigger_enable : bus.State → ℕ × bus.State
  read_self_trigger_enable s = read_trig_pipeline_value bus tp_axi self_trigger_enable_offset s

  unfoldable pub write_self_trigger_enable : ℕ → bus.State → ℕ × bus.State
  write_self_trigger_enable value s =
      write_trig_pipeline_value bus tp_axi self_trigger_enable_offset value s

  unfoldable pub read_auto_trig_length : bus.State → ℕ × bus.State
  read_auto_trig_length s = read_trig_pipeline_value bus tp_axi auto_trigger_len_reg_offset s

  unfoldable pub write_auto_trig_length : ℕ → bus.State → ℕ × bus.State
  write_auto_trig_length value s =
      write_trig_pipeline_value bus tp_axi auto_trigger_len_reg_offset value s

  unfoldable pub read_auto_trig_rate : bus.State → ℕ × bus.State
  read_auto_trig_rate s = read_trig_pipeline_value bus tp_axi auto_trigger_rate_reg_offset s

  unfoldable pub write_auto_trig_rate : ℕ → bus.State → ℕ × bus.State
  write_auto_trig_rate value s =
      write_trig_pipeline_value bus tp_axi auto_trigger_rate_reg_offset value s

  unfoldable pub read_auto_trig_enable : bus.State → ℕ × bus.State
  read_auto_trig_enable s = read_trig_pipeline_value bus tp_axi auto_trigger_enable_reg_offset s

  unfoldable pub write_auto_trig_enable : ℕ → bus.State → ℕ × bus.State
  write_auto_trig_enable value s =
      write_trig_pipeline_value bus tp_axi auto_trigger_enable_reg_offset value s

  unfoldable pub read_sync_length : bus.State → ℕ × bus.State
  read_sync_length s =
      let (word, s') = read_trig_pipeline_value bus tp_axi sync_reg_offset s in
      (bit_and (word >>> 4) (2 ^ 16 - 1), s')

  unfoldable pub do_sync : ℕ → bus.State → ℕ × bus.State
  do_sync length s =
      let word = bit_or (u32 (bit_and length (2 ^ 16 - 1) <<< 4)) 1 in
      let (ret, s') = write_trig_pipeline_value bus tp_axi sync_reg_offset word s in
      if ret == 0
      then write_trig_pipeline_value bus tp_axi sync_reg_offset (bit_and word (2 ^ 20 - 2)) s'
      else (ret, s')

  unfoldable pub fontus_read_build_info : bus.State → ℕ × bus.State
  fontus_read_build_info s = read_trig_pipeline_value bus tp_axi build_info_offset s
