-- ===== src/Trigger/Settings.antt =====
-- The settings of fakernet_code/trigger_pipeline.c by name, with the function that reads each of
-- them, the function that writes it, and the register and the range that belong to it.
pub mod Map
pub mod Ranges
pub mod Access
use fpga_tools.Prelude.{
  ℕ, zero, suc, ◌+◌, ◌-◌, ◌*◌, ◌/◌, ◌%◌, ◌^◌, ◌≤◌, ◌<◌, ◌≡◌, ◌≢◌, ◌⊎◌, inl, inr, refl, sym, ap, ◌∙◌,
  Bool, true, false, not, ◌||◌, ◌&&◌, arith, Option, none, some, Option-cases, Bool-cases, List, [],
  ◌∷◌,
}
use fpga_tools.Prelude.{if◌then◌else◌, ltb, leb, ◌==◌, bit_or, bit_and, ◌<<<◌, ◌>>>◌, u32}
use fpga_tools.Trigger.{
  Bus, AxiTriggerPipeline, register_width, channels_per_external, num_externals, num_thresholds,
  num_triggers, inner_multiplicity_threshold_base_offset, veto_multiplicity_threshold_base_offset,
  inner_esum_threshold_base_offset, veto_esum_threshold_base_offset,
  cngs_beam_trigger_threshold_reg_offset, trig_var_combiner_multiplicity_width,
  inner_multiplicity_delay_base_offset, veto_multiplicity_delay_base_offset,
  inner_energy_sum_delay_base_offset, veto_energy_sum_delay_base_offset, external_delay_offset,
  cngs_beam_window_delay_offset, cngs_cngs_window_delay_offset, inner_multiplicity_gate_base_offset,
  veto_multiplicity_gate_base_offset, inner_energy_sum_gate_base_offset,
  veto_energy_sum_gate_base_offset, external_gate_offset, cngs_beam_window_gate_offset,
  cngs_cngs_window_gate_offset, trigger_mask_base_offset, trigger_veto_mask_base_offset,
  trigger_length_base_offset, led_trigger_length_offset, kicker_trigger_length_offset,
  pulse_generator_enable_mask, threshold_enable_mask_offset, trigger_enable_mask_offset,
  self_trigger_enable_offset, auto_trigger_len_reg_offset, auto_trigger_rate_reg_offset,
  auto_trigger_enable_reg_offset,
}
use fpga_tools.Trigger.Thresholds.{
  read_inner_multiplicity_threshold, write_inner_multiplicity_threshold,
  read_veto_multiplicity_threshold, write_veto_multiplicity_threshold, read_inner_esum_threshold,
  write_inner_esum_threshold, read_veto_esum_threshold, write_veto_esum_threshold,
  read_cngs_trigger_threshold, write_cngs_trigger_threshold, read_multiplicity_width,
  write_multiplicity_width,
}
use fpga_tools.Trigger.Delays.{
  read_inner_multiplicity_delay, write_inner_multiplicity_delay, read_veto_multiplicity_delay,
  write_veto_multiplicity_delay, read_inner_esum_delay, write_inner_esum_delay,
  read_veto_esum_delay, write_veto_esum_delay, read_external_delay, write_external_delay,
  read_cngs_beam_delay, write_cngs_beam_delay, read_cngs_cngs_delay, write_cngs_cngs_delay,
}
use fpga_tools.Trigger.Gates.{
  read_inner_multiplicity_gate, write_inner_multiplicity_gate, read_veto_multiplicity_gate,
  write_veto_multiplicity_gate, read_inner_esum_gate, write_inner_esum_gate, read_veto_esum_gate,
  write_veto_esum_gate, read_external_gate, write_external_gate, read_cngs_beam_gate,
  write_cngs_beam_gate, read_cngs_cngs_gate, write_cngs_cngs_gate,
}
use fpga_tools.Trigger.Control.{
  read_trigger_mask, write_trigger_mask, read_trigger_veto_mask, write_trigger_veto_mask,
  read_trigger_length, write_trigger_length, read_led_trigger_length, write_led_trigger_length,
  read_kicker_trigger_length, write_kicker_trigger_length, read_pulse_generator_enable,
  write_pulse_generator_enable, read_threshold_enable_mask, write_threshold_enable_mask,
  read_trigger_mask_enable, write_trigger_mask_enable, read_self_trigger_enable,
  write_self_trigger_enable, read_auto_trig_length, write_auto_trig_length, read_auto_trig_rate,
  write_auto_trig_rate, read_auto_trig_enable, write_auto_trig_enable,
}

pub data Setting : Type 0 where
  inner_multiplicity_threshold : ℕ → Setting
  veto_multiplicity_threshold : ℕ → Setting
  inner_esum_threshold : ℕ → Setting
  veto_esum_threshold : ℕ → Setting
  cngs_trigger_threshold : Setting
  multiplicity_width : Setting
  inner_multiplicity_delay : ℕ → Setting
  veto_multiplicity_delay : ℕ → Setting
  inner_esum_delay : ℕ → Setting
  veto_esum_delay : ℕ → Setting
  external_delay : ℕ → ℕ → Setting
  cngs_beam_delay : Setting
  cngs_cngs_delay : Setting
  inner_multiplicity_gate : ℕ → Setting
  veto_multiplicity_gate : ℕ → Setting
  inner_esum_gate : ℕ → Setting
  veto_esum_gate : ℕ → Setting
  external_gate : ℕ → ℕ → Setting
  cngs_beam_gate : Setting
  cngs_cngs_gate : Setting
  trigger_mask : ℕ → Setting
  trigger_veto_mask : ℕ → Setting
  trigger_length : ℕ → Setting
  led_trigger_length : Setting
  kicker_trigger_length : Setting
  pulse_generator_enable : Setting
  threshold_enable_mask : Setting
  trigger_mask_enable : Setting
  self_trigger_enable : Setting
  auto_trig_length : Setting
  auto_trig_rate : Setting
  auto_trig_enable : Setting

-- The range that the code checks.
unfoldable pub in_range : Setting → Bool
in_range (inner_multiplicity_threshold channel) = ltb channel num_thresholds
in_range (veto_multiplicity_threshold channel) = ltb channel num_thresholds
in_range (inner_esum_threshold channel) = ltb channel num_thresholds
in_range (veto_esum_threshold channel) = ltb channel num_thresholds
in_range cngs_trigger_threshold = true
in_range multiplicity_width = true
in_range (inner_multiplicity_delay channel) = ltb channel num_thresholds
in_range (veto_multiplicity_delay channel) = ltb channel num_thresholds
in_range (inner_esum_delay channel) = ltb channel num_thresholds
in_range (veto_esum_delay channel) = ltb channel num_thresholds
in_range (external_delay external channel) =
    ltb external num_externals && ltb channel channels_per_external
in_range cngs_beam_delay = true
in_range cngs_cngs_delay = true
in_range (inner_multiplicity_gate channel) = ltb channel num_thresholds
in_range (veto_multiplicity_gate channel) = ltb channel num_thresholds
in_range (inner_esum_gate channel) = ltb channel num_thresholds
in_range (veto_esum_gate channel) = ltb channel num_thresholds
in_range (external_gate external channel) =
    ltb external num_externals && ltb channel channels_per_external
in_range cngs_beam_gate = true
in_range cngs_cngs_gate = true
in_range (trigger_mask channel) = ltb channel num_triggers
in_range (trigger_veto_mask channel) = ltb channel num_triggers
in_range (trigger_length channel) = ltb channel num_triggers
in_range led_trigger_length = true
in_range kicker_trigger_length = true
in_range pulse_generator_enable = true
in_range threshold_enable_mask = true
in_range trigger_mask_enable = true
in_range self_trigger_enable = true
in_range auto_trig_length = true
in_range auto_trig_rate = true
in_range auto_trig_enable = true

-- The offset of the register.
unfoldable pub offset_of : Setting → ℕ
offset_of (inner_multiplicity_threshold channel) =
    inner_multiplicity_threshold_base_offset + register_width * channel
offset_of (veto_multiplicity_threshold channel) =
    veto_multiplicity_threshold_base_offset + register_width * channel
offset_of (inner_esum_threshold channel) =
    inner_esum_threshold_base_offset + register_width * channel
offset_of (veto_esum_threshold channel) = veto_esum_threshold_base_offset + register_width * channel
offset_of cngs_trigger_threshold = cngs_beam_trigger_threshold_reg_offset
offset_of multiplicity_width = trig_var_combiner_multiplicity_width
offset_of (inner_multiplicity_delay channel) =
    inner_multiplicity_delay_base_offset + register_width * channel
offset_of (veto_multiplicity_delay channel) =
    veto_multiplicity_delay_base_offset + register_width * channel
offset_of (inner_esum_delay channel) = inner_energy_sum_delay_base_offset + register_width * channel
offset_of (veto_esum_delay channel) = veto_energy_sum_delay_base_offset + register_width * channel
offset_of (external_delay external channel) =
    external_delay_offset + (external * channels_per_external + channel) * register_width
offset_of cngs_beam_delay = cngs_beam_window_delay_offset
offset_of cngs_cngs_delay = cngs_cngs_window_delay_offset
offset_of (inner_multiplicity_gate channel) =
    inner_multiplicity_gate_base_offset + register_width * channel
offset_of (veto_multiplicity_gate channel) =
    veto_multiplicity_gate_base_offset + register_width * channel
offset_of (inner_esum_gate channel) = inner_energy_sum_gate_base_offset + register_width * channel
offset_of (veto_esum_gate channel) = veto_energy_sum_gate_base_offset + register_width * channel
offset_of (external_gate external channel) =
    external_gate_offset + (external * channels_per_external + channel) * register_width
offset_of cngs_beam_gate = cngs_beam_window_gate_offset
offset_of cngs_cngs_gate = cngs_cngs_window_gate_offset
offset_of (trigger_mask channel) = trigger_mask_base_offset + register_width * channel
offset_of (trigger_veto_mask channel) = trigger_veto_mask_base_offset + register_width * channel
offset_of (trigger_length channel) = trigger_length_base_offset + register_width * channel
offset_of led_trigger_length = led_trigger_length_offset
offset_of kicker_trigger_length = kicker_trigger_length_offset
offset_of pulse_generator_enable = pulse_generator_enable_mask
offset_of threshold_enable_mask = threshold_enable_mask_offset
offset_of trigger_mask_enable = trigger_enable_mask_offset
offset_of self_trigger_enable = self_trigger_enable_offset
offset_of auto_trig_length = auto_trigger_len_reg_offset
offset_of auto_trig_rate = auto_trigger_rate_reg_offset
offset_of auto_trig_enable = auto_trigger_enable_reg_offset

-- The word that a write leaves in the register.
unfoldable pub stored_word : Setting → ℕ → ℕ
stored_word (inner_multiplicity_threshold channel) value = value
stored_word (veto_multiplicity_threshold channel) value = value
stored_word (inner_esum_threshold channel) value = value
stored_word (veto_esum_threshold channel) value = value
stored_word cngs_trigger_threshold value = value
stored_word multiplicity_width value = value
stored_word (inner_multiplicity_delay channel) value = value
stored_word (veto_multiplicity_delay channel) value = value
stored_word (inner_esum_delay channel) value = value
stored_word (veto_esum_delay channel) value = value
stored_word (external_delay external channel) value = value
stored_word cngs_beam_delay value = value
stored_word cngs_cngs_delay value = value
stored_word (inner_multiplicity_gate channel) value = value
stored_word (veto_multiplicity_gate channel) value = value
stored_word (inner_esum_gate channel) value = value
stored_word (veto_esum_gate channel) value = value
stored_word (external_gate external channel) value = value
stored_word cngs_beam_gate value = value
stored_word cngs_cngs_gate value = value
stored_word (trigger_mask channel) value = value
stored_word (trigger_veto_mask channel) value = value
stored_word (trigger_length channel) value = value
stored_word led_trigger_length value = value
stored_word kicker_trigger_length value = value
stored_word pulse_generator_enable value = if value == 0 then 0 else 1
stored_word threshold_enable_mask value = value
stored_word trigger_mask_enable value = value
stored_word self_trigger_enable value = value
stored_word auto_trig_length value = value
stored_word auto_trig_rate value = value
stored_word auto_trig_enable value = value

module _ (bus : Bus) (tp_axi : AxiTriggerPipeline) where
  unfoldable pub read_setting : Setting → bus.State → ℕ × bus.State
  read_setting (inner_multiplicity_threshold channel) s =
      read_inner_multiplicity_threshold bus tp_axi channel s
  read_setting (veto_multiplicity_threshold channel) s =
      read_veto_multiplicity_threshold bus tp_axi channel s
  read_setting (inner_esum_threshold channel) s = read_inner_esum_threshold bus tp_axi channel s
  read_setting (veto_esum_threshold channel) s = read_veto_esum_threshold bus tp_axi channel s
  read_setting cngs_trigger_threshold s = read_cngs_trigger_threshold bus tp_axi s
  read_setting multiplicity_width s = read_multiplicity_width bus tp_axi s
  read_setting (inner_multiplicity_delay channel) s =
      read_inner_multiplicity_delay bus tp_axi channel s
  read_setting (veto_multiplicity_delay channel) s =
      read_veto_multiplicity_delay bus tp_axi channel s
  read_setting (inner_esum_delay channel) s = read_inner_esum_delay bus tp_axi channel s
  read_setting (veto_esum_delay channel) s = read_veto_esum_delay bus tp_axi channel s
  read_setting (external_delay external channel) s =
      read_external_delay bus tp_axi external channel s
  read_setting cngs_beam_delay s = read_cngs_beam_delay bus tp_axi s
  read_setting cngs_cngs_delay s = read_cngs_cngs_delay bus tp_axi s
  read_setting (inner_multiplicity_gate channel) s =
      read_inner_multiplicity_gate bus tp_axi channel s
  read_setting (veto_multiplicity_gate channel) s = read_veto_multiplicity_gate bus tp_axi channel s
  read_setting (inner_esum_gate channel) s = read_inner_esum_gate bus tp_axi channel s
  read_setting (veto_esum_gate channel) s = read_veto_esum_gate bus tp_axi channel s
  read_setting (external_gate external channel) s = read_external_gate bus tp_axi external channel s
  read_setting cngs_beam_gate s = read_cngs_beam_gate bus tp_axi s
  read_setting cngs_cngs_gate s = read_cngs_cngs_gate bus tp_axi s
  read_setting (trigger_mask channel) s = read_trigger_mask bus tp_axi channel s
  read_setting (trigger_veto_mask channel) s = read_trigger_veto_mask bus tp_axi channel s
  read_setting (trigger_length channel) s = read_trigger_length bus tp_axi channel s
  read_setting led_trigger_length s = read_led_trigger_length bus tp_axi s
  read_setting kicker_trigger_length s = read_kicker_trigger_length bus tp_axi s
  read_setting pulse_generator_enable s = read_pulse_generator_enable bus tp_axi s
  read_setting threshold_enable_mask s = read_threshold_enable_mask bus tp_axi s
  read_setting trigger_mask_enable s = read_trigger_mask_enable bus tp_axi s
  read_setting self_trigger_enable s = read_self_trigger_enable bus tp_axi s
  read_setting auto_trig_length s = read_auto_trig_length bus tp_axi s
  read_setting auto_trig_rate s = read_auto_trig_rate bus tp_axi s
  read_setting auto_trig_enable s = read_auto_trig_enable bus tp_axi s

  unfoldable pub write_setting : Setting → ℕ → bus.State → ℕ × bus.State
  write_setting (inner_multiplicity_threshold channel) value s =
      write_inner_multiplicity_threshold bus tp_axi channel value s
  write_setting (veto_multiplicity_threshold channel) value s =
      write_veto_multiplicity_threshold bus tp_axi channel value s
  write_setting (inner_esum_threshold channel) value s =
      write_inner_esum_threshold bus tp_axi channel value s
  write_setting (veto_esum_threshold channel) value s =
      write_veto_esum_threshold bus tp_axi channel value s
  write_setting cngs_trigger_threshold value s = write_cngs_trigger_threshold bus tp_axi value s
  write_setting multiplicity_width value s = write_multiplicity_width bus tp_axi value s
  write_setting (inner_multiplicity_delay channel) value s =
      write_inner_multiplicity_delay bus tp_axi channel value s
  write_setting (veto_multiplicity_delay channel) value s =
      write_veto_multiplicity_delay bus tp_axi channel value s
  write_setting (inner_esum_delay channel) value s =
      write_inner_esum_delay bus tp_axi channel value s
  write_setting (veto_esum_delay channel) value s = write_veto_esum_delay bus tp_axi channel value s
  write_setting (external_delay external channel) value s =
      write_external_delay bus tp_axi external channel value s
  write_setting cngs_beam_delay value s = write_cngs_beam_delay bus tp_axi value s
  write_setting cngs_cngs_delay value s = write_cngs_cngs_delay bus tp_axi value s
  write_setting (inner_multiplicity_gate channel) value s =
      write_inner_multiplicity_gate bus tp_axi channel value s
  write_setting (veto_multiplicity_gate channel) value s =
      write_veto_multiplicity_gate bus tp_axi channel value s
  write_setting (inner_esum_gate channel) value s = write_inner_esum_gate bus tp_axi channel value s
  write_setting (veto_esum_gate channel) value s = write_veto_esum_gate bus tp_axi channel value s
  write_setting (external_gate external channel) value s =
      write_external_gate bus tp_axi external channel value s
  write_setting cngs_beam_gate value s = write_cngs_beam_gate bus tp_axi value s
  write_setting cngs_cngs_gate value s = write_cngs_cngs_gate bus tp_axi value s
  write_setting (trigger_mask channel) value s = write_trigger_mask bus tp_axi channel value s
  write_setting (trigger_veto_mask channel) value s =
      write_trigger_veto_mask bus tp_axi channel value s
  write_setting (trigger_length channel) value s = write_trigger_length bus tp_axi channel value s
  write_setting led_trigger_length value s = write_led_trigger_length bus tp_axi value s
  write_setting kicker_trigger_length value s = write_kicker_trigger_length bus tp_axi value s
  write_setting pulse_generator_enable value s = write_pulse_generator_enable bus tp_axi value s
  write_setting threshold_enable_mask value s = write_threshold_enable_mask bus tp_axi value s
  write_setting trigger_mask_enable value s = write_trigger_mask_enable bus tp_axi value s
  write_setting self_trigger_enable value s = write_self_trigger_enable bus tp_axi value s
  write_setting auto_trig_length value s = write_auto_trig_length bus tp_axi value s
  write_setting auto_trig_rate value s = write_auto_trig_rate bus tp_axi value s
  write_setting auto_trig_enable value s = write_auto_trig_enable bus tp_axi value s
