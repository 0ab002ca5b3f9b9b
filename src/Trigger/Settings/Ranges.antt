-- ===== src/Trigger/Settings/Ranges.antt =====
-- fakernet_code/trigger_pipeline.c: each function accesses the register that belongs to its setting.
use fpga_tools.Prelude.{ℕ, ◌≡◌, refl, true, false, arith}
use fpga_tools.Trigger.{
  Bus, AxiTriggerPipeline, refused, read_trig_pipeline_value, write_trig_pipeline_value,
}
use fpga_tools.Trigger.Thresholds.{
  read_inner_multiplicity_threshold, write_inner_multiplicity_threshold,
  read_veto_multiplicity_threshold, write_veto_multiplicity_threshold, read_inner_esum_threshold,
  write_inner_esum_threshold, read_veto_esum_threshold, write_veto_esum_threshold,
  read_cngs_trigger_threshold, write_cngs_trigger_threshold, read_multiplicity_width,
  write_multiplicity_width,
}
use fpga_tools.Trigger.Delays.{
  read_inner_multiplicity_delay, write_inner_multiplicity_delay, read_veto_multiplicity_delay,
  write_veto_multiplicity_delay, read_inner_esum_delay, write_inner_esum_delay,
  read_veto_esum_delay, write_veto_esum_delay, read_external_delay, write_external_delay,
  read_cngs_beam_delay, write_cngs_beam_delay, read_cngs_cngs_delay, write_cngs_cngs_delay,
}
use fpga_tools.Trigger.Gates.{
  read_inner_multiplicity_gate, write_inner_multiplicity_gate, read_veto_multiplicity_gate,
  write_veto_multiplicity_gate, read_inner_esum_gate, write_inner_esum_gate, read_veto_esum_gate,
  write_veto_esum_gate, read_external_gate, write_external_gate, read_cngs_beam_gate,
  write_cngs_beam_gate, read_cngs_cngs_gate, write_cngs_cngs_gate,
}
use fpga_tools.Trigger.Control.{
  read_trigger_mask, write_trigger_mask, read_trigger_veto_mask, write_trigger_veto_mask,
  read_trigger_length, write_trigger_length, read_led_trigger_length, write_led_trigger_length,
  read_kicker_trigger_length, write_kicker_trigger_length, read_pulse_generator_enable,
  write_pulse_generator_enable, read_threshold_enable_mask, write_threshold_enable_mask,
  read_trigger_mask_enable, write_trigger_mask_enable, read_self_trigger_enable,
  write_self_trigger_enable, read_auto_trig_length, write_auto_trig_length, read_auto_trig_rate,
  write_auto_trig_rate, read_auto_trig_enable, write_auto_trig_enable,
}
use fpga_tools.Trigger.Settings.{
  Setting, in_range, offset_of, stored_word, read_setting, write_setting,
  inner_multiplicity_threshold, veto_multiplicity_threshold, inner_esum_threshold,
  veto_esum_threshold, cngs_trigger_threshold, multiplicity_width, inner_multiplicity_delay,
  veto_multiplicity_delay, inner_esum_delay, veto_esum_delay, external_delay, cngs_beam_delay,
  cngs_cngs_delay, inner_multiplicity_gate, veto_multiplicity_gate, inner_esum_gate, veto_esum_gate,
  external_gate, cngs_beam_gate, cngs_cngs_gate, trigger_mask, trigger_veto_mask, trigger_length,
  led_trigger_length, kicker_trigger_length, pulse_generator_enable, threshold_enable_mask,
  trigger_mask_enable, self_trigger_enable, auto_trig_length, auto_trig_rate, auto_trig_enable,
}

module _ (bus : Bus) (tp_axi : AxiTriggerPipeline) where
  -- In its range, a function of the code accesses the register of its setting, and out of it none.
  pub read_setting-in_range :
      (k : Setting) (s : bus.State)
      → in_range k ≡ true
      → read_setting bus tp_axi k s ≡ read_trig_pipeline_value bus tp_axi (offset_of k) s
  unfolding read_setting in_range offset_of read_inner_multiplicity_threshold
      read_veto_multiplicity_threshold read_inner_esum_threshold read_veto_esum_threshold
      read_cngs_trigger_threshold read_multiplicity_width read_inner_multiplicity_delay
      read_veto_multiplicity_delay read_inner_esum_delay read_veto_esum_delay read_external_delay
      read_cngs_beam_delay read_cngs_cngs_delay read_inner_multiplicity_gate
      read_veto_multiplicity_gate read_inner_esum_gate read_veto_esum_gate read_external_gate
      read_cngs_beam_gate read_cngs_cngs_gate read_trigger_mask read_trigger_veto_mask
      read_trigger_length read_led_trigger_length read_kicker_trigger_length
      read_pulse_generator_enable read_threshold_enable_mask read_trigger_mask_enable
      read_self_trigger_enable read_auto_trig_length read_auto_trig_rate read_auto_trig_enable
  read_setting-in_range (inner_multiplicity_threshold channel) s h = ground arith
  read_setting-in_range (veto_multiplicity_threshold channel) s h = ground arith
  read_setting-in_range (inner_esum_threshold channel) s h = ground arith
  read_setting-in_range (veto_esum_threshold channel) s h = ground arith
  read_setting-in_range cngs_trigger_threshold s h = refl
  read_setting-in_range multiplicity_width s h = refl
  read_setting-in_range (inner_multiplicity_delay channel) s h = ground arith
  read_setting-in_range (veto_multiplicity_delay channel) s h = ground arith
  read_setting-in_range (inner_esum_delay channel) s h = ground arith
  read_setting-in_range (veto_esum_delay channel) s h = ground arith
  read_setting-in_range (external_delay external channel) s h = ground arith
  read_setting-in_range cngs_beam_delay s h = refl
  read_setting-in_range cngs_cngs_delay s h = refl
  read_setting-in_range (inner_multiplicity_gate channel) s h = ground arith
  read_setting-in_range (veto_multiplicity_gate channel) s h = ground arith
  read_setting-in_range (inner_esum_gate channel) s h = ground arith
  read_setting-in_range (veto_esum_gate channel) s h = ground arith
  read_setting-in_range (external_gate external channel) s h = ground arith
  read_setting-in_range cngs_beam_gate s h = refl
  read_setting-in_range cngs_cngs_gate s h = refl
  read_setting-in_range (trigger_mask channel) s h = ground arith
  read_setting-in_range (trigger_veto_mask channel) s h = ground arith
  read_setting-in_range (trigger_length channel) s h = ground arith
  read_setting-in_range led_trigger_length s h = refl
  read_setting-in_range kicker_trigger_length s h = refl
  read_setting-in_range pulse_generator_enable s h = refl
  read_setting-in_range threshold_enable_mask s h = refl
  read_setting-in_range trigger_mask_enable s h = refl
  read_setting-in_range self_trigger_enable s h = refl
  read_setting-in_range auto_trig_length s h = refl
  read_setting-in_range auto_trig_rate s h = refl
  read_setting-in_range auto_trig_enable s h = refl

  pub read_setting-refused :
      (k : Setting) (s : bus.State)
      → in_range k ≡ false
      → read_setting bus tp_axi k s ≡ (refused, s)
  unfolding read_setting in_range read_inner_multiplicity_threshold read_veto_multiplicity_threshold
      read_inner_esum_threshold read_veto_esum_threshold read_cngs_trigger_threshold
      read_multiplicity_width read_inner_multiplicity_delay read_veto_multiplicity_delay
      read_inner_esum_delay read_veto_esum_delay read_external_delay read_cngs_beam_delay
      read_cngs_cngs_delay read_inner_multiplicity_gate read_veto_multiplicity_gate
      read_inner_esum_gate read_veto_esum_gate read_external_gate read_cngs_beam_gate
      read_cngs_cngs_gate read_trigger_mask read_trigger_veto_mask read_trigger_length
      read_led_trigger_length read_kicker_trigger_length read_pulse_generator_enable
      read_threshold_enable_mask read_trigger_mask_enable read_self_trigger_enable
      read_auto_trig_length read_auto_trig_rate read_auto_trig_enable
  read_setting-refused (inner_multiplicity_threshold channel) s h = ground arith
  read_setting-refused (veto_multiplicity_threshold channel) s h = ground arith
  read_setting-refused (inner_esum_threshold channel) s h = ground arith
  read_setting-refused (veto_esum_threshold channel) s h = ground arith
  read_setting-refused cngs_trigger_threshold s h = ground arith
  read_setting-refused multiplicity_width s h = ground arith
  read_setting-refused (inner_multiplicity_delay channel) s h = ground arith
  read_setting-refused (veto_multiplicity_delay channel) s h = ground arith
  read_setting-refused (inner_esum_delay channel) s h = ground arith
  read_setting-refused (veto_esum_delay channel) s h = ground arith
  read_setting-refused (external_delay external channel) s h = ground arith
  read_setting-refused cngs_beam_delay s h = ground arith
  read_setting-refused cngs_cngs_delay s h = ground arith
  read_setting-refused (inner_multiplicity_gate channel) s h = ground arith
  read_setting-refused (veto_multiplicity_gate channel) s h = ground arith
  read_setting-refused (inner_esum_gate channel) s h = ground arith
  read_setting-refused (veto_esum_gate channel) s h = ground arith
  read_setting-refused (external_gate external channel) s h = ground arith
  read_setting-refused cngs_beam_gate s h = ground arith
  read_setting-refused cngs_cngs_gate s h = ground arith
  read_setting-refused (trigger_mask channel) s h = ground arith
  read_setting-refused (trigger_veto_mask channel) s h = ground arith
  read_setting-refused (trigger_length channel) s h = ground arith
  read_setting-refused led_trigger_length s h = ground arith
  read_setting-refused kicker_trigger_length s h = ground arith
  read_setting-refused pulse_generator_enable s h = ground arith
  read_setting-refused threshold_enable_mask s h = ground arith
  read_setting-refused trigger_mask_enable s h = ground arith
  read_setting-refused self_trigger_enable s h = ground arith
  read_setting-refused auto_trig_length s h = ground arith
  read_setting-refused auto_trig_rate s h = ground arith
  read_setting-refused auto_trig_enable s h = ground arith

  pub write_setting-in_range :
      (k : Setting) (value : ℕ) (s : bus.State)
      → in_range k ≡ true
      → write_setting bus tp_axi k value s
        ≡ write_trig_pipeline_value bus tp_axi (offset_of k) (stored_word k value) s
  unfolding write_setting in_range offset_of stored_word write_inner_multiplicity_threshold
      write_veto_multiplicity_threshold write_inner_esum_threshold write_veto_esum_threshold
      write_cngs_trigger_threshold write_multiplicity_width write_inner_multiplicity_delay
      write_veto_multiplicity_delay write_inner_esum_delay write_veto_esum_delay
      write_external_delay write_cngs_beam_delay write_cngs_cngs_delay write_inner_multiplicity_gate
      write_veto_multiplicity_gate write_inner_esum_gate write_veto_esum_gate write_external_gate
      write_cngs_beam_gate write_cngs_cngs_gate write_trigger_mask write_trigger_veto_mask
      write_trigger_length write_led_trigger_length write_kicker_trigger_length
      write_pulse_generator_enable write_threshold_enable_mask write_trigger_mask_enable
      write_self_trigger_enable write_auto_trig_length write_auto_trig_rate write_auto_trig_enable
  write_setting-in_range (inner_multiplicity_threshold channel) value s h = ground arith
  write_setting-in_range (veto_multiplicity_threshold channel) value s h = ground arith
  write_setting-in_range (inner_esum_threshold channel) value s h = ground arith
  write_setting-in_range (veto_esum_threshold channel) value s h = ground arith
  write_setting-in_range cngs_trigger_threshold value s h = refl
  write_setting-in_range multiplicity_width value s h = refl
  write_setting-in_range (inner_multiplicity_delay channel) value s h = ground arith
  write_setting-in_range (veto_multiplicity_delay channel) value s h = ground arith
  write_setting-in_range (inner_esum_delay channel) value s h = ground arith
  write_setting-in_range (veto_esum_delay channel) value s h = ground arith
  write_setting-in_range (external_delay external channel) value s h = ground arith
  write_setting-in_range cngs_beam_delay value s h = refl
  write_setting-in_range cngs_cngs_delay value s h = refl
  write_setting-in_range (inner_multiplicity_gate channel) value s h = ground arith
  write_setting-in_range (veto_multiplicity_gate channel) value s h = ground arith
  write_setting-in_range (inner_esum_gate channel) value s h = ground arith
  write_setting-in_range (veto_esum_gate channel) value s h = ground arith
  write_setting-in_range (external_gate external channel) value s h = ground arith
  write_setting-in_range cngs_beam_gate value s h = refl
  write_setting-in_range cngs_cngs_gate value s h = refl
  write_setting-in_range (trigger_mask channel) value s h = ground arith
  write_setting-in_range (trigger_veto_mask channel) value s h = ground arith
  write_setting-in_range (trigger_length channel) value s h = ground arith
  write_setting-in_range led_trigger_length value s h = refl
  write_setting-in_range kicker_trigger_length value s h = refl
  write_setting-in_range pulse_generator_enable value s h = refl
  write_setting-in_range threshold_enable_mask value s h = refl
  write_setting-in_range trigger_mask_enable value s h = refl
  write_setting-in_range self_trigger_enable value s h = refl
  write_setting-in_range auto_trig_length value s h = refl
  write_setting-in_range auto_trig_rate value s h = refl
  write_setting-in_range auto_trig_enable value s h = refl

  pub write_setting-refused :
      (k : Setting) (value : ℕ) (s : bus.State)
      → in_range k ≡ false
      → write_setting bus tp_axi k value s ≡ (refused, s)
  unfolding write_setting in_range write_inner_multiplicity_threshold
      write_veto_multiplicity_threshold write_inner_esum_threshold write_veto_esum_threshold
      write_cngs_trigger_threshold write_multiplicity_width write_inner_multiplicity_delay
      write_veto_multiplicity_delay write_inner_esum_delay write_veto_esum_delay
      write_external_delay write_cngs_beam_delay write_cngs_cngs_delay write_inner_multiplicity_gate
      write_veto_multiplicity_gate write_inner_esum_gate write_veto_esum_gate write_external_gate
      write_cngs_beam_gate write_cngs_cngs_gate write_trigger_mask write_trigger_veto_mask
      write_trigger_length write_led_trigger_length write_kicker_trigger_length
      write_pulse_generator_enable write_threshold_enable_mask write_trigger_mask_enable
      write_self_trigger_enable write_auto_trig_length write_auto_trig_rate write_auto_trig_enable
  write_setting-refused (inner_multiplicity_threshold channel) value s h = ground arith
  write_setting-refused (veto_multiplicity_threshold channel) value s h = ground arith
  write_setting-refused (inner_esum_threshold channel) value s h = ground arith
  write_setting-refused (veto_esum_threshold channel) value s h = ground arith
  write_setting-refused cngs_trigger_threshold value s h = ground arith
  write_setting-refused multiplicity_width value s h = ground arith
  write_setting-refused (inner_multiplicity_delay channel) value s h = ground arith
  write_setting-refused (veto_multiplicity_delay channel) value s h = ground arith
  write_setting-refused (inner_esum_delay channel) value s h = ground arith
  write_setting-refused (veto_esum_delay channel) value s h = ground arith
  write_setting-refused (external_delay external channel) value s h = ground arith
  write_setting-refused cngs_beam_delay value s h = ground arith
  write_setting-refused cngs_cngs_delay value s h = ground arith
  write_setting-refused (inner_multiplicity_gate channel) value s h = ground arith
  write_setting-refused (veto_multiplicity_gate channel) value s h = ground arith
  write_setting-refused (inner_esum_gate channel) value s h = ground arith
  write_setting-refused (veto_esum_gate channel) value s h = ground arith
  write_setting-refused (external_gate external channel) value s h = ground arith
  write_setting-refused cngs_beam_gate value s h = ground arith
  write_setting-refused cngs_cngs_gate value s h = ground arith
  write_setting-refused (trigger_mask channel) value s h = ground arith
  write_setting-refused (trigger_veto_mask channel) value s h = ground arith
  write_setting-refused (trigger_length channel) value s h = ground arith
  write_setting-refused led_trigger_length value s h = ground arith
  write_setting-refused kicker_trigger_length value s h = ground arith
  write_setting-refused pulse_generator_enable value s h = ground arith
  write_setting-refused threshold_enable_mask value s h = ground arith
  write_setting-refused trigger_mask_enable value s h = ground arith
  write_setting-refused self_trigger_enable value s h = ground arith
  write_setting-refused auto_trig_length value s h = ground arith
  write_setting-refused auto_trig_rate value s h = ground arith
  write_setting-refused auto_trig_enable value s h = ground arith
