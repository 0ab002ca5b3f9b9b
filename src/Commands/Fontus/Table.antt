-- ===== src/Commands/Fontus/Table.antt =====
-- `fontus_commands` of fakernet_code/fontus_if.c.
pub mod Bounds
use fpga_tools.Prelude.{ℕ, List, [], ◌∷◌}
use Prim.Native.String.{String}
use fpga_tools.Trigger.{Bus}
use fpga_tools.Commands.{Func, func, legacy_func, ServerCommand, Texts, returned}
use fpga_tools.Commands.Fontus.{FontusState}
use fpga_tools.Commands.Fontus.Board.{
  write_lmk_if_command, read_lmk_if_command, write_lmk_spi_command, lmk_spi_data_available_command,
  lmk_spi_data_pop_command, read_lmk_pll_status_command, clear_lmk_pll_status_command,
  read_lmk_dac_value_command, write_lmk_dac_value_command, set_enable_self_trigger_system_command,
  read_enable_self_trigger_system_command, set_enable_trigger_command, write_dac_if_command,
  read_dac_if_command, write_dac_spi_command, set_threshold_for_channel_command,
  pipeline_sys_reset_command, aurora_sys_reset_command, axi_sys_reset_command,
  fifo_sys_reset_command, read_sync_length_command, do_sync_command, write_auto_trig_params_command,
  write_auto_trig_length_command, write_auto_trig_period_command, read_auto_trig_params_command,
  write_auto_trig_enable_command, read_auto_trig_enable_command, write_coax_dir_select_command,
  read_coax_dir_select_command, write_trigger_pipeline_reg_command,
  read_trigger_pipeline_reg_command, write_sync_mod_command, read_sync_mod_command,
  read_aurora_status_command, read_aurora_lane_up_command, read_gpio_input_register_command,
  read_build_tag_command,
}
use fpga_tools.Commands.Fontus.Settings.{
  write_inner_multiplicity_threshold_command, read_inner_multiplicity_threshold_command,
  write_veto_multiplicity_threshold_command, read_veto_multiplicity_threshold_command,
  write_inner_esum_threshold_command, read_inner_esum_threshold_command,
  write_veto_esum_threshold_command, read_veto_esum_threshold_command,
  write_cngs_beam_trigger_threshold_command, read_cngs_beam_trigger_threshold_command,
  write_inner_multiplicity_delay_command, read_inner_multiplicity_delay_command,
  write_veto_multiplicity_delay_command, read_veto_multiplicity_delay_command,
  write_inner_esum_delay_command, read_inner_esum_delay_command, write_veto_esum_delay_command,
  read_veto_esum_delay_command, write_frontpanel_trigger_delay_command,
  read_frontpanel_trigger_delay_command, write_cngs_beam_trigger_delay_command,
  read_cngs_beam_trigger_delay_command, write_cngs_cngs_trigger_delay_command,
  read_cngs_cngs_trigger_delay_command,
}
use fpga_tools.Commands.Fontus.Gates.{
  write_inner_multiplicity_gate_command, read_inner_multiplicity_gate_command,
  write_veto_multiplicity_gate_command, read_veto_multiplicity_gate_command,
  write_inner_esum_gate_command, read_inner_esum_gate_command, write_veto_esum_gate_command,
  read_veto_esum_gate_command, write_frontpanel_trigger_gate_command,
  read_frontpanel_trigger_gate_command, write_cngs_beam_trigger_gate_command,
  read_cngs_beam_trigger_gate_command, write_cngs_cngs_trigger_gate_command,
  read_cngs_cngs_trigger_gate_command, read_led_trigger_length_command,
  write_led_trigger_length_command, read_kicker_trigger_length_command,
  write_kicker_trigger_length_command, write_self_trigger_mask_command,
  read_self_trigger_mask_command, write_self_veto_mask_command, read_self_veto_mask_command,
  write_self_trigger_length_command, read_self_trigger_length_command,
  read_threshold_enable_mask_command, write_threshold_enable_mask_command,
  write_multiplicity_width_command, read_multiplicity_width_command,
  write_trigger_enable_mask_command, read_trigger_enable_mask_command,
}
use fpga_tools.Commands.Fontus.Masks.{
  add_to_trigger_mask_hr_command, add_to_veto_mask_hr_command, remove_from_trigger_mask_hr_command,
  remove_from_veto_mask_hr_command,
}

abbrev entry : {S : Type 0} → String → Func S → ℕ → ℕ → ServerCommand S
entry name call nargs nresp = record { name = name; call = call; nargs = nargs; nresp = nresp }

module _ (bus : Bus) (texts : Texts) where
  unfoldable pub fontus_commands : List (ServerCommand (FontusState bus))
  fontus_commands =
      entry "write_lmk_if" (legacy_func (returned (write_lmk_if_command bus))) 3 1
      ∷ entry "read_lmk_if" (legacy_func (returned (read_lmk_if_command bus))) 2 1
      ∷ entry "write_lmk_spi" (legacy_func (returned (write_lmk_spi_command bus))) 4 1
      ∷ entry "lmk_spi_data_available" (legacy_func (returned (lmk_spi_data_available_command bus)))
          1 1
      ∷ entry "lmk_spi_data_pop" (legacy_func (returned (lmk_spi_data_pop_command bus))) 1 1
      ∷ entry "read_lmk_pll_status" (legacy_func (returned (read_lmk_pll_status_command bus))) 2 1
      ∷ entry "clear_lmk_pll_status" (legacy_func (returned (clear_lmk_pll_status_command bus))) 2 1
      ∷ entry "read_lmk_dac_value" (legacy_func (returned (read_lmk_dac_value_command bus))) 1 1
      ∷ entry "write_lmk_dac_value" (legacy_func (returned (write_lmk_dac_value_command bus))) 2 0
      ∷ entry "set_enable_self_trigger_system"
          (legacy_func (returned (set_enable_self_trigger_system_command bus))) 2 0
      ∷ entry "read_enable_self_trigger_system"
          (legacy_func (returned (read_enable_self_trigger_system_command bus))) 1 0
      ∷ entry "set_enable_trigger_system" (legacy_func (returned (set_enable_trigger_command bus)))
          2 0
      ∷ entry "write_dac_if" (legacy_func (returned (write_dac_if_command bus))) 3 0
      ∷ entry "read_dac_if" (legacy_func (returned (read_dac_if_command bus))) 2 1
      ∷ entry "write_dac_spi" (legacy_func (returned (write_dac_spi_command bus))) 2 0
      ∷ entry "set_frontpanel_threshold_for_channel"
          (legacy_func (returned (set_threshold_for_channel_command bus))) 3 1
      ∷ entry "pipeline_sys_reset" (legacy_func (returned (pipeline_sys_reset_command bus))) 1 1
      ∷ entry "aurora_sys_reset" (legacy_func (returned (aurora_sys_reset_command bus))) 1 1
      ∷ entry "axi_sys_reset" (legacy_func (returned (axi_sys_reset_command bus))) 1 1
      ∷ entry "fifo_sys_reset" (legacy_func (returned (fifo_sys_reset_command bus))) 1 1
      ∷ entry "read_sync_length" (legacy_func (returned (read_sync_length_command bus))) 1 1
      ∷ entry "do_sync" (legacy_func (returned (do_sync_command bus))) 2 0
      ∷ entry "write_auto_trig_params"
          (legacy_func (write_auto_trig_params_command bus texts.of_infinity)) 3 0
      ∷ entry "write_auto_trig_length" (legacy_func (returned (write_auto_trig_length_command bus)))
          2 0
      ∷ entry "write_auto_trig_period" (legacy_func (returned (write_auto_trig_period_command bus)))
          2 0
      ∷ entry "read_auto_trig_params" (legacy_func (read_auto_trig_params_command bus)) 1 2
      ∷ entry "write_auto_trig_enable" (legacy_func (returned (write_auto_trig_enable_command bus)))
          2 0
      ∷ entry "read_auto_trig_enable" (legacy_func (returned (read_auto_trig_enable_command bus))) 1
          1
      ∷ entry "write_inner_multiplicity_threshold"
          (legacy_func (returned (write_inner_multiplicity_threshold_command bus))) 3 0
      ∷ entry "read_inner_multiplicity_threshold"
          (legacy_func (returned (read_inner_multiplicity_threshold_command bus))) 2 1
      ∷ entry "write_veto_multiplicity_threshold"
          (legacy_func (returned (write_veto_multiplicity_threshold_command bus))) 3 0
      ∷ entry "read_veto_multiplicity_threshold"
          (legacy_func (returned (read_veto_multiplicity_threshold_command bus))) 2 1
      ∷ entry "write_inner_esum_threshold"
          (legacy_func (returned (write_inner_esum_threshold_command bus))) 3 0
      ∷ entry "read_inner_esum_threshold"
          (legacy_func (returned (read_inner_esum_threshold_command bus))) 2 1
      ∷ entry "write_veto_esum_threshold"
          (legacy_func (returned (write_veto_esum_threshold_command bus))) 3 0
      ∷ entry "read_veto_esum_threshold"
          (legacy_func (returned (read_veto_esum_threshold_command bus))) 2 1
      ∷ entry "write_cngs_beam_trigger_threshold"
          (legacy_func (returned (write_cngs_beam_trigger_threshold_command bus))) 2 0
      ∷ entry "read_cngs_beam_trigger_threshold"
          (legacy_func (returned (read_cngs_beam_trigger_threshold_command bus))) 1 1
      ∷ entry "write_inner_multiplicity_delay"
          (legacy_func (returned (write_inner_multiplicity_delay_command bus))) 3 0
      ∷ entry "read_inner_multiplicity_delay"
          (legacy_func (returned (read_inner_multiplicity_delay_command bus))) 2 1
      ∷ entry "write_veto_multiplicity_delay"
          (legacy_func (returned (write_veto_multiplicity_delay_command bus))) 3 0
      ∷ entry "read_veto_multiplicity_delay"
          (legacy_func (returned (read_veto_multiplicity_delay_command bus))) 2 1
      ∷ entry "write_inner_esum_delay" (legacy_func (returned (write_inner_esum_delay_command bus)))
          3 0
      ∷ entry "read_inner_esum_delay" (legacy_func (returned (read_inner_esum_delay_command bus))) 2
          1
      ∷ entry "write_veto_esum_delay" (legacy_func (returned (write_veto_esum_delay_command bus))) 3
          0
      ∷ entry "read_veto_esum_delay" (legacy_func (returned (read_veto_esum_delay_command bus))) 2 1
      ∷ entry "write_frontpanel_trigger_delay"
          (legacy_func (returned (write_frontpanel_trigger_delay_command bus))) 4 0
      ∷ entry "read_frontpanel_trigger_delay"
          (legacy_func (returned (read_frontpanel_trigger_delay_command bus))) 3 1
      ∷ entry "write_cngs_beam_trigger_delay"
          (legacy_func (returned (write_cngs_beam_trigger_delay_command bus))) 2 0
      ∷ entry "read_cngs_beam_trigger_delay"
          (legacy_func (returned (read_cngs_beam_trigger_delay_command bus))) 1 1
      ∷ entry "write_cngs_cngs_trigger_delay"
          (legacy_func (returned (write_cngs_cngs_trigger_delay_command bus))) 2 0
      ∷ entry "read_cngs_cngs_trigger_delay"
          (legacy_func (returned (read_cngs_cngs_trigger_delay_command bus))) 1 1
      ∷ entry "write_inner_multiplicity_gate"
          (legacy_func (returned (write_inner_multiplicity_gate_command bus))) 3 0
      ∷ entry "read_inner_multiplicity_gate"
          (legacy_func (returned (read_inner_multiplicity_gate_command bus))) 2 1
      ∷ entry "write_veto_multiplicity_gate"
          (legacy_func (returned (write_veto_multiplicity_gate_command bus))) 3 0
      ∷ entry "read_veto_multiplicity_gate"
          (legacy_func (returned (read_veto_multiplicity_gate_command bus))) 2 1
      ∷ entry "write_inner_esum_gate" (legacy_func (returned (write_inner_esum_gate_command bus))) 3
          0
      ∷ entry "read_inner_esum_gate" (legacy_func (returned (read_inner_esum_gate_command bus))) 2 1
      ∷ entry "write_veto_esum_gate" (legacy_func (returned (write_veto_esum_gate_command bus))) 3 0
      ∷ entry "read_veto_esum_gate" (legacy_func (returned (read_veto_esum_gate_command bus))) 2 1
      ∷ entry "write_frontpanel_trigger_gate"
          (legacy_func (returned (write_frontpanel_trigger_gate_command bus))) 4 0
      ∷ entry "read_frontpanel_trigger_gate"
          (legacy_func (returned (read_frontpanel_trigger_gate_command bus))) 3 1
      ∷ entry "write_cngs_beam_trigger_gate"
          (legacy_func (returned (write_cngs_beam_trigger_gate_command bus))) 2 0
      ∷ entry "read_cngs_beam_trigger_gate"
          (legacy_func (returned (read_cngs_beam_trigger_gate_command bus))) 1 1
      ∷ entry "write_cngs_cngs_trigger_gate"
          (legacy_func (returned (write_cngs_cngs_trigger_gate_command bus))) 2 0
      ∷ entry "read_cngs_cngs_trigger_gate"
          (legacy_func (returned (read_cngs_cngs_trigger_gate_command bus))) 1 1
      ∷ entry "read_led_trigger_length"
          (legacy_func (returned (read_led_trigger_length_command bus))) 1 1
      ∷ entry "write_led_trigger_length"
          (legacy_func (returned (write_led_trigger_length_command bus))) 2 0
      ∷ entry "read_kicker_trigger_length"
          (legacy_func (returned (read_kicker_trigger_length_command bus))) 1 1
      ∷ entry "write_kicker_trigger_length"
          (legacy_func (returned (write_kicker_trigger_length_command bus))) 2 0
      ∷ entry "write_self_trigger_mask"
          (legacy_func (returned (write_self_trigger_mask_command bus))) 3 0
      ∷ entry "read_self_trigger_mask" (legacy_func (returned (read_self_trigger_mask_command bus)))
          2 1
      ∷ entry "write_self_veto_mask" (legacy_func (returned (write_self_veto_mask_command bus))) 3 0
      ∷ entry "read_self_veto_mask" (legacy_func (returned (read_self_veto_mask_command bus))) 2 1
      ∷ entry "write_self_trigger_length"
          (legacy_func (returned (write_self_trigger_length_command bus))) 3 0
      ∷ entry "read_self_trigger_length"
          (legacy_func (returned (read_self_trigger_length_command bus))) 2 1
      ∷ entry "read_threshold_enable_mask"
          (legacy_func (returned (read_threshold_enable_mask_command bus))) 1 1
      ∷ entry "write_threshold_enable_mask"
          (legacy_func (returned (write_threshold_enable_mask_command bus))) 2 0
      ∷ entry "write_multiplicity_width"
          (legacy_func (returned (write_multiplicity_width_command bus))) 2 0
      ∷ entry "read_multiplicity_width"
          (legacy_func (returned (read_multiplicity_width_command bus))) 1 1
      ∷ entry "write_trigger_enable_mask"
          (legacy_func (returned (write_trigger_enable_mask_command bus))) 2 0
      ∷ entry "read_trigger_enable_mask"
          (legacy_func (returned (read_trigger_enable_mask_command bus))) 1 1
      ∷ entry "add_to_trigger_mask_hr" (func (add_to_trigger_mask_hr_command texts bus)) 5 0
      ∷ entry "add_to_veto_mask_hr" (func (add_to_veto_mask_hr_command texts bus)) 5 0
      ∷ entry "remove_from_trigger_mask_hr" (func (remove_from_trigger_mask_hr_command texts bus)) 5
          0
      ∷ entry "remove_from_veto_mask_hr" (func (remove_from_veto_mask_hr_command texts bus)) 5 0
      ∷ entry "write_coax_dir_select" (legacy_func (returned (write_coax_dir_select_command bus))) 2
          0
      ∷ entry "read_coax_dir_select" (legacy_func (returned (read_coax_dir_select_command bus))) 1 1
      ∷ entry "write_trigger_pipeline_reg"
          (legacy_func (returned (write_trigger_pipeline_reg_command bus))) 3 0
      ∷ entry "read_trigger_pipline_reg"
          (legacy_func (returned (read_trigger_pipeline_reg_command bus))) 2 1
      ∷ entry "write_sync_mod" (legacy_func (returned (write_sync_mod_command bus))) 2 0
      ∷ entry "read_sync_mod" (legacy_func (returned (read_sync_mod_command bus))) 1 1
      ∷ entry "read_aurora_status" (legacy_func (returned (read_aurora_status_command bus))) 1 1
      ∷ entry "read_aurora_lane_up_status"
          (legacy_func (returned (read_aurora_lane_up_command bus))) 1 1
      ∷ entry "read_gpio_input_register"
          (legacy_func (returned (read_gpio_input_register_command bus))) 2 1
      ∷ entry "read_build_tag" (legacy_func (returned (read_build_tag_command bus))) 1 1
      ∷ []
