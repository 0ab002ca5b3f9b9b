-- ===== src/Commands/Fontus/Table/Bounds.antt =====
-- The handlers of Fontus read no more arguments than the table says that they are given.
use fpga_tools.Prelude.{◌≡◌, ◌⊎◌, inl, inr, refl}
use fpga_tools.Trigger.{Bus}
use fpga_tools.Commands.{All, ReadsArgs, Texts, ◌also◌}
use fpga_tools.Commands.Fontus.Table.{fontus_commands}
use fpga_tools.Commands.Fontus.Board.{
  write_lmk_if_command, read_lmk_if_command, write_lmk_spi_command, lmk_spi_data_available_command,
  lmk_spi_data_pop_command, read_lmk_pll_status_command, clear_lmk_pll_status_command,
  read_lmk_dac_value_command, write_lmk_dac_value_command, set_enable_self_trigger_system_command,
  read_enable_self_trigger_system_command, set_enable_trigger_command, write_dac_if_command,
  read_dac_if_command, write_dac_spi_command, set_threshold_for_channel_command,
  pipeline_sys_reset_command, aurora_sys_reset_command, axi_sys_reset_command,
  fifo_sys_reset_command, read_sync_length_command, do_sync_command, write_auto_trig_params_command,
  write_auto_trig_length_command, write_auto_trig_period_command, read_auto_trig_params_command,
  write_auto_trig_enable_command, read_auto_trig_enable_command, write_coax_dir_select_command,
  read_coax_dir_select_command, write_trigger_pipeline_reg_command,
  read_trigger_pipeline_reg_command, write_sync_mod_command, read_sync_mod_command,
  read_aurora_status_command, read_aurora_lane_up_command, read_gpio_input_register_command,
  read_build_tag_command,
}
use fpga_tools.Commands.Fontus.Settings.{
  write_inner_multiplicity_threshold_command, read_inner_multiplicity_threshold_command,
  write_veto_multiplicity_threshold_command, read_veto_multiplicity_threshold_command,
  write_inner_esum_threshold_command, read_inner_esum_threshold_command,
  write_veto_esum_threshold_command, read_veto_esum_threshold_command,
  write_cngs_beam_trigger_threshold_command, read_cngs_beam_trigger_threshold_command,
  write_inner_multiplicity_delay_command, read_inner_multiplicity_delay_command,
  write_veto_multiplicity_delay_command, read_veto_multiplicity_delay_command,
  write_inner_esum_delay_command, read_inner_esum_delay_command, write_veto_esum_delay_command,
  read_veto_esum_delay_command, write_frontpanel_trigger_delay_command,
  read_frontpanel_trigger_delay_command, write_cngs_beam_trigger_delay_command,
  read_cngs_beam_trigger_delay_command, write_cngs_cngs_trigger_delay_command,
  read_cngs_cngs_trigger_delay_command,
}
use fpga_tools.Commands.Fontus.Gates.{
  write_inner_multiplicity_gate_command, read_inner_multiplicity_gate_command,
  write_veto_multiplicity_gate_command, read_veto_multiplicity_gate_command,
  write_inner_esum_gate_command, read_inner_esum_gate_command, write_veto_esum_gate_command,
  read_veto_esum_gate_command, write_frontpanel_trigger_gate_command,
  read_frontpanel_trigger_gate_command, write_cngs_beam_trigger_gate_command,
  read_cngs_beam_trigger_gate_command, write_cngs_cngs_trigger_gate_command,
  read_cngs_cngs_trigger_gate_command, read_led_trigger_length_command,
  write_led_trigger_length_command, read_kicker_trigger_length_command,
  write_kicker_trigger_length_command, write_self_trigger_mask_command,
  read_self_trigger_mask_command, write_self_veto_mask_command, read_self_veto_mask_command,
  write_self_trigger_length_command, read_self_trigger_length_command,
  read_threshold_enable_mask_command, write_threshold_enable_mask_command,
  write_multiplicity_width_command, read_multiplicity_width_command,
  write_trigger_enable_mask_command, read_trigger_enable_mask_command,
}

module _ (bus : Bus) (texts : Texts) where
  -- Every handler of numbers in the table of FONTUS, other than that of write_dac_spi, reads only
  -- as many arguments as its entry counts: with the others set to 0 it does and returns the same.
  pub fontus_commands-ReadsArgs :
      All (λ e. (e.name ≡ "write_dac_spi") ⊎ ReadsArgs e) (fontus_commands bus texts)
  unfolding fontus_commands write_lmk_if_command read_lmk_if_command write_lmk_spi_command
      lmk_spi_data_available_command lmk_spi_data_pop_command read_lmk_pll_status_command
      clear_lmk_pll_status_command read_lmk_dac_value_command write_lmk_dac_value_command
      set_enable_self_trigger_system_command read_enable_self_trigger_system_command
      set_enable_trigger_command write_dac_if_command read_dac_if_command write_dac_spi_command
      set_threshold_for_channel_command pipeline_sys_reset_command aurora_sys_reset_command
      axi_sys_reset_command fifo_sys_reset_command read_sync_length_command do_sync_command
      write_auto_trig_params_command write_auto_trig_length_command write_auto_trig_period_command
      read_auto_trig_params_command write_auto_trig_enable_command read_auto_trig_enable_command
      write_inner_multiplicity_threshold_command read_inner_multiplicity_threshold_command
      write_veto_multiplicity_threshold_command read_veto_multiplicity_threshold_command
      write_inner_esum_threshold_command read_inner_esum_threshold_command
      write_veto_esum_threshold_command read_veto_esum_threshold_command
      write_cngs_beam_trigger_threshold_command read_cngs_beam_trigger_threshold_command
      write_inner_multiplicity_delay_command read_inner_multiplicity_delay_command
      write_veto_multiplicity_delay_command read_veto_multiplicity_delay_command
      write_inner_esum_delay_command read_inner_esum_delay_command write_veto_esum_delay_command
      read_veto_esum_delay_command write_frontpanel_trigger_delay_command
      read_frontpanel_trigger_delay_command write_cngs_beam_trigger_delay_command
      read_cngs_beam_trigger_delay_command write_cngs_cngs_trigger_delay_command
      read_cngs_cngs_trigger_delay_command write_inner_multiplicity_gate_command
      read_inner_multiplicity_gate_command write_veto_multiplicity_gate_command
      read_veto_multiplicity_gate_command write_inner_esum_gate_command read_inner_esum_gate_command
      write_veto_esum_gate_command read_veto_esum_gate_command write_frontpanel_trigger_gate_command
      read_frontpanel_trigger_gate_command write_cngs_beam_trigger_gate_command
      read_cngs_beam_trigger_gate_command write_cngs_cngs_trigger_gate_command
      read_cngs_cngs_trigger_gate_command read_led_trigger_length_command
      write_led_trigger_length_command read_kicker_trigger_length_command
      write_kicker_trigger_length_command write_self_trigger_mask_command
      read_self_trigger_mask_command write_self_veto_mask_command read_self_veto_mask_command
      write_self_trigger_length_command read_self_trigger_length_command
      read_threshold_enable_mask_command write_threshold_enable_mask_command
      write_multiplicity_width_command read_multiplicity_width_command
      write_trigger_enable_mask_command read_trigger_enable_mask_command
      write_coax_dir_select_command read_coax_dir_select_command write_trigger_pipeline_reg_command
      read_trigger_pipeline_reg_command write_sync_mod_command read_sync_mod_command
      read_aurora_status_command read_aurora_lane_up_command read_gpio_input_register_command
      read_build_tag_command
  fontus_commands-ReadsArgs =
      inr (λ args s. refl)
      also inr (λ args s. refl)
      also inr (λ args s. refl)
      also inr (λ args s. refl)
      also inr (λ args s. refl)
      also inr (λ args s. refl)
      also inr (λ args s. refl)
      also inr (λ args s. refl)
      also inr (λ args s. refl)
      also inr (λ args s. refl)
      also inr (λ args s. refl)
      also inr (λ args s. refl)
      also inr (λ args s. refl)
      also inr (λ args s. refl)
      also inl refl
      also inr (λ args s. refl)
      also inr (λ args s. refl)
      also inr (λ args s. refl)
      also inr (λ args s. refl)
      also inr (λ args s. refl)
      also inr (λ args s. refl)
      also inr (λ args s. refl)
      also inr (λ args s. refl)
      also inr (λ args s. refl)
      also inr (λ args s. refl)
      also inr (λ args s. refl)
      also inr (λ args s. refl)
      also inr (λ args s. refl)
      also inr (λ args s. refl)
      also inr (λ args s. refl)
      also inr (λ args s. refl)
      also inr (λ args s. refl)
      also inr (λ args s. refl)
      also inr (λ args s. refl)
      also inr (λ args s. refl)
      also inr (λ args s. refl)
      also inr (λ args s. refl)
      also inr (λ args s. refl)
      also inr (λ args s. refl)
      also inr (λ args s. refl)
      also inr (λ args s. refl)
      also inr (λ args s. refl)
      also inr (λ args s. refl)
      also inr (λ args s. refl)
      also inr (λ args s. refl)
      also inr (λ args s. refl)
      also inr (λ args s. refl)
      also inr (λ args s. refl)
      also inr (λ args s. refl)
      also inr (λ args s. refl)
      also inr (λ args s. refl)
      also inr (λ args s. refl)
      also inr (λ args s. refl)
      also inr (λ args s. refl)
      also inr (λ args s. refl)
      also inr (λ args s. refl)
      also inr (λ args s. refl)
      also inr (λ args s. refl)
      also inr (λ args s. refl)
      also inr (λ args s. refl)
      also inr (λ args s. refl)
      also inr (λ args s. refl)
      also inr (λ args s. refl)
      also inr (λ args s. refl)
      also inr (λ args s. refl)
      also inr (λ args s. refl)
      also inr (λ args s. refl)
      also inr (λ args s. refl)
      also inr (λ args s. refl)
      also inr (λ args s. refl)
      also inr (λ args s. refl)
      also inr (λ args s. refl)
      also inr (λ args s. refl)
      also inr (λ args s. refl)
      also inr (λ args s. refl)
      also inr (λ args s. refl)
      also inr (λ args s. refl)
      also inr (λ args s. refl)
      also inr (λ args s. refl)
      also inr (λ args s. refl)
      also inr (λ args s. refl)
      also inr (λ args s. refl)
      also inr tt
      also inr tt
      also inr tt
      also inr tt
      also inr (λ args s. refl)
      also inr (λ args s. refl)
      also inr (λ args s. refl)
      also inr (λ args s. refl)
      also inr (λ args s. refl)
      also inr (λ args s. refl)
      also inr (λ args s. refl)
      also inr (λ args s. refl)
      also inr (λ args s. refl)
      also inr (λ args s. refl)
      also tt
