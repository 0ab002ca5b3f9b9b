-- ===== src/Commands/Ceres/Table/Bounds.antt =====
-- The handlers of CERES read no more arguments than the table says that they are given.
use fpga_tools.Prelude.{ℕ, refl}
use fpga_tools.Trigger.{Bus}
use fpga_tools.Commands.{All, ReadsArgs, ◌also◌}
use fpga_tools.Commands.Ceres.Table.{ceres_commands}
use fpga_tools.Commands.Ceres.Chips.{
  read_iic_block_command, write_iic_block_command, read_iic_bus_command, write_iic_bus_command,
  read_iic_bus_with_reg_command, write_iic_bus_with_reg_command, write_ads_if_command,
  read_ads_if_command, write_adc_spi_command, ads_spi_data_available_command,
  ads_spi_data_pop_command, write_lmk_if_command, read_lmk_if_command, write_lmk_spi_command,
  lmk_spi_data_available_command, lmk_spi_data_pop_command, read_lmk_dac_value_command,
  write_lmk_dac_value_command, read_lmk_pll_status_command, clear_lmk_pll_status_command,
  set_sysref_command,
}
use fpga_tools.Commands.Ceres.Links.{
  jesd_read_command, jesd_write_command, jesd_reset_command, jesd_is_synced_command,
  jesd_set_sync_error_reporting_command, write_jesd_phy_command, read_jesd_phy_command,
  set_jesd_lpmen_command, read_jesd_lpmen_command, reset_lpmen_command, read_insertion_loss_command,
  read_jesd_drp_common_command, write_jesd_drp_common_command, read_drp_interface_selector_command,
  write_drp_interface_selector_command, read_jesd_drp_channel_command,
  write_jesd_drp_channel_command, read_jesd_buffer_delay_command, write_jesd_buffer_delay_command,
  jesd_error_count_command, jesd_error_rate_command, read_jesd_rx_lane_buffer_adj_command,
}
use fpga_tools.Commands.Ceres.Pipeline.{
  read_data_pipeline_command, write_data_pipeline_command, read_data_pipeline_threshold_command,
  write_data_pipeline_threshold_command, read_data_pipeline_channel_mask_command,
  write_data_pipeline_channel_mask_command, read_data_pipeline_depth_command,
  write_data_pipeline_depth_command, read_data_pipeline_global_depth_command,
  write_data_pipeline_global_depth_command, read_data_pipeline_invalid_count_command,
  read_data_pipeline_status_command, read_data_pipeline_local_trigger_enable_command,
  write_data_pipeline_local_trigger_enable_command, read_data_pipeline_local_trigger_mode_command,
  write_data_pipeline_local_trigger_mode_command, read_data_pipeline_local_trigger_length_command,
  write_data_pipeline_local_trigger_length_command, read_data_pipeline_trigger_sum_width_command,
  write_data_pipeline_trigger_sum_width_command,
  read_data_pipeline_trigger_count_reset_value_command,
  write_data_pipeline_trigger_count_reset_value_command, read_data_pipeline_trigger_enable_command,
  write_data_pipeline_trigger_enable_command, read_build_tag_command,
  set_local_trigger_params_command, set_trigger_params_command, read_fifo_occupancy_command,
}
use fpga_tools.Commands.Ceres.Clocks.{
  set_adc_power_command, set_adc_pdn_command, get_adc_pdn_command, write_sma_swap_command,
  read_sma_swap_command, read_hermes_sync_command, write_hermes_sync_command,
  write_gpio_register_command, read_gpio_output_register_command, read_gpio_input_register_command,
  read_clock_wiz_register_command, reset_clock_wiz_command, read_clock_wiz_phase_command,
  write_clock_wiz_phase_command, register_clock_wiz_changes_command, read_tdc_value_command,
  read_watchdog_mask_command, write_watchdog_mask_command, read_aurora_status_command,
  adc_reset_command, fnet_sys_reset_command, pipeline_sys_reset_command, fifo_reset_command,
  aurora_sys_reset_command, jesd_sys_reset_command, axi_sys_reset_command,
  increment_clock_wiz_phase_command, decrement_clock_wiz_phase_command,
}

module _ (bus : Bus) (fuel : ℕ) where
  -- Every handler in the table of CERES reads only as many arguments as its entry counts: with the
  -- others set to 0 it does and returns the same.
  pub ceres_commands-ReadsArgs : All ReadsArgs (ceres_commands bus fuel)
  unfolding ceres_commands read_iic_block_command write_iic_block_command read_iic_bus_command
      write_iic_bus_command read_iic_bus_with_reg_command write_iic_bus_with_reg_command
      set_adc_power_command read_ads_if_command write_ads_if_command write_adc_spi_command
      ads_spi_data_available_command ads_spi_data_pop_command write_lmk_if_command
      read_lmk_if_command write_lmk_spi_command lmk_spi_data_available_command
      lmk_spi_data_pop_command read_lmk_pll_status_command clear_lmk_pll_status_command
      read_lmk_dac_value_command write_lmk_dac_value_command jesd_read_command jesd_write_command
      jesd_error_count_command jesd_error_rate_command jesd_reset_command fnet_sys_reset_command
      pipeline_sys_reset_command fifo_reset_command aurora_sys_reset_command jesd_sys_reset_command
      axi_sys_reset_command jesd_is_synced_command jesd_set_sync_error_reporting_command
      set_adc_pdn_command get_adc_pdn_command adc_reset_command read_data_pipeline_threshold_command
      write_data_pipeline_threshold_command read_data_pipeline_channel_mask_command
      write_data_pipeline_channel_mask_command read_data_pipeline_depth_command
      write_data_pipeline_depth_command read_data_pipeline_global_depth_command
      write_data_pipeline_global_depth_command write_data_pipeline_command
      read_data_pipeline_command read_data_pipeline_invalid_count_command
      read_data_pipeline_status_command read_data_pipeline_local_trigger_enable_command
      write_data_pipeline_local_trigger_enable_command read_data_pipeline_local_trigger_mode_command
      write_data_pipeline_local_trigger_mode_command read_data_pipeline_local_trigger_length_command
      write_data_pipeline_local_trigger_length_command read_data_pipeline_trigger_sum_width_command
      write_data_pipeline_trigger_sum_width_command
      read_data_pipeline_trigger_count_reset_value_command
      write_data_pipeline_trigger_count_reset_value_command
      read_data_pipeline_trigger_enable_command write_data_pipeline_trigger_enable_command
      set_local_trigger_params_command set_trigger_params_command set_sysref_command
      write_jesd_phy_command read_jesd_phy_command set_jesd_lpmen_command read_jesd_lpmen_command
      reset_lpmen_command read_insertion_loss_command read_jesd_drp_common_command
      write_jesd_drp_common_command read_drp_interface_selector_command
      write_drp_interface_selector_command read_jesd_drp_channel_command
      write_jesd_drp_channel_command read_build_tag_command read_jesd_rx_lane_buffer_adj_command
      read_sma_swap_command write_sma_swap_command read_hermes_sync_command
      write_hermes_sync_command write_jesd_buffer_delay_command read_jesd_buffer_delay_command
      write_gpio_register_command read_gpio_output_register_command read_gpio_input_register_command
      read_clock_wiz_register_command reset_clock_wiz_command read_clock_wiz_phase_command
      write_clock_wiz_phase_command register_clock_wiz_changes_command
      increment_clock_wiz_phase_command decrement_clock_wiz_phase_command read_tdc_value_command
      read_watchdog_mask_command write_watchdog_mask_command read_fifo_occupancy_command
      read_aurora_status_command
  ceres_commands-ReadsArgs =
      (λ args s. refl)
      also (λ args s. refl)
      also (λ args s. refl)
      also (λ args s. refl)
      also (λ args s. refl)
      also (λ args s. refl)
      also (λ args s. refl)
      also (λ args s. refl)
      also (λ args s. refl)
      also (λ args s. refl)
      also (λ args s. refl)
      also (λ args s. refl)
      also (λ args s. refl)
      also (λ args s. refl)
      also (λ args s. refl)
      also (λ args s. refl)
      also (λ args s. refl)
      also (λ args s. refl)
      also (λ args s. refl)
      also (λ args s. refl)
      also (λ args s. refl)
      also (λ args s. refl)
      also (λ args s. refl)
      also (λ args s. refl)
      also (λ args s. refl)
      also (λ args s. refl)
      also (λ args s. refl)
      also (λ args s. refl)
      also (λ args s. refl)
      also (λ args s. refl)
      also (λ args s. refl)
      also (λ args s. refl)
      also (λ args s. refl)
      also (λ args s. refl)
      also (λ args s. refl)
      also (λ args s. refl)
      also (λ args s. refl)
      also (λ args s. refl)
      also (λ args s. refl)
      also (λ args s. refl)
      also (λ args s. refl)
      also (λ args s. refl)
      also (λ args s. refl)
      also (λ args s. refl)
      also (λ args s. refl)
      also (λ args s. refl)
      also (λ args s. refl)
      also (λ args s. refl)
      also (λ args s. refl)
      also (λ args s. refl)
      also (λ args s. refl)
      also (λ args s. refl)
      also (λ args s. refl)
      also (λ args s. refl)
      also (λ args s. refl)
      also (λ args s. refl)
      also (λ args s. refl)
      also (λ args s. refl)
      also (λ args s. refl)
      also (λ args s. refl)
      also (λ args s. refl)
      also (λ args s. refl)
      also (λ args s. refl)
      also (λ args s. refl)
      also (λ args s. refl)
      also (λ args s. refl)
      also (λ args s. refl)
      also (λ args s. refl)
      also (λ args s. refl)
      also (λ args s. refl)
      also (λ args s. refl)
      also (λ args s. refl)
      also (λ args s. refl)
      also (λ args s. refl)
      also (λ args s. refl)
      also (λ args s. refl)
      also (λ args s. refl)
      also (λ args s. refl)
      also (λ args s. refl)
      also (λ args s. refl)
      also (λ args s. refl)
      also (λ args s. refl)
      also (λ args s. refl)
      also (λ args s. refl)
      also (λ args s. refl)
      also (λ args s. refl)
      also (λ args s. refl)
      also (λ args s. refl)
      also (λ args s. refl)
      also (λ args s. refl)
      also (λ args s. refl)
      also (λ args s. refl)
      also (λ args s. refl)
      also (λ args s. refl)
      also (λ args s. refl)
      also (λ args s. refl)
      also (λ args s. refl)
      also (λ args s. refl)
      also (λ args s. refl)
      also tt
