-- ===== src/Commands/Ceres/Table.antt =====
-- `ceres_commands` of fakernet_code/ceres_if.c. The handlers that poll have the number of rounds `fuel`.
pub mod Bounds
pub mod Answers
use fpga_tools.Prelude.{ℕ, List, [], ◌∷◌}
use Prim.Native.String.{String}
use fpga_tools.Trigger.{Bus}
use fpga_tools.Commands.{Func, legacy_func, ServerCommand, returned, may_return}
use fpga_tools.Commands.Ceres.{CeresState}
use fpga_tools.Commands.Ceres.Chips.{
  read_iic_block_command, write_iic_block_command, read_iic_bus_command, write_iic_bus_command,
  read_iic_bus_with_reg_command, write_iic_bus_with_reg_command, write_ads_if_command,
  read_ads_if_command, write_adc_spi_command, ads_spi_data_available_command,
  ads_spi_data_pop_command, write_lmk_if_command, read_lmk_if_command, write_lmk_spi_command,
  lmk_spi_data_available_command, lmk_spi_data_pop_command, read_lmk_dac_value_command,
  write_lmk_dac_value_command, read_lmk_pll_status_command, clear_lmk_pll_status_command,
  set_sysref_command,
}
use fpga_tools.Commands.Ceres.Links.{
  jesd_read_command, jesd_write_command, jesd_reset_command, jesd_is_synced_command,
  jesd_set_sync_error_reporting_command, write_jesd_phy_command, read_jesd_phy_command,
  set_jesd_lpmen_command, read_jesd_lpmen_command, reset_lpmen_command, read_insertion_loss_command,
  read_jesd_drp_common_command, write_jesd_drp_common_command, read_drp_interface_selector_command,
  write_drp_interface_selector_command, read_jesd_drp_channel_command,
  write_jesd_drp_channel_command, read_jesd_buffer_delay_command, write_jesd_buffer_delay_command,
  jesd_error_count_command, jesd_error_rate_command, read_jesd_rx_lane_buffer_adj_command,
}
use fpga_tools.Commands.Ceres.Pipeline.{
  read_data_pipeline_command, write_data_pipeline_command, read_data_pipeline_threshold_command,
  write_data_pipeline_threshold_command, read_data_pipeline_channel_mask_command,
  write_data_pipeline_channel_mask_command, read_data_pipeline_depth_command,
  write_data_pipeline_depth_command, read_data_pipeline_global_depth_command,
  write_data_pipeline_global_depth_command, read_data_pipeline_invalid_count_command,
  read_data_pipeline_status_command, read_data_pipeline_local_trigger_enable_command,
  write_data_pipeline_local_trigger_enable_command, read_data_pipeline_local_trigger_mode_command,
  write_data_pipeline_local_trigger_mode_command, read_data_pipeline_local_trigger_length_command,
  write_data_pipeline_local_trigger_length_command, read_data_pipeline_trigger_sum_width_command,
  write_data_pipeline_trigger_sum_width_command,
  read_data_pipeline_trigger_count_reset_value_command,
  write_data_pipeline_trigger_count_reset_value_command, read_data_pipeline_trigger_enable_command,
  write_data_pipeline_trigger_enable_command, read_build_tag_command,
  set_local_trigger_params_command, set_trigger_params_command, read_fifo_occupancy_command,
}
use fpga_tools.Commands.Ceres.Clocks.{
  set_adc_power_command, set_adc_pdn_command, get_adc_pdn_command, write_sma_swap_command,
  read_sma_swap_command, read_hermes_sync_command, write_hermes_sync_command,
  write_gpio_register_command, read_gpio_output_register_command, read_gpio_input_register_command,
  read_clock_wiz_register_command, reset_clock_wiz_command, read_clock_wiz_phase_command,
  write_clock_wiz_phase_command, register_clock_wiz_changes_command, read_tdc_value_command,
  read_watchdog_mask_command, write_watchdog_mask_command, read_aurora_status_command,
  adc_reset_command, fnet_sys_reset_command, pipeline_sys_reset_command, fifo_reset_command,
  aurora_sys_reset_command, jesd_sys_reset_command, axi_sys_reset_command,
  increment_clock_wiz_phase_command, decrement_clock_wiz_phase_command,
}

abbrev entry : {S : Type 0} → String → Func S → ℕ → ℕ → ServerCommand S
entry name call nargs nresp = record { name = name; call = call; nargs = nargs; nresp = nresp }

module _ (bus : Bus) (fuel : ℕ) where
  unfoldable pub ceres_commands : List (ServerCommand (CeresState bus))
  ceres_commands =
      entry "read_iic_reg" (legacy_func (returned (read_iic_block_command bus))) 2 1
      ∷ entry "write_iic_reg" (legacy_func (returned (write_iic_block_command bus))) 3 0
      ∷ entry "read_iic_bus" (legacy_func (returned (read_iic_bus_command bus))) 2 1
      ∷ entry "write_iic_bus" (legacy_func (returned (write_iic_bus_command bus))) 3 1
      ∷ entry "read_iic_bus_with_reg" (legacy_func (returned (read_iic_bus_with_reg_command bus))) 3
          1
      ∷ entry "write_iic_bus_with_reg" (legacy_func (returned (write_iic_bus_with_reg_command bus)))
          4 1
      ∷ entry "set_adc_power" (legacy_func (returned (set_adc_power_command bus))) 2 1
      ∷ entry "read_ads" (legacy_func (returned (read_ads_if_command bus))) 3 1
      ∷ entry "write_ads" (legacy_func (returned (write_ads_if_command bus))) 4 1
      ∷ entry "write_adc_spi" (legacy_func (returned (write_adc_spi_command bus))) 5 1
      ∷ entry "ads_spi_data_available" (legacy_func (returned (ads_spi_data_available_command bus)))
          2 1
      ∷ entry "ads_spi_pop" (legacy_func (returned (ads_spi_data_pop_command bus))) 2 1
      ∷ entry "write_lmk_if" (legacy_func (returned (write_lmk_if_command bus))) 4 1
      ∷ entry "read_lmk_if" (legacy_func (returned (read_lmk_if_command bus))) 3 1
      ∷ entry "write_lmk_spi" (legacy_func (returned (write_lmk_spi_command bus))) 5 1
      ∷ entry "lmk_spi_data_available" (legacy_func (returned (lmk_spi_data_available_command bus)))
          2 1
      ∷ entry "lmk_spi_data_pop" (legacy_func (returned (lmk_spi_data_pop_command bus))) 2 1
      ∷ entry "read_lmk_pll_status" (legacy_func (returned (read_lmk_pll_status_command bus))) 3 1
      ∷ entry "clear_lmk_pll_status" (legacy_func (returned (clear_lmk_pll_status_command bus))) 3 1
      ∷ entry "read_lmk_dac_value" (legacy_func (returned (read_lmk_dac_value_command bus))) 2 1
      ∷ entry "write_lmk_dac_value" (legacy_func (returned (write_lmk_dac_value_command bus))) 3 1
      ∷ entry "jesd_read" (legacy_func (returned (jesd_read_command bus))) 3 1
      ∷ entry "jesd_write" (legacy_func (returned (jesd_write_command bus))) 4 1
      ∷ entry "jesd_error_count" (legacy_func (jesd_error_count_command bus)) 2 4
      ∷ entry "jesd_error_rate" (legacy_func (jesd_error_rate_command bus)) 2 4
      ∷ entry "jesd_reset" (legacy_func (returned (jesd_reset_command bus))) 2 1
      ∷ entry "fnet_sys_reset" (legacy_func (returned (fnet_sys_reset_command bus))) 1 1
      ∷ entry "pipeline_sys_reset" (legacy_func (returned (pipeline_sys_reset_command bus))) 1 1
      ∷ entry "fifo_sys_reset" (legacy_func (returned (fifo_reset_command bus))) 1 1
      ∷ entry "aurora_sys_reset" (legacy_func (returned (aurora_sys_reset_command bus))) 1 1
      ∷ entry "jesd_sys_reset" (legacy_func (returned (jesd_sys_reset_command bus))) 1 1
      ∷ entry "axi_sys_reset" (legacy_func (returned (axi_sys_reset_command bus))) 1 1
      ∷ entry "jesd_is_synced" (legacy_func (returned (jesd_is_synced_command bus))) 2 1
      ∷ entry "jesd_set_sync_error_reporting"
          (legacy_func (returned (jesd_set_sync_error_reporting_command bus))) 3 1
      ∷ entry "set_adc_pdn" (legacy_func (returned (set_adc_pdn_command bus))) 2 1
      ∷ entry "get_adc_pdn" (legacy_func (returned (get_adc_pdn_command bus))) 1 1
      ∷ entry "adc_reset" (legacy_func (returned (adc_reset_command bus))) 2 1
      ∷ entry "read_data_pipeline_threshold"
          (legacy_func (returned (read_data_pipeline_threshold_command bus))) 1 1
      ∷ entry "write_data_pipeline_threshold"
          (legacy_func (returned (write_data_pipeline_threshold_command bus))) 2 1
      ∷ entry "read_data_pipeline_channel_mask"
          (legacy_func (returned (read_data_pipeline_channel_mask_command bus))) 1 1
      ∷ entry "write_data_pipeline_channel_mask"
          (legacy_func (returned (write_data_pipeline_channel_mask_command bus))) 2 1
      ∷ entry "read_data_pipeline_depth"
          (legacy_func (returned (read_data_pipeline_depth_command bus))) 2 1
      ∷ entry "write_data_pipeline_depth"
          (legacy_func (returned (write_data_pipeline_depth_command bus))) 3 1
      ∷ entry "read_data_pipeline_global_depth"
          (legacy_func (returned (read_data_pipeline_global_depth_command bus))) 1 1
      ∷ entry "write_data_pipeline_global_depth"
          (legacy_func (returned (write_data_pipeline_global_depth_command bus))) 2 1
      ∷ entry "write_data_pipeline" (legacy_func (returned (write_data_pipeline_command bus))) 3 1
      ∷ entry "read_data_pipeline" (legacy_func (returned (read_data_pipeline_command bus))) 2 1
      ∷ entry "read_data_pipeline_invalid_count"
          (legacy_func (returned (read_data_pipeline_invalid_count_command bus))) 1 1
      ∷ entry "read_data_pipeline_status"
          (legacy_func (returned (read_data_pipeline_status_command bus))) 1 1
      ∷ entry "read_data_pipeline_local_trigger_enable"
          (legacy_func (returned (read_data_pipeline_local_trigger_enable_command bus))) 1 1
      ∷ entry "write_data_pipeline_local_trigger_enable"
          (legacy_func (returned (write_data_pipeline_local_trigger_enable_command bus))) 2 1
      ∷ entry "read_data_pipeline_local_trigger_mode"
          (legacy_func (returned (read_data_pipeline_local_trigger_mode_command bus))) 1 1
      ∷ entry "write_data_pipeline_local_trigger_mode"
          (legacy_func (returned (write_data_pipeline_local_trigger_mode_command bus))) 2 1
      ∷ entry "read_data_pipeline_local_trigger_length"
          (legacy_func (returned (read_data_pipeline_local_trigger_length_command bus))) 1 1
      ∷ entry "write_data_pipeline_local_trigger_length"
          (legacy_func (returned (write_data_pipeline_local_trigger_length_command bus))) 2 1
      ∷ entry "read_data_pipeline_trigger_sum_width"
          (legacy_func (returned (read_data_pipeline_trigger_sum_width_command bus))) 1 1
      ∷ entry "write_data_pipeline_trigger_sum_width"
          (legacy_func (returned (write_data_pipeline_trigger_sum_width_command bus))) 2 1
      ∷ entry "read_data_pipeline_trigger_count_reset_value"
          (legacy_func (returned (read_data_pipeline_trigger_count_reset_value_command bus))) 1 1
      ∷ entry "write_data_pipeline_trigger_count_reset_value"
          (legacy_func (returned (write_data_pipeline_trigger_count_reset_value_command bus))) 2 1
      ∷ entry "read_data_pipeline_trigger_enable"
          (legacy_func (returned (read_data_pipeline_trigger_enable_command bus))) 1 1
      ∷ entry "write_data_pipeline_trigger_enable"
          (legacy_func (returned (write_data_pipeline_trigger_enable_command bus))) 2 1
      ∷ entry "set_local_trigger_params"
          (legacy_func (returned (set_local_trigger_params_command bus))) 3 1
      ∷ entry "set_trigger_params" (legacy_func (returned (set_trigger_params_command bus))) 4 1
      ∷ entry "set_sysref" (legacy_func (returned (set_sysref_command bus))) 3 1
      ∷ entry "write_jesd_phy" (legacy_func (returned (write_jesd_phy_command bus))) 4 1
      ∷ entry "read_jesd_phy" (legacy_func (returned (read_jesd_phy_command bus))) 3 1
      ∷ entry "write_lpmen" (legacy_func (returned (set_jesd_lpmen_command bus))) 3 1
      ∷ entry "read_lpmen" (legacy_func (returned (read_jesd_lpmen_command bus))) 2 1
      ∷ entry "reset_lpmen" (legacy_func (returned (reset_lpmen_command bus))) 2 1
      ∷ entry "read_insertion_loss" (legacy_func (returned (read_insertion_loss_command bus))) 2 1
      ∷ entry "read_jesd_drp_common"
          (legacy_func (may_return (read_jesd_drp_common_command bus fuel))) 3 1
      ∷ entry "write_jesd_drp_common"
          (legacy_func (may_return (write_jesd_drp_common_command bus fuel))) 4 1
      ∷ entry "read_drp_interface_selector"
          (legacy_func (returned (read_drp_interface_selector_command bus))) 2 1
      ∷ entry "write_drp_interface_selector"
          (legacy_func (returned (write_drp_interface_selector_command bus))) 3 1
      ∷ entry "read_jesd_drp_channel"
          (legacy_func (may_return (read_jesd_drp_channel_command bus fuel))) 3 1
      ∷ entry "write_jesd_drp_channel"
          (legacy_func (may_return (write_jesd_drp_channel_command bus fuel))) 4 1
      ∷ entry "read_build_tag" (legacy_func (returned (read_build_tag_command bus))) 1 1
      ∷ entry "read_jesd_rx_lane_buffer_adj"
          (legacy_func (read_jesd_rx_lane_buffer_adj_command bus)) 2 4
      ∷ entry "read_sma_swap" (legacy_func (returned (read_sma_swap_command bus))) 1 1
      ∷ entry "write_sma_swap" (legacy_func (returned (write_sma_swap_command bus))) 2 1
      ∷ entry "read_hermes_sync" (legacy_func (returned (read_hermes_sync_command bus))) 1 1
      ∷ entry "write_hermes_sync" (legacy_func (returned (write_hermes_sync_command bus))) 2 1
      ∷ entry "write_jesd_buffer_delay"
          (legacy_func (returned (write_jesd_buffer_delay_command bus))) 3 1
      ∷ entry "read_jesd_buffer_delay" (legacy_func (returned (read_jesd_buffer_delay_command bus)))
          2 1
      ∷ entry "write_gpio_register" (legacy_func (returned (write_gpio_register_command bus))) 3 1
      ∷ entry "read_gpio_output_register"
          (legacy_func (returned (read_gpio_output_register_command bus))) 2 1
      ∷ entry "read_gpio_input_register"
          (legacy_func (returned (read_gpio_input_register_command bus))) 2 1
      ∷ entry "read_clock_wiz_reg" (legacy_func (returned (read_clock_wiz_register_command bus))) 2
          1
      ∷ entry "reset_clock_wiz" (legacy_func (returned (reset_clock_wiz_command bus))) 1 1
      ∷ entry "read_clock_wiz_phase" (legacy_func (returned (read_clock_wiz_phase_command bus))) 2 1
      ∷ entry "write_clock_wiz_phase" (legacy_func (returned (write_clock_wiz_phase_command bus))) 3
          1
      ∷ entry "register_clock_wiz_changes"
          (legacy_func (returned (register_clock_wiz_changes_command bus))) 1 1
      ∷ entry "increment_clock_wiz_phase"
          (legacy_func (returned (increment_clock_wiz_phase_command bus))) 2 1
      ∷ entry "decrement_clock_wiz_phase"
          (legacy_func (returned (decrement_clock_wiz_phase_command bus))) 2 1
      ∷ entry "read_tdc_value" (legacy_func (returned (read_tdc_value_command bus))) 1 1
      ∷ entry "read_watchdog_mask" (legacy_func (returned (read_watchdog_mask_command bus))) 1 1
      ∷ entry "write_watchdog_mask" (legacy_func (returned (write_watchdog_mask_command bus))) 2 1
      ∷ entry "read_fifo_occupancy" (legacy_func (returned (read_fifo_occupancy_command bus))) 2 1
      ∷ entry "read_aurora_status" (legacy_func (returned (read_aurora_status_command bus))) 1 1
      ∷ []
