-- ===== src/Commands/Ceres/Clocks.antt =====
-- The commands of CERES in fakernet_code/ceres_if.c for the resets, the GPIO registers and the clock wizard.
use fpga_tools.Prelude.{ℕ, ◌+◌, ◌-◌, ◌%◌, ◌^◌, if◌then◌else◌, ltb, u32}
use fpga_tools.Trigger.{Bus}
use fpga_tools.Devices.{AxiDevice, Driver, ◌>>=◌, ◌>>◌, pure}
use fpga_tools.Devices.Clocks.{
  write_reset_gen_mask, write_reset_gen_length, reset_gen_do_reset, read_gpio_value,
  write_gpio_value, read_clock_wiz_reg, clock_wiz_reset, clock_wiz_read_phase,
  clock_wiz_write_phase, clock_wiz_register_changes,
}
use fpga_tools.Commands.Ceres.{
  CeresState, on_axi_gpio, on_clk_wiz, on_reset_gen, gpio_hermes_power_offset,
  gpio_adc_reset_offset, gpio_adc_pdn_offset, gpio_watchdog_offset, gpio_sma_switch_offset,
  gpio_hermes_sync_switch_offset, gpio_aurora_status_offset, reset_gen_jesd_bit,
  reset_gen_pipeline_bit, reset_gen_axi_bit, reset_gen_aurora_bit, reset_gen_fnet_bit,
  reset_gen_fifo_bit,
}
use fpga_tools.Commands.{Args}

module _ (bus : Bus) where
  unfoldable pub set_adc_power_command : Args → Driver (CeresState bus) ℕ
  unfolding on_axi_gpio
  set_adc_power_command args =
      on_axi_gpio bus (λ axi_gpio. write_gpio_value bus axi_gpio gpio_hermes_power_offset (args 0))

  unfoldable pub set_adc_pdn_command : Args → Driver (CeresState bus) ℕ
  unfolding on_axi_gpio
  set_adc_pdn_command args =
      on_axi_gpio bus (λ axi_gpio. write_gpio_value bus axi_gpio gpio_adc_pdn_offset (args 0))

  unfoldable pub get_adc_pdn_command : Args → Driver (CeresState bus) ℕ
  unfolding on_axi_gpio
  get_adc_pdn_command args =
      on_axi_gpio bus (λ axi_gpio. read_gpio_value bus axi_gpio 0 gpio_adc_pdn_offset)

  unfoldable pub write_sma_swap_command : Args → Driver (CeresState bus) ℕ
  unfolding on_axi_gpio
  write_sma_swap_command args =
      on_axi_gpio bus (λ axi_gpio. write_gpio_value bus axi_gpio gpio_sma_switch_offset (args 0))

  unfoldable pub read_sma_swap_command : Args → Driver (CeresState bus) ℕ
  unfolding on_axi_gpio
  read_sma_swap_command args =
      on_axi_gpio bus (λ axi_gpio. read_gpio_value bus axi_gpio 0 gpio_sma_switch_offset)

  unfoldable pub read_hermes_sync_command : Args → Driver (CeresState bus) ℕ
  unfolding on_axi_gpio
  read_hermes_sync_command args =
      on_axi_gpio bus (λ axi_gpio. read_gpio_value bus axi_gpio 0 gpio_hermes_sync_switch_offset)

  unfoldable pub write_hermes_sync_command : Args → Driver (CeresState bus) ℕ
  unfolding on_axi_gpio
  write_hermes_sync_command args =
      on_axi_gpio bus
        (λ axi_gpio. write_gpio_value bus axi_gpio gpio_hermes_sync_switch_offset (args 0))

  unfoldable pub write_gpio_register_command : Args → Driver (CeresState bus) ℕ
  unfolding on_axi_gpio
  write_gpio_register_command args =
      on_axi_gpio bus (λ axi_gpio. write_gpio_value bus axi_gpio (args 0) (args 1))

  unfoldable pub read_gpio_output_register_command : Args → Driver (CeresState bus) ℕ
  unfolding on_axi_gpio
  read_gpio_output_register_command args =
      on_axi_gpio bus (λ axi_gpio. read_gpio_value bus axi_gpio 0 (args 0))

  unfoldable pub read_gpio_input_register_command : Args → Driver (CeresState bus) ℕ
  unfolding on_axi_gpio
  read_gpio_input_register_command args =
      on_axi_gpio bus (λ axi_gpio. read_gpio_value bus axi_gpio 1 (args 0))

  unfoldable pub read_clock_wiz_register_command : Args → Driver (CeresState bus) ℕ
  unfolding on_clk_wiz
  read_clock_wiz_register_command args =
      on_clk_wiz bus (λ clk_wiz. read_clock_wiz_reg bus clk_wiz (args 0))

  unfoldable pub reset_clock_wiz_command : Args → Driver (CeresState bus) ℕ
  unfolding on_clk_wiz
  reset_clock_wiz_command args = on_clk_wiz bus (λ clk_wiz. clock_wiz_reset bus clk_wiz)

  unfoldable pub read_clock_wiz_phase_command : Args → Driver (CeresState bus) ℕ
  unfolding on_clk_wiz
  read_clock_wiz_phase_command args =
      on_clk_wiz bus (λ clk_wiz. clock_wiz_read_phase bus clk_wiz (args 0))

  unfoldable pub write_clock_wiz_phase_command : Args → Driver (CeresState bus) ℕ
  unfolding on_clk_wiz
  write_clock_wiz_phase_command args =
      on_clk_wiz bus (λ clk_wiz. clock_wiz_write_phase bus clk_wiz (args 0) (args 1))

  unfoldable pub register_clock_wiz_changes_command : Args → Driver (CeresState bus) ℕ
  unfolding on_clk_wiz
  register_clock_wiz_changes_command args =
      on_clk_wiz bus (λ clk_wiz. clock_wiz_register_changes bus clk_wiz)

  unfoldable pub read_tdc_value_command : Args → Driver (CeresState bus) ℕ
  unfolding on_axi_gpio
  read_tdc_value_command args = on_axi_gpio bus (λ axi_gpio. read_gpio_value bus axi_gpio 1 2)

  unfoldable pub read_watchdog_mask_command : Args → Driver (CeresState bus) ℕ
  unfolding on_axi_gpio
  read_watchdog_mask_command args =
      on_axi_gpio bus (λ axi_gpio. read_gpio_value bus axi_gpio 0 gpio_watchdog_offset)

  unfoldable pub write_watchdog_mask_command : Args → Driver (CeresState bus) ℕ
  unfolding on_axi_gpio
  write_watchdog_mask_command args =
      on_axi_gpio bus (λ axi_gpio. write_gpio_value bus axi_gpio gpio_watchdog_offset (args 0))

  unfoldable pub read_aurora_status_command : Args → Driver (CeresState bus) ℕ
  unfolding on_axi_gpio
  read_aurora_status_command args =
      on_axi_gpio bus (λ axi_gpio. read_gpio_value bus axi_gpio 1 gpio_aurora_status_offset)

  unfoldable pub adc_reset_command : Args → Driver (CeresState bus) ℕ
  unfolding on_axi_gpio
  adc_reset_command args = do
    on_axi_gpio bus (λ axi_gpio. write_gpio_value bus axi_gpio gpio_adc_reset_offset (args 0))
    pure 0

  unfoldable pub generic_sys_reset : ℕ → Driver (CeresState bus) ℕ
  unfolding on_reset_gen
  generic_sys_reset bit_mask = do
    on_reset_gen bus (λ reset_gen. write_reset_gen_mask bus reset_gen bit_mask)
    on_reset_gen bus (λ reset_gen. write_reset_gen_length bus reset_gen 5000)
    on_reset_gen bus (λ reset_gen. reset_gen_do_reset bus reset_gen)

  unfoldable pub fnet_sys_reset_command : Args → Driver (CeresState bus) ℕ
  unfolding generic_sys_reset
  fnet_sys_reset_command args = do generic_sys_reset (2 ^ reset_gen_fnet_bit); pure 0

  unfoldable pub pipeline_sys_reset_command : Args → Driver (CeresState bus) ℕ
  unfolding generic_sys_reset
  pipeline_sys_reset_command args = do generic_sys_reset (2 ^ reset_gen_pipeline_bit); pure 0

  unfoldable pub fifo_reset_command : Args → Driver (CeresState bus) ℕ
  unfolding generic_sys_reset
  fifo_reset_command args = do generic_sys_reset (2 ^ reset_gen_fifo_bit); pure 0

  unfoldable pub aurora_sys_reset_command : Args → Driver (CeresState bus) ℕ
  unfolding generic_sys_reset
  aurora_sys_reset_command args = do generic_sys_reset (2 ^ reset_gen_aurora_bit); pure 0

  unfoldable pub jesd_sys_reset_command : Args → Driver (CeresState bus) ℕ
  unfolding generic_sys_reset
  jesd_sys_reset_command args = do generic_sys_reset (2 ^ reset_gen_jesd_bit); pure 0

  unfoldable pub axi_sys_reset_command : Args → Driver (CeresState bus) ℕ
  unfolding generic_sys_reset
  axi_sys_reset_command args = do generic_sys_reset (2 ^ reset_gen_axi_bit); pure 0

  unfoldable pub increment_clock_wiz_phase_command : Args → Driver (CeresState bus) ℕ
  unfolding on_clk_wiz
  increment_clock_wiz_phase_command args =
      let inc = args 0 % 360000 in
      on_clk_wiz bus (λ clk_wiz. do
        ph1 ← clock_wiz_read_phase bus clk_wiz 0
        ph2 ← clock_wiz_read_phase bus clk_wiz 1
        ph3 ← clock_wiz_read_phase bus clk_wiz 2
        ph4 ← clock_wiz_read_phase bus clk_wiz 3
        clock_wiz_write_phase bus clk_wiz 0 (u32 (ph1 + inc) % 360000)
        clock_wiz_write_phase bus clk_wiz 1 (u32 (ph2 + inc) % 360000)
        clock_wiz_write_phase bus clk_wiz 2 (u32 (ph3 + inc) % 360000)
        clock_wiz_write_phase bus clk_wiz 3 (u32 (ph4 + inc) % 360000)
        clock_wiz_register_changes bus clk_wiz)

  -- The body of the loop: the phase of clock `i`.
  unfoldable decrement_phase : AxiDevice → ℕ → ℕ → Driver bus.State ℕ
  decrement_phase clk_wiz decr i = do
    phase ← clock_wiz_read_phase bus clk_wiz i
    clock_wiz_write_phase bus clk_wiz i
        (if ltb phase decr then 360000 - (decr - phase) else phase - decr)

  unfoldable pub decrement_clock_wiz_phase_command : Args → Driver (CeresState bus) ℕ
  unfolding on_clk_wiz decrement_phase
  decrement_clock_wiz_phase_command args =
      let decr = args 0 % 360000 in
      on_clk_wiz bus (λ clk_wiz. do
        decrement_phase clk_wiz decr 0
        decrement_phase clk_wiz decr 1
        decrement_phase clk_wiz decr 2
        decrement_phase clk_wiz decr 3
        clock_wiz_register_changes bus clk_wiz)
