-- ===== src/Commands/Fontus/Board.antt =====
-- The commands of FONTUS in fakernet_code/fontus_if.c for the LMK, the DAC, the resets, the triggers and
-- the GPIO registers.
use fpga_tools.Prelude.{ℕ, ◌/◌, ◌^◌, some, [], ◌∷◌, if◌then◌else◌, ◌==◌, bit_or, u8, u16}
use fpga_tools.Trigger.{Bus, read_trig_pipeline_value, write_trig_pipeline_value}
use fpga_tools.Trigger.Control.{
  write_self_trigger_enable, read_self_trigger_enable, write_pulse_generator_enable,
  read_sync_length, do_sync, write_auto_trig_length, read_auto_trig_length, write_auto_trig_rate,
  read_auto_trig_rate, write_auto_trig_enable, read_auto_trig_enable, fontus_read_build_info,
}
use fpga_tools.Devices.{Driver, ◌>>=◌, ◌>>◌, pure}
use fpga_tools.Devices.Qspi.{
  write_qspi_addr, read_qspi_addr, write_dac_spi, spi_drr_data_available, spi_drr_pop,
}
use fpga_tools.Devices.Lmk.{
  write_lmk_spi, read_pll1_dld_status_reg, read_pll2_dld_status_reg, clear_pll1_dld_status_reg,
  clear_pll2_dld_status_reg, read_lmk_dac, write_lmk_dac,
}
use fpga_tools.Devices.Clocks.{
  write_reset_gen_mask, write_reset_gen_length, reset_gen_do_reset, read_gpio_value,
  write_gpio_value,
}
use fpga_tools.Commands.{Args, Answer}
use fpga_tools.Commands.Fontus.{
  FontusState, on_lmk, on_dac, on_pipeline, on_gpio, on_reset_gen, reset_gen_pipeline_bit,
  reset_gen_axi_bit, reset_gen_aurora_bit, reset_gen_fifo_bit, coax_gpio_offset,
  sync_mod_gpio_offset, aurora_status_gpio_offset, aurora_lane_up_gpio_offset,
  update_input_and_dac_reg,
}

module _ (bus : Bus) where
  unfoldable pub write_lmk_if_command : Args → Driver (FontusState bus) ℕ
  unfolding on_lmk
  write_lmk_if_command args = on_lmk bus (write_qspi_addr bus (args 0) (args 1))

  unfoldable pub read_lmk_if_command : Args → Driver (FontusState bus) ℕ
  unfolding on_lmk
  read_lmk_if_command args = on_lmk bus (read_qspi_addr bus (args 0))

  unfoldable pub write_lmk_spi_command : Args → Driver (FontusState bus) ℕ
  unfolding on_lmk
  write_lmk_spi_command args = on_lmk bus (write_lmk_spi bus (args 0) (args 1) (args 2))

  unfoldable pub lmk_spi_data_available_command : Args → Driver (FontusState bus) ℕ
  unfolding on_lmk
  lmk_spi_data_available_command args = on_lmk bus (spi_drr_data_available bus)

  unfoldable pub lmk_spi_data_pop_command : Args → Driver (FontusState bus) ℕ
  unfolding on_lmk
  lmk_spi_data_pop_command args = on_lmk bus (spi_drr_pop bus)

  unfoldable pub read_lmk_dac_value_command : Args → Driver (FontusState bus) ℕ
  unfolding on_lmk
  read_lmk_dac_value_command args = on_lmk bus (read_lmk_dac bus)

  unfoldable pub write_lmk_dac_value_command : Args → Driver (FontusState bus) ℕ
  unfolding on_lmk
  write_lmk_dac_value_command args = on_lmk bus (write_lmk_dac bus (args 0))

  unfoldable pub set_enable_self_trigger_system_command : Args → Driver (FontusState bus) ℕ
  unfolding on_pipeline
  set_enable_self_trigger_system_command args =
      on_pipeline bus
        (λ pipeline. write_self_trigger_enable bus pipeline (if args 0 == 0 then 0 else 1))

  unfoldable pub read_enable_self_trigger_system_command : Args → Driver (FontusState bus) ℕ
  unfolding on_pipeline
  read_enable_self_trigger_system_command args =
      on_pipeline bus (λ pipeline. read_self_trigger_enable bus pipeline)

  unfoldable pub set_enable_trigger_command : Args → Driver (FontusState bus) ℕ
  unfolding on_pipeline
  set_enable_trigger_command args =
      on_pipeline bus
        (λ pipeline. write_pulse_generator_enable bus pipeline (if args 0 == 0 then 0 else 1))

  unfoldable pub read_dac_if_command : Args → Driver (FontusState bus) ℕ
  unfolding on_dac
  read_dac_if_command args = on_dac bus (read_qspi_addr bus (args 0))

  unfoldable pub write_dac_if_command : Args → Driver (FontusState bus) ℕ
  unfolding on_dac
  write_dac_if_command args = on_dac bus (write_qspi_addr bus (args 0) (args 1))

  unfoldable pub write_dac_spi_command : Args → Driver (FontusState bus) ℕ
  unfolding on_dac
  write_dac_spi_command args =
      on_dac bus (write_dac_spi bus (u8 (args 0)) (u8 (args 1)) (u16 (args 2)))

  unfoldable pub set_threshold_for_channel_command : Args → Driver (FontusState bus) ℕ
  unfolding on_dac
  set_threshold_for_channel_command args =
      on_dac bus (write_dac_spi bus update_input_and_dac_reg (u8 (args 0)) (u16 (args 1)))

  unfoldable pub read_sync_length_command : Args → Driver (FontusState bus) ℕ
  unfolding on_pipeline
  read_sync_length_command args = on_pipeline bus (λ pipeline. read_sync_length bus pipeline)

  unfoldable pub do_sync_command : Args → Driver (FontusState bus) ℕ
  unfolding on_pipeline
  do_sync_command args = on_pipeline bus (λ pipeline. do_sync bus pipeline (u16 (args 0)))

  unfoldable pub write_auto_trig_length_command : Args → Driver (FontusState bus) ℕ
  unfolding on_pipeline
  write_auto_trig_length_command args =
      on_pipeline bus (λ pipeline. write_auto_trig_length bus pipeline (args 0))

  unfoldable pub write_auto_trig_period_command : Args → Driver (FontusState bus) ℕ
  unfolding on_pipeline
  write_auto_trig_period_command args =
      on_pipeline bus (λ pipeline. write_auto_trig_rate bus pipeline (args 0))

  unfoldable pub write_auto_trig_enable_command : Args → Driver (FontusState bus) ℕ
  unfolding on_pipeline
  write_auto_trig_enable_command args =
      on_pipeline bus (λ pipeline. write_auto_trig_enable bus pipeline (args 0))

  unfoldable pub read_auto_trig_enable_command : Args → Driver (FontusState bus) ℕ
  unfolding on_pipeline
  read_auto_trig_enable_command args =
      on_pipeline bus (λ pipeline. read_auto_trig_enable bus pipeline)

  unfoldable pub write_coax_dir_select_command : Args → Driver (FontusState bus) ℕ
  unfolding on_gpio
  write_coax_dir_select_command args =
      on_gpio bus (λ gpio. write_gpio_value bus gpio coax_gpio_offset (args 0))

  unfoldable pub read_coax_dir_select_command : Args → Driver (FontusState bus) ℕ
  unfolding on_gpio
  read_coax_dir_select_command args =
      on_gpio bus (λ gpio. read_gpio_value bus gpio 0 coax_gpio_offset)

  unfoldable pub write_trigger_pipeline_reg_command : Args → Driver (FontusState bus) ℕ
  unfolding on_pipeline
  write_trigger_pipeline_reg_command args =
      on_pipeline bus (λ pipeline. write_trig_pipeline_value bus pipeline (args 0) (args 1))

  unfoldable pub read_trigger_pipeline_reg_command : Args → Driver (FontusState bus) ℕ
  unfolding on_pipeline
  read_trigger_pipeline_reg_command args =
      on_pipeline bus (λ pipeline. read_trig_pipeline_value bus pipeline (args 0))

  unfoldable pub write_sync_mod_command : Args → Driver (FontusState bus) ℕ
  unfolding on_gpio
  write_sync_mod_command args =
      on_gpio bus (λ gpio. write_gpio_value bus gpio sync_mod_gpio_offset (args 0))

  unfoldable pub read_sync_mod_command : Args → Driver (FontusState bus) ℕ
  unfolding on_gpio
  read_sync_mod_command args = on_gpio bus (λ gpio. read_gpio_value bus gpio 0 sync_mod_gpio_offset)

  unfoldable pub read_aurora_status_command : Args → Driver (FontusState bus) ℕ
  unfolding on_gpio
  read_aurora_status_command args =
      on_gpio bus (λ gpio. read_gpio_value bus gpio 1 aurora_status_gpio_offset)

  unfoldable pub read_aurora_lane_up_command : Args → Driver (FontusState bus) ℕ
  unfolding on_gpio
  read_aurora_lane_up_command args =
      on_gpio bus (λ gpio. read_gpio_value bus gpio 1 aurora_lane_up_gpio_offset)

  unfoldable pub read_gpio_input_register_command : Args → Driver (FontusState bus) ℕ
  unfolding on_gpio
  read_gpio_input_register_command args = on_gpio bus (λ gpio. read_gpio_value bus gpio 1 (args 0))

  unfoldable pub read_build_tag_command : Args → Driver (FontusState bus) ℕ
  unfolding on_pipeline
  read_build_tag_command args = on_pipeline bus (λ pipeline. fontus_read_build_info bus pipeline)

  unfoldable pub read_lmk_pll_status_command : Args → Driver (FontusState bus) ℕ
  unfolding on_lmk
  read_lmk_pll_status_command args =
      let which_pll = args 0 in
      on_lmk bus
        (if which_pll == 0 then read_pll1_dld_status_reg bus else read_pll2_dld_status_reg bus)

  unfoldable pub clear_lmk_pll_status_command : Args → Driver (FontusState bus) ℕ
  unfolding on_lmk
  clear_lmk_pll_status_command args =
      let which_pll = args 0 in
      on_lmk bus
        (if which_pll == 0 then clear_pll1_dld_status_reg bus else clear_pll2_dld_status_reg bus)

  unfoldable pub generic_sys_reset : ℕ → Driver (FontusState bus) ℕ
  unfolding on_reset_gen
  generic_sys_reset bit_mask = do
    on_reset_gen bus (λ reset_gen. write_reset_gen_mask bus reset_gen bit_mask)
    on_reset_gen bus (λ reset_gen. write_reset_gen_length bus reset_gen 5000)
    on_reset_gen bus (λ reset_gen. reset_gen_do_reset bus reset_gen)

  unfoldable pub pipeline_sys_reset_command : Args → Driver (FontusState bus) ℕ
  unfolding generic_sys_reset
  pipeline_sys_reset_command args = do generic_sys_reset (2 ^ reset_gen_pipeline_bit); pure 0

  unfoldable pub aurora_sys_reset_command : Args → Driver (FontusState bus) ℕ
  unfolding generic_sys_reset
  aurora_sys_reset_command args = do generic_sys_reset (2 ^ reset_gen_aurora_bit); pure 0

  unfoldable pub axi_sys_reset_command : Args → Driver (FontusState bus) ℕ
  unfolding generic_sys_reset
  axi_sys_reset_command args = do generic_sys_reset (2 ^ reset_gen_axi_bit); pure 0

  unfoldable pub fifo_sys_reset_command : Args → Driver (FontusState bus) ℕ
  unfolding generic_sys_reset
  fifo_sys_reset_command args = do generic_sys_reset (2 ^ reset_gen_fifo_bit); pure 0

  -- The quotient of the doubles is exact enough: its whole part is the quotient of the numbers. A rate of 0
  -- gives an infinity, and `of_infinity` as a number.
  unfoldable pub write_auto_trig_params_command : ℕ → Args → Driver (FontusState bus) Answer
  unfolding on_pipeline
  write_auto_trig_params_command of_infinity args =
      let rate = args 0 in
      let length = args 1 in
      let period = if rate == 0 then of_infinity else 250000000 / rate in
      (do
        first ← on_pipeline bus (λ pipeline. write_auto_trig_length bus pipeline length)
        second ← on_pipeline bus (λ pipeline. write_auto_trig_rate bus pipeline period)
        pure (some (bit_or first second, [])))

  -- The handler stores the period and the length.
  unfoldable pub read_auto_trig_params_command : Args → Driver (FontusState bus) Answer
  unfolding on_pipeline
  read_auto_trig_params_command args = do
    length ← on_pipeline bus (λ pipeline. read_auto_trig_length bus pipeline)
    period ← on_pipeline bus (λ pipeline. read_auto_trig_rate bus pipeline)
    pure (some (0, period ∷ length ∷ []))
