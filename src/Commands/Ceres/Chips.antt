-- ===== src/Commands/Ceres/Chips.antt =====
-- The commands of CERES in fakernet_code/ceres_if.c for the ADC, the LMK and the IIC chips.
use fpga_tools.Prelude.{ℕ, if◌then◌else◌, ◌==◌, u8}
use fpga_tools.Trigger.{Bus}
use fpga_tools.Devices.{Driver, ◌>>=◌, ◌>>◌, pure}
use fpga_tools.Devices.Qspi.{
  write_qspi_addr, read_qspi_addr, write_adc_spi, spi_drr_data_available, spi_drr_pop,
}
use fpga_tools.Devices.Lmk.{
  write_lmk_spi, read_lmk_dac, write_lmk_dac, read_pll1_dld_status_reg, read_pll2_dld_status_reg,
  clear_pll1_dld_status_reg, clear_pll2_dld_status_reg,
}
use fpga_tools.Devices.Iic.{
  iic_read, iic_write, read_iic_bus, write_iic_bus, read_iic_bus_with_reg, write_iic_bus_with_reg,
}
use fpga_tools.Commands.Ceres.{CeresState, on_adc, on_lmk, on_iic_main}
use fpga_tools.Commands.{Args}

module _ (bus : Bus) where
  unfoldable pub read_iic_block_command : Args → Driver (CeresState bus) ℕ
  unfolding on_iic_main
  read_iic_block_command args = on_iic_main bus (λ iic_main. iic_read bus iic_main (args 0))

  unfoldable pub write_iic_block_command : Args → Driver (CeresState bus) ℕ
  unfolding on_iic_main
  write_iic_block_command args =
      on_iic_main bus (λ iic_main. iic_write bus iic_main (args 0) (args 1))

  unfoldable pub read_iic_bus_command : Args → Driver (CeresState bus) ℕ
  unfolding on_iic_main
  read_iic_bus_command args = on_iic_main bus (λ iic_main. read_iic_bus bus iic_main (u8 (args 0)))

  unfoldable pub write_iic_bus_command : Args → Driver (CeresState bus) ℕ
  unfolding on_iic_main
  write_iic_bus_command args =
      on_iic_main bus (λ iic_main. write_iic_bus bus iic_main (u8 (args 0)) (u8 (args 1)))

  unfoldable pub read_iic_bus_with_reg_command : Args → Driver (CeresState bus) ℕ
  unfolding on_iic_main
  read_iic_bus_with_reg_command args =
      on_iic_main bus (λ iic_main. read_iic_bus_with_reg bus iic_main (u8 (args 0)) (args 1))

  unfoldable pub write_iic_bus_with_reg_command : Args → Driver (CeresState bus) ℕ
  unfolding on_iic_main
  write_iic_bus_with_reg_command args =
      on_iic_main bus
        (λ iic_main. write_iic_bus_with_reg bus iic_main (u8 (args 0)) (args 1) (args 2))

  unfoldable pub write_ads_if_command : Args → Driver (CeresState bus) ℕ
  unfolding on_adc
  write_ads_if_command args = on_adc bus (args 0) (write_qspi_addr bus (args 1) (args 2))

  unfoldable pub read_ads_if_command : Args → Driver (CeresState bus) ℕ
  unfolding on_adc
  read_ads_if_command args = on_adc bus (args 0) (read_qspi_addr bus (args 1))

  unfoldable pub write_adc_spi_command : Args → Driver (CeresState bus) ℕ
  unfolding on_adc
  write_adc_spi_command args = on_adc bus (args 0) (write_adc_spi bus (args 1) (args 2) (args 3))

  unfoldable pub ads_spi_data_available_command : Args → Driver (CeresState bus) ℕ
  unfolding on_adc
  ads_spi_data_available_command args = on_adc bus (args 0) (spi_drr_data_available bus)

  unfoldable pub ads_spi_data_pop_command : Args → Driver (CeresState bus) ℕ
  unfolding on_adc
  ads_spi_data_pop_command args = on_adc bus (args 0) (spi_drr_pop bus)

  unfoldable pub write_lmk_if_command : Args → Driver (CeresState bus) ℕ
  unfolding on_lmk
  write_lmk_if_command args = on_lmk bus (args 0) (write_qspi_addr bus (args 1) (args 2))

  unfoldable pub read_lmk_if_command : Args → Driver (CeresState bus) ℕ
  unfolding on_lmk
  read_lmk_if_command args = on_lmk bus (args 0) (read_qspi_addr bus (args 1))

  unfoldable pub write_lmk_spi_command : Args → Driver (CeresState bus) ℕ
  unfolding on_lmk
  write_lmk_spi_command args = on_lmk bus (args 0) (write_lmk_spi bus (args 1) (args 2) (args 3))

  unfoldable pub lmk_spi_data_available_command : Args → Driver (CeresState bus) ℕ
  unfolding on_lmk
  lmk_spi_data_available_command args = on_lmk bus (args 0) (spi_drr_data_available bus)

  unfoldable pub lmk_spi_data_pop_command : Args → Driver (CeresState bus) ℕ
  unfolding on_lmk
  lmk_spi_data_pop_command args = on_lmk bus (args 0) (spi_drr_pop bus)

  unfoldable pub read_lmk_dac_value_command : Args → Driver (CeresState bus) ℕ
  unfolding on_lmk
  read_lmk_dac_value_command args = on_lmk bus (args 0) (read_lmk_dac bus)

  unfoldable pub write_lmk_dac_value_command : Args → Driver (CeresState bus) ℕ
  unfolding on_lmk
  write_lmk_dac_value_command args = on_lmk bus (args 0) (write_lmk_dac bus (args 1))

  unfoldable pub read_lmk_pll_status_command : Args → Driver (CeresState bus) ℕ
  unfolding on_lmk
  read_lmk_pll_status_command args =
      let which_pll = args 1 in
      on_lmk bus (args 0)
        (if which_pll == 0 then read_pll1_dld_status_reg bus else read_pll2_dld_status_reg bus)

  unfoldable pub clear_lmk_pll_status_command : Args → Driver (CeresState bus) ℕ
  unfolding on_lmk
  clear_lmk_pll_status_command args =
      let which_pll = args 1 in
      on_lmk bus (args 0)
        (if which_pll == 0 then clear_pll1_dld_status_reg bus else clear_pll2_dld_status_reg bus)

  -- The condition of the source is the number 0x11.
  unfoldable pub set_sysref_command : Args → Driver (CeresState bus) ℕ
  unfolding on_lmk
  set_sysref_command args =
      let onoff = args 1 in
      on_lmk bus (args 0) (do
        ret ← write_lmk_spi bus 1 0x127 (if 0x11 == 0 then 0x01 else onoff)
        spi_drr_pop bus
        spi_drr_pop bus
        spi_drr_pop bus
        pure ret)
