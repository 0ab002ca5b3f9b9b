-- ===== src/Commands/Ceres/Links.antt =====
-- The commands of CERES in fakernet_code/ceres_if.c for the JESD links; a handler that polls runs on a number of rounds.
use fpga_tools.Prelude.{ℕ, Option, some, [], ◌∷◌, bit_and}
use fpga_tools.Trigger.{Bus}
use fpga_tools.Devices.{Driver, ◌>>=◌, pure, minus_one}
use fpga_tools.Devices.Jesd.{
  read_jesd, write_jesd, jesd_reset, jesd_is_synced, set_sync_error_reporting, jesd_error_count,
  jesd_read_error_rate, read_jesd_buffer_delay, write_jesd_buffer_delay,
}
use fpga_tools.Devices.JesdPhy.{
  write_jesd_phy, read_jesd_phy, write_lpmen, read_lpmen, reset_lpmen, read_insertion_loss,
  read_drp_common, write_drp_common, read_drp_transceiver, write_drp_transceiver,
  read_jesd_phy_drp_interface_selector, write_jesd_phy_drp_interface_selector,
}
use fpga_tools.Commands.Ceres.{CeresState, on_jesd, on_jesd_phy}
use fpga_tools.Commands.{Args, Answer}

module _ (bus : Bus) where
  unfoldable pub jesd_read_command : Args → Driver (CeresState bus) ℕ
  unfolding on_jesd
  jesd_read_command args = on_jesd bus minus_one (args 0) (λ jesd. read_jesd bus jesd (args 1))

  unfoldable pub jesd_write_command : Args → Driver (CeresState bus) ℕ
  unfolding on_jesd
  jesd_write_command args =
      on_jesd bus minus_one (args 0) (λ jesd. write_jesd bus jesd (args 1) (args 2))

  unfoldable pub jesd_reset_command : Args → Driver (CeresState bus) ℕ
  unfolding on_jesd
  jesd_reset_command args = on_jesd bus minus_one (args 0) (λ jesd. jesd_reset bus jesd)

  unfoldable pub jesd_is_synced_command : Args → Driver (CeresState bus) ℕ
  unfolding on_jesd
  jesd_is_synced_command args = on_jesd bus minus_one (args 0) (λ jesd. jesd_is_synced bus jesd)

  unfoldable pub jesd_set_sync_error_reporting_command : Args → Driver (CeresState bus) ℕ
  unfolding on_jesd
  jesd_set_sync_error_reporting_command args =
      on_jesd bus minus_one (args 0) (λ jesd. set_sync_error_reporting bus jesd (args 1))

  unfoldable pub write_jesd_phy_command : Args → Driver (CeresState bus) ℕ
  unfolding on_jesd_phy
  write_jesd_phy_command args =
      on_jesd_phy bus minus_one (args 0) (λ jesd_phy. write_jesd_phy bus jesd_phy (args 1) (args 2))

  unfoldable pub read_jesd_phy_command : Args → Driver (CeresState bus) ℕ
  unfolding on_jesd_phy
  read_jesd_phy_command args =
      on_jesd_phy bus minus_one (args 0) (λ jesd_phy. read_jesd_phy bus jesd_phy (args 1))

  unfoldable pub set_jesd_lpmen_command : Args → Driver (CeresState bus) ℕ
  unfolding on_jesd_phy
  set_jesd_lpmen_command args =
      on_jesd_phy bus minus_one (args 0) (λ jesd_phy. write_lpmen bus jesd_phy (args 1))

  unfoldable pub read_jesd_lpmen_command : Args → Driver (CeresState bus) ℕ
  unfolding on_jesd_phy
  read_jesd_lpmen_command args =
      on_jesd_phy bus minus_one (args 0) (λ jesd_phy. read_lpmen bus jesd_phy)

  unfoldable pub reset_lpmen_command : Args → Driver (CeresState bus) ℕ
  unfolding on_jesd_phy
  reset_lpmen_command args =
      on_jesd_phy bus minus_one (args 0) (λ jesd_phy. reset_lpmen bus jesd_phy)

  unfoldable pub read_insertion_loss_command : Args → Driver (CeresState bus) ℕ
  unfolding on_jesd_phy
  read_insertion_loss_command args =
      on_jesd_phy bus minus_one (args 0) (λ jesd_phy. read_insertion_loss bus jesd_phy)

  unfoldable pub read_jesd_drp_common_command : ℕ → Args → Driver (CeresState bus) (Option ℕ)
  unfolding on_jesd_phy
  read_jesd_drp_common_command fuel args =
      on_jesd_phy bus (some minus_one) (args 0)
        (λ jesd_phy. read_drp_common bus jesd_phy fuel (args 1))

  unfoldable pub write_jesd_drp_common_command : ℕ → Args → Driver (CeresState bus) (Option ℕ)
  unfolding on_jesd_phy
  write_jesd_drp_common_command fuel args =
      on_jesd_phy bus (some minus_one) (args 0)
        (λ jesd_phy. write_drp_common bus jesd_phy fuel (args 1) (bit_and (args 2) 0xFFFF))

  unfoldable pub read_drp_interface_selector_command : Args → Driver (CeresState bus) ℕ
  unfolding on_jesd_phy
  read_drp_interface_selector_command args =
      on_jesd_phy bus minus_one (args 0)
        (λ jesd_phy. read_jesd_phy_drp_interface_selector bus jesd_phy)

  unfoldable pub write_drp_interface_selector_command : Args → Driver (CeresState bus) ℕ
  unfolding on_jesd_phy
  write_drp_interface_selector_command args =
      on_jesd_phy bus minus_one (args 0)
        (λ jesd_phy. write_jesd_phy_drp_interface_selector bus jesd_phy (args 1))

  unfoldable pub read_jesd_drp_channel_command : ℕ → Args → Driver (CeresState bus) (Option ℕ)
  unfolding on_jesd_phy
  read_jesd_drp_channel_command fuel args =
      on_jesd_phy bus (some minus_one) (args 0)
        (λ jesd_phy. read_drp_transceiver bus jesd_phy fuel (args 1))

  unfoldable pub write_jesd_drp_channel_command : ℕ → Args → Driver (CeresState bus) (Option ℕ)
  unfolding on_jesd_phy
  write_jesd_drp_channel_command fuel args =
      on_jesd_phy bus (some minus_one) (args 0)
        (λ jesd_phy. write_drp_transceiver bus jesd_phy fuel (args 1) (bit_and (args 2) 0xFFFF))

  unfoldable pub read_jesd_buffer_delay_command : Args → Driver (CeresState bus) ℕ
  unfolding on_jesd
  read_jesd_buffer_delay_command args =
      on_jesd bus minus_one (args 0) (λ jesd. read_jesd_buffer_delay bus jesd)

  unfoldable pub write_jesd_buffer_delay_command : Args → Driver (CeresState bus) ℕ
  unfolding on_jesd
  write_jesd_buffer_delay_command args =
      on_jesd bus minus_one (args 0) (λ jesd. write_jesd_buffer_delay bus jesd (args 1))

  unfoldable pub jesd_error_count_command : Args → Driver (CeresState bus) Answer
  unfolding on_jesd
  jesd_error_count_command args =
      on_jesd bus (some (minus_one, [])) (args 0)
        (λ jesd. do resp ← jesd_error_count bus jesd 1; pure (some (0, resp)))

  unfoldable pub jesd_error_rate_command : Args → Driver (CeresState bus) Answer
  unfolding on_jesd
  jesd_error_rate_command args =
      on_jesd bus (some (minus_one, [])) (args 0)
        (λ jesd. do resp ← jesd_read_error_rate bus jesd; pure (some (0, resp)))

  unfoldable pub read_jesd_rx_lane_buffer_adj_command : Args → Driver (CeresState bus) Answer
  unfolding on_jesd
  read_jesd_rx_lane_buffer_adj_command args = on_jesd bus (some (minus_one, [])) (args 0) (λ jesd.
      do
        a ← read_jesd bus jesd 0x830
        b ← read_jesd bus jesd 0x870
        c ← read_jesd bus jesd 0x8B0
        d ← read_jesd bus jesd 0x8F0
        pure (some (0, a ∷ b ∷ c ∷ d ∷ [])))
