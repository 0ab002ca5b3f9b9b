-- ===== src/Devices/JesdPhy.antt =====
-- fakernet_code/jesd_phy.c: the transceivers of the JESD204 links, and the registers behind their DRP. A
-- transaction polls its status for ever: the rounds are fuel, and `none` is a status that has not come.
use fpga_tools.Prelude.{
  ℕ, zero, suc, ◌+◌, ◌^◌, Option, none, some, List, if◌then◌else◌, ◌==◌, bit_and, bit_or,
}
use fpga_tools.Trigger.{Bus}
use fpga_tools.Devices.{
  AxiDevice, Driver, ◌>>=◌, pure, or_fail, minus_one, read_register, write_register,
}

abbrev pub jesd_phy_gt_interface_selector : ℕ
jesd_phy_gt_interface_selector = 0x24

abbrev pub jesd_phy_lpmen_offset : ℕ
jesd_phy_lpmen_offset = 0x608

abbrev pub jesd_phy_ins_loss_offset : ℕ
jesd_phy_ins_loss_offset = 0xD4

abbrev pub jesd_phy_rx_lpdfe_reset_offset : ℕ
jesd_phy_rx_lpdfe_reset_offset = 0xD4

abbrev pub jesd_phy_drp_common_base : ℕ
jesd_phy_drp_common_base = 0x100

abbrev pub jesd_phy_drp_tranceiver_base : ℕ
jesd_phy_drp_tranceiver_base = 0x200

abbrev pub jesd_phy_drp_addr_offset : ℕ
jesd_phy_drp_addr_offset = 0x4

abbrev pub jesd_phy_drp_write_data_offset : ℕ
jesd_phy_drp_write_data_offset = 0x8

abbrev pub jesd_phy_drp_read_data_offset : ℕ
jesd_phy_drp_read_data_offset = 0xC

abbrev pub jesd_phy_drp_access_status_offset : ℕ
jesd_phy_drp_access_status_offset = 0x14

unfoldable pub new_jesd_phy : List ℕ → ℕ → AxiDevice
new_jesd_phy name axi_addr = record { name = name; axi_addr = axi_addr }

module _ (bus : Bus) (jesd_phy : AxiDevice) where
  unfoldable pub read_jesd_phy : ℕ → Driver bus.State ℕ
  unfolding read_register
  read_jesd_phy offset = read_register bus jesd_phy.axi_addr offset

  unfoldable pub write_jesd_phy : ℕ → ℕ → Driver bus.State ℕ
  unfolding write_register
  write_jesd_phy offset value = write_register bus jesd_phy.axi_addr offset value

  unfoldable pub write_lpmen : ℕ → Driver bus.State ℕ
  write_lpmen val = write_jesd_phy jesd_phy_lpmen_offset val

  unfoldable pub read_lpmen : Driver bus.State ℕ
  read_lpmen = read_jesd_phy jesd_phy_lpmen_offset

  unfoldable pub read_insertion_loss : Driver bus.State ℕ
  read_insertion_loss = read_jesd_phy jesd_phy_ins_loss_offset

  unfoldable pub write_insertion_loss : ℕ → Driver bus.State ℕ
  write_insertion_loss loss = write_jesd_phy jesd_phy_ins_loss_offset loss

  unfoldable pub reset_lpmen : Driver bus.State ℕ
  reset_lpmen = do
    first ← write_jesd_phy jesd_phy_rx_lpdfe_reset_offset 1
    second ← write_jesd_phy jesd_phy_rx_lpdfe_reset_offset 0
    pure (bit_or first second)

  -- `while(read_jesd_phy(...) != 0)`, and what follows it.
  unfoldable pub poll : ℕ → ℕ → Driver bus.State (Option ℕ) → Driver bus.State (Option ℕ)
  poll zero base next = pure none
  poll (suc fuel) base next = do
    status ← read_jesd_phy (base + jesd_phy_drp_access_status_offset)
    if status == 0 then next else poll fuel base next

  unfoldable pub write_drp : ℕ → ℕ → ℕ → ℕ → Driver bus.State (Option ℕ)
  unfolding or_fail poll
  write_drp fuel base drp_address value =
      or_fail (some minus_one) (write_jesd_phy (base + jesd_phy_drp_write_data_offset) value) (
        or_fail (some minus_one)
          (write_jesd_phy (base + jesd_phy_drp_addr_offset)
            (bit_or (bit_and drp_address 0x3FFFFFFF) (2 ^ 31)))
          (poll fuel base (pure (some 0))))

  unfoldable pub read_drp : ℕ → ℕ → ℕ → Driver bus.State (Option ℕ)
  unfolding or_fail poll
  read_drp fuel base drp_address =
      or_fail (some minus_one)
        (write_jesd_phy (base + jesd_phy_drp_addr_offset)
          (bit_or (bit_and drp_address 0x3FFFFFFF) (2 ^ 30)))
        (poll fuel base
          (do ret ← read_jesd_phy (base + jesd_phy_drp_read_data_offset); pure (some ret)))

  unfoldable pub read_drp_common : ℕ → ℕ → Driver bus.State (Option ℕ)
  unfolding read_drp
  read_drp_common fuel drp_address = read_drp fuel jesd_phy_drp_common_base drp_address

  unfoldable pub read_drp_transceiver : ℕ → ℕ → Driver bus.State (Option ℕ)
  unfolding read_drp
  read_drp_transceiver fuel drp_address = read_drp fuel jesd_phy_drp_tranceiver_base drp_address

  unfoldable pub write_drp_common : ℕ → ℕ → ℕ → Driver bus.State (Option ℕ)
  unfolding write_drp
  write_drp_common fuel drp_address value =
      write_drp fuel jesd_phy_drp_common_base drp_address value

  unfoldable pub write_drp_transceiver : ℕ → ℕ → ℕ → Driver bus.State (Option ℕ)
  unfolding write_drp
  write_drp_transceiver fuel drp_address value =
      write_drp fuel jesd_phy_drp_tranceiver_base drp_address value

  unfoldable pub write_jesd_phy_drp_interface_selector : ℕ → Driver bus.State ℕ
  write_jesd_phy_drp_interface_selector interface =
      write_jesd_phy jesd_phy_gt_interface_selector interface

  unfoldable pub read_jesd_phy_drp_interface_selector : Driver bus.State ℕ
  read_jesd_phy_drp_interface_selector = read_jesd_phy jesd_phy_gt_interface_selector
