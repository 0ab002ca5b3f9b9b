-- ===== src/Devices/Clocks.antt =====
-- fakernet_code/reset_gen_if.c, clock_wiz.c and gpio.c: the reset generator, the clocks and the ports. An
-- offset is computed in 32 bits, and a negative clock or port is its bit pattern.
use fpga_tools.Prelude.{ℕ, ◌+◌, ◌*◌, ◌^◌, List, if◌then◌else◌, ◌==◌, bit_or, u32}
use fpga_tools.Trigger.{Bus}
use fpga_tools.Devices.{AxiDevice, Driver, read_register, write_register}

abbrev pub reset_gen_do_reset_offset : ℕ
reset_gen_do_reset_offset = 0x0

abbrev pub reset_gen_mask_offset : ℕ
reset_gen_mask_offset = 0x4

abbrev pub reset_gen_length_offset : ℕ
reset_gen_length_offset = 0x8

abbrev pub width_between_clocks : ℕ
width_between_clocks = 12

abbrev pub phase_offset : ℕ
phase_offset = 0x20C

abbrev pub clock_changes_offset : ℕ
clock_changes_offset = 0x25C

unfoldable pub new_reset_gen : List ℕ → ℕ → AxiDevice
new_reset_gen name axi_addr = record { name = name; axi_addr = axi_addr }

unfoldable pub new_clock_wiz : List ℕ → ℕ → AxiDevice
new_clock_wiz name axi_addr = record { name = name; axi_addr = axi_addr }

unfoldable pub new_gpio : List ℕ → ℕ → AxiDevice
new_gpio name axi_addr = record { name = name; axi_addr = axi_addr }

module _ (bus : Bus) where
  unfoldable pub read_reset_gen : ℕ → ℕ → Driver bus.State ℕ
  unfolding read_register
  read_reset_gen addr offset = read_register bus addr offset

  unfoldable pub write_reset_gen : ℕ → ℕ → ℕ → Driver bus.State ℕ
  unfolding write_register
  write_reset_gen addr offset value = write_register bus addr offset value

module _ (bus : Bus) (device : AxiDevice) where
  unfoldable pub write_reset_gen_length : ℕ → Driver bus.State ℕ
  unfolding write_register
  write_reset_gen_length length = write_register bus device.axi_addr reset_gen_length_offset length

  unfoldable pub read_reset_gen_length : Driver bus.State ℕ
  read_reset_gen_length = read_reset_gen bus device.axi_addr reset_gen_length_offset

  unfoldable pub write_reset_gen_mask : ℕ → Driver bus.State ℕ
  write_reset_gen_mask mask = write_reset_gen bus device.axi_addr reset_gen_mask_offset mask

  unfoldable pub read_reset_gen_mask : Driver bus.State ℕ
  read_reset_gen_mask = read_reset_gen bus device.axi_addr reset_gen_mask_offset

  unfoldable pub reset_gen_do_reset : Driver bus.State ℕ
  reset_gen_do_reset = write_reset_gen bus device.axi_addr reset_gen_do_reset_offset 1

  unfoldable pub clock_wiz_read_phase : ℕ → Driver bus.State ℕ
  unfolding read_register
  clock_wiz_read_phase which_clock =
      read_register bus device.axi_addr (u32 (phase_offset + which_clock * width_between_clocks))

  unfoldable pub clock_wiz_write_phase : ℕ → ℕ → Driver bus.State ℕ
  unfolding write_register
  clock_wiz_write_phase which_clock value =
      write_register bus device.axi_addr (u32 (phase_offset + which_clock * width_between_clocks))
        value

  unfoldable pub clock_wiz_register_changes : Driver bus.State ℕ
  unfolding write_register
  clock_wiz_register_changes = write_register bus device.axi_addr clock_changes_offset 3

  unfoldable pub clock_wiz_reset : Driver bus.State ℕ
  unfolding write_register
  clock_wiz_reset = write_register bus device.axi_addr 0x0 0xA

  unfoldable pub read_clock_wiz_reg : ℕ → Driver bus.State ℕ
  unfolding read_register
  read_clock_wiz_reg offset = read_register bus device.axi_addr offset

  unfoldable pub read_gpio_value : ℕ → ℕ → Driver bus.State ℕ
  unfolding read_register
  read_gpio_value input_port port_number =
      let port_offset = u32 (port_number * 4) in
      read_register bus device.axi_addr
        (if input_port == 0 then port_offset else bit_or port_offset (2 ^ 11))

  unfoldable pub write_gpio_value : ℕ → ℕ → Driver bus.State ℕ
  unfolding write_register
  write_gpio_value port_number value =
      write_register bus device.axi_addr (u32 (port_number * 4)) value
