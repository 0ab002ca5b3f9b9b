-- ===== src/Devices/Iic.antt =====
-- fakernet_code/iic.c: the IIC controller, and the transactions that go through its registers. The sizes of
-- a device are at most 4 bytes: C leaves the shifts of `write_iic_bus_with_reg` undefined beyond.
pub mod Bytes
use fpga_tools.Prelude.{
  ℕ, zero, suc, ◌+◌, ◌-◌, ◌*◌, ◌/◌, ◌^◌, List, if◌then◌else◌, ltb, ◌==◌, bit_and, bit_or, ◌<<<◌,
  ◌>>>◌, u8, u32,
}
use fpga_tools.Trigger.{Bus}
use fpga_tools.Devices.{
  Driver, ◌>>=◌, ◌>>◌, pure, or_fail, minus_one, read_register, write_register,
}

abbrev pub iic_cr_offset : ℕ
iic_cr_offset = 0x100

abbrev pub iic_tx_fifo_offset : ℕ
iic_tx_fifo_offset = 0x108

abbrev pub iic_rx_fifo_offset : ℕ
iic_rx_fifo_offset = 0x10C

abbrev pub iic_pirq_offset : ℕ
iic_pirq_offset = 0x120

abbrev pub iic_gpio_offset : ℕ
iic_gpio_offset = 0x124

-- `AXI_IIC`
pub record AxiIic : Type 0 where
  pub name : List ℕ
  pub axi_addr : ℕ
  pub data_size : ℕ
  pub reg_addr_size : ℕ

unfoldable pub new_iic : List ℕ → ℕ → ℕ → ℕ → AxiIic
new_iic name axi_addr data_size reg_addr_size = record {
  name = name;
  axi_addr = axi_addr;
  data_size = data_size;
  reg_addr_size = reg_addr_size;
}

-- `(reg_addr & (0xFF << (i*8))) >> (i*8)` as a `uint8_t`.
unfoldable pub addr_byte : ℕ → ℕ → ℕ
addr_byte reg_addr i = u8 (bit_and reg_addr (u32 (0xFF <<< (i * 8))) >>> (i * 8))

-- `(reg_value >> (i*8)) & 0xFF`, with the STOP bit on the last byte.
unfoldable pub value_byte : ℕ → ℕ → ℕ
value_byte reg_value i =
    let val = bit_and (reg_value >>> (i * 8)) 0xFF in if i == 0 then bit_or val (2 ^ 9) else val

module _ (bus : Bus) (iic : AxiIic) where
  unfoldable pub iic_write : ℕ → ℕ → Driver bus.State ℕ
  unfolding write_register
  iic_write addr value = write_register bus iic.axi_addr addr value

  unfoldable pub iic_read : ℕ → Driver bus.State ℕ
  unfolding read_register
  iic_read addr = read_register bus iic.axi_addr addr

  unfoldable pub read_iic_bus : ℕ → Driver bus.State ℕ
  unfolding or_fail
  read_iic_bus iic_addr = or_fail 0 (iic_write iic_pirq_offset 0xF) (
      or_fail 0 (iic_write iic_cr_offset 0x2) (
        or_fail 0 (iic_write iic_cr_offset 0x9) (
          or_fail 0 (iic_write iic_tx_fifo_offset (bit_or (bit_or iic_addr (2 ^ 8)) 1))
            (or_fail 0 (iic_write iic_tx_fifo_offset (2 ^ 9 + 1)) (iic_read iic_rx_fifo_offset)))))

  unfoldable pub read_iic_gpio : Driver bus.State ℕ
  read_iic_gpio = iic_read iic_gpio_offset

  unfoldable pub write_iic_gpio : ℕ → Driver bus.State ℕ
  write_iic_gpio value = iic_write iic_gpio_offset value

  unfoldable pub write_iic_bus : ℕ → ℕ → Driver bus.State ℕ
  unfolding or_fail
  write_iic_bus iic_addr iic_value = or_fail minus_one (iic_write iic_pirq_offset 0xF) (
      or_fail minus_one (iic_write iic_cr_offset 0x2) (
        or_fail minus_one (iic_write iic_cr_offset 0x9) (
          or_fail minus_one (iic_write iic_tx_fifo_offset (bit_or (bit_and iic_addr 0xFE) (2 ^ 8)))
            (or_fail minus_one (iic_write iic_tx_fifo_offset (bit_or (2 ^ 9) iic_value))
              (pure 0)))))

  -- The loop over the bytes of the register's address, `left` of them, the top one first; a write that
  -- fails returns 0.
  unfoldable pub write_address : ℕ → ℕ → Driver bus.State ℕ → Driver bus.State ℕ
  unfolding addr_byte or_fail
  write_address reg_addr zero next = next
  write_address reg_addr (suc i) next =
      or_fail 0 (iic_write iic_tx_fifo_offset (addr_byte reg_addr i))
        (write_address reg_addr i next)

  -- The loop over the bytes of the value.
  unfoldable pub write_value : ℕ → ℕ → Driver bus.State ℕ → Driver bus.State ℕ
  unfolding value_byte or_fail
  write_value reg_value zero next = next
  write_value reg_value (suc i) next =
      or_fail minus_one (iic_write iic_tx_fifo_offset (value_byte reg_value i))
        (write_value reg_value i next)

  -- What both transactions on a register start with.
  unfoldable pub start_transaction : ℕ → ℕ → Driver bus.State ℕ → Driver bus.State ℕ
  unfolding or_fail
  start_transaction error iic_addr next = or_fail error (iic_write iic_pirq_offset 0xF) (
      or_fail error (iic_write iic_cr_offset 0x2) (
        or_fail error (iic_write iic_cr_offset 0x0) (
          or_fail error (iic_write iic_tx_fifo_offset (bit_or (bit_and iic_addr 0xFE) (2 ^ 8)))
            next)))

  -- The loop over the bytes that arrive, `left` of them.
  unfoldable pub read_bytes : ℕ → ℕ → Driver bus.State ℕ
  read_bytes zero data_val = pure data_val
  read_bytes (suc left) data_val = do
    byte ← iic_read iic_rx_fifo_offset
    read_bytes left (bit_or data_val (u32 (byte <<< (left * 8))))

  unfoldable pub read_iic_bus_with_reg : ℕ → ℕ → Driver bus.State ℕ
  unfolding start_transaction write_address read_bytes or_fail
  read_iic_bus_with_reg iic_addr reg_addr =
      if ltb 4 iic.data_size
      then pure 0
      else if ltb 4 iic.reg_addr_size
      then pure 0
      else start_transaction 0 iic_addr (
          write_address reg_addr iic.reg_addr_size (
            or_fail 0 (iic_write iic_tx_fifo_offset (bit_or (bit_or iic_addr (2 ^ 8)) 1)) (
              or_fail 0 (iic_write iic_tx_fifo_offset (bit_or (2 ^ 9) iic.data_size))
                (or_fail 0 (iic_write iic_cr_offset 0x1) (read_bytes iic.data_size 0)))))

  unfoldable pub write_iic_bus_with_reg : ℕ → ℕ → ℕ → Driver bus.State ℕ
  unfolding start_transaction write_address write_value or_fail
  write_iic_bus_with_reg iic_addr reg_addr reg_value = start_transaction minus_one iic_addr (
      write_address reg_addr iic.reg_addr_size (
        write_value reg_value iic.data_size
          (or_fail minus_one (iic_write iic_cr_offset 0x1) (pure 0))))
