-- ===== src/Tests/Devices.antt =====
-- The drivers on a bus that is an array of registers, and on one whose queue is full.
use fpga_tools.Prelude.{◌≡◌, arith, refl, [], ◌∷◌, ◌++◌}
use fpga_tools.Devices.Trace.{write_all, Accepts}
use fpga_tools.Devices.Qspi.{SpiCr, AxiQspi, write_spi}
use fpga_tools.Devices.Qspi.Control.{IsFlags}
use fpga_tools.Devices.Qspi.Frames.{enabled, spi_writes, write_spi_lem}
use fpga_tools.Devices.Iic.{AxiIic, iic_cr_offset, write_iic_bus_with_reg}
use fpga_tools.Devices.Iic.Bytes.{
  start_writes, address_writes, value_writes, write_iic_bus_with_reg_lem,
}
use fpga_tools.Tests.Trigger.{registers, fresh}

abbrev master : SpiCr
master = record {
  lsb_first = 0;
  master_inhibit = 0;
  manual_slave_select_enable = 1;
  rx_fifo_reset = 0;
  tx_fifo_reset = 0;
  cpha = 0;
  cpol = 1;
  master = 1;
  spi_enable = 0;
  loop_back = 0;
}

abbrev qspi : AxiQspi
qspi = record { name = []; axi_addr = 0; spi_cr = master }

master-IsFlags : IsFlags master
master-IsFlags = record {
  lsb_first = omega arith;
  master_inhibit = omega arith;
  manual_slave_select_enable = omega arith;
  rx_fifo_reset = omega arith;
  tx_fifo_reset = omega arith;
  cpha = omega arith;
  cpol = omega arith;
  master = omega arith;
  spi_enable = omega arith;
  loop_back = omega arith;
}

write_spi_lem_example : write_spi registers 6 (1 ∷ 2 ∷ 3 ∷ []) (qspi, fresh) ≡ (
  0,
  (
    record qspi { spi_cr = enabled 0 master },
    write_all registers 0 (spi_writes 140 142 6 (1 ∷ 2 ∷ 3 ∷ [])) fresh,
  ),
)
write_spi_lem_example = write_spi_lem registers 6 (1 ∷ 2 ∷ 3 ∷ []) qspi fresh master-IsFlags

abbrev iic : AxiIic
iic = record { name = []; axi_addr = 0; data_size = 2; reg_addr_size = 1 }

registers-Accepts : Accepts registers
registers-Accepts base o d s = refl

write_iic_bus_with_reg_lem_example : write_iic_bus_with_reg registers iic 0x20 5 0x1234 fresh ≡ (
  0,
  write_all registers 0
      (start_writes 0x20
        ++ address_writes 5 1
        ++ value_writes 0x1234 2
        ++ ((iic_cr_offset, 0x1) ∷ []))
      fresh,
)
write_iic_bus_with_reg_lem_example =
    write_iic_bus_with_reg_lem registers iic registers-Accepts 0x20 5 0x1234 fresh (omega arith)
