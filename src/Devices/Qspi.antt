-- ===== src/Devices/Qspi.antt =====
-- fakernet_code/axi_qspi.c: the SPI controller; ads_if.c and dac_if.c: what is sent to the ADC and the DAC.
-- A device with its control register stands in the state, beside the bus. An `int` is its bit pattern.
pub mod Control
pub mod Frames
use fpga_tools.Prelude.{
  ℕ, zero, suc, ◌+◌, ◌*◌, ◌/◌, ◌^◌, List, [], ◌∷◌, if◌then◌else◌, bit_and, bit_or, ◌<<<◌, ◌>>>◌, u8,
  u32,
}
use fpga_tools.Trigger.{Bus}
use fpga_tools.Devices.{Driver, ◌>>=◌, ◌>>◌, pure, read_register, write_register}

abbrev pub spicr_offset : ℕ
spicr_offset = 0x60

abbrev pub spisr_offset : ℕ
spisr_offset = 0x64

abbrev pub spi_dtr_offset : ℕ
spi_dtr_offset = 0x68

abbrev pub spi_drr_offset : ℕ
spi_drr_offset = 0x6C

abbrev pub spissr_offset : ℕ
spissr_offset = 0x70

abbrev pub rr_occ_offset : ℕ
rr_occ_offset = 0x78

-- `SPI_CR`
pub record SpiCr : Type 0 where
  pub lsb_first : ℕ
  pub master_inhibit : ℕ
  pub manual_slave_select_enable : ℕ
  pub rx_fifo_reset : ℕ
  pub tx_fifo_reset : ℕ
  pub cpha : ℕ
  pub cpol : ℕ
  pub master : ℕ
  pub spi_enable : ℕ
  pub loop_back : ℕ

-- `AXI_QSPI`
pub record AxiQspi : Type 0 where
  pub name : List ℕ
  pub axi_addr : ℕ
  pub spi_cr : SpiCr

unfoldable pub new_axi_qspi : List ℕ → ℕ → AxiQspi
new_axi_qspi name axi_addr = record {
  name = name;
  axi_addr = axi_addr;
  spi_cr = record {
    lsb_first = 0;
    master_inhibit = 0;
    manual_slave_select_enable = 0;
    rx_fifo_reset = 0;
    tx_fifo_reset = 0;
    cpha = 0;
    cpol = 0;
    master = 0;
    spi_enable = 0;
    loop_back = 0;
  };
}

unfoldable pub spi_cr_to_bits : SpiCr → ℕ
spi_cr_to_bits cr =
    let out = u32 (cr.lsb_first <<< 9) in
    let out = bit_or out (u32 (cr.master_inhibit <<< 8)) in
    let out = bit_or out (u32 (cr.manual_slave_select_enable <<< 7)) in
    let out = bit_or out (u32 (cr.rx_fifo_reset <<< 6)) in
    let out = bit_or out (u32 (cr.tx_fifo_reset <<< 5)) in
    let out = bit_or out (u32 (cr.cpha <<< 4)) in
    let out = bit_or out (u32 (cr.cpol <<< 3)) in
    let out = bit_or out (u32 (cr.master <<< 2)) in
    let out = bit_or out (u32 (cr.spi_enable <<< 1)) in bit_or out (u32 (cr.loop_back <<< 0))

unfoldable pub bits_to_spi_cr : ℕ → SpiCr
bits_to_spi_cr word = record {
  lsb_first = bit_and word (2 ^ 9);
  master_inhibit = bit_and word (2 ^ 8);
  manual_slave_select_enable = bit_and word (2 ^ 7);
  rx_fifo_reset = bit_and word (2 ^ 6);
  tx_fifo_reset = bit_and word (2 ^ 5);
  cpha = bit_and word (2 ^ 4);
  cpol = bit_and word (2 ^ 3);
  master = bit_and word (2 ^ 2);
  spi_enable = bit_and word (2 ^ 1);
  loop_back = bit_and word (2 ^ 0);
}

module _ (bus : Bus) where
  -- What the functions on a device change.
  abbrev pub SpiState : Type 0
  SpiState = AxiQspi × bus.State

  unfoldable pub write_qspi_addr : ℕ → ℕ → Driver SpiState ℕ
  unfolding write_register
  write_qspi_addr offset value (qspi, s) =
      let (code, s') = write_register bus qspi.axi_addr offset value s in (code, (qspi, s'))

  unfoldable pub read_qspi_addr : ℕ → Driver SpiState ℕ
  unfolding read_register
  read_qspi_addr offset (qspi, s) =
      let (ret, s') = read_register bus qspi.axi_addr offset s in (ret, (qspi, s'))

  -- `qspi->spi_cr.spi_enable = enable;` and the write of the control register after it.
  unfoldable pub set_enable : ℕ → Driver SpiState ℕ
  set_enable enable (qspi, s) =
      let cr = record (qspi.spi_cr) { spi_enable = enable } in
      write_qspi_addr spicr_offset (spi_cr_to_bits cr) (record qspi { spi_cr = cr }, s)

  -- The loop over the words.
  unfoldable pub write_words : List ℕ → Driver SpiState ℕ
  write_words [] = pure 0
  write_words (word ∷ words) = do write_qspi_addr spi_dtr_offset word; write_words words

  unfoldable pub write_spi : ℕ → List ℕ → Driver SpiState ℕ
  write_spi ssr words = do
    set_enable 0
    write_qspi_addr spissr_offset ssr
    write_words words
    set_enable 1
    set_enable 0
    pure 0

  unfoldable pub spi_drr_pop : Driver SpiState ℕ
  spi_drr_pop = read_qspi_addr spi_drr_offset

  unfoldable pub spi_drr_data_available : Driver SpiState ℕ
  spi_drr_data_available = read_qspi_addr rr_occ_offset

  unfoldable pub read_qspi_status : Driver SpiState ℕ
  read_qspi_status = read_qspi_addr spisr_offset

  -- ads_if.c: the arguments are the three elements of `args`.
  unfoldable pub write_adc_spi : ℕ → ℕ → ℕ → Driver SpiState ℕ
  write_adc_spi wmpch adc_addr adc_data =
      let wmpch = bit_and wmpch 0xF in
      let adc_addr = bit_and adc_addr 0xFFF in
      let adc_data = bit_and adc_data 0xFF in
      write_spi 0x0
        (u8 (bit_or (wmpch <<< 4) (adc_addr >>> 8)) ∷ bit_and adc_addr 0xFF ∷ adc_data ∷ [])

  -- dac_if.c
  unfoldable pub write_dac_spi : ℕ → ℕ → ℕ → Driver SpiState ℕ
  write_dac_spi command channels value =
      write_spi 0x6
        (u8 (bit_or (command <<< 4) channels) ∷ u8 (value >>> 8) ∷ bit_and value 0xFF ∷ [])

unfoldable pub new_ads_spi : List ℕ → ℕ → AxiQspi
unfolding new_axi_qspi
new_ads_spi name axi_addr =
    let q = new_axi_qspi name axi_addr in record q { spi_cr = record (q.spi_cr) { master = 1 } }

unfoldable pub new_dac_spi : List ℕ → ℕ → AxiQspi
unfolding new_axi_qspi
new_dac_spi name axi_addr =
    let q = new_axi_qspi name axi_addr in
    record q { spi_cr = record (q.spi_cr) { cpol = 1; master = 1 } }
