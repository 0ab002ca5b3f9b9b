-- ===== src/Devices/Lmk.antt =====
-- fakernet_code/lmk_if.c: the registers of the LMK chip, behind the SPI controller.
use fpga_tools.Prelude.{
  ℕ, zero, suc, ◌^◌, List, [], ◌∷◌, if◌then◌else◌, ◌==◌, bit_and, bit_or, ◌<<<◌, ◌>>>◌, u8, u32,
}
use fpga_tools.Trigger.{Bus}
use fpga_tools.Devices.{Driver, ◌>>=◌, ◌>>◌, pure, minus_one}
use fpga_tools.Devices.Qspi.{
  AxiQspi, SpiState, new_axi_qspi, write_spi, read_qspi_status, spi_drr_pop,
}

unfoldable pub new_lmk_spi : List ℕ → ℕ → AxiQspi
unfolding new_axi_qspi
new_lmk_spi name axi_addr =
    let q = new_axi_qspi name axi_addr in record q { spi_cr = record (q.spi_cr) { master = 1 } }

-- The three bytes that `write_lmk_spi` sends.
unfoldable pub lmk_words : ℕ → ℕ → ℕ → List ℕ
lmk_words rw_flag addr value =
    let rw_bits = if rw_flag == 0 then 0x0 else 0x4 in
    let addr = bit_and addr 0x1FFF in
    let value = bit_and value 0xFF in
    u8 (bit_or (rw_bits <<< 5) (addr >>> 8)) ∷ bit_and addr 0xFF ∷ bit_and value 0xFF ∷ []

module _ (bus : Bus) where
  unfoldable pub write_lmk_spi : ℕ → ℕ → ℕ → Driver (SpiState bus) ℕ
  unfolding lmk_words
  write_lmk_spi rw_flag addr value = do write_spi bus 0x0 (lmk_words rw_flag addr value); pure 0

  -- The loop over `loop_count`, on the rounds that are left: the last status.
  unfoldable pub poll_status : ℕ → ℕ → Driver (SpiState bus) ℕ
  poll_status zero status = pure status
  poll_status (suc left) last = do
    status ← read_qspi_status bus
    if bit_and status (2 ^ 2) == 0 then poll_status left status else pure status

  unfoldable pub write_then_read_lmk_spi : ℕ → ℕ → ℕ → Driver (SpiState bus) ℕ
  unfolding write_lmk_spi poll_status
  write_then_read_lmk_spi rw_flag addr value = do
    write_lmk_spi rw_flag addr value
    status ← poll_status 20 0
    if bit_and status (2 ^ 2) == 0 then pure minus_one else (do
      first ← spi_drr_pop bus
      second ← spi_drr_pop bus
      third ← spi_drr_pop bus
      pure (bit_or (u32 (bit_or (u32 (first <<< 8)) second <<< 8)) third))

  unfoldable pub read_pll1_dld_status_reg : Driver (SpiState bus) ℕ
  read_pll1_dld_status_reg = write_then_read_lmk_spi 1 0x182 0

  unfoldable pub read_pll2_dld_status_reg : Driver (SpiState bus) ℕ
  read_pll2_dld_status_reg = write_then_read_lmk_spi 1 0x183 0

  unfoldable pub clear_pll1_dld_status_reg : Driver (SpiState bus) ℕ
  clear_pll1_dld_status_reg = do
    write_then_read_lmk_spi 0 0x182 1
    write_then_read_lmk_spi 1 0x182 0
    write_then_read_lmk_spi 0 0x182 0

  unfoldable pub clear_pll2_dld_status_reg : Driver (SpiState bus) ℕ
  clear_pll2_dld_status_reg = do
    write_then_read_lmk_spi 0 0x183 1
    write_then_read_lmk_spi 1 0x183 0
    write_then_read_lmk_spi 0 0x183 0

  unfoldable pub read_lmk_dac : Driver (SpiState bus) ℕ
  read_lmk_dac = do
    a ← write_then_read_lmk_spi 1 0x184 0
    b ← write_then_read_lmk_spi 1 0x185 0
    pure (bit_or (bit_and a 0xC0 <<< 2) (bit_and b 0xFF))

  unfoldable pub write_lmk_dac : ℕ → Driver (SpiState bus) ℕ
  write_lmk_dac value = do
    initial_value ← write_then_read_lmk_spi 1 0x14B 0
    write_then_read_lmk_spi 0 0x14B
        (bit_or (bit_and initial_value 0xFC) (bit_and value 0x300 >>> 8))
    write_then_read_lmk_spi 0 0x14C (bit_and value 0xFF)
    pure 0
