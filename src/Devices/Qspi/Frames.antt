-- ===== src/Devices/Qspi/Frames.antt =====
-- What `write_spi` writes to the controller, and the frames that carry the registers of the chips.
use fpga_tools.Prelude.{
  ℕ, ◌+◌, ◌*◌, ◌/◌, ◌%◌, ◌^◌, ◌≤◌, ◌≡◌, ◌∙◌, ap₂, refl, arith, List, [], ◌∷◌, ◌++◌, map,
  bit_and_low, bit_or_shifted, if◌then◌else◌, ◌==◌,
}
use fpga_tools.Trigger.{Bus}
use fpga_tools.Devices.Trace.{write_all, write_all-append}
use fpga_tools.Devices.Qspi.{
  AxiQspi, SpiCr, spi_cr_to_bits, spicr_offset, spissr_offset, spi_dtr_offset, write_qspi_addr,
  set_enable, write_words, write_spi,
}
use fpga_tools.Devices.Qspi.Control.{IsFlags, spi_cr_to_bits-word}
use fpga_tools.Devices.Lmk.{lmk_words}

abbrev pub enabled : ℕ → SpiCr → SpiCr
enabled enable cr = record cr { spi_enable = enable }

-- The word of the control register with the flag `enable`, each flag at its bit.
abbrev pub control_word : ℕ → SpiCr → ℕ
control_word enable cr =
    cr.lsb_first * 512
    + cr.master_inhibit * 256
    + cr.manual_slave_select_enable * 128
    + cr.rx_fifo_reset * 64
    + cr.tx_fifo_reset * 32
    + cr.cpha * 16
    + cr.cpol * 8
    + cr.master * 4
    + enable * 2
    + cr.loop_back

spi_cr_to_bits-control_word :
    (enable : ℕ) (cr : SpiCr)
    → enable ≤ 1
    → IsFlags cr
    → spi_cr_to_bits (enabled enable cr) ≡ control_word enable cr
spi_cr_to_bits-control_word enable cr flag flags =
    spi_cr_to_bits-word (enabled enable cr) (record {
      lsb_first = flags.lsb_first;
      master_inhibit = flags.master_inhibit;
      manual_slave_select_enable = flags.manual_slave_select_enable;
      rx_fifo_reset = flags.rx_fifo_reset;
      tx_fifo_reset = flags.tx_fifo_reset;
      cpha = flags.cpha;
      cpol = flags.cpol;
      master = flags.master;
      spi_enable = flag;
      loop_back = flags.loop_back;
    })
    ∙ omega arith

-- The register writes of a transfer, with the words of the control register that disable and enable
-- the controller.
abbrev pub spi_writes : ℕ → ℕ → ℕ → List ℕ → List (ℕ × ℕ)
spi_writes disable enable ssr words =
    (spicr_offset, disable) ∷ (spissr_offset, ssr) ∷ map (λ word. (spi_dtr_offset, word)) words
    ++ ((spicr_offset, enable) ∷ (spicr_offset, disable) ∷ [])

module _ (bus : Bus) where
  write_words-all :
      (words : List ℕ) (qspi : AxiQspi) (s : bus.State)
      → write_words bus words (qspi, s)
        ≡ (0, (qspi, write_all bus qspi.axi_addr (map (λ word. (spi_dtr_offset, word)) words) s))
  unfolding write_words write_qspi_addr write_all
  write_words-all [] qspi s = refl
  write_words-all (word ∷ words) qspi s =
      write_words-all words qspi (bus.write_addr qspi.axi_addr spi_dtr_offset word s).1

  write_spi-all :
      (ssr : ℕ) (words : List ℕ) (qspi : AxiQspi) (s : bus.State)
      → let disable = spi_cr_to_bits (enabled 0 qspi.spi_cr) in
        let enable = spi_cr_to_bits (enabled 1 qspi.spi_cr) in
        write_spi bus ssr words (qspi, s) ≡ (
          0,
          (
            record qspi { spi_cr = enabled 0 qspi.spi_cr },
            write_all bus qspi.axi_addr (spi_writes disable enable ssr words) s,
          ),
        )
  unfolding write_spi set_enable write_qspi_addr write_all
  write_spi-all ssr words qspi s =
      rw
        (
          write_words-all words (record qspi { spi_cr = enabled 0 qspi.spi_cr }) selected,
          write_all-append bus qspi.axi_addr (map (λ word. (spi_dtr_offset, word)) words) _
              selected,
        )
        refl
    where
      selected : bus.State
      selected =
          write_all bus qspi.axi_addr
            ((spicr_offset, spi_cr_to_bits (enabled 0 qspi.spi_cr)) ∷ (spissr_offset, ssr) ∷ []) s

  -- For a control register whose fields are flags, write_spi writes the control register with each
  -- flag at its bit and the enable bit 0, the number of the slave, the words in their order, the
  -- control register with the enable bit 1 and once more with 0; it ignores the codes of the
  -- writes, returns 0 and leaves the device disabled.
  pub write_spi_lem :
      (ssr : ℕ) (words : List ℕ) (qspi : AxiQspi) (s : bus.State)
      → IsFlags qspi.spi_cr
      → let disable = control_word 0 qspi.spi_cr in
        let enable = control_word 1 qspi.spi_cr in
        write_spi bus ssr words (qspi, s) ≡ (
          0,
          (
            record qspi { spi_cr = enabled 0 qspi.spi_cr },
            write_all bus qspi.axi_addr (spi_writes disable enable ssr words) s,
          ),
        )
  write_spi_lem ssr words qspi s flags =
      write_spi-all ssr words qspi s
      ∙ ap₂
          (λ disable enable. (
            0,
            (
              record qspi { spi_cr = enabled 0 qspi.spi_cr },
              write_all bus qspi.axi_addr (spi_writes disable enable ssr words) s,
            ),
          ))
          (spi_cr_to_bits-control_word 0 qspi.spi_cr (omega arith) flags)
          (spi_cr_to_bits-control_word 1 qspi.spi_cr (omega arith) flags)

-- The number whose bytes in network order are three bytes.
abbrev pub be24 : List ℕ → ℕ
be24 (a ∷ b ∷ c ∷ []) = a * 2 ^ 16 + b * 2 ^ 8 + c
be24 _ = 0

-- The three bytes of write_lmk_spi carry the direction in the top bit, 13 bits of address and 8 bits of
-- data, whatever the arguments have beyond.
pub be24-lmk_words :
    (rw_flag addr value : ℕ)
    → be24 (lmk_words rw_flag addr value)
      ≡ (if rw_flag == 0 then 0 else 2 ^ 23) + addr % 2 ^ 13 * 2 ^ 8 + value % 2 ^ 8
unfolding lmk_words
be24-lmk_words rw_flag addr value = ground (
  arith,
  bit_and_low 13 addr,
  bit_and_low 8 (addr % 2 ^ 13),
  bit_and_low 8 value,
  bit_and_low 8 (value % 2 ^ 8),
  bit_or_shifted 7 0 (addr % 2 ^ 13 / 2 ^ 8) (omega arith),
  bit_or_shifted 7 1 (addr % 2 ^ 13 / 2 ^ 8) (omega arith),
)
