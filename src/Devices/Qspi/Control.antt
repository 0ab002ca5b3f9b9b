-- ===== src/Devices/Qspi/Control.antt =====
-- The control register of the SPI controller, as a word and as its fields.
use fpga_tools.Prelude.{
  ℕ, zero, suc, ap₂, ◌+◌, ◌*◌, ◌^◌, ◌≤◌, ◌<◌, ◌≡◌, ◌∙◌, arith, bit, bit_or, bit_and, bit_and-bit,
  bit_or_shifted, u32, ◌<<<◌,
}
use native.Mathlib.Nat.{pow-suc, one-le-pow}
use fpga_tools.Devices.Qspi.{SpiCr, spi_cr_to_bits, bits_to_spi_cr}

-- Every field is a flag.
pub record IsFlags (cr : SpiCr) : Type 0 where
  pub lsb_first : cr.lsb_first ≤ 1
  pub master_inhibit : cr.master_inhibit ≤ 1
  pub manual_slave_select_enable : cr.manual_slave_select_enable ≤ 1
  pub rx_fifo_reset : cr.rx_fifo_reset ≤ 1
  pub tx_fifo_reset : cr.tx_fifo_reset ≤ 1
  pub cpha : cr.cpha ≤ 1
  pub cpol : cr.cpol ≤ 1
  pub master : cr.master ≤ 1
  pub spi_enable : cr.spi_enable ≤ 1
  pub loop_back : cr.loop_back ≤ 1

-- A number with the flag `lo` for its lowest bit.
abbrev twice : ℕ → ℕ → ℕ
twice hi lo = hi * 2 + lo

abbrev word_of : SpiCr → ℕ
word_of cr =
    twice
      (twice
        (twice
          (twice
            (twice
              (twice
                (twice (twice (twice cr.lsb_first cr.master_inhibit) cr.manual_slave_select_enable)
                  cr.rx_fifo_reset)
                cr.tx_fifo_reset)
              cr.cpha)
            cr.cpol)
          cr.master)
        cr.spi_enable)
      cr.loop_back

flag_times : (k lo : ℕ) → lo ≤ 1 → lo * 2 ^ k ≤ 2 ^ k
flag_times k zero flag = omega arith
flag_times k (suc lo) flag = grind arith

-- The next lower field joins those above it.
join :
    (k hi lo : ℕ) {out : ℕ}
    → 2 ^ k < 2 ^ 32
    → lo ≤ 1
    → out ≡ hi * 2 ^ suc k
    → bit_or out (u32 (lo <<< k)) ≡ twice hi lo * 2 ^ k
join k hi lo small flag e =
    ap₂ bit_or e (omega (arith, flag_times k lo flag))
    ∙ bit_or_shifted (suc k) hi (lo * 2 ^ k)
        (omega (arith, flag_times k lo flag, pow-suc 2 k, one-le-pow k 2))
    ∙ grind (arith, pow-suc 2 k)

-- The bits of the fields.
pub spi_cr_to_bits-word : (cr : SpiCr) → IsFlags cr → spi_cr_to_bits cr ≡ word_of cr
unfolding spi_cr_to_bits
spi_cr_to_bits-word cr flags =
    join 0 _ cr.loop_back (omega arith) flags.loop_back (
      join 1 _ cr.spi_enable (omega arith) flags.spi_enable (
        join 2 _ cr.master (omega arith) flags.master (
          join 3 _ cr.cpol (omega arith) flags.cpol (
            join 4 _ cr.cpha (omega arith) flags.cpha (
              join 5 _ cr.tx_fifo_reset (omega arith) flags.tx_fifo_reset (
                join 6 _ cr.rx_fifo_reset (omega arith) flags.rx_fifo_reset (
                  join 7 _ cr.manual_slave_select_enable (omega arith)
                    flags.manual_slave_select_enable
                    (join 8 cr.lsb_first cr.master_inhibit (omega arith) flags.master_inhibit
                      (omega (arith, flags.lsb_first))))))))))
    ∙ omega arith

-- If every field is a flag, field number k of bits_to_spi_cr after spi_cr_to_bits is the flag
-- times 2 ^ k, the mask of its bit: only loop_back makes the round trip.
pub bits_to_spi_cr-spi_cr_to_bits :
    (cr : SpiCr)
    → IsFlags cr
    → let cr' = bits_to_spi_cr (spi_cr_to_bits cr) in
      (cr'.loop_back ≡ cr.loop_back)
      × (cr'.spi_enable ≡ cr.spi_enable * 2)
      × (cr'.master ≡ cr.master * 4)
      × (cr'.cpol ≡ cr.cpol * 8)
      × (cr'.cpha ≡ cr.cpha * 16)
      × (cr'.tx_fifo_reset ≡ cr.tx_fifo_reset * 32)
      × (cr'.rx_fifo_reset ≡ cr.rx_fifo_reset * 64)
      × (cr'.manual_slave_select_enable ≡ cr.manual_slave_select_enable * 128)
      × (cr'.master_inhibit ≡ cr.master_inhibit * 256)
      × (cr'.lsb_first ≡ cr.lsb_first * 512)
unfolding bits_to_spi_cr
bits_to_spi_cr-spi_cr_to_bits cr flags = (
  masked 0 ∙ omega (arith, word),
  masked 1 ∙ omega (arith, word),
  masked 2 ∙ omega (arith, word),
  masked 3 ∙ omega (arith, word),
  masked 4 ∙ omega (arith, word),
  masked 5 ∙ omega (arith, word),
  masked 6 ∙ omega (arith, word),
  masked 7 ∙ omega (arith, word),
  masked 8 ∙ omega (arith, word),
  masked 9 ∙ omega (arith, word),
)
  where
    word : spi_cr_to_bits cr ≡ word_of cr
    word = spi_cr_to_bits-word cr flags

    masked : (k : ℕ) → bit_and (spi_cr_to_bits cr) (2 ^ k) ≡ bit k (spi_cr_to_bits cr) * 2 ^ k
    masked k = bit_and-bit (spi_cr_to_bits cr) k
