-- ===== src/Devices/Jesd.antt =====
-- fakernet_code/jesd.c: the receiver of the JESD204 links. The configuration of a link is the list of its
-- 13 words.
pub mod Errors
use fpga_tools.Prelude.{
  ℕ, zero, suc, ◌+◌, ◌-◌, ◌*◌, ◌^◌, Bool, List, [], ◌∷◌, tabulate, if◌then◌else◌, ltb, leb, ◌==◌,
  bit_and, bit_or, u32, get_or,
}
use fpga_tools.Trigger.{Bus}
use fpga_tools.Devices.{AxiDevice, Driver, ◌>>=◌, ◌>>◌, pure, read_register, write_register}

abbrev pub num_channels : ℕ
num_channels = 4

abbrev pub jesd_reset_offset : ℕ
jesd_reset_offset = 0x4

abbrev pub jesd_frames_per_multiframe_offset : ℕ
jesd_frames_per_multiframe_offset = 0x24

abbrev pub jesd_rx_buffer_delay_offset : ℕ
jesd_rx_buffer_delay_offset = 0x30

abbrev pub jesd_error_reporting_offset : ℕ
jesd_error_reporting_offset = 0x34

abbrev pub jesd_sync_status_offset : ℕ
jesd_sync_status_offset = 0x38

abbrev pub jesd_ila_base : ℕ
jesd_ila_base = 0x800

abbrev pub jesd_ila_width : ℕ
jesd_ila_width = 0x40

abbrev pub jesd_ila_error_count_offset : ℕ
jesd_ila_error_count_offset = 0x24

unfoldable pub jesd_ila_offset : ℕ → ℕ
jesd_ila_offset channel =
    if leb num_channels channel then 0 else jesd_ila_base + jesd_ila_width * channel

unfoldable pub new_jesd : List ℕ → ℕ → AxiDevice
new_jesd name axi_addr = record { name = name; axi_addr = axi_addr }

module _ (bus : Bus) (jesd : AxiDevice) where
  unfoldable pub read_jesd : ℕ → Driver bus.State ℕ
  unfolding read_register
  read_jesd offset = read_register bus jesd.axi_addr offset

  unfoldable pub write_jesd : ℕ → ℕ → Driver bus.State ℕ
  unfolding write_register
  write_jesd offset value = write_register bus jesd.axi_addr offset value

  unfoldable pub jesd_reset : Driver bus.State ℕ
  jesd_reset = write_jesd jesd_reset_offset 0x1

  unfoldable pub set_sync_error_reporting : ℕ → Driver bus.State ℕ
  set_sync_error_reporting state = do
    error_reporting ← read_jesd jesd_error_reporting_offset
    write_jesd jesd_error_reporting_offset
        (if state == 0 then bit_and error_reporting 0xFFFEFFFF else bit_or error_reporting 0x100)

  unfoldable pub read_error_register : ℕ → Driver bus.State ℕ
  unfolding jesd_ila_offset
  read_error_register channel = read_jesd (jesd_ila_offset channel + jesd_ila_error_count_offset)

  -- Error counting is switched on if it is off.
  unfoldable pub enable_error_counting : Driver bus.State ℕ
  enable_error_counting = do
    error_reporting ← read_jesd jesd_error_reporting_offset
    if bit_and error_reporting 0x1 == 0
        then write_jesd jesd_error_reporting_offset (bit_or error_reporting 0x1)
        else pure 0

  -- The loop over the channels from `i` on: `resp[i] = read_error_register(jesd, i)`.
  unfoldable pub read_errors : ℕ → ℕ → Driver bus.State (List ℕ)
  read_errors zero i = pure []
  read_errors (suc left) i = do
    count ← read_error_register i
    counts ← read_errors left (i + 1)
    pure (count ∷ counts)

  -- The result is `resp`.
  unfoldable pub jesd_error_count : ℕ → Driver bus.State (List ℕ)
  jesd_error_count enable_error_reporting = do
    (if enable_error_reporting == 0 then pure 0 else enable_error_counting)
    read_errors num_channels 0

  unfoldable pub jesd_read_error_rate : Driver bus.State (List ℕ)
  jesd_read_error_rate = do
    enable_error_counting
    first ← jesd_error_count 0
    second ← jesd_error_count 0
    pure (tabulate num_channels (λ i. u32 (get_or second i 0 + 2 ^ 32 - get_or first i 0)))

  unfoldable pub jesd_is_synced : Driver bus.State ℕ
  jesd_is_synced = do val ← read_jesd jesd_sync_status_offset; pure (bit_and val 0x1)

  unfoldable pub write_jesd_buffer_delay : ℕ → Driver bus.State ℕ
  write_jesd_buffer_delay value = write_jesd jesd_rx_buffer_delay_offset value

  unfoldable pub read_jesd_buffer_delay : Driver bus.State ℕ
  read_jesd_buffer_delay = read_jesd jesd_rx_buffer_delay_offset

  -- The loop over the words from `i` on.
  unfoldable pub read_words : ℕ → ℕ → ℕ → Driver bus.State (List ℕ)
  read_words base zero i = pure []
  read_words base (suc left) i = do
    word ← read_jesd (base + 0x4 * i)
    words ← read_words base left (i + 1)
    pure (word ∷ words)

  unfoldable pub read_ila_config : ℕ → Driver bus.State (List ℕ)
  unfolding jesd_ila_offset
  read_ila_config channel =
      let base = jesd_ila_offset channel in
      if base == 0 then pure (tabulate 13 (λ i. 0)) else read_words base 13 0
