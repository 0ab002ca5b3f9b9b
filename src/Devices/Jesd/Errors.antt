-- ===== src/Devices/Jesd/Errors.antt =====
-- The error registers of the JESD204 receiver.
use fpga_tools.Prelude.{ℕ, ◌≤◌, ◌≡◌, ap, ◌∙◌, arith, none, some, bit, bit-bit_and, bit_and}
use fpga_tools.Trigger.{Bus}
use fpga_tools.Trigger.Settings.Access.{HoldsWrites}
use fpga_tools.Devices.{AxiDevice, minus_one, read_register, write_register}
use fpga_tools.Devices.Jesd.{
  num_channels, jesd_error_reporting_offset, jesd_frames_per_multiframe_offset, jesd_ila_offset,
  read_jesd, write_jesd, set_sync_error_reporting, read_error_register,
}

-- For a channel that does not exist read_error_register returns the register of the frames per multiframe
-- instead of an error count or an error.
pub read_error_register_beyond :
    (bus : Bus) (jesd : AxiDevice) (channel : ℕ) (s : bus.State)
    → num_channels ≤ channel
    → read_error_register bus jesd channel s
      ≡ read_jesd bus jesd jesd_frames_per_multiframe_offset s
unfolding read_error_register jesd_ila_offset
read_error_register_beyond bus jesd channel s beyond =
    ap (λ o. read_jesd bus jesd o s) (ground arith)

-- On a bus that holds what is written, set_sync_error_reporting with the state 0 leaves bit 8, which it
-- sets with another state, as it was.
pub set_sync_error_reporting_kept :
    (bus : Bus) (jesd : AxiDevice) (word : ℕ) (s : bus.State)
    → HoldsWrites bus
    → (bus.double_read_addr jesd.axi_addr jesd_error_reporting_offset s).0 ≡ some word
    → let s' = (set_sync_error_reporting bus jesd 0 s).1 in
      (word' : ℕ) × ((bus.double_read_addr jesd.axi_addr jesd_error_reporting_offset s').0
        ≡ some word')
      × (bit 8 word' ≡ bit 8 word)
unfolding set_sync_error_reporting read_jesd write_jesd read_register write_register
set_sync_error_reporting_kept bus jesd word s holds got = (_, kept, eighth)
  where
    eighth : bit 8 (bit_and word 0xFFFEFFFF) ≡ bit 8 word
    eighth = omega (arith, bit-bit_and 8 word 0xFFFEFFFF)

    kept :
        (bus.double_read_addr jesd.axi_addr jesd_error_reporting_offset
          (set_sync_error_reporting bus jesd 0 s).1).0
        ≡ some (bit_and word 0xFFFEFFFF)
    kept =
        holds.same jesd.axi_addr jesd_error_reporting_offset _ _
        ∙ ap (λ r. some (bit_and (elim r [ none ↦ minus_one | some ret ↦ ret ]) 0xFFFEFFFF)) got
