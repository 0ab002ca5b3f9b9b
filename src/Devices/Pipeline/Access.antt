-- ===== src/Devices/Pipeline/Access.antt =====
-- What the depths of the channels hold after a write.
use fpga_tools.Prelude.{
  ℕ, ◌+◌, ◌*◌, ◌<◌, ◌≡◌, inl, inr, ap, ◌∙◌, arith, Option, none, some, u32, Bool-cases, ==_iff,
  ◌==◌, if◌then◌else◌,
}
use fpga_tools.Trigger.{Bus}
use fpga_tools.Trigger.Settings.Access.{HoldsWrites}
use fpga_tools.Devices.{AxiDevice, minus_one, read_register, write_register}
use fpga_tools.Devices.Pipeline.{
  depth_addr_offset, depth_addr_width, read_data_pipeline_value, write_data_pipeline_value,
  write_channel_depth, read_channel_depth,
}

-- On a bus that holds what is written, a write of the depth of one of the 16 channels returns 0
-- and is read back from that channel, and the depths of the other channels are what they were.
pub read_channel_depth-write_channel_depth :
    (bus : Bus) (dp_axi : AxiDevice) (channel other val : ℕ) (s : bus.State)
    → HoldsWrites bus
    → channel < 16
    → other < 16
    → let (code, s') = write_channel_depth bus dp_axi channel val s in
      (code ≡ 0)
      × ((read_channel_depth bus dp_axi other s').0
          ≡ (if other == channel then val else (read_channel_depth bus dp_axi other s).0))
unfolding write_channel_depth read_channel_depth write_data_pipeline_value read_data_pipeline_value
    read_register write_register
read_channel_depth-write_channel_depth bus dp_axi channel other val s holds small small' = (
  holds.accepts dp_axi.axi_addr _ val s,
  elim (Bool-cases (other == channel)) [
    | inl same ↦ rw same (
        ap value (
          ap (λ c. (bus.double_read_addr dp_axi.axi_addr (offset c) written).0)
            ((==_iff other channel).0 same)
          ∙ holds.same dp_axi.axi_addr (offset channel) val s))
    | inr apart ↦ rw apart (
        ap value
          (holds.other dp_axi.axi_addr (offset channel) (offset other) val s (λ e. ground arith)))
  ],
)
  where
    value : Option ℕ → ℕ
    value reply = elim reply [ none ↦ minus_one | some ret ↦ ret ]

    offset : ℕ → ℕ
    offset c = u32 (depth_addr_offset + depth_addr_width * c)

    written : bus.State
    written = (bus.write_addr dp_axi.axi_addr (offset channel) val s).1
