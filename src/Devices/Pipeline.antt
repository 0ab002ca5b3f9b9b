-- ===== src/Devices/Pipeline.antt =====
-- fakernet_code/data_pipeline.c: the settings of the data pipeline of a board.
pub mod Access
use fpga_tools.Prelude.{ℕ, ◌+◌, ◌*◌, if◌then◌else◌, leb, u32, List}
use fpga_tools.Trigger.{Bus}
use fpga_tools.Devices.{AxiDevice, Driver, read_register, write_register}

abbrev pub reset_reg_offset : ℕ
reset_reg_offset = 0

abbrev pub threshold_reg_offset : ℕ
threshold_reg_offset = 4

abbrev pub channel_mask_offset : ℕ
channel_mask_offset = 8

abbrev pub device_number_reg_offset : ℕ
device_number_reg_offset = 12

abbrev pub fifo_status_reg_offset : ℕ
fifo_status_reg_offset = 16

abbrev pub invalid_count_reg_offset : ℕ
invalid_count_reg_offset = 20

abbrev pub local_trigger_enable_offset : ℕ
local_trigger_enable_offset = 24

abbrev pub local_trigger_mode_offset : ℕ
local_trigger_mode_offset = 28

abbrev pub local_trigger_length_offset : ℕ
local_trigger_length_offset = 32

abbrev pub local_trigger_count_reset_offst : ℕ
local_trigger_count_reset_offst = 36

abbrev pub trigger_enable_offset : ℕ
trigger_enable_offset = 40

abbrev pub trigger_sum_width_offset : ℕ
trigger_sum_width_offset = 44

abbrev pub global_depth_addr_offset : ℕ
global_depth_addr_offset = 52

abbrev pub depth_addr_offset : ℕ
depth_addr_offset = 256

abbrev pub depth_addr_width : ℕ
depth_addr_width = 4

abbrev pub fifo_occ_offset : ℕ
fifo_occ_offset = 512

abbrev pub fifo_occ_width : ℕ
fifo_occ_width = 4

abbrev pub build_info_offset : ℕ
build_info_offset = 2052

unfoldable pub new_data_pipeline_if : List ℕ → ℕ → AxiDevice
new_data_pipeline_if name axi_addr = record { name = name; axi_addr = axi_addr }

module _ (bus : Bus) (dp_axi : AxiDevice) where
  unfoldable pub read_data_pipeline_value : ℕ → Driver bus.State ℕ
  unfolding read_register
  read_data_pipeline_value offset = read_register bus dp_axi.axi_addr offset

  unfoldable pub write_data_pipeline_value : ℕ → ℕ → Driver bus.State ℕ
  unfolding write_register
  write_data_pipeline_value offset value = write_register bus dp_axi.axi_addr offset value

  unfoldable pub read_trig_sum_width : Driver bus.State ℕ
  read_trig_sum_width = read_data_pipeline_value trigger_sum_width_offset

  unfoldable pub write_trig_sum_width : ℕ → Driver bus.State ℕ
  write_trig_sum_width value = write_data_pipeline_value trigger_sum_width_offset value

  unfoldable pub read_threshold : Driver bus.State ℕ
  read_threshold = read_data_pipeline_value threshold_reg_offset

  unfoldable pub write_threshold : ℕ → Driver bus.State ℕ
  write_threshold value = write_data_pipeline_value threshold_reg_offset value

  unfoldable pub read_channel_mask : Driver bus.State ℕ
  read_channel_mask = read_data_pipeline_value channel_mask_offset

  unfoldable pub write_channel_mask : ℕ → Driver bus.State ℕ
  write_channel_mask mask = write_data_pipeline_value channel_mask_offset mask

  -- The offset is computed in 32 bits; a negative channel is its bit pattern.
  unfoldable pub write_channel_depth : ℕ → ℕ → Driver bus.State ℕ
  write_channel_depth channel val =
      write_data_pipeline_value (u32 (depth_addr_offset + depth_addr_width * channel)) val

  unfoldable pub read_channel_depth : ℕ → Driver bus.State ℕ
  read_channel_depth channel =
      read_data_pipeline_value (u32 (depth_addr_offset + depth_addr_width * channel))

  unfoldable pub write_global_depth : ℕ → Driver bus.State ℕ
  write_global_depth val = write_data_pipeline_value global_depth_addr_offset val

  unfoldable pub read_global_depth : Driver bus.State ℕ
  read_global_depth = read_data_pipeline_value global_depth_addr_offset

  unfoldable pub read_fifo_status_reg : Driver bus.State ℕ
  read_fifo_status_reg = read_data_pipeline_value fifo_status_reg_offset

  unfoldable pub read_invalid_count : Driver bus.State ℕ
  read_invalid_count = read_data_pipeline_value invalid_count_reg_offset

  unfoldable pub read_local_trigger_enable : Driver bus.State ℕ
  read_local_trigger_enable = read_data_pipeline_value local_trigger_enable_offset

  unfoldable pub write_local_trigger_enable : ℕ → Driver bus.State ℕ
  write_local_trigger_enable val = write_data_pipeline_value local_trigger_enable_offset val

  unfoldable pub read_local_trigger_mode : Driver bus.State ℕ
  read_local_trigger_mode = read_data_pipeline_value local_trigger_mode_offset

  unfoldable pub write_local_trigger_mode : ℕ → Driver bus.State ℕ
  write_local_trigger_mode val = write_data_pipeline_value local_trigger_mode_offset val

  unfoldable pub read_local_trigger_length : Driver bus.State ℕ
  read_local_trigger_length = read_data_pipeline_value local_trigger_length_offset

  unfoldable pub write_local_trigger_length : ℕ → Driver bus.State ℕ
  write_local_trigger_length val = write_data_pipeline_value local_trigger_length_offset val

  unfoldable pub read_local_trigger_count_reset_value : Driver bus.State ℕ
  read_local_trigger_count_reset_value = read_data_pipeline_value local_trigger_count_reset_offst

  unfoldable pub write_local_trigger_count_reset_value : ℕ → Driver bus.State ℕ
  write_local_trigger_count_reset_value val =
      write_data_pipeline_value local_trigger_count_reset_offst val

  unfoldable pub read_trigger_enable : Driver bus.State ℕ
  read_trigger_enable = read_data_pipeline_value trigger_enable_offset

  unfoldable pub write_trigger_enable : ℕ → Driver bus.State ℕ
  write_trigger_enable val = write_data_pipeline_value trigger_enable_offset val

  unfoldable pub read_build_info : Driver bus.State ℕ
  read_build_info = read_data_pipeline_value build_info_offset

  unfoldable pub read_fifo_occupancy : ℕ → Driver bus.State ℕ
  read_fifo_occupancy channel s =
      if leb 16 channel
      then (0, s)
      else read_data_pipeline_value (fifo_occ_offset + fifo_occ_width * channel) s
