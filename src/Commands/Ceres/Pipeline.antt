-- ===== src/Commands/Ceres/Pipeline.antt =====
-- The commands of CERES in fakernet_code/ceres_if.c for the data pipeline.
use fpga_tools.Prelude.{ℕ, ◌/◌, if◌then◌else◌, ltb, ◌==◌, ◌||◌, bit_and, bit_or, ◌>>>◌, u16}
use fpga_tools.Trigger.{Bus}
use fpga_tools.Devices.{Driver, ◌>>=◌, pure, minus_one}
use fpga_tools.Devices.Pipeline.{
  read_build_info, read_channel_depth, read_channel_mask, read_data_pipeline_value,
  read_fifo_occupancy, read_fifo_status_reg, read_global_depth, read_invalid_count,
  read_local_trigger_count_reset_value, read_local_trigger_enable, read_local_trigger_length,
  read_local_trigger_mode, read_threshold, read_trig_sum_width, read_trigger_enable,
  write_channel_depth, write_channel_mask, write_data_pipeline_value, write_global_depth,
  write_local_trigger_count_reset_value, write_local_trigger_enable, write_local_trigger_length,
  write_local_trigger_mode, write_threshold, write_trig_sum_width, write_trigger_enable,
}
use fpga_tools.Commands.Ceres.{CeresState, on_pipeline}
use fpga_tools.Commands.{Args}

module _ (bus : Bus) where
  unfoldable pub read_data_pipeline_command : Args → Driver (CeresState bus) ℕ
  unfolding on_pipeline
  read_data_pipeline_command args =
      on_pipeline bus (λ pipeline. read_data_pipeline_value bus pipeline (args 0))

  unfoldable pub write_data_pipeline_command : Args → Driver (CeresState bus) ℕ
  unfolding on_pipeline
  write_data_pipeline_command args =
      on_pipeline bus (λ pipeline. write_data_pipeline_value bus pipeline (args 0) (args 1))

  unfoldable pub read_data_pipeline_threshold_command : Args → Driver (CeresState bus) ℕ
  unfolding on_pipeline
  read_data_pipeline_threshold_command args =
      on_pipeline bus (λ pipeline. read_threshold bus pipeline)

  unfoldable pub write_data_pipeline_threshold_command : Args → Driver (CeresState bus) ℕ
  unfolding on_pipeline
  write_data_pipeline_threshold_command args =
      on_pipeline bus (λ pipeline. write_threshold bus pipeline (args 0))

  unfoldable pub read_data_pipeline_channel_mask_command : Args → Driver (CeresState bus) ℕ
  unfolding on_pipeline
  read_data_pipeline_channel_mask_command args =
      on_pipeline bus (λ pipeline. read_channel_mask bus pipeline)

  unfoldable pub write_data_pipeline_channel_mask_command : Args → Driver (CeresState bus) ℕ
  unfolding on_pipeline
  write_data_pipeline_channel_mask_command args =
      on_pipeline bus (λ pipeline. write_channel_mask bus pipeline (args 0))

  unfoldable pub read_data_pipeline_depth_command : Args → Driver (CeresState bus) ℕ
  unfolding on_pipeline
  read_data_pipeline_depth_command args =
      on_pipeline bus (λ pipeline. read_channel_depth bus pipeline (args 0))

  unfoldable pub write_data_pipeline_depth_command : Args → Driver (CeresState bus) ℕ
  unfolding on_pipeline
  write_data_pipeline_depth_command args =
      on_pipeline bus (λ pipeline. write_channel_depth bus pipeline (args 0) (args 1))

  unfoldable pub read_data_pipeline_global_depth_command : Args → Driver (CeresState bus) ℕ
  unfolding on_pipeline
  read_data_pipeline_global_depth_command args =
      on_pipeline bus (λ pipeline. read_global_depth bus pipeline)

  unfoldable pub write_data_pipeline_global_depth_command : Args → Driver (CeresState bus) ℕ
  unfolding on_pipeline
  write_data_pipeline_global_depth_command args =
      on_pipeline bus (λ pipeline. write_global_depth bus pipeline (args 0))

  unfoldable pub read_data_pipeline_invalid_count_command : Args → Driver (CeresState bus) ℕ
  unfolding on_pipeline
  read_data_pipeline_invalid_count_command args =
      on_pipeline bus (λ pipeline. read_invalid_count bus pipeline)

  unfoldable pub read_data_pipeline_status_command : Args → Driver (CeresState bus) ℕ
  unfolding on_pipeline
  read_data_pipeline_status_command args =
      on_pipeline bus (λ pipeline. read_fifo_status_reg bus pipeline)

  unfoldable pub read_data_pipeline_local_trigger_enable_command : Args → Driver (CeresState bus) ℕ
  unfolding on_pipeline
  read_data_pipeline_local_trigger_enable_command args =
      on_pipeline bus (λ pipeline. read_local_trigger_enable bus pipeline)

  unfoldable pub write_data_pipeline_local_trigger_enable_command : Args → Driver (CeresState bus) ℕ
  unfolding on_pipeline
  write_data_pipeline_local_trigger_enable_command args =
      on_pipeline bus (λ pipeline. write_local_trigger_enable bus pipeline (args 0))

  unfoldable pub read_data_pipeline_local_trigger_mode_command : Args → Driver (CeresState bus) ℕ
  unfolding on_pipeline
  read_data_pipeline_local_trigger_mode_command args =
      on_pipeline bus (λ pipeline. read_local_trigger_mode bus pipeline)

  unfoldable pub write_data_pipeline_local_trigger_mode_command : Args → Driver (CeresState bus) ℕ
  unfolding on_pipeline
  write_data_pipeline_local_trigger_mode_command args =
      on_pipeline bus (λ pipeline. write_local_trigger_mode bus pipeline (args 0))

  unfoldable pub read_data_pipeline_local_trigger_length_command : Args → Driver (CeresState bus) ℕ
  unfolding on_pipeline
  read_data_pipeline_local_trigger_length_command args =
      on_pipeline bus (λ pipeline. read_local_trigger_length bus pipeline)

  unfoldable pub write_data_pipeline_local_trigger_length_command : Args → Driver (CeresState bus) ℕ
  unfolding on_pipeline
  write_data_pipeline_local_trigger_length_command args =
      on_pipeline bus (λ pipeline. write_local_trigger_length bus pipeline (args 0))

  unfoldable pub read_data_pipeline_trigger_sum_width_command : Args → Driver (CeresState bus) ℕ
  unfolding on_pipeline
  read_data_pipeline_trigger_sum_width_command args =
      on_pipeline bus (λ pipeline. read_trig_sum_width bus pipeline)

  unfoldable pub write_data_pipeline_trigger_sum_width_command : Args → Driver (CeresState bus) ℕ
  unfolding on_pipeline
  write_data_pipeline_trigger_sum_width_command args =
      on_pipeline bus (λ pipeline. write_trig_sum_width bus pipeline (args 0))

  unfoldable pub read_data_pipeline_trigger_count_reset_value_command :
      Args → Driver (CeresState bus) ℕ
  unfolding on_pipeline
  read_data_pipeline_trigger_count_reset_value_command args =
      on_pipeline bus (λ pipeline. read_local_trigger_count_reset_value bus pipeline)

  unfoldable pub write_data_pipeline_trigger_count_reset_value_command :
      Args → Driver (CeresState bus) ℕ
  unfolding on_pipeline
  write_data_pipeline_trigger_count_reset_value_command args =
      on_pipeline bus (λ pipeline. write_local_trigger_count_reset_value bus pipeline (args 0))

  unfoldable pub read_data_pipeline_trigger_enable_command : Args → Driver (CeresState bus) ℕ
  unfolding on_pipeline
  read_data_pipeline_trigger_enable_command args =
      on_pipeline bus (λ pipeline. read_trigger_enable bus pipeline)

  unfoldable pub write_data_pipeline_trigger_enable_command : Args → Driver (CeresState bus) ℕ
  unfolding on_pipeline
  write_data_pipeline_trigger_enable_command args =
      on_pipeline bus (λ pipeline. write_trigger_enable bus pipeline (args 0))

  unfoldable pub read_build_tag_command : Args → Driver (CeresState bus) ℕ
  unfolding on_pipeline
  read_build_tag_command args = on_pipeline bus (λ pipeline. read_build_info bus pipeline)

  -- The whole part of the quotient of the doubles is the quotient of the numbers.
  unfoldable pub set_local_trigger_params_command : Args → Driver (CeresState bus) ℕ
  unfolding on_pipeline
  set_local_trigger_params_command args s =
      let rate = args 0 in
      let length = args 1 in
      let set_both : Driver (CeresState bus) ℕ = (do
        first ← on_pipeline bus (λ pipeline. write_local_trigger_length bus pipeline length)
        second ←
            on_pipeline bus
              (λ pipeline. write_local_trigger_count_reset_value bus pipeline (250000000 / rate))
        pure (bit_or first second)) in
      if rate == 0 || length == 0 then (minus_one, s) else set_both s

  unfoldable pub set_trigger_params_command : Args → Driver (CeresState bus) ℕ
  unfolding on_pipeline
  set_trigger_params_command args = do
    first ← on_pipeline bus (λ pipeline. write_channel_mask bus pipeline (args 0))
    second ← on_pipeline bus (λ pipeline. write_trig_sum_width bus pipeline (args 1))
    third ← on_pipeline bus (λ pipeline. write_threshold bus pipeline (args 2))
    pure (bit_or (bit_or first second) third)

  -- The larger of the two halves of the word.
  unfoldable pub read_fifo_occupancy_command : Args → Driver (CeresState bus) ℕ
  unfolding on_pipeline
  read_fifo_occupancy_command args = do
    val ← on_pipeline bus (λ pipeline. read_fifo_occupancy bus pipeline (args 0))
    (let v1 = bit_and val 0xFFFF in
        let v2 = u16 (val >>> 16) in pure (if ltb v2 v1 then v1 else v2))
