-- ===== src/Commands/Fontus/Gates.antt =====
-- The commands of FONTUS in fakernet_code/fontus_if.c for the gates, lengths, masks and enables of the
-- trigger pipeline.
use fpga_tools.Prelude.{ℕ}
use fpga_tools.Trigger.{Bus}
use fpga_tools.Trigger.Thresholds.{read_multiplicity_width, write_multiplicity_width}
use fpga_tools.Trigger.Gates.{
  write_inner_multiplicity_gate, read_inner_multiplicity_gate, write_veto_multiplicity_gate,
  read_veto_multiplicity_gate, write_inner_esum_gate, read_inner_esum_gate, write_veto_esum_gate,
  read_veto_esum_gate, write_external_gate, read_external_gate, write_cngs_beam_gate,
  read_cngs_beam_gate, write_cngs_cngs_gate, read_cngs_cngs_gate,
}
use fpga_tools.Trigger.Control.{
  read_led_trigger_length, write_led_trigger_length, read_kicker_trigger_length,
  write_kicker_trigger_length, write_trigger_mask, read_trigger_mask, write_trigger_veto_mask,
  read_trigger_veto_mask, read_trigger_length, write_trigger_length, read_threshold_enable_mask,
  write_threshold_enable_mask, read_trigger_mask_enable, write_trigger_mask_enable,
}
use fpga_tools.Devices.{Driver}
use fpga_tools.Commands.{Args}
use fpga_tools.Commands.Fontus.{FontusState, on_pipeline}

module _ (bus : Bus) where
  unfoldable pub write_inner_multiplicity_gate_command : Args → Driver (FontusState bus) ℕ
  unfolding on_pipeline
  write_inner_multiplicity_gate_command args =
      on_pipeline bus (λ pipeline. write_inner_multiplicity_gate bus pipeline (args 0) (args 1))

  unfoldable pub read_inner_multiplicity_gate_command : Args → Driver (FontusState bus) ℕ
  unfolding on_pipeline
  read_inner_multiplicity_gate_command args =
      on_pipeline bus (λ pipeline. read_inner_multiplicity_gate bus pipeline (args 0))

  unfoldable pub write_veto_multiplicity_gate_command : Args → Driver (FontusState bus) ℕ
  unfolding on_pipeline
  write_veto_multiplicity_gate_command args =
      on_pipeline bus (λ pipeline. write_veto_multiplicity_gate bus pipeline (args 0) (args 1))

  unfoldable pub read_veto_multiplicity_gate_command : Args → Driver (FontusState bus) ℕ
  unfolding on_pipeline
  read_veto_multiplicity_gate_command args =
      on_pipeline bus (λ pipeline. read_veto_multiplicity_gate bus pipeline (args 0))

  unfoldable pub write_inner_esum_gate_command : Args → Driver (FontusState bus) ℕ
  unfolding on_pipeline
  write_inner_esum_gate_command args =
      on_pipeline bus (λ pipeline. write_inner_esum_gate bus pipeline (args 0) (args 1))

  unfoldable pub read_inner_esum_gate_command : Args → Driver (FontusState bus) ℕ
  unfolding on_pipeline
  read_inner_esum_gate_command args =
      on_pipeline bus (λ pipeline. read_inner_esum_gate bus pipeline (args 0))

  unfoldable pub write_veto_esum_gate_command : Args → Driver (FontusState bus) ℕ
  unfolding on_pipeline
  write_veto_esum_gate_command args =
      on_pipeline bus (λ pipeline. write_veto_esum_gate bus pipeline (args 0) (args 1))

  unfoldable pub read_veto_esum_gate_command : Args → Driver (FontusState bus) ℕ
  unfolding on_pipeline
  read_veto_esum_gate_command args =
      on_pipeline bus (λ pipeline. read_veto_esum_gate bus pipeline (args 0))

  unfoldable pub write_frontpanel_trigger_gate_command : Args → Driver (FontusState bus) ℕ
  unfolding on_pipeline
  write_frontpanel_trigger_gate_command args =
      on_pipeline bus (λ pipeline. write_external_gate bus pipeline (args 0) (args 1) (args 2))

  unfoldable pub read_frontpanel_trigger_gate_command : Args → Driver (FontusState bus) ℕ
  unfolding on_pipeline
  read_frontpanel_trigger_gate_command args =
      on_pipeline bus (λ pipeline. read_external_gate bus pipeline (args 0) (args 1))

  unfoldable pub write_cngs_beam_trigger_gate_command : Args → Driver (FontusState bus) ℕ
  unfolding on_pipeline
  write_cngs_beam_trigger_gate_command args =
      on_pipeline bus (λ pipeline. write_cngs_beam_gate bus pipeline (args 0))

  unfoldable pub read_cngs_beam_trigger_gate_command : Args → Driver (FontusState bus) ℕ
  unfolding on_pipeline
  read_cngs_beam_trigger_gate_command args =
      on_pipeline bus (λ pipeline. read_cngs_beam_gate bus pipeline)

  unfoldable pub write_cngs_cngs_trigger_gate_command : Args → Driver (FontusState bus) ℕ
  unfolding on_pipeline
  write_cngs_cngs_trigger_gate_command args =
      on_pipeline bus (λ pipeline. write_cngs_cngs_gate bus pipeline (args 0))

  unfoldable pub read_cngs_cngs_trigger_gate_command : Args → Driver (FontusState bus) ℕ
  unfolding on_pipeline
  read_cngs_cngs_trigger_gate_command args =
      on_pipeline bus (λ pipeline. read_cngs_cngs_gate bus pipeline)

  unfoldable pub read_led_trigger_length_command : Args → Driver (FontusState bus) ℕ
  unfolding on_pipeline
  read_led_trigger_length_command args =
      on_pipeline bus (λ pipeline. read_led_trigger_length bus pipeline)

  unfoldable pub write_led_trigger_length_command : Args → Driver (FontusState bus) ℕ
  unfolding on_pipeline
  write_led_trigger_length_command args =
      on_pipeline bus (λ pipeline. write_led_trigger_length bus pipeline (args 0))

  unfoldable pub read_kicker_trigger_length_command : Args → Driver (FontusState bus) ℕ
  unfolding on_pipeline
  read_kicker_trigger_length_command args =
      on_pipeline bus (λ pipeline. read_kicker_trigger_length bus pipeline)

  unfoldable pub write_kicker_trigger_length_command : Args → Driver (FontusState bus) ℕ
  unfolding on_pipeline
  write_kicker_trigger_length_command args =
      on_pipeline bus (λ pipeline. write_kicker_trigger_length bus pipeline (args 0))

  unfoldable pub write_self_trigger_mask_command : Args → Driver (FontusState bus) ℕ
  unfolding on_pipeline
  write_self_trigger_mask_command args =
      on_pipeline bus (λ pipeline. write_trigger_mask bus pipeline (args 0) (args 1))

  unfoldable pub read_self_trigger_mask_command : Args → Driver (FontusState bus) ℕ
  unfolding on_pipeline
  read_self_trigger_mask_command args =
      on_pipeline bus (λ pipeline. read_trigger_mask bus pipeline (args 0))

  unfoldable pub write_self_veto_mask_command : Args → Driver (FontusState bus) ℕ
  unfolding on_pipeline
  write_self_veto_mask_command args =
      on_pipeline bus (λ pipeline. write_trigger_veto_mask bus pipeline (args 0) (args 1))

  unfoldable pub read_self_veto_mask_command : Args → Driver (FontusState bus) ℕ
  unfolding on_pipeline
  read_self_veto_mask_command args =
      on_pipeline bus (λ pipeline. read_trigger_veto_mask bus pipeline (args 0))

  unfoldable pub read_self_trigger_length_command : Args → Driver (FontusState bus) ℕ
  unfolding on_pipeline
  read_self_trigger_length_command args =
      on_pipeline bus (λ pipeline. read_trigger_length bus pipeline (args 0))

  unfoldable pub write_self_trigger_length_command : Args → Driver (FontusState bus) ℕ
  unfolding on_pipeline
  write_self_trigger_length_command args =
      on_pipeline bus (λ pipeline. write_trigger_length bus pipeline (args 0) (args 1))

  unfoldable pub read_threshold_enable_mask_command : Args → Driver (FontusState bus) ℕ
  unfolding on_pipeline
  read_threshold_enable_mask_command args =
      on_pipeline bus (λ pipeline. read_threshold_enable_mask bus pipeline)

  unfoldable pub write_threshold_enable_mask_command : Args → Driver (FontusState bus) ℕ
  unfolding on_pipeline
  write_threshold_enable_mask_command args =
      on_pipeline bus (λ pipeline. write_threshold_enable_mask bus pipeline (args 0))

  unfoldable pub read_multiplicity_width_command : Args → Driver (FontusState bus) ℕ
  unfolding on_pipeline
  read_multiplicity_width_command args =
      on_pipeline bus (λ pipeline. read_multiplicity_width bus pipeline)

  unfoldable pub write_multiplicity_width_command : Args → Driver (FontusState bus) ℕ
  unfolding on_pipeline
  write_multiplicity_width_command args =
      on_pipeline bus (λ pipeline. write_multiplicity_width bus pipeline (args 0))

  unfoldable pub read_trigger_enable_mask_command : Args → Driver (FontusState bus) ℕ
  unfolding on_pipeline
  read_trigger_enable_mask_command args =
      on_pipeline bus (λ pipeline. read_trigger_mask_enable bus pipeline)

  unfoldable pub write_trigger_enable_mask_command : Args → Driver (FontusState bus) ℕ
  unfolding on_pipeline
  write_trigger_enable_mask_command args =
      on_pipeline bus (λ pipeline. write_trigger_mask_enable bus pipeline (args 0))
