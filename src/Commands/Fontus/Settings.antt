-- ===== src/Commands/Fontus/Settings.antt =====
-- The commands of FONTUS in fakernet_code/fontus_if.c for the thresholds and delays of the trigger
-- pipeline.
use fpga_tools.Prelude.{ℕ}
use fpga_tools.Trigger.{Bus}
use fpga_tools.Trigger.Thresholds.{
  write_inner_multiplicity_threshold, read_inner_multiplicity_threshold,
  write_veto_multiplicity_threshold, read_veto_multiplicity_threshold, write_inner_esum_threshold,
  read_inner_esum_threshold, write_veto_esum_threshold, read_veto_esum_threshold,
  write_cngs_trigger_threshold, read_cngs_trigger_threshold,
}
use fpga_tools.Trigger.Delays.{
  write_inner_multiplicity_delay, read_inner_multiplicity_delay, write_veto_multiplicity_delay,
  read_veto_multiplicity_delay, write_inner_esum_delay, read_inner_esum_delay,
  write_veto_esum_delay, read_veto_esum_delay, write_external_delay, read_external_delay,
  write_cngs_beam_delay, read_cngs_beam_delay, write_cngs_cngs_delay, read_cngs_cngs_delay,
}
use fpga_tools.Devices.{Driver}
use fpga_tools.Commands.{Args}
use fpga_tools.Commands.Fontus.{FontusState, on_pipeline}

module _ (bus : Bus) where
  unfoldable pub write_inner_multiplicity_threshold_command : Args → Driver (FontusState bus) ℕ
  unfolding on_pipeline
  write_inner_multiplicity_threshold_command args =
      on_pipeline bus
        (λ pipeline. write_inner_multiplicity_threshold bus pipeline (args 0) (args 1))

  unfoldable pub read_inner_multiplicity_threshold_command : Args → Driver (FontusState bus) ℕ
  unfolding on_pipeline
  read_inner_multiplicity_threshold_command args =
      on_pipeline bus (λ pipeline. read_inner_multiplicity_threshold bus pipeline (args 0))

  unfoldable pub write_veto_multiplicity_threshold_command : Args → Driver (FontusState bus) ℕ
  unfolding on_pipeline
  write_veto_multiplicity_threshold_command args =
      on_pipeline bus (λ pipeline. write_veto_multiplicity_threshold bus pipeline (args 0) (args 1))

  unfoldable pub read_veto_multiplicity_threshold_command : Args → Driver (FontusState bus) ℕ
  unfolding on_pipeline
  read_veto_multiplicity_threshold_command args =
      on_pipeline bus (λ pipeline. read_veto_multiplicity_threshold bus pipeline (args 0))

  unfoldable pub write_inner_esum_threshold_command : Args → Driver (FontusState bus) ℕ
  unfolding on_pipeline
  write_inner_esum_threshold_command args =
      on_pipeline bus (λ pipeline. write_inner_esum_threshold bus pipeline (args 0) (args 1))

  unfoldable pub read_inner_esum_threshold_command : Args → Driver (FontusState bus) ℕ
  unfolding on_pipeline
  read_inner_esum_threshold_command args =
      on_pipeline bus (λ pipeline. read_inner_esum_threshold bus pipeline (args 0))

  unfoldable pub write_veto_esum_threshold_command : Args → Driver (FontusState bus) ℕ
  unfolding on_pipeline
  write_veto_esum_threshold_command args =
      on_pipeline bus (λ pipeline. write_veto_esum_threshold bus pipeline (args 0) (args 1))

  unfoldable pub read_veto_esum_threshold_command : Args → Driver (FontusState bus) ℕ
  unfolding on_pipeline
  read_veto_esum_threshold_command args =
      on_pipeline bus (λ pipeline. read_veto_esum_threshold bus pipeline (args 0))

  unfoldable pub write_cngs_beam_trigger_threshold_command : Args → Driver (FontusState bus) ℕ
  unfolding on_pipeline
  write_cngs_beam_trigger_threshold_command args =
      on_pipeline bus (λ pipeline. write_cngs_trigger_threshold bus pipeline (args 0))

  unfoldable pub read_cngs_beam_trigger_threshold_command : Args → Driver (FontusState bus) ℕ
  unfolding on_pipeline
  read_cngs_beam_trigger_threshold_command args =
      on_pipeline bus (λ pipeline. read_cngs_trigger_threshold bus pipeline)

  unfoldable pub write_inner_multiplicity_delay_command : Args → Driver (FontusState bus) ℕ
  unfolding on_pipeline
  write_inner_multiplicity_delay_command args =
      on_pipeline bus (λ pipeline. write_inner_multiplicity_delay bus pipeline (args 0) (args 1))

  unfoldable pub read_inner_multiplicity_delay_command : Args → Driver (FontusState bus) ℕ
  unfolding on_pipeline
  read_inner_multiplicity_delay_command args =
      on_pipeline bus (λ pipeline. read_inner_multiplicity_delay bus pipeline (args 0))

  unfoldable pub write_veto_multiplicity_delay_command : Args → Driver (FontusState bus) ℕ
  unfolding on_pipeline
  write_veto_multiplicity_delay_command args =
      on_pipeline bus (λ pipeline. write_veto_multiplicity_delay bus pipeline (args 0) (args 1))

  unfoldable pub read_veto_multiplicity_delay_command : Args → Driver (FontusState bus) ℕ
  unfolding on_pipeline
  read_veto_multiplicity_delay_command args =
      on_pipeline bus (λ pipeline. read_veto_multiplicity_delay bus pipeline (args 0))

  unfoldable pub write_inner_esum_delay_command : Args → Driver (FontusState bus) ℕ
  unfolding on_pipeline
  write_inner_esum_delay_command args =
      on_pipeline bus (λ pipeline. write_inner_esum_delay bus pipeline (args 0) (args 1))

  unfoldable pub read_inner_esum_delay_command : Args → Driver (FontusState bus) ℕ
  unfolding on_pipeline
  read_inner_esum_delay_command args =
      on_pipeline bus (λ pipeline. read_inner_esum_delay bus pipeline (args 0))

  unfoldable pub write_veto_esum_delay_command : Args → Driver (FontusState bus) ℕ
  unfolding on_pipeline
  write_veto_esum_delay_command args =
      on_pipeline bus (λ pipeline. write_veto_esum_delay bus pipeline (args 0) (args 1))

  unfoldable pub read_veto_esum_delay_command : Args → Driver (FontusState bus) ℕ
  unfolding on_pipeline
  read_veto_esum_delay_command args =
      on_pipeline bus (λ pipeline. read_veto_esum_delay bus pipeline (args 0))

  unfoldable pub write_frontpanel_trigger_delay_command : Args → Driver (FontusState bus) ℕ
  unfolding on_pipeline
  write_frontpanel_trigger_delay_command args =
      on_pipeline bus (λ pipeline. write_external_delay bus pipeline (args 0) (args 1) (args 2))

  unfoldable pub read_frontpanel_trigger_delay_command : Args → Driver (FontusState bus) ℕ
  unfolding on_pipeline
  read_frontpanel_trigger_delay_command args =
      on_pipeline bus (λ pipeline. read_external_delay bus pipeline (args 0) (args 1))

  unfoldable pub write_cngs_beam_trigger_delay_command : Args → Driver (FontusState bus) ℕ
  unfolding on_pipeline
  write_cngs_beam_trigger_delay_command args =
      on_pipeline bus (λ pipeline. write_cngs_beam_delay bus pipeline (args 0))

  unfoldable pub read_cngs_beam_trigger_delay_command : Args → Driver (FontusState bus) ℕ
  unfolding on_pipeline
  read_cngs_beam_trigger_delay_command args =
      on_pipeline bus (λ pipeline. read_cngs_beam_delay bus pipeline)

  unfoldable pub write_cngs_cngs_trigger_delay_command : Args → Driver (FontusState bus) ℕ
  unfolding on_pipeline
  write_cngs_cngs_trigger_delay_command args =
      on_pipeline bus (λ pipeline. write_cngs_cngs_delay bus pipeline (args 0))

  unfoldable pub read_cngs_cngs_trigger_delay_command : Args → Driver (FontusState bus) ℕ
  unfolding on_pipeline
  read_cngs_cngs_trigger_delay_command args =
      on_pipeline bus (λ pipeline. read_cngs_cngs_delay bus pipeline)
