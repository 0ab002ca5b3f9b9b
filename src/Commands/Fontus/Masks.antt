-- ===== src/Commands/Fontus/Masks.antt =====
-- The commands of fakernet_code/fontus_if.c that add a trigger to one of the ten masks, or take it away, by
-- the words for its place. A message is without the number or the word that it shows.
pub mod Places
pub mod Changes
use fpga_tools.Prelude.{
  ℕ, ◌+◌, ◌-◌, ◌*◌, ◌^◌, Bool, ◌&&◌, ◌||◌, not, Option, none, some, inl, inr, ◌⊎◌, List, [], ◌∷◌,
  if◌then◌else◌, ltb, leb, bit_or, bit_and, u32,
}
use fpga_tools.Prelude as Prelude
use Prim.Native.String.{String}
use text.Mathlib.Text.{◌==◌}
use fpga_tools.Trigger.{Bus, AxiTriggerPipeline}
use fpga_tools.Trigger.Control.{
  read_trigger_mask, write_trigger_mask, read_trigger_veto_mask, write_trigger_veto_mask,
}
use fpga_tools.Devices.{Driver, ◌>>=◌, ◌>>◌, pure}
use fpga_tools.Commands.{Reply, ok, error, undefined, CliFunc, Texts}
use fpga_tools.Commands.Fontus.{FontusState, on_pipeline}

abbrev n_ext : ℕ
n_ext = 3

abbrev triggers_per_external : ℕ
triggers_per_external = 3

abbrev n_threshold : ℕ
n_threshold = 5

module _ (texts : Texts) where
  open texts use {strtoul, sdstoupper}

  -- The bit of the masks, or the error that is sent.
  unfoldable pub get_bit_for_trigger_specifier : String → String → String → String ⊎ ℕ
  get_bit_for_trigger_specifier location first second =
      let channel_1 = u32 (strtoul first) in
      let channel_2 = u32 (strtoul second) in
      if location == "EXTERNAL"
      then if leb n_ext channel_1 || leb triggers_per_external channel_2
        then inl "Invalid external channel specified"
        else inr (20 + triggers_per_external * channel_1 + channel_2)
      else if location == "INNER" || location == "VETO"
      then if leb n_threshold channel_2
        then inl "Invalid channel specified."
        else if not (first == "MULT") && not (first == "ESUM")
        then inl "Invalid trigger type specified. Must be either 'MULT' or 'ESUM'"
        else inr (
            (if location == "INNER" then 0 else 2 * n_threshold)
            + (if first == "MULT" then 0 else n_threshold)
            + channel_2)
      else inl "Invalid trigger specifier given. Must be either 'EXTERNAL', 'INNER' or 'VETO'."

  module _ (bus : Bus) where
    -- What follows when the words stand for a bit.
    unfoldable pub change_found :
        (AxiTriggerPipeline → ℕ → Driver bus.State ℕ)
        → (AxiTriggerPipeline → ℕ → ℕ → Driver bus.State ℕ)
        → (ℕ → ℕ → ℕ)
        → ℕ
        → String ⊎ ℕ
        → Driver (FontusState bus) (List Reply)
    unfolding on_pipeline
    change_found read write change which_mask (inl message) s = (error message ∷ [], s)
    change_found read write change which_mask (inr place) s =
        (do
          current_mask ← on_pipeline bus (λ pipeline. read pipeline which_mask)
          code ← on_pipeline bus (λ pipeline. write pipeline which_mask (change current_mask place))
          pure (
              (if Prelude.◌==◌ code 0 then ok else error "Error while writing mask to FONTUS")
              ∷ []))
          s

    -- The four handlers, by the register that they read and write and what they make of the mask.
    unfoldable pub change_mask :
        (AxiTriggerPipeline → ℕ → Driver bus.State ℕ)
        → (AxiTriggerPipeline → ℕ → ℕ → Driver bus.State ℕ)
        → (ℕ → ℕ → ℕ)
        → CliFunc (FontusState bus)
    unfolding change_found
    change_mask read write change (name ∷ which ∷ location ∷ first ∷ second ∷ rest) s =
        let which_mask = u32 (strtoul which) in
        let found =
          get_bit_for_trigger_specifier (sdstoupper location) (sdstoupper first)
            (sdstoupper second) in
        let (replies, s') = change_found read write change which_mask found s in
        if leb 10 which_mask
        then (some (error "Invalid trigger mask specified." ∷ []), s)
        else (some replies, s')
    change_mask read write change words s = (some (undefined ∷ []), s)

    abbrev with_bit : ℕ → ℕ → ℕ
    with_bit mask place = bit_or mask (2 ^ place)

    abbrev without_bit : ℕ → ℕ → ℕ
    without_bit mask place = bit_and mask (2 ^ 32 - 1 - 2 ^ place)

    unfoldable pub add_to_trigger_mask_hr_command : CliFunc (FontusState bus)
    unfolding change_mask
    add_to_trigger_mask_hr_command =
        change_mask (read_trigger_mask bus) (write_trigger_mask bus) with_bit

    unfoldable pub add_to_veto_mask_hr_command : CliFunc (FontusState bus)
    unfolding change_mask
    add_to_veto_mask_hr_command =
        change_mask (read_trigger_veto_mask bus) (write_trigger_veto_mask bus) with_bit

    unfoldable pub remove_from_trigger_mask_hr_command : CliFunc (FontusState bus)
    unfolding change_mask
    remove_from_trigger_mask_hr_command =
        change_mask (read_trigger_mask bus) (write_trigger_mask bus) without_bit

    unfoldable pub remove_from_veto_mask_hr_command : CliFunc (FontusState bus)
    unfolding change_mask
    remove_from_veto_mask_hr_command =
        change_mask (read_trigger_veto_mask bus) (write_trigger_veto_mask bus) without_bit
