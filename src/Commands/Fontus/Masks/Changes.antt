-- ===== src/Commands/Fontus/Masks/Changes.antt =====
-- What the commands of fakernet_code/fontus_if.c on the masks do on a bus whose registers hold what is
-- written.
use fpga_tools.Prelude.{
  ℕ, ◌+◌, ◌-◌, ◌*◌, ◌^◌, ◌<◌, ◌≡◌, refl, ap, ap₂, ◌∙◌, arith, leb, ◌==◌, Bool, false, ◌⊎◌, inr,
  if◌then◌else◌, u32, bit, bit_or, bit_and, some, Option, List, [], ◌∷◌,
}
use Prim.Native.String.{String}
use fpga_tools.Trigger.{
  Bus, AxiTriggerPipeline, read_trig_pipeline_value, write_trig_pipeline_value,
}
use fpga_tools.Trigger.Control.{
  read_trigger_mask, write_trigger_mask, read_trigger_veto_mask, write_trigger_veto_mask,
}
use fpga_tools.Trigger.Settings.Access.{HoldsWrites}
use fpga_tools.Devices.{Driver}
use fpga_tools.Commands.{Reply, ok, error, Texts}
use fpga_tools.Commands.Fontus.{FontusState, FontusIf, get_fontus_handle}
use fpga_tools.Commands.Fontus.Masks.{
  get_bit_for_trigger_specifier, change_mask, change_found, add_to_trigger_mask_hr_command,
  add_to_veto_mask_hr_command, remove_from_trigger_mask_hr_command,
  remove_from_veto_mask_hr_command,
}
use fpga_tools.Commands.Fontus.Masks.Places.{
  get_bit_for_trigger_specifier_bound, bit-with_bit, bit-without_bit,
}

-- The place that the words of a command stand for.
abbrev pub place_of : Texts → String → String → String → String ⊎ ℕ
place_of texts location first second =
    get_bit_for_trigger_specifier texts (texts.sdstoupper location) (texts.sdstoupper first)
      (texts.sdstoupper second)

module _ (bus : Bus) (holds : HoldsWrites bus) (pipeline : AxiTriggerPipeline) (channel : ℕ)
    (fits : channel < 10) where
  -- A mask that is written is accepted, and read again.
  trigger_mask_held :
      (d : ℕ) (s : bus.State)
      → ((write_trigger_mask bus pipeline channel d s).0 ≡ 0)
        × ((read_trigger_mask bus pipeline channel
              (write_trigger_mask bus pipeline channel d s).1).0
            ≡ d)
  unfolding write_trigger_mask read_trigger_mask read_trig_pipeline_value write_trig_pipeline_value
  trigger_mask_held d s = (
    ground (arith, holds.accepts pipeline.axi_addr (464 + 4 * channel) d s),
    ground (arith, holds.same pipeline.axi_addr (464 + 4 * channel) d s),
  )

  veto_mask_held :
      (d : ℕ) (s : bus.State)
      → ((write_trigger_veto_mask bus pipeline channel d s).0 ≡ 0)
        × ((read_trigger_veto_mask bus pipeline channel
              (write_trigger_veto_mask bus pipeline channel d s).1).0
            ≡ d)
  unfolding write_trigger_veto_mask read_trigger_veto_mask read_trig_pipeline_value
      write_trig_pipeline_value
  veto_mask_held d s = (
    ground (arith, holds.accepts pipeline.axi_addr (512 + 4 * channel) d s),
    ground (arith, holds.same pipeline.axi_addr (512 + 4 * channel) d s),
  )

module _ (texts : Texts) (bus : Bus) (handle : Option FontusIf) (channel : ℕ) where
  abbrev pub pipeline : AxiTriggerPipeline
  pipeline = (get_fontus_handle handle).pipeline

  module _ (read : AxiTriggerPipeline → ℕ → Driver bus.State ℕ)
      (write : AxiTriggerPipeline → ℕ → ℕ → Driver bus.State ℕ)
      (held : (d : ℕ) (s : bus.State)
        → ((write pipeline channel d s).0 ≡ 0)
          × ((read pipeline channel (write pipeline channel d s).1).0 ≡ d))
      (change : ℕ → ℕ → ℕ) where
    change_found_held :
        (place : ℕ) (s : bus.State)
        → let (replies, (handle', s')) =
            change_found texts bus read write change channel (inr place) (handle, s) in
          (replies ≡ ok ∷ [])
          × ((read pipeline channel s').0 ≡ change (read pipeline channel s).0 place)
    unfolding change_found get_fontus_handle
    change_found_held place s =
        let (mask, s') = read pipeline channel s in
        let now = held (change mask place) s' in
        (
          ap
              (λ (code : ℕ).
                (if code == 0 then ok else error "Error while writing mask to FONTUS") ∷ [])
              now.0,
          now.1,
        )

    change_mask_held :
        (name which location first second : String) (place : ℕ) (s : bus.State)
        → channel < 10
        → u32 (texts.strtoul which) ≡ channel
        → place_of texts location first second ≡ inr place
        → let (replies, (handle', s')) =
            change_mask texts bus read write change
              (name ∷ which ∷ location ∷ first ∷ second ∷ [])
              (handle, s) in
          (replies ≡ some (ok ∷ []))
          × ((read pipeline channel s').0 ≡ change (read pipeline channel s).0 place)
    unfolding change_mask
    change_mask_held name which location first second place s fits channel_given found =
        let done = change_found_held place s in
        let invalid : Option (List Reply) × FontusState bus =
          (some (error "Invalid trigger mask specified." ∷ []), (handle, s)) in
        let outcome = λ (chosen : ℕ) (o : String ⊎ ℕ).
          let (replies, s') = change_found texts bus read write change chosen o (handle, s) in
          if leb 10 chosen then invalid else (some replies, s') in
        let small : leb 10 channel ≡ false = ground arith in
        let path =
          ap₂ outcome channel_given found
          ∙ ap
              (λ (b : Bool).
                let (replies, s') =
                  change_found texts bus read write change channel (inr place) (handle, s) in
                if b then invalid else (some replies, s'))
              small in
        (
          ap (λ r. r.0) path ∙ ap some done.0,
          ap (λ r. (read pipeline channel r.1.1).0) path ∙ done.1,
        )

module _ (texts : Texts) (bus : Bus) (handle : Option FontusIf) (holds : HoldsWrites bus)
    (name which location first second : String) (place j : ℕ) (s : bus.State) where
  abbrev which_mask : ℕ
  which_mask = u32 (texts.strtoul which)

  abbrev command_line : List String
  command_line = name ∷ which ∷ location ∷ first ∷ second ∷ []

  -- On a bus whose registers hold what is written, for one of the ten masks and words that stand
  -- for a bit: the commands that add a trigger to a trigger mask or a veto mask answer OK, and
  -- afterwards the mask reads with that bit set and every other bit as it was.
  pub add_to_masks-bit :
      u32 (texts.strtoul which) < 10
      → place_of texts location first second ≡ inr place
      → let channel = u32 (texts.strtoul which) in
        let tp_axi = (get_fontus_handle handle).pipeline in
        let argv = name ∷ which ∷ location ∷ first ∷ second ∷ [] in
        let (replies, (handle', s')) = add_to_trigger_mask_hr_command texts bus argv (handle, s) in
        let (veto_replies, (handle'', s'')) =
          add_to_veto_mask_hr_command texts bus argv (handle, s) in
        (replies ≡ some (ok ∷ []))
        × (bit j (read_trigger_mask bus tp_axi channel s').0
            ≡ (if j == place then 1 else bit j (read_trigger_mask bus tp_axi channel s).0))
        × (veto_replies ≡ some (ok ∷ []))
        × (bit j (read_trigger_veto_mask bus tp_axi channel s'').0
            ≡ (if j == place then 1 else bit j (read_trigger_veto_mask bus tp_axi channel s).0))
  unfolding add_to_trigger_mask_hr_command add_to_veto_mask_hr_command
  add_to_masks-bit fits found =
      let tp_axi = (get_fontus_handle handle).pipeline in
      let trigger =
        change_mask_held texts bus handle which_mask (read_trigger_mask bus)
          (write_trigger_mask bus) (trigger_mask_held bus holds tp_axi which_mask fits)
          (λ mask p. bit_or mask (2 ^ p)) name which location first second place s fits refl
          found in
      let veto =
        change_mask_held texts bus handle which_mask (read_trigger_veto_mask bus)
          (write_trigger_veto_mask bus) (veto_mask_held bus holds tp_axi which_mask fits)
          (λ mask p. bit_or mask (2 ^ p)) name which location first second place s fits refl
          found in
      (
        trigger.0,
        ap (bit j) trigger.1 ∙ bit-with_bit (read_trigger_mask bus tp_axi which_mask s).0 place j,
        veto.0,
        ap (bit j) veto.1 ∙ bit-with_bit (read_trigger_veto_mask bus tp_axi which_mask s).0 place j,
      )

  -- On a bus whose registers hold what is written, for one of the ten masks and words that stand
  -- for a bit: the commands that remove a trigger from a trigger mask or a veto mask answer OK,
  -- and afterwards the mask reads with that bit clear and every other of its 32 bits as it was.
  pub remove_from_masks-bit :
      u32 (texts.strtoul which) < 10
      → j < 32
      → place_of texts location first second ≡ inr place
      → let channel = u32 (texts.strtoul which) in
        let tp_axi = (get_fontus_handle handle).pipeline in
        let argv = name ∷ which ∷ location ∷ first ∷ second ∷ [] in
        let (replies, (handle', s')) =
          remove_from_trigger_mask_hr_command texts bus argv (handle, s) in
        let (veto_replies, (handle'', s'')) =
          remove_from_veto_mask_hr_command texts bus argv (handle, s) in
        (replies ≡ some (ok ∷ []))
        × (bit j (read_trigger_mask bus tp_axi channel s').0
            ≡ (if j == place then 0 else bit j (read_trigger_mask bus tp_axi channel s).0))
        × (veto_replies ≡ some (ok ∷ []))
        × (bit j (read_trigger_veto_mask bus tp_axi channel s'').0
            ≡ (if j == place then 0 else bit j (read_trigger_veto_mask bus tp_axi channel s).0))
  unfolding remove_from_trigger_mask_hr_command remove_from_veto_mask_hr_command
  remove_from_masks-bit fits below found =
      let tp_axi = (get_fontus_handle handle).pipeline in
      let small =
        get_bit_for_trigger_specifier_bound texts (texts.sdstoupper location)
          (texts.sdstoupper first) (texts.sdstoupper second) place found in
      let without = λ (mask p : ℕ). bit_and mask (2 ^ 32 - 1 - 2 ^ p) in
      let trigger =
        change_mask_held texts bus handle which_mask (read_trigger_mask bus)
          (write_trigger_mask bus) (trigger_mask_held bus holds tp_axi which_mask fits) without name
          which location first second place s fits refl found in
      let veto =
        change_mask_held texts bus handle which_mask (read_trigger_veto_mask bus)
          (write_trigger_veto_mask bus) (veto_mask_held bus holds tp_axi which_mask fits) without
          name which location first second place s fits refl found in
      (
        trigger.0,
        ap (bit j) trigger.1
            ∙ bit-without_bit (read_trigger_mask bus tp_axi which_mask s).0 place j small below,
        veto.0,
        ap (bit j) veto.1
            ∙ bit-without_bit (read_trigger_veto_mask bus tp_axi which_mask s).0 place j small
                below,
      )
