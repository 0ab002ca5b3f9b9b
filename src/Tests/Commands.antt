-- ===== src/Tests/Commands.antt =====
-- The tables and commands of the boards, on a bus that is an array of registers.
use fpga_tools.Prelude.{
  ◌≡◌, ◌⊎◌, refl, Option, none, some, List, [], ◌∷◌, inr, if◌then◌else◌, arith, bit,
}
use Prim.Native.String.{String}
use text.Mathlib.Text.{◌==◌}
use fpga_tools.Trigger.Control.{read_trigger_mask, read_trigger_veto_mask}
use fpga_tools.Commands.{All, ReadsArgs, ok, Texts, ServerCommand}
use fpga_tools.Commands.Fontus.{FontusIf, get_fontus_handle}
use fpga_tools.Commands.Fontus.Masks.{
  get_bit_for_trigger_specifier, add_to_trigger_mask_hr_command, add_to_veto_mask_hr_command,
  remove_from_trigger_mask_hr_command, remove_from_veto_mask_hr_command,
}
use fpga_tools.Commands.Fontus.Masks.Changes.{place_of, add_to_masks-bit, remove_from_masks-bit}
use fpga_tools.Commands.Fontus.Table.{fontus_commands}
use fpga_tools.Commands.Fontus.Table.Bounds.{fontus_commands-ReadsArgs}
use fpga_tools.Commands.Ceres.Table.{ceres_commands}
use fpga_tools.Commands.Ceres.Table.Bounds.{ceres_commands-ReadsArgs}
use fpga_tools.Tests.Trigger.{registers, registers-HoldsWrites, fresh}

ceres_commands-ReadsArgs_example : All ReadsArgs (ceres_commands registers 5)
ceres_commands-ReadsArgs_example = ceres_commands-ReadsArgs registers 5

-- Digits alone are numbers, and words are in capitals already.
abbrev texts : Texts
texts = record {
  strtoul = λ word. if word == "7" then 7 else if word == "3" then 3 else 0;
  sdstoupper = λ word. word;
  of_infinity = 0;
}

fontus_commands-ReadsArgs_example :
    All
      (λ (e : ServerCommand (Option FontusIf × registers.State)).
        (e.name ≡ "write_dac_spi") ⊎ ReadsArgs e)
      (fontus_commands registers texts)
fontus_commands-ReadsArgs_example = fontus_commands-ReadsArgs registers texts

abbrev command_line : List String
command_line = "name" ∷ "7" ∷ "INNER" ∷ "ESUM" ∷ "3" ∷ []

inner_esum_3 : place_of texts "INNER" "ESUM" "3" ≡ inr 8
unfolding get_bit_for_trigger_specifier
inner_esum_3 = refl

add_to_masks-bit_example :
    let tp_axi = (get_fontus_handle none).pipeline in
    let (replies, (handle, s)) =
      add_to_trigger_mask_hr_command texts registers command_line (none, fresh) in
    let (veto_replies, (handle', s')) =
      add_to_veto_mask_hr_command texts registers command_line (none, fresh) in
    (replies ≡ some (ok ∷ []))
    × (bit 8 (read_trigger_mask registers tp_axi 7 s).0 ≡ 1)
    × (veto_replies ≡ some (ok ∷ []))
    × (bit 8 (read_trigger_veto_mask registers tp_axi 7 s').0 ≡ 1)
add_to_masks-bit_example =
    add_to_masks-bit texts registers none registers-HoldsWrites "name" "7" "INNER" "ESUM" "3" 8 8
      fresh (omega arith) inner_esum_3

remove_from_masks-bit_example :
    let tp_axi = (get_fontus_handle none).pipeline in
    let (replies, (handle, s)) =
      remove_from_trigger_mask_hr_command texts registers command_line (none, fresh) in
    let (veto_replies, (handle', s')) =
      remove_from_veto_mask_hr_command texts registers command_line (none, fresh) in
    (replies ≡ some (ok ∷ []))
    × (bit 8 (read_trigger_mask registers tp_axi 7 s).0 ≡ 0)
    × (veto_replies ≡ some (ok ∷ []))
    × (bit 8 (read_trigger_veto_mask registers tp_axi 7 s').0 ≡ 0)
remove_from_masks-bit_example =
    remove_from_masks-bit texts registers none registers-HoldsWrites "name" "7" "INNER" "ESUM" "3" 8
      8 fresh (omega arith) (omega arith) inner_esum_3
