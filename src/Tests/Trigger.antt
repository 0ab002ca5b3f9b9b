-- ===== src/Tests/Trigger.antt =====
-- The settings on a bus that is an array of registers.
use fpga_tools.Prelude.{ℕ, ◌≡◌, ◌≢◌, refl, true, arith, some, ◌==◌, if◌then◌else◌, []}
use fpga_tools.Trigger.{Bus, AxiTriggerPipeline}
use fpga_tools.Trigger.Settings.{
  inner_multiplicity_delay, veto_esum_gate, in_range, stored_word, read_setting, write_setting,
}
use fpga_tools.Trigger.Settings.Access.{
  HoldsWrites, write_setting-read_setting, write_setting-read_other,
}

abbrev pub registers : Bus
registers = record {
  State = ℕ → ℕ;
  double_read_addr = λ base o s. (some (s o), s);
  write_addr = λ base o d s. (0, λ (j : ℕ). if j == o then d else s j);
}

pub registers-HoldsWrites : HoldsWrites registers
registers-HoldsWrites = record {
  accepts = λ base o d s. refl;
  same = λ base o d s. ground arith;
  other = λ base o o' d s ne. ground arith;
}

abbrev pipeline : AxiTriggerPipeline
pipeline = record { name = []; axi_addr = 0 }

abbrev pub fresh : ℕ → ℕ
fresh j = 0

delay_ok : in_range (inner_multiplicity_delay 4) ≡ true
unfolding in_range
delay_ok = refl

gate_ok : in_range (veto_esum_gate 4) ≡ true
unfolding in_range
gate_ok = refl

different : inner_multiplicity_delay 4 ≢ veto_esum_gate 4
different e = absurd (cc e)

write_setting-read_setting_example :
    ((write_setting registers pipeline (veto_esum_gate 4) 9 fresh).0 ≡ 0)
    × ((read_setting registers pipeline
          (veto_esum_gate 4)
          (write_setting registers pipeline (veto_esum_gate 4) 9 fresh).1).0
        ≡ stored_word (veto_esum_gate 4) 9)
write_setting-read_setting_example =
    write_setting-read_setting registers pipeline (veto_esum_gate 4) 9 fresh registers-HoldsWrites
      gate_ok

write_setting-read_other_example :
    (read_setting registers pipeline
      (veto_esum_gate 4)
      (write_setting registers pipeline (inner_multiplicity_delay 4) 9 fresh).1).0
    ≡ (read_setting registers pipeline (veto_esum_gate 4) fresh).0
write_setting-read_other_example =
    write_setting-read_other registers pipeline (inner_multiplicity_delay 4) (veto_esum_gate 4) 9
      fresh registers-HoldsWrites delay_ok gate_ok different
