-- ===== src/Trigger.antt =====
-- fakernet_code/trigger_pipeline.c: the settings of the trigger pipeline of FONTUS, which stand in
-- registers behind a bus. The bus is a parameter: `read_addr` and its kin are accesses to hardware.
-- The address map is here; the functions are in the children.
pub mod Thresholds
pub mod Delays
pub mod Gates
pub mod Control
pub mod Settings
use fpga_tools.Prelude.{
  ℕ, zero, suc, ◌+◌, ◌-◌, ◌*◌, ◌/◌, ◌%◌, ◌^◌, ◌≤◌, ◌<◌, ◌≡◌, ◌≢◌, ◌⊎◌, inl, inr, refl, sym, ap, ◌∙◌,
  Bool, true, false, not, ◌||◌, ◌&&◌, arith, Option, none, some, Option-cases, Bool-cases, List, [],
  ◌∷◌,
}
use fpga_tools.Prelude.{if◌then◌else◌, ltb, leb, ◌==◌, bit_or, bit_and, ◌<<<◌, ◌>>>◌, u32}

abbrev pub num_thresholds : ℕ
num_thresholds = 5

abbrev pub num_externals : ℕ
num_externals = 3

abbrev pub channels_per_external : ℕ
channels_per_external = 3

abbrev pub num_triggers : ℕ
num_triggers = 10

abbrev pub register_width : ℕ
register_width = 4

abbrev pub pulse_generator_enable_mask : ℕ
pulse_generator_enable_mask = 8

abbrev pub kicker_trigger_length_offset : ℕ
kicker_trigger_length_offset = 12

abbrev pub led_trigger_length_offset : ℕ
led_trigger_length_offset = 16

abbrev pub sync_reg_offset : ℕ
sync_reg_offset = 20

abbrev pub trig_var_combiner_multiplicity_width : ℕ
trig_var_combiner_multiplicity_width = 32

abbrev pub auto_trigger_len_reg_offset : ℕ
auto_trigger_len_reg_offset = 24

abbrev pub auto_trigger_rate_reg_offset : ℕ
auto_trigger_rate_reg_offset = 28

abbrev pub auto_trigger_enable_reg_offset : ℕ
auto_trigger_enable_reg_offset = 36

abbrev pub cngs_beam_trigger_threshold_reg_offset : ℕ
cngs_beam_trigger_threshold_reg_offset = 40

abbrev pub inner_multiplicity_threshold_base_offset : ℕ
inner_multiplicity_threshold_base_offset = 48

abbrev pub inner_esum_threshold_base_offset : ℕ
inner_esum_threshold_base_offset = 80

abbrev pub veto_multiplicity_threshold_base_offset : ℕ
veto_multiplicity_threshold_base_offset = 112

abbrev pub veto_esum_threshold_base_offset : ℕ
veto_esum_threshold_base_offset = 144

abbrev pub inner_multiplicity_delay_base_offset : ℕ
inner_multiplicity_delay_base_offset = 208

abbrev pub inner_energy_sum_delay_base_offset : ℕ
inner_energy_sum_delay_base_offset =
    inner_multiplicity_delay_base_offset + register_width * num_thresholds

abbrev pub veto_multiplicity_delay_base_offset : ℕ
veto_multiplicity_delay_base_offset =
    inner_energy_sum_delay_base_offset + register_width * num_thresholds

abbrev pub veto_energy_sum_delay_base_offset : ℕ
veto_energy_sum_delay_base_offset =
    veto_multiplicity_delay_base_offset + register_width * num_thresholds

abbrev pub external_delay_offset : ℕ
external_delay_offset = veto_energy_sum_delay_base_offset + register_width * num_thresholds

abbrev pub cngs_beam_window_delay_offset : ℕ
cngs_beam_window_delay_offset =
    external_delay_offset + register_width * num_externals * channels_per_external

abbrev pub cngs_cngs_window_delay_offset : ℕ
cngs_cngs_window_delay_offset = cngs_beam_window_delay_offset + register_width * 1

abbrev pub inner_multiplicity_gate_base_offset : ℕ
inner_multiplicity_gate_base_offset = 336

abbrev pub inner_energy_sum_gate_base_offset : ℕ
inner_energy_sum_gate_base_offset =
    inner_multiplicity_gate_base_offset + register_width * num_thresholds

abbrev pub veto_multiplicity_gate_base_offset : ℕ
veto_multiplicity_gate_base_offset =
    inner_energy_sum_gate_base_offset + register_width * num_thresholds

abbrev pub veto_energy_sum_gate_base_offset : ℕ
veto_energy_sum_gate_base_offset =
    veto_multiplicity_gate_base_offset + register_width * num_thresholds

abbrev pub external_gate_offset : ℕ
external_gate_offset = veto_energy_sum_gate_base_offset + register_width * num_thresholds

abbrev pub cngs_beam_window_gate_offset : ℕ
cngs_beam_window_gate_offset =
    external_gate_offset + register_width * num_externals * channels_per_external

abbrev pub cngs_cngs_window_gate_offset : ℕ
cngs_cngs_window_gate_offset = cngs_beam_window_gate_offset + register_width * 1

abbrev pub trigger_mask_base_offset : ℕ
trigger_mask_base_offset = 464

abbrev pub trigger_veto_mask_base_offset : ℕ
trigger_veto_mask_base_offset = 512

abbrev pub trigger_length_base_offset : ℕ
trigger_length_base_offset = 560

abbrev pub threshold_enable_mask_offset : ℕ
threshold_enable_mask_offset = 768

abbrev pub trigger_enable_mask_offset : ℕ
trigger_enable_mask_offset = 772

abbrev pub self_trigger_enable_offset : ℕ
self_trigger_enable_offset = 776

abbrev pub build_info_offset : ℕ
build_info_offset = 2052

-- What the accesses of the bus do: the read of a register gives its word or an error, and a write
-- gives the code that it returns, 0 where it worked.
pub record Bus : Type 1 where
  pub State : Type 0
  pub double_read_addr : ℕ → ℕ → State → Option ℕ × State
  pub write_addr : ℕ → ℕ → ℕ → State → ℕ × State

-- `AXI_TRIGGER_PIPELINE`
pub record AxiTriggerPipeline : Type 0 where
  pub name : List ℕ
  pub axi_addr : ℕ

unfoldable pub new_trig_pipeline_if : List ℕ → ℕ → AxiTriggerPipeline
new_trig_pipeline_if name axi_addr = record { name = name; axi_addr = axi_addr }

-- `-1` as a `uint32_t`.
abbrev pub refused : ℕ
refused = 2 ^ 32 - 1

module _ (bus : Bus) (tp_axi : AxiTriggerPipeline) where
  unfoldable pub read_trig_pipeline_value : ℕ → bus.State → ℕ × bus.State
  read_trig_pipeline_value offset s =
      let (reply, s') = bus.double_read_addr tp_axi.axi_addr offset s in
      (elim reply [ none ↦ refused | some ret ↦ ret ], s')

  unfoldable pub write_trig_pipeline_value : ℕ → ℕ → bus.State → ℕ × bus.State
  write_trig_pipeline_value offset value s = bus.write_addr tp_axi.axi_addr offset value s
