-- ===== src/Commands/Fontus.antt =====
-- The commands of FONTUS in fakernet_code/fontus_if.c: the board's handle, which is made on first use.
pub mod Board
pub mod Settings
pub mod Gates
pub mod Masks
pub mod Table
use fpga_tools.Prelude.{ℕ, Option, none, some, []}
use fpga_tools.Trigger.{Bus, AxiTriggerPipeline, new_trig_pipeline_if}
use fpga_tools.Devices.{AxiDevice, Driver}
use fpga_tools.Devices.Qspi.{AxiQspi, SpiState, new_dac_spi}
use fpga_tools.Devices.Lmk.{new_lmk_spi}
use fpga_tools.Devices.Clocks.{new_reset_gen, new_gpio}

abbrev gpio0_axi_addr : ℕ
gpio0_axi_addr = 0x200000

abbrev pub reset_gen_axi_addr : ℕ
reset_gen_axi_addr = 0x300000

abbrev fontus_lmk_axi_addr : ℕ
fontus_lmk_axi_addr = 0x400000

abbrev dac_axi_addr : ℕ
dac_axi_addr = 0x500000

abbrev trigger_pipeline_addr : ℕ
trigger_pipeline_addr = 0x0

abbrev pub fontus_safe_read_address : ℕ
fontus_safe_read_address = trigger_pipeline_addr

abbrev pub reset_gen_pipeline_bit : ℕ
reset_gen_pipeline_bit = 0

abbrev pub reset_gen_axi_bit : ℕ
reset_gen_axi_bit = 1

abbrev pub reset_gen_aurora_bit : ℕ
reset_gen_aurora_bit = 2

abbrev pub reset_gen_fifo_bit : ℕ
reset_gen_fifo_bit = 3

abbrev pub coax_gpio_offset : ℕ
coax_gpio_offset = 0

abbrev pub sync_mod_gpio_offset : ℕ
sync_mod_gpio_offset = 1

abbrev pub aurora_status_gpio_offset : ℕ
aurora_status_gpio_offset = 1

abbrev pub aurora_lane_up_gpio_offset : ℕ
aurora_lane_up_gpio_offset = 2

abbrev pub update_input_and_dac_reg : ℕ
update_input_and_dac_reg = 0x3

-- `FONTUS_IF`; the names of the devices, which nothing reads, are left empty.
pub record FontusIf : Type 0 where
  pub lmk : AxiQspi
  pub dac : AxiQspi
  pub reset_gen : AxiDevice
  pub gpio : AxiDevice
  pub pipeline : AxiTriggerPipeline

unfoldable pub get_fontus_handle : Option FontusIf → FontusIf
unfolding new_lmk_spi new_dac_spi new_reset_gen new_gpio new_trig_pipeline_if
get_fontus_handle (some fontus) = fontus
get_fontus_handle none = record {
  lmk = new_lmk_spi [] fontus_lmk_axi_addr;
  dac = new_dac_spi [] dac_axi_addr;
  reset_gen = new_reset_gen [] reset_gen_axi_addr;
  gpio = new_gpio [] gpio0_axi_addr;
  pipeline = new_trig_pipeline_if [] trigger_pipeline_addr;
}

module _ (bus : Bus) where
  -- The handle, if there is one yet, and the bus.
  abbrev pub FontusState : Type 0
  FontusState = Option FontusIf × bus.State

  -- Programs on a device of the handle.
  unfoldable pub on_lmk : {A : Type 0} → Driver (SpiState bus) A → Driver FontusState A
  unfolding get_fontus_handle
  on_lmk m (handle, s) =
      let fontus = get_fontus_handle handle in
      let (a, (lmk, s')) = m (fontus.lmk, s) in (a, (some (record fontus { lmk = lmk }), s'))

  unfoldable pub on_dac : {A : Type 0} → Driver (SpiState bus) A → Driver FontusState A
  unfolding get_fontus_handle
  on_dac m (handle, s) =
      let fontus = get_fontus_handle handle in
      let (a, (dac, s')) = m (fontus.dac, s) in (a, (some (record fontus { dac = dac }), s'))

  unfoldable pub on_pipeline :
      {A : Type 0} → (AxiTriggerPipeline → Driver bus.State A) → Driver FontusState A
  unfolding get_fontus_handle
  on_pipeline m (handle, s) =
      let fontus = get_fontus_handle handle in
      let (a, s') = m fontus.pipeline s in (a, (some fontus, s'))

  unfoldable pub on_gpio : {A : Type 0} → (AxiDevice → Driver bus.State A) → Driver FontusState A
  unfolding get_fontus_handle
  on_gpio m (handle, s) =
      let fontus = get_fontus_handle handle in
      let (a, s') = m fontus.gpio s in (a, (some fontus, s'))

  unfoldable pub on_reset_gen :
      {A : Type 0} → (AxiDevice → Driver bus.State A) → Driver FontusState A
  unfolding get_fontus_handle
  on_reset_gen m (handle, s) =
      let fontus = get_fontus_handle handle in
      let (a, s') = m fontus.reset_gen s in (a, (some fontus, s'))
