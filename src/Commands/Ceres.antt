-- ===== src/Commands/Ceres.antt =====
-- The commands of CERES in fakernet_code/ceres_if.c: the board's handle, which is made on first use, and
-- the choice of a chip. The pointer `clk_gen_iic`, which nothing sets or reads, is left out.
pub mod Chips
pub mod Links
pub mod Pipeline
pub mod Clocks
pub mod Table
pub mod Addresses
pub use Addresses.*
use fpga_tools.Prelude.{ℕ, ◌^◌, Option, none, some, [], ◌==◌, if◌then◌else◌}
use fpga_tools.Trigger.{Bus}
use fpga_tools.Devices.{AxiDevice, Driver, minus_one}
use fpga_tools.Devices.Qspi.{AxiQspi, SpiState, new_ads_spi}
use fpga_tools.Devices.Lmk.{new_lmk_spi}
use fpga_tools.Devices.Iic.{AxiIic, new_iic}
use fpga_tools.Devices.Jesd.{new_jesd}
use fpga_tools.Devices.JesdPhy.{new_jesd_phy}
use fpga_tools.Devices.Pipeline.{new_data_pipeline_if}
use fpga_tools.Devices.Clocks.{new_reset_gen, new_gpio, new_clock_wiz}

-- `CERES_IF`; the names of the devices, which nothing reads, are left empty.
pub record CeresIf : Type 0 where
  pub lmk_a : AxiQspi
  pub lmk_b : AxiQspi
  pub ceres_lmk : AxiQspi
  pub adc_a : AxiQspi
  pub adc_b : AxiQspi
  pub adc_c : AxiQspi
  pub adc_d : AxiQspi
  pub axi_gpio : AxiDevice
  pub reset_gen : AxiDevice
  pub jesd_a : AxiDevice
  pub jesd_b : AxiDevice
  pub jesd_c : AxiDevice
  pub jesd_d : AxiDevice
  pub jesd_phy_a : AxiDevice
  pub jesd_phy_b : AxiDevice
  pub jesd_phy_c : AxiDevice
  pub jesd_phy_d : AxiDevice
  pub pipeline : AxiDevice
  pub clk_wiz : AxiDevice
  pub iic_main : AxiIic

unfoldable get_ceres_handle : Option CeresIf → CeresIf
unfolding new_lmk_spi new_ads_spi new_reset_gen new_gpio new_iic new_jesd new_jesd_phy
    new_data_pipeline_if new_clock_wiz
get_ceres_handle (some ceres) = ceres
get_ceres_handle none = record {
  lmk_a = new_lmk_spi [] lmk_a_axi_addr;
  lmk_b = new_lmk_spi [] lmk_b_axi_addr;
  ceres_lmk = new_lmk_spi [] ceres_lmk_axi_addr;
  adc_a = new_ads_spi [] adc_a_axi_addr;
  adc_b = new_ads_spi [] adc_b_axi_addr;
  adc_c = new_ads_spi [] adc_c_axi_addr;
  adc_d = new_ads_spi [] adc_d_axi_addr;
  axi_gpio = new_gpio [] gpio_axi_addr;
  reset_gen = new_reset_gen [] reset_gen_axi_addr;
  iic_main = new_iic [] iic_axi_addr 1 1;
  jesd_a = new_jesd [] jesd_a_axi_addr;
  jesd_b = new_jesd [] jesd_b_axi_addr;
  jesd_c = new_jesd [] jesd_c_axi_addr;
  jesd_d = new_jesd [] jesd_d_axi_addr;
  jesd_phy_a = new_jesd_phy [] jesd_phy_a_axi_addr;
  jesd_phy_b = new_jesd_phy [] jesd_phy_b_axi_addr;
  jesd_phy_c = new_jesd_phy [] jesd_phy_c_axi_addr;
  jesd_phy_d = new_jesd_phy [] jesd_phy_d_axi_addr;
  pipeline = new_data_pipeline_if [] data_pipeline_0_addr;
  clk_wiz = new_clock_wiz [] clock_wizard_addr;
}

unfoldable adc_switch : ℕ → CeresIf → Option AxiQspi
adc_switch which ceres =
    if which == 0
    then some ceres.adc_a
    else if which == 1
    then some ceres.adc_b
    else if which == 2
    then some ceres.adc_c
    else if which == 3
    then some ceres.adc_d
    else none

unfoldable lmk_switch : ℕ → CeresIf → Option AxiQspi
lmk_switch which ceres =
    if which == 0
    then some ceres.lmk_a
    else if which == 1
    then some ceres.lmk_b
    else if which == 2
    then some ceres.ceres_lmk
    else none

unfoldable jesd_switch : ℕ → CeresIf → Option AxiDevice
jesd_switch which ceres =
    if which == 0
    then some ceres.jesd_a
    else if which == 1
    then some ceres.jesd_b
    else if which == 2
    then some ceres.jesd_c
    else if which == 3
    then some ceres.jesd_d
    else none

unfoldable jesd_phy_switch : ℕ → CeresIf → Option AxiDevice
jesd_phy_switch which ceres =
    if which == 0
    then some ceres.jesd_phy_a
    else if which == 1
    then some ceres.jesd_phy_b
    else if which == 2
    then some ceres.jesd_phy_c
    else if which == 3
    then some ceres.jesd_phy_d
    else none

-- The handle after a change behind the pointer that `adc_switch` gives.
unfoldable put_adc : ℕ → AxiQspi → CeresIf → CeresIf
put_adc which adc ceres =
    if which == 0
    then record ceres { adc_a = adc }
    else if which == 1
    then record ceres { adc_b = adc }
    else if which == 2
    then record ceres { adc_c = adc }
    else if which == 3
    then record ceres { adc_d = adc }
    else ceres

-- The handle after a change behind the pointer that `lmk_switch` gives.
unfoldable put_lmk : ℕ → AxiQspi → CeresIf → CeresIf
put_lmk which lmk ceres =
    if which == 0
    then record ceres { lmk_a = lmk }
    else if which == 1
    then record ceres { lmk_b = lmk }
    else if which == 2
    then record ceres { ceres_lmk = lmk }
    else ceres

module _ (bus : Bus) where
  -- The handle, if there is one yet, and the bus.
  abbrev pub CeresState : Type 0
  CeresState = Option CeresIf × bus.State

  -- Programs on a device of the handle; a number of no device is answered by an error.
  unfoldable pub on_adc : ℕ → Driver (SpiState bus) ℕ → Driver CeresState ℕ
  unfolding get_ceres_handle adc_switch put_adc
  on_adc which m (handle, s) =
      let ceres = get_ceres_handle handle in
      elim (adc_switch which ceres) [
        | none ↦ (minus_one, (some ceres, s))
        | some adc ↦ let (a, (adc', s')) = m (adc, s) in (a, (some (put_adc which adc' ceres), s'))
      ]

  unfoldable pub on_lmk : ℕ → Driver (SpiState bus) ℕ → Driver CeresState ℕ
  unfolding get_ceres_handle lmk_switch put_lmk
  on_lmk which m (handle, s) =
      let ceres = get_ceres_handle handle in
      elim (lmk_switch which ceres) [
        | none ↦ (minus_one, (some ceres, s))
        | some lmk ↦ let (a, (lmk', s')) = m (lmk, s) in (a, (some (put_lmk which lmk' ceres), s'))
      ]

  unfoldable pub on_jesd :
      {A : Type 0} → A → ℕ → (AxiDevice → Driver bus.State A) → Driver CeresState A
  unfolding get_ceres_handle jesd_switch
  on_jesd missing which m (handle, s) =
      let ceres = get_ceres_handle handle in
      elim (jesd_switch which ceres) [
        | none ↦ (missing, (some ceres, s))
        | some jesd ↦ let (a, s') = m jesd s in (a, (some ceres, s'))
      ]

  unfoldable pub on_jesd_phy :
      {A : Type 0} → A → ℕ → (AxiDevice → Driver bus.State A) → Driver CeresState A
  unfolding get_ceres_handle jesd_phy_switch
  on_jesd_phy missing which m (handle, s) =
      let ceres = get_ceres_handle handle in
      elim (jesd_phy_switch which ceres) [
        | none ↦ (missing, (some ceres, s))
        | some jesd_phy ↦ let (a, s') = m jesd_phy s in (a, (some ceres, s'))
      ]

  unfoldable pub on_axi_gpio : {A : Type 0} → (AxiDevice → Driver bus.State A) → Driver CeresState A
  unfolding get_ceres_handle
  on_axi_gpio m (handle, s) =
      let ceres = get_ceres_handle handle in
      let (a, s') = m ceres.axi_gpio s in (a, (some ceres, s'))

  unfoldable pub on_reset_gen :
      {A : Type 0} → (AxiDevice → Driver bus.State A) → Driver CeresState A
  unfolding get_ceres_handle
  on_reset_gen m (handle, s) =
      let ceres = get_ceres_handle handle in
      let (a, s') = m ceres.reset_gen s in (a, (some ceres, s'))

  unfoldable pub on_pipeline : {A : Type 0} → (AxiDevice → Driver bus.State A) → Driver CeresState A
  unfolding get_ceres_handle
  on_pipeline m (handle, s) =
      let ceres = get_ceres_handle handle in
      let (a, s') = m ceres.pipeline s in (a, (some ceres, s'))

  unfoldable pub on_clk_wiz : {A : Type 0} → (AxiDevice → Driver bus.State A) → Driver CeresState A
  unfolding get_ceres_handle
  on_clk_wiz m (handle, s) =
      let ceres = get_ceres_handle handle in
      let (a, s') = m ceres.clk_wiz s in (a, (some ceres, s'))

  unfoldable pub on_iic_main : {A : Type 0} → (AxiIic → Driver bus.State A) → Driver CeresState A
  unfolding get_ceres_handle
  on_iic_main m (handle, s) =
      let ceres = get_ceres_handle handle in
      let (a, s') = m ceres.iic_main s in (a, (some ceres, s'))
