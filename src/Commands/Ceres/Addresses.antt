-- ===== src/Commands/Ceres/Addresses.antt =====
-- The addresses and bits of fakernet_code/ceres_if.c.
use fpga_tools.Prelude.{ℕ}

abbrev pub adc_a_axi_addr : ℕ
adc_a_axi_addr = 0x100100

abbrev pub adc_b_axi_addr : ℕ
adc_b_axi_addr = 0x100200

abbrev pub adc_c_axi_addr : ℕ
adc_c_axi_addr = 0x100400

abbrev pub adc_d_axi_addr : ℕ
adc_d_axi_addr = 0x100500

abbrev pub gpio_axi_addr : ℕ
gpio_axi_addr = 0x400000

abbrev pub ceres_safe_read_address : ℕ
ceres_safe_read_address = gpio_axi_addr

abbrev pub gpio_hermes_power_offset : ℕ
gpio_hermes_power_offset = 0

abbrev pub gpio_adc_reset_offset : ℕ
gpio_adc_reset_offset = 1

abbrev pub gpio_adc_pdn_offset : ℕ
gpio_adc_pdn_offset = 2

abbrev pub gpio_watchdog_offset : ℕ
gpio_watchdog_offset = 4

abbrev pub gpio_sma_switch_offset : ℕ
gpio_sma_switch_offset = 5

abbrev pub gpio_hermes_sync_switch_offset : ℕ
gpio_hermes_sync_switch_offset = 6

abbrev pub gpio_aurora_status_offset : ℕ
gpio_aurora_status_offset = 1

abbrev pub lmk_a_axi_addr : ℕ
lmk_a_axi_addr = 0x100000

abbrev pub lmk_b_axi_addr : ℕ
lmk_b_axi_addr = 0x100300

abbrev pub ceres_lmk_axi_addr : ℕ
ceres_lmk_axi_addr = 0x100600

abbrev pub reset_gen_axi_addr : ℕ
reset_gen_axi_addr = 0x500000

abbrev pub iic_axi_addr : ℕ
iic_axi_addr = 0x300000

abbrev pub jesd_a_axi_addr : ℕ
jesd_a_axi_addr = 0x204000

abbrev pub jesd_b_axi_addr : ℕ
jesd_b_axi_addr = 0x205000

abbrev pub jesd_c_axi_addr : ℕ
jesd_c_axi_addr = 0x206000

abbrev pub jesd_d_axi_addr : ℕ
jesd_d_axi_addr = 0x207000

abbrev pub jesd_phy_a_axi_addr : ℕ
jesd_phy_a_axi_addr = 0x200000

abbrev pub jesd_phy_b_axi_addr : ℕ
jesd_phy_b_axi_addr = 0x201000

abbrev pub jesd_phy_c_axi_addr : ℕ
jesd_phy_c_axi_addr = 0x202000

abbrev pub jesd_phy_d_axi_addr : ℕ
jesd_phy_d_axi_addr = 0x203000

abbrev pub data_pipeline_0_addr : ℕ
data_pipeline_0_addr = 0x0

abbrev pub clock_wizard_addr : ℕ
clock_wizard_addr = 0x600000

abbrev pub reset_gen_jesd_bit : ℕ
reset_gen_jesd_bit = 0

abbrev pub reset_gen_pipeline_bit : ℕ
reset_gen_pipeline_bit = 1

abbrev pub reset_gen_axi_bit : ℕ
reset_gen_axi_bit = 2

abbrev pub reset_gen_aurora_bit : ℕ
reset_gen_aurora_bit = 3

abbrev pub reset_gen_fnet_bit : ℕ
reset_gen_fnet_bit = 4

abbrev pub reset_gen_fifo_bit : ℕ
reset_gen_fifo_bit = 5
