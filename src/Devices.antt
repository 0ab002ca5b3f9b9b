-- ===== src/Devices.antt =====
-- The drivers of the devices behind the bus, in fakernet_code: registers that are read and written. The
-- bus is a parameter: `double_read_addr` and `write_addr` are accesses to hardware. Waiting and printing
-- are left out.
pub mod Trace
pub mod Pipeline
pub mod Jesd
pub mod JesdPhy
pub mod Clocks
pub mod Qspi
pub mod Lmk
pub mod Iic
use fpga_tools.Prelude.{
  ℕ, zero, suc, ◌-◌, ◌^◌, Option, none, some, List, [], ◌∷◌, ◌==◌, if◌then◌else◌,
}
use fpga_tools.Trigger.{Bus}

-- A device is a name and an address: `AXI_DATA_PIPELINE`, `AXI_JESD`, `AXI_JESD_PHY`, `AXI_GPIO`,
-- `AXI_RESET_GEN` and `AXI_CLOCK_WIZ`.
pub record AxiDevice : Type 0 where
  pub name : List ℕ
  pub axi_addr : ℕ

-- `-1` as a `uint32_t`.
abbrev pub minus_one : ℕ
minus_one = 2 ^ 32 - 1

-- A program that uses the bus, over the bus's states.
abbrev pub Driver : Type 0 → Type 0 → Type 0
Driver S A = S → A × S

module _ {S : Type 0} where
  infixl 5 ◌>>=◌ ◌>>◌
  abbrev pub ◌>>=◌ : {A B : Type 0} → Driver S A → (A → Driver S B) → Driver S B
  ◌>>=◌ m f s = let (a, s') = m s in f a s'

  abbrev pub ◌>>◌ : {A B : Type 0} → Driver S A → Driver S B → Driver S B
  m >> k = m >>= λ _. k

  abbrev pub pure : {A : Type 0} → A → Driver S A
  pure a s = (a, s)

  -- `if(m) { return error; }`, and what follows it.
  unfoldable pub or_fail : {A : Type 0} → A → Driver S ℕ → Driver S A → Driver S A
  or_fail error m next s =
      let (code, s') = m s in let rest = next s' in if code == 0 then rest else (error, s')

module _ (bus : Bus) (axi_addr : ℕ) where
  -- The read of a register that every driver has.
  unfoldable pub read_register : ℕ → Driver bus.State ℕ
  read_register offset s =
      let (reply, s') = bus.double_read_addr axi_addr offset s in
      (elim reply [ none ↦ minus_one | some ret ↦ ret ], s')

  unfoldable pub write_register : ℕ → ℕ → Driver bus.State ℕ
  write_register offset value s = bus.write_addr axi_addr offset value s
