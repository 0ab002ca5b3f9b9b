-- ===== src/Devices/Trace.antt =====
-- Sequences of register writes, against which the transactions of the drivers are stated.
use fpga_tools.Prelude.{ℕ, ◌≡◌, refl, List, [], ◌∷◌, ◌++◌, ◌==◌, arith, false}
use fpga_tools.Trigger.{Bus}
use fpga_tools.Devices.{Driver, or_fail, write_register}

-- The state of the bus after writes, each an offset and a value.
unfoldable pub write_all : (bus : Bus) → ℕ → List (ℕ × ℕ) → bus.State → bus.State
write_all bus axi_addr [] s = s
write_all bus axi_addr ((offset, value) ∷ writes) s =
    write_all bus axi_addr writes (bus.write_addr axi_addr offset value s).1

pub write_all-append :
    (bus : Bus) (axi_addr : ℕ) (xs ys : List (ℕ × ℕ)) (s : bus.State)
    → write_all bus axi_addr (xs ++ ys) s ≡ write_all bus axi_addr ys (write_all bus axi_addr xs s)
unfolding write_all
write_all-append bus axi_addr [] ys s = refl
write_all-append bus axi_addr ((offset, value) ∷ xs) ys s =
    write_all-append bus axi_addr xs ys (bus.write_addr axi_addr offset value s).1

-- Every write on the bus works.
abbrev pub Accepts : Bus → Type 0
Accepts bus = (base o d : ℕ) (s : bus.State) → (bus.write_addr base o d s).0 ≡ 0

-- A write that works goes on.
pub or_fail_accepted :
    (bus : Bus) (axi_addr error offset value : ℕ) (next : Driver bus.State ℕ) (s : bus.State)
    → Accepts bus
    → or_fail error (write_register bus axi_addr offset value) next s
      ≡ next (bus.write_addr axi_addr offset value s).1
unfolding or_fail write_register
or_fail_accepted bus axi_addr error offset value next s accepts =
    ground (arith, accepts axi_addr offset value s)

-- A write that fails ends the transaction.
pub or_fail_failed :
    (bus : Bus) (axi_addr error offset value code : ℕ) (next : Driver bus.State ℕ) (s : bus.State)
    → (bus.write_addr axi_addr offset value s).0 ≡ code
    → (code == 0) ≡ false
    → or_fail error (write_register bus axi_addr offset value) next s
      ≡ (error, (bus.write_addr axi_addr offset value s).1)
unfolding or_fail write_register
or_fail_failed bus axi_addr error offset value code next s fails nonzero = ground arith
