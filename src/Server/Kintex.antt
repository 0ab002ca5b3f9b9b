-- ===== src/Server/Kintex.antt =====
-- fakernet_code/kintex_client_server.c: the accesses to the registers of its board. They differ from those
-- of ceres_server.c in what is a failure of a read.
use fpga_tools.Prelude.{ℕ, ◌+◌, ◌==◌, Bool, Option, none, some, if◌then◌else◌, swap32}
use fpga_tools.Trigger.{Bus}
use fpga_tools.Devices.{Driver}
use fpga_tools.Server.{Fnet, FnetState, request, fakernet_reg_access_addr_read, write_addr}

module _ (fnet : Fnet) (dummy_mode : Bool) where
  -- Of the numbers returned only 0 is a failure.
  unfoldable pub read_addr : ℕ → ℕ → Driver (FnetState fnet) (Option ℕ)
  unfolding request
  read_addr base addr s =
      let ((ret, word), s') = request fnet fakernet_reg_access_addr_read (base + addr) 0 s in
      if dummy_mode then (some 0xDEADBEEF, s) else (
        elim ret [
          | none ↦ some (swap32 word)
          | some items ↦ if items == 0 then none else some (swap32 word)
        ],
        s',
      )

  -- The result of the first read is not looked at.
  unfoldable pub double_read_addr : ℕ → ℕ → ℕ → Driver (FnetState fnet) (Option ℕ)
  unfolding read_addr
  double_read_addr safe_read_address base addr s =
      let (first, s') = read_addr base addr s in read_addr safe_read_address 0 s'

  -- The bus of the drivers.
  abbrev pub kintex_bus : ℕ → Bus
  kintex_bus safe_read_address = record {
    State = FnetState fnet;
    double_read_addr = double_read_addr safe_read_address;
    write_addr = write_addr fnet dummy_mode;
  }
