-- ===== src/Server.antt =====
-- The servers of the boards: fakernet_code/ceres_server.c for up to eight CERES boards, and
-- kintex_client_server.c for one board. Here: how ceres_server.c reads and writes a register of the board
-- that is active. The library that sends the requests is a parameter, since fnet_client.c is a copy.
pub mod Latency
pub mod Kintex
pub mod Active
pub mod Call
pub mod Boards
pub mod Process
pub mod Single
pub mod Frames
pub mod Memory
use fpga_tools.Prelude.{
  ℕ, ◌+◌, ◌==◌, Bool, Option, none, some, if◌then◌else◌, u32, swap32, bit_and, bit_or,
}
use fpga_tools.Trigger.{Bus}
use fpga_tools.Devices.{Driver, minus_one}

-- `fnet_ctrl_send_recv_regacc` with one item, on a client, `none` if the pointer is null. The words are as
-- they are sent. It returns a number, where `none` is a negative one, and the data received.
pub record Fnet : Type 1 where
  pub State : Type 0
  pub send_recv_regacc : Option ℕ → ℕ → ℕ → State → (Option ℕ × ℕ) × State

-- The client of the board that is active, and the network.
abbrev pub FnetState : Fnet → Type 0
FnetState fnet = Option ℕ × fnet.State

abbrev pub fakernet_reg_access_addr_write : ℕ
fakernet_reg_access_addr_write = 0x80000000

abbrev pub fakernet_reg_access_addr_read : ℕ
fakernet_reg_access_addr_read = 0x20000000

abbrev pub address_mask : ℕ
address_mask = 0x3FFFFFF

-- The request for one item, on the active client.
unfoldable pub request : (fnet : Fnet) → ℕ → ℕ → ℕ → Driver (FnetState fnet) (Option ℕ × ℕ)
request fnet direction addr word (client, s) =
    let (answer, s') =
      fnet.send_recv_regacc client (swap32 (bit_or direction (bit_and (u32 addr) address_mask)))
        (swap32 word) s in
    (answer, (client, s'))

module _ (fnet : Fnet) (dummy_mode : Bool) where
  unfoldable pub read_addr : ℕ → ℕ → Driver (FnetState fnet) (Option ℕ)
  unfolding request
  read_addr base addr s =
      let ((ret, word), s') = request fnet fakernet_reg_access_addr_read (base + addr) 0 s in
      if dummy_mode then (some 0xDEADBEEF, s) else (
        elim ret [ none ↦ none | some items ↦ if items == 0 then none else some (swap32 word) ],
        s',
      )

  -- The second read is from the register that is safe to read.
  unfoldable pub double_read_addr : ℕ → ℕ → ℕ → Driver (FnetState fnet) (Option ℕ)
  unfolding read_addr
  double_read_addr safe_read_address base addr s =
      let (first, s') = read_addr base addr s in
      let second = read_addr safe_read_address 0 s' in
      elim first [ none ↦ (none, s') | some result ↦ second ]

  -- Of the numbers returned only 0 is a failure.
  unfoldable pub write_addr : ℕ → ℕ → ℕ → Driver (FnetState fnet) ℕ
  unfolding request
  write_addr base addr word s =
      let ((ret, received), s') =
        request fnet fakernet_reg_access_addr_write (addr + base) word s in
      if dummy_mode
      then (0, s)
      else (elim ret [ none ↦ 0 | some items ↦ if items == 0 then minus_one else 0 ], s')

  -- The bus of the drivers.
  abbrev pub server_bus : ℕ → Bus
  server_bus safe_read_address = record {
    State = FnetState fnet;
    double_read_addr = double_read_addr safe_read_address;
    write_addr = write_addr;
  }
