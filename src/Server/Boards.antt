-- ===== src/Server/Boards.antt =====
-- fakernet_code/ceres_server.c: the call of a command on every active board.
use fpga_tools.Prelude.{
  ℕ, zero, suc, ◌^◌, Bool, Option, none, some, List, [], ◌∷◌, ◌++◌, map, if◌then◌else◌, ◌==◌,
  bit_and,
}
use Prim.Native.String.{String}
use fpga_tools.Server.{Fnet, FnetState, server_bus}
use fpga_tools.Commands.Ceres.{CeresIf}
use fpga_tools.Devices.{Driver}
use fpga_tools.Commands.{Args, Reply, error, array, CliFunc, func, ServerCommand}
use fpga_tools.Server.Active.{
  num_xems, count_set_bits, set_active_xem_mask_command, get_active_xem_mask_command,
  get_available_xems_command,
}
use fpga_tools.Server.Call.{Strings, call, write_addr_command, read_addr_command, sleep_command}

-- A command of `ceres_server`: one that `ceres_call` tells by its function and that is about the client
-- alone, or one for the active boards.
pub data XemFunc (S : Type 0) : Type 0 where
  of_client : CliFunc (Option ℕ) → XemFunc S
  of_boards : ServerCommand S → XemFunc S

pub record XemCommand (S : Type 0) : Type 0 where
  pub name : String
  pub nargs : ℕ
  pub call : XemFunc S

abbrev pub for_boards : {S : Type 0} → ServerCommand S → XemCommand S
for_boards cmd = record { name = cmd.name; nargs = cmd.nargs; call = of_boards cmd }

-- Replies one after the other; a handler that does not end has none.
unfoldable pub both : Option (List Reply) → Option (List Reply) → Option (List Reply)
both (some first) (some rest) = some (first ++ rest)
both (some first) none = none
both none rest = none

-- The handle of the boards, which they share, the active client and the network.
abbrev pub BoardState : Fnet → Type 0
BoardState fnet = Option CeresIf × FnetState fnet

abbrev client_command : {S : Type 0} → String → ℕ → CliFunc (Option ℕ) → XemCommand S
client_command name nargs f = record { name = name; nargs = nargs; call = of_client f }

abbrev board_command : {S : Type 0} → String → ℕ → ℕ → CliFunc S → XemCommand S
board_command name nargs nresp f =
    for_boards (record { name = name; call = func f; nargs = nargs; nresp = nresp })

module _ (strings : Strings) (fnet : Fnet) (dummy_mode : Bool) (clients : ℕ → Option ℕ) where
  open strings use {strtoul}

  unfoldable pub default_commands : ℕ → List (XemCommand (BoardState fnet))
  default_commands safe_read_address =
      let bus = server_bus fnet dummy_mode safe_read_address in
      board_command "write_addr" 3 1 (write_addr_command strings bus)
      ∷ board_command "read_addr" 2 1 (read_addr_command strings bus)
      ∷ client_command "set_active_xem_mask" 2
          (set_active_xem_mask_command dummy_mode clients strtoul)
      ∷ client_command "get_active_xem_mask" 1 (get_active_xem_mask_command dummy_mode clients)
      ∷ client_command "get_available_xems" 1 (get_available_xems_command dummy_mode clients)
      ∷ board_command "sleep" 2 1 (sleep_command strings bus)
      ∷ []

  unfoldable pub combine_command_tables :
      ℕ → List (ServerCommand (BoardState fnet)) → List (XemCommand (BoardState fnet))
  unfolding default_commands
  combine_command_tables safe_read_address board_specific =
      default_commands safe_read_address ++ map for_boards board_specific

  module _ (memory : ℕ → Args) where
    -- The command on each of `n` boards from board `ixem` on, if its place is set.
    unfoldable pub call_xems :
        ServerCommand (BoardState fnet)
        → List String
        → ℕ
        → ℕ
        → ℕ
        → Driver (BoardState fnet) (Option (List Reply))
    unfolding call both
    call_xems cmd argv mask ixem zero s = (some [], s)
    call_xems cmd argv mask ixem (suc n) (handle, (client, net)) =
        let (replies, s') =
          if bit_and mask (2 ^ ixem) == 0
          then (some [], (handle, (client, net)))
          else call strtoul (memory ixem) cmd argv (handle, (clients ixem, net)) in
        let (rest, s'') = call_xems cmd argv mask (suc ixem) n s' in (both replies rest, s'')

    unfoldable pub call_on_boards :
        ServerCommand (BoardState fnet) → CliFunc (Option ℕ × BoardState fnet)
    unfolding call_xems count_set_bits
    call_on_boards cmd argv (none, s) =
        (some (error "Cannot perform command until XEM ID is set" ∷ []), (none, s))
    call_on_boards cmd argv (some xem_mask, s) =
        let (replies, (handle, (client, net))) = call_xems cmd argv xem_mask 0 num_xems s in
        (
          both (some (array (count_set_bits xem_mask 0 num_xems) ∷ [])) replies,
          (some xem_mask, (handle, (none, net))),
        )

    unfoldable pub call_xem_function :
        XemFunc (BoardState fnet) → CliFunc (Option ℕ × BoardState fnet)
    unfolding call_on_boards
    call_xem_function (of_client f) argv (server_data, s) =
        let (replies, server_data') = f argv server_data in (replies, (server_data', s))
    call_xem_function (of_boards cmd) argv s = call_on_boards cmd argv s

    -- What is stored is at least 0, so that only a client without a mask is refused.
    unfoldable pub ceres_call : XemCommand (BoardState fnet) → CliFunc (Option ℕ × BoardState fnet)
    unfolding call_xem_function
    ceres_call cmd = call_xem_function cmd.call
