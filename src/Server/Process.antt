-- ===== src/Server/Process.antt =====
-- The look-up of a command by its name, in fakernet_code/server.c, and the whole of `ceres_server`. A message
-- is without the words and numbers that it shows.
use fpga_tools.Prelude.{
  ℕ, ◌-◌, Bool, ◌&&◌, not, Option, none, some, List, [], ◌∷◌, map, if◌then◌else◌, ltb, ◌==◌,
}
use Prim.Native.String.{String}
use fpga_tools.Server.{Fnet, server_bus}
use fpga_tools.Commands.Ceres.{ceres_safe_read_address}
use fpga_tools.Commands.Ceres.Table.{ceres_commands}
use fpga_tools.Commands.{Args, status, error, array, characters, undefined, CliFunc}
use fpga_tools.Server.Active.{length}
use fpga_tools.Server.Call.{Strings}
use fpga_tools.Server.Boards.{BoardState, XemCommand, combine_command_tables, ceres_call}

-- An entry of a table of commands, with the server's call of it.
pub record Served (S : Type 0) : Type 0 where
  pub name : String
  pub nargs : ℕ
  pub run : CliFunc S

module _ (strings : Strings) {S : Type 0} where
  open strings use {strcasecmp}

  unfoldable pub find_command : String → List (Served S) → Option (Served S)
  find_command name [] = none
  find_command name (cmd ∷ rest) =
      let later = find_command name rest in if strcasecmp name cmd.name then some cmd else later

-- What is done with a command that was looked up. No entry has a negative number of arguments.
unfoldable pub run_command : {S : Type 0} → Option (Served S) → CliFunc S
unfolding length
run_command none argv s = (some (error "unknown command" ∷ []), s)
run_command (some cmd) argv s =
    if ltb 0 cmd.nargs && not (cmd.nargs == length argv)
    then (some (error "wrong number of arguments" ∷ []), s)
    else cmd.run argv s

module _ (strings : Strings) {S : Type 0} (server_command_table : List (Served S)) where
  open strings use {strcasecmp}

  unfoldable pub send_command_table : CliFunc S
  unfolding length
  send_command_table argv s = (
    some (
        array (length server_command_table)
        ∷ map (λ cmd. status cmd.name (cmd.nargs - 1)) server_command_table),
    s,
  )

  unfoldable pub lookup_command : String → Option (Served S)
  unfolding send_command_table find_command
  lookup_command name =
      if strcasecmp name "send_command_table"
      then some (record { name = "send_command_table"; nargs = 1; run = send_command_table })
      else find_command strings name server_command_table

  -- There is a first word.
  unfoldable pub process_command : CliFunc S
  unfolding lookup_command run_command
  process_command [] s = (some (undefined ∷ []), s)
  process_command (name ∷ words) s =
      if strcasecmp name "quit"
      then (some (characters "+OK" ∷ []), s)
      else run_command (lookup_command name) (name ∷ words) s

abbrev pub CeresServerState : Fnet → Type 0
CeresServerState fnet = Option ℕ × BoardState fnet

module _ (strings : Strings) (fnet : Fnet) (dummy_mode : Bool) (clients : ℕ → Option ℕ)
    (memory : ℕ → Args) where
  -- An entry of the table, with `ceres_call`.
  abbrev pub served : XemCommand (BoardState fnet) → Served (CeresServerState fnet)
  served cmd = record {
    name = cmd.name;
    nargs = cmd.nargs;
    run = ceres_call strings fnet dummy_mode clients memory cmd;
  }

  -- The table of `ceres_server`, and its answer to a client.
  unfoldable pub ceres_server_table : ℕ → List (Served (CeresServerState fnet))
  unfolding combine_command_tables ceres_call
  ceres_server_table fuel = map served (
      combine_command_tables strings fnet dummy_mode clients ceres_safe_read_address
        (ceres_commands (server_bus fnet dummy_mode ceres_safe_read_address) fuel))

  unfoldable pub ceres_server : ℕ → CliFunc (CeresServerState fnet)
  unfolding process_command ceres_server_table
  ceres_server fuel = process_command strings (ceres_server_table fuel)
