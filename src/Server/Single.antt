-- ===== src/Server/Single.antt =====
-- fakernet_code/kintex_client_server.c: the commands of a server for one board.
use fpga_tools.Prelude.{ℕ, Bool, List, [], ◌∷◌, ◌++◌, Option, map}
use Prim.Native.String.{String}
use fpga_tools.Commands.{Args, func, ServerCommand, CliFunc}
use fpga_tools.Commands.Fontus.{FontusIf, fontus_safe_read_address}
use fpga_tools.Commands.Fontus.Table.{fontus_commands}
use fpga_tools.Commands.Ceres.{CeresIf, ceres_safe_read_address}
use fpga_tools.Commands.Ceres.Table.{ceres_commands}
use fpga_tools.Server.{Fnet, FnetState}
use fpga_tools.Server.Kintex.{kintex_bus}
use fpga_tools.Server.Call.{Strings, call, write_addr_command, read_addr_command, sleep_command}
use fpga_tools.Server.Process.{Served, process_command}

module _ (strings : Strings) (fnet : Fnet) (dummy_mode : Bool) (memory : Args) where
  unfoldable pub kintex_default_commands :
      (H : Type 0) → ℕ → List (ServerCommand (H × FnetState fnet))
  kintex_default_commands H safe_read_address =
      let bus = kintex_bus fnet dummy_mode safe_read_address in
      record {
        name = "write_addr";
        call = func (write_addr_command strings bus {H = H});
        nargs = 3;
        nresp = 1;
      }
      ∷ record {
        name = "read_addr";
        call = func (read_addr_command strings bus {H = H});
        nargs = 2;
        nresp = 1;
      }
      ∷ record {
        name = "sleep";
        call = func (sleep_command strings bus {H = H});
        nargs = 2;
        nresp = 1;
      }
      ∷ []

  -- An entry of the table, with `call`.
  abbrev pub called : {S : Type 0} → ServerCommand S → Served S
  called cmd = record { name = cmd.name; nargs = cmd.nargs; run = call strings.strtoul memory cmd }

  -- The server with the commands of FONTUS, and with those of CERES.
  unfoldable pub fontus_server : (String → String) → ℕ → CliFunc (Option FontusIf × FnetState fnet)
  unfolding kintex_default_commands process_command
  fontus_server sdstoupper of_infinity = process_command strings (
      map called (
        kintex_default_commands (Option FontusIf) fontus_safe_read_address
        ++ fontus_commands (kintex_bus fnet dummy_mode fontus_safe_read_address) (record {
          strtoul = strings.strtoul;
          sdstoupper = sdstoupper;
          of_infinity = of_infinity;
        })))

  unfoldable pub single_ceres_server : ℕ → CliFunc (Option CeresIf × FnetState fnet)
  unfolding kintex_default_commands process_command
  single_ceres_server fuel = process_command strings (
      map called (
        kintex_default_commands (Option CeresIf) ceres_safe_read_address
        ++ ceres_commands (kintex_bus fnet dummy_mode ceres_safe_read_address) fuel))
