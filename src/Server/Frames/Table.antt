-- ===== src/Server/Frames/Table.antt =====
-- The replies of the whole of `ceres_server`.
use fpga_tools.Prelude.{
  ℕ, ◌-◌, ◌==◌, ltb, not, ◌&&◌, Bool-cases, inl, inr, ◌≡◌, refl, ap, ◌∙◌, arith, Bool, true, false,
  Option, none, some, List, [], ◌∷◌, map, if◌then◌else◌,
}
use Prim.Native.String.{String}
use fpga_tools.Commands.{
  Args, array, status, characters, CliFunc, Func, func, legacy_func, ServerCommand, All, ◌also◌,
}
use fpga_tools.Trigger.{Bus}
use fpga_tools.Server.{Fnet, server_bus}
use fpga_tools.Server.Active.{
  set_active_xem_mask_command, get_active_xem_mask_command, get_available_xems_command, length,
}
use fpga_tools.Server.Call.{Strings, write_addr_command, read_addr_command, sleep_command}
use fpga_tools.Server.Boards.{
  BoardState, XemFunc, of_client, of_boards, for_boards, combine_command_tables, default_commands,
  call_xem_function, ceres_call,
}
use fpga_tools.Server.Frames.{
  complete, AreItems, are_items, fits, step, SendsOneItem, FuncSendsOneItem,
}
use fpga_tools.Commands.Ceres.{CeresIf, ceres_safe_read_address}
use fpga_tools.Commands.Ceres.Table.{ceres_commands}
use fpga_tools.Server.Frames.Boards.{XemFuncSendsOneItem, call_xem_function-SendsOneItem}
use fpga_tools.Server.Frames.Commands.{
  write_addr_command-SendsOneItem, read_addr_command-SendsOneItem, sleep_command-SendsOneItem,
  set_active_xem_mask_command-SendsOneItem, get_active_xem_mask_command-SendsOneItem,
  get_available_xems_command-SendsOneItem,
}
use fpga_tools.Server.Process.{
  Served, send_command_table, find_command, lookup_command, process_command, run_command, served,
  CeresServerState, ceres_server_table, ceres_server,
}

module _ (strings : Strings) {S : Type 0} where
  -- The statuses of the table.
  statuses :
      (table : List (Served S))
      → complete (length table) (map (λ cmd. status cmd.name (cmd.nargs - 1)) table) ≡ true
  unfolding complete length
  statuses [] = refl
  statuses (cmd ∷ rest) =
      let entries = map (λ (cmd : Served S). status cmd.name (cmd.nargs - 1)) rest in
      step (length rest) 0 (status cmd.name (cmd.nargs - 1)) entries refl
      ∙ ap (λ t. complete t entries) (omega arith)
      ∙ statuses rest

  send_command_table-SendsOneItem :
      (table : List (Served S)) → SendsOneItem 1 (send_command_table strings table)
  unfolding SendsOneItem send_command_table
  send_command_table-SendsOneItem table argv s fit =
      let entries = map (λ (cmd : Served S). status cmd.name (cmd.nargs - 1)) table in
      step 0 (length table) (array (length table)) entries refl
      ∙ ap (λ t. complete t entries) (omega arith)
      ∙ statuses table

  -- A command that was looked up sends one item.
  unfoldable FoundSendsOneItem : Option (Served S) → Type 0
  unfolding SendsOneItem
  FoundSendsOneItem none = Unit {0}
  FoundSendsOneItem (some cmd) = SendsOneItem cmd.nargs cmd.run

  either :
      (b : Bool) (x y : Option (Served S))
      → FoundSendsOneItem x
      → FoundSendsOneItem y
      → FoundSendsOneItem (if b then x else y)
  either true x y first second = first
  either false x y first second = second

  find_command-FoundSendsOneItem :
      (name : String) (table : List (Served S))
      → All (λ cmd. SendsOneItem cmd.nargs cmd.run) table
      → FoundSendsOneItem (find_command strings name table)
  unfolding find_command FoundSendsOneItem
  find_command-FoundSendsOneItem name [] each = tt
  find_command-FoundSendsOneItem name (cmd ∷ rest) (first, others) =
      either (strings.strcasecmp name cmd.name) (some cmd) (find_command strings name rest) first
        (find_command-FoundSendsOneItem name rest others)

  lookup_command-FoundSendsOneItem :
      (name : String) (table : List (Served S))
      → All (λ cmd. SendsOneItem cmd.nargs cmd.run) table
      → FoundSendsOneItem (lookup_command strings table name)
  unfolding lookup_command FoundSendsOneItem
  lookup_command-FoundSendsOneItem name table each =
      either (strings.strcasecmp name "send_command_table")
        (some (record {
          name = "send_command_table";
          nargs = 1;
          run = send_command_table strings table;
        }))
        (find_command strings name table) (send_command_table-SendsOneItem table)
        (find_command-FoundSendsOneItem name table each)

  run_command-AreItems :
      (found : Option (Served S)) (argv : List String) (s : S)
      → FoundSendsOneItem found
      → AreItems 1 (run_command found argv s).0
  unfolding run_command FoundSendsOneItem SendsOneItem fits
  run_command-AreItems none argv s sends = refl
  run_command-AreItems (some cmd) argv s sends =
      elim (Bool-cases (ltb 0 cmd.nargs && not (cmd.nargs == length argv))) [
        | inl wrong ↦ rw wrong refl
        | inr right ↦ rw right (sends argv s (ap not right))
      ]

  pub process_command-AreItems :
      (name : String) (words : List String) (table : List (Served S)) (s : S)
      → All (λ cmd. SendsOneItem cmd.nargs cmd.run) table
      → strings.strcasecmp name "quit" ≡ false
      → AreItems 1 (process_command strings table (name ∷ words) s).0
  unfolding process_command SendsOneItem
  process_command-AreItems name words table s each goes_on =
      let sent =
        run_command-AreItems (lookup_command strings table name) (name ∷ words) s
          (lookup_command-FoundSendsOneItem name table each) in
      ap
        (λ (b : Bool).
          are_items 1
            (if b
              then (some (characters "+OK" ∷ []), s)
              else run_command (lookup_command strings table name) (name ∷ words) s).0)
        goes_on
      ∙ sent

unfoldable pub is_legacy : {S : Type 0} → Func S → Bool
is_legacy (func f) = false
is_legacy (legacy_func f) = true

pub legacy-FuncSendsOneItem :
    {S : Type 0} (nargs : ℕ) (f : Func S) → is_legacy f ≡ true → FuncSendsOneItem nargs f
unfolding is_legacy FuncSendsOneItem
legacy-FuncSendsOneItem nargs (func f) legacy = absurd (ground arith)
legacy-FuncSendsOneItem nargs (legacy_func f) legacy = tt

are_legacy : {S : Type 0} → List (ServerCommand S) → Bool
unfolding is_legacy
are_legacy [] = true
are_legacy (cmd ∷ rest) =
    let others = are_legacy rest in if is_legacy cmd.call then others else false

ceres_commands-are_legacy : (bus : Bus) (fuel : ℕ) → are_legacy (ceres_commands bus fuel) ≡ true
unfolding ceres_commands are_legacy
ceres_commands-are_legacy bus fuel = refl

module _ (strings : Strings) (fnet : Fnet) (dummy_mode : Bool) (clients : ℕ → Option ℕ)
    (memory : ℕ → Args) where
  OneItem : Served (CeresServerState fnet) → Type 0
  OneItem cmd = SendsOneItem cmd.nargs cmd.run

  sends_OneItem :
      (nargs : ℕ) (f : XemFunc (BoardState fnet))
      → XemFuncSendsOneItem strings fnet dummy_mode clients memory nargs f
      → SendsOneItem nargs (call_xem_function strings fnet dummy_mode clients memory f)
  sends_OneItem nargs f sends =
      call_xem_function-SendsOneItem strings fnet dummy_mode clients memory nargs f sends

  boards_OneItem :
      (cmds : List (ServerCommand (BoardState fnet)))
      → are_legacy cmds ≡ true
      → All OneItem (map (served strings fnet dummy_mode clients memory) (map for_boards cmds))
  unfolding are_legacy OneItem ceres_call FuncSendsOneItem XemFuncSendsOneItem
  boards_OneItem [] legacy = tt
  boards_OneItem (cmd ∷ rest) legacy = (
    sends_OneItem cmd.nargs (of_boards cmd)
        (refl, legacy-FuncSendsOneItem cmd.nargs cmd.call (ground arith)),
    boards_OneItem rest (ground arith),
  )

  ceres_server_table-OneItem :
      (fuel : ℕ) → All OneItem (ceres_server_table strings fnet dummy_mode clients memory fuel)
  unfolding ceres_server_table OneItem combine_command_tables default_commands ceres_call
      XemFuncSendsOneItem
  ceres_server_table-OneItem fuel =
      let bus = server_bus fnet dummy_mode ceres_safe_read_address in
      let of_entry =
        λ (name : String) (f : CliFunc (BoardState fnet)) (nargs : ℕ)
            (sends : SendsOneItem nargs f).
          sends_OneItem nargs
            (of_boards (record { name = name; call = func f; nargs = nargs; nresp = 1 }))
            (refl, sends) in
      of_entry "write_addr" (write_addr_command strings bus) 3
        (write_addr_command-SendsOneItem strings bus (Option CeresIf))
      also of_entry "read_addr" (read_addr_command strings bus) 2
          (read_addr_command-SendsOneItem strings bus (Option CeresIf))
      also sends_OneItem 2
          (of_client (set_active_xem_mask_command dummy_mode clients strings.strtoul))
          (set_active_xem_mask_command-SendsOneItem dummy_mode clients strings.strtoul)
      also sends_OneItem 1 (of_client (get_active_xem_mask_command dummy_mode clients))
          (get_active_xem_mask_command-SendsOneItem dummy_mode clients)
      also sends_OneItem 1 (of_client (get_available_xems_command dummy_mode clients))
          (get_available_xems_command-SendsOneItem dummy_mode clients)
      also of_entry "sleep" (sleep_command strings bus) 2
          (sleep_command-SendsOneItem strings bus (Option CeresIf))
      also boards_OneItem (ceres_commands bus fuel) (ceres_commands-are_legacy bus fuel)

  -- Whatever words a client sends, the first of which is not quit, and whatever the boards and the
  -- network do, what ceres_server sends back is exactly one complete item of the protocol, and
  -- never what a read of a missing word would give, unless a handler polls a register longer than
  -- the fuel: an array that announces n items is followed by n items, with one item for each
  -- active board.
  pub ceres_server-AreItems :
      (fuel : ℕ) (name : String) (words : List String) (s : CeresServerState fnet)
      → strings.strcasecmp name "quit" ≡ false
      → AreItems 1 (ceres_server strings fnet dummy_mode clients memory fuel (name ∷ words) s).0
  unfolding ceres_server OneItem
  ceres_server-AreItems fuel name words s goes_on =
      process_command-AreItems strings name words
        (ceres_server_table strings fnet dummy_mode clients memory fuel) s
        (ceres_server_table-OneItem fuel) goes_on
