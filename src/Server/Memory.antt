-- ===== src/Server/Memory.antt =====
-- Memory that `ceres_server` allocates for the arguments of a handler and does not set, in
-- fakernet_code/ceres_server.c.
use fpga_tools.Prelude.{
  ℕ, zero, suc, ◌-◌, ◌^◌, ◌≤◌, ◌≡◌, refl, sym, ap, ◌∙◌, arith, Bool, true, Option, none, some, List,
  [], ◌∷◌, map, if◌then◌else◌, ltb, ◌==◌, bit_and,
}
use mathlib.Core.Path.{ap₂, fun_ext}
use Prim.Native.String.{String}
use fpga_tools.Commands.{
  Args, Answer, Reply, array, undefined, Func, func, legacy_func, ServerCommand, CliFunc, All,
  ReadsArgs, first_args,
}
use fpga_tools.Commands.Ceres.{ceres_safe_read_address}
use fpga_tools.Commands.Ceres.Table.{ceres_commands}
use fpga_tools.Commands.Ceres.Table.Bounds.{ceres_commands-ReadsArgs}
use fpga_tools.Commands.Ceres.Table.Answers.{
  length, fills, FuncFillsResp, FillsResp, ceres_commands-FillsResp,
}
use fpga_tools.Server.{Fnet, server_bus}
use fpga_tools.Server.Active as Active
use fpga_tools.Server.Active.{
  num_xems, count_set_bits, set_active_xem_mask_command, get_active_xem_mask_command,
  get_available_xems_command,
}
use fpga_tools.Server.Call.{
  Strings, integers, stored_at, legacy_reply, args_uint, call_function, call, write_addr_command,
  read_addr_command, sleep_command,
}
use fpga_tools.Server.Boards.{
  BoardState, of_client, for_boards, both, call_xems, call_on_boards, ceres_call,
  combine_command_tables, default_commands,
}
use fpga_tools.Server.Process.{
  Served, served, CeresServerState, ceres_server_table, ceres_server, process_command,
}

-- What is sent of the values that a handler stored.
integers_stored :
    (n : ℕ) (stores : List ℕ) (args args' : Args)
    → n ≤ length stores
    → integers (stored_at stores args) n ≡ integers (stored_at stores args') n
unfolding integers stored_at length
integers_stored zero stores args args' enough = refl
integers_stored (suc n) [] args args' enough = absurd (omega arith)
integers_stored (suc n) (value ∷ rest) args args' enough =
    ap (λ t. Reply.integer value ∷ t)
      (integers_stored n rest (λ j. args (suc j)) (λ j. args' (suc j)) (omega arith))

-- The replies for an answer, whatever the memory.
reply_ignores :
    (nresp : ℕ) (args args' : Args) (answer : Answer)
    → fills nresp answer ≡ true
    → (elim answer as (λ x. Option (List Reply)) [
      | none ↦ none
      | some (resp, stores) ↦ some (legacy_reply nresp resp (stored_at stores args))
    ])
      ≡ (elim answer as (λ x. Option (List Reply)) [
        | none ↦ none
        | some (resp, stores) ↦ some (legacy_reply nresp resp (stored_at stores args'))
      ])
unfolding fills legacy_reply
reply_ignores nresp args args' none filled = refl
reply_ignores nresp args args' (some (resp, stores)) filled =
    ground (arith, integers_stored nresp stores args args')

module _ (strtoul : String → ℕ) (memory memory' : Args) where
  same_first :
      (nargs : ℕ) (argv : List String)
      → first_args (nargs - 1) (args_uint strtoul nargs argv memory)
        ≡ first_args (nargs - 1) (args_uint strtoul nargs argv memory')
  unfolding args_uint
  same_first nargs argv = fun_ext (λ i. ground arith)

  call_function_ignores :
      {S : Type 0} (name : String) (nargs nresp : ℕ) (f : Func S) (argv : List String) (s : S)
      → ReadsArgs (record { name = name; call = f; nargs = nargs; nresp = nresp })
      → FuncFillsResp nresp f
      → call_function strtoul memory nargs nresp f argv s
        ≡ call_function strtoul memory' nargs nresp f argv s
  unfolding call_function FuncFillsResp
  call_function_ignores name nargs nresp (func f) argv s reads filled = refl
  call_function_ignores name nargs nresp (legacy_func f) argv s reads filled =
      let args = args_uint strtoul nargs argv memory in
      let args' = args_uint strtoul nargs argv memory' in
      let same = reads args s ∙ ap (λ a. f a s) (same_first nargs argv) ∙ sym (reads args' s) in
      ap
        (λ (r : Answer × _).
          if ltb (Active.length argv) nargs then (some (undefined ∷ []), s) else (
            elim (r.0) as (λ x. Option (List Reply)) [
              | none ↦ none
              | some (resp, stores) ↦ some (legacy_reply nresp resp (stored_at stores args))
            ],
            r.1,
          ))
        same
      ∙ ap
          (λ t.
            if ltb (Active.length argv) nargs
            then (some (undefined ∷ []), s)
            else (t, (f args' s).1))
          (reply_ignores nresp args args' (f args' s).0 (filled args' s))

-- An entry whose handler does not see the memory.
unfoldable pub FuncIgnores : {S : Type 0} → Func S → ℕ → ℕ → Type 0
unfolding FuncFillsResp
FuncIgnores f nargs nresp =
    ReadsArgs (record { name = ""; call = f; nargs = nargs; nresp = nresp }) × FuncFillsResp nresp f

module _ (strings : Strings) (fnet : Fnet) (dummy_mode : Bool) (clients : ℕ → Option ℕ)
    (memory memory' : ℕ → Args) where
  call_xems_ignores :
      (cmd : ServerCommand (BoardState fnet)) (argv : List String) (mask ixem n : ℕ)
      (s : BoardState fnet)
      → FuncIgnores cmd.call cmd.nargs cmd.nresp
      → call_xems strings fnet dummy_mode clients memory cmd argv mask ixem n s
        ≡ call_xems strings fnet dummy_mode clients memory' cmd argv mask ixem n s
  unfolding call_xems FuncIgnores call
  call_xems_ignores cmd argv mask ixem zero s ignores = refl
  call_xems_ignores cmd argv mask ixem (suc n) (handle, (client, net)) ignores =
      let here =
        ap
          (λ (t : Option (List Reply) × BoardState fnet).
            if bit_and mask (2 ^ ixem) == 0 then (some [], (handle, (client, net))) else t)
          (call_function_ignores strings.strtoul (memory ixem) (memory' ixem) "" cmd.nargs cmd.nresp
            cmd.call argv (handle, (clients ixem, net)) ignores.0 ignores.1) in
      let r =
        if bit_and mask (2 ^ ixem) == 0
        then (some [], (handle, (client, net)))
        else call strings.strtoul (memory' ixem) cmd argv (handle, (clients ixem, net)) in
      ap
        (λ (r : Option (List Reply) × BoardState fnet).
          let (rest, s'') =
            call_xems strings fnet dummy_mode clients memory cmd argv mask (suc ixem) n r.1 in
          (both r.0 rest, s''))
        here
      ∙ ap (λ (t : Option (List Reply) × BoardState fnet). (both r.0 t.0, t.1))
          (call_xems_ignores cmd argv mask (suc ixem) n r.1 ignores)

  call_on_boards_ignores :
      (cmd : ServerCommand (BoardState fnet)) (argv : List String) (s : CeresServerState fnet)
      → FuncIgnores cmd.call cmd.nargs cmd.nresp
      → call_on_boards strings fnet dummy_mode clients memory cmd argv s
        ≡ call_on_boards strings fnet dummy_mode clients memory' cmd argv s
  unfolding call_on_boards
  call_on_boards_ignores cmd argv (none, s) ignores = refl
  call_on_boards_ignores cmd argv (some mask, s) ignores =
      ap
        (λ (r : Option (List Reply) × BoardState fnet).
          let (replies, (handle, (client, net))) = r in
          (
            both (some (array (count_set_bits mask 0 num_xems) ∷ [])) replies,
            (some mask, (handle, (none, net))),
          ))
        (call_xems_ignores cmd argv mask 0 num_xems s ignores)

  -- An entry for the boards is the same with either memory.
  boards_served :
      (cmd : ServerCommand (BoardState fnet))
      → FuncIgnores cmd.call cmd.nargs cmd.nresp
      → served strings fnet dummy_mode clients memory (for_boards cmd)
        ≡ served strings fnet dummy_mode clients memory' (for_boards cmd)
  unfolding ceres_call
  boards_served cmd ignores =
      ap
        (λ (run : CliFunc (CeresServerState fnet)). record {
          name = cmd.name;
          nargs = cmd.nargs;
          run = run;
        })
        (fun_ext (λ argv. fun_ext (λ s. call_on_boards_ignores cmd argv s ignores)))

  client_served :
      (name : String) (nargs : ℕ) (f : CliFunc (Option ℕ))
      → served strings fnet dummy_mode clients memory
          (record { name = name; nargs = nargs; call = of_client f })
        ≡ served strings fnet dummy_mode clients memory'
            (record { name = name; nargs = nargs; call = of_client f })
  unfolding ceres_call
  client_served name nargs f = refl

  table_served :
      (cmds : List (ServerCommand (BoardState fnet)))
      → All ReadsArgs cmds
      → All FillsResp cmds
      → map (served strings fnet dummy_mode clients memory) (map for_boards cmds)
        ≡ map (served strings fnet dummy_mode clients memory') (map for_boards cmds)
  unfolding FuncIgnores
  table_served [] reads filled = refl
  table_served (cmd ∷ rest) (read, reads) (fill, filled) =
      ap₂ (λ (x : Served (CeresServerState fnet)) xs. x ∷ xs) (boards_served cmd (read, fill))
        (table_served rest reads filled)

  function_served :
      (name : String) (nargs nresp : ℕ) (f : CliFunc (BoardState fnet))
      → let cmd : ServerCommand (BoardState fnet) = record {
        name = name;
        call = func f;
        nargs = nargs;
        nresp = nresp;
      } in
        served strings fnet dummy_mode clients memory (for_boards cmd)
        ≡ served strings fnet dummy_mode clients memory' (for_boards cmd)
  unfolding FuncIgnores
  function_served name nargs nresp f =
      boards_served (record { name = name; call = func f; nargs = nargs; nresp = nresp }) (tt, tt)

  -- A longer table, entry by entry.
  infixr 20 ◌then_served◌
  ◌then_served◌ :
      {x y : Served (CeresServerState fnet)} {xs ys : List (Served (CeresServerState fnet))}
      → x ≡ y
      → xs ≡ ys
      → (x ∷ xs) ≡ (y ∷ ys)
  e then_served es = ap₂ (λ (x : Served (CeresServerState fnet)) xs. x ∷ xs) e es

  ceres_server_table_ignores :
      (fuel : ℕ)
      → ceres_server_table strings fnet dummy_mode clients memory fuel
        ≡ ceres_server_table strings fnet dummy_mode clients memory' fuel
  unfolding ceres_server_table combine_command_tables default_commands
  ceres_server_table_ignores fuel =
      let bus = server_bus fnet dummy_mode ceres_safe_read_address in
      function_served "write_addr" 3 1 (write_addr_command strings bus)
      then_served function_served "read_addr" 2 1 (read_addr_command strings bus)
      then_served client_served "set_active_xem_mask" 2
          (set_active_xem_mask_command dummy_mode clients strings.strtoul)
      then_served client_served "get_active_xem_mask" 1
          (get_active_xem_mask_command dummy_mode clients)
      then_served client_served "get_available_xems" 1
          (get_available_xems_command dummy_mode clients)
      then_served function_served "sleep" 2 1 (sleep_command strings bus)
      then_served table_served (ceres_commands bus fuel) (ceres_commands-ReadsArgs bus fuel)
          (ceres_commands-FillsResp bus fuel)

  -- What ceres_server sends, and what it leaves in the state, does not depend on the memory that
  -- it allocates for the arguments of handlers and does not set: it is the same for any two
  -- contents of that memory, for all words of a client, all states and all behaviours of the
  -- network.
  pub ceres_server_ignores :
      (fuel : ℕ) (argv : List String) (s : CeresServerState fnet)
      → ceres_server strings fnet dummy_mode clients memory fuel argv s
        ≡ ceres_server strings fnet dummy_mode clients memory' fuel argv s
  unfolding ceres_server
  ceres_server_ignores fuel argv s =
      ap (λ table. process_command strings table argv s) (ceres_server_table_ignores fuel)
