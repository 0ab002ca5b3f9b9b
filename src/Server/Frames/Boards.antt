-- ===== src/Server/Frames/Boards.antt =====
-- The replies of a command on every active board, in fakernet_code/ceres_server.c.
use fpga_tools.Prelude.{
  ℕ, zero, suc, ◌+◌, ◌^◌, ◌≡◌, refl, ap, ◌∙◌, arith, Bool, true, false, Option, none, some, List,
  [], ◌∷◌, if◌then◌else◌, ◌==◌, bit_and,
}
use Prim.Native.String.{String}
use fpga_tools.Commands.{Args, Reply, array, ServerCommand}
use fpga_tools.Commands.Ceres.{CeresIf}
use fpga_tools.Server.{Fnet}
use fpga_tools.Server.Active.{num_xems, count_set_bits}
use fpga_tools.Server.Call.{Strings, call}
use fpga_tools.Server.Boards.{
  both, BoardState, XemFunc, of_client, of_boards, call_xems, call_on_boards, call_xem_function,
}
use fpga_tools.Server.Frames.{
  AreItems, are_items, fits, step, both-AreItems, SendsOneItem, FuncSendsOneItem,
  call_function-SendsOneItem,
}

counted :
    (b : Bool) (others : ℕ) → (if b then others else suc others) ≡ (if b then 0 else 1) + others
counted true others = omega arith
counted false others = omega arith

-- An array of what follows.
announced_items :
    (n : ℕ) (replies : Option (List Reply))
    → AreItems n replies
    → AreItems 1 (both (some (array n ∷ [])) replies)
unfolding AreItems both
announced_items n none items = refl
announced_items n (some replies) items = ground (arith, step 0 n (array n) replies refl)

module _ (strings : Strings) (fnet : Fnet) (dummy_mode : Bool) (clients : ℕ → Option ℕ)
    (memory : ℕ → Args) where
  on_a_board :
      (cmd : ServerCommand (BoardState fnet)) (argv : List String) (mask ixem : ℕ)
      (handle : Option CeresIf) (client : Option ℕ) (net : fnet.State)
      → FuncSendsOneItem cmd.nargs cmd.call
      → fits cmd.nargs argv ≡ true
      → AreItems (if bit_and mask (2 ^ ixem) == 0 then 0 else 1) (
          (if bit_and mask (2 ^ ixem) == 0
            then (some [], (handle, (client, net)))
            else call strings.strtoul (memory ixem) cmd argv (handle, (clients ixem, net))).0)
  unfolding AreItems SendsOneItem call
  on_a_board cmd argv mask ixem handle client net sends fit =
      let sent =
        call_function-SendsOneItem strings.strtoul (memory ixem) cmd.nargs cmd.nresp cmd.call sends
          argv (handle, (clients ixem, net)) fit in
      ground (arith, sent)

  -- As many items as there are active boards.
  call_xems-AreItems :
      (cmd : ServerCommand (BoardState fnet)) (argv : List String) (mask ixem n : ℕ)
      (s : BoardState fnet)
      → FuncSendsOneItem cmd.nargs cmd.call
      → fits cmd.nargs argv ≡ true
      → AreItems
          (count_set_bits mask ixem n)
          (call_xems strings fnet dummy_mode clients memory cmd argv mask ixem n s).0
  unfolding call_xems count_set_bits AreItems
  call_xems-AreItems cmd argv mask ixem zero s sends fit = refl
  call_xems-AreItems cmd argv mask ixem (suc n) (handle, (client, net)) sends fit =
      let clear = bit_and mask (2 ^ ixem) == 0 in
      let (replies, s') =
        if clear
        then (some [], (handle, (client, net)))
        else call strings.strtoul (memory ixem) cmd argv (handle, (clients ixem, net)) in
      let (rest, s'') =
        call_xems strings fnet dummy_mode clients memory cmd argv mask (suc ixem) n s' in
      let others = count_set_bits mask (suc ixem) n in
      ap (λ t. are_items t (both replies rest)) (counted clear others)
      ∙ both-AreItems (if clear then 0 else 1) others replies rest
          (on_a_board cmd argv mask ixem handle client net sends fit)
          (call_xems-AreItems cmd argv mask (suc ixem) n s' sends fit)

  -- What `ceres_call` needs of an entry.
  unfoldable pub XemFuncSendsOneItem : ℕ → XemFunc (BoardState fnet) → Type 0
  unfolding FuncSendsOneItem
  XemFuncSendsOneItem nargs (of_client f) = SendsOneItem nargs f
  XemFuncSendsOneItem nargs (of_boards cmd) =
      (cmd.nargs ≡ nargs) × FuncSendsOneItem cmd.nargs cmd.call

  call_on_boards-SendsOneItem :
      (cmd : ServerCommand (BoardState fnet))
      → FuncSendsOneItem cmd.nargs cmd.call
      → SendsOneItem cmd.nargs (call_on_boards strings fnet dummy_mode clients memory cmd)
  unfolding SendsOneItem call_on_boards AreItems
  call_on_boards-SendsOneItem cmd sends argv (none, s) fit = refl
  call_on_boards-SendsOneItem cmd sends argv (some mask, s) fit =
      announced_items (count_set_bits mask 0 num_xems)
        (call_xems strings fnet dummy_mode clients memory cmd argv mask 0 num_xems s).0
        (call_xems-AreItems cmd argv mask 0 num_xems s sends fit)

  pub call_xem_function-SendsOneItem :
      (nargs : ℕ) (f : XemFunc (BoardState fnet))
      → XemFuncSendsOneItem nargs f
      → SendsOneItem nargs (call_xem_function strings fnet dummy_mode clients memory f)
  unfolding XemFuncSendsOneItem call_xem_function SendsOneItem
  call_xem_function-SendsOneItem nargs (of_client f) sends argv (server_data, s) fit =
      sends argv server_data fit
  call_xem_function-SendsOneItem nargs (of_boards cmd) (same, sends) argv s fit =
      call_on_boards-SendsOneItem cmd sends argv s (ap (λ n. fits n argv) same ∙ fit)
