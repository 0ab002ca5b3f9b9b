-- ===== src/Server/Frames/Single.antt =====
-- The replies of the servers for one board.
use fpga_tools.Prelude.{
  ℕ, zero, suc, ◌≡◌, refl, Bool, true, false, arith, drop, if◌then◌else◌, List, [], ◌∷◌, ◌++◌,
  Option, map, ◌⊎◌, inl, inr, u32, bit_or, bit_and, ◌-◌, ◌^◌,
}
use fpga_tools.Trigger.Control.{
  read_trigger_mask, write_trigger_mask, read_trigger_veto_mask, write_trigger_veto_mask,
}
use Prim.Native.String.{String}
use fpga_tools.Trigger.{Bus, AxiTriggerPipeline}
use fpga_tools.Devices.{Driver}
use fpga_tools.Commands.{All, ◌also◌, Args, ServerCommand, Texts}
use fpga_tools.Commands.Fontus.{FontusIf, FontusState, fontus_safe_read_address}
use fpga_tools.Commands.Fontus.Masks.{
  get_bit_for_trigger_specifier, change_mask, change_found, add_to_trigger_mask_hr_command,
  add_to_veto_mask_hr_command, remove_from_trigger_mask_hr_command,
  remove_from_veto_mask_hr_command,
}
use fpga_tools.Commands.Fontus.Table.{fontus_commands}
use fpga_tools.Commands.Ceres.{CeresIf, ceres_safe_read_address}
use fpga_tools.Commands.Ceres.Table.{ceres_commands}
use fpga_tools.Server.{Fnet, FnetState}
use fpga_tools.Server.Kintex.{kintex_bus}
use fpga_tools.Server.Active as Active
use fpga_tools.Server.Call.{Strings, call}
use fpga_tools.Server.Single.{kintex_default_commands, called, fontus_server, single_ceres_server}
use fpga_tools.Server.Frames.{
  complete, AreItems, fits, SendsOneItem, FuncSendsOneItem, call_function-SendsOneItem,
}
use fpga_tools.Server.Frames.Commands.{
  write_addr_command-SendsOneItem, read_addr_command-SendsOneItem, sleep_command-SendsOneItem,
}
use fpga_tools.Server.Frames.Table.{is_legacy, legacy-FuncSendsOneItem, process_command-AreItems}

-- The first `n` entries are handlers of numbers.
first_legacy : {S : Type 0} → ℕ → List (ServerCommand S) → Bool
unfolding is_legacy
first_legacy zero cmds = true
first_legacy (suc n) [] = true
first_legacy (suc n) (cmd ∷ cmds) =
    let others = first_legacy n cmds in if is_legacy cmd.call then others else false

abbrev EntrySends : {S : Type 0} → ServerCommand S → Type 0
EntrySends cmd = FuncSendsOneItem cmd.nargs cmd.call

first_legacy-EntrySends :
    {S : Type 0} (n : ℕ) (cmds : List (ServerCommand S))
    → first_legacy n cmds ≡ true
    → All EntrySends (drop n cmds)
    → All EntrySends cmds
unfolding first_legacy
first_legacy-EntrySends zero cmds legacy later = later
first_legacy-EntrySends (suc n) [] legacy later = tt
first_legacy-EntrySends (suc n) (cmd ∷ cmds) legacy later = (
  legacy-FuncSendsOneItem cmd.nargs cmd.call (ground arith),
  first_legacy-EntrySends n cmds (ground arith) later,
)

module _ (texts : Texts) (bus : Bus) where
  change_found_item :
      (read : AxiTriggerPipeline → ℕ → Driver bus.State ℕ)
      (write : AxiTriggerPipeline → ℕ → ℕ → Driver bus.State ℕ) (change : ℕ → ℕ → ℕ)
      (which_mask : ℕ) (o : String ⊎ ℕ) (s : FontusState bus)
      → complete 1 (change_found texts bus read write change which_mask o s).0 ≡ true
  unfolding change_found complete
  change_found_item read write change which_mask (inl message) s = refl
  change_found_item read write change which_mask (inr place) s = ground arith

  change_mask-SendsOneItem :
      (read : AxiTriggerPipeline → ℕ → Driver bus.State ℕ)
      (write : AxiTriggerPipeline → ℕ → ℕ → Driver bus.State ℕ) (change : ℕ → ℕ → ℕ)
      → SendsOneItem 5 (change_mask texts bus read write change)
  unfolding change_mask SendsOneItem fits Active.length
  change_mask-SendsOneItem read write change (name ∷ which ∷ location ∷ first ∷ second ∷ rest) s
        fit =
      let channel = u32 (texts.strtoul which) in
      let place =
        get_bit_for_trigger_specifier texts (texts.sdstoupper location) (texts.sdstoupper first)
          (texts.sdstoupper second) in
      ground (arith, change_found_item read write change channel place s)
  change_mask-SendsOneItem read write change [] s fit = absurd (ground arith)
  change_mask-SendsOneItem read write change (a ∷ []) s fit = absurd (ground arith)
  change_mask-SendsOneItem read write change (a ∷ b ∷ []) s fit = absurd (ground arith)
  change_mask-SendsOneItem read write change (a ∷ b ∷ c ∷ []) s fit = absurd (ground arith)
  change_mask-SendsOneItem read write change (a ∷ b ∷ c ∷ d ∷ []) s fit = absurd (ground arith)

  fontus_commands-EntrySends : All EntrySends (fontus_commands bus texts)
  unfolding fontus_commands first_legacy FuncSendsOneItem add_to_trigger_mask_hr_command
      add_to_veto_mask_hr_command remove_from_trigger_mask_hr_command
      remove_from_veto_mask_hr_command
  fontus_commands-EntrySends =
      let table = fontus_commands bus texts in
      let with_place = λ (mask place : ℕ). bit_or mask (2 ^ place) in
      let without_place = λ (mask place : ℕ). bit_and mask (2 ^ 32 - 1 - 2 ^ place) in
      first_legacy-EntrySends 82 table refl (
        change_mask-SendsOneItem (read_trigger_mask bus) (write_trigger_mask bus) with_place
        also change_mask-SendsOneItem (read_trigger_veto_mask bus) (write_trigger_veto_mask bus)
            with_place
        also change_mask-SendsOneItem (read_trigger_mask bus) (write_trigger_mask bus) without_place
        also change_mask-SendsOneItem (read_trigger_veto_mask bus) (write_trigger_veto_mask bus)
            without_place
        also first_legacy-EntrySends 10 (drop 86 table) refl tt)

ceres_commands-EntrySends : (bus : Bus) (fuel : ℕ) → All EntrySends (ceres_commands bus fuel)
unfolding ceres_commands first_legacy
ceres_commands-EntrySends bus fuel = first_legacy-EntrySends 99 (ceres_commands bus fuel) refl tt

module _ (strings : Strings) (fnet : Fnet) (dummy_mode : Bool) (memory : Args) where
  called-SendsOneItem :
      {S : Type 0} (cmds : List (ServerCommand S))
      → All EntrySends cmds
      → All
          (λ cmd. SendsOneItem cmd.nargs cmd.run)
          (map (called strings fnet dummy_mode memory) cmds)
  unfolding call
  called-SendsOneItem [] sends = tt
  called-SendsOneItem (cmd ∷ cmds) (here, later) = (
    call_function-SendsOneItem strings.strtoul memory cmd.nargs cmd.nresp cmd.call here,
    called-SendsOneItem cmds later,
  )

  with_defaults :
      (H : Type 0) (safe_read_address : ℕ) (cmds : List (ServerCommand (H × FnetState fnet)))
      → All EntrySends cmds
      → All EntrySends
          (kintex_default_commands strings fnet dummy_mode memory H safe_read_address ++ cmds)
  unfolding kintex_default_commands FuncSendsOneItem
  with_defaults H safe_read_address cmds sends =
      let bus = kintex_bus fnet dummy_mode safe_read_address in
      write_addr_command-SendsOneItem strings bus H
      also read_addr_command-SendsOneItem strings bus H
      also sleep_command-SendsOneItem strings bus H
      also sends

  -- Whatever words a client sends, the first of which is not quit, and whatever the board and the
  -- network do, what the server for one board sends back is exactly one complete item of the
  -- protocol, and never what a read of a missing word would give, unless a handler polls a
  -- register longer than the fuel; with the commands of FONTUS, those that send replies themselves
  -- included, and with those of CERES.
  pub single_servers-AreItems :
      (sdstoupper : String → String) (of_infinity fuel : ℕ) (name : String) (words : List String)
      (s : Option FontusIf × FnetState fnet) (t : Option CeresIf × FnetState fnet)
      → strings.strcasecmp name "quit" ≡ false
      → AreItems 1
          (fontus_server strings fnet dummy_mode memory sdstoupper of_infinity (name ∷ words) s).0
        × AreItems 1 (single_ceres_server strings fnet dummy_mode memory fuel (name ∷ words) t).0
  unfolding fontus_server single_ceres_server
  single_servers-AreItems sdstoupper of_infinity fuel name words s t goes_on =
      let texts : Texts = record {
        strtoul = strings.strtoul;
        sdstoupper = sdstoupper;
        of_infinity = of_infinity;
      } in
      let fontus = fontus_commands (kintex_bus fnet dummy_mode fontus_safe_read_address) texts in
      let ceres = ceres_commands (kintex_bus fnet dummy_mode ceres_safe_read_address) fuel in
      let defaults = kintex_default_commands strings fnet dummy_mode memory in
      (
        process_command-AreItems strings name words
            (map (called strings fnet dummy_mode memory)
              (defaults (Option FontusIf) fontus_safe_read_address ++ fontus))
            s
            (called-SendsOneItem (defaults (Option FontusIf) fontus_safe_read_address ++ fontus) (
              with_defaults (Option FontusIf) fontus_safe_read_address fontus (
                fontus_commands-EntrySends texts
                  (kintex_bus fnet dummy_mode fontus_safe_read_address))))
            goes_on,
        process_command-AreItems strings name words
            (map (called strings fnet dummy_mode memory)
              (defaults (Option CeresIf) ceres_safe_read_address ++ ceres))
            t
            (called-SendsOneItem (defaults (Option CeresIf) ceres_safe_read_address ++ ceres) (
              with_defaults (Option CeresIf) ceres_safe_read_address ceres (
                ceres_commands-EntrySends (kintex_bus fnet dummy_mode ceres_safe_read_address)
                  fuel)))
            goes_on,
      )
