-- ===== src/Server/Frames/Commands.antt =====
-- The replies of the commands of fakernet_code/ceres_server.c that are about the client or a register.
use fpga_tools.Prelude.{
  ℕ, ◌≡◌, refl, arith, Bool, true, Option, none, some, List, [], ◌∷◌, if◌then◌else◌, ◌==◌, u32,
}
use Prim.Native.String.{String}
use fpga_tools.Commands.{Reply, array, null}
use fpga_tools.Trigger.{Bus}
use fpga_tools.Server.Active.{
  count_set_bits, set_active_xem_mask_command, get_active_xem_mask_command,
  get_available_xems_command, length, xems, requested_xems, XemConn, available_ids, choose_xems,
  answer_choice,
}
use fpga_tools.Server.Call.{Strings, write_addr_command, read_addr_command, sleep_command}
use fpga_tools.Server.Active as Active
use fpga_tools.Server.Frames.{complete, step, fits, SendsOneItem}

module _ (strings : Strings) (bus : Bus) (H : Type 0) where
  pub write_addr_command-SendsOneItem : SendsOneItem 3 (write_addr_command strings bus {H = H})
  unfolding write_addr_command SendsOneItem fits Active.length
  write_addr_command-SendsOneItem (name ∷ addr ∷ val ∷ rest) (handle, s) fit = ground arith
  write_addr_command-SendsOneItem [] s fit = absurd (ground arith)
  write_addr_command-SendsOneItem (name ∷ []) s fit = absurd (ground arith)
  write_addr_command-SendsOneItem (name ∷ addr ∷ []) s fit = absurd (ground arith)

  pub read_addr_command-SendsOneItem : SendsOneItem 2 (read_addr_command strings bus {H = H})
  unfolding read_addr_command SendsOneItem fits Active.length
  read_addr_command-SendsOneItem (name ∷ addr ∷ rest) (handle, s) fit = ground arith
  read_addr_command-SendsOneItem [] s fit = absurd (ground arith)
  read_addr_command-SendsOneItem (name ∷ []) s fit = absurd (ground arith)

  pub sleep_command-SendsOneItem : SendsOneItem 2 (sleep_command strings bus {H = H})
  unfolding sleep_command SendsOneItem fits Active.length
  sleep_command-SendsOneItem (name ∷ addr ∷ rest) s fit = ground arith
  sleep_command-SendsOneItem [] s fit = absurd (ground arith)
  sleep_command-SendsOneItem (name ∷ []) s fit = absurd (ground arith)

module _ (dummy_mode : Bool) (clients : ℕ → Option ℕ) where
  answer_choice_item :
      (mask count : ℕ) (lists : List ℕ × List ℕ)
      → complete 1 ((answer_choice mask count lists).0 ∷ []) ≡ true
  unfolding answer_choice complete
  answer_choice_item mask count lists = ground arith

  pub set_active_xem_mask_command-SendsOneItem :
      (strtoul : String → ℕ)
      → SendsOneItem 2 (set_active_xem_mask_command dummy_mode clients strtoul)
  unfolding set_active_xem_mask_command SendsOneItem choose_xems
  set_active_xem_mask_command-SendsOneItem strtoul (name ∷ mask ∷ rest) s fit =
      let word = u32 (strtoul mask) in
      answer_choice_item word (count_set_bits word 0 32)
        (requested_xems dummy_mode word 0 (xems clients))
  set_active_xem_mask_command-SendsOneItem strtoul [] s fit = refl
  set_active_xem_mask_command-SendsOneItem strtoul (name ∷ []) s fit = refl

  pub get_active_xem_mask_command-SendsOneItem :
      SendsOneItem 1 (get_active_xem_mask_command dummy_mode clients)
  unfolding get_active_xem_mask_command SendsOneItem
  get_active_xem_mask_command-SendsOneItem argv none fit = refl
  get_active_xem_mask_command-SendsOneItem argv (some places) fit = ground arith

  available_ids_items :
      (boards : List XemConn)
      → complete (length (available_ids dummy_mode boards)) (available_ids dummy_mode boards) ≡ true
  unfolding available_ids complete length
  available_ids_items [] = refl
  available_ids_items (board ∷ rest) = ground (arith, available_ids_items rest)

  pub get_available_xems_command-SendsOneItem :
      SendsOneItem 1 (get_available_xems_command dummy_mode clients)
  unfolding SendsOneItem get_available_xems_command complete
  get_available_xems_command-SendsOneItem argv s fit =
      let ids = available_ids dummy_mode (xems clients) in
      of_ids ids (available_ids_items (xems clients))
    where
      of_ids :
          (ids : List Reply)
          → complete (length ids) ids ≡ true
          → complete 1 (if length ids == 0 then null ∷ [] else array (length ids) ∷ ids) ≡ true
      of_ids ids whole = ground (arith, step 0 (length ids) (array (length ids)) ids refl)
