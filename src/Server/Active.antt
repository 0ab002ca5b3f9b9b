-- ===== src/Server/Active.antt =====
-- The boards that a client's commands go to, in fakernet_code/ceres_server.c: the table of the boards, and
-- the commands that choose among them. A message is without the numbers that it shows.
pub mod Sums
pub mod Lists
pub mod Available
pub mod Chosen
use fpga_tools.Prelude.{
  ℕ, zero, suc, ◌+◌, ◌^◌, Bool, true, Option, none, some, List, [], ◌∷◌, if◌then◌else◌, ltb, ◌==◌,
  bit_or, bit_and, u32,
}
use Prim.Native.String.{String}
use fpga_tools.Commands.{Reply, ok, error, integer, null, array, CliFunc}

abbrev pub num_xems : ℕ
num_xems = 8

-- `XEMConn`, without the address on the network.
pub record XemConn : Type 0 where
  pub fnet_client : Option ℕ
  pub device_id : ℕ

-- `n` boards from board `i` on, with the clients that `setup_udp` leaves.
unfoldable pub xems_from : (ℕ → Option ℕ) → ℕ → ℕ → List XemConn
xems_from clients i zero = []
xems_from clients i (suc n) =
    record { fnet_client = clients i; device_id = 4 + i } ∷ xems_from clients (suc i) n

-- `XEMS`
abbrev pub xems : (ℕ → Option ℕ) → List XemConn
xems clients = xems_from clients 0 num_xems

unfoldable pub length : {A : Type 0} → List A → ℕ
length [] = 0
length (x ∷ xs) = suc (length xs)

-- How many of the `n` bits from bit `i` on are set.
unfoldable pub count_set_bits : ℕ → ℕ → ℕ → ℕ
count_set_bits mask i zero = 0
count_set_bits mask i (suc n) =
    let rest = count_set_bits mask (suc i) n in if bit_and mask (2 ^ i) == 0 then rest else suc rest

-- A board that can be active.
unfoldable pub is_available : Bool → Option ℕ → Bool
is_available dummy_mode none = dummy_mode
is_available dummy_mode (some client) = true

-- Of the boards that the mask asks for, the places of those that are available and the device ids of the
-- others.
unfoldable pub requested_xems : Bool → ℕ → ℕ → List XemConn → List ℕ × List ℕ
unfolding is_available
requested_xems dummy_mode mask i [] = ([], [])
requested_xems dummy_mode mask i (xem ∷ rest) =
    let (available, unavailable) = requested_xems dummy_mode mask (suc i) rest in
    if bit_and mask (2 ^ xem.device_id) == 0
    then (available, unavailable)
    else if is_available dummy_mode xem.fnet_client
    then (i ∷ available, unavailable)
    else (available, xem.device_id ∷ unavailable)

unfoldable pub set_bits : ℕ → List ℕ → ℕ
set_bits mask [] = mask
set_bits mask (i ∷ rest) = set_bits (bit_or mask (2 ^ i)) rest

-- The device ids of the places that are set in a mask.
unfoldable pub device_id_mask : ℕ → ℕ → List XemConn → ℕ
device_id_mask index_mask i [] = 0
device_id_mask index_mask i (xem ∷ rest) =
    let others = device_id_mask index_mask (suc i) rest in
    if bit_and (2 ^ i) index_mask == 0 then others else bit_or others (2 ^ xem.device_id)

unfoldable pub available_ids : Bool → List XemConn → List Reply
unfolding is_available
available_ids dummy_mode [] = []
available_ids dummy_mode (xem ∷ rest) =
    let others = available_ids dummy_mode rest in
    if is_available dummy_mode xem.fnet_client then integer xem.device_id ∷ others else others

-- The answer to a mask with so many set bits, and the places that it leaves active.
unfoldable pub answer_choice : ℕ → ℕ → List ℕ × List ℕ → Reply × ℕ
answer_choice mask requested_count (available, unavailable) =
    if mask == 0
    then (ok, 0)
    else if ltb num_xems requested_count
    then (error "Too many XEMs requested in active mask", 0)
    else if length available == requested_count
    then (ok, set_bits 0 available)
    else if ltb 0 (length unavailable)
    then (error "XEM(s) aren't connected", 0)
    else (error "One or more requested XEMs isn't valid", 0)

-- The state is what `server_data` of the client points at.
module _ (dummy_mode : Bool) (clients : ℕ → Option ℕ) where
  unfoldable pub choose_xems : ℕ → Reply × ℕ
  choose_xems mask =
      answer_choice mask (count_set_bits mask 0 32)
        (requested_xems dummy_mode mask 0 (xems clients))

  unfoldable pub set_active_xem_mask_command : (String → ℕ) → CliFunc (Option ℕ)
  unfolding choose_xems
  set_active_xem_mask_command strtoul (name ∷ mask ∷ rest) server_data =
      let (reply, places) = choose_xems (u32 (strtoul mask)) in (some (reply ∷ []), some places)
  set_active_xem_mask_command strtoul words server_data =
      (some (error "Must provide active xem argument" ∷ []), server_data)

  unfoldable pub get_active_xem_mask_command : CliFunc (Option ℕ)
  get_active_xem_mask_command words none = (some (null ∷ []), none)
  get_active_xem_mask_command words (some places) = (
    some ((if places == 0 then null else integer (device_id_mask places 0 (xems clients))) ∷ []),
    some places,
  )

  unfoldable pub get_available_xems_command : CliFunc (Option ℕ)
  get_available_xems_command words server_data =
      let ids = available_ids dummy_mode (xems clients) in
      (some (if length ids == 0 then null ∷ [] else array (length ids) ∷ ids), server_data)
