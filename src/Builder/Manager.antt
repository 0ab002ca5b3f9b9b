-- ===== src/Builder/Manager.antt =====
-- The pipe to the manager and the reset of the connection in fakernet_code/data_builder.c, with the
-- commands of data_builder.h.
use fpga_tools.Prelude.{
  ℕ, zero, suc, ◌+◌, Bool, true, false, ◌&&◌, ◌||◌, not, Option, none, some, List, [], ◌∷◌,
  if◌then◌else◌, ◌==◌,
}

-- `ManagerIO`
pub record ManagerIo : Type 0 where
  pub command : ℕ
  pub arg : ℕ

abbrev pub cmd_none : ℕ
cmd_none = 0

abbrev pub cmd_connected : ℕ
cmd_connected = 1

abbrev pub cmd_isreeling : ℕ
cmd_isreeling = 2

abbrev pub cmd_numbuilt : ℕ
cmd_numbuilt = 3

abbrev pub cmd_reset_conn : ℕ
cmd_reset_conn = 4

abbrev pub cmd_display_headers : ℕ
cmd_display_headers = 5

-- What `read` on the pipe gives: the end of the file, no data yet, another error, or a message.
pub data PipeRead : Type 0 where
  hung_up : PipeRead
  no_data : PipeRead
  broken : PipeRead
  message : ManagerIo → PipeRead

-- A file descriptor, or `none` for a negative one.
abbrev pub Fd : Type 0
Fd = Option ℕ

unfoldable pub receive_manager_io : PipeRead → ManagerIo → Fd → ManagerIo × Fd
receive_manager_io nbytes m none = (m, none)
receive_manager_io hung_up m (some fd) = (record m { command = cmd_none }, none)
receive_manager_io no_data m (some fd) = (record m { command = cmd_none }, some fd)
receive_manager_io broken m (some fd) = (record m { command = cmd_none }, none)
receive_manager_io (message m') m (some fd) = (m', some fd)

-- The sum of what the calls of `write` return, as long as the loop goes on: `none` is a call's -1, and a
-- sum of -1.
unfoldable pub write_loop : List (Option ℕ) → ℕ → Option ℕ
write_loop [] nbytes = some nbytes
write_loop (some k ∷ results) nbytes =
    let total = nbytes + k in
    let rest = write_loop results total in if total == 0 || total == 8 then some total else rest
write_loop (none ∷ results) zero = none
write_loop (none ∷ results) (suc nbytes) =
    let rest = write_loop results nbytes in if nbytes == 0 || nbytes == 8 then some nbytes else rest

-- Whether the calls of `write`, after `nbytes` bytes, give the pipe the eight bytes of a message in
-- their order: no call fails, and none takes nothing.
unfoldable pub writes_all : List (Option ℕ) → ℕ → Bool
writes_all [] nbytes = false
writes_all (none ∷ results) nbytes = false
writes_all (some k ∷ results) nbytes =
    let total = nbytes + k in
    let rest = writes_all results total in if total == 8 then true else not (total == 0) && rest

unfoldable pub respond_to_manager_io : List (Option ℕ) → ManagerIo → Fd → ManagerIo × Fd
respond_to_manager_io results m none = (m, none)
respond_to_manager_io results m (some fd) = (
  record m { command = cmd_none },
  elim (write_loop results 0) [ none ↦ none | some nbytes ↦ some fd ],
)

-- One round of the loop of `reset_connection`: whether the reset was sent, and what the call of
-- `connect_to_fpga` returns.
pub record Attempt : Type 0 where
  pub reset_sent : Bool
  pub connected : Fd

abbrev pub is_open : Fd → Bool
is_open none = false
is_open (some fd) = true

-- `do { ... } while(fd < 0 && loop)` after `close`, which leaves `fd` as it was: a reset that is not
-- sent goes to the test of the loop. The result and the descriptor.
unfoldable pub reset_connection : Bool → Bool → List Attempt → Fd → ℕ × Fd
reset_connection udp_client running [] fd = (if is_open fd then 0 else 1, fd)
reset_connection udp_client running (a ∷ attempts) fd =
    let fd' = if udp_client && not a.reset_sent then fd else a.connected in
    let again = reset_connection udp_client running attempts fd' in
    if not (is_open fd') && running then again else (if is_open fd' then 0 else 1, fd')
