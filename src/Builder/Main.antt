-- ===== src/Builder/Main.antt =====
-- `data_builder_main` of fakernet_code/data_builder.c: one round of its loop, with the pipe to the
-- manager and the reset of the connection. What the sockets, the pipes and the clock do in a round is
-- its input; what the round sends is its output. The display of headers and the log are left out.
pub mod Outputs
pub mod Readers
pub mod Rounds
pub mod Runs
pub mod Pipe
use fpga_tools.Prelude.{
  ℕ, zero, suc, ◌+◌, ◌-◌, ◌<◌, ◌≡◌, Bool, true, false, ◌&&◌, ◌||◌, not, Option, none, some, List,
  [], ◌∷◌, ◌++◌, if◌then◌else◌, ltb, leb, ◌==◌, u32, Memory,
}
use fpga_tools.Builder.Ring.{RingBuffer, pull_from_fpga}
use fpga_tools.Builder.Pop.{find_event_start}
use fpga_tools.Builder.Header.{
  FontusTrigHeader, CeresTrigHeader, fontus_header_size, ceres_header_size, fontus_write_to_disk,
}
use fpga_tools.Builder.Event.{EventBuffer, Reader}
use fpga_tools.Builder.Ceres.{ceres_read_proc}
use fpga_tools.Builder.Fontus.{fontus_read_proc}
use fpga_tools.Builder.Validate.{
  ProcessingStats, initialize_stats, ceres_update_stats, fontus_update_stats, ceres_validate_crcs,
  fontus_validate_crcs, ceres_write_to_disk, publish_event,
}
use fpga_tools.Builder.Manager.{
  ManagerIo, cmd_none, cmd_connected, cmd_isreeling, cmd_numbuilt, cmd_reset_conn,
  cmd_display_headers, PipeRead, Fd, receive_manager_io, respond_to_manager_io, writes_all, is_open,
  Attempt, reset_connection,
}

-- `BuilderProtocol`, without the display of headers, with the magic number and the size of the header.
pub record BuilderProtocol (H : Type 0) : Type 0 where
  pub magic_value : ℕ
  pub header_size : ℕ
  pub reader_process : Reader H → Option H × Reader H
  pub write_event : EventBuffer → H → List ℕ
  pub validate_event : H → EventBuffer → ℕ
  pub update_stats : H → ProcessingStats → ProcessingStats

-- The protocol that `config.ceres_builder` chooses; the parameters are the CRCs and the stack.
unfoldable pub ceres_protocol : (ℕ → ℕ → ℕ) → (ℕ → List ℕ → ℕ) → BuilderProtocol CeresTrigHeader
ceres_protocol crc8 crc32 = record {
  magic_value = 0xFFFFFFFF;
  header_size = ceres_header_size;
  reader_process = ceres_read_proc crc8;
  write_event = ceres_write_to_disk;
  validate_event = ceres_validate_crcs crc32;
  update_stats = ceres_update_stats;
}

unfoldable pub fontus_protocol : (ℕ → List ℕ → ℕ) → Memory → BuilderProtocol FontusTrigHeader
fontus_protocol crc32 stack = record {
  magic_value = 0xF00FF00F;
  header_size = fontus_header_size;
  reader_process = fontus_read_proc crc32 stack;
  write_event = λ eb header. fontus_write_to_disk header stack;
  validate_event = fontus_validate_crcs;
  update_stats = fontus_update_stats;
}

-- The state of the loop, with the globals `reeling` (in the reader) and `loop`.
pub record Builder (H : Type 0) : Type 0 where
  pub reader : Reader H
  pub event_header : H
  pub event_ready : Bool
  pub stats : ProcessingStats
  pub manager_command : ManagerIo
  pub in_pipe : Fd
  pub out_pipe : Fd
  pub fd : Fd
  pub loop : Bool

-- `BuilderConfig`, as far as the loop reads it, and whether the global `redis` is a connection.
pub record BuilderConfig : Type 0 where
  pub num_events : ℕ
  pub do_not_save : Bool
  pub udp_client : Bool
  pub redis : Bool

-- What a round meets.
pub record Input : Type 0 where
  pub pipe_read : PipeRead
  pub pipe_writes : List (Option ℕ)
  pub attempts : List Attempt
  pub recvmsg : ℕ → Option (List ℕ)
  pub stats_due : Bool

-- What a round sends; an answer to the manager counts if all of its bytes are written, once each.
pub data Output : Type 0 where
  responded : ManagerIo → Output
  published_stats : ProcessingStats → Output
  validated : ℕ → Output
  published : List ℕ × List ℕ → Output
  saved : List ℕ → Output

module _ {H : Type 0} (config : BuilderConfig) (protocol : BuilderProtocol H) (i : Input) where
  -- The `switch` on the command.
  unfoldable pub manager_switch : Builder H → Builder H
  manager_switch b =
      let command = b.manager_command.command in
      if command == cmd_none
      then b
      else if command == cmd_connected
      then record b {
        manager_command = record (b.manager_command) {
          arg = if b.stats.connected_to_fpga then 1 else 0;
        };
      }
      else if command == cmd_isreeling
      then record b {
        manager_command = record (b.manager_command) { arg = if b.reader.reeling then 1 else 0 };
      }
      else if command == cmd_numbuilt
      then record b { manager_command = record (b.manager_command) { arg = b.stats.event_count } }
      else if command == cmd_display_headers
      then record b { manager_command = record (b.manager_command) { arg = 0 } }
      else if command == cmd_reset_conn
      then (let (result, fd) = reset_connection config.udp_client b.loop i.attempts b.fd in
          record b { manager_command = record (b.manager_command) { arg = result }; fd = fd })
      else record b { manager_command = record (b.manager_command) { command = cmd_none } }

  unfoldable pub manager_stage : Builder H → Builder H × List Output
  manager_stage b =
      let (m, in_pipe) = receive_manager_io i.pipe_read b.manager_command b.in_pipe in
      let b' = manager_switch (record b { manager_command = m; in_pipe = in_pipe }) in
      let (m', out_pipe) = respond_to_manager_io i.pipe_writes b'.manager_command b'.out_pipe in
      if b'.manager_command.command == cmd_none then (b', []) else (
        record b' { manager_command = m'; out_pipe = out_pipe },
        (if is_open b'.out_pipe && writes_all i.pipe_writes 0
            then responded b'.manager_command ∷ []
            else []),
      )

  -- `pull_from_fpga`, then the search for an event start or the reader.
  unfoldable pub read_stage : Builder H → Builder H
  read_stage b =
      let (bytes_recvd, ring) = pull_from_fpga i.recvmsg b.reader.ring_buffer in
      let reader = record (b.reader) { ring_buffer = ring } in
      let (found, ring') = find_event_start ring protocol.magic_value in
      let (result, reader') = protocol.reader_process reader in
      if b.reader.reeling
      then record b {
        reader = record reader { ring_buffer = ring'; reeling = not found };
        stats = record (b.stats) { reeling_happened = true };
      }
      else elim result [
        | none ↦ record b { reader = reader'; event_ready = false }
        | some header ↦ record b { reader = reader'; event_ready = true; event_header = header }
      ]

  unfoldable pub stats_stage : Builder H → Builder H × List Output
  stats_stage b =
      let ring = b.reader.ring_buffer in
      let stats = record (b.stats) {
        fifo_wpointer = ring.write_pointer;
        fifo_event_rpointer = ring.event_read_pointer;
        fifo_rpointer = ring.read_pointer;
      } in
      if i.stats_due
      then (
        record b { stats = record stats { reeling_happened = false } },
        (if config.redis then published_stats stats ∷ [] else []),
      )
      else (b, [])

  -- An event that is ready is validated, published, saved and counted, and its buffer is cleared.
  unfoldable pub event_stage : Builder H → Builder H × List Output
  event_stage b =
      let eb = b.reader.event_buffer in
      let header = b.event_header in
      let event_count = u32 (b.stats.event_count + 1) in
      let outputs =
        validated (protocol.validate_event header eb)
          ∷ (elim (publish_event config.redis eb protocol.header_size) [
            | none ↦ []
            | some event ↦ published event ∷ []
          ])
        ++ (if config.do_not_save then [] else saved (protocol.write_event eb header) ∷ []) in
      if b.event_ready
      then (
        record b {
          reader = record (b.reader) { event_buffer = record eb { num_bytes = 0 } };
          stats = protocol.update_stats header (record (b.stats) { event_count = event_count });
          loop =
              if not (config.num_events == 0) && leb config.num_events event_count
              then false
              else b.loop;
        },
        outputs,
      )
      else (b, [])

  -- One round of `while(loop)`.
  unfoldable pub main_round : Builder H → Builder H × List Output
  main_round b =
      let (b₁, responses) = manager_stage b in
      let b₂ = read_stage b₁ in
      let (b₃, stats) = stats_stage b₂ in
      let (b₄, events) = event_stage b₃ in (b₄, responses ++ stats ++ events)

-- The state before the loop: `reeling` is 0, and the connection is made.
unfoldable pub initial_builder : {H : Type 0} → Reader H → H → ManagerIo → Fd → Fd → ℕ → Builder H
initial_builder reader header command in_pipe out_pipe fd = record {
  reader = reader;
  event_header = header;
  event_ready = false;
  stats = record (initialize_stats reader.reeling) { connected_to_fpga = ltb 0 fd };
  manager_command = command;
  in_pipe = in_pipe;
  out_pipe = out_pipe;
  fd = some fd;
  loop = true;
}
