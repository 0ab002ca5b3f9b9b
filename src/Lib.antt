-- ===== src/Lib.antt =====
-- Models and theorems for the readout programs of fpga_tools: the data builder, the zipper, the
-- offline data parser, and the servers of the boards with their commands and the drivers of the
-- devices. All paths are from the root of the repository.
--
-- The data builder (fakernet_code/data_builder.c) reads a byte stream from one FPGA over TCP into a
-- ring buffer, parses it into events, and writes and publishes each event. Two kinds of boards send
-- two formats: CERES boards 16 channels of samples, FONTUS four waveforms of words. Every word passes
-- from `pull_from_fpga` to `pop32` and `find_event_start`, and to `ceres_read_proc` or
-- `fontus_read_proc`, which fill the event buffer; the main loop validates, publishes and saves each
-- event and answers its manager. The zipper (fakernet_code/zipper.c) receives the published waveforms
-- of all boards, collects those of one event in a hash table, and saves and publishes an event when
-- its devices are complete. The data parser (fakernet_code/look_at_data/data_parser.c) reads the files
-- that the data builder saves. The drivers map settings of the boards to registers behind a bus; the
-- tables of commands (fakernet_code/fontus_if.c and ceres_if.c) call them, and the servers
-- (fakernet_code/ceres_server.c and kintex_client_server.c) look up a client's command, call its
-- handler, on every active board for CERES, and carry the accesses to the registers over the network.
--
-- Prelude and its children: tests into Bool, lists over the native numbers, laws of `|` and `&`, the
-- widths of C's integers, and byte memory with the stores through casted pointers.
-- Builder.Ring: `RingBuffer` and the functions `ring_buffer_*`, under their names without the prefix,
-- and `pull_from_fpga`. A function that changes `*ring_buffer` returns the new ring. Builder.Stream is
-- the abstract view: the bytes kept since the last event and the unread bytes, in order.
-- Builder.Ring.Inv has the invariant, Builder.Ring.Refine the refinement of the stream.
-- Builder.Pop: `pop32` and `find_event_start`; Builder.Pop.Word, Search and Found their laws.
-- Builder.Header: the two headers, the functions `*_interpret_header_word`, `fontus_write_to_disk` and
-- the header CRCs; Builder.Header.Laws is about these.
-- Builder.Event: the event buffer, `EventInProgress`, `stash_with_reorder`; Builder.Event.Layout its
-- layout. Builder.Ceres: `ceres_read_proc`, cut at its loops; Samples (the samples), Safety (where it
-- writes) and Trash (the error path) are its children. Builder.Fontus: `fontus_read_proc` and
-- `fontus_publish_event`; Copy and Fuel have its data loop, Bounds the limits of its events.
-- Builder.Manager: the pipe to the manager and `reset_connection`. Builder.Validate: what the main
-- loop does with an event: `ceres_validate_crcs`, the writes to disk, `publish_event` and the
-- statistics. Builder.Main: a round of `data_builder_main`, as `main_round` in its four stages, with
-- the table of functions (`BuilderProtocol`). Main.Rounds says what a protocol has to keep,
-- Main.Readers is about the two readers, Main.Outputs about what is sent, Main.Runs about runs of
-- rounds, Main.Pipe about the manager.
-- Zipper: `register_waveform`, the queue of complete events, `save_event`, `send_event_to_redis` and
-- `free_event`; Registry, Save with its child Complete, and Publish are about these. Zipper.Stats:
-- `evaluate_event_stats`.
-- Zipper.RunReply: `parse_run_info_redis_reply`; Fields is about it.
-- Zipper.Round: a round of the loop of `main`, with `recieve_waveform_from_redis` and the change of
-- files; Reach has runs of rounds, NoFile the rounds without a file.
-- Parser: `read_header`, `count_events`, `get_events_index`, `read_event` and `get_event` on a file
-- that is a list of bytes and a position. Parser.Words, Index and Event are about these.
-- Trigger: the address map and the bus of trigger_pipeline.c; Thresholds, Delays, Gates and Control
-- have one definition for each function of the source, under its name; Settings gathers them by the
-- setting they access.
-- Devices: the state monad of the drivers on that bus. Pipeline (data_pipeline.c), Jesd (jesd.c),
-- JesdPhy (jesd_phy.c), Clocks (reset_gen_if.c, clock_wiz.c, gpio.c), Qspi (axi_qspi.c, ads_if.c,
-- dac_if.c), Lmk (lmk_if.c) and Iic (iic.c), all in fakernet_code, have one definition for each
-- function of the source, under its name. Trace is a bus that records its writes.
-- Commands: a handler's arguments and answers, and an entry of a table. Commands.Fontus and
-- Commands.Ceres: the handle of the board, made on first use, the handlers, each under its name in the
-- source, and the table; Table.Bounds is about the arguments that handlers read, Masks.Places and
-- Masks.Changes about the commands on the trigger masks.
-- Server: `read_addr`, `double_read_addr` and `write_addr` of ceres_server.c, Server.Kintex those of
-- kintex_client_server.c that differ, Server.Latency what they do on the FPGA. Server.Active: the
-- commands that choose the boards; Sums, Lists, Available and Chosen are about them. Server.Call: the
-- call of a handler with a client's words; Server.Boards: `ceres_call`; Server.Process: the look-up of
-- a command (server.c) and the whole of `ceres_server`; Server.Single: the server for one board.
-- Server.Frames and its children are about the replies, Server.Memory about the memory that is not
-- set; Commands.Ceres.Table.Answers is about the values that handlers store.
-- Tests: runs at concrete inputs.
--
-- The host is little-endian, as the machines that run the programs: `htonl` and its kin reverse the
-- bytes. An `int16_t` is its bit pattern. Memory is a function from addresses to bytes, and the
-- contents of fresh memory are an argument. The loops over data run on fuel: the header loops on one
-- round for each word of a header, the data loops on `bytes_in_buffer / 4 + 1` rounds, which are more
-- than there are words, since each round takes four bytes and stops when fewer than three are left.
-- The loops of the data parser run on a round for each 20 bytes of the file and one more, and each
-- round but the last reads a header of 20 bytes. A loop that polls a register runs on the number of
-- rounds that is its argument, and ends without a result if that is not enough. A pointer to a static
-- `EventInProgress` is a field of `Reader`, with the flag `reeling`.
--
-- Parameters: `recvmsg`, `crc32` (a copy of zlib's), `crc8`, `fwrite` (how much a call writes), the
-- bytes of a Redis reply, what a machine makes of an infinity as a number, `string2ll` (a copy of
-- Redis's), `strtol`, `strtoul`, `strcasecmp` and `sdstoupper`, and `fnet_ctrl_send_recv_regacc`
-- (of the copied Fakernet client); for the drivers and the handlers the bus accesses
-- `double_read_addr` and `write_addr`. What sockets, pipes, files, Redis and the clock do in a
-- round of a main loop is the input of that round. Messages to the log and waiting are left out.
--
-- Not modelled: the setup and the options of the programs, `connect_to_fpga`, the sockets and event
-- loop of the servers, kintex_cli.c, the texts of messages, fake_data_gen.c, zookeeper.c, the log
-- programs, the Python interface, and the copies of other projects' code: Redis (sds.c, ae.c, anet.c,
-- networking.c and others), zlib's crc32.c, and the Fakernet client.
pub mod Prelude
pub mod Builder
pub mod Zipper
pub mod Trigger
pub mod Parser
pub mod Devices
pub mod Commands
pub mod Server
mod Tests
