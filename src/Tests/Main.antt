-- ===== src/Tests/Main.antt =====
-- Runs of the data builder's main loop over a CERES stream, and requests of the manager.
use fpga_tools.Prelude.{
  ℕ, zero, suc, ◌%◌, ◌^◌, ◌<◌, ◌≤◌, ◌≡◌, refl, true, arith, Option, none, some, List, [], ◌∷◌, ◌++◌,
}
use fpga_tools.Builder.Ring.{initialize_ring_buffer}
use fpga_tools.Builder.Header.{CeresTrigHeader}
use fpga_tools.Builder.Event.{Reader}
use fpga_tools.Builder.Validate.{ceres_validate_crcs, initialize_stats}
use fpga_tools.Builder.Validate.Crcs.{calculated, given, ceres_validate_crcs_lem}
use fpga_tools.Builder.Manager.{ManagerIo, message}
use fpga_tools.Builder.Main.{
  Builder, BuilderConfig, BuilderProtocol, Input, initial_builder, main_round, ceres_protocol,
}
use fpga_tools.Builder.Main.Outputs.{validations, publications}
use fpga_tools.Builder.Main.Rounds.{IsProtocol, IsBounded, IsSound}
use fpga_tools.Builder.Main.Runs.{
  Run, here, next, ceres_protocol-IsProtocol, initial_builder-IsSound, Run-IsSound, Run-counts,
  Run-limited,
}
use fpga_tools.Tests.Header.{ceres_header, zeros, add_byte, count_bytes}
use fpga_tools.Tests.Event.{reader, event_buffer}

abbrev config : BuilderConfig
config = record { num_events = 2; do_not_save = true; udp_client = true; redis = true }

abbrev protocol : BuilderProtocol CeresTrigHeader
protocol = ceres_protocol add_byte count_bytes

abbrev connected_request : ManagerIo
connected_request = record { command = 1; arg = 0 }

-- One byte arrives, if there is room for it.
abbrev one_byte : ℕ → Option (List ℕ)
one_byte zero = none
one_byte (suc n) = some (255 ∷ [])

abbrev input : Input
input = record {
  pipe_read = message connected_request;
  pipe_writes = some 8 ∷ [];
  attempts = [];
  recvmsg = one_byte;
  stats_due = true;
}

input-IsBounded : IsBounded input
input-IsBounded zero bytes e = ground arith
input-IsBounded (suc n) bytes e = ground arith

abbrev fresh_reader : Reader CeresTrigHeader
fresh_reader = record reader { ring_buffer = initialize_ring_buffer zeros }

abbrev start : Builder CeresTrigHeader
start = initial_builder fresh_reader ceres_header connected_request (some 5) (some 6) 7

start-IsSound : IsSound start
start-IsSound =
    initial_builder-IsSound zeros fresh_reader ceres_header connected_request (some 5) (some 6) 7
      refl

start-runs : (start.loop ≡ true) × (start.stats.event_count ≡ 0)
unfolding initial_builder initialize_stats
start-runs = (refl, refl)

protocol-IsProtocol : IsProtocol protocol
protocol-IsProtocol = ceres_protocol-IsProtocol add_byte count_bytes

one_round :
    Run config protocol start
      (main_round config protocol input start).0
      ([] ++ (main_round config protocol input start).1)
one_round = next input here start-runs.0 input-IsBounded

Run-IsSound_example : IsSound (main_round config protocol input start).0
Run-IsSound_example = Run-IsSound config protocol start protocol-IsProtocol start-IsSound one_round

Run-counts_example :
    let (b, outputs) = main_round config protocol input start in
    (b.stats.event_count ≡ validations ([] ++ outputs) % 2 ^ 32)
    × (publications ([] ++ outputs) ≡ validations ([] ++ outputs))
Run-counts_example =
    Run-counts config protocol start protocol-IsProtocol start-IsSound start-runs.1 one_round

Run-limited_example :
    let (b, outputs) = main_round config protocol input start in
    (publications ([] ++ outputs) ≤ 2) × (b.loop ≡ true → publications ([] ++ outputs) < 2)
Run-limited_example =
    Run-limited config protocol start protocol-IsProtocol start-IsSound start-runs.1
      (λ e. omega arith) (omega arith) one_round

ceres_validate_crcs_lem_example :
    let result = ceres_validate_crcs count_bytes ceres_header event_buffer in
    let crc = calculated count_bytes event_buffer.bytes 2 in
    let word = given count_bytes event_buffer.bytes 2 in
    (result ≡ 0 → (channel : ℕ) → channel < 16 → crc channel ≡ word channel)
    × (((channel : ℕ) → channel < 16 → crc channel ≡ word channel) → result ≡ 0)
ceres_validate_crcs_lem_example = ceres_validate_crcs_lem count_bytes ceres_header event_buffer
