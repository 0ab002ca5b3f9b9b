-- ===== src/Tests/Rounds.antt =====
-- A round of the zipper's main loop, the statistics of an event, and replies on `run_info`.
use fpga_tools.Prelude.{
  ℕ, ◌+◌, ◌-◌, ◌*◌, ◌%◌, ◌^◌, ◌≡◌, refl, true, false, arith, Option, none, some, List, [], ◌∷◌,
  tabulate, if◌then◌else◌, ◌==◌, length, load32, swap32, swap64,
}
use Prim.Native.Nat.{max}
use fpga_tools.Zipper.{Zipper, update, event_id_hash, add_waveform, register_waveform, device_bit}
use fpga_tools.Zipper.Registry.{IsValid}
use fpga_tools.Zipper.RunReply.{
  Replies, cons, nil, other, run_number_name, sub_run_name, same_name, number_of,
  parse_run_info_redis_reply,
}
use fpga_tools.Zipper.RunReply.Fields.{
  Fields, record_of, xread, last_of, number_under, parse_run_info_redis_reply-xread,
}
use fpga_tools.Zipper.Stats.{
  ProcessingStats, initialize_processing_stats, timestamp_of, evaluate_event_stats,
}
use fpga_tools.Zipper.Stats.Extremes.{
  ceres_timestamps, AllPositive, largest_from, smallest_from, evaluate_event_stats_lem,
}
use fpga_tools.Zipper.Round.{
  Main, Options, Input, recieve_waveform_from_redis, receive_message, message_event, message_device,
  stats_stage, note_run, event_stage, main_round,
}
use fpga_tools.Zipper.Round.Reach.{here, next, Run-IsValid}
use fpga_tools.Tests.Zipper.{empty_zipper, busy_zipper, empty_zipper-IsValid}

-- A message of device 1 for event 0, with the timestamp 2 ^ 56 * 3.
abbrev payload : ℕ → List ℕ
payload reply = tabulate 20 (λ i. if i == 8 then 3 else if i == 18 then 1 else 0)

abbrev options : Options
options = record { complete_event_mask = 3; file_size_threshold = 0; publishing = false }

-- The number that decimal digits are, if there are any.
abbrev digits : List ℕ → Option ℕ
digits [] = none
digits (c ∷ s) = elim (digits s) [
  | none ↦ some (c - 48)
  | some n ↦ some ((c - 48) * 10 ^ length s + n)
]

abbrev input : Input
input = record {
  messages = 17 ∷ [];
  run_reply = none;
  string2ll = digits;
  fwrite = λ (n : ℕ) (item : List ℕ). 0;
  opened = true;
  publish_due = false;
  limit_due = false;
  stats_due = false;
  garbage = 0;
}

abbrev stats : ProcessingStats
stats = initialize_processing_stats 0

abbrev main : Main
main = record {
  zipper = empty_zipper;
  stats = stats;
  fout = some [];
  run_info = record { run_number = 2 ^ 64 - 1; sub_run = 0 };
  start_new_run = false;
  bytes_in_file = 0;
  bytes_sent = 0;
  loop = true;
}

-- The zipper with the message.
abbrev registered : Zipper
registered = record empty_zipper {
  last_seen_event = update empty_zipper.last_seen_event 1 0;
  event_registry =
      update empty_zipper.event_registry (event_id_hash 0)
        (add_waveform 1 0 17 (empty_zipper.event_registry (event_id_hash 0)));
}

received : main_round payload options input main ≡ some (record main { zipper = registered }, [])
unfolding main_round recieve_waveform_from_redis receive_message message_event message_device
    register_waveform device_bit event_stage stats_stage note_run load32 swap32 add_waveform
received = refl

Run-IsValid_example : IsValid registered
Run-IsValid_example =
    Run-IsValid payload options empty_zipper-IsValid (next input here refl received)

timestamps :
    ceres_timestamps payload 3 (busy_zipper.event_registry (7 % 1000)).replies 64 0
    ≡ 3 * 2 ^ 56 ∷ []
unfolding ceres_timestamps timestamp_of load32 swap64
timestamps = refl

positive : AllPositive (3 * 2 ^ 56 ∷ [])
unfolding AllPositive
positive = (omega arith, tt)

evaluate_event_stats_lem_example :
    let stats' = evaluate_event_stats payload 3 0 busy_zipper 7 stats in
    (stats'.latest_timestamp ≡ largest_from (3 * 2 ^ 56) [])
    × (stats'.max_delta_t
        ≡ max stats.max_delta_t (largest_from (3 * 2 ^ 56) [] - smallest_from (3 * 2 ^ 56) []))
    × (stats'.trigger_id ≡ 7)
evaluate_event_stats_lem_example =
    evaluate_event_stats_lem payload 3 0 7 (3 * 2 ^ 56) [] busy_zipper stats timestamps positive

-- "12" and "3" under the names of the two numbers, and a newer record with "13".
abbrev fields : Fields
fields = (run_number_name, 49 ∷ 50 ∷ []) ∷ (sub_run_name, 51 ∷ []) ∷ []

abbrev newer : Replies
newer = cons (record_of [] ((run_number_name, 49 ∷ 51 ∷ []) ∷ [])) nil

parse_run_info_redis_reply-xread_example :
    parse_run_info_redis_reply digits (xread other (cons (record_of [] fields) newer)) false
    ≡ some (record { run_number = 12; sub_run = 3 })
unfolding number_under last_of number_of same_name
parse_run_info_redis_reply-xread_example =
    parse_run_info_redis_reply-xread digits other [] run_number_name (49 ∷ 50 ∷ [])
      ((sub_run_name, 51 ∷ []) ∷ []) newer
