-- ===== src/Zipper/Round.antt =====
-- The main loop of fakernet_code/zipper.c: one round, with the reception of waveforms and the change of
-- files. What redis, the disk and the clock do in a round is its input, and what it publishes its output.
-- `none` is the end of the program: an assertion that fails, an undefined shift, or `fclose(NULL)`. An
-- event is assumed to have fewer than 2^31 bytes, and the log and the heartbeat are left out.
pub mod Reach
pub mod NoFile
use fpga_tools.Prelude.{
  ℕ, zero, suc, ◌+◌, ◌-◌, ◌*◌, ◌/◌, ◌%◌, ◌^◌, Bool, true, false, ◌&&◌, ◌||◌, not, Option, none,
  some, List, [], ◌∷◌, ◌++◌, length, get_or, if◌then◌else◌, ltb, ◌==◌, u32, load32, swap32,
}
use fpga_tools.Zipper.{
  ReadyEventQueue, EventRecord, Zipper, pop_complete_event_id, register_waveform, Saving, going,
  failed, save_event, send_event_to_redis, free_event,
}
use fpga_tools.Zipper.RunReply.{RunInfo, Reply, parse_run_info_redis_reply}
use fpga_tools.Zipper.Stats.{ProcessingStats, evaluate_event_stats}

abbrev pub data_header_nbytes : ℕ
data_header_nbytes = 20

-- `DEFAULT_PUBLISH_MAX_SIZE/10.`
abbrev pub publish_limit : ℕ
publish_limit = 1048576

-- The variables of `main` that its loop keeps, with the globals. `fout` is what the open file was given.
pub record Main : Type 0 where
  pub zipper : Zipper
  pub stats : ProcessingStats
  pub fout : Option (List ℕ)
  pub run_info : RunInfo
  pub start_new_run : Bool
  pub bytes_in_file : ℕ
  pub bytes_sent : ℕ
  pub loop : Bool

-- What the options set: the mask, the size at which a file is full (0 is never), and whether to publish.
pub record Options : Type 0 where
  pub complete_event_mask : ℕ
  pub file_size_threshold : ℕ
  pub publishing : Bool

-- What a round meets: the messages that have arrived, a reply on `run_info` and the numbers that
-- `string2ll` reads, how many bytes of an item a call of `fwrite` writes, whether the next file opens, whether the pause since the last published event is over, and whether it
-- is time to reset the limit and to publish the statistics.
pub record Input : Type 0 where
  pub messages : List ℕ
  pub run_reply : Option Reply
  pub string2ll : List ℕ → Option ℕ
  pub fwrite : ℕ → List ℕ → ℕ
  pub opened : Bool
  pub publish_due : Bool
  pub limit_due : Bool
  pub stats_due : Bool
  pub garbage : ℕ

pub data Output : Type 0 where
  published : List ℕ → Output
  published_stats : ProcessingStats → Output

-- The four bytes at 4 in network order, and the byte at 18.
unfoldable pub message_event : List ℕ → ℕ
unfolding load32 swap32
message_event str = swap32 (load32 (λ p. get_or str p 0) 4)

unfoldable pub message_device : List ℕ → ℕ
message_device str = get_or str 18 0

module _ (payload : ℕ → List ℕ) (mask : ℕ) where
  -- A message of the loop.
  unfoldable pub receive_message : ℕ → Zipper → Option Zipper
  unfolding message_event message_device
  receive_message reply z =
      let str = payload reply in
      if ltb (length str) data_header_nbytes
      then none
      else register_waveform mask (message_device str) (message_event str) reply z

  -- The loop, on the messages that redis has.
  unfoldable pub recieve_waveform_from_redis : List ℕ → Zipper → Option Zipper
  unfolding receive_message
  recieve_waveform_from_redis [] z = some z
  recieve_waveform_from_redis (reply ∷ replies) z = elim (receive_message reply z) [
    | none ↦ none
    | some z' ↦ recieve_waveform_from_redis replies z'
  ]

-- A reply on `run_info` that is another run.
unfoldable pub note_run : (List ℕ → Option ℕ) → Option Reply → Main → Option Main
note_run string2ll none m = some m
note_run string2ll (some reply) m = elim (parse_run_info_redis_reply string2ll reply false) [
  | none ↦ none
  | some new_run ↦
      if not (new_run.run_number == 0) && not (new_run.run_number == m.run_info.run_number)
      then some (record m { run_info = new_run; start_new_run = true })
      else some m
]

module _ (payload : ℕ → List ℕ) (options : Options) (i : Input) where
  -- `send_event_to_redis`, if the event may be published.
  unfoldable pub publish_stage : ℕ → Main → Main × List Output
  publish_stage event_id m =
      let sent = send_event_to_redis payload options.complete_event_mask m.zipper event_id in
      if options.publishing && i.publish_due && ltb m.bytes_sent publish_limit
      then elim sent [
        | none ↦ (m, [])
        | some bytes ↦ (record m { bytes_sent = m.bytes_sent + length bytes }, published bytes ∷ [])
      ]
      else (m, [])

  -- "Check if it's time to change to a new sub-run"
  unfoldable pub rotate_stage : Main → Option Main
  rotate_stage m =
      let full =
        not (options.file_size_threshold == 0) && ltb options.file_size_threshold m.bytes_in_file in
      if m.start_new_run || full
      then elim (m.fout) [
        | none ↦ none
        | some written ↦ some (record m {
          run_info = record (m.run_info) { sub_run = m.run_info.sub_run + 1 };
          fout = if i.opened then some [] else none;
          bytes_in_file = 0;
          start_new_run = false;
        })
      ]
      else some m

  -- `save_event` on the file, if there is one: `none` is -1, otherwise the bytes written and the file.
  unfoldable pub save_stage : ℕ → Main → Option (ℕ × Option (List ℕ)) × Option (List ℕ)
  save_stage event_id m =
      let saving = save_event i.fwrite payload options.complete_event_mask m.zipper event_id in
      elim (m.fout) [
        | none ↦ (some (0, none), none)
        | some written ↦ elim saving [
          | going total file ↦ (some (total, some (written ++ file)), some (written ++ file))
          | failed file ↦ (none, some (written ++ file))
        ]
      ]

  -- A complete event is popped, counted, looked at and published.
  unfoldable pub take_event : Main → Main × List Output
  take_event m =
      let (event_id, queue) = pop_complete_event_id m.zipper.event_ready_queue in
      let popped = record (m.zipper) { event_ready_queue = queue } in
      let counted = record (m.stats) { event_count = u32 (m.stats.event_count + 1) } in
      let stats =
        evaluate_event_stats payload options.complete_event_mask i.garbage popped event_id
          counted in
      publish_stage event_id (record m { zipper = popped; stats = stats })

  -- What follows the save: whether the rest of the round does. A save that fails ends the loop.
  unfoldable pub settle_event :
      ℕ
      → Option (ℕ × Option (List ℕ)) × Option (List ℕ)
      → Main
      → List Output
      → Option (Bool × Main × List Output)
  settle_event event_id (none, fout) m outputs =
      some (false, record m { fout = fout; loop = false }, outputs)
  settle_event event_id (some (nbytes_written, file), fout) m outputs =
      elim (rotate_stage (record m {
        fout = file;
        bytes_in_file = m.bytes_in_file + nbytes_written;
        zipper = free_event options.complete_event_mask event_id m.zipper;
      })) [ none ↦ none | some m' ↦ some (true, m', outputs) ]

  unfoldable pub event_stage : Main → Option (Bool × Main × List Output)
  event_stage m =
      let event_id = (pop_complete_event_id m.zipper.event_ready_queue).0 in
      let (m', outputs) = take_event m in
      if m.zipper.event_ready_queue.events_available == 0
      then some (true, m, [])
      else settle_event event_id (save_stage event_id m') m' outputs

  -- The end of a round: the limit of published bytes and the statistics.
  unfoldable pub stats_stage : Main → Main × List Output
  stats_stage m =
      let bytes_sent = if i.limit_due then 0 else m.bytes_sent in
      let stats = record (m.stats) {
        events_waiting = m.zipper.event_ready_queue.events_available;
        run_number = m.run_info.run_number;
        sub_run_number = m.run_info.sub_run;
      } in
      if i.stats_due
      then (
        record m {
          bytes_sent = bytes_sent;
          stats = record stats { max_delta_t = 0; fontus_delta_t = 0 };
        },
        published_stats stats ∷ [],
      )
      else (record m { bytes_sent = bytes_sent }, [])

  -- One round of `while(loop)`.
  unfoldable pub main_round : Main → Option (Main × List Output)
  main_round m =
      elim (recieve_waveform_from_redis payload options.complete_event_mask i.messages m.zipper) [
        | none ↦ none
        | some zipper ↦ elim (note_run i.string2ll i.run_reply (record m { zipper = zipper })) [
          | none ↦ none
          | some noted ↦ elim (event_stage noted) [
            | none ↦ none
            | some (false, m₁, events) ↦ some (m₁, events)
            | some (true, m₁, events) ↦
                let (m₂, stats) = stats_stage m₁ in some (m₂, events ++ stats)
          ]
        ]
      ]
