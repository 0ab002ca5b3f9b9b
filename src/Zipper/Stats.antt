-- ===== src/Zipper/Stats.antt =====
-- `evaluate_event_stats` of fakernet_code/zipper.c: what an event's timestamps add to the statistics. A
-- 64-bit signed number is its bit pattern.
pub mod Extremes
use fpga_tools.Prelude.{
  ℕ, zero, suc, ◌+◌, ◌-◌, ◌*◌, ◌/◌, ◌%◌, ◌^◌, Bool, true, false, ◌&&◌, ◌||◌, not, Option, none,
  some, List, [], ◌∷◌, get_or, if◌then◌else◌, ltb, ◌==◌, u64, Memory, load32, swap64,
}
use fpga_tools.Zipper.{EventRecord, Zipper, hash_table_size, fontus_device_id}

-- `ProcessingStats`, without the times, the process number and the device mask, to which `main` sets
-- `COMPLETE_EVENT_MASK` before its loop.
pub record ProcessingStats : Type 0 where
  pub event_count : ℕ
  pub trigger_id : ℕ
  pub events_waiting : ℕ
  pub latest_timestamp : ℕ
  pub max_delta_t : ℕ
  pub fontus_delta_t : ℕ
  pub run_number : ℕ
  pub sub_run_number : ℕ

-- `initialize_processing_stats` leaves `sub_run_number` as it finds it in memory: that is the argument.
unfoldable pub initialize_processing_stats : ℕ → ProcessingStats
initialize_processing_stats sub_run_number = record {
  event_count = 0;
  trigger_id = 0;
  events_waiting = 0;
  latest_timestamp = 0;
  max_delta_t = 0;
  fontus_delta_t = 0;
  run_number = 2 ^ 64 - 1;
  sub_run_number = sub_run_number;
}

-- The string of the message, or nothing for a null pointer.
unfoldable pub grab_data_from_pubsub_message : (ℕ → List ℕ) → Option ℕ → Option (List ℕ)
grab_data_from_pubsub_message payload none = none
grab_data_from_pubsub_message payload (some message) = some (payload message)

-- `ntohll(*((uint64_t*)(data+8)))`
unfoldable pub timestamp_of : List ℕ → ℕ
unfolding load32 swap64
timestamp_of bytes =
    let m = (λ (p : ℕ). get_or bytes p 0) in swap64 (load32 m 8 + load32 m 12 * 2 ^ 32)

unfoldable pub llabs : ℕ → ℕ
llabs x = if ltb x (2 ^ 63) then x else 2 ^ 64 - x

-- The three timestamps of the loop.
pub record Timestamps : Type 0 where
  pub largest : ℕ
  pub smallest : ℕ
  pub fontus : ℕ

-- A round of the loop, on a device of the mask.
unfoldable pub see_device : ℕ → Option (List ℕ) → Timestamps → Timestamps
see_device i none s = s
see_device i (some bytes) s =
    let timestamp = timestamp_of bytes in
    if i == fontus_device_id then record s { fontus = timestamp } else record s {
      largest = if s.largest == 0 || ltb s.largest timestamp then timestamp else s.largest;
      smallest = if s.smallest == 0 || ltb timestamp s.smallest then timestamp else s.smallest;
    }

module _ (payload : ℕ → List ℕ) (replies : ℕ → Option ℕ) where
  -- `for(i=0; event_mask; event_mask>>=1,i++)`, on the bits that are left at most.
  unfoldable pub see_devices : ℕ → ℕ → ℕ → Timestamps → Timestamps
  unfolding see_device
  see_devices zero i event_mask s = s
  see_devices (suc left) i event_mask s =
      let seen = see_device i (grab_data_from_pubsub_message payload (replies i)) s in
      let rest = see_devices left (i + 1) (event_mask / 2) in
      if event_mask == 0 then s else rest (if event_mask % 2 == 0 then s else seen)

-- What follows the loop.
unfoldable pub store_timestamps : ℕ → Timestamps → ProcessingStats → ProcessingStats
store_timestamps event_id seen stats =
    let delta_t = u64 (seen.largest + 2 ^ 64 - seen.smallest) in
    let fontus_delta_t = u64 (seen.largest + 2 ^ 64 - seen.fontus) in
    let some_ceres = not (seen.largest == 0) in
    record stats {
      trigger_id = event_id;
      max_delta_t =
          if some_ceres && ltb stats.max_delta_t delta_t then delta_t else stats.max_delta_t;
      latest_timestamp = if some_ceres then seen.largest else stats.latest_timestamp;
      fontus_delta_t =
          if some_ceres
            && not (seen.fontus == 0)
            && ltb (llabs stats.fontus_delta_t) (llabs fontus_delta_t)
          then fontus_delta_t
          else stats.fontus_delta_t;
    }

-- The argument `garbage` is what the variable `fontus_timestamp`, which has no initial value, holds.
unfoldable pub evaluate_event_stats :
    (ℕ → List ℕ) → ℕ → ℕ → Zipper → ℕ → ProcessingStats → ProcessingStats
evaluate_event_stats payload mask garbage z event_id stats =
    let event = z.event_registry (event_id % hash_table_size) in
    let start : Timestamps = record { largest = 0; smallest = 0; fontus = garbage } in
    store_timestamps event_id (see_devices payload event.replies 64 0 mask start) stats
