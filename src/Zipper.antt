-- ===== src/Zipper.antt =====
-- fakernet_code/zipper.c: waveforms of several boards are collected into events, which are saved to
-- a file and published. A `redisReply*` is a handle, and the bytes of a reply are given by a
-- parameter `payload`; the log, the statistics and the option parsing are left out.
pub mod Registry
pub mod Save
pub mod Publish
pub mod Stats
pub mod RunReply
pub mod Round
use fpga_tools.Prelude.{
  ℕ, zero, suc, ◌+◌, ◌-◌, ◌*◌, ◌/◌, ◌%◌, ◌^◌, Bool, true, false, ◌&&◌, ◌||◌, not, Option, none,
  some, List, [], ◌∷◌, ◌++◌, length, take,
}
use fpga_tools.Prelude.{
  if◌then◌else◌, ltb, leb, ◌==◌, bit_and, bit_or, swap16, swap32, swap64, bytes32, u16,
}

abbrev pub max_device_number : ℕ
max_device_number = 34

abbrev pub hash_table_size : ℕ
hash_table_size = 1000

abbrev pub queue_length : ℕ
queue_length = 100

abbrev pub fontus_device_id : ℕ
fontus_device_id = 0

abbrev pub data_format_version : ℕ
data_format_version = 1

-- `ReadyEventQueue`
pub record ReadyEventQueue : Type 0 where
  pub event_ids : ℕ → ℕ
  pub events_available : ℕ

-- `EventRecord`
pub record EventRecord : Type 0 where
  pub bit_word : ℕ
  pub event_number : ℕ
  pub replies : ℕ → Option ℕ

-- The globals: `event_ready_queue`, `event_registry`, `last_seen_event`, and the replies that are freed.
pub record Zipper : Type 0 where
  pub event_ready_queue : ReadyEventQueue
  pub event_registry : ℕ → EventRecord
  pub last_seen_event : ℕ → ℕ
  pub freed : List ℕ

-- An array with one entry replaced.
unfoldable pub update {ℓ} : {A : Type ℓ} → (ℕ → A) → ℕ → A → ℕ → A
update f i v j = if j == i then v else f j

unfoldable pub flag_complete_event : ℕ → ReadyEventQueue → ReadyEventQueue
flag_complete_event event_number q = if q.events_available == queue_length then q else record {
  event_ids = update q.event_ids q.events_available event_number;
  events_available = q.events_available + 1;
}

-- On an empty queue the result is `(uint32_t)-1`.
unfoldable pub pop_complete_event_id : ReadyEventQueue → ℕ × ReadyEventQueue
pop_complete_event_id q = if q.events_available == 0 then (2 ^ 32 - 1, q) else (
  q.event_ids (q.events_available - 1),
  record q { events_available = q.events_available - 1 },
)

unfoldable pub event_id_hash : ℕ → ℕ
event_id_hash event_id = event_id % hash_table_size

-- `1<<device_id` as an `int`, converted to 64 bits: the sign bit is spread. `none` is a shift that C
-- leaves undefined.
unfoldable pub device_bit : ℕ → Option ℕ
device_bit device_id =
    if ltb device_id 31
    then some (2 ^ device_id)
    else if device_id == 31
    then some (2 ^ 64 - 2 ^ 31)
    else none

-- The record of a waveform's event after it: `|=` on a free record or on the same event, and a fresh
-- bit word on a hash collision.
unfoldable pub add_waveform : ℕ → ℕ → ℕ → EventRecord → EventRecord
add_waveform device_id event_number wf_data slot =
    let replies = update slot.replies device_id (some wf_data) in
    if slot.bit_word == 0 || slot.event_number == event_number
    then record {
      event_number = event_number;
      bit_word = bit_or slot.bit_word (2 ^ device_id);
      replies = replies;
    }
    else record { event_number = event_number; bit_word = 2 ^ device_id; replies = replies }

-- `none` where `1<<device_id` is undefined.
unfoldable pub register_waveform : ℕ → ℕ → ℕ → ℕ → Zipper → Option Zipper
register_waveform complete_event_mask device_id event_number wf_data z =
    let hash_value = event_id_hash event_number in
    let slot = add_waveform device_id event_number wf_data (z.event_registry hash_value) in
    elim (device_bit device_id) [
      | none ↦ none
      | some bit ↦
          if bit_and bit complete_event_mask == 0
          then some (record z { freed = wf_data ∷ z.freed })
          else some (record z {
            last_seen_event = update z.last_seen_event device_id event_number;
            event_registry = update z.event_registry hash_value slot;
            event_ready_queue =
                if slot.bit_word == complete_event_mask
                then flag_complete_event event_number z.event_ready_queue
                else z.event_ready_queue;
          })
    ]

-- The bytes that a word has in memory after `htonl` and its kin, for 2, 4 and 8 bytes.
abbrev pub network16 : ℕ → List ℕ
network16 w = swap16 w % 256 ∷ swap16 w / 2 ^ 8 % 256 ∷ []

abbrev pub network32 : ℕ → List ℕ
network32 w = bytes32 (swap32 w)

abbrev pub network64 : ℕ → List ℕ
network64 w = bytes32 (swap64 w) ++ bytes32 (swap64 w / 2 ^ 32)

-- `COMPLETE_EVENT_MASK & (1ULL<<i)` is not 0.
unfoldable pub in_mask : ℕ → ℕ → Bool
in_mask complete_event_mask i = not (bit_and complete_event_mask (2 ^ i) == 0)

-- What a save has written to the file, and whether it goes on with the count `total_bytes_written`.
pub data Saving : Type 0 where
  going : ℕ → List ℕ → Saving
  failed : List ℕ → Saving

-- The parameter says how many bytes of an item a call of `fwrite` writes, by the bytes that the save has
-- given the file before.
module _ (fwrite : ℕ → List ℕ → ℕ) where
  -- `nwritten = fwrite(item, size, 1, fout)`, which is 1 if all of the `size` bytes at `item` are written,
  -- and 0 if not or if `size` is 0; then `total_bytes_written += nwritten*size`.
  unfoldable pub write_item : ℕ → List ℕ → Saving → Saving
  write_item size item (failed file) = failed file
  write_item size item (going total file) =
      let count = fwrite (length file) item in
      let nwritten = if ltb 0 size && leb size count then 1 else 0 in
      if nwritten == 0
      then failed (file ++ take count item)
      else going (total + nwritten * size) (file ++ take size item)

  -- `grab_data_from_pubsub_message`, and the write of what it finds.
  unfoldable pub write_reply : (ℕ → List ℕ) → Option ℕ → Saving → Saving
  write_reply payload none (failed file) = failed file
  write_reply payload none (going total file) = failed file
  write_reply payload (some reply) s = write_item (length (payload reply)) (payload reply) s

  -- The loop over the devices from `i` on, `left` of them.
  unfoldable pub write_devices : (ℕ → List ℕ) → ℕ → (ℕ → Option ℕ) → ℕ → ℕ → Saving → Saving
  write_devices payload mask replies zero i s = s
  write_devices payload mask replies (suc left) i s =
      write_devices payload mask replies left (i + 1) (
        if i == fontus_device_id || not (in_mask mask i)
        then s
        else write_reply payload (replies i) s)

  -- `save_event` on an open file; `failed` is the result -1, with which it sets the global `loop` to 0.
  unfoldable pub save_event : (ℕ → List ℕ) → ℕ → Zipper → ℕ → Saving
  save_event payload mask z event_id =
      let event = z.event_registry (event_id_hash event_id) in
      let s = write_item 4 (network32 event_id) (going 0 []) in
      let s = write_item 2 (network16 (if event.bit_word == mask then 0 else 1)) s in
      let s = write_item 2 (network16 data_format_version) s in
      let s = write_item 8 (network64 event.bit_word) s in
      let s =
        if in_mask mask fontus_device_id
        then write_reply payload (event.replies fontus_device_id) s
        else s in
      write_devices payload mask event.replies max_device_number 0 s

-- The loop of `send_event_to_redis` over the devices: `none` is the early `return 0`.
unfoldable pub gather_devices :
    (ℕ → List ℕ) → ℕ → (ℕ → Option ℕ) → ℕ → ℕ → Option (List ℕ) → Option (List ℕ)
gather_devices payload mask replies zero i buf = buf
gather_devices payload mask replies (suc left) i none = none
gather_devices payload mask replies (suc left) i (some buf) =
    gather_devices payload mask replies left (i + 1) (
      if i == fontus_device_id || not (in_mask mask i)
      then some buf
      else elim (replies i) [ none ↦ none | some reply ↦ some (buf ++ payload reply) ])

-- What `send_event_to_redis` publishes. The status goes through `htonl` into 16 bits.
unfoldable pub send_event_to_redis : (ℕ → List ℕ) → ℕ → Zipper → ℕ → Option (List ℕ)
send_event_to_redis payload mask z event_id =
    let event = z.event_registry (event_id % hash_table_size) in
    let status = u16 (swap32 (if event.bit_word == mask then 0 else 1)) in
    let header =
      network32 event_id
      ++ (status % 256 ∷ status / 2 ^ 8 % 256 ∷ [])
      ++ network16 data_format_version
      ++ network64 event.bit_word in
    let fontus =
      if in_mask mask fontus_device_id
      then elim (event.replies fontus_device_id) [
        | none ↦ none
        | some reply ↦ some (header ++ payload reply)
      ]
      else some header in
    gather_devices payload mask event.replies max_device_number 0 fontus

-- The replies that `free_event` frees, from device `i` on; a null pointer is no reply.
unfoldable pub free_devices : ℕ → (ℕ → Option ℕ) → ℕ → ℕ → List ℕ → List ℕ
free_devices mask replies zero i freed = freed
free_devices mask replies (suc left) i freed = free_devices mask replies left (i + 1) (
    if i == fontus_device_id || not (in_mask mask i)
    then freed
    else elim (replies i) [ none ↦ freed | some reply ↦ reply ∷ freed ])

unfoldable pub free_event : ℕ → ℕ → Zipper → Zipper
free_event mask event_id z =
    let hash_value = event_id_hash event_id in
    let event = z.event_registry hash_value in
    let freed =
      if in_mask mask fontus_device_id
      then elim (event.replies fontus_device_id) [ none ↦ z.freed | some reply ↦ reply ∷ z.freed ]
      else z.freed in
    record z {
      event_registry = update z.event_registry hash_value (record event { bit_word = 0 });
      freed = free_devices mask event.replies max_device_number 0 freed;
    }
