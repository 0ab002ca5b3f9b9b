-- ===== src/Builder/Event.antt =====
-- What the two readers of fakernet_code/data_builder.c share: the buffer for one event, the event in
-- progress, and where a sample of a CERES channel is put.
pub mod Layout
use fpga_tools.Prelude.{ℕ, ◌+◌, ◌*◌, Bool, false, List, [], ◌∷◌, get_or, if◌then◌else◌, ◌==◌}
use fpga_tools.Prelude.{bit_or, ◌<<<◌, Memory, store32, swap32}
use fpga_tools.Builder.Ring.{RingBuffer, buffer_size}
use fpga_tools.Builder.Header.{ceres_header_size}

abbrev pub event_buffer_size : ℕ
event_buffer_size = buffer_size

abbrev pub num_channels : ℕ
num_channels = 16

-- `EventBuffer`
pub record EventBuffer : Type 0 where
  pub bytes : Memory
  pub num_bytes : ℕ

unfoldable pub initialize_event_buffer : Memory → EventBuffer
initialize_event_buffer mem = record { bytes = mem; num_bytes = 0 }

-- `EventInProgress`, without `max` and `min`, which nothing uses.
pub record EventInProgress (H : Type 0) : Type 0 where
  pub event_header : H
  pub header_bytes_read : ℕ
  pub data_bytes_read : ℕ
  pub current_channel : ℕ
  pub wf_header_read : Bool
  pub samples_read : ℕ
  pub wf_crc_read : Bool
  pub prev_sample : ℕ

-- `start_event` leaves the header as it finds it in memory: that is the argument.
unfoldable pub start_event : {H : Type 0} → H → EventInProgress H
start_event header = record {
  event_header = header;
  header_bytes_read = 0;
  data_bytes_read = 0;
  current_channel = 0;
  wf_header_read = false;
  samples_read = 0;
  wf_crc_read = false;
  prev_sample = 0;
}

-- `FPGA_IF` without its connections, with the reader's static event and the global `reeling`.
pub record Reader (H : Type 0) : Type 0 where
  pub ring_buffer : RingBuffer
  pub event_buffer : EventBuffer
  pub event : EventInProgress H
  pub reeling : Bool

-- `*(uint32_t*)(data + offset) = htonl(word); num_bytes += 4;`
unfoldable pub put_word : EventBuffer → ℕ → ℕ → EventBuffer
put_word eb offset word = record {
  bytes = store32 eb.bytes offset (swap32 word);
  num_bytes = eb.num_bytes + 4;
}

abbrev pub channel_order_xem1 : List ℕ
channel_order_xem1 = 3 ∷ 2 ∷ 1 ∷ 0 ∷ 7 ∷ 6 ∷ 5 ∷ 4 ∷ 11 ∷ 10 ∷ 9 ∷ 8 ∷ 15 ∷ 14 ∷ 13 ∷ 12 ∷ []

abbrev pub channel_order_xem2 : List ℕ
channel_order_xem2 = 15 ∷ 14 ∷ 13 ∷ 12 ∷ 11 ∷ 10 ∷ 9 ∷ 8 ∷ 7 ∷ 6 ∷ 5 ∷ 4 ∷ 3 ∷ 2 ∷ 1 ∷ 0 ∷ []

-- `channel_order[current_channel]`; the reader keeps the index below 16.
unfoldable pub reordered : Bool → ℕ → ℕ
reordered is_xem1_not_xem2 channel =
    get_or (if is_xem1_not_xem2 then channel_order_xem1 else channel_order_xem2) channel 0

-- The offset that `stash_with_reorder` computes, for the channel after the reordering.
unfoldable pub stash_offset : ℕ → ℕ → ℕ → ℕ
stash_offset new_channel isample wf_length =
    ceres_header_size + new_channel * ((wf_length + 2) * 4) + isample * 4

unfoldable pub stash_with_reorder : EventBuffer → ℕ → ℕ → ℕ → ℕ → Bool → EventBuffer
unfolding put_word reordered stash_offset
stash_with_reorder eb word current_channel isample wf_length is_xem1_not_xem2 =
    let new_channel = reordered is_xem1_not_xem2 current_channel in
    let header_word = bit_or (bit_or 0xFF00FF00 new_channel) (new_channel <<< 16) in
    put_word eb (stash_offset new_channel isample wf_length)
      (if isample == 0 then header_word else word)
