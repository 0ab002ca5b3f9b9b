-- ===== src/Builder/Ceres.antt =====
-- `ceres_read_proc` of fakernet_code/data_builder.c: the header, then for each of 16 channels a
-- channel header, samples (plain or compressed) and a CRC. An `int16_t` is its bit pattern.
pub mod Samples
pub mod Safety
pub mod Trash
use fpga_tools.Prelude.{ℕ, zero, suc, ◌+◌, ◌-◌, ◌*◌, ◌/◌, ◌%◌, ◌^◌, Bool, true, false, ◌||◌, not}
use fpga_tools.Prelude.{
  Option, none, some, if◌then◌else◌, ltb, leb, ◌==◌, bit_and, bit_or, u8, u16, u32,
}
use fpga_tools.Prelude.{◌<<<◌, ◌>>>◌, load32, swap32}
use fpga_tools.Builder.Ring.{contiguous_readable, update_read_pntr, update_event_read_pntr}
use fpga_tools.Builder.Pop.{pop32}
use fpga_tools.Builder.Header.{CeresTrigHeader, ceres_header_size, ceres_interpret_header_word}
use fpga_tools.Builder.Header.{calc_ceres_header_crc}
use fpga_tools.Builder.Event.{EventBuffer, EventInProgress, start_event, Reader, put_word}
use fpga_tools.Builder.Event.{stash_with_reorder, num_channels, event_buffer_size}

-- The sign extensions `int8_t` and `int16_t` to wider bit patterns, and `>>` on an `int16_t`.
abbrev pub sext8 : ℕ → ℕ
sext8 b = if ltb b (2 ^ 7) then b else b + (2 ^ 16 - 2 ^ 8)

abbrev pub sext16 : ℕ → ℕ
sext16 s = if ltb s (2 ^ 15) then s else s + (2 ^ 32 - 2 ^ 16)

abbrev pub shr16 : ℕ → ℕ → ℕ
shr16 s k = if ltb s (2 ^ 15) then s >>> k else s >>> k + (2 ^ 16 - 2 ^ (16 - k))

-- What the loop over the six differences carries.
pub record Unpacking : Type 0 where
  pub event : EventInProgress CeresTrigHeader
  pub event_buffer : EventBuffer
  pub sample_pair : ℕ

-- The 5-bit difference number `i` of a compressed word, as an `int16_t`.
unfoldable pub difference5 : ℕ → ℕ → ℕ
difference5 word i =
    let sample = bit_and word (0x1F <<< (i * 5)) >>> (i * 5) in shr16 (sext8 (u8 (sample <<< 3))) 3

module _ (word channel_length : ℕ) (is_even : Bool) where
  -- One round of the loop over `i` from 5 down to 0.
  unfoldable pub compressed_round : ℕ → Unpacking → Unpacking
  compressed_round i u =
      let valid_bit = bit_and word 0x80000000 >>> 16 in
      let sample = u16 (u.event.prev_sample + difference5 word i) in
      let marked = if i % 2 == 0 then sample else bit_or sample valid_bit in
      let pair = bit_or (u32 (u.sample_pair <<< 16)) (sext16 marked) in
      let event = record (u.event) { prev_sample = sample } in
      let counted = record event { samples_read = event.samples_read + 1 } in
      if i % 2 == 0
      then record {
        event = counted;
        event_buffer =
            stash_with_reorder u.event_buffer pair event.current_channel counted.samples_read
              channel_length is_even;
        sample_pair = pair;
      }
      else record u { event = event; sample_pair = pair }

  unfoldable pub compressed_loop : ℕ → Unpacking → Unpacking
  compressed_loop zero u = u
  compressed_loop (suc i) u = compressed_loop i (compressed_round i u)

-- The two samples of a word that is not compressed.
unfoldable pub plain_first : ℕ → ℕ → ℕ → ℕ
plain_first word samples_read prev_sample =
    if samples_read == 0
    then bit_and (word >>> 16) 0x3fff
    else u16 (prev_sample + shr16 (u16 (word >>> 14)) 2)

unfoldable pub plain_second : ℕ → ℕ → ℕ
plain_second word prev_sample = u16 (prev_sample + shr16 (u16 (bit_and word 0x3FFF <<< 2)) 2)

unfoldable pub plain_pair : ℕ → ℕ → ℕ → ℕ
plain_pair word first second =
    let valid_bit = bit_and word 0x80000000 >>> 16 in
    bit_or (u32 (bit_or (sext16 first) valid_bit <<< 16)) (sext16 second)

-- One word after the header; `none` is the early return on a wrong channel header.
unfoldable pub ceres_word :
    ℕ
    → Bool
    → ℕ
    → EventInProgress CeresTrigHeader
    → EventBuffer
    → Option (EventInProgress CeresTrigHeader × EventBuffer)
ceres_word channel_length is_even word event eb =
    if not event.wf_header_read
    then (let expectation =
          bit_or (bit_or 0xFF00FF00 (event.current_channel <<< 16)) event.current_channel in
        if not (word == expectation)
        then none
        else some (
          record event { wf_header_read = true; wf_crc_read = false; samples_read = 0 },
          stash_with_reorder eb word event.current_channel 0 channel_length is_even,
        ))
    else if ltb event.samples_read channel_length
    then if not (bit_and word 0x40000000 == 0)
      then (let u =
            compressed_loop word channel_length is_even 6
              (record { event = event; event_buffer = eb; sample_pair = 0 }) in
          some (u.event, u.event_buffer))
      else (let first = plain_first word event.samples_read event.prev_sample in
          let second = plain_second word first in
          some (
            record event { prev_sample = second; samples_read = event.samples_read + 1 },
            stash_with_reorder eb (plain_pair word first second) event.current_channel
                (event.samples_read + 1) channel_length is_even,
          ))
    else if not event.wf_crc_read
    then some (
      record event {
        current_channel = event.current_channel + 1;
        samples_read = 0;
        wf_crc_read = true;
        wf_header_read = false;
        prev_sample = 0;
      },
      stash_with_reorder eb word event.current_channel (event.samples_read + 1) channel_length
          is_even,
    )
    else some (event, eb)

-- How the loop over the words ends: with a wrong channel header, with a complete event, or with no
-- word left. The buffer has what was stored until then; the number is `bytes_read`.
pub data Outcome : Type 0 where
  trashed : EventBuffer → Outcome
  complete : CeresTrigHeader → EventBuffer → ℕ → Outcome
  waiting : EventInProgress CeresTrigHeader → EventBuffer → ℕ → Outcome

module _ (load : ℕ → ℕ) (bytes_in_buffer channel_length : ℕ) (is_even : Bool) where
  -- `while(bytes_read <= (bytes_in_buffer-3))`, on the words that are left at most.
  unfoldable pub ceres_data_loop : ℕ → ℕ → EventInProgress CeresTrigHeader → EventBuffer → Outcome
  ceres_data_loop zero bytes_read event eb = waiting event eb bytes_read
  ceres_data_loop (suc fuel) bytes_read event eb = elim (leb (bytes_read + 3) bytes_in_buffer) [
    | false ↦ waiting event eb bytes_read
    | true ↦ elim (ceres_word channel_length is_even (load bytes_read) event eb) [
      | none ↦ trashed eb
      | some (event', eb') ↦ elim (event'.current_channel == num_channels) [
        | true ↦ complete event'.event_header eb' (bytes_read + 4)
        | false ↦ ceres_data_loop fuel (bytes_read + 4) event' eb'
      ]
    ]
  ]

-- `while(event.header_bytes_read < CERES_HEADER_SIZE)`, on the words that are left at most: whether
-- the header is complete.
unfoldable pub ceres_header_loop : ℕ → Reader CeresTrigHeader → Bool × Reader CeresTrigHeader
ceres_header_loop zero r = (leb ceres_header_size r.event.header_bytes_read, r)
ceres_header_loop (suc fuel) r = elim (ltb r.event.header_bytes_read ceres_header_size) [
  | false ↦ (true, r)
  | true ↦ elim (pop32 r.ring_buffer) [
    | none ↦ (false, r)
    | some (val, ring) ↦ ceres_header_loop fuel (record r {
      ring_buffer = ring;
      event_buffer = put_word r.event_buffer r.event_buffer.num_bytes val;
      event = record (r.event) {
        event_header =
            ceres_interpret_header_word r.event.event_header val (r.event.header_bytes_read / 4);
        header_bytes_read = r.event.header_bytes_read + 4;
      };
    })
  ]
]

-- What the end of the loop leaves: the result is the event's header if the event is complete.
unfoldable pub ceres_settle :
    Reader CeresTrigHeader → Outcome → Option CeresTrigHeader × Reader CeresTrigHeader
ceres_settle r (trashed eb) = (
  none,
  record r {
    event_buffer = record eb { num_bytes = 0 };
    event = start_event r.event.event_header;
    reeling = true;
  },
)
ceres_settle r (complete h eb bytes_read) = (
  some h,
  record r {
    ring_buffer = update_event_read_pntr (update_read_pntr r.ring_buffer bytes_read);
    event_buffer = eb;
    event = start_event h;
  },
)
ceres_settle r (waiting event eb bytes_read) = (
  none,
  record r {
    ring_buffer = update_event_read_pntr (update_read_pntr r.ring_buffer bytes_read);
    event_buffer = eb;
    event = event;
  },
)

-- The words after the header, from the first piece of the ring.
unfoldable pub ceres_read_data :
    Reader CeresTrigHeader → Option CeresTrigHeader × Reader CeresTrigHeader
ceres_read_data r =
    let header = r.event.event_header in
    let is_even = header.device_number % 2 == 0 in
    let bytes_in_buffer = contiguous_readable r.ring_buffer in
    let load = λ (p : ℕ). swap32 (load32 r.ring_buffer.buffer (r.ring_buffer.read_pointer + p)) in
    ceres_settle r (
      ceres_data_loop load bytes_in_buffer header.length is_even (bytes_in_buffer / 4 + 1) 0 r.event
        r.event_buffer)

module _ (crc8 : ℕ → ℕ → ℕ) where
  -- `ceres_handle_bad_header` logs and sets `reeling`.
  unfoldable pub ceres_read_proc :
      Reader CeresTrigHeader → Option CeresTrigHeader × Reader CeresTrigHeader
  ceres_read_proc r =
      let (header_done, r) = ceres_header_loop 5 r in
      let header = r.event.event_header in
      let expected_crc = calc_ceres_header_crc crc8 header in
      let read = ceres_read_data r in
      if not header_done
      then (none, r)
      else if not (header.crc == expected_crc) || not (header.magic_number == 0xFFFFFFFF)
      then (
        none,
        record r {
          ring_buffer = update_event_read_pntr r.ring_buffer;
          event = start_event header;
          reeling = true;
        },
      )
      else if ltb event_buffer_size ((header.length + 2) * 4 * num_channels)
      then (none, record r { reeling = true })
      else read
