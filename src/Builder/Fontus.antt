-- ===== src/Builder/Fontus.antt =====
-- `fontus_read_proc` of fakernet_code/data_builder.c and what is done with a FONTUS header after it.
-- The static `event` of the function is a field of `Reader`; the mark that it is started is left out.
pub mod Copy
pub mod Bounds
pub mod Fuel
use fpga_tools.Prelude.{
  ℕ, zero, suc, ◌+◌, ◌-◌, ◌*◌, ◌/◌, ◌%◌, ◌^◌, Bool, true, false, ◌||◌, not, Option, none, some,
  List, tabulate,
}
use fpga_tools.Prelude.{
  if◌then◌else◌, ltb, leb, ◌==◌, bit_or, ◌<<<◌, swap16, swap32, swap64, load32, Memory, store8,
  store16, store32, store64,
}
use fpga_tools.Builder.Ring.{contiguous_readable, update_read_pntr, update_event_read_pntr}
use fpga_tools.Builder.Pop.{pop32}
use fpga_tools.Builder.Header.{
  FontusTrigHeader, fontus_header_size, fontus_interpret_header_word, calc_fontus_header_crc,
}
use fpga_tools.Builder.Event.{EventBuffer, EventInProgress, Reader, start_event, put_word}

-- What a waveform's header must be.
abbrev pub expectation : ℕ → ℕ
expectation channel = bit_or (bit_or 0xFF00FF00 (channel <<< 16)) channel

-- The offset of a sample of a channel; sample 0 is the waveform's header.
abbrev pub fontus_offset : ℕ → ℕ → ℕ → ℕ
fontus_offset channel_length channel sample =
    fontus_header_size + channel * ((channel_length + 1) * 4) + sample * 4

-- One word of the data; `none` is a wrong waveform header.
unfoldable pub fontus_word :
    ℕ
    → ℕ
    → EventInProgress FontusTrigHeader
    → EventBuffer
    → Option (EventInProgress FontusTrigHeader × EventBuffer)
fontus_word channel_length word event eb =
    if not event.wf_header_read
    then if not (word == expectation event.current_channel)
      then none
      else some (
        record event { wf_header_read = true; samples_read = 1 },
        put_word eb (fontus_offset channel_length event.current_channel 0) word,
      )
    else if leb event.samples_read channel_length
    then some (
      if event.samples_read == channel_length
          then record event {
            current_channel = event.current_channel + 1;
            samples_read = 0;
            wf_header_read = false;
          }
          else record event { samples_read = event.samples_read + 1 },
      put_word eb (fontus_offset channel_length event.current_channel event.samples_read) word,
    )
    else some (event, eb)

-- How the loop over the words ends: with a wrong waveform header, with a complete event, or with no
-- word left. The buffer has what was stored until then; the number is `bytes_read`.
pub data Outcome : Type 0 where
  trashed : EventBuffer → Outcome
  complete : FontusTrigHeader → EventBuffer → ℕ → Outcome
  waiting : EventInProgress FontusTrigHeader → EventBuffer → ℕ → Outcome

module _ (load : ℕ → ℕ) (bytes_in_buffer channel_length : ℕ) where
  -- `while(bytes_read <= (bytes_in_buffer-3))`, on the words that are left at most.
  unfoldable pub fontus_data_loop : ℕ → ℕ → EventInProgress FontusTrigHeader → EventBuffer → Outcome
  fontus_data_loop zero bytes_read event eb = waiting event eb bytes_read
  fontus_data_loop (suc fuel) bytes_read event eb = elim (leb (bytes_read + 3) bytes_in_buffer) [
    | false ↦ waiting event eb bytes_read
    | true ↦ elim (fontus_word channel_length (load bytes_read) event eb) [
      | none ↦ trashed eb
      | some (event', eb') ↦ elim (event'.current_channel == 4) [
        | true ↦ complete event'.event_header eb' (bytes_read + 4)
        | false ↦ fontus_data_loop fuel (bytes_read + 4) event' eb'
      ]
    ]
  ]

-- `while(event.header_bytes_read < FONTUS_HEADER_SIZE)`, on the words that are left at most: whether
-- the header is complete.
unfoldable pub fontus_header_loop : ℕ → Reader FontusTrigHeader → Bool × Reader FontusTrigHeader
fontus_header_loop zero r = (leb fontus_header_size r.event.header_bytes_read, r)
fontus_header_loop (suc fuel) r = elim (ltb r.event.header_bytes_read fontus_header_size) [
  | false ↦ (true, r)
  | true ↦ elim (pop32 r.ring_buffer) [
    | none ↦ (false, r)
    | some (val, ring) ↦ fontus_header_loop fuel (record r {
      ring_buffer = ring;
      event_buffer = put_word r.event_buffer r.event_buffer.num_bytes val;
      event = record (r.event) {
        event_header =
            fontus_interpret_header_word r.event.event_header val (r.event.header_bytes_read / 4);
        header_bytes_read = r.event.header_bytes_read + 4;
      };
    })
  ]
]

-- What the end of the loop leaves: the result is the event's header if the event is complete.
unfoldable pub fontus_settle :
    Reader FontusTrigHeader → Outcome → Option FontusTrigHeader × Reader FontusTrigHeader
fontus_settle r (trashed eb) = (
  none,
  record r {
    event_buffer = record eb { num_bytes = 0 };
    event = start_event r.event.event_header;
    reeling = true;
  },
)
fontus_settle r (complete h eb bytes_read) = (
  some h,
  record r {
    ring_buffer = update_event_read_pntr (update_read_pntr r.ring_buffer bytes_read);
    event_buffer = eb;
    event = start_event h;
  },
)
fontus_settle r (waiting event eb bytes_read) = (
  none,
  record r {
    ring_buffer = update_event_read_pntr (update_read_pntr r.ring_buffer bytes_read);
    event_buffer = eb;
    event = event;
  },
)

-- The words after the header, from the first piece of the ring.
unfoldable pub fontus_read_data :
    Reader FontusTrigHeader → Option FontusTrigHeader × Reader FontusTrigHeader
fontus_read_data r =
    let header = r.event.event_header in
    let bytes_in_buffer = contiguous_readable r.ring_buffer in
    let load = λ (p : ℕ). swap32 (load32 r.ring_buffer.buffer (r.ring_buffer.read_pointer + p)) in
    fontus_settle r (
      fontus_data_loop load bytes_in_buffer header.length (bytes_in_buffer / 4 + 1) 0 r.event
        r.event_buffer)

module _ (crc32 : ℕ → List ℕ → ℕ) (stack : Memory) where
  -- `fontus_handle_bad_header` logs and sets `reeling`. The buffer of the CRC stands on the stack.
  unfoldable pub fontus_read_proc :
      Reader FontusTrigHeader → Option FontusTrigHeader × Reader FontusTrigHeader
  fontus_read_proc r =
      let (header_done, r) = fontus_header_loop 13 r in
      let header = r.event.event_header in
      let calcd_crc = calc_fontus_header_crc crc32 header stack in
      let read = fontus_read_data r in
      if not header_done
      then (none, r)
      else if not (header.crc == calcd_crc) || not (header.magic_number == 0xF00FF00F)
      then (
        none,
        record r {
          ring_buffer = update_event_read_pntr r.ring_buffer;
          event = start_event header;
          reeling = true;
        },
      )
      else read

-- The buffer that `fontus_publish_event` sends, over memory with any contents.
unfoldable pub fontus_publish_buffer : FontusTrigHeader → Memory → Memory
unfolding store8 store16 store32 store64
fontus_publish_buffer h m =
    let m = store32 m 0 (swap32 h.magic_number) in
    let m = store32 m 4 (swap32 h.trig_number) in
    let m = store64 m 8 (swap64 h.clock) in
    let m = store16 m 16 (swap16 h.length) in
    let m = store8 m 18 h.device_number in
    let m = store8 m 19 h.trigger_flags in
    let m = store32 m 20 (swap32 h.self_trigger_word) in
    let m = store64 m 24 (swap64 h.beam_trigger_time) in
    let m = store64 m 32 (swap64 h.led_trigger_time) in
    let m = store64 m 40 (swap64 h.ct_time) in store32 m 48 (swap32 h.crc)

-- What `fontus_publish_event` publishes on each of its two streams, `event_stream` and `header_stream`.
unfoldable pub fontus_publish_event : FontusTrigHeader → Memory → List ℕ × List ℕ
unfolding fontus_publish_buffer
fontus_publish_event h m = (
  tabulate fontus_header_size (fontus_publish_buffer h m),
  tabulate fontus_header_size (fontus_publish_buffer h m),
)
