-- ===== src/Builder/Main/Readers/FontusReads.antt =====
-- The FONTUS reader keeps what the main loop relies on.
use fpga_tools.Prelude.{
  ℕ, zero, suc, ◌+◌, ◌/◌, ◌≡◌, ◌⊎◌, inl, inr, refl, Bool, true, false, arith, none, some,
  Option-cases, Bool-cases, List, Memory, ltb,
}
use fpga_tools.Builder.Ring.{RingBuffer}
use fpga_tools.Builder.Ring.Inv.{IsValid, update_read_pntr-IsValid, update_event_read_pntr-IsValid}
use fpga_tools.Builder.Pop.{pop32}
use fpga_tools.Builder.Header.{FontusTrigHeader, fontus_interpret_header_word}
use fpga_tools.Builder.Event.{Reader, put_word}
use fpga_tools.Builder.Fontus
use fpga_tools.Builder.Fontus.{
  fontus_header_loop, fontus_settle, fontus_read_data, fontus_read_proc,
}
use fpga_tools.Builder.Main.Readers.{pop32-IsValid, Keeps, Reads}

module _ (fuel : ℕ) (r : Reader FontusTrigHeader) where
  header_loop_done :
      ltb r.event.header_bytes_read 52 ≡ false → fontus_header_loop (suc fuel) r ≡ (true, r)
  unfolding fontus_header_loop
  header_loop_done done = ground arith

  header_loop_dry :
      ltb r.event.header_bytes_read 52 ≡ true
      → pop32 r.ring_buffer ≡ none
      → fontus_header_loop (suc fuel) r ≡ (false, r)
  unfolding fontus_header_loop
  header_loop_dry more dry = ground arith

  -- The reader with one more header word.
  abbrev with_word : ℕ → RingBuffer → Reader FontusTrigHeader
  with_word val ring = record r {
    ring_buffer = ring;
    event_buffer = put_word r.event_buffer r.event_buffer.num_bytes val;
    event = record (r.event) {
      event_header =
          fontus_interpret_header_word r.event.event_header val (r.event.header_bytes_read / 4);
      header_bytes_read = r.event.header_bytes_read + 4;
    };
  }

  header_loop_more :
      (val : ℕ) (ring : RingBuffer)
      → ltb r.event.header_bytes_read 52 ≡ true
      → pop32 r.ring_buffer ≡ some (val, ring)
      → fontus_header_loop (suc fuel) r ≡ fontus_header_loop fuel (with_word val ring)
  unfolding fontus_header_loop
  header_loop_more val ring more got = ground arith

fontus_header_loop-Keeps :
    (fuel : ℕ) (r : Reader FontusTrigHeader) → Keeps r (fontus_header_loop fuel r).1
unfolding fontus_header_loop
fontus_header_loop-Keeps zero r = (λ v. v, refl)
fontus_header_loop-Keeps (suc fuel) r = elim (Bool-cases (ltb r.event.header_bytes_read 52)) [
  | inl more ↦ elim (Option-cases (pop32 r.ring_buffer)) [
    | inl dry ↦ rw (header_loop_dry fuel r more dry) (λ v. v, refl)
    | inr (popped, got) ↦ rw (header_loop_more fuel r popped.0 popped.1 more got) (
        let rest = fontus_header_loop-Keeps fuel (with_word fuel r popped.0 popped.1) in
        (λ v. rest.0 (pop32-IsValid r.ring_buffer v got), rest.1))
  ]
  | inr done ↦ rw (header_loop_done fuel r done) (λ v. v, refl)
]

fontus_settle-IsValid :
    (r : Reader FontusTrigHeader) (o : Fontus.Outcome)
    → IsValid r.ring_buffer
    → IsValid (fontus_settle r o).1.ring_buffer
unfolding fontus_settle
fontus_settle-IsValid r (Fontus.trashed eb) v = v
fontus_settle-IsValid r (Fontus.complete h eb n) v =
    update_event_read_pntr-IsValid (update_read_pntr-IsValid n v)
fontus_settle-IsValid r (Fontus.waiting ev eb n) v =
    update_event_read_pntr-IsValid (update_read_pntr-IsValid n v)

fontus_settle-some :
    (r : Reader FontusTrigHeader) (o : Fontus.Outcome)
    → ((fontus_settle r o).0 ≡ none) ⊎ ((fontus_settle r o).1.reeling ≡ r.reeling)
unfolding fontus_settle
fontus_settle-some r (Fontus.trashed eb) = inl refl
fontus_settle-some r (Fontus.complete h eb n) = inr refl
fontus_settle-some r (Fontus.waiting ev eb n) = inl refl

fontus_read_data-Reads : (r : Reader FontusTrigHeader) → Reads r (fontus_read_data r)
unfolding fontus_read_data
fontus_read_data-Reads r = record {
  ring = fontus_settle-IsValid r _;
  calm = fontus_settle-some r _;
}

-- `fontus_read_proc` keeps a valid ring valid on every path, and a call that yields an event does not
-- change `reeling`.
pub fontus_read_proc-Reads :
    (crc32 : ℕ → List ℕ → ℕ) (stack : Memory) (r : Reader FontusTrigHeader)
    → Reads r (fontus_read_proc crc32 stack r)
unfolding fontus_read_proc
fontus_read_proc-Reads crc32 stack r = record {
  ring = λ v.
      ground (
        arith,
        header.0 v,
        update_event_read_pntr-IsValid (header.0 v),
        data_read.ring (header.0 v),
      );
  calm = ground (arith, header.1, data_read.calm);
}
  where
    out : Bool × Reader FontusTrigHeader
    out = fontus_header_loop 13 r

    header : Keeps r out.1
    header = fontus_header_loop-Keeps 13 r

    data_read : Reads out.1 (fontus_read_data out.1)
    data_read = fontus_read_data-Reads out.1
