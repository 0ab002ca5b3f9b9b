-- ===== src/Builder/Main/Readers.antt =====
-- What the two readers and the search leave of the ring and of `reeling`.
pub mod FontusReads
use fpga_tools.Prelude.{
  ℕ, zero, suc, ◌+◌, ◌-◌, ◌<◌, ◌≤◌, ◌≡◌, ◌⊎◌, inl, inr, refl, ap, ◌∙◌, sym, Bool, true, false, not,
  arith, Option, none, some, Option-cases, Bool-cases, List, Memory, if◌then◌else◌, ltb, leb, ◌==◌,
}
use fpga_tools.Builder.Ring.{
  RingBuffer, contiguous_readable, readable, update_read_pntr, update_event_read_pntr,
}
use fpga_tools.Builder.Ring.Inv.{IsValid, update_read_pntr-IsValid, update_event_read_pntr-IsValid}
use fpga_tools.Builder.Pop.{pop32, search_loop, search_chunk, find_event_start, starts_event}
use fpga_tools.Builder.Header.{CeresTrigHeader, FontusTrigHeader, fontus_interpret_header_word}
use fpga_tools.Builder.Event.{Reader, put_word}
use fpga_tools.Builder.Ceres
use fpga_tools.Builder.Ceres.{ceres_header_loop, ceres_settle, ceres_read_data, ceres_read_proc}
use fpga_tools.Builder.Ceres.Trash.{header_loop_done, header_loop_dry, header_loop_more, with_word}
use fpga_tools.Builder.Fontus
use fpga_tools.Builder.Fontus.{
  fontus_header_loop, fontus_settle, fontus_read_data, fontus_read_proc,
}

pub pop32-IsValid :
    (rb : RingBuffer) {val : ℕ} {rb' : RingBuffer}
    → IsValid rb
    → pop32 rb ≡ some (val, rb')
    → IsValid rb'
unfolding pop32
pop32-IsValid rb v e = ground (arith, update_read_pntr-IsValid {rb = rb} 4 v)

search_loop-IsValid :
    (rounds word : ℕ) (rb : RingBuffer) → IsValid rb → IsValid (search_loop rounds word rb).1
unfolding search_loop
search_loop-IsValid zero word rb v = v
search_loop-IsValid (suc rounds) word rb v =
    ground (
      arith,
      search_loop-IsValid rounds word (update_read_pntr rb 1) (update_read_pntr-IsValid 1 v),
    )

search_chunk-IsValid :
    (space word : ℕ) (rb : RingBuffer) → IsValid rb → IsValid (search_chunk space word rb).1
unfolding search_chunk
search_chunk-IsValid space word rb v = elim (Bool-cases out.0) [
  | inl found ↦ simp found (update_event_read_pntr-IsValid searched)
  | inr missed ↦ simp missed (update_event_read_pntr-IsValid (update_read_pntr-IsValid 3 searched))
]
  where
    out : Bool × RingBuffer
    out = search_loop (space - 3) word rb

    searched : IsValid out.1
    searched = search_loop-IsValid (space - 3) word rb v

-- `find_event_start` keeps a valid ring valid, on every branch.
pub find_event_start-IsValid :
    (rb : RingBuffer) (word : ℕ) → IsValid rb → IsValid (find_event_start rb word).1
unfolding find_event_start
find_event_start-IsValid rb word v = ground (
  arith,
  search_chunk-IsValid (contiguous_readable rb) word rb v,
  search_chunk-IsValid (readable rb - contiguous_readable rb) word
      (update_read_pntr rb (contiguous_readable rb)) (update_read_pntr-IsValid _ v),
)

-- What a step of a reader keeps: a valid ring, and `reeling` as it was.
abbrev pub Keeps : {H : Type 0} → Reader H → Reader H → Type 0
Keeps r r' = (IsValid r.ring_buffer → IsValid r'.ring_buffer) × (r'.reeling ≡ r.reeling)

ceres_header_loop-Keeps :
    (fuel : ℕ) (r : Reader CeresTrigHeader) → Keeps r (ceres_header_loop fuel r).1
unfolding ceres_header_loop
ceres_header_loop-Keeps zero r = (λ v. v, refl)
ceres_header_loop-Keeps (suc fuel) r = elim (Bool-cases (ltb r.event.header_bytes_read 20)) [
  | inl more ↦ elim (Option-cases (pop32 r.ring_buffer)) [
    | inl dry ↦ rw (header_loop_dry fuel r more dry) (λ v. v, refl)
    | inr (popped, got) ↦ rw (header_loop_more fuel r popped.0 popped.1 more got) (
        let rest = ceres_header_loop-Keeps fuel (with_word fuel r popped.0 popped.1) in
        (λ v. rest.0 (pop32-IsValid r.ring_buffer v got), rest.1))
  ]
  | inr done ↦ rw (header_loop_done fuel r done) (λ v. v, refl)
]

ceres_settle-IsValid :
    (r : Reader CeresTrigHeader) (o : Ceres.Outcome)
    → IsValid r.ring_buffer
    → IsValid (ceres_settle r o).1.ring_buffer
unfolding ceres_settle
ceres_settle-IsValid r (Ceres.trashed eb) v = v
ceres_settle-IsValid r (Ceres.complete h eb n) v =
    update_event_read_pntr-IsValid (update_read_pntr-IsValid n v)
ceres_settle-IsValid r (Ceres.waiting ev eb n) v =
    update_event_read_pntr-IsValid (update_read_pntr-IsValid n v)

ceres_settle-some :
    (r : Reader CeresTrigHeader) (o : Ceres.Outcome)
    → ((ceres_settle r o).0 ≡ none) ⊎ ((ceres_settle r o).1.reeling ≡ r.reeling)
unfolding ceres_settle
ceres_settle-some r (Ceres.trashed eb) = inl refl
ceres_settle-some r (Ceres.complete h eb n) = inr refl
ceres_settle-some r (Ceres.waiting ev eb n) = inl refl

-- What the caller of a reader relies on: a valid ring stays valid, and a call that yields an event
-- leaves `reeling` as it was.
pub record Reads {H : Type 0} (r : Reader H) (out : Option H × Reader H) : Type 0 where
  pub ring : IsValid r.ring_buffer → IsValid out.1.ring_buffer
  pub calm : (out.0 ≡ none) ⊎ (out.1.reeling ≡ r.reeling)

ceres_read_data-Reads : (r : Reader CeresTrigHeader) → Reads r (ceres_read_data r)
unfolding ceres_read_data
ceres_read_data-Reads r = record { ring = ceres_settle-IsValid r _; calm = ceres_settle-some r _ }

-- `ceres_read_proc` keeps a valid ring valid on every path, and a call that yields an event does not
-- change `reeling`.
pub ceres_read_proc-Reads :
    (crc8 : ℕ → ℕ → ℕ) (r : Reader CeresTrigHeader) → Reads r (ceres_read_proc crc8 r)
unfolding ceres_read_proc
ceres_read_proc-Reads crc8 r = record {
  ring = λ v.
      ground (
        arith,
        header.0 v,
        update_event_read_pntr-IsValid (header.0 v),
        data_read.ring (header.0 v),
      );
  calm = ground (arith, header.1, data_read.calm);
}
  where
    out : Bool × Reader CeresTrigHeader
    out = ceres_header_loop 5 r

    header : Keeps r out.1
    header = ceres_header_loop-Keeps 5 r

    data_read : Reads out.1 (ceres_read_data out.1)
    data_read = ceres_read_data-Reads out.1
