-- ===== src/Builder/Ring.antt =====
-- The ring buffer of fakernet_code/data_builder.c: one write pointer and two read pointers.
-- A function that updates `*ring_buffer` returns the new ring beside its result. Messages to the
-- log are left out. `size_t` arithmetic does not wrap here: every operand is at most `2 * BUFFER_SIZE`.
pub mod Inv
pub mod Refine
use fpga_tools.Prelude.{ℕ, ◌+◌, ◌-◌, ◌*◌, Bool, true, false, ◌&&◌, Option, none, some}
use fpga_tools.Prelude.{if◌then◌else◌, ltb, leb, ◌==◌, List, length, Memory, store_bytes}

-- `BUFFER_SIZE`
abbrev pub buffer_size : ℕ
buffer_size = 10 * 1024 * 1024

-- `RingBuffer`
pub record RingBuffer : Type 0 where
  pub buffer : Memory
  pub event_read_pointer : ℕ
  pub read_pointer : ℕ
  pub write_pointer : ℕ
  pub is_empty : Bool

-- The contents of fresh memory are the argument; a failing allocation ends the program.
unfoldable pub initialize_ring_buffer : Memory → RingBuffer
initialize_ring_buffer mem = record {
  buffer = mem;
  event_read_pointer = 0;
  read_pointer = 0;
  write_pointer = 0;
  is_empty = true;
}

-- What both functions on the space available do to an empty ring.
abbrev pub rewound : RingBuffer → RingBuffer
rewound rb = record rb { event_read_pointer = 0; read_pointer = 0; write_pointer = 0 }

unfoldable pub contiguous_space_available : RingBuffer → ℕ × RingBuffer
contiguous_space_available rb =
    if rb.is_empty
    then (buffer_size, rewound rb)
    else if rb.write_pointer == rb.event_read_pointer
    then (0, rb)
    else if ltb rb.write_pointer rb.event_read_pointer
    then (rb.event_read_pointer - rb.write_pointer, rb)
    else (buffer_size - rb.write_pointer, rb)

unfoldable pub space_available : RingBuffer → ℕ × RingBuffer
space_available rb =
    if rb.is_empty
    then (buffer_size, rewound rb)
    else if rb.write_pointer == rb.event_read_pointer
    then (0, rb)
    else if ltb rb.write_pointer rb.event_read_pointer
    then (rb.write_pointer + (buffer_size - rb.event_read_pointer), rb)
    else (rb.write_pointer - rb.event_read_pointer, rb)

unfoldable pub contiguous_readable : RingBuffer → ℕ
contiguous_readable rb =
    if rb.is_empty
    then 0
    else if rb.read_pointer == rb.write_pointer && rb.event_read_pointer == rb.write_pointer
    then buffer_size - rb.read_pointer
    else if rb.read_pointer == rb.write_pointer
    then 0
    else if ltb rb.write_pointer rb.read_pointer
    then buffer_size - rb.read_pointer
    else rb.write_pointer - rb.read_pointer

unfoldable pub readable : RingBuffer → ℕ
readable rb =
    if rb.is_empty
    then 0
    else if rb.read_pointer == rb.write_pointer && rb.event_read_pointer == rb.write_pointer
    then buffer_size
    else if rb.read_pointer == rb.write_pointer
    then 0
    else if ltb rb.write_pointer rb.read_pointer
    then rb.write_pointer + (buffer_size - rb.read_pointer)
    else rb.write_pointer - rb.read_pointer

-- "Do the wrap if need be", after a write: the ring is not empty any more.
wrap_write_pointer : RingBuffer → RingBuffer
wrap_write_pointer rb = record rb {
  write_pointer = if rb.write_pointer == buffer_size then 0 else rb.write_pointer;
  is_empty = false;
}

unfoldable pub update_write_pntr : RingBuffer → ℕ → RingBuffer
unfolding contiguous_space_available space_available wrap_write_pointer
update_write_pntr rb nbytes =
    if nbytes == 0
    then rb
    else let (contiguous, rb₁) = contiguous_space_available rb in
      let (space, rb₂) = space_available rb₁ in
      if leb nbytes contiguous
      then wrap_write_pointer (record rb₁ { write_pointer = rb₁.write_pointer + nbytes })
      else if leb nbytes space
      then wrap_write_pointer
          (record rb₂ { write_pointer = nbytes - (buffer_size - rb₂.write_pointer) })
      else wrap_write_pointer rb₂

unfoldable pub update_event_read_pntr : RingBuffer → RingBuffer
update_event_read_pntr rb =
    if rb.read_pointer == rb.write_pointer
    then record rb { event_read_pointer = 0; read_pointer = 0; write_pointer = 0; is_empty = true }
    else record rb { event_read_pointer = rb.read_pointer }

-- "Handle the exact wrap case", after a read.
wrap_read_pointer : RingBuffer → RingBuffer
wrap_read_pointer rb = record rb {
  read_pointer = if rb.read_pointer == buffer_size then 0 else rb.read_pointer;
}

unfoldable pub update_read_pntr : RingBuffer → ℕ → RingBuffer
unfolding contiguous_readable readable wrap_read_pointer
update_read_pntr rb nbytes =
    if nbytes == 0
    then rb
    else if leb nbytes (contiguous_readable rb)
    then wrap_read_pointer (record rb { read_pointer = rb.read_pointer + nbytes })
    else if leb nbytes (readable rb)
    then wrap_read_pointer (record rb { read_pointer = nbytes - (buffer_size - rb.read_pointer) })
    else wrap_read_pointer rb

-- `recvmsg` is given the room it may fill and returns what it received, or `none` on an error.
-- The write address is read before the ring is asked for room, as in the source.
unfoldable pub pull_from_fpga : (ℕ → Option (List ℕ)) → RingBuffer → ℕ × RingBuffer
pull_from_fpga recvmsg rb =
    let w_buffer_idx = rb.write_pointer in
    let (contiguous_space_left, rb₁) = contiguous_space_available rb in
    if contiguous_space_left == 0 then (0, rb₁) else elim (recvmsg contiguous_space_left) [
      | none ↦ (0, rb₁)
      | some bytes ↦ (
        length bytes,
        update_write_pntr (record rb₁ { buffer = store_bytes rb₁.buffer w_buffer_idx bytes })
            (length bytes),
      )
    ]
