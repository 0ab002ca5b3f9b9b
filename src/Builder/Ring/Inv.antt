-- ===== src/Builder/Ring/Inv.antt =====
-- The representation invariant of `RingBuffer`, what its size functions return, and that every
-- operation keeps it.
use fpga_tools.Prelude.{ℕ, ◌+◌, ◌-◌, ◌%◌, ◌≤◌, ◌<◌, ◌≡◌, true, false, arith}
use fpga_tools.Prelude.{if◌then◌else◌, ◌==◌}
use fpga_tools.Prelude.{◌≢◌, ◌⊎◌}
use fpga_tools.Builder.Ring.{
  contiguous_space_available, space_available, update_write_pntr, update_event_read_pntr,
}
use fpga_tools.Builder.Ring.{RingBuffer, buffer_size}
use fpga_tools.Builder.Ring.{contiguous_readable, readable}
use fpga_tools.Builder.Ring.{update_read_pntr}

-- The bytes between the event read pointer and the write pointer.
abbrev pub held : RingBuffer → ℕ
held rb =
    if rb.is_empty
    then 0
    else if rb.write_pointer == rb.event_read_pointer
    then buffer_size
    else (rb.write_pointer + buffer_size - rb.event_read_pointer) % buffer_size

-- The bytes that are read, but not given back.
abbrev pub kept : RingBuffer → ℕ
kept rb = (rb.read_pointer + buffer_size - rb.event_read_pointer) % buffer_size

-- Pointers are in range, an empty ring starts at 0, and the read pointer lies between the two others.
pub record IsValid (rb : RingBuffer) : Type 0 where
  pub event_in : rb.event_read_pointer < buffer_size
  pub read_in : rb.read_pointer < buffer_size
  pub write_in : rb.write_pointer < buffer_size
  pub rewound_if_empty :
      rb.is_empty ≡ true
      → (rb.event_read_pointer ≡ 0) × (rb.read_pointer ≡ 0) × (rb.write_pointer ≡ 0)
  pub read_between : rb.is_empty ≡ false → kept rb ≤ held rb

-- `readable` is what is held less what is kept.
pub readable-eq : {rb : RingBuffer} → IsValid rb → readable rb + kept rb ≡ held rb
unfolding readable
readable-eq {rb} v = ground arith

pub contiguous_readable-le :
    {rb : RingBuffer}
    → IsValid rb
    → (contiguous_readable rb ≤ readable rb)
      × (rb.read_pointer + contiguous_readable rb ≤ buffer_size)
unfolding readable contiguous_readable
contiguous_readable-le {rb} v = ground arith

-- The first piece is empty only if there is nothing to read, and otherwise ends at the write
-- pointer or at the end of the buffer.
pub contiguous_readable_cases :
    (rb : RingBuffer)
    → IsValid rb
    → (0 < readable rb → 0 < contiguous_readable rb)
      × (contiguous_readable rb < readable rb
          → rb.read_pointer + contiguous_readable rb ≡ buffer_size)
unfolding readable contiguous_readable
contiguous_readable_cases rb v = (λ h. ground arith, λ h. ground arith)

pub update_read_pntr-IsValid :
    {rb : RingBuffer} (n : ℕ) → IsValid rb → IsValid (update_read_pntr rb n)
unfolding update_read_pntr
update_read_pntr-IsValid {rb} n v = ground arith

pub update_read_pntr-same :
    (rb : RingBuffer) (n : ℕ)
    → let rb' = update_read_pntr rb n in
      (rb'.buffer ≡ rb.buffer)
      × (rb'.event_read_pointer ≡ rb.event_read_pointer)
      × (rb'.write_pointer ≡ rb.write_pointer)
      × (rb'.is_empty ≡ rb.is_empty)
unfolding update_read_pntr
update_read_pntr-same rb n = ground arith

held-update_read_pntr : (rb : RingBuffer) (n : ℕ) → held (update_read_pntr rb n) ≡ held rb
held-update_read_pntr rb n = ground (arith, update_read_pntr-same rb n)

read_pointer-update_read_pntr :
    (rb : RingBuffer) (n : ℕ)
    → IsValid rb
    → n ≤ readable rb
    → (update_read_pntr rb n).read_pointer ≡ (rb.read_pointer + n) % buffer_size
unfolding update_read_pntr
read_pointer-update_read_pntr rb n v h = ground arith

-- What an update by at most the readable bytes does, short of coming round to the event read pointer.
pub update_read_pntr_lem :
    (rb : RingBuffer) (n : ℕ)
    → IsValid rb
    → n ≤ readable rb
    → n + kept rb < buffer_size
    → let rb' = update_read_pntr rb n in
      (rb'.read_pointer ≡ (rb.read_pointer + n) % buffer_size)
      × (readable rb' + n ≡ readable rb)
      × (kept rb' ≡ kept rb + n)
update_read_pntr_lem rb n v h small = (moved, less, more)
  where
    moved : (update_read_pntr rb n).read_pointer ≡ (rb.read_pointer + n) % buffer_size
    moved = read_pointer-update_read_pntr rb n v h

    more : kept (update_read_pntr rb n) ≡ kept rb + n
    more = omega (arith, moved, update_read_pntr-same rb n, v)

    less : readable (update_read_pntr rb n) + n ≡ readable rb
    less = omega (
      arith,
      more,
      readable-eq v,
      readable-eq (update_read_pntr-IsValid n v),
      held-update_read_pntr rb n,
    )

pub update_event_read_pntr-IsValid :
    {rb : RingBuffer} → IsValid rb → IsValid (update_event_read_pntr rb)
unfolding update_event_read_pntr
update_event_read_pntr-IsValid {rb} v = ground arith

-- Giving back the bytes read leaves the unread ones, unless the ring is full of unread bytes.
pub update_event_read_pntr_lem :
    (rb : RingBuffer)
    → IsValid rb
    → readable rb < buffer_size
    → let rb' = update_event_read_pntr rb in
      (readable rb' ≡ readable rb)
      × (kept rb' ≡ 0)
      × (rb'.buffer ≡ rb.buffer)
      × ((readable rb ≡ 0) ⊎ (rb'.read_pointer ≡ rb.read_pointer))
unfolding update_event_read_pntr readable
update_event_read_pntr_lem rb v h = ground arith

-- The room on offer is free: what is held and the room fit the buffer, and the room does not
-- run past the end of the buffer.
pub contiguous_space_available_lem :
    (rb : RingBuffer)
    → IsValid rb
    → let (room, rb') = contiguous_space_available rb in
      (room + held rb ≤ buffer_size) × (rb.write_pointer + room ≤ buffer_size) × (rb' ≡ rb)
unfolding contiguous_space_available
contiguous_space_available_lem rb v = ground arith

pub update_write_pntr-IsValid :
    {rb : RingBuffer} (n : ℕ)
    → IsValid rb
    → n ≤ (contiguous_space_available rb).0
    → IsValid (update_write_pntr rb n)
unfolding update_write_pntr
update_write_pntr-IsValid {rb} n v h = ground arith

pub update_write_pntr-same :
    (rb : RingBuffer) (n : ℕ)
    → IsValid rb
    → let rb' = update_write_pntr rb n in
      (rb'.read_pointer ≡ rb.read_pointer)
      × (rb'.event_read_pointer ≡ rb.event_read_pointer)
      × (rb'.buffer ≡ rb.buffer)
unfolding update_write_pntr
update_write_pntr-same rb n v = ground arith

pub held-update_write_pntr :
    (rb : RingBuffer) (n : ℕ)
    → IsValid rb
    → n ≤ (contiguous_space_available rb).0
    → held (update_write_pntr rb n) ≡ held rb + n
unfolding update_write_pntr
held-update_write_pntr rb n v h = ground arith

pub update_write_pntr_lem :
    (rb : RingBuffer) (n : ℕ)
    → IsValid rb
    → n ≤ (contiguous_space_available rb).0
    → let rb' = update_write_pntr rb n in
      (readable rb' ≡ readable rb + n)
      × (kept rb' ≡ kept rb)
      × (rb'.read_pointer ≡ rb.read_pointer)
      × (rb'.event_read_pointer ≡ rb.event_read_pointer)
update_write_pntr_lem rb n v h = omega (
  arith,
  update_write_pntr-same rb n v,
  held-update_write_pntr rb n v h,
  readable-eq v,
  readable-eq (update_write_pntr-IsValid n v h),
)

-- On a valid ring that is neither empty nor full, ring_buffer_space_available returns the bytes
-- held, not the room left.
pub space_available-eq-held :
    (rb : RingBuffer)
    → IsValid rb
    → rb.is_empty ≡ false
    → rb.write_pointer ≢ rb.event_read_pointer
    → (space_available rb).0 ≡ held rb
unfolding space_available
space_available-eq-held rb v h ne = ground arith
