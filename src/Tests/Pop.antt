-- ===== src/Tests/Pop.antt =====
-- Words and searches on small rings.
use fpga_tools.Prelude.{
  ℕ, ◌+◌, ◌-◌, ◌≤◌, ◌<◌, ◌≡◌, refl, true, false, arith, some, be32, leb, if◌then◌else◌, swap32,
}
use fpga_tools.Builder.Ring.{
  RingBuffer, buffer_size, readable, contiguous_readable, update_read_pntr,
}
use fpga_tools.Builder.Ring.Inv.{IsValid}
use fpga_tools.Builder.Pop.{pop32, starts_event, search_loop, search_chunk, find_event_start}
use fpga_tools.Builder.Pop.Word.{IsBytes, unread_byte, pop32_wrapped}
use fpga_tools.Builder.Pop.Found.{find_event_start_found, find_event_start-pop32}
use fpga_tools.Tests.Ring.{ring}

-- A ring whose word runs round the end of the buffer.
abbrev wrapping_ring : RingBuffer
wrapping_ring = record ring { event_read_pointer = buffer_size - 2; read_pointer = buffer_size - 2 }

wrapping_ring-IsValid : IsValid wrapping_ring
wrapping_ring-IsValid = record {
  event_in = omega arith;
  read_in = omega arith;
  write_in = omega arith;
  rewound_if_empty = λ e. absurd (ground arith);
  read_between = λ e. omega arith;
}

-- A ring with the magic number of CERES at its sixteenth byte.
abbrev marked_ring : RingBuffer
marked_ring = record ring { buffer = λ (i : ℕ). if leb 16 i then 255 else 1 }

marked_ring-IsValid : IsValid marked_ring
marked_ring-IsValid = record {
  event_in = omega arith;
  read_in = omega arith;
  write_in = omega arith;
  rewound_if_empty = λ e. absurd (ground arith);
  read_between = λ e. omega arith;
}

ring-IsBytes : IsBytes ring.buffer
ring-IsBytes p = omega arith

marked_ring-IsBytes : IsBytes marked_ring.buffer
marked_ring-IsBytes p = ground arith

marked_ring-contiguous : (contiguous_readable marked_ring ≡ 18) × (readable marked_ring ≡ 18)
unfolding contiguous_readable readable
marked_ring-contiguous = (refl, refl)

wrapping_ring-contiguous : (contiguous_readable wrapping_ring ≡ 2) × (readable wrapping_ring ≡ 32)
unfolding contiguous_readable readable
wrapping_ring-contiguous = (refl, refl)

found : (find_event_start marked_ring 0xFFFFFFFF).0 ≡ true
unfolding find_event_start search_chunk search_loop starts_event contiguous_readable readable
    update_read_pntr
found = refl

pop32_wrapped_example :
    pop32 wrapping_ring
    ≡ some (
      be32 0
          (unread_byte wrapping_ring 3)
          (unread_byte wrapping_ring 2)
          (unread_byte wrapping_ring 1),
      update_read_pntr wrapping_ring 4,
    )
pop32_wrapped_example =
    pop32_wrapped wrapping_ring wrapping_ring-IsValid ring-IsBytes
      (omega (arith, wrapping_ring-contiguous.0)) (omega (arith, wrapping_ring-contiguous.1))

find_event_start_found_example :
    let rb' = (find_event_start marked_ring 0xFFFFFFFF).1 in
    (i : ℕ) × (i + 4 ≤ contiguous_readable marked_ring)
    × (starts_event marked_ring.buffer (12 + i) 0xFFFFFFFF ≡ true)
    × ((j : ℕ) → j < i → starts_event marked_ring.buffer (12 + j) 0xFFFFFFFF ≡ false)
    × IsValid rb'
    × (rb'.buffer ≡ marked_ring.buffer)
    × (rb'.read_pointer ≡ 12 + i)
    × (rb'.event_read_pointer ≡ 12 + i)
    × (readable rb' + i ≡ readable marked_ring)
    × (contiguous_readable rb' + i ≡ contiguous_readable marked_ring)
find_event_start_found_example =
    find_event_start_found marked_ring 0xFFFFFFFF marked_ring-IsValid
      (omega (arith, marked_ring-contiguous.0)) (omega (arith, marked_ring-contiguous.1)) found

find_event_start-pop32_example :
    let rb' = (find_event_start marked_ring 0xFFFFFFFF).1 in
    pop32 rb' ≡ some (swap32 0xFFFFFFFF, update_read_pntr rb' 4)
find_event_start-pop32_example =
    find_event_start-pop32 marked_ring 0xFFFFFFFF marked_ring-IsValid marked_ring-IsBytes
      (omega arith) (omega (arith, marked_ring-contiguous.0))
      (omega (arith, marked_ring-contiguous.1)) found
