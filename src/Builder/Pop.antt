-- ===== src/Builder/Pop.antt =====
-- `pop32` and `find_event_start` of fakernet_code/data_builder.c: one 32-bit word off the ring, and
-- the search for the word that starts an event. The null check of `val` has no counterpart: the
-- callers pass the address of a variable.
pub mod Word
pub mod Search
pub mod Found
use fpga_tools.Prelude.{ℕ, zero, suc, ◌+◌, ◌-◌, ◌*◌, ◌/◌, ◌%◌, ◌^◌, Bool, true, false, ◌&&◌}
use fpga_tools.Prelude.{Option, none, some, if◌then◌else◌, ltb, leb, ◌==◌, bit_and, bit_or}
use fpga_tools.Prelude.{Memory, load32, swap32, u32, ◌<<<◌, ◌>>>◌}
use fpga_tools.Builder.Ring.{RingBuffer, contiguous_readable, readable}
use fpga_tools.Builder.Ring.{update_read_pntr, update_event_read_pntr}

-- `*(unsigned char*)val |= byte; *val = *val << 8;` on a little-endian host: the byte goes to the
-- lowest eight bits.
abbrev pub push_byte : ℕ → ℕ → ℕ
push_byte val byte = u32 ((val / 2 ^ 8 * 2 ^ 8 + bit_or (val % 2 ^ 8) byte) <<< 8)

-- One of the two loops of the wrapped read: `count` bytes from address `p` on.
unfoldable pub push_bytes : Memory → ℕ → ℕ → ℕ → ℕ
push_bytes m p zero val = val
push_bytes m p (suc count) val = push_bytes m (p + 1) count (push_byte val (m p))

-- `none` is the result -1: too few bytes, and nothing changes.
unfoldable pub pop32 : RingBuffer → Option (ℕ × RingBuffer)
pop32 rb =
    let contiguous_space = contiguous_readable rb in
    let total_space = readable rb in
    if ltb total_space 4
    then none
    else if leb 4 contiguous_space
    then some (swap32 (load32 rb.buffer rb.read_pointer), update_read_pntr rb 4)
    else some (
      swap32 (
          push_bytes rb.buffer 0 (4 - contiguous_space)
            (push_bytes rb.buffer rb.read_pointer contiguous_space 0)),
      update_read_pntr rb 4,
    )

-- The test of the search loop: the four bytes from `p` on against those of the word, lowest first.
unfoldable pub starts_event : Memory → ℕ → ℕ → Bool
starts_event m p event_start_word =
    (m p == bit_and event_start_word 0xFF)
    && (m (p + 1) == bit_and event_start_word 0xFF00 >>> 8)
    && (m (p + 2) == bit_and event_start_word 0xFF0000 >>> 16)
    && (m (p + 3) == bit_and event_start_word 0xFF000000 >>> 24)

-- The loop with the rounds that are left: whether the word was found, and the ring.
unfoldable pub search_loop : ℕ → ℕ → RingBuffer → Bool × RingBuffer
search_loop zero word rb = (false, rb)
search_loop (suc rounds) word rb =
    let rest = search_loop rounds word (update_read_pntr rb 1) in
    if starts_event rb.buffer rb.read_pointer word then (true, rb) else rest

-- What follows the choice of the chunk to search.
unfoldable pub search_chunk : ℕ → ℕ → RingBuffer → Bool × RingBuffer
search_chunk contiguous_space word rb =
    let (found, rb') = search_loop (contiguous_space - 3) word rb in
    (found, update_event_read_pntr (if found then rb' else update_read_pntr rb' 3))

unfoldable pub find_event_start : RingBuffer → ℕ → Bool × RingBuffer
find_event_start rb event_start_word =
    let contiguous_space = contiguous_readable rb in
    let total_space = readable rb in
    if ltb contiguous_space 4 && ltb (total_space - contiguous_space) 4
    then (false, rb)
    else if ltb contiguous_space 4
    then search_chunk (total_space - contiguous_space) event_start_word
        (update_read_pntr rb contiguous_space)
    else search_chunk contiguous_space event_start_word rb
