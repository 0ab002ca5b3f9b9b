-- ===== src/Tests/Ring.antt =====
-- Rings at work: one that is half full, one full of unread bytes, and one that wraps.
use fpga_tools.Prelude.{
  ℕ, zero, suc, ◌%◌, ◌≤◌, ◌≡◌, refl, false, arith, Option, some, List, [], ◌∷◌, length,
}
use fpga_tools.Builder.Stream
use fpga_tools.Builder.Ring.{RingBuffer, readable, update_read_pntr, pull_from_fpga}
use fpga_tools.Builder.Ring.Inv.{IsValid}
use fpga_tools.Builder.Ring.Refine.{view, arrived, update_read_pntr_refines, pull_from_fpga_refines}

-- Two bytes kept, eighteen unread.
abbrev pub ring : RingBuffer
ring = record {
  buffer = λ (i : ℕ). i % 256;
  event_read_pointer = 10;
  read_pointer = 12;
  write_pointer = 30;
  is_empty = false;
}

pub ring-IsValid : IsValid ring
ring-IsValid = record {
  event_in = omega arith;
  read_in = omega arith;
  write_in = omega arith;
  rewound_if_empty = λ e. absurd (ground arith);
  read_between = λ e. omega arith;
}

ring-readable : readable ring ≡ 18
unfolding readable
ring-readable = refl

-- Two bytes arrive, if there is room for them.
abbrev two_bytes : ℕ → Option (List ℕ)
two_bytes zero = some []
two_bytes (suc zero) = some (7 ∷ [])
two_bytes (suc (suc n)) = some (7 ∷ 8 ∷ [])

two_bytes-le : (n : ℕ) (bytes : List ℕ) → two_bytes n ≡ some bytes → length bytes ≤ n
two_bytes-le zero bytes e = ground arith
two_bytes-le (suc zero) bytes e = ground arith
two_bytes-le (suc (suc n)) bytes e = ground arith

pull_from_fpga_refines_example :
    let (count, ring') = pull_from_fpga two_bytes ring in
    (count ≡ length (arrived two_bytes ring))
    × IsValid ring'
    × (view ring' ≡ Stream.receive (arrived two_bytes ring) (view ring))
pull_from_fpga_refines_example = pull_from_fpga_refines two_bytes ring two_bytes-le ring-IsValid

update_read_pntr_refines_example : view (update_read_pntr ring 4) ≡ Stream.consume 4 (view ring)
update_read_pntr_refines_example =
    update_read_pntr_refines ring 4 ring-IsValid (omega (arith, ring-readable)) (omega arith)
