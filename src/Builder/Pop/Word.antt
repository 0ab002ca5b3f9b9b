-- ===== src/Builder/Pop/Word.antt =====
-- The word that `pop32` reads, and what it leaves.
use fpga_tools.Prelude.{zero-bit_or}
use fpga_tools.Prelude.{
  ℕ, zero, suc, ◌+◌, ◌-◌, ◌*◌, ◌%◌, ◌^◌, ◌≤◌, ◌<◌, ◌≡◌, ap, arith, Memory, be32,
}
use fpga_tools.Prelude.{none, some, load32, swap32}
use fpga_tools.Builder.Ring.{
  RingBuffer, buffer_size, contiguous_readable, readable, update_read_pntr,
}
use fpga_tools.Builder.Ring.Inv.{IsValid, contiguous_readable-le, contiguous_readable_cases}
use fpga_tools.Builder.Pop.{pop32, push_byte, push_bytes}

-- Every cell of the memory holds a byte.
abbrev pub IsBytes : Memory → Type 0
IsBytes m = (p : ℕ) → m p < 256

-- The `i`-th unread byte.
abbrev pub unread_byte : RingBuffer → ℕ → ℕ
unread_byte rb i = rb.buffer ((rb.read_pointer + i) % buffer_size)

swap32-load32 :
    (m : Memory) (p : ℕ)
    → IsBytes m
    → swap32 (load32 m p) ≡ be32 (m p) (m (p + 1)) (m (p + 2)) (m (p + 3))
unfolding swap32 load32
swap32-load32 m p b = omega (arith, b p, b (p + 1), b (p + 2), b (p + 3))

-- `pop32` fails exactly when fewer than four bytes are readable.
pub pop32-none_iff :
    (rb : RingBuffer) → (pop32 rb ≡ none → readable rb < 4) × (readable rb < 4 → pop32 rb ≡ none)
unfolding pop32
pop32-none_iff rb = (λ e. ground arith, λ e. ground arith)

push_byte-eq :
    (val byte : ℕ) → val % 256 ≡ 0 → byte < 256 → push_byte val byte ≡ (val + byte) * 256 % 2 ^ 32
push_byte-eq val byte low small = rw (low, zero-bit_or) (omega arith)

-- The first byte is shifted out again.
push_byte_four :
    (a b c d : ℕ)
    → a < 256
    → b < 256
    → c < 256
    → d < 256
    → swap32 (push_byte (push_byte (push_byte (push_byte 0 a) b) c) d) ≡ be32 0 d c b
unfolding swap32
push_byte_four a b c d ha hb hc hd =
    rw
      (
        push_byte-eq 0 a (omega arith) ha,
        push_byte-eq ((0 + a) * 256 % 2 ^ 32) b (omega arith) hb,
        push_byte-eq (((0 + a) * 256 % 2 ^ 32 + b) * 256 % 2 ^ 32) c (omega arith) hc,
        push_byte-eq ((((0 + a) * 256 % 2 ^ 32 + b) * 256 % 2 ^ 32 + c) * 256 % 2 ^ 32) d
            (omega arith) hd,
      )
      (omega arith)

-- With four bytes in one piece of a valid ring of bytes, pop32 returns them as a word in network
-- order and moves past them.
pub pop32_straight :
    (rb : RingBuffer)
    → IsValid rb
    → IsBytes rb.buffer
    → 4 ≤ contiguous_readable rb
    → pop32 rb
      ≡ some (
        be32 (unread_byte rb 0) (unread_byte rb 1) (unread_byte rb 2) (unread_byte rb 3),
        update_read_pntr rb 4,
      )
unfolding pop32
pop32_straight rb v b h = ground (
  arith,
  contiguous_readable-le v,
  swap32-load32 rb.buffer rb.read_pointer b,
  plain 0 (omega arith),
  plain 1 (omega arith),
  plain 2 (omega arith),
  plain 3 (omega arith),
)
  where
    plain : (i : ℕ) → i < 4 → unread_byte rb i ≡ rb.buffer (rb.read_pointer + i)
    plain i small = ap rb.buffer (omega (arith, contiguous_readable-le v))

-- The two loops together push the four bytes in order.
push_bytes_round :
    (m : Memory) (r c : ℕ)
    → 0 < c
    → c < 4
    → r + c ≡ buffer_size
    → let at = λ (i : ℕ). m ((r + i) % buffer_size) in
      push_bytes m 0 (4 - c) (push_bytes m r c 0)
      ≡ push_byte (push_byte (push_byte (push_byte 0 (at 0)) (at 1)) (at 2)) (at 3)
unfolding push_bytes
push_bytes_round m r zero pos small e = absurd (omega arith)
push_bytes_round m r (suc zero) pos small e = ground arith
push_bytes_round m r (suc (suc zero)) pos small e = ground arith
push_bytes_round m r (suc (suc (suc zero))) pos small e = ground arith
push_bytes_round m r (suc (suc (suc (suc c)))) pos small e = absurd (omega arith)

-- On a valid ring of bytes with four of them readable, but fewer in the first piece, pop32 loses
-- its first byte and reverses the other three.
pub pop32_wrapped :
    (rb : RingBuffer)
    → IsValid rb
    → IsBytes rb.buffer
    → contiguous_readable rb < 4
    → 4 ≤ readable rb
    → pop32 rb
      ≡ some
          (be32 0 (unread_byte rb 3) (unread_byte rb 2) (unread_byte rb 1), update_read_pntr rb 4)
unfolding pop32
pop32_wrapped rb v b h more = ground (
  arith,
  push_bytes_round rb.buffer rb.read_pointer (contiguous_readable rb) (cases.0 (omega arith)) h
      (cases.1 (omega arith)),
  push_byte_four (unread_byte rb 0) (unread_byte rb 1) (unread_byte rb 2) (unread_byte rb 3) (b _)
      (b _) (b _) (b _),
)
  where
    cases :
        (0 < readable rb → 0 < contiguous_readable rb)
        × (contiguous_readable rb < readable rb
            → rb.read_pointer + contiguous_readable rb ≡ buffer_size)
    cases = contiguous_readable_cases rb v
