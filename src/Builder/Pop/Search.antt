-- ===== src/Builder/Pop/Search.antt =====
-- The loop of `find_event_start` over one piece of the ring.
use fpga_tools.Prelude.{
  sym, ℕ, zero, suc, ◌+◌, ◌/◌, ◌%◌, ◌^◌, ◌≤◌, ◌<◌, ◌≡◌, ◌∙◌, inl, inr, ap₂, ap, refl, Bool, true,
  false, arith, Memory, be32, bit_and, bit_and_low, bit_and_shifted, ◌>>>◌,
}
use fpga_tools.Prelude.{swap32, Bool-cases}
use fpga_tools.Builder.Ring.{RingBuffer, contiguous_readable, readable, update_read_pntr}
use fpga_tools.Builder.Ring.Inv.{IsValid, update_read_pntr-IsValid, update_read_pntr-same}
use fpga_tools.Builder.Pop.{starts_event, search_loop}

word_bytes :
    (w : ℕ)
    → w < 2 ^ 32
    → (bit_and w 0xFF ≡ w % 256)
      × (bit_and w 0xFF00 >>> 8 ≡ w / 2 ^ 8 % 256)
      × (bit_and w 0xFF0000 >>> 16 ≡ w / 2 ^ 16 % 256)
      × (bit_and w 0xFF000000 >>> 24 ≡ w / 2 ^ 24)
word_bytes w h = (
  bit_and_low 8 w,
  omega (arith, bit_and_shifted 8 w 255, bit_and_low 8 (w / 2 ^ 8)),
  omega (arith, bit_and_shifted 16 w 255, bit_and_low 8 (w / 2 ^ 16)),
  omega (arith, bit_and_shifted 24 w 255, bit_and_low 8 (w / 2 ^ 24)),
)

-- The four bytes at a match, read in network order, are the word with its bytes reversed.
pub starts_event-be32 :
    (m : Memory) (p w : ℕ)
    → w < 2 ^ 32
    → starts_event m p w ≡ true
    → be32 (m p) (m (p + 1)) (m (p + 2)) (m (p + 3)) ≡ swap32 w
unfolding starts_event swap32
starts_event-be32 m p w h e = ground (arith, word_bytes w h)

-- One position on, within the first piece.
step_forward :
    (rb : RingBuffer)
    → IsValid rb
    → 2 ≤ contiguous_readable rb
    → let rb' = update_read_pntr rb 1 in
      (rb'.read_pointer ≡ rb.read_pointer + 1)
      × (contiguous_readable rb' + 1 ≡ contiguous_readable rb)
      × (readable rb' + 1 ≡ readable rb)
unfolding update_read_pntr
step_forward rb v h = ground arith

-- What the loop has done after at most `rounds` positions.
pub record Searched (rounds word : ℕ) (rb : RingBuffer) (out : Bool × RingBuffer) : Type 0 where
  pub at : ℕ
  pub at-le : at ≤ rounds
  pub hit :
      out.0 ≡ true → (at < rounds) × (starts_event rb.buffer (rb.read_pointer + at) word ≡ true)
  pub miss : out.0 ≡ false → at ≡ rounds
  pub first : (j : ℕ) → j < at → starts_event rb.buffer (rb.read_pointer + j) word ≡ false
  pub valid : IsValid out.1
  pub moved : out.1.read_pointer ≡ rb.read_pointer + at
  pub left : readable out.1 + at ≡ readable rb
  pub piece : contiguous_readable out.1 + at ≡ contiguous_readable rb
  pub buffer_same : out.1.buffer ≡ rb.buffer

Searched-here :
    (rounds word : ℕ) (rb : RingBuffer)
    → IsValid rb
    → starts_event rb.buffer rb.read_pointer word ≡ true
    → Searched (suc rounds) word rb (true, rb)
Searched-here rounds word rb v yes_here = record {
  at = 0;
  at-le = omega arith;
  hit = λ e. (omega arith, ground arith);
  miss = λ e. cc;
  first = λ j p. absurd (omega arith);
  valid = v;
  moved = omega arith;
  left = omega arith;
  piece = omega arith;
  buffer_same = refl;
}

module _ (rounds word : ℕ) (rb rb₁ : RingBuffer) {out : Bool × RingBuffer}
    (same : rb₁.buffer ≡ rb.buffer)
    (next : (rb₁.read_pointer ≡ rb.read_pointer + 1)
      × (contiguous_readable rb₁ + 1 ≡ contiguous_readable rb)
      × (readable rb₁ + 1 ≡ readable rb))
    (rest : Searched rounds word rb₁ out) where
  later_at :
      (i : ℕ)
      → starts_event rb₁.buffer (rb₁.read_pointer + i) word
        ≡ starts_event rb.buffer (rb.read_pointer + suc i) word
  later_at i = ap₂ (λ m p. starts_event m p word) same (omega (arith, next))

  later_first :
      starts_event rb.buffer rb.read_pointer word ≡ false
      → (j : ℕ) → j < suc rest.at
      → starts_event rb.buffer (rb.read_pointer + j) word ≡ false
  later_first not_here zero p = ap (λ q. starts_event rb.buffer q word) (omega arith) ∙ not_here
  later_first not_here (suc j) p = sym (later_at j) ∙ rest.first j (omega arith)

  Searched-later :
      starts_event rb.buffer rb.read_pointer word ≡ false → Searched (suc rounds) word rb out
  Searched-later not_here = record {
    at = suc rest.at;
    at-le = omega (arith, rest.at-le);
    hit = λ e. (omega (arith, (rest.hit e).0), sym (later_at rest.at) ∙ (rest.hit e).1);
    miss = λ e. omega (arith, rest.miss e);
    first = later_first not_here;
    valid = rest.valid;
    moved = omega (arith, rest.moved, next);
    left = omega (arith, rest.left, next);
    piece = omega (arith, rest.piece, next);
    buffer_same = rest.buffer_same ∙ same;
  }

pub search_loop-Searched :
    (rounds word : ℕ) (rb : RingBuffer)
    → IsValid rb
    → rounds + 3 ≤ contiguous_readable rb
    → Searched rounds word rb (search_loop rounds word rb)
unfolding search_loop
search_loop-Searched zero word rb v h = record {
  at = 0;
  at-le = omega arith;
  hit = λ e. cc;
  miss = λ e. refl;
  first = λ j p. absurd (omega arith);
  valid = v;
  moved = omega arith;
  left = omega arith;
  piece = omega arith;
  buffer_same = refl;
}
search_loop-Searched (suc rounds) word rb v h =
    elim (Bool-cases (starts_event rb.buffer rb.read_pointer word)) [
      | inl yes_here ↦ rw yes_here (Searched-here rounds word rb v yes_here)
      | inr not_here ↦ rw not_here (
          Searched-later rounds word rb (update_read_pntr rb 1) (update_read_pntr-same rb 1).0 next
            (search_loop-Searched rounds word (update_read_pntr rb 1) (update_read_pntr-IsValid 1 v)
              (omega (arith, next)))
            not_here)
    ]
  where
    next :
        ((update_read_pntr rb 1).read_pointer ≡ rb.read_pointer + 1)
        × (contiguous_readable (update_read_pntr rb 1) + 1 ≡ contiguous_readable rb)
        × (readable (update_read_pntr rb 1) + 1 ≡ readable rb)
    next = step_forward rb v (omega arith)
