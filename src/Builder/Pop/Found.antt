-- ===== src/Builder/Pop/Found.antt =====
-- `find_event_start`: which position it stops at, and the word that is read there.
use fpga_tools.Prelude.{ℕ, ◌+◌, ◌-◌, ◌^◌, ◌≤◌, ◌<◌, ◌≡◌, ◌∙◌, ap₂, Bool, true, false, arith, Memory}
use fpga_tools.Prelude.{some, swap32}
use fpga_tools.Builder.Ring.{
  RingBuffer, buffer_size, contiguous_readable, readable, update_read_pntr, update_event_read_pntr,
}
use fpga_tools.Builder.Ring.Inv.{
  IsValid, contiguous_readable-le, update_read_pntr-IsValid, update_event_read_pntr-IsValid,
}
use fpga_tools.Builder.Pop.{pop32, starts_event, search_loop, search_chunk, find_event_start}
use fpga_tools.Builder.Pop.Word.{IsBytes, unread_byte, pop32_straight}
use fpga_tools.Builder.Pop.Search.{Searched, search_loop-Searched, starts_event-be32}

-- Giving back what was read moves no unread byte, unless the ring is full of unread bytes.
release_same :
    (rb : RingBuffer)
    → IsValid rb
    → 0 < readable rb
    → readable rb < buffer_size
    → let rb' = update_event_read_pntr rb in
      (rb'.buffer ≡ rb.buffer)
      × (rb'.read_pointer ≡ rb.read_pointer)
      × (rb'.event_read_pointer ≡ rb.read_pointer)
      × (readable rb' ≡ readable rb)
      × (contiguous_readable rb' ≡ contiguous_readable rb)
unfolding update_event_read_pntr readable contiguous_readable
release_same rb v more h = ground arith

-- A search of the first piece is one run of the loop.
find_event_start-loop :
    (rb : RingBuffer) (word : ℕ)
    → 4 ≤ contiguous_readable rb
    → let out = search_loop (contiguous_readable rb - 3) word rb in
      ((find_event_start rb word).0 ≡ true → out.0 ≡ true)
      × (out.0 ≡ true → (find_event_start rb word).1 ≡ update_event_read_pntr out.1)
      × (((find_event_start rb word).0 ≡ false → out.0 ≡ false)
          × (out.0 ≡ false
              → (find_event_start rb word).1 ≡ update_event_read_pntr (update_read_pntr out.1 3)))
unfolding find_event_start search_chunk
find_event_start-loop rb word h =
    (λ e. ground arith, λ e. ground arith, (λ e. ground arith, λ e. ground arith))

-- A successful find_event_start, with at least four bytes in the first piece of a ring that is not
-- full of unread bytes, stops at the first match of that piece, gives back what is before it and
-- keeps the ring valid.
pub find_event_start_found :
    (rb : RingBuffer) (word : ℕ)
    → IsValid rb
    → 4 ≤ contiguous_readable rb
    → readable rb < buffer_size
    → (find_event_start rb word).0 ≡ true
    → let rb' = (find_event_start rb word).1 in
      (i : ℕ) × (i + 4 ≤ contiguous_readable rb)
      × (starts_event rb.buffer (rb.read_pointer + i) word ≡ true)
      × ((j : ℕ) → j < i → starts_event rb.buffer (rb.read_pointer + j) word ≡ false)
      × IsValid rb'
      × (rb'.buffer ≡ rb.buffer)
      × (rb'.read_pointer ≡ rb.read_pointer + i)
      × (rb'.event_read_pointer ≡ rb.read_pointer + i)
      × (readable rb' + i ≡ readable rb)
      × (contiguous_readable rb' + i ≡ contiguous_readable rb)
find_event_start_found rb word v h room found = (
  done.at,
  omega (arith, hit.0),
  hit.1,
  done.first,
  rw stops (update_event_read_pntr-IsValid done.valid),
  rw stops (given_back.0 ∙ done.buffer_same),
  rw stops (given_back.1 ∙ done.moved),
  rw stops (given_back.2 ∙ done.moved),
  rw stops (omega (arith, given_back, done.left)),
  rw stops (omega (arith, given_back, done.piece)),
)
  where
    out : Bool × RingBuffer
    out = search_loop (contiguous_readable rb - 3) word rb

    done : Searched (contiguous_readable rb - 3) word rb out
    done = search_loop-Searched (contiguous_readable rb - 3) word rb v (omega arith)

    hits : out.0 ≡ true
    hits = (find_event_start-loop rb word h).0 found

    stops : (find_event_start rb word).1 ≡ update_event_read_pntr out.1
    stops = (find_event_start-loop rb word h).1 hits

    hit :
        (done.at < contiguous_readable rb - 3)
        × (starts_event rb.buffer (rb.read_pointer + done.at) word ≡ true)
    hit = done.hit hits

    given_back :
        let rb' = update_event_read_pntr out.1 in
        (rb'.buffer ≡ out.1.buffer)
        × (rb'.read_pointer ≡ out.1.read_pointer)
        × (rb'.event_read_pointer ≡ out.1.read_pointer)
        × (readable rb' ≡ readable out.1)
        × (contiguous_readable rb' ≡ contiguous_readable out.1)
    given_back =
        release_same out.1 done.valid (omega (arith, done.left, hit.0, contiguous_readable-le v))
          (omega (arith, done.left))

-- A find_event_start without success, with four bytes in the first piece of a valid ring, means
-- that no position of that piece matches, and leaves the ring valid.
pub find_event_start_missed :
    (rb : RingBuffer) (word : ℕ)
    → IsValid rb
    → 4 ≤ contiguous_readable rb
    → (find_event_start rb word).0 ≡ false
    → ((i : ℕ)
        → i + 4 ≤ contiguous_readable rb
        → starts_event rb.buffer (rb.read_pointer + i) word ≡ false)
      × IsValid (find_event_start rb word).1
find_event_start_missed rb word v h missed = (
  λ i p. done.first i (omega (arith, done.miss misses)),
  rw ((find_event_start-loop rb word h).2.1 misses)
      (update_event_read_pntr-IsValid (update_read_pntr-IsValid 3 done.valid)),
)
  where
    done :
        Searched
          (contiguous_readable rb - 3)
          word
          rb
          (search_loop (contiguous_readable rb - 3) word rb)
    done = search_loop-Searched (contiguous_readable rb - 3) word rb v (omega arith)

    misses : (search_loop (contiguous_readable rb - 3) word rb).0 ≡ false
    misses = (find_event_start-loop rb word h).2.0 missed

-- After a successful find_event_start the word that pop32 reads is the one searched for with its
-- bytes reversed, for a 32-bit word and with four bytes in the first piece of a valid ring of
-- bytes that is not full of unread ones.
pub find_event_start-pop32 :
    (rb : RingBuffer) (word : ℕ)
    → IsValid rb
    → IsBytes rb.buffer
    → word < 2 ^ 32
    → 4 ≤ contiguous_readable rb
    → readable rb < buffer_size
    → (find_event_start rb word).0 ≡ true
    → let rb' = (find_event_start rb word).1 in
      pop32 rb' ≡ some (swap32 word, update_read_pntr rb' 4)
find_event_start-pop32 rb word v bytes fits h room found = ground (
  arith,
  pop32_straight rb' stop.4 bytes' (omega (arith, stop.1, stop.9)),
  at 0 p (omega arith) (omega arith),
  at 1 (p + 1) (omega arith) (omega arith),
  at 2 (p + 2) (omega arith) (omega arith),
  at 3 (p + 3) (omega arith) (omega arith),
  starts_event-be32 rb.buffer p word fits stop.2,
)
  where
    rb' : RingBuffer
    rb' = (find_event_start rb word).1

    stop :
        (i : ℕ) × (i + 4 ≤ contiguous_readable rb)
        × (starts_event rb.buffer (rb.read_pointer + i) word ≡ true)
        × ((j : ℕ) → j < i → starts_event rb.buffer (rb.read_pointer + j) word ≡ false)
        × IsValid rb'
        × (rb'.buffer ≡ rb.buffer)
        × (rb'.read_pointer ≡ rb.read_pointer + i)
        × (rb'.event_read_pointer ≡ rb.read_pointer + i)
        × (readable rb' + i ≡ readable rb)
        × (contiguous_readable rb' + i ≡ contiguous_readable rb)
    stop = find_event_start_found rb word v h room found

    bytes' : IsBytes rb'.buffer
    bytes' p = rw stop.5 (bytes p)

    p : ℕ
    p = rb.read_pointer + stop.0

    at : (k q : ℕ) → k < 4 → q ≡ p + k → unread_byte rb' k ≡ rb.buffer q
    at k q small e =
        ap₂ (λ (m : Memory) a. m a) stop.5 (omega (arith, stop.1, stop.6, contiguous_readable-le v))
