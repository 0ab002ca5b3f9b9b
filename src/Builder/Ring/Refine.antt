-- ===== src/Builder/Ring/Refine.antt =====
-- A valid ring behaves as the stream of its bytes.
use mathlib.Core.Option
use mathlib.Core.List.{append-nil}
use mathlib.Core.Logic.{◌⊎◌, inl, inr}
use fpga_tools.Prelude.{sym, ℕ, ◌+◌, ◌%◌, ◌≤◌, ◌<◌, ◌≡◌, ◌∙◌, ap, refl, false, arith}
use fpga_tools.Prelude.{
  if◌then◌else◌, ◌==◌, List, [], ◌++◌, take, drop, length, get_or, tabulate, store_bytes, Option,
  some, Option-cases, Bool-cases,
}
use fpga_tools.Prelude.{
  tabulate_ext, tabulate-add, drop-tabulate, take-tabulate, tabulate-get_or, store_bytes-outside,
  store_bytes-inside, Memory,
}
use fpga_tools.Builder.Stream
use fpga_tools.Builder.Stream.{Stream}
use fpga_tools.Builder.Ring.{RingBuffer, buffer_size, readable, contiguous_space_available}
use fpga_tools.Builder.Ring.{
  update_write_pntr, update_event_read_pntr, update_read_pntr, pull_from_fpga,
}
use fpga_tools.Builder.Ring.Inv.{
  IsValid, held, kept, readable-eq, update_read_pntr_lem, update_read_pntr-same,
  update_event_read_pntr_lem, update_write_pntr_lem, update_write_pntr-same,
  update_write_pntr-IsValid, contiguous_space_available_lem,
}

-- The `n` bytes from position `p` on, going round at the end of the buffer.
unfoldable pub window : Memory → ℕ → ℕ → List ℕ
window m p n = tabulate n (λ i. m ((p + i) % buffer_size))

abbrev pub view : RingBuffer → Stream
view rb = record {
  kept = window rb.buffer rb.event_read_pointer (kept rb);
  unread = window rb.buffer rb.read_pointer (readable rb);
}

window-split :
    (m : Memory) (p p' n k : ℕ)
    → p' ≡ (p + n) % buffer_size
    → (take n (window m p (n + k)) ≡ window m p n)
      × (drop n (window m p (n + k)) ≡ window m p' k)
      × (window m p (n + k) ≡ window m p n ++ window m p' k)
unfolding window
window-split m p p' n k e = (
  take-tabulate n k _,
  drop-tabulate n k _ ∙ shift,
  tabulate-add n k _ ∙ ap (λ l. window m p n ++ l) shift,
)
  where
    shift : tabulate k (λ i. m ((p + (n + i)) % buffer_size)) ≡ window m p' k
    shift = tabulate_ext k _ _ (λ i h. ap m (omega arith))

-- ring_buffer_update_read_pntr by n moves the first n unread bytes behind the kept ones, in order,
-- if n bytes are readable and the kept ones stay fewer than the ring has places.
pub update_read_pntr_refines :
    (rb : RingBuffer) (n : ℕ)
    → IsValid rb
    → n ≤ readable rb
    → n + kept rb < buffer_size
    → view (update_read_pntr rb n) ≡ Stream.consume n (view rb)
unfolding Stream.consume
update_read_pntr_refines rb n v h small = ground (
  arith,
  update_read_pntr-same rb n,
  moved,
  window-split rb.buffer e r (kept rb) n (omega (arith, v)),
  window-split rb.buffer r (update_read_pntr rb n).read_pointer n (readable (update_read_pntr rb n))
      moved.0,
)
  where
    open rb use {event_read_pointer as e, read_pointer as r}

    moved :
        ((update_read_pntr rb n).read_pointer ≡ (r + n) % buffer_size)
        × (readable (update_read_pntr rb n) + n ≡ readable rb)
        × (kept (update_read_pntr rb n) ≡ kept rb + n)
    moved = update_read_pntr_lem rb n v h small

-- ring_buffer_update_event_read_pntr forgets the kept bytes and no unread byte, on a valid ring
-- that is not full of unread bytes.
pub update_event_read_pntr_refines :
    (rb : RingBuffer)
    → IsValid rb
    → readable rb < buffer_size
    → view (update_event_read_pntr rb) ≡ Stream.release (view rb)
unfolding Stream.release window
update_event_read_pntr_refines rb v h = ground (arith, update_event_read_pntr_lem rb v h)

-- On a valid ring that is full of unread bytes, ring_buffer_update_event_read_pntr drops all of
-- them.
pub update_event_read_pntr_full :
    (rb : RingBuffer)
    → IsValid rb
    → readable rb ≡ buffer_size
    → view (update_event_read_pntr rb) ≡ record { kept = []; unread = [] }
unfolding update_event_read_pntr readable window
update_event_read_pntr_full rb v h = ground arith

-- The unread and the kept bytes lie outside the room on offer, and the write pointer follows them.
positions :
    (rb : RingBuffer) (i : ℕ)
    → IsValid rb
    → let room = (contiguous_space_available rb).0 in
      (i < held rb
        → ((rb.event_read_pointer + i) % buffer_size < rb.write_pointer)
          ⊎ (rb.write_pointer + room ≤ (rb.event_read_pointer + i) % buffer_size))
unfolding contiguous_space_available
positions rb i v h = ground arith

write_pointer-eq :
    (rb : RingBuffer)
    → IsValid rb
    → (rb.read_pointer + readable rb) % buffer_size ≡ rb.write_pointer
unfolding readable
write_pointer-eq rb v = ground arith

window-store :
    (m : Memory) (p n w : ℕ) (bytes : List ℕ)
    → ((i : ℕ) → i < n → ((p + i) % buffer_size < w) ⊎ (w + length bytes ≤ (p + i) % buffer_size))
    → window (store_bytes m w bytes) p n ≡ window m p n
unfolding window
window-store m p n w bytes apart =
    tabulate_ext n _ _ (λ i h. store_bytes-outside m w bytes ((p + i) % buffer_size) (apart i h))

window-stored :
    (m : Memory) (w : ℕ) (bytes : List ℕ)
    → w + length bytes ≤ buffer_size
    → window (store_bytes m w bytes) w (length bytes) ≡ bytes
unfolding window
window-stored m w bytes fits =
    tabulate_ext (length bytes) _ (λ i. get_or bytes i 0) (λ i h. at i h) ∙ tabulate-get_or bytes 0
  where
    at :
        (i : ℕ)
        → i < length bytes
        → store_bytes m w bytes ((w + i) % buffer_size) ≡ get_or bytes i 0
    at i h = ap (store_bytes m w bytes) (omega arith) ∙ store_bytes-inside m w bytes i h

-- The ring with `bytes` stored from its write pointer on.
abbrev stored : RingBuffer → List ℕ → RingBuffer
stored rb bytes = record rb { buffer = store_bytes rb.buffer rb.write_pointer bytes }

stored-same :
    (rb : RingBuffer) (bytes : List ℕ)
    → IsValid rb
    → IsValid (stored rb bytes)
      × (readable (stored rb bytes) ≡ readable rb)
      × ((contiguous_space_available (stored rb bytes)).0 ≡ (contiguous_space_available rb).0)
unfolding readable contiguous_space_available
stored-same rb bytes v = ground arith

store_refines :
    (rb : RingBuffer) (bytes : List ℕ)
    → IsValid rb
    → length bytes ≤ (contiguous_space_available rb).0
    → let rb' = update_write_pntr (stored rb bytes) (length bytes) in
      IsValid rb' × (view rb' ≡ Stream.receive bytes (view rb))
unfolding Stream.receive
store_refines rb bytes v fits = (
  update_write_pntr-IsValid n same.0 (omega (arith, same)),
  ground (
    arith,
    written,
    update_write_pntr-same (stored rb bytes) n same.0,
    same.1,
    window-split m' rb.read_pointer rb.write_pointer (readable rb) n (sym (write_pointer-eq rb v)),
    window-store rb.buffer rb.read_pointer (readable rb) rb.write_pointer bytes unread_apart,
    window-store rb.buffer rb.event_read_pointer (kept rb) rb.write_pointer bytes kept_apart,
    window-stored rb.buffer rb.write_pointer bytes
        (omega (arith, contiguous_space_available_lem rb v)),
  ),
)
  where
    n : ℕ
    n = length bytes

    m' : Memory
    m' = store_bytes rb.buffer rb.write_pointer bytes

    same :
        IsValid (stored rb bytes)
        × (readable (stored rb bytes) ≡ readable rb)
        × ((contiguous_space_available (stored rb bytes)).0 ≡ (contiguous_space_available rb).0)
    same = stored-same rb bytes v

    written :
        let rb' = update_write_pntr (stored rb bytes) n in
        (readable rb' ≡ readable (stored rb bytes) + n)
        × (kept rb' ≡ kept (stored rb bytes))
        × (rb'.read_pointer ≡ rb.read_pointer)
        × (rb'.event_read_pointer ≡ rb.event_read_pointer)
    written = update_write_pntr_lem (stored rb bytes) n same.0 (omega (arith, same))

    unread_apart :
        (i : ℕ)
        → i < readable rb
        → ((rb.read_pointer + i) % buffer_size < rb.write_pointer)
          ⊎ (rb.write_pointer + length bytes ≤ (rb.read_pointer + i) % buffer_size)
    unread_apart i h = omega (arith, positions rb (kept rb + i) v (omega (arith, readable-eq v)), v)

    kept_apart :
        (i : ℕ)
        → i < kept rb
        → ((rb.event_read_pointer + i) % buffer_size < rb.write_pointer)
          ⊎ (rb.write_pointer + length bytes ≤ (rb.event_read_pointer + i) % buffer_size)
    kept_apart i h = omega (arith, positions rb i v (omega (arith, readable-eq v)))

receive-nil : (s : Stream) → Stream.receive [] s ≡ s
unfolding Stream.receive
receive-nil s = simp append-nil

-- What `recvmsg` delivers into the room that the ring has.
abbrev pub arrived : (ℕ → Option (List ℕ)) → RingBuffer → List ℕ
arrived recvmsg rb =
    let room = (contiguous_space_available rb).0 in
    if room == 0 then [] else Option.get_or (recvmsg room) []

pull_from_fpga-stored :
    (recvmsg : ℕ → Option (List ℕ)) (rb : RingBuffer) (bytes : List ℕ)
    → let room = (contiguous_space_available rb).0 in
      (contiguous_space_available rb).1 ≡ rb
      → (room == 0) ≡ false
      → recvmsg room ≡ some bytes
      → pull_from_fpga recvmsg rb
        ≡ (length bytes, update_write_pntr (stored rb bytes) (length bytes))
unfolding pull_from_fpga
pull_from_fpga-stored recvmsg rb bytes same some_room got = rw (some_room, got, same)

-- pull_from_fpga on a valid ring keeps it valid, returns how many bytes arrived and appends
-- exactly those bytes to the unread bytes of the stream, if recvmsg delivers no more than it was
-- asked for.
pub pull_from_fpga_refines :
    (recvmsg : ℕ → Option (List ℕ)) (rb : RingBuffer)
    → ((n : ℕ) (bytes : List ℕ) → recvmsg n ≡ some bytes → length bytes ≤ n)
    → IsValid rb
    → let (count, rb') = pull_from_fpga recvmsg rb in
      (count ≡ length (arrived recvmsg rb))
      × IsValid rb'
      × (view rb' ≡ Stream.receive (arrived recvmsg rb) (view rb))
unfolding pull_from_fpga
pull_from_fpga_refines recvmsg rb bounded v = elim (Bool-cases (room == 0)) [
  | inl full ↦ ground (arith, full, space, receive-nil (view rb))
  | inr some_room ↦ elim (Option-cases (recvmsg room)) [
    | inl failed ↦ ground (arith, failed, space, receive-nil (view rb))
    | inr (bytes, got) ↦
        rw (pull_from_fpga-stored recvmsg rb bytes space.2 some_room got, some_room, got)
          (let done = store_refines rb bytes v (bounded room bytes got) in (refl, done.0, done.1))
  ]
]
  where
    room : ℕ
    room = (contiguous_space_available rb).0

    space :
        (room + held rb ≤ buffer_size)
        × (rb.write_pointer + room ≤ buffer_size)
        × ((contiguous_space_available rb).1 ≡ rb)
    space = contiguous_space_available_lem rb v
