-- ===== src/Builder/Ceres/Safety.antt =====
-- The readers' loop over the words of an event: it writes inside the event buffer only, and it
-- stops when fewer than three bytes are left.
use fpga_tools.Prelude.{
  ℕ, zero, suc, ◌+◌, ◌*◌, ◌/◌, ◌%◌, ◌^◌, ◌≤◌, ◌<◌, ◌≡◌, inl, inr, refl, sym, ◌∙◌, Bool, true, false,
  arith, Option, some, none, Bool-cases,
}
use mathlib.Core.Path.{subst}
use fpga_tools.Prelude.{bit_or, ◌<<<◌, leb→le, ltb→lt, ltb, leb, ◌==◌, if◌then◌else◌, bit_and}
use fpga_tools.Builder.Ring.{contiguous_readable}
use fpga_tools.Builder.Header.{CeresTrigHeader}
use fpga_tools.Builder.Event.{
  Reader, EventBuffer, EventInProgress, event_buffer_size, num_channels, stash_with_reorder,
}
use fpga_tools.Builder.Event.Layout.{stash_with_reorder-outside}
use fpga_tools.Builder.Ceres.{
  Unpacking, compressed_round, compressed_loop, ceres_word, ceres_data_loop, Outcome, trashed,
  complete, waiting, ceres_settle, ceres_read_data,
}

abbrev pub Event : Type 0
Event = EventInProgress CeresTrigHeader

-- The counters of an event in progress, in an event of length `len`.
pub record InRange (len : ℕ) (ev : Event) : Type 0 where
  pub channel_in : ev.current_channel < num_channels
  pub samples_in : ev.samples_read ≤ len + 2

-- No byte past the event buffer differs.
abbrev pub SameOutside : EventBuffer → EventBuffer → Type 0
SameOutside eb eb' = (q : ℕ) → event_buffer_size ≤ q → eb'.bytes q ≡ eb.bytes q

module _ (word len : ℕ) (is_even : Bool) (small : len < 2 ^ 16) where
  compressed_round_safe :
      (i : ℕ) (u : Unpacking)
      → u.event.current_channel < num_channels
      → u.event.samples_read ≤ len + 2
      → SameOutside u.event_buffer (compressed_round word len is_even i u).event_buffer
  unfolding compressed_round
  compressed_round_safe i u hc hs q hq = elim (Bool-cases (i % 2 == 0)) [
    | inl even ↦ rw even (
        stash_with_reorder-outside u.event_buffer _ u.event.current_channel
          (u.event.samples_read + 1) len is_even q hc (omega arith) small hq)
    | inr odd ↦ rw odd refl
  ]

  compressed_round_counts :
      (i : ℕ) (u : Unpacking)
      → let u' = compressed_round word len is_even i u in
        (u'.event.current_channel ≡ u.event.current_channel)
        × (u'.event.samples_read
            ≡ (if i % 2 == 0 then u.event.samples_read + 1 else u.event.samples_read))
  unfolding compressed_round
  compressed_round_counts i u = ground arith

  compressed_loop_safe :
      (n : ℕ) (u : Unpacking)
      → u.event.current_channel < num_channels
      → u.event.samples_read + (n + 1) / 2 ≤ len + 2
      → let u' = compressed_loop word len is_even n u in
        (u'.event.current_channel ≡ u.event.current_channel)
        × (u'.event.samples_read ≡ u.event.samples_read + (n + 1) / 2)
        × SameOutside u.event_buffer u'.event_buffer
  unfolding compressed_loop
  compressed_loop_safe zero u hc hs = (refl, omega arith, λ q hq. refl)
  compressed_loop_safe (suc i) u hc hs =
      let u₁ = compressed_round word len is_even i u in
      let counts = compressed_round_counts i u in
      let rest =
        compressed_loop_safe i u₁ (rw counts.0 hc) (ground (arith, compressed_round_counts i u)) in
      (
        rest.0 ∙ counts.0,
        ground (arith, rest.1, counts.1),
        λ q hq. rest.2 q hq ∙ compressed_round_safe i u hc (omega arith) q hq,
      )

-- What one word may do: it keeps the counters in range, and reaches channel 16 at most.
pub record WordSafe (len : ℕ) (eb : EventBuffer) (ev' : Event) (eb' : EventBuffer) : Type 0 where
  pub channel_le : ev'.current_channel ≤ num_channels
  pub samples_le : ev'.samples_read ≤ len + 2
  pub outside : SameOutside eb eb'

abbrev pub ResultSafe : ℕ → EventBuffer → Option (Event × EventBuffer) → Type 0
ResultSafe len eb none = Unit
ResultSafe len eb (some (ev', eb')) = WordSafe len eb ev' eb'

module _ (len : ℕ) (is_even : Bool) (word : ℕ) (ev : Event) (eb : EventBuffer)
    (small : len < 2 ^ 16) (r : InRange len ev) where
  stash_safe :
      (w isample : ℕ)
      → isample ≤ len + 3
      → SameOutside eb (stash_with_reorder eb w ev.current_channel isample len is_even)
  stash_safe w isample h q hq =
      stash_with_reorder-outside eb w ev.current_channel isample len is_even q r.channel_in h small
        hq

  compressed-WordSafe :
      ev.samples_read < len
      → let u =
          compressed_loop word len is_even 6
            (record { event = ev; event_buffer = eb; sample_pair = 0 }) in
        WordSafe len eb u.event u.event_buffer
  compressed-WordSafe more =
      let done =
        compressed_loop_safe word len is_even small 6
          (record { event = ev; event_buffer = eb; sample_pair = 0 }) r.channel_in (omega arith) in
      record {
        channel_le = omega (arith, done.0, r.channel_in);
        samples_le = omega (arith, done.1);
        outside = done.2;
      }

  pub ceres_word-ResultSafe : ResultSafe len eb (ceres_word len is_even word ev eb)
  unfolding ceres_word
  ceres_word-ResultSafe = elim (Bool-cases ev.wf_header_read) [
    | inl read ↦ simp read (elim (Bool-cases (ltb ev.samples_read len)) [
      | inl more ↦ simp more (elim (Bool-cases (bit_and word 0x40000000 == 0)) [
        | inl plain ↦ simp plain (record {
          channel_le = omega (arith, r.channel_in);
          samples_le = omega (arith, ltb→lt _ _ more);
          outside = stash_safe _ (ev.samples_read + 1) (omega (arith, r.samples_in));
        })
        | inr packed ↦ simp packed (compressed-WordSafe (ltb→lt _ _ more))
      ])
      | inr no_more ↦ simp no_more (elim (Bool-cases ev.wf_crc_read) [
        | inl crc_read ↦ simp crc_read (record {
          channel_le = omega (arith, r.channel_in);
          samples_le = r.samples_in;
          outside = λ q hq. refl;
        })
        | inr crc_next ↦ simp crc_next (record {
          channel_le = omega (arith, r.channel_in);
          samples_le = omega arith;
          outside = stash_safe word (ev.samples_read + 1) (omega (arith, r.samples_in));
        })
      ])
    ])
    | inr unread ↦ simp unread (elim (Bool-cases (word == wf_header)) [
      | inl good ↦ simp good (record {
        channel_le = omega (arith, r.channel_in);
        samples_le = omega arith;
        outside = stash_safe word 0 (omega arith);
      })
      | inr bad ↦ simp bad tt
    ])
  ]
    where
      wf_header : ℕ
      wf_header = bit_or (bit_or 0xFF00FF00 (ev.current_channel <<< 16)) ev.current_channel

-- What holds when the loop ends, having started at `eb` with `bytes_in` bytes in the ring's first piece.
abbrev pub OutcomeSafe : ℕ → ℕ → EventBuffer → Outcome → Type 0
OutcomeSafe len bytes_in eb (trashed eb') = SameOutside eb eb'
OutcomeSafe len bytes_in eb (complete h eb' n) = SameOutside eb eb' × (n ≤ bytes_in + 1)
OutcomeSafe len bytes_in eb (waiting ev' eb' n) =
    SameOutside eb eb' × (n ≤ bytes_in + 1) × InRange len ev' × (bytes_in < n + 3)

OutcomeSafe-after :
    (len bytes_in : ℕ) (eb eb' : EventBuffer) (out : Outcome)
    → SameOutside eb eb'
    → OutcomeSafe len bytes_in eb' out
    → OutcomeSafe len bytes_in eb out
OutcomeSafe-after len bytes_in eb eb' (trashed _) h safe = λ q hq. safe q hq ∙ h q hq
OutcomeSafe-after len bytes_in eb eb' (complete _ _ n) h safe =
    (λ q hq. safe.0 q hq ∙ h q hq, safe.1)
OutcomeSafe-after len bytes_in eb eb' (waiting _ _ n) h safe =
    (λ q hq. safe.0 q hq ∙ h q hq, safe.1, safe.2, safe.3)

module _ (load : ℕ → ℕ) (bytes_in len : ℕ) (is_even : Bool) (small : len < 2 ^ 16) where
  -- The loop after a word.
  abbrev continue_with : ℕ → ℕ → EventBuffer → Option (Event × EventBuffer) → Outcome
  continue_with fuel bytes_read eb result = elim result [
    | none ↦ trashed eb
    | some (event', eb') ↦ elim (event'.current_channel == num_channels) [
      | true ↦ complete event'.event_header eb' (bytes_read + 4)
      | false ↦ ceres_data_loop load bytes_in len is_even fuel (bytes_read + 4) event' eb'
    ]
  ]

  continue_with-last :
      (fuel bytes_read : ℕ) (eb : EventBuffer) (ev' : Event) (eb' : EventBuffer)
      → (ev'.current_channel == num_channels) ≡ true
      → continue_with fuel bytes_read eb (some (ev', eb'))
        ≡ complete ev'.event_header eb' (bytes_read + 4)
  continue_with-last fuel bytes_read eb ev' eb' last = ground arith

  continue_with-next :
      (fuel bytes_read : ℕ) (eb : EventBuffer) (ev' : Event) (eb' : EventBuffer)
      → (ev'.current_channel == num_channels) ≡ false
      → continue_with fuel bytes_read eb (some (ev', eb'))
        ≡ ceres_data_loop load bytes_in len is_even fuel (bytes_read + 4) ev' eb'
  continue_with-next fuel bytes_read eb ev' eb' not_last = ground arith

  -- The loop with the word's result and the test for the last channel at hand.
  data_loop_step :
      (fuel bytes_read : ℕ) (eb : EventBuffer) (result : Option (Event × EventBuffer))
      → ResultSafe len eb result
      → bytes_read + 3 ≤ bytes_in
      → ((ev' : Event) (eb' : EventBuffer)
          → InRange len ev'
          → OutcomeSafe len bytes_in eb'
              (ceres_data_loop load bytes_in len is_even fuel (bytes_read + 4) ev' eb'))
      → OutcomeSafe len bytes_in eb (continue_with fuel bytes_read eb result)
  data_loop_step fuel bytes_read eb none safe more rest = λ q hq. refl
  data_loop_step fuel bytes_read eb (some (ev', eb')) safe more rest =
      elim (Bool-cases (ev'.current_channel == num_channels)) [
        | inl last ↦
            subst (OutcomeSafe len bytes_in eb)
              (sym (continue_with-last fuel bytes_read eb ev' eb' last)) (safe.outside, omega arith)
        | inr not_last ↦
            subst (OutcomeSafe len bytes_in eb)
              (sym (continue_with-next fuel bytes_read eb ev' eb' not_last))
              (OutcomeSafe-after len bytes_in eb eb' _ safe.outside (
                rest ev' eb' (record {
                  channel_in = ground (arith, safe.channel_le);
                  samples_in = safe.samples_le;
                })))
      ]

  data_loop_stop :
      (fuel bytes_read : ℕ) (ev : Event) (eb : EventBuffer)
      → leb (bytes_read + 3) bytes_in ≡ false
      → ceres_data_loop load bytes_in len is_even (suc fuel) bytes_read ev eb
        ≡ waiting ev eb bytes_read
  unfolding ceres_data_loop
  data_loop_stop fuel bytes_read ev eb done = ground arith

  data_loop_more :
      (fuel bytes_read : ℕ) (ev : Event) (eb : EventBuffer)
      → leb (bytes_read + 3) bytes_in ≡ true
      → ceres_data_loop load bytes_in len is_even (suc fuel) bytes_read ev eb
        ≡ continue_with fuel bytes_read eb (ceres_word len is_even (load bytes_read) ev eb)
  unfolding ceres_data_loop
  data_loop_more fuel bytes_read ev eb more = ground arith

  -- Started in range with enough fuel, the data loop of ceres_read_proc writes no byte past the
  -- event buffer, also before a wrong channel header; unless it meets one it takes at most one
  -- byte more than there are, and an event that waits has its counters in range and fewer than
  -- three bytes left.
  pub ceres_data_loop-OutcomeSafe :
      (fuel bytes_read : ℕ) (ev : Event) (eb : EventBuffer)
      → InRange len ev
      → bytes_read ≤ bytes_in + 1
      → bytes_in < bytes_read + 4 * fuel + 3
      → OutcomeSafe len bytes_in eb
          (ceres_data_loop load bytes_in len is_even fuel bytes_read ev eb)
  unfolding ceres_data_loop
  ceres_data_loop-OutcomeSafe zero bytes_read ev eb r started enough =
      (λ q hq. refl, started, r, omega arith)
  ceres_data_loop-OutcomeSafe (suc fuel) bytes_read ev eb r started enough =
      elim (Bool-cases (leb (bytes_read + 3) bytes_in)) [
        | inl more ↦
            subst (OutcomeSafe len bytes_in eb) (sym (data_loop_more fuel bytes_read ev eb more)) (
              data_loop_step fuel bytes_read eb (ceres_word len is_even (load bytes_read) ev eb)
                (ceres_word-ResultSafe len is_even (load bytes_read) ev eb small r)
                (leb→le _ _ more)
                (λ ev' eb' r'.
                  ceres_data_loop-OutcomeSafe fuel (bytes_read + 4) ev' eb' r'
                    (omega (arith, leb→le _ _ more)) (omega arith)))
        | inr done ↦
            subst (OutcomeSafe len bytes_in eb) (sym (data_loop_stop fuel bytes_read ev eb done))
              (λ q hq. refl, started, r, ground arith)
      ]

settle_outside :
    (len bytes_in : ℕ) (r : Reader CeresTrigHeader) (out : Outcome)
    → OutcomeSafe len bytes_in r.event_buffer out
    → SameOutside r.event_buffer (ceres_settle r out).1.event_buffer
unfolding ceres_settle
settle_outside len bytes_in r (trashed eb) safe = safe
settle_outside len bytes_in r (complete h eb n) safe = safe.0
settle_outside len bytes_in r (waiting ev eb n) safe = safe.0

-- For a header with a 16-bit length and counters in range, reading the data of a CERES event
-- changes no byte past the event buffer, whatever the data are, a wrong channel header included.
pub ceres_read_data_in_bounds :
    (r : Reader CeresTrigHeader)
    → r.event.event_header.length < 2 ^ 16
    → InRange r.event.event_header.length r.event
    → (q : ℕ) → event_buffer_size ≤ q
    → (ceres_read_data r).1.event_buffer.bytes q ≡ r.event_buffer.bytes q
unfolding ceres_read_data
ceres_read_data_in_bounds r small range = settle_outside len bytes_in r _ (
    ceres_data_loop-OutcomeSafe _ bytes_in len _ small (bytes_in / 4 + 1) 0 r.event r.event_buffer
      range (omega arith) (omega arith))
  where
    len : ℕ
    len = r.event.event_header.length

    bytes_in : ℕ
    bytes_in = contiguous_readable r.ring_buffer
