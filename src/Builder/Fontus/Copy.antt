-- ===== src/Builder/Fontus/Copy.antt =====
-- The data of a FONTUS event: the words that `fontus_data_loop` takes are laid down in their order.
use mathlib.Core.Path.{subst}
use fpga_tools.Prelude.{
  ℕ, zero, suc, ◌+◌, ◌*◌, ◌≤◌, ◌<◌, ◌≡◌, ◌⊎◌, inl, inr, refl, sym, ap, true, false, arith, Option,
  none, some, Option-cases, Bool-cases,
}
use fpga_tools.Prelude.{leb, ◌==◌}
use fpga_tools.Builder.Header.{FontusTrigHeader, fontus_header_size}
use fpga_tools.Builder.Event.{EventBuffer, EventInProgress, put_word}
use fpga_tools.Builder.Fontus.{
  expectation, fontus_offset, fontus_word, fontus_data_loop, Outcome, trashed, complete, waiting,
}

-- The size of an event whose waveforms have `channel_length` samples.
abbrev pub event_size : ℕ → ℕ
event_size channel_length = fontus_header_size + 4 * ((channel_length + 1) * 4)

-- Where a reader stands in its event, and that its buffer holds all of the event before that.
pub record Placed (channel_length : ℕ) (event : EventInProgress FontusTrigHeader) (eb : EventBuffer)
    : Type 0 where
  pub channel_in : event.current_channel < 4
  pub before : event.wf_header_read ≡ false → event.samples_read ≡ 0
  pub within : event.samples_read ≤ channel_length
  pub filled : eb.num_bytes ≡ fontus_offset channel_length event.current_channel event.samples_read

-- What becomes of a word: it goes to the end of the buffer, and the reader moves on, to the next
-- place or past the last channel of a full event.
abbrev pub IsStep :
    ℕ
    → ℕ
    → EventInProgress FontusTrigHeader
    → EventBuffer
    → Option (EventInProgress FontusTrigHeader × EventBuffer)
    → Type 0
IsStep channel_length word event eb none = Unit
IsStep channel_length word event eb (some (event', eb')) =
    (eb' ≡ put_word eb eb.num_bytes word)
    × (event'.event_header ≡ event.event_header)
    × (Placed channel_length event' eb'
        ⊎ ((event'.current_channel ≡ 4) × (eb'.num_bytes ≡ event_size channel_length)))

within_true : (a b : ℕ) → a ≤ b → leb a b ≡ true
within_true a b h = ground arith

module _ (channel_length word : ℕ) (event : EventInProgress FontusTrigHeader)
    (eb : EventBuffer) where
  offset_is_end :
      Placed channel_length event eb
      → (sample : ℕ) → event.samples_read ≡ sample
      → put_word eb (fontus_offset channel_length event.current_channel sample) word
        ≡ put_word eb eb.num_bytes word
  offset_is_end p sample e = ap (λ o. put_word eb o word) (omega (arith, p.filled, e))

  fontus_word-IsStep :
      0 < channel_length
      → Placed channel_length event eb
      → IsStep channel_length word event eb (fontus_word channel_length word event eb)
  unfolding fontus_word put_word
  fontus_word-IsStep some_samples p = elim (Bool-cases event.wf_header_read) [
    | inr new ↦ elim (Bool-cases (word == expectation event.current_channel)) [
      | inl right ↦ simp new (
          simp right (
            offset_is_end p 0 (p.before new),
            refl,
            inl (record {
              channel_in = p.channel_in;
              before = λ seen. absurd (ground arith);
              within = some_samples;
              filled = ground (arith, p.filled, p.before new);
            }),
          ))
      | inr wrong ↦ simp new (simp wrong tt)
    ]
    | inl seen ↦ elim (Bool-cases (event.samples_read == channel_length)) [
      | inl last ↦ simp seen (
          simp (within_true event.samples_read channel_length p.within) (
            simp last (
              offset_is_end p event.samples_read refl,
              refl,
              elim (Bool-cases (event.current_channel == 3)) [
                | inl full ↦ inr (ground arith, ground (arith, p.filled))
                | inr more ↦ inl (record {
                  channel_in = ground (arith, p.channel_in);
                  before = λ new. refl;
                  within = omega arith;
                  filled = ground (arith, p.filled);
                })
              ],
            )))
      | inr more ↦ simp seen (
          simp (within_true event.samples_read channel_length p.within) (
            simp more (
              offset_is_end p event.samples_read refl,
              refl,
              inl (record {
                channel_in = p.channel_in;
                before = λ new. absurd (ground arith);
                within = ground (arith, p.within);
                filled = ground (arith, p.filled);
              }),
            )))
    ]
  ]

-- An event buffer with `k` more words at its end, those at `p`, `p + 4` and so on.
pub stored_words : (ℕ → ℕ) → EventBuffer → ℕ → ℕ → EventBuffer
stored_words load eb p zero = eb
stored_words load eb p (suc k) = stored_words load (put_word eb eb.num_bytes (load p)) (p + 4) k

-- The outcome of a loop that starts at `p` with the header `h` and the buffer `eb`: the words that it
-- took, all of them and in their order, stand at the end of the buffer; a complete event has the size
-- of its header's length, and an event that waits is well placed.
abbrev pub IsCopied : ℕ → (ℕ → ℕ) → ℕ → FontusTrigHeader → EventBuffer → Outcome → Type 0
IsCopied channel_length load p h eb (trashed eb') = (k : ℕ) × (eb' ≡ stored_words load eb p k)
IsCopied channel_length load p h eb (complete h' eb' bytes_read) =
    (k : ℕ) × (eb' ≡ stored_words load eb p k)
    × (bytes_read ≡ p + 4 * k)
    × (h' ≡ h)
    × (eb'.num_bytes ≡ event_size channel_length)
IsCopied channel_length load p h eb (waiting event' eb' bytes_read) =
    (k : ℕ) × (eb' ≡ stored_words load eb p k)
    × (bytes_read ≡ p + 4 * k)
    × (event'.event_header ≡ h)
    × Placed channel_length event' eb'

module _ (load : ℕ → ℕ) (n channel_length : ℕ) where
  module _ (fuel p : ℕ) (event : EventInProgress FontusTrigHeader) (eb : EventBuffer) where
    pub loop_stop :
        leb (p + 3) n ≡ false
        → fontus_data_loop load n channel_length (suc fuel) p event eb ≡ waiting event eb p
    unfolding fontus_data_loop
    loop_stop dry = ground arith

    pub loop_trash :
        leb (p + 3) n ≡ true
        → fontus_word channel_length (load p) event eb ≡ none
        → fontus_data_loop load n channel_length (suc fuel) p event eb ≡ trashed eb
    unfolding fontus_data_loop
    loop_trash more bad = ground arith

    module _ (event' : EventInProgress FontusTrigHeader) (eb' : EventBuffer) where
      pub loop_complete :
          leb (p + 3) n ≡ true
          → fontus_word channel_length (load p) event eb ≡ some (event', eb')
          → (event'.current_channel == 4) ≡ true
          → fontus_data_loop load n channel_length (suc fuel) p event eb
            ≡ complete event'.event_header eb' (p + 4)
      unfolding fontus_data_loop
      loop_complete more took full = ground arith

      pub loop_more :
          leb (p + 3) n ≡ true
          → fontus_word channel_length (load p) event eb ≡ some (event', eb')
          → (event'.current_channel == 4) ≡ false
          → fontus_data_loop load n channel_length (suc fuel) p event eb
            ≡ fontus_data_loop load n channel_length fuel (p + 4) event' eb'
      unfolding fontus_data_loop
      loop_more more took on = ground arith

  one_more :
      (h : FontusTrigHeader) (p : ℕ) (eb : EventBuffer) (o : Outcome)
      → IsCopied channel_length load (p + 4) h (put_word eb eb.num_bytes (load p)) o
      → IsCopied channel_length load p h eb o
  unfolding stored_words fontus_data_loop
  one_more h p eb (trashed eb') (k, copied) = (suc k, copied)
  one_more h p eb (complete h' eb' b) (k, copied, read, same, rest) =
      (suc k, copied, omega (arith, read), same, rest)
  one_more h p eb (waiting ev' eb' b) (k, copied, read, same, rest) =
      (suc k, copied, omega (arith, read), same, rest)

  moved :
      (p : ℕ) {h h' : FontusTrigHeader} {eb eb' : EventBuffer} (o : Outcome)
      → eb' ≡ eb
      → h' ≡ h
      → IsCopied channel_length load p h' eb' o
      → IsCopied channel_length load p h eb o
  moved p {h} {h'} {eb} {eb'} o e same c =
      subst (λ x. IsCopied channel_length load p h x o) e
        (subst (λ x. IsCopied channel_length load p x eb' o) same c)

  module _ (event' : EventInProgress FontusTrigHeader) (eb' : EventBuffer) where
    full_size :
        (event'.current_channel == 4) ≡ true
        → Placed channel_length event' eb'
          ⊎ ((event'.current_channel ≡ 4) × (eb'.num_bytes ≡ event_size channel_length))
        → eb'.num_bytes ≡ event_size channel_length
    full_size full (inl placed) = absurd (ground (arith, placed.channel_in))
    full_size full (inr (four, size)) = size

    still-Placed :
        (event'.current_channel == 4) ≡ false
        → Placed channel_length event' eb'
          ⊎ ((event'.current_channel ≡ 4) × (eb'.num_bytes ≡ event_size channel_length))
        → Placed channel_length event' eb'
    still-Placed on (inl placed) = placed
    still-Placed on (inr (four, size)) = absurd (ground arith)

  -- The data loop of fontus_read_proc, from any place of an event whose waveforms have samples:
  -- the words it takes are appended to the event buffer in their order, also before a wrong
  -- waveform header, and an event that it completes has exactly the size its header announces.
  pub fontus_data_loop-IsCopied :
      (fuel p : ℕ) (event : EventInProgress FontusTrigHeader) (eb : EventBuffer)
      → 0 < channel_length
      → Placed channel_length event eb
      → IsCopied channel_length load p event.event_header eb
          (fontus_data_loop load n channel_length fuel p event eb)
  unfolding stored_words fontus_data_loop
  fontus_data_loop-IsCopied zero p event eb nonempty placed = (0, refl, omega arith, refl, placed)
  fontus_data_loop-IsCopied (suc fuel) p event eb nonempty placed =
      elim (Bool-cases (leb (p + 3) n)) [
        | inr dry ↦ rw (loop_stop fuel p event eb dry) (0, refl, omega arith, refl, placed)
        | inl more ↦ elim (Option-cases (fontus_word channel_length (load p) event eb)) [
          | inl bad ↦ rw (loop_trash fuel p event eb more bad) (0, refl)
          | inr ((event', eb'), took) ↦
              (let step =
                  subst (IsStep channel_length (load p) event eb) took
                    (fontus_word-IsStep channel_length (load p) event eb nonempty placed) in
                elim (Bool-cases (event'.current_channel == 4)) [
                  | inl full ↦
                      subst (IsCopied channel_length load p event.event_header eb)
                        (sym (loop_complete fuel p event eb event' eb' more took full))
                        (1, step.0, omega arith, step.1, full_size event' eb' full step.2)
                  | inr on ↦
                      subst (IsCopied channel_length load p event.event_header eb)
                        (sym (loop_more fuel p event eb event' eb' more took on))
                        (one_more event.event_header p eb _ (
                          moved (p + 4) _ step.0 step.1 (
                            fontus_data_loop-IsCopied fuel (p + 4) event' eb' nonempty
                              (still-Placed event' eb' on step.2))))
                ])
        ]
      ]
