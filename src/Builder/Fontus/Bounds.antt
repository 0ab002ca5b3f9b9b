-- ===== src/Builder/Fontus/Bounds.antt =====
-- Where the reader of a FONTUS event writes, and the events on which it hangs.
use fpga_tools.Prelude.{
  ℕ, zero, suc, ◌+◌, ◌*◌, ◌^◌, ◌≤◌, ◌<◌, ◌≡◌, inl, inr, refl, ◌∙◌, true, arith, some, Bool-cases,
}
use fpga_tools.Prelude.{leb, Memory}
use fpga_tools.Builder.Header.{FontusTrigHeader, fontus_write_to_disk}
use fpga_tools.Builder.Event.{EventBuffer, EventInProgress, event_buffer_size}
use fpga_tools.Builder.Fontus.{fontus_publish_event, fontus_word, fontus_data_loop, waiting}
use fpga_tools.Builder.Fontus.Copy.{Placed, loop_stop, loop_more}

by_channel : (n ch : ℕ) → ch < 4 → ch * ((n + 1) * 4) ≤ 3 * ((n + 1) * 4)
by_channel n zero h = omega arith
by_channel n (suc zero) h = omega arith
by_channel n (suc (suc zero)) h = omega arith
by_channel n (suc (suc (suc zero))) h = omega arith
by_channel n (suc (suc (suc (suc ch)))) h = absurd (omega arith)

-- Every place of a FONTUS event with a 16-bit length lies in the event buffer with the four bytes
-- of its word.
pub Placed-in_bounds :
    (channel_length : ℕ) (event : EventInProgress FontusTrigHeader) (eb : EventBuffer)
    → channel_length < 2 ^ 16
    → Placed channel_length event eb
    → eb.num_bytes + 4 ≤ event_buffer_size
Placed-in_bounds channel_length event eb small p = omega (
  arith,
  p.filled,
  p.within,
  p.channel_in,
  by_channel channel_length event.current_channel p.channel_in,
)

skipped :
    (word : ℕ) (event : EventInProgress FontusTrigHeader) (eb : EventBuffer)
    → event.wf_header_read ≡ true
    → 0 < event.samples_read
    → fontus_word 0 word event eb ≡ some (event, eb)
unfolding fontus_word
skipped word event eb seen past = ground arith

module _ (load : ℕ → ℕ) (n : ℕ) where
  -- For a FONTUS header with length 0 the data loop, after the header of one of the four
  -- waveforms, stores no word, completes no event and finds no error, whatever the data.
  pub fontus_data_loop_empty_hangs :
      (fuel p : ℕ) (event : EventInProgress FontusTrigHeader) (eb : EventBuffer)
      → event.wf_header_read ≡ true
      → 0 < event.samples_read
      → event.current_channel < 4
      → (q : ℕ) × (fontus_data_loop load n 0 fuel p event eb ≡ waiting event eb q)
  unfolding fontus_data_loop
  fontus_data_loop_empty_hangs zero p event eb seen past channel_in = (p, refl)
  fontus_data_loop_empty_hangs (suc fuel) p event eb seen past channel_in =
      elim (Bool-cases (leb (p + 3) n)) [
        | inr dry ↦ (p, loop_stop load n 0 fuel p event eb dry)
        | inl more ↦
            (let rest = fontus_data_loop_empty_hangs fuel (p + 4) event eb seen past channel_in in
              (
                rest.0,
                loop_more load n 0 fuel p event eb event eb more
                      (skipped (load p) event eb seen past) (ground arith)
                    ∙ rest.1,
              ))
      ]

-- On both streams fontus_publish_event sends the bytes that fontus_write_to_disk writes, whatever
-- the two buffers held before.
pub fontus_publish_event-written :
    (h : FontusTrigHeader) (m m' : Memory)
    → fontus_publish_event h m ≡ (fontus_write_to_disk h m', fontus_write_to_disk h m')
unfolding fontus_publish_event fontus_write_to_disk
fontus_publish_event-written h m m' = refl
