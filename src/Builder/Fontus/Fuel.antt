-- ===== src/Builder/Fontus/Fuel.antt =====
-- The fuel of the data loop of `fontus_read_proc` in fakernet_code/data_builder.c.
use mathlib.Core.Path.{subst}
use fpga_tools.Prelude.{ℕ, zero, suc, ◌+◌, ◌*◌, ◌<◌, inl, inr, sym, arith, Option-cases, Bool-cases}
use fpga_tools.Prelude.{leb, ◌==◌}
use fpga_tools.Builder.Header.{FontusTrigHeader}
use fpga_tools.Builder.Event.{EventBuffer, EventInProgress}
use fpga_tools.Builder.Fontus.{fontus_word, fontus_data_loop, Outcome, trashed, complete, waiting}
use fpga_tools.Builder.Fontus.Copy.{loop_stop, loop_trash, loop_complete, loop_more}

-- A loop over `n` bytes that waits has fewer than three bytes left.
abbrev pub IsFinished : ℕ → Outcome → Type 0
IsFinished n (trashed eb) = Unit
IsFinished n (complete h eb bytes_read) = Unit
IsFinished n (waiting event eb bytes_read) = n < bytes_read + 3

module _ (load : ℕ → ℕ) (n channel_length : ℕ) where
  -- With fuel for all but two of the remaining bytes, four bytes to a round, the data loop of
  -- fontus_read_proc ends with a wrong waveform header, with a complete event, or with fewer than
  -- three bytes left.
  pub fontus_data_loop-IsFinished :
      (fuel p : ℕ) (event : EventInProgress FontusTrigHeader) (eb : EventBuffer)
      → n < p + 4 * fuel + 3
      → IsFinished n (fontus_data_loop load n channel_length fuel p event eb)
  unfolding fontus_data_loop
  fontus_data_loop-IsFinished zero p event eb enough = omega arith
  fontus_data_loop-IsFinished (suc fuel) p event eb enough = elim (Bool-cases (leb (p + 3) n)) [
    | inr dry ↦
        subst (IsFinished n) (sym (loop_stop load n channel_length fuel p event eb dry))
          (ground arith)
    | inl more ↦ elim (Option-cases (fontus_word channel_length (load p) event eb)) [
      | inl bad ↦
          subst (IsFinished n) (sym (loop_trash load n channel_length fuel p event eb more bad)) tt
      | inr ((event', eb'), took) ↦ elim (Bool-cases (event'.current_channel == 4)) [
        | inl full ↦
            subst (IsFinished n)
              (sym (loop_complete load n channel_length fuel p event eb event' eb' more took full))
              tt
        | inr on ↦
            subst (IsFinished n)
              (sym (loop_more load n channel_length fuel p event eb event' eb' more took on))
              (fontus_data_loop-IsFinished fuel (p + 4) event' eb' (omega arith))
      ]
    ]
  ]
