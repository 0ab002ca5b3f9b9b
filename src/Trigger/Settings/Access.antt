-- ===== src/Trigger/Settings/Access.antt =====
-- What reading and writing the settings does on a bus whose registers hold what is written.
use fpga_tools.Prelude.{
  ℕ, ◌+◌, ◌-◌, ◌*◌, ◌/◌, ◌%◌, ◌^◌, ◌≡◌, ◌≢◌, refl, sym, ap, ◌∙◌, true, false, arith, none, some,
}
use fpga_tools.Prelude.{bit_or, bit_and, ◌<<<◌, ◌>>>◌, u32}
use fpga_tools.Prelude.{bit_and_low, bit_and_shifted, bit_or_shifted}
use fpga_tools.Trigger.{
  Bus, AxiTriggerPipeline, refused, read_trig_pipeline_value, write_trig_pipeline_value,
  sync_reg_offset,
}
use fpga_tools.Trigger.Control.{do_sync, read_sync_length}
use fpga_tools.Trigger.Settings.{
  Setting, in_range, offset_of, stored_word, read_setting, write_setting,
}
use fpga_tools.Trigger.Settings.Map.{offset_of_apart}
use fpga_tools.Trigger.Settings.Ranges.{
  read_setting-in_range, read_setting-refused, write_setting-in_range, write_setting-refused,
}

-- The length stands in the word of the sync register, and its low bit is cleared again.
sync_word-length :
    (length : ℕ)
    → bit_and
        (bit_and (bit_or (u32 (bit_and length (2 ^ 16 - 1) <<< 4)) 1) (2 ^ 20 - 2) >>> 4)
        (2 ^ 16 - 1)
      ≡ length % 2 ^ 16
sync_word-length length = ground (
  arith,
  bit_and_low 16 length,
  bit_or_shifted 4 (length % 2 ^ 16) 1,
  bit_and_shifted 1 (length % 2 ^ 16 * 2 ^ 4 + 1) (2 ^ 19 - 1),
  bit_and_low 19 ((length % 2 ^ 16 * 2 ^ 4 + 1) / 2),
  bit_and_low 16 (length % 2 ^ 16),
)

-- A bus whose writes work and whose registers hold what was written last.
pub record HoldsWrites (bus : Bus) : Type 0 where
  pub accepts : (base o d : ℕ) (s : bus.State) → (bus.write_addr base o d s).0 ≡ 0
  pub same :
      (base o d : ℕ) (s : bus.State)
      → (bus.double_read_addr base o (bus.write_addr base o d s).1).0 ≡ some d
  pub other :
      (base o o' d : ℕ) (s : bus.State)
      → o ≢ o'
      → (bus.double_read_addr base o' (bus.write_addr base o d s).1).0
        ≡ (bus.double_read_addr base o' s).0

module _ (bus : Bus) (tp_axi : AxiTriggerPipeline) where
  register_accepts :
      (o d : ℕ) (s : bus.State)
      → HoldsWrites bus
      → (write_trig_pipeline_value bus tp_axi o d s).0 ≡ 0
  unfolding write_trig_pipeline_value
  register_accepts o d s holds = holds.accepts tp_axi.axi_addr o d s

  register_same :
      (o d : ℕ) (s : bus.State)
      → HoldsWrites bus
      → (read_trig_pipeline_value bus tp_axi o (write_trig_pipeline_value bus tp_axi o d s).1).0 ≡ d
  unfolding read_trig_pipeline_value write_trig_pipeline_value
  register_same o d s holds =
      ap (λ reply. elim reply [ none ↦ refused | some ret ↦ ret ])
        (holds.same tp_axi.axi_addr o d s)

  register_other :
      (o o' d : ℕ) (s : bus.State)
      → HoldsWrites bus
      → o ≢ o'
      → (read_trig_pipeline_value bus tp_axi o' (write_trig_pipeline_value bus tp_axi o d s).1).0
        ≡ (read_trig_pipeline_value bus tp_axi o' s).0
  unfolding read_trig_pipeline_value write_trig_pipeline_value
  register_other o o' d s holds ne =
      ap (λ reply. elim reply [ none ↦ refused | some ret ↦ ret ])
        (holds.other tp_axi.axi_addr o o' d s ne)

  -- A read or a write of a setting out of its range returns -1 and does not touch the bus.
  pub setting_refused :
      (k : Setting) (d : ℕ) (s : bus.State)
      → in_range k ≡ false
      → (read_setting bus tp_axi k s ≡ (refused, s))
        × (write_setting bus tp_axi k d s ≡ (refused, s))
  setting_refused k d s h =
      (read_setting-refused bus tp_axi k s h, write_setting-refused bus tp_axi k d s h)

  -- On a bus whose registers hold what is written, the write of a setting in range returns 0, and
  -- the read of that setting gives the word written (0 or 1 for the pulse generator).
  pub write_setting-read_setting :
      (k : Setting) (d : ℕ) (s : bus.State)
      → HoldsWrites bus
      → in_range k ≡ true
      → ((write_setting bus tp_axi k d s).0 ≡ 0)
        × ((read_setting bus tp_axi k (write_setting bus tp_axi k d s).1).0 ≡ stored_word k d)
  write_setting-read_setting k d s holds h = (
    ap (λ r. r.0) (write_setting-in_range bus tp_axi k d s h)
        ∙ register_accepts (offset_of k) (stored_word k d) s holds,
    ap (λ r. r.0) (read_setting-in_range bus tp_axi k _ h)
        ∙ ap (λ r. (read_trig_pipeline_value bus tp_axi (offset_of k) r.1).0)
            (write_setting-in_range bus tp_axi k d s h)
        ∙ register_same (offset_of k) (stored_word k d) s holds,
  )

  -- On a bus whose registers hold what is written, writing a setting of the trigger pipeline in
  -- range leaves what every other setting in range reads as.
  pub write_setting-read_other :
      (k k' : Setting) (d : ℕ) (s : bus.State)
      → HoldsWrites bus
      → in_range k ≡ true
      → in_range k' ≡ true
      → k ≢ k'
      → (read_setting bus tp_axi k' (write_setting bus tp_axi k d s).1).0
        ≡ (read_setting bus tp_axi k' s).0
  write_setting-read_other k k' d s holds h h' ne =
      ap (λ r. r.0) (read_setting-in_range bus tp_axi k' _ h')
      ∙ ap (λ r. (read_trig_pipeline_value bus tp_axi (offset_of k') r.1).0)
          (write_setting-in_range bus tp_axi k d s h)
      ∙ register_other (offset_of k) (offset_of k') (stored_word k d) s holds
          (offset_of_apart k k' h h' ne)
      ∙ sym (ap (λ r. r.0) (read_setting-in_range bus tp_axi k' s h'))

  do_sync-eq :
      (length : ℕ) (s : bus.State)
      → HoldsWrites bus
      → do_sync bus tp_axi length s
        ≡ write_trig_pipeline_value bus tp_axi sync_reg_offset
            (bit_and (bit_or (u32 (bit_and length (2 ^ 16 - 1) <<< 4)) 1) (2 ^ 20 - 2))
            (write_trig_pipeline_value bus tp_axi sync_reg_offset
              (bit_or (u32 (bit_and length (2 ^ 16 - 1) <<< 4)) 1)
              s).1
  unfolding do_sync
  do_sync-eq length s holds =
      simp
        (register_accepts sync_reg_offset (bit_or (u32 (bit_and length (2 ^ 16 - 1) <<< 4)) 1) s
          holds)
        refl

  -- On a bus whose registers hold what is written, do_sync returns 0 and read_sync_length then
  -- gives the low 16 bits of the length.
  pub do_sync-read_sync_length :
      (length : ℕ) (s : bus.State)
      → HoldsWrites bus
      → ((do_sync bus tp_axi length s).0 ≡ 0)
        × ((read_sync_length bus tp_axi (do_sync bus tp_axi length s).1).0 ≡ length % 2 ^ 16)
  unfolding read_sync_length
  do_sync-read_sync_length length s holds = (
    ap (λ r. r.0) (do_sync-eq length s holds) ∙ register_accepts sync_reg_offset _ _ holds,
    ap
          (λ r.
            bit_and ((read_trig_pipeline_value bus tp_axi sync_reg_offset r.1).0 >>> 4)
              (2 ^ 16 - 1))
          (do_sync-eq length s holds)
        ∙ ap (λ w. bit_and (w >>> 4) (2 ^ 16 - 1)) (register_same sync_reg_offset _ _ holds)
        ∙ sync_word-length length,
  )
