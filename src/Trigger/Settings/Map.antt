-- ===== src/Trigger/Settings/Map.antt =====
-- The address map: no two settings share a register.
use fpga_tools.Prelude.{ℕ, ◌-◌, ◌/◌, ◌%◌, ◌≡◌, ◌≢◌, refl, sym, ap, ◌∙◌, true, arith}
use fpga_tools.Prelude.{if◌then◌else◌, ltb}
use fpga_tools.Trigger.Settings.{
  Setting, in_range, offset_of, inner_multiplicity_threshold, veto_multiplicity_threshold,
  inner_esum_threshold, veto_esum_threshold, cngs_trigger_threshold, multiplicity_width,
  inner_multiplicity_delay, veto_multiplicity_delay, inner_esum_delay, veto_esum_delay,
  external_delay, cngs_beam_delay, cngs_cngs_delay, inner_multiplicity_gate, veto_multiplicity_gate,
  inner_esum_gate, veto_esum_gate, external_gate, cngs_beam_gate, cngs_cngs_gate, trigger_mask,
  trigger_veto_mask, trigger_length, led_trigger_length, kicker_trigger_length,
  pulse_generator_enable, threshold_enable_mask, trigger_mask_enable, self_trigger_enable,
  auto_trig_length, auto_trig_rate, auto_trig_enable,
}

-- The setting that owns an offset.
unfoldable pub setting_at : ℕ → Setting
setting_at offset =
    if ltb offset 12
    then pulse_generator_enable
    else if ltb offset 16
    then kicker_trigger_length
    else if ltb offset 20
    then led_trigger_length
    else if ltb offset 28
    then auto_trig_length
    else if ltb offset 32
    then auto_trig_rate
    else if ltb offset 36
    then multiplicity_width
    else if ltb offset 40
    then auto_trig_enable
    else if ltb offset 44
    then cngs_trigger_threshold
    else if ltb offset 68
    then inner_multiplicity_threshold ((offset - 48) / 4)
    else if ltb offset 100
    then inner_esum_threshold ((offset - 80) / 4)
    else if ltb offset 132
    then veto_multiplicity_threshold ((offset - 112) / 4)
    else if ltb offset 164
    then veto_esum_threshold ((offset - 144) / 4)
    else if ltb offset 228
    then inner_multiplicity_delay ((offset - 208) / 4)
    else if ltb offset 248
    then inner_esum_delay ((offset - 228) / 4)
    else if ltb offset 268
    then veto_multiplicity_delay ((offset - 248) / 4)
    else if ltb offset 288
    then veto_esum_delay ((offset - 268) / 4)
    else if ltb offset 324
    then external_delay ((offset - 288) / 12) ((offset - 288) / 4 % 3)
    else if ltb offset 328
    then cngs_beam_delay
    else if ltb offset 332
    then cngs_cngs_delay
    else if ltb offset 356
    then inner_multiplicity_gate ((offset - 336) / 4)
    else if ltb offset 376
    then inner_esum_gate ((offset - 356) / 4)
    else if ltb offset 396
    then veto_multiplicity_gate ((offset - 376) / 4)
    else if ltb offset 416
    then veto_esum_gate ((offset - 396) / 4)
    else if ltb offset 452
    then external_gate ((offset - 416) / 12) ((offset - 416) / 4 % 3)
    else if ltb offset 456
    then cngs_beam_gate
    else if ltb offset 460
    then cngs_cngs_gate
    else if ltb offset 504
    then trigger_mask ((offset - 464) / 4)
    else if ltb offset 552
    then trigger_veto_mask ((offset - 512) / 4)
    else if ltb offset 600
    then trigger_length ((offset - 560) / 4)
    else if ltb offset 772
    then threshold_enable_mask
    else if ltb offset 776
    then trigger_mask_enable
    else self_trigger_enable

-- An offset in range leads back to its setting.
setting_at-offset_of : (k : Setting) → in_range k ≡ true → setting_at (offset_of k) ≡ k
unfolding setting_at in_range offset_of
setting_at-offset_of (inner_multiplicity_threshold channel) h = ground arith
setting_at-offset_of (veto_multiplicity_threshold channel) h = ground arith
setting_at-offset_of (inner_esum_threshold channel) h = ground arith
setting_at-offset_of (veto_esum_threshold channel) h = ground arith
setting_at-offset_of cngs_trigger_threshold h = refl
setting_at-offset_of multiplicity_width h = refl
setting_at-offset_of (inner_multiplicity_delay channel) h = ground arith
setting_at-offset_of (veto_multiplicity_delay channel) h = ground arith
setting_at-offset_of (inner_esum_delay channel) h = ground arith
setting_at-offset_of (veto_esum_delay channel) h = ground arith
setting_at-offset_of (external_delay external channel) h = ground arith
setting_at-offset_of cngs_beam_delay h = refl
setting_at-offset_of cngs_cngs_delay h = refl
setting_at-offset_of (inner_multiplicity_gate channel) h = ground arith
setting_at-offset_of (veto_multiplicity_gate channel) h = ground arith
setting_at-offset_of (inner_esum_gate channel) h = ground arith
setting_at-offset_of (veto_esum_gate channel) h = ground arith
setting_at-offset_of (external_gate external channel) h = ground arith
setting_at-offset_of cngs_beam_gate h = refl
setting_at-offset_of cngs_cngs_gate h = refl
setting_at-offset_of (trigger_mask channel) h = ground arith
setting_at-offset_of (trigger_veto_mask channel) h = ground arith
setting_at-offset_of (trigger_length channel) h = ground arith
setting_at-offset_of led_trigger_length h = refl
setting_at-offset_of kicker_trigger_length h = refl
setting_at-offset_of pulse_generator_enable h = refl
setting_at-offset_of threshold_enable_mask h = refl
setting_at-offset_of trigger_mask_enable h = refl
setting_at-offset_of self_trigger_enable h = refl
setting_at-offset_of auto_trig_length h = refl
setting_at-offset_of auto_trig_rate h = refl
setting_at-offset_of auto_trig_enable h = refl

-- Two settings in range that differ have different registers.
pub offset_of_apart :
    (k k' : Setting) → in_range k ≡ true → in_range k' ≡ true → k ≢ k' → offset_of k ≢ offset_of k'
offset_of_apart k k' h h' ne same =
    ne (sym (setting_at-offset_of k h) ∙ ap setting_at same ∙ setting_at-offset_of k' h')
