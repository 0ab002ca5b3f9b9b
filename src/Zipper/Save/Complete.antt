-- ===== src/Zipper/Save/Complete.antt =====
-- A `save_event` of fakernet_code/zipper.c whose writes work succeeds.
use mathlib.Core.Path.{ap₂}
use fpga_tools.Prelude.{
  ℕ, zero, suc, ◌+◌, ◌≡◌, ◌≤◌, ◌<◌, inl, inr, refl, Bool, true, false, not, ◌||◌, arith, Option,
  none, some, Bool-cases, List, [], length,
}
use fpga_tools.Prelude.{if◌then◌else◌, ◌==◌}
use fpga_tools.Zipper.{
  EventRecord, Zipper, event_id_hash, in_mask, fontus_device_id, max_device_number, network16,
  network32, network64, data_format_version, Saving, going, failed, write_item, write_reply,
  write_devices, save_event,
}
use fpga_tools.Zipper.Save.{HasBytes, event_bytes, Wrote, save_event-Wrote}

abbrev goes_on : Saving → Bool
goes_on (going total file) = true
goes_on (failed file) = false

Wrote-going :
    {bytes : List ℕ} (s : Saving)
    → Wrote bytes s
    → goes_on s ≡ true
    → s ≡ going (length bytes) bytes
Wrote-going (going total file) (same, counted) on = ap₂ going counted same
Wrote-going (failed file) w on = absurd (ground arith)

module _ (fwrite : ℕ → List ℕ → ℕ) (payload : ℕ → List ℕ)
    (works : (n : ℕ) (item : List ℕ) → length item ≤ fwrite n item) where
  write_item-going :
      (size : ℕ) (item : List ℕ) (s : Saving)
      → size ≡ length item
      → 0 < size
      → goes_on s ≡ true
      → goes_on (write_item fwrite size item s) ≡ true
  unfolding write_item
  write_item-going size item (failed file) whole some_bytes on = on
  write_item-going size item (going total file) whole some_bytes on =
      ground (arith, works (length file) item)

  write_reply-going :
      (reply : Option ℕ) (s : Saving)
      → HasBytes payload reply
      → goes_on s ≡ true
      → goes_on (write_reply fwrite payload reply s) ≡ true
  unfolding write_reply
  write_reply-going none s has on = absurd (omega (arith, has))
  write_reply-going (some reply) s has on =
      write_item-going (length (payload reply)) (payload reply) s refl has on

  write_devices-going :
      (mask : ℕ) (replies : ℕ → Option ℕ) (left i : ℕ) (s : Saving)
      → i + left ≤ max_device_number
      → ((j : ℕ) → j < max_device_number → in_mask mask j ≡ true → HasBytes payload (replies j))
      → goes_on s ≡ true
      → goes_on (write_devices fwrite payload mask replies left i s) ≡ true
  unfolding write_devices
  write_devices-going mask replies zero i s within complete on = on
  write_devices-going mask replies (suc left) i s within complete on =
      write_devices-going mask replies left (i + 1) _ (omega arith) complete
        (elim (Bool-cases (i == fontus_device_id || not (in_mask mask i))) [
          | inl skipped ↦ rw skipped on
          | inr wanted ↦
              rw wanted
                (write_reply-going (replies i) s (complete i (omega arith) (ground arith)) on)
        ])

  -- If fwrite writes every item whole, and each board of the mask has sent some bytes, save_event
  -- succeeds: it writes the whole event, its header and what the boards sent, and returns the
  -- number of its bytes.
  pub save_event_complete :
      (mask : ℕ) (z : Zipper) (event_id : ℕ)
      → ((j : ℕ)
          → j < max_device_number
          → in_mask mask j ≡ true
          → HasBytes payload ((z.event_registry (event_id_hash event_id)).replies j))
      → let bytes = event_bytes payload mask (z.event_registry (event_id_hash event_id)) event_id in
        save_event fwrite payload mask z event_id ≡ going (length bytes) bytes
  unfolding save_event
  save_event_complete mask z event_id complete =
      Wrote-going _ (save_event-Wrote fwrite payload mask z event_id) (
        write_devices-going mask event.replies max_device_number 0 _ (omega arith) complete
          (elim (Bool-cases (in_mask mask fontus_device_id)) [
            | inl fontus ↦ rw fontus (
                write_reply-going (event.replies fontus_device_id) _
                  (complete 0 (omega arith) fontus) started)
            | inr without ↦ rw without started
          ]))
    where
      event : EventRecord
      event = z.event_registry (event_id_hash event_id)

      started :
          goes_on (
            write_item fwrite 8 (network64 event.bit_word) (
              write_item fwrite 2 (network16 data_format_version) (
                write_item fwrite 2
                  (network16 (if event.bit_word == mask then 0 else 1))
                  (write_item fwrite 4 (network32 event_id) (going 0 [])))))
          ≡ true
      started = write_item-going 8 (network64 event.bit_word) _ refl (omega arith) (
          write_item-going 2 (network16 data_format_version) _ refl (omega arith) (
            write_item-going 2 (network16 (if event.bit_word == mask then 0 else 1)) _ refl
              (omega arith)
              (write_item-going 4 (network32 event_id) (going 0 []) refl (omega arith) refl)))
