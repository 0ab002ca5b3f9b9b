-- ===== src/Tests/Zipper.antt =====
-- A registry with an event of two boards.
use fpga_tools.Prelude.{ℕ, ◌^◌, ◌≡◌, arith, none, some, List, [], ◌∷◌, length}
use native.Mathlib.Nat.{zero-div}
use fpga_tools.Zipper.{ReadyEventQueue, EventRecord, Zipper, going, event_id_hash, save_event}
use fpga_tools.Zipper.Registry.{IsValid}
use fpga_tools.Zipper.Save.{Wrote, event_bytes, save_event-Wrote}
use fpga_tools.Zipper.Save.Complete.{save_event_complete}

abbrev queue : ReadyEventQueue
queue = record { event_ids = λ (i : ℕ). 0; events_available = 0 }

abbrev free_record : EventRecord
free_record = record { bit_word = 0; event_number = 0; replies = λ (j : ℕ). none }

abbrev pub empty_zipper : Zipper
empty_zipper = record {
  event_ready_queue = queue;
  event_registry = λ (h : ℕ). free_record;
  last_seen_event = λ (j : ℕ). 0;
  freed = [];
}

-- Event 7 has the data of devices 0 and 1.
abbrev pub busy_zipper : Zipper
busy_zipper = record empty_zipper {
  event_registry =
      λ (h : ℕ). record { bit_word = 3; event_number = 7; replies = λ (j : ℕ). some j };
}

pub empty_zipper-IsValid : IsValid empty_zipper
empty_zipper-IsValid = record {
  slots = λ h j set. absurd (omega (arith, zero-div (2 ^ j)));
  queue_in = omega arith;
}

abbrev payload : ℕ → List ℕ
payload r = r ∷ []

abbrev pub never_fails : ℕ → List ℕ → ℕ
never_fails n item = length item

abbrev busy_event : EventRecord
busy_event = busy_zipper.event_registry (event_id_hash 7)

save_event-Wrote_example :
    Wrote (event_bytes payload 3 busy_event 7) (save_event never_fails payload 3 busy_zipper 7)
save_event-Wrote_example = save_event-Wrote never_fails payload 3 busy_zipper 7

save_event_complete_example :
    let bytes = event_bytes payload 3 busy_event 7 in
    save_event never_fails payload 3 busy_zipper 7 ≡ going (length bytes) bytes
save_event_complete_example =
    save_event_complete never_fails payload (λ n item. omega arith) 3 busy_zipper 7
      (λ j within wanted. omega arith)
