-- ===== src/Zipper/Registry.antt =====
-- The event registry and the queue of complete events: what is recorded always has its data.
use fpga_tools.Prelude.{
  ℕ, ◌^◌, ◌≤◌, ◌<◌, ◌≡◌, ◌≢◌, ◌⊎◌, inl, inr, sym, ◌∙◌, arith, none, some, Option-cases, Bool-cases,
  ◌∷◌,
}
use fpga_tools.Prelude.{
  if◌then◌else◌, ◌==◌, ==_iff, bit, bit_or, bit_and, bit-bit_or, bit_other, bit_and-bit,
  bit_and_comm, bit_or_absorb,
}
use native.Mathlib.Nat.{one-le-pow, zero-div}
use fpga_tools.Zipper.{
  ReadyEventQueue, EventRecord, Zipper, update, queue_length, flag_complete_event,
  pop_complete_event_id, event_id_hash, device_bit, add_waveform, register_waveform, free_event,
  in_mask,
}

-- Every device whose bit is set has a reply.
abbrev pub HasReplies : EventRecord → Type 0
HasReplies slot = (j : ℕ) → bit j slot.bit_word ≡ 1 → slot.replies j ≢ none

pub record IsValid (z : Zipper) : Type 0 where
  pub slots : (h : ℕ) → HasReplies (z.event_registry h)
  pub queue_in : z.event_ready_queue.events_available ≤ queue_length

-- The mask test of `save_event`, `free_event` and `send_event_to_redis` reads one bit of the mask.
pub in_mask_iff : (mask i : ℕ) → in_mask mask i ≡ (bit i mask == 1)
unfolding in_mask
in_mask_iff mask i = ground (arith, bit_and-bit mask i, one-le-pow i 2)

bit_set : (j device word : ℕ) → bit j (bit_or word (2 ^ device)) ≡ 1 → j ≢ device → bit j word ≡ 1
bit_set j device word h ne = omega (arith, bit-bit_or j word (2 ^ device), bit_other j device ne)

add_waveform-HasReplies :
    (device event wf : ℕ) (slot : EventRecord)
    → HasReplies slot
    → HasReplies (add_waveform device event wf slot)
unfolding add_waveform update
add_waveform-HasReplies device event wf slot v j = elim (Bool-cases (j == device)) [
  | inl same ↦ λ set. ground arith
  | inr other ↦ λ set. ground (
    arith,
    v j,
    bit-bit_or j slot.bit_word (2 ^ device),
    bit_other j device (λ e. cc (sym other ∙ (==_iff j device).1 e)),
  )
]

flag_complete_event-le :
    (event : ℕ) (q : ReadyEventQueue)
    → q.events_available ≤ queue_length
    → (flag_complete_event event q).events_available ≤ queue_length
unfolding flag_complete_event
flag_complete_event-le event q h = ground arith

update-HasReplies :
    (registry : ℕ → EventRecord) (h : ℕ) (slot : EventRecord)
    → ((i : ℕ) → HasReplies (registry i))
    → HasReplies slot
    → (i : ℕ) → HasReplies (update registry h slot i)
unfolding update
update-HasReplies registry h slot v new i = elim (Bool-cases (i == h)) [
  | inl same ↦ simp same new
  | inr other ↦ simp other (v i)
]

-- The record of a waveform that is kept.
abbrev pub slot_after : ℕ → ℕ → ℕ → Zipper → EventRecord
slot_after device event wf z = add_waveform device event wf (z.event_registry (event_id_hash event))

-- The two outcomes of a registration: tossed, or recorded.
register_waveform_cases :
    (mask device event wf : ℕ) (z : Zipper) {z' : Zipper}
    → register_waveform mask device event wf z ≡ some z'
    → (z' ≡ record z { freed = wf ∷ z.freed })
      ⊎ (z' ≡ record z {
        last_seen_event = update z.last_seen_event device event;
        event_registry =
            update z.event_registry (event_id_hash event) (slot_after device event wf z);
        event_ready_queue =
            if (slot_after device event wf z).bit_word == mask
            then flag_complete_event event z.event_ready_queue
            else z.event_ready_queue;
      })
unfolding register_waveform
register_waveform_cases mask device event wf z e = elim (Option-cases (device_bit device)) [
  | inl undefined ↦ ground arith
  | inr (shifted, got) ↦ elim (Bool-cases (bit_and shifted mask == 0)) [
    | inl tossed ↦ inl (ground arith)
    | inr kept ↦ inr (ground arith)
  ]
]

-- From a well-formed state, and where its shift by the device is defined, register_waveform keeps
-- the state well formed: each device bit that is set in a record has its reply, and the queue of
-- complete events stays within its length.
pub register_waveform-IsValid :
    (mask device event wf : ℕ) (z : Zipper) {z' : Zipper}
    → IsValid z
    → register_waveform mask device event wf z ≡ some z'
    → IsValid z'
register_waveform-IsValid mask device event wf z {z'} v e =
    elim (register_waveform_cases mask device event wf z e) [
      | inl tossed ↦ rw tossed (record { slots = v.slots; queue_in = v.queue_in })
      | inr kept ↦ rw kept (record {
        slots =
            update-HasReplies z.event_registry (event_id_hash event) (slot_after device event wf z)
              v.slots
              (add_waveform-HasReplies device event wf (z.event_registry (event_id_hash event))
                (v.slots _));
        queue_in =
            ground (arith, flag_complete_event-le event z.event_ready_queue v.queue_in, v.queue_in);
      })
    ]

-- free_event keeps a well-formed registry and queue well formed.
pub free_event-IsValid :
    (mask event_id : ℕ) (z : Zipper) → IsValid z → IsValid (free_event mask event_id z)
unfolding free_event
free_event-IsValid mask event_id z v = record {
  slots =
      update-HasReplies z.event_registry (event_id_hash event_id)
        (record (z.event_registry (event_id_hash event_id)) { bit_word = 0 }) v.slots
        (λ j set. absurd (omega (arith, zero-div (2 ^ j))));
  queue_in = v.queue_in;
}

-- After flag_complete_event on a queue that is not full, pop_complete_event_id returns that event
-- and leaves the queue as it was: the newest event is handed out first.
pub pop-flag_complete_event :
    (event : ℕ) (q : ReadyEventQueue)
    → q.events_available < queue_length
    → let (popped, q') = pop_complete_event_id (flag_complete_event event q) in
      (popped ≡ event)
      × (q'.events_available ≡ q.events_available)
      × ((i : ℕ) → i < q.events_available → q'.event_ids i ≡ q.event_ids i)
unfolding pop_complete_event_id flag_complete_event update
pop-flag_complete_event event q h = (ground arith, ground arith, λ i below. ground arith)

-- A device below 31 whose bit is in the mask is recorded.
pub register_waveform-kept :
    (mask device event wf : ℕ) (z : Zipper)
    → device < 31
    → bit device mask ≡ 1
    → register_waveform mask device event wf z
      ≡ some (record z {
        last_seen_event = update z.last_seen_event device event;
        event_registry =
            update z.event_registry (event_id_hash event) (slot_after device event wf z);
        event_ready_queue =
            if (slot_after device event wf z).bit_word == mask
            then flag_complete_event event z.event_ready_queue
            else z.event_ready_queue;
      })
unfolding register_waveform device_bit
register_waveform-kept mask device event wf z small set =
    ground (arith, bit_and_comm (2 ^ device) mask, bit_and-bit mask device, one-le-pow device 2)

-- A waveform, of a device below 31 in the mask, whose event collides with another one in the table
-- takes over the record: its number and its device bit are new, and the replies of the other
-- devices stay those of the old event.
pub register_waveform_collision :
    (mask device old event wf : ℕ) (z : Zipper)
    → device < 31
    → bit device mask ≡ 1
    → event_id_hash old ≡ event_id_hash event
    → old ≢ event
    → (z.event_registry (event_id_hash old)).event_number ≡ old
    → (z.event_registry (event_id_hash old)).bit_word ≢ 0
    → (z' : Zipper) × (register_waveform mask device event wf z ≡ some z')
      × ((z'.event_registry (event_id_hash old)).event_number ≡ event)
      × ((z'.event_registry (event_id_hash old)).bit_word ≡ 2 ^ device)
      × ((z'.event_registry (event_id_hash old)).replies device ≡ some wf)
      × ((j : ℕ)
          → j ≢ device
          → (z'.event_registry (event_id_hash old)).replies j
            ≡ (z.event_registry (event_id_hash old)).replies j)
unfolding update add_waveform
register_waveform_collision mask device old event wf z small set same ne held busy = (
  _,
  register_waveform-kept mask device event wf z small set,
  ground (arith, same),
  ground (arith, same),
  ground (arith, same),
  λ j other. ground (arith, same),
)

-- A further waveform, of a device below 31 in the mask, for an event whose record is complete
-- flags the event as complete once more.
pub register_waveform_again :
    (mask device event wf : ℕ) (z : Zipper)
    → device < 31
    → bit device mask ≡ 1
    → (z.event_registry (event_id_hash event)).event_number ≡ event
    → (z.event_registry (event_id_hash event)).bit_word ≡ mask
    → (z' : Zipper) × (register_waveform mask device event wf z ≡ some z')
      × (z'.event_ready_queue ≡ flag_complete_event event z.event_ready_queue)
      × ((z'.event_registry (event_id_hash event)).bit_word ≡ mask)
unfolding update add_waveform
register_waveform_again mask device event wf z small set held complete = (
  _,
  register_waveform-kept mask device event wf z small set,
  ground (arith, held, complete, bit_or_absorb device mask set),
  ground (arith, held, complete, bit_or_absorb device mask set),
)
