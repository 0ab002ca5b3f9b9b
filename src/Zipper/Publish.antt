-- ===== src/Zipper/Publish.antt =====
-- What `send_event_to_redis` of fakernet_code/zipper.c tells its subscribers about an event's status.
use mathlib.Core.List.{append_assoc, append-nil}
use fpga_tools.Prelude.{
  ℕ, Bool, zero, suc, ◌+◌, ◌%◌, ◌/◌, ◌^◌, ◌≡◌, inl, inr, refl, ap, ◌∙◌, true, false, not, ◌||◌,
  arith, Option, none, some, Option-cases, Bool-cases, List, [], ◌∷◌, ◌++◌, take, drop,
}
use fpga_tools.Prelude.{if◌then◌else◌, ◌==◌, swap32, u16}
use fpga_tools.Zipper.{
  EventRecord, Zipper, in_mask, fontus_device_id, max_device_number, network16, network32,
  network64, data_format_version, hash_table_size, gather_devices, send_event_to_redis,
}

module _ (payload : ℕ → List ℕ) (mask : ℕ) (replies : ℕ → Option ℕ) where
  gather_devices-none : (left i : ℕ) → gather_devices payload mask replies left i none ≡ none
  unfolding gather_devices
  gather_devices-none zero i = refl
  gather_devices-none (suc left) i = refl

  -- The buffer only grows.
  gather_devices-grows :
      (left i : ℕ) (buf out : List ℕ)
      → gather_devices payload mask replies left i (some buf) ≡ some out
      → (rest : List ℕ) × (out ≡ buf ++ rest)
  unfolding gather_devices
  gather_devices-grows zero i buf out e = ([], simp append-nil (ground arith))
  gather_devices-grows (suc left) i buf out e =
      elim (Bool-cases (i == fontus_device_id || not (in_mask mask i))) [
        | inl skipped ↦ gather_devices-grows left (i + 1) buf out (ground arith)
        | inr sent ↦ elim (Option-cases (replies i)) [
          | inl missing ↦ absurd (ground (arith, gather_devices-none left (i + 1)))
          | inr (reply, got) ↦
              (let rest =
                  gather_devices-grows left (i + 1) (buf ++ payload reply) out (ground arith) in
                (payload reply ++ rest.0, rest.1 ∙ append_assoc buf (payload reply) rest.0))
        ]
      ]

status_zero : (b : Bool) → u16 (swap32 (if b then 0 else 1)) ≡ 0
unfolding swap32
status_zero true = refl
status_zero false = refl

-- Every event that send_event_to_redis publishes carries the status 0, also one that lacks the
-- data of some devices.
pub send_event_to_redis_status :
    (payload : ℕ → List ℕ) (mask : ℕ) (z : Zipper) (event_id : ℕ) (out : List ℕ)
    → send_event_to_redis payload mask z event_id ≡ some out
    → take 2 (drop 4 out) ≡ 0 ∷ 0 ∷ []
unfolding send_event_to_redis
send_event_to_redis_status payload mask z event_id out e =
    elim (Bool-cases (in_mask mask fontus_device_id)) [
      | inr without ↦ of_header [] (ground (arith, append-nil header))
      | inl with_fontus ↦ elim (Option-cases (event.replies fontus_device_id)) [
        | inl missing ↦
            absurd
              (ground (arith, gather_devices-none payload mask event.replies max_device_number 0))
        | inr (reply, got) ↦ of_header (payload reply) (ground arith)
      ]
    ]
  where
    event : EventRecord
    event = z.event_registry (event_id % hash_table_size)

    status : ℕ
    status = u16 (swap32 (if event.bit_word == mask then 0 else 1))

    header : List ℕ
    header =
        network32 event_id
        ++ (status % 256 ∷ status / 2 ^ 8 % 256 ∷ [])
        ++ network16 data_format_version
        ++ network64 event.bit_word

    of_header :
        (fontus : List ℕ)
        → gather_devices payload mask event.replies max_device_number 0 (some (header ++ fontus))
          ≡ some out
        → take 2 (drop 4 out) ≡ 0 ∷ 0 ∷ []
    of_header fontus e =
        let grows =
          gather_devices-grows payload mask event.replies max_device_number 0 (header ++ fontus) out
            e in
        ap (λ l. take 2 (drop 4 l)) grows.1
        ∙ ap (λ s. s % 256 ∷ s / 2 ^ 8 % 256 ∷ []) (status_zero (event.bit_word == mask))
