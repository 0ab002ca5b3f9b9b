-- ===== src/Zipper/Save.antt =====
-- What `save_event` of fakernet_code/zipper.c writes, whichever writes fail, and what it counts.
pub mod Complete
use mathlib.Core.List.{append_assoc, append-nil}
use mathlib.Core.Path.{subst, ap₂}
use fpga_tools.Prelude.{
  ℕ, zero, suc, ◌+◌, ◌/◌, ◌%◌, ◌^◌, ◌≡◌, ◌≤◌, ◌<◌, inl, inr, refl, ap, sym, ◌∙◌, Bool, true, false,
  not, ◌||◌, ◌&&◌, arith, Option, none, some, Bool-cases, List, [], ◌∷◌, ◌++◌, length,
  length-append, take, drop,
}
use fpga_tools.Prelude.{if◌then◌else◌, ◌==◌, ltb, leb, swap16, swap32, swap64}
use fpga_tools.Zipper.{
  EventRecord, Zipper, event_id_hash, in_mask, fontus_device_id, max_device_number, network16,
  network32, network64, data_format_version, Saving, going, failed, write_item, write_reply,
  write_devices, save_event,
}

-- A number in 2, 4 and 8 bytes, the top byte first.
abbrev pub big16 : ℕ → List ℕ
big16 w = w / 2 ^ 8 % 256 ∷ w % 256 ∷ []

abbrev pub big32 : ℕ → List ℕ
big32 w = w / 2 ^ 24 % 256 ∷ w / 2 ^ 16 % 256 ∷ w / 2 ^ 8 % 256 ∷ w % 256 ∷ []

abbrev pub big64 : ℕ → List ℕ
big64 w = big32 (w / 2 ^ 32) ++ big32 w

network16_lem : (w : ℕ) → network16 w ≡ big16 w
unfolding swap16
network16_lem w = ground arith

network32_lem : (w : ℕ) → network32 w ≡ big32 w
unfolding swap32
network32_lem w = ground arith

network64_lem : (w : ℕ) → network64 w ≡ big64 w
unfolding swap64 swap32
network64_lem w = ground arith

module _ (payload : ℕ → List ℕ) where
  -- The bytes of a reply, if there is one.
  abbrev pub reply_bytes : Option ℕ → List ℕ
  reply_bytes none = []
  reply_bytes (some reply) = payload reply

  abbrev pub HasBytes : Option ℕ → Type 0
  HasBytes reply = 0 < length (reply_bytes reply)

  -- The bytes of the boards of the mask from `i` on, `left` of them, without FONTUS.
  unfoldable pub boards_bytes : ℕ → (ℕ → Option ℕ) → ℕ → ℕ → List ℕ
  boards_bytes mask replies zero i = []
  boards_bytes mask replies (suc left) i =
      (if i == fontus_device_id || not (in_mask mask i) then [] else reply_bytes (replies i))
      ++ boards_bytes mask replies left (i + 1)

  -- An event in the file: its number, its status, the version, the mask of its boards, what FONTUS sent
  -- and what the other boards sent, in the order of their numbers.
  unfoldable pub event_bytes : ℕ → EventRecord → ℕ → List ℕ
  event_bytes mask event event_id =
      big32 event_id
      ++ big16 (if event.bit_word == mask then 0 else 1)
      ++ big16 1
      ++ big64 event.bit_word
      ++ (if in_mask mask fontus_device_id
          then reply_bytes (event.replies fontus_device_id)
          else [])
      ++ boards_bytes mask event.replies max_device_number 0

-- A save that goes on has written `bytes` and counted them; one that failed has written a first part.
abbrev pub Wrote : List ℕ → Saving → Type 0
Wrote bytes (going total file) = (file ≡ bytes) × (total ≡ length bytes)
Wrote bytes (failed file) = (rest : List ℕ) × (bytes ≡ file ++ rest)

take-length : (xs : List ℕ) → take (length xs) xs ≡ xs
take-length [] = refl
take-length (x ∷ xs) = ap (λ r. x ∷ r) (take-length xs)

take-drop : (n : ℕ) (xs : List ℕ) → take n xs ++ drop n xs ≡ xs
take-drop zero xs = refl
take-drop (suc n) [] = refl
take-drop (suc n) (x ∷ xs) = ap (λ r. x ∷ r) (take-drop n xs)

module _ (fwrite : ℕ → List ℕ → ℕ) (payload : ℕ → List ℕ) where
  write_item-Wrote :
      (bytes item : List ℕ) (size : ℕ) (s : Saving)
      → size ≡ length item
      → Wrote bytes s
      → Wrote (bytes ++ item) (write_item fwrite size item s)
  unfolding write_item
  write_item-Wrote bytes item size (failed file) whole (rest, w) =
      (rest ++ item, ap (λ l. l ++ item) w ∙ append_assoc file rest item)
  write_item-Wrote bytes item size (going total file) whole (same, counted) =
      elim (Bool-cases (ltb 0 size && leb size count)) [
        | inl written ↦ simp written (
          ap (λ l. l ++ take size item) same
              ∙ ap (λ n. bytes ++ take n item) whole
              ∙ ap (λ l. bytes ++ l) (take-length item),
          omega (arith, counted, whole, length-append bytes item),
        )
        | inr lost ↦ simp lost (
          drop count item,
          sym (
              append_assoc file (take count item) (drop count item)
              ∙ ap (λ l. file ++ l) (take-drop count item)
              ∙ ap (λ l. l ++ item) same),
        )
      ]
    where
      count : ℕ
      count = fwrite (length file) item

  -- A field of the header, whose bytes are known.
  write_field :
      (bytes : List ℕ) {item known : List ℕ}
      → item ≡ known
      → {size : ℕ} (s : Saving) → size ≡ length item
      → Wrote bytes s
      → Wrote (bytes ++ known) (write_item fwrite size item s)
  write_field bytes {item} e {size} s whole w =
      subst (λ l. Wrote (bytes ++ l) (write_item fwrite size item s)) e
        (write_item-Wrote bytes item size s whole w)

  write_reply-Wrote :
      (bytes : List ℕ) (reply : Option ℕ) (s : Saving)
      → Wrote bytes s
      → Wrote (bytes ++ reply_bytes payload reply) (write_reply fwrite payload reply s)
  unfolding write_reply
  write_reply-Wrote bytes none (failed file) (rest, w) = (rest, append-nil bytes ∙ w)
  write_reply-Wrote bytes none (going total file) (same, counted) =
      ([], append-nil bytes ∙ sym same ∙ sym (append-nil file))
  write_reply-Wrote bytes (some reply) s w =
      write_item-Wrote bytes (payload reply) (length (payload reply)) s refl w

  if-Wrote :
      (b : Bool) (bytes more : List ℕ) (s s' : Saving)
      → Wrote bytes s
      → Wrote (bytes ++ more) s'
      → Wrote (bytes ++ (if b then [] else more)) (if b then s else s')
  if-Wrote true bytes more s s' w w' = subst (λ l. Wrote l s) (sym (append-nil bytes)) w
  if-Wrote false bytes more s s' w w' = w'

  if-Wrote_then :
      (b : Bool) (bytes more : List ℕ) (s s' : Saving)
      → Wrote bytes s
      → Wrote (bytes ++ more) s'
      → Wrote (bytes ++ (if b then more else [])) (if b then s' else s)
  if-Wrote_then true bytes more s s' w w' = w'
  if-Wrote_then false bytes more s s' w w' = subst (λ l. Wrote l s) (sym (append-nil bytes)) w

  write_devices-Wrote :
      (mask : ℕ) (replies : ℕ → Option ℕ) (left i : ℕ) (bytes : List ℕ) (s : Saving)
      → Wrote bytes s
      → Wrote
          (bytes ++ boards_bytes payload mask replies left i)
          (write_devices fwrite payload mask replies left i s)
  unfolding write_devices boards_bytes
  write_devices-Wrote mask replies zero i bytes s w =
      subst (λ l. Wrote l s) (sym (append-nil bytes)) w
  write_devices-Wrote mask replies (suc left) i bytes s w =
      subst (λ l. Wrote l (write_devices fwrite payload mask replies (suc left) i s))
        (append_assoc bytes (if skipped then [] else board)
          (boards_bytes payload mask replies left (i + 1)))
        (write_devices-Wrote mask replies left (i + 1) (bytes ++ (if skipped then [] else board)) _
          (if-Wrote skipped bytes board s (write_reply fwrite payload (replies i) s) w
            (write_reply-Wrote bytes (replies i) s w)))
    where
      skipped : Bool
      skipped = i == fontus_device_id || not (in_mask mask i)

      board : List ℕ
      board = reply_bytes payload (replies i)

  -- Whichever calls of fwrite fail, and however much they write then: a save_event that succeeds
  -- has written exactly the event's number, status, version and mask, the top byte first, then
  -- what FONTUS sent and what the other boards of the mask sent, in the order of their numbers,
  -- and returns the number of these bytes; one that fails has written a first part of them.
  pub save_event-Wrote :
      (mask : ℕ) (z : Zipper) (event_id : ℕ)
      → let event = z.event_registry (event_id_hash event_id) in
        Wrote (event_bytes payload mask event event_id) (save_event fwrite payload mask z event_id)
  unfolding save_event event_bytes
  save_event-Wrote mask z event_id =
      write_devices-Wrote mask event.replies max_device_number 0 _ _ (
        if-Wrote_then (in_mask mask fontus_device_id) header
          (reply_bytes payload (event.replies fontus_device_id)) _ _ started
          (write_reply-Wrote header (event.replies fontus_device_id) _ started))
    where
      event : EventRecord
      event = z.event_registry (event_id_hash event_id)

      status : ℕ
      status = if event.bit_word == mask then 0 else 1

      header : List ℕ
      header = big32 event_id ++ big16 status ++ big16 1 ++ big64 event.bit_word

      numbered : Saving
      numbered = write_item fwrite 4 (network32 event_id) (going 0 [])

      flagged : Saving
      flagged = write_item fwrite 2 (network16 status) numbered

      versioned : Saving
      versioned = write_item fwrite 2 (network16 data_format_version) flagged

      started : Wrote header (write_item fwrite 8 (network64 event.bit_word) versioned)
      started = write_field _ (network64_lem event.bit_word) versioned refl (
          write_field _ (network16_lem 1) flagged refl (
            write_field _ (network16_lem status) numbered refl
              (write_field [] (network32_lem event_id) (going 0 []) refl (refl, refl))))
