-- ===== src/Zipper/Stats/Extremes.antt =====
-- The timestamps that `evaluate_event_stats` finds, against the list of the boards' timestamps.
use fpga_tools.Prelude.{
  ℕ, zero, suc, ◌+◌, ◌-◌, ◌/◌, ◌%◌, ◌^◌, ◌<◌, ◌≤◌, ◌≡◌, inl, inr, refl, ap, ap₂, ◌∙◌, sym, arith,
  false, ◌||◌, Option, none, some, Option-cases, Bool-cases, List, [], ◌∷◌, bit, ==_iff,
  if◌then◌else◌, ltb, ◌==◌, swap32, swap64,
}
use Prim.Native.Nat.{max}
use mathlib.Core.Path.{subst}
use native.Mathlib.Nat.{pow-suc, div-div-eq-div-mul}
use fpga_tools.Zipper.{fontus_device_id, Zipper, hash_table_size}
use fpga_tools.Zipper.Stats.{
  Timestamps, ProcessingStats, timestamp_of, grab_data_from_pubsub_message, see_device, see_devices,
  store_timestamps, evaluate_event_stats,
}

-- The timestamps of the CERES boards of the mask that sent data, for the devices from `i` on.
unfoldable pub ceres_timestamps : (ℕ → List ℕ) → ℕ → (ℕ → Option ℕ) → ℕ → ℕ → List ℕ
ceres_timestamps payload mask replies zero i = []
ceres_timestamps payload mask replies (suc left) i =
    let rest = ceres_timestamps payload mask replies left (i + 1) in
    if i == fontus_device_id || bit i mask == 0
    then rest
    else elim (replies i) [ none ↦ rest | some reply ↦ timestamp_of (payload reply) ∷ rest ]

unfoldable pub largest_from : ℕ → List ℕ → ℕ
largest_from t [] = t
largest_from t (x ∷ xs) = largest_from (if ltb t x then x else t) xs

-- The smallest of a list, and 0 for the empty one.
unfoldable pub smallest_from : ℕ → List ℕ → ℕ
smallest_from t [] = t
smallest_from t (x ∷ xs) = smallest_from (if ltb x t then x else t) xs

shifted : (mask i : ℕ) → mask / 2 ^ i / 2 ≡ mask / 2 ^ (i + 1)
shifted mask i =
    div-div-eq-div-mul mask (2 ^ i) 2
    ∙ ap (λ t. mask / t) (sym (pow-suc 2 i) ∙ ap (λ n. 2 ^ n) (omega arith))

unfoldable pub AllPositive : List ℕ → Type 0
AllPositive [] = Unit
AllPositive (t ∷ ts) = (0 < t) × AllPositive ts

-- What the loop keeps of the timestamps of a list.
keep : List ℕ → ℕ → ℕ → ℕ × ℕ
keep [] largest smallest = (largest, smallest)
keep (t ∷ ts) largest smallest =
    keep ts (if largest == 0 || ltb largest t then t else largest)
      (if smallest == 0 || ltb t smallest then t else smallest)

module _ (payload : ℕ → List ℕ) (mask : ℕ) (replies : ℕ → Option ℕ) where
  no_more : (left i : ℕ) → mask / 2 ^ i ≡ 0 → ceres_timestamps payload mask replies left i ≡ []
  unfolding ceres_timestamps
  no_more zero i over = refl
  no_more (suc left) i over =
      ground (arith, no_more left (i + 1) (sym (shifted mask i) ∙ ap (λ t. t / 2) over))

  module _ (left i : ℕ) (s : Timestamps) where
    see_devices-over :
        mask / 2 ^ i ≡ 0 → see_devices payload replies (suc left) i (mask / 2 ^ i) s ≡ s
    unfolding see_devices
    see_devices-over over = rw over refl

    -- The rest of the loop after device `i`.
    abbrev after : Timestamps → Timestamps
    after = see_devices payload replies left (i + 1) (mask / 2 ^ (i + 1))

    see_devices-more :
        (mask / 2 ^ i == 0) ≡ false
        → see_devices payload replies (suc left) i (mask / 2 ^ i) s
          ≡ after (
              if bit i mask == 0
              then s
              else see_device i (grab_data_from_pubsub_message payload (replies i)) s)
    unfolding see_devices
    see_devices-more more = rw (more, shifted mask i) refl

  -- What device `i` adds.
  abbrev with_device : ℕ → Timestamps → Timestamps
  with_device i s =
      if bit i mask == 0
      then s
      else see_device i (grab_data_from_pubsub_message payload (replies i)) s

  keep-with_device :
      (left i : ℕ) (s : Timestamps)
      → keep (ceres_timestamps payload mask replies (suc left) i) s.largest s.smallest
        ≡ keep
            (ceres_timestamps payload mask replies left (i + 1))
            (with_device i s).largest
            (with_device i s).smallest
  unfolding ceres_timestamps keep see_device grab_data_from_pubsub_message
  keep-with_device left i s = elim (Option-cases (replies i)) [
    | inl missing ↦ rw missing (ground arith)
    | inr (reply, got) ↦ rw got (ground arith)
  ]

  keep-nothing :
      (i : ℕ) (s : Timestamps)
      → let out = see_devices payload replies zero i (mask / 2 ^ i) s in
        keep (ceres_timestamps payload mask replies zero i) s.largest s.smallest
        ≡ (out.largest, out.smallest)
  unfolding see_devices ceres_timestamps keep
  keep-nothing i s = refl

  keep-see_devices :
      (left i : ℕ) (s : Timestamps)
      → let out = see_devices payload replies left i (mask / 2 ^ i) s in
        keep (ceres_timestamps payload mask replies left i) s.largest s.smallest
        ≡ (out.largest, out.smallest)
  unfolding keep
  keep-see_devices zero i s = keep-nothing i s
  keep-see_devices (suc left) i s = elim (Bool-cases (mask / 2 ^ i == 0)) [
    | inl over ↦
        rw
          (
            see_devices-over left i s ((==_iff _ _).0 over),
            no_more (suc left) i ((==_iff _ _).0 over),
          )
          refl
    | inr more ↦
        rw (see_devices-more left i s more)
          (keep-with_device left i s ∙ keep-see_devices left (i + 1) (with_device i s))
  ]

-- From a first timestamp on, the loop keeps the largest and the smallest one.
keep_lem :
    (ts : List ℕ) (largest smallest : ℕ)
    → 0 < smallest
    → smallest ≤ largest
    → AllPositive ts
    → keep ts largest smallest ≡ (largest_from largest ts, smallest_from smallest ts)
unfolding keep largest_from smallest_from AllPositive
keep_lem [] largest smallest some_ts le pos = refl
keep_lem (t ∷ ts) largest smallest some_ts le pos =
    ap₂ (keep ts) (ground arith) (ground arith)
    ∙ keep_lem ts (if ltb largest t then t else largest) (if ltb t smallest then t else smallest)
        (ground arith) (ground arith) pos.1

All64 : List ℕ → Type 0
All64 [] = Unit
All64 (t ∷ ts) = (t < 2 ^ 64) × All64 ts

-- The largest of 64-bit numbers is one, and it is not below the smallest.
extremes_in :
    (ts : List ℕ) (largest smallest : ℕ)
    → smallest ≤ largest
    → largest < 2 ^ 64
    → All64 ts
    → (smallest_from smallest ts ≤ largest_from largest ts) × (largest_from largest ts < 2 ^ 64)
unfolding largest_from smallest_from All64
extremes_in [] largest smallest le small all = (le, small)
extremes_in (t ∷ ts) largest smallest le small all =
    extremes_in ts (if ltb largest t then t else largest) (if ltb t smallest then t else smallest)
      (ground arith) (ground arith) all.1

timestamp_of-lt : (bytes : List ℕ) → timestamp_of bytes < 2 ^ 64
unfolding timestamp_of swap64 swap32
timestamp_of-lt bytes = omega arith

ceres_timestamps-All64 :
    (payload : ℕ → List ℕ) (mask : ℕ) (replies : ℕ → Option ℕ) (left i : ℕ)
    → All64 (ceres_timestamps payload mask replies left i)
unfolding ceres_timestamps All64
ceres_timestamps-All64 payload mask replies zero i = tt
ceres_timestamps-All64 payload mask replies (suc left) i =
    let rest = ceres_timestamps-All64 payload mask replies left (i + 1) in
    elim (Bool-cases (i == fontus_device_id || bit i mask == 0)) [
      | inl skipped ↦ rw skipped rest
      | inr taken ↦ elim (Option-cases (replies i)) [
        | inl missing ↦ rw (taken, missing) rest
        | inr (reply, got) ↦ rw (taken, got) (timestamp_of-lt (payload reply), rest)
      ]
    ]

largest_from-pos : (ts : List ℕ) (t : ℕ) → 0 < t → 0 < largest_from t ts
unfolding largest_from
largest_from-pos [] t pos = pos
largest_from-pos (x ∷ xs) t pos = largest_from-pos xs (if ltb t x then x else t) (ground arith)

-- What the loop finds, from the start.
seen_extremes :
    (payload : ℕ → List ℕ) (mask garbage t : ℕ) (ts : List ℕ) (replies : ℕ → Option ℕ)
    → ceres_timestamps payload mask replies 64 0 ≡ t ∷ ts
    → AllPositive (t ∷ ts)
    → let seen =
        see_devices payload replies 64 0 mask
          (record { largest = 0; smallest = 0; fontus = garbage }) in
      (seen.largest ≡ largest_from t ts) × (seen.smallest ≡ smallest_from t ts)
unfolding AllPositive keep
seen_extremes payload mask garbage t ts replies e pos =
    (ap (λ (p : ℕ × ℕ). p.0) found, ap (λ (p : ℕ × ℕ). p.1) found)
  where
    start : Timestamps
    start = record { largest = 0; smallest = 0; fontus = garbage }

    seen : Timestamps
    seen = see_devices payload replies 64 0 mask start

    found : ◌≡◌ {A = ℕ × ℕ} (seen.largest, seen.smallest) (largest_from t ts, smallest_from t ts)
    found =
        ap (λ m. let s = see_devices payload replies 64 0 m start in (s.largest, s.smallest))
          {x = mask} {y = mask / 2 ^ 0} (omega arith)
        ∙ sym (keep-see_devices payload mask replies 64 0 start)
        ∙ ap (λ l. keep l 0 0) e
        ∙ keep_lem ts t t pos.0 (omega arith) pos.1

store_timestamps_lem :
    (event_id : ℕ) (seen : Timestamps) (stats : ProcessingStats)
    → 0 < seen.largest
    → seen.smallest ≤ seen.largest
    → seen.largest < 2 ^ 64
    → let stats' = store_timestamps event_id seen stats in
      (stats'.latest_timestamp ≡ seen.largest)
      × (stats'.max_delta_t ≡ max stats.max_delta_t (seen.largest - seen.smallest))
      × (stats'.trigger_id ≡ event_id)
unfolding store_timestamps
store_timestamps_lem event_id seen stats some_ceres le small = ground arith

-- If the CERES boards of the mask that sent data have the timestamps t ∷ ts, none of them 0, then
-- evaluate_event_stats stores the largest of them as the latest timestamp, and raises max_delta_t
-- to the difference of the largest and the smallest if that is more.
pub evaluate_event_stats_lem :
    (payload : ℕ → List ℕ) (mask garbage event_id t : ℕ) (ts : List ℕ) (z : Zipper)
    (stats : ProcessingStats)
    → ceres_timestamps payload mask (z.event_registry (event_id % hash_table_size)).replies 64 0
      ≡ t ∷ ts
    → AllPositive (t ∷ ts)
    → let stats' = evaluate_event_stats payload mask garbage z event_id stats in
      (stats'.latest_timestamp ≡ largest_from t ts)
      × (stats'.max_delta_t ≡ max stats.max_delta_t (largest_from t ts - smallest_from t ts))
      × (stats'.trigger_id ≡ event_id)
unfolding evaluate_event_stats AllPositive All64
evaluate_event_stats_lem payload mask garbage event_id t ts z stats e pos = (
  stored.0 ∙ found.0,
  stored.1 ∙ ap₂ (λ l s. max stats.max_delta_t (l - s)) found.0 found.1,
  stored.2,
)
  where
    replies : ℕ → Option ℕ
    replies = (z.event_registry (event_id % hash_table_size)).replies

    seen : Timestamps
    seen =
        see_devices payload replies 64 0 mask
          (record { largest = 0; smallest = 0; fontus = garbage })

    found : (seen.largest ≡ largest_from t ts) × (seen.smallest ≡ smallest_from t ts)
    found = seen_extremes payload mask garbage t ts replies e pos

    all : All64 (t ∷ ts)
    all = subst All64 e (ceres_timestamps-All64 payload mask replies 64 0)

    range : (smallest_from t ts ≤ largest_from t ts) × (largest_from t ts < 2 ^ 64)
    range = extremes_in ts t t (omega arith) all.0 all.1

    stored :
        let stats' = store_timestamps event_id seen stats in
        (stats'.latest_timestamp ≡ seen.largest)
        × (stats'.max_delta_t ≡ max stats.max_delta_t (seen.largest - seen.smallest))
        × (stats'.trigger_id ≡ event_id)
    stored =
        store_timestamps_lem event_id seen stats (rw (found.0) (largest_from-pos ts t pos.0))
          (rw (found.0, found.1) range.0) (rw (found.0) range.1)
