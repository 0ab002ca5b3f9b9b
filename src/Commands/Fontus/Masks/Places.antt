-- ===== src/Commands/Fontus/Masks/Places.antt =====
-- The bits that the words for a trigger stand for, in fakernet_code/fontus_if.c.
use fpga_tools.Prelude.{
  ℕ, ◌-◌, ◌^◌, ◌<◌, ◌≡◌, ◌≢◌, refl, ap, arith, ◌==◌, true, inl, inr, if◌then◌else◌, bit, bit_or,
  bit_and, passes_below, passes_below_lem, ==_iff, Bool-cases, bit-bit_or, bit-bit_and, bit_self,
  bit_other,
}
use Prim.Native.String.{String}
use fpga_tools.Commands.{Texts}
use fpga_tools.Commands.Fontus.Masks.{get_bit_for_trigger_specifier}

-- The ten thresholds of each detector, and the external inputs.
pub get_bit_for_trigger_specifier_bound :
    (texts : Texts) (location first second : String) (place : ℕ)
    → get_bit_for_trigger_specifier texts location first second ≡ inr place
    → place < 29
unfolding get_bit_for_trigger_specifier
get_bit_for_trigger_specifier_bound texts location first second place found = ground arith

-- The mask of all bits but one, by evaluation.
others_pass :
    passes_below
      (λ place.
        passes_below (λ j. bit j (2 ^ 32 - 1 - 2 ^ place) == (if j == place then 0 else 1)) 32)
      29
    ≡ true
unfolding passes_below
others_pass = refl

all_but_one :
    (place j : ℕ)
    → place < 29
    → j < 32
    → bit j (2 ^ 32 - 1 - 2 ^ place) ≡ (if j == place then 0 else 1)
all_but_one place j fits below =
    let p = λ (place j : ℕ). bit j (2 ^ 32 - 1 - 2 ^ place) == (if j == place then 0 else 1) in
    let row = passes_below_lem (λ place. passes_below (p place) 32) place 29 fits others_pass in
    let cell = passes_below_lem (p place) j 32 below row in
    (==_iff (bit j (2 ^ 32 - 1 - 2 ^ place)) (if j == place then 0 else 1)).0 cell

pub bit-with_bit :
    (mask place j : ℕ) → bit j (bit_or mask (2 ^ place)) ≡ (if j == place then 1 else bit j mask)
bit-with_bit mask place j = elim (Bool-cases (j == place)) [
  | inl same ↦
      let here : j ≡ place = ground arith in
      let set = ap (λ t. bit t (2 ^ place)) here in
      ground (arith, bit-bit_or j mask (2 ^ place), bit_self place, set)
  | inr apart ↦
      let ne : j ≢ place = λ here. absurd (ground arith) in
      ground (arith, bit-bit_or j mask (2 ^ place), bit_other j place ne)
]

pub bit-without_bit :
    (mask place j : ℕ)
    → place < 29
    → j < 32
    → bit j (bit_and mask (2 ^ 32 - 1 - 2 ^ place)) ≡ (if j == place then 0 else bit j mask)
bit-without_bit mask place j fits below =
    ground (arith, bit-bit_and j mask (2 ^ 32 - 1 - 2 ^ place), all_but_one place j fits below)
