-- ===== src/Commands/Ceres/Table/Answers.antt =====
-- The handlers of CERES store every value that their entries count.
use fpga_tools.Prelude.{
  ℕ, zero, suc, ◌≡◌, refl, Bool, true, false, ap, drop, arith, leb, ◌==◌, if◌then◌else◌, List, [],
  ◌∷◌, Option, none, some,
}
use fpga_tools.Trigger.{Bus}
use fpga_tools.Devices.{AxiDevice, Driver, minus_one, ◌>>=◌, pure}
use fpga_tools.Devices.Jesd.{jesd_error_count, jesd_read_error_rate, read_errors, read_jesd}
use fpga_tools.Commands.{All, ◌also◌, Answer, Func, func, legacy_func, ServerCommand}
use fpga_tools.Commands.Ceres.{CeresState, get_ceres_handle, jesd_switch, on_jesd}
use fpga_tools.Commands.Ceres.Links.{
  jesd_error_count_command, jesd_error_rate_command, read_jesd_rx_lane_buffer_adj_command,
}
use fpga_tools.Commands.Ceres.Table.{ceres_commands}

unfoldable pub length : {A : Type 0} → List A → ℕ
length [] = 0
length (x ∷ xs) = suc (length xs)

-- An answer without an error holds as many values as are sent, where more than one is sent.
unfoldable pub fills : ℕ → Answer → Bool
unfolding length
fills nresp none = true
fills nresp (some (resp, stores)) =
    if leb nresp 1 then true else if resp == 0 then leb nresp (length stores) else true

unfoldable pub FuncFillsResp : {S : Type 0} → ℕ → Func S → Type 0
unfolding fills
FuncFillsResp nresp (func f) = Unit {0}
FuncFillsResp {S} nresp (legacy_func f) = (args : ℕ → ℕ) (s : S) → fills nresp (f args s).0 ≡ true

abbrev pub FillsResp : {S : Type 0} → ServerCommand S → Type 0
FillsResp e = FuncFillsResp e.nresp e.call

-- The first `n` entries count one value at most.
are_small : {S : Type 0} → ℕ → List (ServerCommand S) → Bool
are_small zero es = true
are_small (suc n) [] = true
are_small (suc n) (e ∷ es) = let others = are_small n es in if leb e.nresp 1 then others else false

small-fills : (nresp : ℕ) (answer : Answer) → leb nresp 1 ≡ true → fills nresp answer ≡ true
unfolding fills
small-fills nresp none small = refl
small-fills nresp (some (resp, stores)) small =
    ap (λ (b : Bool). if b then true else if resp == 0 then leb nresp (length stores) else true)
      small

small-FuncFillsResp :
    {S : Type 0} (nresp : ℕ) (f : Func S) → leb nresp 1 ≡ true → FuncFillsResp nresp f
unfolding FuncFillsResp
small-FuncFillsResp nresp (func f) small = tt
small-FuncFillsResp nresp (legacy_func f) small = λ args s. small-fills nresp (f args s).0 small

are_small-FillsResp :
    {S : Type 0} (n : ℕ) (es : List (ServerCommand S))
    → are_small n es ≡ true
    → All FillsResp (drop n es)
    → All FillsResp es
unfolding are_small
are_small-FillsResp zero es small later = later
are_small-FillsResp (suc n) [] small later = tt
are_small-FillsResp (suc n) (e ∷ es) small later = (
  small-FuncFillsResp e.nresp e.call (ground arith),
  are_small-FillsResp n es (ground arith) later,
)

module _ (bus : Bus) (fuel : ℕ) where
  on_jesd-fills :
      (which : ℕ) (m : AxiDevice → Driver bus.State Answer) (s : CeresState bus)
      → ((jesd : AxiDevice) (t : bus.State) → fills 4 (m jesd t).0 ≡ true)
      → fills 4 (on_jesd bus (some (minus_one, [])) which m s).0 ≡ true
  unfolding on_jesd fills
  on_jesd-fills which m (handle, s) each = of_choice (jesd_switch which (get_ceres_handle handle))
    where
      of_choice :
          (o : Option AxiDevice)
          → fills 4
              (elim o as (λ x. Answer × CeresState bus) [
                | none ↦ (some (minus_one, []), (some (get_ceres_handle handle), s))
                | some jesd ↦ ((m jesd s).0, (some (get_ceres_handle handle), (m jesd s).1))
              ]).0
            ≡ true
      of_choice none = refl
      of_choice (some jesd) = each jesd s

  pub ceres_commands-FillsResp : All FillsResp (ceres_commands bus fuel)
  unfolding ceres_commands are_small FuncFillsResp fills jesd_error_count_command
      jesd_error_rate_command read_jesd_rx_lane_buffer_adj_command jesd_error_count
      jesd_read_error_rate read_errors
  ceres_commands-FillsResp =
      let table = ceres_commands bus fuel in
      are_small-FillsResp 23 table refl (
        (λ args s.
          on_jesd-fills (args 0)
            (λ jesd. do resp ← jesd_error_count bus jesd 1; pure (some (0, resp))) s
            (λ jesd t. refl))
        also (λ args s.
            on_jesd-fills (args 0)
              (λ jesd. do resp ← jesd_read_error_rate bus jesd; pure (some (0, resp))) s
              (λ jesd t. refl))
        also are_small-FillsResp 52 (drop 25 table) refl (
            (λ args s.
              on_jesd-fills (args 0)
                (λ jesd. do
                  a ← read_jesd bus jesd 0x830
                  b ← read_jesd bus jesd 0x870
                  c ← read_jesd bus jesd 0x8B0
                  d ← read_jesd bus jesd 0x8F0
                  pure (some (0, a ∷ b ∷ c ∷ d ∷ [])))
                s (λ jesd t. refl))
            also are_small-FillsResp 21 (drop 78 table) refl tt))
