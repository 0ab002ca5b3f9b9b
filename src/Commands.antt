-- ===== src/Commands.antt =====
-- The commands of the boards' servers, in fakernet_code: what a handler is given and answers, and the
-- table of commands (server_common.h). Each handler is a program over the handle of its board, which is
-- made on first use, and the bus.
pub mod Fontus
pub mod Ceres
use fpga_tools.Prelude.{ℕ, ◌-◌, ◌≡◌, Option, none, some, List, [], ◌∷◌, ltb, if◌then◌else◌}
use Prim.Native.String.{String}
use fpga_tools.Devices.{Driver}

-- `uint32_t* args`: what stands at the pointer.
abbrev pub Args : Type 0
Args = ℕ → ℕ

-- What a handler returns, with what it stores at the pointer. `none` is a loop that does not end.
abbrev pub Answer : Type 0
Answer = Option (ℕ × List ℕ)

-- `LegacyFunc`
abbrev LegacyFunc : Type 0 → Type 0
LegacyFunc S = Args → Driver S Answer

-- A handler that only returns a value.
abbrev pub returned : {S : Type 0} → (Args → Driver S ℕ) → LegacyFunc S
returned f args s = let (resp, s') = f args s in (some (resp, []), s')

-- A handler that may not return.
abbrev pub may_return : {S : Type 0} → (Args → Driver S (Option ℕ)) → LegacyFunc S
may_return f args s =
    let (resp, s') = f args s in (elim resp [ none ↦ none | some r ↦ some (r, []) ], s')

-- What is sent to a client, item by item: an array of so many items, `OK`, a status of a name and a
-- number, an error, a number or null; or characters that are no item. `undefined` stands for a read of a
-- word that is not there, after which anything may be sent.
pub data Reply : Type 0 where
  array : ℕ → Reply
  ok : Reply
  status : String → ℕ → Reply
  error : String → Reply
  integer : ℕ → Reply
  null : Reply
  characters : String → Reply
  undefined : Reply

-- `CLIFunc`: a handler of the client's words, the first of which is the name of the command. `none` is a
-- loop that does not end.
abbrev pub CliFunc : Type 0 → Type 0
CliFunc S = List String → Driver S (Option (List Reply))

-- The words as numbers and in capitals; both are functions of libraries. `of_infinity` is what the machine
-- makes of an infinite double as a `uint32_t`, which C leaves open.
pub record Texts : Type 0 where
  pub strtoul : String → ℕ
  pub sdstoupper : String → String
  pub of_infinity : ℕ

pub data Func (S : Type 0) : Type 0 where
  func : CliFunc S → Func S
  legacy_func : LegacyFunc S → Func S

-- `ServerCommand`, without the statistics. The end of a table is the end of a list.
pub record ServerCommand (S : Type 0) : Type 0 where
  pub name : String
  pub call : Func S
  pub nargs : ℕ
  pub nresp : ℕ

-- The first arguments alone.
abbrev pub first_args : ℕ → Args → Args
first_args n args i = if ltb i n then args i else 0

-- A handler of numbers does the same with the arguments that its entry counts alone.
abbrev pub ReadsArgs : {S : Type 0} → ServerCommand S → Type 0
ReadsArgs {S} e = elim (e.call) [
  | func f ↦ Unit {0}
  | legacy_func f ↦ (args : Args) (s : S) → f args s ≡ f (first_args (e.nargs - 1) args) s
]

abbrev pub All {ℓ κ} : {A : Type ℓ} → (A → Type κ) → List A → Type κ
All P [] = Unit
All P (x ∷ xs) = P x × All P xs

-- A pair, for proofs of `All`.
infixr 20 ◌also◌
abbrev pub ◌also◌ : {A B : Type 0} → A → B → A × B
a also b = (a, b)
