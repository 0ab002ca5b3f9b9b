-- ===== src/Server/Call.antt =====
-- The call of a handler with the words of a client, in fakernet_code/server.c and ceres_server.c, and the
-- commands of both servers that read and write a register. Statistics, the log and waiting are left out. A
-- message is without the words that it shows.
use fpga_tools.Prelude.{
  ℕ, zero, suc, ◌-◌, Bool, Option, none, some, List, [], ◌∷◌, if◌then◌else◌, ltb, ◌==◌, u32,
}
use Prim.Native.String.{String}
use fpga_tools.Trigger.{Bus}
use fpga_tools.Server.Active.{length}
use fpga_tools.Commands.{
  Args, Reply, ok, error, integer, array, undefined, CliFunc, Func, func, legacy_func,
  ServerCommand,
}

-- Functions of libraries. Numbers that are negative in C are taken modulo 2 ^ 64. `strtol` and `string2ll` have no result for a word that is not a number;
-- `strcasecmp` is whether it returns 0.
pub record Strings : Type 0 where
  pub strtoul : String → ℕ
  pub strtol : String → Option ℕ
  pub string2ll : String → Option ℕ
  pub strcasecmp : String → String → Bool

-- `argv[i]` for an `i` that is in range.
unfoldable word_at : List String → ℕ → String
word_at [] i = ""
word_at (word ∷ rest) zero = word
word_at (word ∷ rest) (suc i) = word_at rest i

-- What stands at a pointer after a handler stored values there.
unfoldable pub stored_at : List ℕ → Args → Args
stored_at [] args i = args i
stored_at (value ∷ rest) args zero = value
stored_at (value ∷ rest) args (suc i) = stored_at rest (λ j. args (suc j)) i

unfoldable pub integers : Args → ℕ → List Reply
integers args zero = []
integers args (suc n) = integer (args 0) ∷ integers (λ i. args (suc i)) n

-- The reply for what a handler of numbers returned and stored.
unfoldable pub legacy_reply : ℕ → ℕ → Args → List Reply
unfolding integers
legacy_reply nresp resp args =
    if nresp == 0
    then ok ∷ []
    else if nresp == 1
    then integer resp ∷ []
    else if resp == 0
    then array nresp ∷ integers args nresp
    else error "Error performing command" ∷ []

module _ (strtoul : String → ℕ) where
  -- `args_uint`: the arguments, then memory as `malloc` found it.
  unfoldable pub args_uint : ℕ → List String → Args → Args
  unfolding word_at
  args_uint nargs argv memory i =
      if ltb i (nargs - 1) then u32 (strtoul (word_at argv (suc i))) else memory i

  -- The words from 1 to `nargs - 1` are read.
  unfoldable pub call_function : {S : Type 0} → Args → ℕ → ℕ → Func S → CliFunc S
  unfolding args_uint legacy_reply stored_at length
  call_function memory nargs nresp (func f) argv s = f argv s
  call_function memory nargs nresp (legacy_func f) argv s =
      let args = args_uint nargs argv memory in
      let (answer, s') = f args s in
      if ltb (length argv) nargs then (some (undefined ∷ []), s) else (
        elim answer [
          | none ↦ none
          | some (resp, stores) ↦ some (legacy_reply nresp resp (stored_at stores args))
        ],
        s',
      )

  -- `call` without a call of the server's own, and the same in `ceres_call`.
  unfoldable pub call : {S : Type 0} → Args → ServerCommand S → CliFunc S
  unfolding call_function
  call memory cmd = call_function memory cmd.nargs cmd.nresp cmd.call

module _ (strings : Strings) (bus : Bus) {H : Type 0} where
  open strings use {strtol, string2ll}

  -- The commands of every server; `H` is the handle of the board.
  unfoldable pub write_addr_command : CliFunc (H × bus.State)
  write_addr_command (name ∷ addr ∷ val ∷ rest) (handle, s) = elim (strtol addr) [
    | none ↦ (some (error "not a valid number" ∷ []), (handle, s))
    | some addr' ↦ elim (strtol val) [
      | none ↦ (some (error "not a valid number" ∷ []), (handle, s))
      | some val' ↦
          let (code, s') = bus.write_addr (u32 addr') 0 (u32 val') s in
          (some (ok ∷ []), (handle, s'))
    ]
  ]
  write_addr_command words s = (some (undefined ∷ []), s)

  unfoldable pub read_addr_command : CliFunc (H × bus.State)
  read_addr_command (name ∷ addr ∷ rest) (handle, s) = elim (strtol addr) [
    | none ↦ (some (error "not a valid number" ∷ []), (handle, s))
    | some addr' ↦
        let (reply, s') = bus.double_read_addr (u32 addr') 0 s in
        (
          some (
              elim reply [ none ↦ error "failed to read value from FPGA." | some ret ↦ integer ret ]
              ∷ []),
          (handle, s'),
        )
  ]
  read_addr_command words s = (some (undefined ∷ []), s)

  unfoldable pub sleep_command : CliFunc (H × bus.State)
  sleep_command (name ∷ val ∷ rest) s = elim (string2ll val) [
    | none ↦ (some (error "not a valid number" ∷ []), s)
    | some seconds ↦ (some (ok ∷ []), s)
  ]
  sleep_command words s = (some (undefined ∷ []), s)
