-- ===== src/Builder/Main/Pipe.antt =====
-- The manager's requests and the reset of the connection: what is answered, and when a reset that
-- reports success has a connection.
use fpga_tools.Prelude.{
  ℕ, ◌≡◌, refl, Bool, true, false, ◌&&◌, arith, none, some, Option-cases, inl, inr, List, [], ◌∷◌,
  if◌then◌else◌, ltb, leb,
}
use fpga_tools.Builder.Manager.{no_data, Fd, receive_manager_io, Attempt, is_open, reset_connection}
use fpga_tools.Builder.Main.{
  Builder, BuilderConfig, BuilderProtocol, Input, Output, responded, published_stats, validated,
  published, saved, manager_switch, manager_stage,
}

-- The descriptor of the first attempt that connects.
unfoldable pub first_connected : List Attempt → Fd
first_connected [] = none
first_connected (a ∷ attempts) =
    let later = first_connected attempts in if is_open a.connected then a.connected else later

-- The result of `reset_connection` is 0 exactly if it leaves a descriptor that is not negative.
reset_connection_result :
    (udp_client running : Bool) (attempts : List Attempt) (fd : Fd)
    → let (result, fd') = reset_connection udp_client running attempts fd in
      result ≡ (if is_open fd' then 0 else 1)
unfolding reset_connection
reset_connection_result udp_client running [] fd = refl
reset_connection_result udp_client running (a ∷ attempts) fd = ground (
  arith,
  reset_connection_result udp_client running attempts fd,
  reset_connection_result udp_client running attempts a.connected,
)

-- Without a connection, and with nothing to send before it, the reset goes on to the first attempt
-- that connects.
reset_connection-none :
    (attempts : List Attempt)
    → (reset_connection false true attempts none).1 ≡ first_connected attempts
unfolding reset_connection first_connected
reset_connection-none [] = refl
reset_connection-none (a ∷ attempts) = elim (Option-cases a.connected) [
  | inl failed ↦ rw failed (reset_connection-none attempts)
  | inr (fd, connected) ↦ rw connected refl
]

-- Without a UDP client, reset_connection goes on to the first attempt that connects, if there is
-- an attempt, and returns 0 exactly if it leaves a connection.
pub reset_connection_reconnects :
    (a : Attempt) (attempts : List Attempt) (fd : Fd)
    → let (result, fd') = reset_connection false true (a ∷ attempts) fd in
      (fd' ≡ first_connected (a ∷ attempts)) × (result ≡ (if is_open fd' then 0 else 1))
unfolding reset_connection
reset_connection_reconnects a attempts fd =
    (reset_connection-none (a ∷ attempts), reset_connection_result false true (a ∷ attempts) fd)

-- With a UDP client, a reset that cannot be sent ends the loop of reset_connection at once, if the
-- descriptor was not negative: the descriptor that has just been closed is kept, and the result is
-- 0, whatever the attempts after it would give.
pub reset_connection_stale :
    (running : Bool) (a : Attempt) (attempts : List Attempt) (fd : ℕ)
    → a.reset_sent ≡ false
    → reset_connection true running (a ∷ attempts) (some fd) ≡ (0, some fd)
unfolding reset_connection
reset_connection_stale running a attempts fd unsent = ground arith

-- The commands that are answered.
abbrev pub is_request : ℕ → Bool
is_request command = ltb 0 command && leb command 5

-- The commands of the answers among what is sent.
unfoldable pub answered : List Output → List ℕ
answered [] = []
answered (responded m ∷ outputs) = m.command ∷ answered outputs
answered (published_stats stats ∷ outputs) = answered outputs
answered (validated n ∷ outputs) = answered outputs
answered (published event ∷ outputs) = answered outputs
answered (saved bytes ∷ outputs) = answered outputs

module _ {H : Type 0} (config : BuilderConfig) (protocol : BuilderProtocol H) (i : Input) where
  -- A round without a message answers nothing.
  pub manager_stage_silent :
      (b : Builder H) (pipe_in : ℕ)
      → b.in_pipe ≡ some pipe_in
      → i.pipe_read ≡ no_data
      → (manager_stage config protocol i b).1 ≡ []
  unfolding manager_stage manager_switch receive_manager_io
  manager_stage_silent b pipe_in in_open nothing = ground arith
