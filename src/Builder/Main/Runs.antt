-- ===== src/Builder/Main/Runs.antt =====
-- Runs of the main loop: what holds after any number of rounds, whatever the sockets, the pipes and the
-- clock do.
use fpga_tools.Prelude.{
  ℕ, ◌+◌, ◌%◌, ◌^◌, ◌<◌, ◌≤◌, ◌≡◌, ◌≢◌, ◌⊎◌, inl, inr, refl, ap, ◌∙◌, Bool, true, arith, Bool-cases,
  List, [], ◌++◌, Memory, u32, if◌then◌else◌,
}
use fpga_tools.Builder.Ring.{initialize_ring_buffer}
use fpga_tools.Builder.Event.{Reader}
use fpga_tools.Builder.Validate.{ceres_update_stats, fontus_update_stats}
use fpga_tools.Builder.Manager.{ManagerIo, Fd}
use fpga_tools.Builder.Main.{
  Builder, BuilderConfig, BuilderProtocol, ceres_protocol, fontus_protocol, Input, Output,
  manager_stage, read_stage, stats_stage, event_stage, main_round, initial_builder,
}
use fpga_tools.Builder.Main.Readers.{ceres_read_proc-Reads}
use fpga_tools.Builder.Main.Readers.FontusReads.{fontus_read_proc-Reads}
use fpga_tools.Builder.Main.Outputs.{
  validations, publications, ArePublished, append-ArePublished, validations-append,
}
use fpga_tools.Builder.Main.Rounds.{
  manager_stage-ArePublished, stats_stage-ArePublished, event_stage-ArePublished,
  validations-manager_stage, validations-stats_stage, IsProtocol, IsBounded, IsSound, yields,
  before, before-IsSound, before-ready, before-count, event_stage-IsSound, event_stage-count,
  event_stage-limit, event_stage-cleared,
}

pub ceres_protocol-IsProtocol :
    (crc8 : ℕ → ℕ → ℕ) (crc32 : ℕ → List ℕ → ℕ) → IsProtocol (ceres_protocol crc8 crc32)
unfolding ceres_protocol ceres_update_stats
ceres_protocol-IsProtocol crc8 crc32 = record {
  reads = ceres_read_proc-Reads crc8;
  counts = λ header stats. refl;
}

pub fontus_protocol-IsProtocol :
    (crc32 : ℕ → List ℕ → ℕ) (stack : Memory) → IsProtocol (fontus_protocol crc32 stack)
unfolding fontus_protocol fontus_update_stats
fontus_protocol-IsProtocol crc32 stack = record {
  reads = fontus_read_proc-Reads crc32 stack;
  counts = λ header stats. refl;
}

module _ {H : Type 0} (config : BuilderConfig) (protocol : BuilderProtocol H) where
  -- The runs of `while(loop)` from a state on, with what they send.
  pub data Run (start : Builder H) : Builder H → List Output → Type 0 where
    here : Run start start []
    next :
        {b : Builder H} {outputs : List Output} (i : Input)
        → Run start b outputs
        → b.loop ≡ true
        → IsBounded i
        → Run start
            (main_round config protocol i b).0
            (outputs ++ (main_round config protocol i b).1)

  main_round-outputs :
      (i : Input) (b : Builder H)
      → let (managed, responses) = manager_stage config protocol i b in
        let (reported, stats) =
          stats_stage config protocol i (read_stage config protocol i managed) in
        (main_round config protocol i b).1
        ≡ responses ++ stats ++ (event_stage config protocol i reported).1
  unfolding main_round
  main_round-outputs i b = refl

  validations-main_round :
      (i : Input) (b : Builder H)
      → IsProtocol protocol
      → IsSound b
      → validations (main_round config protocol i b).1
        ≡ (if yields config protocol i b then 1 else 0)
  validations-main_round i b p s = omega (
    arith,
    ap validations (main_round-outputs i b),
    validations-append (responses ++ stats) events,
    validations-append responses stats,
    validations-manager_stage config protocol i b,
    validations-stats_stage config protocol i (read_stage config protocol i managed.0),
    (event_stage-count config protocol i (before config protocol i b) p).1,
    ap {B = ℕ} (λ (y : Bool). if y then 1 else 0) (before-ready config protocol i b s),
  )
    where
      managed : Builder H × List Output
      managed = manager_stage config protocol i b

      responses : List Output
      responses = managed.1

      stats : List Output
      stats = (stats_stage config protocol i (read_stage config protocol i managed.0)).1

      events : List Output
      events = (event_stage config protocol i (before config protocol i b)).1

  -- For such a protocol, a round from a sound state validates one event if the builder is not
  -- reeling and its reader yields an event, and none otherwise; a round that does leaves the
  -- event buffer empty.
  pub main_round_validates :
      (i : Input) (b : Builder H)
      → IsProtocol protocol
      → IsSound b
      → let (b', outputs) = main_round config protocol i b in
        (validations outputs ≡ (if yields config protocol i b then 1 else 0))
        × (validations outputs ≡ 0 ⊎ b'.reader.event_buffer.num_bytes ≡ 0)
  unfolding main_round
  main_round_validates i b p s = (validations-main_round i b p s, cleared)
    where
      cleared :
          validations (main_round config protocol i b).1 ≡ 0
          ⊎ (main_round config protocol i b).0.reader.event_buffer.num_bytes ≡ 0
      cleared = elim (Bool-cases (yields config protocol i b)) [
        | inl some_event ↦ inr (
            event_stage-cleared config protocol i (before config protocol i b)
              (before-ready config protocol i b s ∙ some_event))
        | inr nothing ↦ inl (validations-main_round i b p s ∙ rw nothing refl)
      ]

  main_round-ArePublished :
      (i : Input) (b : Builder H) → ArePublished config.redis (main_round config protocol i b).1
  unfolding main_round
  main_round-ArePublished i b =
      append-ArePublished config.redis (managed.1 ++ reported.1) _
        (append-ArePublished config.redis managed.1 reported.1
          (manager_stage-ArePublished config protocol i b)
          (stats_stage-ArePublished config protocol i read))
        (event_stage-ArePublished config protocol i reported.0)
    where
      managed : Builder H × List Output
      managed = manager_stage config protocol i b

      read : Builder H
      read = read_stage config protocol i managed.0

      reported : Builder H × List Output
      reported = stats_stage config protocol i read

  -- The events that any run publishes.
  Run-ArePublished :
      {start b : Builder H} {outputs : List Output}
      → Run start b outputs
      → ArePublished config.redis outputs
  unfolding publications validations
  Run-ArePublished here = ground arith
  Run-ArePublished (next {b} {outputs} i run running bounded) =
      append-ArePublished config.redis outputs _ (Run-ArePublished run)
        (main_round-ArePublished i b)

  pub main_round-IsSound :
      (i : Input) (b : Builder H)
      → IsProtocol protocol
      → IsBounded i
      → IsSound b
      → IsSound (main_round config protocol i b).0
  unfolding main_round
  main_round-IsSound i b p bounded s =
      event_stage-IsSound config protocol i (before config protocol i b)
        (before-IsSound config protocol i b p bounded s)

  -- The count of events after a round.
  main_round-count :
      (i : Input) (b : Builder H)
      → IsProtocol protocol
      → IsSound b
      → let (b', outputs) = main_round config protocol i b in
        b'.stats.event_count ≡ (
          if yields config protocol i b then u32 (b.stats.event_count + 1) else b.stats.event_count)
  unfolding main_round
  main_round-count i b p s =
      (event_stage-count config protocol i (before config protocol i b) p).0
      ∙ rw ((before-count config protocol i b).0, before-ready config protocol i b s) refl

  main_round-limit :
      (i : Input) (b : Builder H)
      → IsProtocol protocol
      → IsSound b
      → config.num_events ≢ 0
      → yields config protocol i b ≡ true
      → (main_round config protocol i b).0.loop ≡ true
      → (main_round config protocol i b).0.stats.event_count < config.num_events
  unfolding main_round
  main_round-limit i b p s limited some_event =
      event_stage-limit config protocol i (before config protocol i b) p limited
        (before-ready config protocol i b s ∙ some_event)

  module _ (start : Builder H) (p : IsProtocol protocol) (sound : IsSound start) where
    -- For a protocol whose reader keeps a valid ring valid and changes reeling only when it yields
    -- no event, after any number of rounds of the main loop from a sound state the ring is valid
    -- and a builder that is reeling has no event ready, whatever the sockets, pipes and clock do,
    -- if recvmsg delivers no more than it is asked for.
    pub Run-IsSound : {b : Builder H} {outputs : List Output} → Run start b outputs → IsSound b
    Run-IsSound here = sound
    Run-IsSound (next {b} i run running bounded) =
        main_round-IsSound i b p bounded (Run-IsSound run)

    -- The events that are validated are counted.
    validations_counted :
        start.stats.event_count ≡ 0
        → {b : Builder H} {outputs : List Output} → Run start b outputs
        → b.stats.event_count ≡ validations outputs % 2 ^ 32
    unfolding validations
    validations_counted zero_count here = zero_count
    validations_counted zero_count (next {b} {outputs} i run running bounded) = ground (
      arith,
      validations-append outputs (main_round config protocol i b).1,
      validations_counted zero_count run,
      validations-main_round i b p (Run-IsSound run),
      main_round-count i b p (Run-IsSound run),
    )

    -- A run of the main loop from a sound state with the count 0, for a protocol whose reader
    -- keeps what the loop relies on and that leaves the count alone, counts the events that it
    -- validates, modulo 2 ^ 32, and publishes as many if there is a connection to redis, and none
    -- otherwise.
    pub Run-counts :
        start.stats.event_count ≡ 0
        → {b : Builder H} {outputs : List Output} → Run start b outputs
        → (b.stats.event_count ≡ validations outputs % 2 ^ 32)
          × (publications outputs ≡ (if config.redis then validations outputs else 0))
    Run-counts zero_count run = (validations_counted zero_count run, Run-ArePublished run)

    validations_limited :
        start.stats.event_count ≡ 0
        → config.num_events ≢ 0
        → config.num_events < 2 ^ 32
        → {b : Builder H} {outputs : List Output} → Run start b outputs
        → (validations outputs ≤ config.num_events)
          × (b.loop ≡ true → validations outputs < config.num_events)
    unfolding validations
    validations_limited zero_count limited small here = ground arith
    validations_limited zero_count limited small (next {b} {outputs} i run running bounded) =
        ground (
          arith,
          validations-append outputs (main_round config protocol i b).1,
          validations_counted zero_count run,
          validations_limited zero_count limited small run,
          validations-main_round i b p (Run-IsSound run),
          main_round-count i b p (Run-IsSound run),
          main_round-limit i b p (Run-IsSound run) limited,
        )

    -- A run of the main loop from a sound state with the count 0, for such a protocol that leaves
    -- the count alone, publishes at most as many events as the configuration asks for, and fewer
    -- while the loop goes on, if that number is neither 0 nor 2 ^ 32 or more.
    pub Run-limited :
        start.stats.event_count ≡ 0
        → config.num_events ≢ 0
        → config.num_events < 2 ^ 32
        → {b : Builder H} {outputs : List Output} → Run start b outputs
        → (publications outputs ≤ config.num_events)
          × (b.loop ≡ true → publications outputs < config.num_events)
    Run-limited zero_count limited small {b} {outputs} run = (
      ground (arith, Run-ArePublished run, validations_limited zero_count limited small run),
      λ running. ground (
        arith,
        Run-ArePublished run,
        (validations_limited zero_count limited small run).1 running,
      ),
    )

-- The loop starts in a sound state.
pub initial_builder-IsSound :
    {H : Type 0} (mem : Memory) (reader : Reader H) (header : H) (command : ManagerIo)
    (in_pipe out_pipe : Fd) (fd : ℕ)
    → reader.ring_buffer ≡ initialize_ring_buffer mem
    → IsSound (initial_builder reader header command in_pipe out_pipe fd)
unfolding initial_builder initialize_ring_buffer
initial_builder-IsSound mem reader header command in_pipe out_pipe fd fresh = record {
  ring = rw fresh ((ground arith));
  idle = λ reels. refl;
}
