-- ===== src/Builder/Main/Rounds.antt =====
-- What each stage of a round of the main loop does to the event that is ready, to the count of events
-- and to the soundness of the state, whatever the sockets, the pipes and the clock do.
use fpga_tools.Prelude.{
  ℕ, ◌+◌, ◌<◌, ◌≤◌, ◌≡◌, ◌≢◌, refl, ◌∙◌, Bool, true, false, arith, none, some, List, length, u32,
  if◌then◌else◌,
}
use fpga_tools.Builder.Ring.{RingBuffer, pull_from_fpga}
use fpga_tools.Builder.Ring.Inv.{IsValid}
use fpga_tools.Builder.Ring.Refine.{pull_from_fpga_refines}
use fpga_tools.Builder.Event.{Reader}
use fpga_tools.Builder.Validate.{ProcessingStats, publish_event}
use fpga_tools.Builder.Manager.{receive_manager_io}
use fpga_tools.Builder.Main.{
  Builder, BuilderConfig, BuilderProtocol, Input, manager_switch, manager_stage, read_stage,
  stats_stage, event_stage,
}
use fpga_tools.Builder.Main.Readers.{Reads, find_event_start-IsValid}
use fpga_tools.Builder.Main.Outputs.{publications, validations, ArePublished}

-- What the loop relies on in a protocol.
pub record IsProtocol {H : Type 0} (protocol : BuilderProtocol H) : Type 0 where
  pub reads : (r : Reader H) → Reads r (protocol.reader_process r)
  pub counts :
      (header : H) (stats : ProcessingStats)
      → (protocol.update_stats header stats).event_count ≡ stats.event_count

-- `recvmsg` returns no more than it is given room for.
abbrev pub IsBounded : Input → Type 0
IsBounded i = (n : ℕ) (bytes : List ℕ) → i.recvmsg n ≡ some bytes → length bytes ≤ n

-- The ring is valid, and a builder that is reeling has no event ready.
pub record IsSound {H : Type 0} (b : Builder H) : Type 0 where
  pub ring : IsValid b.reader.ring_buffer
  pub idle : b.reader.reeling ≡ true → b.event_ready ≡ false

-- The stages that only report leave the event, its count and the loop alone.
record IsUndisturbed {H : Type 0} (b b' : Builder H) : Type 0 where
  reader : b'.reader ≡ b.reader
  ready : b'.event_ready ≡ b.event_ready
  header : b'.event_header ≡ b.event_header
  count : b'.stats.event_count ≡ b.stats.event_count
  running : b'.loop ≡ b.loop

IsUndisturbed-IsSound :
    {H : Type 0} {b b' : Builder H} → IsUndisturbed b b' → IsSound b → IsSound b'
IsUndisturbed-IsSound u s = record {
  ring = rw (u.reader) s.ring;
  idle = rw (u.reader, u.ready) s.idle;
}

module _ {H : Type 0} (config : BuilderConfig) (protocol : BuilderProtocol H) where
  module _ (i : Input) where
    manager_switch-IsUndisturbed :
        (b : Builder H) → IsUndisturbed b (manager_switch config protocol i b)
    unfolding manager_switch
    manager_switch-IsUndisturbed b = ground arith

    manager_stage-IsUndisturbed :
        (b : Builder H) → IsUndisturbed b (manager_stage config protocol i b).0
    unfolding manager_stage
    manager_stage-IsUndisturbed b = ground (arith, manager_switch-IsUndisturbed received)
      where
        received : Builder H
        received =
            let (m, in_pipe) = receive_manager_io i.pipe_read b.manager_command b.in_pipe in
            record b { manager_command = m; in_pipe = in_pipe }

    pub validations-manager_stage :
        (b : Builder H) → validations (manager_stage config protocol i b).1 ≡ 0
    unfolding manager_stage validations
    validations-manager_stage b = ground arith

    pub manager_stage-ArePublished :
        (b : Builder H) → ArePublished config.redis (manager_stage config protocol i b).1
    unfolding manager_stage validations publications
    manager_stage-ArePublished b = ground arith

    stats_stage-IsUndisturbed :
        (b : Builder H) → IsUndisturbed b (stats_stage config protocol i b).0
    unfolding stats_stage
    stats_stage-IsUndisturbed b = ground arith

    pub validations-stats_stage :
        (b : Builder H) → validations (stats_stage config protocol i b).1 ≡ 0
    unfolding stats_stage validations
    validations-stats_stage b = ground arith

    pub stats_stage-ArePublished :
        (b : Builder H) → ArePublished config.redis (stats_stage config protocol i b).1
    unfolding stats_stage validations publications
    stats_stage-ArePublished b = ground arith

    read_stage-IsSound :
        (b : Builder H)
        → IsProtocol protocol
        → IsBounded i
        → IsSound b
        → IsSound (read_stage config protocol i b)
    unfolding read_stage
    read_stage-IsSound b p bounded s = ground (
      arith,
      find_event_start-IsValid pulled protocol.magic_value arrived,
      read.ring arrived,
      read.calm,
    )
      where
        pulled : RingBuffer
        pulled = (pull_from_fpga i.recvmsg b.reader.ring_buffer).1

        arrived : IsValid pulled
        arrived = (pull_from_fpga_refines i.recvmsg b.reader.ring_buffer bounded s.ring).1

        reader : Reader H
        reader = record (b.reader) { ring_buffer = pulled }

        read : Reads reader (protocol.reader_process reader)
        read = p.reads reader

    pub event_stage-IsSound :
        (b : Builder H) → IsSound b → IsSound (event_stage config protocol i b).0
    unfolding event_stage
    event_stage-IsSound b s = ground arith

    read_stage-count :
        (b : Builder H)
        → let b' = read_stage config protocol i b in
          (b'.stats.event_count ≡ b.stats.event_count) × (b'.loop ≡ b.loop)
    unfolding read_stage
    read_stage-count b = ground arith

    -- Whether a round will have an event: the builder is not reeling, and its reader yields an event.
    unfoldable pub yields : Builder H → Bool
    yields b =
        let ring = (pull_from_fpga i.recvmsg b.reader.ring_buffer).1 in
        let result = (protocol.reader_process (record (b.reader) { ring_buffer = ring })).0 in
        if b.reader.reeling then false else elim result [ none ↦ false | some header ↦ true ]

    read_stage-yields :
        (b : Builder H) → IsSound b → (read_stage config protocol i b).event_ready ≡ yields b
    unfolding read_stage yields
    read_stage-yields b s = ground (arith, s.idle)

    -- What the last stage does to the count and to the loop.
    pub event_stage-count :
        (b : Builder H)
        → IsProtocol protocol
        → let b' = (event_stage config protocol i b).0 in
          (b'.stats.event_count
            ≡ (if b.event_ready then u32 (b.stats.event_count + 1) else b.stats.event_count))
          × (validations (event_stage config protocol i b).1 ≡ (if b.event_ready then 1 else 0))
    unfolding event_stage publish_event validations
    event_stage-count b p = ground (
      arith,
      p.counts b.event_header (record (b.stats) { event_count = u32 (b.stats.event_count + 1) }),
    )

    pub event_stage-ArePublished :
        (b : Builder H) → ArePublished config.redis (event_stage config protocol i b).1
    unfolding event_stage publish_event validations publications
    event_stage-ArePublished b = ground arith

    -- The loop goes on if it did and the number of events asked for is not reached.
    pub event_stage-loop :
        (b : Builder H) → (event_stage config protocol i b).0.loop ≡ true → b.loop ≡ true
    unfolding event_stage
    event_stage-loop b running = ground arith

    pub event_stage-limit :
        (b : Builder H)
        → IsProtocol protocol
        → config.num_events ≢ 0
        → b.event_ready ≡ true
        → (event_stage config protocol i b).0.loop ≡ true
        → (event_stage config protocol i b).0.stats.event_count < config.num_events
    unfolding event_stage
    event_stage-limit b p limited ready running = ground (
      arith,
      p.counts b.event_header (record (b.stats) { event_count = u32 (b.stats.event_count + 1) }),
    )

    pub event_stage-cleared :
        (b : Builder H)
        → b.event_ready ≡ true
        → (event_stage config protocol i b).0.reader.event_buffer.num_bytes ≡ 0
    unfolding event_stage
    event_stage-cleared b ready = ground arith

    -- The builder before the last stage.
    abbrev pub before : Builder H → Builder H
    before b =
        (stats_stage config protocol i
          (read_stage config protocol i (manager_stage config protocol i b).0)).0

    yields-manager_stage : (b : Builder H) → yields (manager_stage config protocol i b).0 ≡ yields b
    unfolding yields
    yields-manager_stage b = simp ((manager_stage-IsUndisturbed b).reader) refl

    pub before-IsSound :
        (b : Builder H) → IsProtocol protocol → IsBounded i → IsSound b → IsSound (before b)
    before-IsSound b p bounded s = IsUndisturbed-IsSound (stats_stage-IsUndisturbed read) (
        read_stage-IsSound managed p bounded
          (IsUndisturbed-IsSound (manager_stage-IsUndisturbed b) s))
      where
        managed : Builder H
        managed = (manager_stage config protocol i b).0

        read : Builder H
        read = read_stage config protocol i managed

    pub before-ready : (b : Builder H) → IsSound b → (before b).event_ready ≡ yields b
    before-ready b s =
        (stats_stage-IsUndisturbed _).ready
        ∙ read_stage-yields _ (IsUndisturbed-IsSound (manager_stage-IsUndisturbed b) s)
        ∙ yields-manager_stage b

    pub before-count :
        (b : Builder H)
        → ((before b).stats.event_count ≡ b.stats.event_count) × ((before b).loop ≡ b.loop)
    before-count b = (
      (stats_stage-IsUndisturbed _).count ∙ (read_stage-count _).0 ∙ managed.count,
      (stats_stage-IsUndisturbed _).running ∙ (read_stage-count _).1 ∙ managed.running,
    )
      where
        managed : IsUndisturbed b (manager_stage config protocol i b).0
        managed = manager_stage-IsUndisturbed b
