-- ===== src/Zipper/Round/Reach.antt =====
-- What holds after any number of rounds of the zipper's main loop.
use mathlib.Core.Path.{subst}
use fpga_tools.Prelude.{
  ℕ, ◌+◌, ◌≡◌, ◌⊎◌, inl, inr, Bool, true, false, arith, Option, none, some, Option-cases,
  Bool-cases, List, [], ◌∷◌, ◌++◌, ◌==◌,
}
use fpga_tools.Zipper.{Zipper, pop_complete_event_id, free_event}
use fpga_tools.Zipper.Registry.{IsValid, register_waveform-IsValid, free_event-IsValid}
use fpga_tools.Zipper.RunReply.{Reply, parse_run_info_redis_reply}
use fpga_tools.Zipper.Round.{
  Main, message_device, message_event, Options, Input, Output, receive_message,
  recieve_waveform_from_redis, note_run, publish_stage, rotate_stage, save_stage, take_event,
  settle_event, event_stage, stats_stage, main_round,
}

receive_message-IsValid :
    (payload : ℕ → List ℕ) (mask reply : ℕ) (z : Zipper) {z' : Zipper}
    → IsValid z
    → receive_message payload mask reply z ≡ some z'
    → IsValid z'
unfolding receive_message
receive_message-IsValid payload mask reply z v e =
    register_waveform-IsValid mask (message_device (payload reply)) (message_event (payload reply))
      reply z v (ground arith)

recieve_waveform_from_redis-IsValid :
    (payload : ℕ → List ℕ) (mask : ℕ) (replies : List ℕ) (z : Zipper) {z' : Zipper}
    → IsValid z
    → recieve_waveform_from_redis payload mask replies z ≡ some z'
    → IsValid z'
unfolding recieve_waveform_from_redis
recieve_waveform_from_redis-IsValid payload mask [] z v e = ground arith
recieve_waveform_from_redis-IsValid payload mask (reply ∷ replies) z v e =
    elim (Option-cases (receive_message payload mask reply z)) [
      | inl aborted ↦ ground arith
      | inr (z₁, received) ↦
          recieve_waveform_from_redis-IsValid payload mask replies z₁
            (receive_message-IsValid payload mask reply z v received) (ground arith)
    ]

pop-IsValid :
    (z : Zipper)
    → IsValid z
    → IsValid (record z { event_ready_queue = (pop_complete_event_id z.event_ready_queue).1 })
unfolding pop_complete_event_id
pop-IsValid z v = record { slots = v.slots; queue_in = ground (arith, v.queue_in) }

note_run-zipper :
    (string2ll : List ℕ → Option ℕ) (reply : Option Reply) (m : Main) {m' : Main}
    → note_run string2ll reply m ≡ some m'
    → m'.zipper ≡ m.zipper
unfolding note_run
note_run-zipper string2ll none m e = ground arith
note_run-zipper string2ll (some r) m e =
    elim (Option-cases (parse_run_info_redis_reply string2ll r false)) [
      | inl aborted ↦ ground arith
      | inr (new_run, parsed) ↦ ground arith
    ]

module _ (payload : ℕ → List ℕ) (options : Options) (i : Input) where
  publish_stage-zipper :
      (event_id : ℕ) (m : Main) → (publish_stage payload options i event_id m).0.zipper ≡ m.zipper
  unfolding publish_stage
  publish_stage-zipper event_id m = ground arith

  rotate_stage-zipper :
      (m : Main) {m' : Main} → rotate_stage payload options i m ≡ some m' → m'.zipper ≡ m.zipper
  unfolding rotate_stage
  rotate_stage-zipper m e = elim (Option-cases (m.fout)) [
    | inl closed ↦ ground arith
    | inr (written, open_file) ↦ ground arith
  ]

  -- The zipper with its newest complete event popped.
  abbrev popped : Zipper → Zipper
  popped z = record z { event_ready_queue = (pop_complete_event_id z.event_ready_queue).1 }

  abbrev newest : Zipper → ℕ
  newest z = (pop_complete_event_id z.event_ready_queue).0

  take_event-zipper : (m : Main) → (take_event payload options i m).0.zipper ≡ popped m.zipper
  unfolding take_event
  take_event-zipper m = publish_stage-zipper _ _

  settle_event_cases :
      (event_id : ℕ) (saved : Option (ℕ × Option (List ℕ)) × Option (List ℕ)) (m : Main)
      (outputs : List Output) {go : Bool} {m' : Main} {outputs' : List Output}
      → settle_event payload options i event_id saved m outputs ≡ some (go, m', outputs')
      → (m'.zipper ≡ m.zipper)
        ⊎ (m'.zipper ≡ free_event options.complete_event_mask event_id m.zipper)
  unfolding settle_event
  settle_event_cases event_id (none, fout) m outputs e = inl (ground arith)
  settle_event_cases event_id (some (n, file), fout) m outputs e =
      elim (Option-cases (rotate_stage payload options i freed)) [
        | inl ended ↦ ground arith
        | inr (m₂, rotated) ↦ inr (ground (arith, rotate_stage-zipper freed rotated))
      ]
    where
      freed : Main
      freed = record m {
        fout = file;
        bytes_in_file = m.bytes_in_file + n;
        zipper = free_event options.complete_event_mask event_id m.zipper;
      }

  event_stage-IsValid :
      (m : Main) {go : Bool} {m' : Main} {outputs : List Output}
      → IsValid m.zipper
      → event_stage payload options i m ≡ some (go, m', outputs)
      → IsValid m'.zipper
  unfolding event_stage
  event_stage-IsValid m {go = go} {m' = m'} {outputs = outputs} v e =
      elim (Bool-cases (m.zipper.event_ready_queue.events_available == 0)) [
        | inl nothing ↦ subst IsValid {x = m.zipper} {y = m'.zipper} (ground arith) v
        | inr waiting ↦
            elim (settle_event_cases (newest m.zipper)
              (save_stage payload options i (newest m.zipper) taken.0) taken.0 taken.1 {go = go}
              {m' = m'} {outputs' = outputs} (ground arith)) [
                | inl kept ↦ rw (kept, take_event-zipper m) (pop-IsValid m.zipper v)
                | inr freed ↦
                    rw (freed, take_event-zipper m)
                      (free_event-IsValid options.complete_event_mask (newest m.zipper)
                        (popped m.zipper) (pop-IsValid m.zipper v))
              ]
      ]
    where
      taken : Main × List Output
      taken = take_event payload options i m

  stats_stage-zipper : (m : Main) → (stats_stage payload options i m).0.zipper ≡ m.zipper
  unfolding stats_stage
  stats_stage-zipper m = ground arith

  -- A round keeps the registry and the queue well formed.
  pub main_round-IsValid :
      (m : Main) {m' : Main} {outputs : List Output}
      → IsValid m.zipper
      → main_round payload options i m ≡ some (m', outputs)
      → IsValid m'.zipper
  unfolding main_round
  main_round-IsValid m {m' = m'} v e =
      elim (Option-cases (recieve_waveform_from_redis payload mask i.messages m.zipper)) [
        | inl aborted ↦ absurd (ground arith)
        | inr (z, received) ↦
            elim (Option-cases (note_run i.string2ll i.run_reply (record m { zipper = z }))) [
              | inl aborted ↦ absurd (ground arith)
              | inr (noted, parsed) ↦
                  let valid : IsValid noted.zipper =
                    rw (note_run-zipper i.string2ll i.run_reply (record m { zipper = z }) parsed) (
                      recieve_waveform_from_redis-IsValid payload mask i.messages m.zipper v
                        received) in
                  elim (Option-cases (event_stage payload options i noted)) [
                    | inl ended ↦ absurd (ground arith)
                    | inr ((false, m₁, events), done) ↦
                        subst IsValid {x = m₁.zipper} {y = m'.zipper} (ground arith)
                          (event_stage-IsValid noted valid done)
                    | inr ((true, m₁, events), done) ↦
                        subst IsValid {x = m₁.zipper} {y = m'.zipper}
                          (ground (arith, stats_stage-zipper m₁))
                          (event_stage-IsValid noted valid done)
                  ]
            ]
      ]
    where
      mask : ℕ
      mask = options.complete_event_mask

module _ (payload : ℕ → List ℕ) (options : Options) where
  -- The runs of `while(loop)` from a state on, with what they publish.
  pub data Run (start : Main) : Main → List Output → Type 0 where
    here : Run start start []
    next :
        {m m' : Main} {outputs outputs' : List Output} (i : Input)
        → Run start m outputs
        → m.loop ≡ true
        → main_round payload options i m ≡ some (m', outputs')
        → Run start m' (outputs ++ outputs')

  -- After any number of rounds of the main loop from a well-formed state each device bit that is
  -- set in a record has its reply, and the queue of complete events stays within its length.
  pub Run-IsValid :
      {start m : Main} {outputs : List Output}
      → IsValid start.zipper
      → Run start m outputs
      → IsValid m.zipper
  Run-IsValid v here = v
  Run-IsValid v (next {m} i run running round) =
      main_round-IsValid payload options i m (Run-IsValid v run) round
