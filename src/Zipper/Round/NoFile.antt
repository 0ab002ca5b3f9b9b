-- ===== src/Zipper/Round/NoFile.antt =====
-- What the zipper's main loop does with an event when it has no file.
use fpga_tools.Prelude.{ℕ, ◌+◌, ◌≡◌, ◌≢◌, refl, ap, ◌∙◌, true, arith, none, some, List, u32}
use fpga_tools.Zipper.{Zipper, pop_complete_event_id}
use fpga_tools.Zipper.Stats.{evaluate_event_stats, store_timestamps}
use fpga_tools.Zipper.Round.{
  Main, Options, Input, Output, publish_stage, rotate_stage, save_stage, take_event, settle_event,
  event_stage,
}

module _ (payload : ℕ → List ℕ) (options : Options) (i : Input) (m : Main) where
  -- The newest complete event, and the zipper without it.
  abbrev pub newest : ℕ
  newest = (pop_complete_event_id m.zipper.event_ready_queue).0

  abbrev pub popped : Zipper
  popped = record (m.zipper) {
    event_ready_queue = (pop_complete_event_id m.zipper.event_ready_queue).1;
  }

  taken_facts :
      let m' = (take_event payload options i m).0 in
      (m'.zipper ≡ popped)
      × (m'.fout ≡ m.fout)
      × (m'.stats.event_count ≡ u32 (m.stats.event_count + 1))
      × (m'.start_new_run ≡ m.start_new_run)
  unfolding take_event publish_stage evaluate_event_stats store_timestamps
  taken_facts = ground arith

  event_stage-taken :
      m.zipper.event_ready_queue.events_available ≢ 0
      → let (m', outputs) = take_event payload options i m in
        event_stage payload options i m
        ≡ settle_event payload options i newest (save_stage payload options i newest m') m' outputs
  unfolding event_stage
  event_stage-taken waiting = ground arith

  saves_nothing :
      (m' : Main) → m'.fout ≡ none → save_stage payload options i newest m' ≡ (some (0, none), none)
  unfolding save_stage
  saves_nothing m' closed = rw closed refl

  ends_without_file :
      (n : ℕ) (m' : Main) (outputs : List Output)
      → m'.start_new_run ≡ true
      → settle_event payload options i newest (some (n, none), none) m' outputs ≡ none
  unfolding settle_event rotate_stage
  ends_without_file n m' outputs new_run = ground arith

  -- Without a file, as after a file that could not be opened, a new run ends the program at the next
  -- complete event.
  pub event_stage_no_file :
      m.zipper.event_ready_queue.events_available ≢ 0
      → m.fout ≡ none
      → m.start_new_run ≡ true
      → event_stage payload options i m ≡ none
  event_stage_no_file waiting closed new_run =
      event_stage-taken waiting
      ∙ ap
          (λ saved.
            settle_event payload options i newest saved (take_event payload options i m).0
              (take_event payload options i m).1)
          (saves_nothing (take_event payload options i m).0 (taken_facts.1 ∙ closed))
      ∙ ends_without_file 0 (take_event payload options i m).0 (take_event payload options i m).1
          (taken_facts.3 ∙ new_run)
